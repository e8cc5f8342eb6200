-- ===== src/Hooks/Words.antt =====
-- What the word filter of SayHooks.py leaves alone.
use uberserver.Base.{
  All, ◌≡◌, refl, sym, ap, ◌∙◌, Bool, true, not, List, [], ◌∷◌, ◌++◌, none, text_eq, ◌==◌, ==_iff,
  Bool-cases, inl, inr, if◌then◌else◌, append_assoc,
}
use uberserver.Base.Dict.{lookup}
use uberserver.Base.Text.{Text, lower, upper}
use uberserver.Hooks.{Lists, is_letter, process_word, process_all, runs, word_censor}

-- None of the words is in the list of bad words.
abbrev pub Clean : Lists → List Text → Type 0
Clean l = All (λ word. lookup (lower word) l.bad_word_dict ≡ none)

concat : List Text → Text
concat [] = []
concat (word ∷ words) = word ++ concat words

-- The runs of a message, put together, are the message.
concat-runs : (letters : Bool) (word msg : Text) → concat (runs letters word msg) ≡ word ++ msg
unfolding runs concat
concat-runs letters word [] = refl
concat-runs letters word (c ∷ msg) =
    elim (Bool-cases (if letters then is_letter c else not (is_letter c))) [
      | inl e ↦
          rw (e, runs) (concat-runs letters (word ++ (c ∷ [])) msg ∙ append_assoc word (c ∷ []) msg)
      | inr e ↦ rw (e, runs) (ap (λ (t : Text). word ++ t) (concat-runs (not letters) (c ∷ []) msg))
    ]

process_word-Clean :
    (l : Lists) (word : Text)
    → lookup (lower word) l.bad_word_dict ≡ none
    → process_word l word ≡ word
unfolding process_word
process_word-Clean l word h =
    rw (h, process_word)
      (elim (Bool-cases (word == upper word)) [
        | inl e ↦ rw e (sym ((==_iff word (upper word)).0 e))
        | inr e ↦ rw e refl
      ])

process_all-Clean :
    (l : Lists) (words : List Text) → Clean l words → process_all l words ≡ concat words
unfolding process_all concat
process_all-Clean l [] h = refl
process_all-Clean l (word ∷ words) (h, hs) =
    ap (λ (t : Text). t ++ process_all l words) (process_word-Clean l word h)
    ∙ ap (λ (t : Text). word ++ t) (process_all-Clean l words hs)

-- A message none of whose runs of letters or of other characters is a bad word, in any case, is left
-- as it is.
word_censor-Clean : (l : Lists) (msg : Text) → Clean l (runs true [] msg) → word_censor l msg ≡ msg
unfolding word_censor
word_censor-Clean l msg h = process_all-Clean l (runs true [] msg) h ∙ concat-runs true [] msg
