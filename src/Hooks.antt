-- ===== src/Hooks.antt =====
-- SayHooks.py: `_process_word`, `_nasty_word_censor`, `_word_censor`, `_site_censor`,
-- `hook_OPENBATTLE`, `isNasty`. The three lists are files that the server reads when it starts.
use uberserver.Base.{
  ℕ, Bool, true, false, ◌&&◌, ◌||◌, not, List, [], ◌∷◌, ◌++◌, Option, none, some, any, eqb, leb,
  if◌then◌else◌, ◌==◌, text_eq, keep,
}
use uberserver.Base.Dict.{Dict, lookup, keys}
use uberserver.Base.Text.{Text, lower, upper, has_substring}
pub mod Words

pub record Lists : Type 0 where
  pub bad_word_dict : Dict Text Text
  pub bad_site_list : List Text
  pub bad_nick_list : List Text

-- `letter in chars`
unfoldable pub is_letter : ℕ → Bool
is_letter c = (leb 48 c && leb c 57) || (leb 65 c && leb c 90) || (leb 97 c && leb c 122)

unfoldable pub process_word : Lists → Text → Text
unfolding lower upper
process_word l word =
    let replaced : Text = elim (lookup (lower word) l.bad_word_dict) [
      | none ↦ word
      | some mild ↦ mild
    ] in
    if word == upper word then upper replaced else replaced

unfoldable pub nasty_word_censor : Lists → Text → Bool
unfolding lower has_substring
nasty_word_censor l msg = not (any (λ word. has_substring word (lower msg)) (keys l.bad_word_dict))

-- The runs of letters and of other characters: `word` is the run being read, and `letters` its kind.
unfoldable pub runs : Bool → Text → Text → List Text
unfolding is_letter
runs letters word [] = word ∷ []
runs letters word (c ∷ msg) =
    if (if letters then is_letter c else not (is_letter c))
    then runs letters (word ++ (c ∷ [])) msg
    else word ∷ runs (not letters) (c ∷ []) msg

unfoldable pub process_all : Lists → List Text → Text
unfolding process_word
process_all l [] = []
process_all l (word ∷ words) = process_word l word ++ process_all l words

unfoldable pub word_censor : Lists → Text → Text
unfolding runs process_all
word_censor l msg = process_all l (runs true [] msg)

unfoldable pub in_address : ℕ → Bool
unfolding is_letter
in_address c = is_letter c || eqb c b'.' || eqb c b'/' || eqb c b'%'

-- `none` is the `None` that a message with a listed site is answered with.
unfoldable pub site_censor : Lists → Text → Option Text
unfolding is_letter in_address has_substring
site_censor l msg =
    let testmsg1 = keep is_letter msg in
    let testmsg2 = keep in_address msg in
    if any
      (λ site. has_substring site msg || has_substring site testmsg1 || has_substring site testmsg2)
      l.bad_site_list
    then none
    else some msg

unfoldable pub hook_openbattle : Lists → Text → Option Text
unfolding word_censor site_censor
hook_openbattle l title = site_censor l (word_censor l title)

-- The nicks are also looked for in the message without brackets and underscores.
unfoldable pub is_nasty : Lists → Text → Bool
unfolding lower has_substring
is_nasty l msg =
    let m = lower msg in
    let cleaned = keep (λ c. not (eqb c b'[' || eqb c b']' || eqb c b'_')) m in
    any (λ word. has_substring word m || has_substring word cleaned) l.bad_nick_list
