-- ===== src/Syntax/Tags/Roundtrip.antt =====
-- A dictionary of tags comes back from the tag list that it is written as.
use uberserver.Base.{
  ℕ, ◌≡◌, refl, ◌∙◌, ap, List, [], ◌∷◌, ◌++◌, append_assoc, append-nil, none, arith, All, map,
  text_eq, ==_iff,
}
use uberserver.Base.Dict.{Dict, insert, lookup}
use uberserver.Base.Text.Cuts.{
  Lacks, Lacks-append, split_parts-last, split_parts-cut, partition-cut,
}
use uberserver.Base.Text.{Text, tab, split, split_parts, partition}
use uberserver.Syntax.Tags.{parse_pairs, parse_tags, dict_to_tags_from, dict_to_tags}

abbrev pair_text : Text × Text → Text
pair_text e = e.0 ++ (b'=' ∷ e.1)

-- Keys without `=` and tabs, values without tabs, and no key twice.
abbrev pub Writable : Dict Text Text → Type 0
Writable [] = Unit
Writable ((k, v) ∷ d) = Lacks b'=' k × Lacks tab k × Lacks tab v × (lookup k d ≡ none) × Writable d

-- The pairs, each after the first with a tab before it.
abbrev tail_text : Dict Text Text → Text
tail_text [] = []
tail_text (e ∷ d) = tab ∷ pair_text e ++ tail_text d

dict_to_tags_from-cons :
    (c : ℕ) (s : Text) (d : Dict Text Text) → dict_to_tags_from (c ∷ s) d ≡ (c ∷ s) ++ tail_text d
unfolding dict_to_tags_from
dict_to_tags_from-cons c s [] = simp append-nil
dict_to_tags_from-cons c s (e ∷ d) =
    dict_to_tags_from-cons c ((s ++ (tab ∷ [])) ++ (e.0 ++ (b'=' ∷ e.1))) d ∙ simp append_assoc

Lacks-pair_text : (e : Text × Text) → Lacks tab e.0 → Lacks tab e.1 → Lacks tab (pair_text e)
Lacks-pair_text e hk hv = Lacks-append tab e.0 (b'=' ∷ e.1) hk ((λ h. absurd (omega arith)), hv)

-- Splitting at the tabs gives the pairs back.
split_parts-tail_text :
    (s : Text) (d : Dict Text Text)
    → Lacks tab s
    → Writable d
    → split_parts tab (s ++ tail_text d) ≡ (s, map pair_text d)
unfolding split
split_parts-tail_text s [] hs w = rw append-nil (split_parts-last tab s hs)
split_parts-tail_text s (e ∷ d) hs w =
    split_parts-cut tab s (pair_text e ++ tail_text d) hs
    ∙ ap (λ (r : Text × List Text). (s, r.0 ∷ r.1))
        (split_parts-tail_text (pair_text e) d (Lacks-pair_text e w.1 w.2) w.4)

lookup-append :
    (k : Text) (a b : Dict Text Text)
    → lookup k a ≡ none
    → lookup k b ≡ none
    → lookup k (a ++ b) ≡ none
unfolding lookup
lookup-append k [] b ha hb = hb
lookup-append k (e ∷ a) b ha hb = ground (arith, lookup-append k a b)

insert-append :
    (k v : Text) (acc : Dict Text Text)
    → lookup k acc ≡ none
    → insert k v acc ≡ acc ++ ((k, v) ∷ [])
unfolding lookup insert
insert-append k v [] h = refl
insert-append k v (e ∷ acc) h = ground (arith, insert-append k v acc)

-- No key of `d` is in `acc`.
abbrev Apart : Dict Text Text → Dict Text Text → Type 0
Apart acc d = All (λ (e : Text × Text). lookup e.0 acc ≡ none) d

Apart-step :
    (k v : Text) (acc d : Dict Text Text)
    → lookup k d ≡ none
    → Apart acc d
    → Apart (acc ++ ((k, v) ∷ [])) d
unfolding lookup
Apart-step k v acc [] h a = tt
Apart-step k v acc (e ∷ d) h a = ground (
  arith,
  lookup-append e.0 acc ((k, v) ∷ []) a.0,
  ==_iff e.0 k,
  ==_iff k e.0,
  Apart-step k v acc d,
)

parse_pairs-pairs :
    (d acc : Dict Text Text)
    → Writable d
    → Apart acc d
    → parse_pairs (map pair_text d) acc ≡ acc ++ d
unfolding parse_pairs
parse_pairs-pairs [] acc w a = simp append-nil
parse_pairs-pairs ((k, v) ∷ d) acc w a = ground (
  arith,
  partition-cut b'=' k v w.0,
  insert-append k v acc a.0,
  parse_pairs-pairs d (acc ++ ((k, v) ∷ [])) w.4 (Apart-step k v acc d w.3 a.1),
  append_assoc acc ((k, v) ∷ []) d,
)

Apart-nil : (d : Dict Text Text) → Apart [] d
unfolding lookup
Apart-nil [] = tt
Apart-nil (e ∷ d) = (refl, Apart-nil d)

dict_to_tags-cons :
    (e : Text × Text) (d : Dict Text Text) → dict_to_tags (e ∷ d) ≡ pair_text e ++ tail_text d
unfolding dict_to_tags dict_to_tags_from
dict_to_tags-cons ([], v) d = dict_to_tags_from-cons b'=' v d
dict_to_tags-cons ((c ∷ k), v) d = dict_to_tags_from-cons c (k ++ (b'=' ∷ v)) d

parse_tags-nil : parse_tags (dict_to_tags []) ≡ []
unfolding parse_tags dict_to_tags split partition
parse_tags-nil = refl

-- Parsing the tag list of a dictionary gives the dictionary, entry by entry in its order, where no
-- key holds a tab or `=`, no value holds a tab, and no key stands twice.
parse_tags-dict_to_tags : (d : Dict Text Text) → Writable d → parse_tags (dict_to_tags d) ≡ d
unfolding parse_tags split
parse_tags-dict_to_tags [] w = parse_tags-nil
parse_tags-dict_to_tags (e ∷ d) w =
    rw
      (dict_to_tags-cons e d, split_parts-tail_text (pair_text e) d (Lacks-pair_text e w.1 w.2) w.4)
      (parse_pairs-pairs (e ∷ d) [] w (Apart-nil (e ∷ d)))
