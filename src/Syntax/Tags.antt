-- ===== src/Syntax/Tags.antt =====
-- protocol/Protocol.py: `_parseTags` and `_dictToTags`, and `_isPrivateIP`.
use uberserver.Base.{
  ℕ, ◌≡◌, Bool, true, false, ◌||◌, ◌&&◌, List, [], ◌∷◌, ◌++◌, Option, none, some, leb,
  if◌then◌else◌, text_eq,
}
use uberserver.Base.Dict.{Dict, insert}
use uberserver.Base.Int.{parse_int, pos, leb_ℤ}
use uberserver.Base.Text.{Text, codes, tab, split, partition, starts_with}
pub mod Roundtrip

-- `for tagpair in …: if not '=' in tagpair: continue; …; tags.update({tag:value})`
unfoldable pub parse_pairs : List Text → Dict Text Text → Dict Text Text
parse_pairs [] tags = tags
parse_pairs (tagpair ∷ rest) tags =
    let (tag, found, value) = partition b'=' tagpair in
    parse_pairs rest (if found then insert tag value tags else tags)

unfoldable pub parse_tags : Text → Dict Text Text
unfolding parse_pairs
parse_tags tagstring = parse_pairs (split tab tagstring) []

unfoldable pub dict_to_tags_from : Text → Dict Text Text → Text
dict_to_tags_from res [] = res
dict_to_tags_from res ((key, value) ∷ d) =
    dict_to_tags_from
      (elim res [ [] ↦ [] | c ∷ s ↦ (c ∷ s) ++ (tab ∷ []) ] ++ (key ++ (b'=' ∷ value))) d

unfoldable pub dict_to_tags : Dict Text Text → Text
unfolding dict_to_tags_from
dict_to_tags = dict_to_tags_from []

abbrev second : List Text → Option Text
second (_ ∷ b ∷ _) = some b
second _ = none

-- A second octet that is missing or is no integer is the `except` branch.
unfoldable pub is_private_ip : Text → Bool
is_private_ip ip =
    if starts_with (codes "10.") ip
      || starts_with (codes "192.168.") ip
      || starts_with (codes "127.") ip
    then true
    else if starts_with (codes "172.") ip
    then elim (second (split b'.' ip)) [
      | none ↦ false
      | some octet ↦ elim (parse_int octet) [
        | none ↦ false
        | some n ↦ leb_ℤ (pos 16) n && leb_ℤ n (pos 31)
      ]
    ]
    else false
