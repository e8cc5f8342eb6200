-- ===== src/Syntax/Names.antt =====
-- protocol/Protocol.py: `_validUsernameSyntax`, `_validChannelSyntax`, `_validBridgeSyntax`. The pair
-- of a truth value and a reason is a `Verdict`.
use uberserver.Base.{
  ℕ, Bool, List, [], ◌∷◌, ◌++◌, Option, none, some, all, any, not, eqb, ltb, length, if◌then◌else◌,
}
use uberserver.Base.Text.{Text, codes, lower_char}
pub mod Valid

pub data Verdict : Type 0 where
  valid : Verdict
  invalid : Text → Verdict

-- `c in s`
unfoldable pub among : ℕ → Text → Bool
among c s = any (eqb c) s

abbrev pub name_chars : Text
name_chars = codes "abcdefghijklmnopqrstuvwzyx[]_1234567890"

abbrev pub bridged_chars : Text
bridged_chars = codes "abcdefghijklmnopqrstuvwzyx[]_1234567890#"

abbrev pub location_chars : Text
location_chars = codes "abcdefghijklmnopqrstuvwzyx[]_1234567890."

-- `for char in s: if not char.lower() in chars`, whether no character fails.
unfoldable pub written_in : Text → Text → Bool
unfolding among lower_char
written_in chars s = all (λ c. among (lower_char c) chars) s

unfoldable pub valid_username_syntax : Text → Verdict
valid_username_syntax [] = invalid (codes "Username is blank.")
valid_username_syntax (c ∷ s) =
    if not (written_in name_chars (c ∷ s))
    then invalid (codes "Only ASCII chars, [], _, 0-9 are allowed in usernames.")
    else if ltb (length (c ∷ s)) 3
    then invalid (codes "Username is too short, must be at least 3 characters.")
    else if ltb 20 (length (c ∷ s))
    then invalid (codes "Username is too long, max 20 characters.")
    else valid

unfoldable pub valid_channel_syntax : Text → Verdict
valid_channel_syntax channel =
    if not (written_in name_chars channel)
    then invalid (codes "Only ASCII chars, [], _, 0-9 are allowed in channel names.")
    else if ltb 20 (length channel)
    then invalid (codes "Channel name '" ++ channel ++ codes "' is too long, max is 20 chars.")
    else valid

abbrev is_blank : Text → Bool
is_blank s = eqb (length s) 0

unfoldable pub valid_bridge_syntax : Text → Text → Text → Verdict
unfolding among
valid_bridge_syntax location external_id external_username =
    if is_blank external_id
    then invalid (codes "external_id is blank.")
    else if is_blank location
    then invalid (codes "location is blank.")
    else if is_blank external_username
    then invalid (codes "external_username is blank.")
    else if not (written_in bridged_chars external_username)
    then invalid (
        codes "external_username '"
        ++ external_username
        ++ codes
            "' is invalid: only ASCII chars, [], _, 0-9 and # are allowed in bridged usernames.")
    else if ltb 20 (length external_username)
    then invalid (
        codes "external_username '" ++ external_username ++ codes "' is too long, max is 20 chars.")
    else if among b':' external_id
    then invalid (codes "Char : is not allowed in external_id")
    else if not (written_in location_chars location)
    then invalid (codes "Only ASCII chars, [], _, 0-9 and . are allowed in location names.")
    else if ltb 20 (length external_id)
    then invalid (codes "external_id '" ++ external_id ++ codes "' is too long, max is 20 chars.")
    else if ltb 20 (length location)
    then invalid (codes "location '" ++ location ++ codes "' is too long, max is 20 chars.")
    else valid
