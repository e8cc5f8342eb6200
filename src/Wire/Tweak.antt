-- ===== src/Wire/Tweak.antt =====
-- Client.py: `is_tweak_command`, `command_length_limit`, `tweak_command_bytes`, `set_msg_id`.
use uberserver.Base.{
  ℕ, ◌+◌, Bool, true, false, ◌&&◌, ◌||◌, not, List, [], ◌∷◌, ◌++◌, leb, max, if◌then◌else◌, length,
  ◌==◌, text_eq, text_beq, sum, keep, map, String, ◌≡◌, refl,
}
use uberserver.Base.Text.{Text, codes, space, starts_with, partition, all_digits, upper, lower}
pub mod Charges

-- TWEAK_MSG_LENGTH
abbrev pub tweak_msg_length : ℕ
tweak_msg_length = 16384

-- `s[1:]`
abbrev pub tail_text : Text → Text
tail_text [] = []
tail_text (_ ∷ s) = s

-- The line without the `#<id> ` that it may carry.
unfoldable pub without_msg_id : Text → Text
without_msg_id command =
    if starts_with (codes "#") command
    then (let (msg_id, _, rest) = partition space command in
        if all_digits (tail_text msg_id) then rest else command)
    else command

unfoldable pub is_tweak_command : Text → Bool
unfolding without_msg_id
is_tweak_command command =
    let (name, _, msg) = partition space (without_msg_id command) in
    if not (upper name == codes "SAYBATTLE" || upper name == codes "SAYBATTLEEX")
    then false
    else starts_with (codes "!bset tweakdefs") (lower msg)
      || starts_with (codes "!bset tweakunits") (lower msg)

-- The limit is `flood_limits['msglength']`.
unfoldable pub command_length_limit : Text → ℕ → Bool → ℕ
command_length_limit command limit logged_in =
    if not logged_in || not (is_tweak_command command) then limit else max limit tweak_msg_length

unfoldable pub tweak_command_bytes : List Text → Bool → ℕ
tweak_command_bytes lines logged_in =
    if not logged_in
    then 0
    else sum (
        map (λ line. length line + 1)
          (keep (λ line. leb (length line) tweak_msg_length && is_tweak_command line) lines))

-- The id that replies carry, and the rest of the line.
unfoldable pub set_msg_id : Text → Text × Text
set_msg_id msg =
    if not (starts_with (codes "#") msg)
    then ([], msg)
    else let (first, _, rest) = partition space msg in
      if not (all_digits (tail_text first))
      then ([], msg)
      else (codes "#" ++ (tail_text first ++ codes " "), rest)

-- The lines of Client.py's selftest.
tweak_with_id : is_tweak_command (codes "#42 saybattle !bset TweakUnits1 AAAA") ≡ true
unfolding is_tweak_command partition upper lower starts_with all_digits text_beq
tweak_with_id = refl
