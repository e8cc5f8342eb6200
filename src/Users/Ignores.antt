-- ===== src/Users/Ignores.antt =====
-- protocol/Protocol.py: `in_IGNORE`, `_ignore_resolved`, `_ignore_stored`, `in_UNIGNORE`,
-- `_unignore_resolved`, `_unignore_removed`, `_ignore_op_failed`, `_ignorelist_send`. A handler that
-- goes on once the database has answered gives the call it waits for.
use uberserver.Base.{
  ℕ, Bool, true, false, not, ◌&&◌, ◌||◌, List, [], ◌∷◌, Option, none, some, if◌then◌else◌, ◌==◌,
  text_eq, nat_eq, leb, length, String,
}
use uberserver.Base.Dict.{Dict, lookup, contains, add, discard}
use uberserver.Base.Text.{Text, codes, strip}
use uberserver.Syntax.Tags.{parse_tags}
use uberserver.Server.Types.{Root, Client, Message, Piece, lit, txt, num}
use uberserver.Server.Store.{set_client}
use uberserver.Server.Cast.{send, out_servermsg}
use uberserver.Server.Outcome.{Outcome, done, raised, ◌>>=◌}
use uberserver.Server.Accounts.{UserDb, find_id}
use uberserver.Protocol.Chat.{is_blank}
pub mod Interleaved
pub mod Spared

-- `client.session_id not in self._root.clients`
abbrev pub gone : ℕ → Root → Bool
gone sid r = not (contains sid r.clients)

-- How a handler ends: for good, or with a call of the database whose answer is awaited.
pub data Turn (A : Type 0) : Type 0 where
  ends : Root → Turn A
  asks : A → Root → Turn A

abbrev pub after_turn : {A : Type 0} → Turn A → Root
after_turn (ends r) = r
after_turn (asks _ r) = r

-- `tags.get("userName")`, unless it is missing or empty.
abbrev pub user_name_of : Dict Text Text → Option Text
user_name_of tags = elim (lookup (codes "userName") tags) [
  | none ↦ none
  | some username ↦ if is_blank username then none else some username
]

-- `_user_access_from_username`, with the name and the reason.
abbrev pub Lookup : Type 0
Lookup = Text × Option Text

unfoldable pub in_ignore : ℕ → Text → Root → Turn Lookup
unfolding parse_tags out_servermsg
in_ignore sid tagstring r =
    let tags = parse_tags tagstring in
    elim (user_name_of tags) [
      | none ↦ ends (out_servermsg sid (lit "Missing userName argument." ∷ []) r)
      | some username ↦ asks (username, lookup (codes "reason") tags) r
    ]

abbrev pub ignored_max : ℕ
ignored_max = 50

abbrev pub is_staff_access : Text → Bool
is_staff_access access = (access == codes "mod") || (access == codes "admin")

-- `resolved` is the id and the access of the account with that name. The call that is awaited is the
-- INSERT for the id.
unfoldable pub ignore_resolved : Option (ℕ × Text) → ℕ → Text → Root → Turn ℕ
unfolding out_servermsg
ignore_resolved resolved sid username r =
    let c = r.client_at sid in
    let say : String → Turn ℕ = λ m. ends (out_servermsg sid (lit m ∷ []) r) in
    if gone sid r then ends r else elim resolved [
      | none ↦ say "No such user."
      | some (target_id, access) ↦
          if is_staff_access access
          then say "Can't ignore a moderator."
          else if username == c.username
          then say "Can't ignore self."
          else if contains target_id c.ignored
          then say "User is already ignored."
          else if leb ignored_max (length c.ignored)
          then say "Ignore list full (50 users)."
          else asks target_id r
    ]

abbrev with_reason : String → Text → Option Text → Message
with_reason cmd username none = lit cmd ∷ lit " userName=" ∷ txt username ∷ []
with_reason cmd username (some reason) =
    if is_blank (strip reason)
    then lit cmd ∷ lit " userName=" ∷ txt username ∷ []
    else lit cmd ∷ lit " userName=" ∷ txt username ∷ lit "\treason=" ∷ txt reason ∷ []

unfoldable pub ignore_stored : ℕ → Text → ℕ → Option Text → Root → Root
unfolding strip send
ignore_stored sid username target_id reason r =
    if gone sid r
    then r
    else send sid (with_reason "IGNORE" username reason)
        (set_client sid (λ c. record c { ignored = add target_id c.ignored }) r)

unfoldable pub in_unignore : ℕ → Text → Root → Turn Text
unfolding parse_tags out_servermsg
in_unignore sid tagstring r = elim (user_name_of (parse_tags tagstring)) [
  | none ↦ ends (out_servermsg sid (lit "Missing userName argument." ∷ []) r)
  | some username ↦ asks username r
]

-- The call that is awaited is the DELETE for the id.
unfoldable pub unignore_resolved : Option (ℕ × Text) → ℕ → Root → Turn ℕ
unfolding out_servermsg
unignore_resolved resolved sid r =
    let say : String → Turn ℕ = λ m. ends (out_servermsg sid (lit m ∷ []) r) in
    if gone sid r then ends r else elim resolved [
      | none ↦ say "No such user."
      | some (target_id, _) ↦
          if not (contains target_id (r.client_at sid).ignored)
          then say "User is not ignored."
          else asks target_id r
    ]

unfoldable pub unignore_removed : ℕ → Text → ℕ → Root → Root
unfolding send
unignore_removed sid username target_id r =
    if gone sid r
    then r
    else send sid (lit "UNIGNORE userName=" ∷ txt username ∷ [])
        (set_client sid (λ c. record c { ignored = discard target_id c.ignored }) r)

unfoldable pub ignore_op_failed : ℕ → String → Root → Root
unfolding out_servermsg
ignore_op_failed sid op r =
    if gone sid r
    then r
    else out_servermsg sid (lit "Server error processing " ∷ lit op ∷ lit "." ∷ []) r

-- An ignored user that is in no database any more is an AttributeError. A reason is empty or not.
unfoldable pub send_ignored : UserDb → ℕ → List (ℕ × Option Text) → Root → Outcome
unfolding find_id send
send_ignored users sid [] r = done r
send_ignored users sid ((user_id, reason) ∷ entries) r = elim (find_id users r user_id) [
  | none ↦ raised r
  | some user ↦ send_ignored users sid entries (
      send sid
        (elim reason [
          | none ↦ lit "IGNORELIST userName=" ∷ txt user.username ∷ []
          | some why ↦
              if is_blank why
              then lit "IGNORELIST userName=" ∷ txt user.username ∷ []
              else lit "IGNORELIST userName=" ∷ txt user.username ∷ lit "\treason=" ∷ txt why ∷ []
        ])
        r)
]

unfoldable pub ignorelist_send : UserDb → List (ℕ × Option Text) → ℕ → Root → Outcome
unfolding send send_ignored
ignorelist_send users entries sid r =
    if gone sid r
    then done r
    else send_ignored users sid entries (send sid (lit "IGNORELISTBEGIN" ∷ []) r) >>= λ s.
        done (send sid (lit "IGNORELISTEND" ∷ []) s)
