-- ===== src/Protocol/Presence.antt =====
-- protocol/Protocol.py: `in_MYSTATUS`, `_remove`, `broadcast_RemoveUser`, `client_RemoveUser`. That the
-- cache of users is told once the database has stored the time or the end of a session is left out.
use uberserver.Base.{
  ℕ, ◌+◌, ◌-◌, ◌/◌, Bool, true, false, ◌&&◌, not, List, [], ◌∷◌, Option, none, some, if◌then◌else◌,
  ◌==◌, text_eq, nat_eq, eqb, ltb, leb, length,
}
use uberserver.Base.Dict.{Dict, lookup, erase, contains, has_key, keys}
use uberserver.Base.Text.{Text, codes}
use uberserver.Syntax.Numbers.{int32}
use uberserver.Server.Types.{Root, Client, Message, Piece, lit, txt, num}
use uberserver.Server.Store.{set_client, record_db}
use uberserver.Server.Cast.{send, out_failed, broadcast_all}
use uberserver.Server.Outcome.{Outcome, done, raised, ◌>>=◌}
use uberserver.Protocol.Current.{get_current_battle}
use uberserver.Protocol.Rights.{calc_status}
use uberserver.Protocol.Battles.{remove_pending_battle, in_leavebattle, is_host}
use uberserver.Protocol.Rooms.{in_leave}
use uberserver.Protocol.Chat.{is_blank}
use uberserver.Protocol.Bridge.{in_unbridgeclientfrom, leave_all_from}
pub mod Played
pub mod Leaving
pub mod Gone

-- `if x` of a number that may be missing.
abbrev pub set_nat : Option ℕ → Bool
set_nat none = false
set_nat (some n) = not (eqb n 0)

unfoldable pub tell_client_status : ℕ → Root → Root
unfolding broadcast_all
tell_client_status sid r =
    let c = r.client_at sid in
    broadcast_all (lit "CLIENTSTATUS " ∷ txt c.username ∷ lit " " ∷ num c.status ∷ []) r

-- The client has gone into a game. HOSTPORT is broadcast with a name where a set is asserted, which
-- raises.
unfoldable pub game_begins : ℕ → Root → Outcome
unfolding get_current_battle out_failed is_host tell_client_status
game_begins sid r = elim (get_current_battle r sid) [
  | none ↦ done (out_failed sid "MYSTATUS" (lit "ingame but no battleid set" ∷ []) r)
  | some ref ↦
      let alone = not (ltb 1 (length (r.channel_at ref).users)) in
      let r1 =
        set_client sid (λ c. record c { went_ingame = if alone then none else some r.now }) r in
      if is_host sid ref r1 && set_nat (r1.client_at sid).hostport
      then raised r1
      else done (tell_client_status sid r1)
]

-- The client is back from a game that began at `went`: whole minutes count, and the clock does not
-- run backwards.
unfoldable pub count_game : ℕ → ℕ → Root → Root
count_game sid went r =
    let minutes = (r.now - went) / 60 in
    let total = (r.client_at sid).ingame_time + minutes in
    if leb 1 minutes
    then record_db "do_set_ingame_time" []
        (txt (r.client_at sid).username ∷ lit ", " ∷ num total ∷ [])
        (set_client sid (λ c. record c { ingame_time = total }) r)
    else r

unfoldable pub game_ends : ℕ → Root → Root
unfolding count_game tell_client_status
game_ends sid r = elim (r.client_at sid).went_ingame [
  | none ↦ tell_client_status sid r
  | some went ↦ tell_client_status sid (if eqb went 0 then r else count_game sid went r)
]

-- What follows from the change of the flag.
unfoldable pub after_status : Bool → ℕ → Root → Outcome
unfolding game_begins game_ends tell_client_status
after_status was_ingame sid r =
    let is = (r.client_at sid).is_ingame in
    if is && not was_ingame
    then game_begins sid r
    else if was_ingame && not is
    then done (game_ends sid r)
    else done (tell_client_status sid r)

unfoldable pub in_mystatus : ℕ → Text → Root → Outcome
unfolding int32 out_failed calc_status after_status
in_mystatus sid asked r = elim (int32 asked) [
  | none ↦ done (out_failed sid "MYSTATUS" (lit "invalid status " ∷ txt asked ∷ []) r)
  | some status ↦ calc_status sid status r >>= after_status (r.client_at sid).is_ingame sid
]

-- The bridged users of one location, as the table was before.
unfoldable pub unbridge_location : ℕ → Text → Dict Text ℕ → Root → Outcome
unfolding leave_all_from in_unbridgeclientfrom
unbridge_location sid location [] r = done r
unbridge_location sid location ((_, bridged_id) ∷ names) r =
    if not (contains bridged_id r.bridged_ids)
    then raised r
    else (let b = r.bridged_at bridged_id in
        leave_all_from sid b.channels b.location b.external_id r >>= λ r1.
        in_unbridgeclientfrom sid b.location b.external_id r1
        >>= unbridge_location sid location names)

-- `del self._root.bridged_locations[location]` is a KeyError where it is missing.
unfoldable pub close_bridges : ℕ → Dict Text (Dict Text ℕ) → Root → Outcome
unfolding unbridge_location
close_bridges sid [] r = done r
close_bridges sid ((location, names) ∷ bridge) r = unbridge_location sid location names r >>= λ r1.
    if not (has_key location r1.bridged_locations)
    then raised r1
    else close_bridges sid bridge
        (record r1 { bridged_locations = erase location r1.bridged_locations })

unfoldable pub leave_battle_if_any : ℕ → Root → Outcome
unfolding in_leavebattle
leave_battle_if_any sid r =
    if set_nat (r.client_at sid).current_battle then in_leavebattle sid r else done r

unfoldable pub leave_channels : ℕ → List Text → Root → Outcome
unfolding in_leave
leave_channels sid [] r = done r
leave_channels sid (chan ∷ chans) r =
    in_leave sid chan (some (codes "disconnected")) r >>= leave_channels sid chans

-- `client_RemoveUser` asserts that the name is not empty.
unfoldable pub tell_removed : Text → Dict Text ℕ → Root → Outcome
unfolding send
tell_removed username [] r = done r
tell_removed username ((name, receiver) ∷ names) r =
    if is_blank username && not (name == username)
    then raised r
    else tell_removed username names
        (if name == username then r else send receiver (lit "REMOVEUSER " ∷ txt username ∷ []) r)

unfoldable pub broadcast_remove_user : ℕ → Root → Outcome
unfolding tell_removed
broadcast_remove_user sid r =
    let c = r.client_at sid in if c.static then done r else tell_removed c.username r.usernames r

-- The client out of the tables of users, and its session ended in the database.
unfoldable pub forget_client : ℕ → Root → Root
forget_client sid r =
    let c = r.client_at sid in
    record_db "do_end_session" [] (num c.user_id ∷ [])
      (record r { usernames = erase c.username r.usernames; user_ids = erase c.user_id r.user_ids })

unfoldable pub remove : ℕ → Root → Outcome
unfolding close_bridges remove_pending_battle leave_battle_if_any leave_channels forget_client
    broadcast_remove_user
remove sid r =
    let c = r.client_at sid in
    if c.static
    then done r
    else if not c.logged_in
    then done r
    else (close_bridges sid c.bridge r >>= λ r1. remove_pending_battle sid r1 >>= λ r2.
        leave_battle_if_any sid r2 >>= λ r3.
        leave_channels sid (r3.client_at sid).channels r3 >>= λ r4.
        broadcast_remove_user sid (forget_client sid r4))
