-- ===== src/Battle/Leave.antt =====
-- protocol/Battle.py: `leaveBattle` and `removeBattle`; protocol/Protocol.py: `broadcast_RemoveBattle`.
use uberserver.Base.{
  ℕ, Bool, true, false, not, List, [], ◌∷◌, ◌++◌, Option, none, some, eqb, if◌then◌else◌, nat_eq,
  text_eq, length, ◌==◌,
}
use uberserver.Base.Dict.{Dict, contains, keys, values, has_key, lookup, erase}
use uberserver.Base.Int.{ℤ, pos, eqb_ℤ}
use uberserver.Base.Text.{Text, codes}
use uberserver.Server.Types.{Root, Client, Channel, Message, Piece, lit, txt, num, int}
use uberserver.Server.Store.{set_client, set_battle, set_channel, client_from_session}
use uberserver.Server.Cast.{send, emit, broadcast_all, broadcast_battle, everyone}
use uberserver.Server.Outcome.{Outcome, done, raised, ◌>>=◌}
use uberserver.Channel.Members.{remove_user}
use uberserver.Battle.Status.{spectator_count, fresh_battle, optional_nat, optional_int}
pub mod Exit
pub mod Closed

-- UPDATEBATTLEINFO with the battle's spectators, lock and map.
unfoldable pub battle_info : Root → ℕ → Message
battle_info r ref =
    let b = (r.channel_at ref).battle in
    lit "UPDATEBATTLEINFO "
    ∷ optional_nat b.battle_id
    ∷ lit " "
    ∷ int b.spectators
    ∷ lit " "
    ∷ int b.locked
    ∷ lit " "
    ∷ optional_int b.maphash
    ∷ lit " "
    ∷ txt b.map_name
    ∷ []

-- `broadcast_battle` by the id of the battle object, which it asserts to be a number.
unfoldable pub tell_battle : ℕ → Message → Root → Outcome
unfolding broadcast_battle
tell_battle ref m r = elim (r.channel_at ref).battle.battle_id [
  | none ↦ raised r
  | some battle_id ↦ broadcast_battle m battle_id everyone r
]

-- The fields of the client that name the battle.
unfoldable pub exit_battle : ℕ → Root → Root
exit_battle sid =
    set_client sid
      (λ c. record c { script_password = none; current_battle = none; hostport = none })

abbrev pub bot_message : Root → ℕ → Text → Message
bot_message r ref bot =
    lit "REMOVEBOT " ∷ optional_nat (r.channel_at ref).battle.battle_id ∷ lit " " ∷ txt bot ∷ []

abbrev pub without_own_bot : ℕ → Text → Root → Root
without_own_bot sid bot = set_client sid (λ c. record c { battle_bots = erase bot c.battle_bots })

abbrev pub without_bot : ℕ → ℕ → Text → Root → Root
without_bot sid ref bot r =
    set_battle ref (λ b. record b { bots = erase bot b.bots }) (without_own_bot sid bot r)

-- One bot of the client, out of the client's table and the battle's.
unfoldable pub drop_bot : ℕ → ℕ → Text → Root → Outcome
unfolding tell_battle
drop_bot sid ref bot r =
    if has_key bot (r.channel_at ref).battle.bots
    then tell_battle ref (bot_message r ref bot) (without_bot sid ref bot r)
    else done (without_own_bot sid bot r)

unfoldable pub remove_bots : ℕ → ℕ → List Text → Root → Outcome
unfolding drop_bot
remove_bots sid ref [] r = done r
remove_bots sid ref (bot ∷ bots) r = drop_bot sid ref bot r >>= remove_bots sid ref bots

unfoldable pub recount_spectators : ℕ → Root → Root
unfolding spectator_count broadcast_all
recount_spectators ref r =
    let old = (r.channel_at ref).battle.spectators in
    let specs = pos (spectator_count r (r.channel_at ref).users) in
    let r1 = set_battle ref (λ b. record b { spectators = specs }) r in
    if eqb_ℤ old specs then r1 else broadcast_all (battle_info r1 ref) r1

abbrev pub tell_left : ℕ → ℕ → Root → Root
unfolding broadcast_all
tell_left sid ref r =
    broadcast_all
      (lit "LEFTBATTLE "
        ∷ optional_nat (r.channel_at ref).battle.battle_id
        ∷ lit " "
        ∷ txt (r.client_at sid).username
        ∷ [])
      r

-- The announcement of the leaving, and the count where it was not the host's.
unfoldable pub announce_leaving : ℕ → ℕ → Root → Root
unfolding recount_spectators
announce_leaving sid ref r2 =
    let r3 = tell_left sid ref r2 in
    if elim (r3.channel_at ref).battle.host [ none ↦ false | some host ↦ eqb sid host ]
    then r3
    else recount_spectators ref r3

unfoldable pub leave_battle : ℕ → ℕ → Root → Outcome
unfolding exit_battle remove_bots announce_leaving
leave_battle sid ref r =
    let r1 = exit_battle sid (remove_user sid ref none r) in
    remove_bots sid ref (keys (r1.client_at sid).battle_bots) r1 >>= λ r2.
    done (announce_leaving sid ref r2)

-- `client.pending_battle = None` for everyone who waits for the host's answer.
unfoldable pub dismiss_pending : List ℕ → Root → Outcome
unfolding client_from_session
dismiss_pending [] r = done r
dismiss_pending (sid ∷ sids) r = elim (client_from_session r sid) [
  | none ↦ raised r
  | some s ↦ dismiss_pending sids (set_client s (λ c. record c { pending_battle = none }) r)
]

-- ChanServ stays in the channel.
unfoldable pub dismiss_one : ℕ → ℕ → Root → Root
unfolding exit_battle
dismiss_one ref sid r =
    let r1 = set_client sid (λ c. record c { battle_bots = [] }) (exit_battle sid r) in
    if (r.client_at sid).username == codes "ChanServ" then r1 else remove_user sid ref none r1

unfoldable pub dismiss_users : ℕ → List ℕ → Root → Outcome
unfolding client_from_session
dismiss_users ref [] r = done r
dismiss_users ref (sid ∷ sids) r = elim (client_from_session r sid) [
  | none ↦ raised r
  | some s ↦ dismiss_users ref sids (dismiss_one ref s r)
]

unfoldable pub broadcast_remove_battle : ℕ → Root → Root
unfolding emit
broadcast_remove_battle ref r = record r {
  sent =
      emit r.client_at (values r.usernames)
        (lit "BATTLECLOSED " ∷ optional_nat (r.channel_at ref).battle.battle_id ∷ []) r.sent;
}

-- With a bridged user in the channel the first loop calls `self.removeBridgedUser(self, chanserv,
-- bridgedClient)`, which asks ChanServ for a `bridged_id` that it does not have: an AttributeError.
unfoldable pub remove_battle : ℕ → Root → Outcome
unfolding broadcast_remove_battle
remove_battle ref r =
    let ch = r.channel_at ref in
    if not (eqb (length ch.bridged_users) 0)
    then raised r
    else (dismiss_pending ch.battle.pending_users r >>= (λ r1.
        dismiss_users ref ch.users r1
        >>= (λ r2. done (set_battle ref (λ _. fresh_battle) (broadcast_remove_battle ref r2)))))
