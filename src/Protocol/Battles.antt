-- ===== src/Protocol/Battles.antt =====
-- protocol/Protocol.py: `in_JOINBATTLE`, `addPendingBattle`, `removePendingBattle`,
-- `in_JOINBATTLEACCEPT`, `in_JOINBATTLEDENY`, `in_KICKFROMBATTLE`, `in_LEAVEBATTLE`.
use uberserver.Base.{
  ℕ, Bool, true, false, ◌&&◌, ◌||◌, not, List, [], ◌∷◌, ◌++◌, Option, none, some, if◌then◌else◌,
  ◌==◌, text_eq, nat_eq, eqb,
}
use uberserver.Base.Dict.{Dict, lookup, erase, contains, has_key, add, discard}
use uberserver.Base.Int.{ℤ, pos, negsuc, eqb_ℤ}
use uberserver.Base.Text.{Text, codes}
use uberserver.Syntax.Numbers.{int32}
use uberserver.Server.Types.{Root, Client, Channel, Message, Piece, lit, txt, num}
use uberserver.Server.Store.{
  set_client, set_battle, has_flag, has_level, is_truthy, is_open_key, is_registered,
  client_from_username,
}
use uberserver.Server.Cast.{send, out_failed}
use uberserver.Server.Outcome.{Outcome, done, raised, ◌>>=◌}
use uberserver.Channel.Access.{is_founder, person}
use uberserver.Battle.Join.{join_battle, public_ip, host_of}
use uberserver.Battle.Leave.{leave_battle, remove_battle}
use uberserver.Protocol.Current.{get_current_battle, owned_battle, member_called}
pub mod Gate
pub mod Closing

-- A pending battle that is gone, or that does not know the client, is a KeyError.
unfoldable pub remove_pending_battle : ℕ → Root → Outcome
remove_pending_battle sid r = elim (r.client_at sid).pending_battle [
  | none ↦ done r
  | some battle_id ↦ if eqb battle_id 0 then done r else elim (lookup battle_id r.battles) [
    | none ↦ raised r
    | some ref ↦
        if contains sid (r.channel_at ref).battle.pending_users
        then done (
            set_client sid (λ c. record c { pending_battle = none })
              (set_battle ref (λ b. record b { pending_users = discard sid b.pending_users }) r))
        else raised r
  ]
]

unfoldable pub add_pending_battle : ℕ → ℕ → Root → Outcome
unfolding remove_pending_battle
add_pending_battle sid ref r = remove_pending_battle sid r >>= (λ r1. done (
    set_client sid (λ c. record c { pending_battle = (r1.channel_at ref).battle.battle_id })
      (set_battle ref (λ b. record b { pending_users = add sid b.pending_users }) r1)))

abbrev pub same_key : Option Text → Option Text → Bool
same_key none none = true
same_key (some a) (some b) = a == b
same_key none (some _) = false
same_key (some _) none = false

-- Why a client that is neither founder nor moderator may not enter.
unfoldable pub join_refusal : Channel → Client → Option Text → Option Message
unfolding is_founder
join_refusal ch c key =
    if is_founder ch (person c) || has_level c (codes "mod")
    then none
    else if not (is_open_key ch.key) && not (same_key ch.key key)
    then some (lit "JOINBATTLEFAILED Incorrect password" ∷ [])
    else if has_key c.user_id ch.ban
    then some (lit "JOINBATTLEFAILED You are banned from the battle" ∷ [])
    else if not (eqb_ℤ ch.battle.locked (pos 0))
    then some (lit "JOINBATTLEFAILED Battle is locked" ∷ [])
    else none

-- JOINBATTLEREQUEST to a host that decides itself.
unfoldable pub ask_host : ℕ → ℕ → ℕ → Root → Outcome
unfolding add_pending_battle send public_ip
ask_host sid ref host r =
    let ask = λ (s : Root). done (
      send host
        (lit "JOINBATTLEREQUEST "
          ∷ txt (s.client_at sid).username
          ∷ lit " "
          ∷ txt (public_ip s (s.client_at sid))
          ∷ [])
        s) in
    if contains sid (r.channel_at ref).battle.pending_users
    then ask (
        send sid
          (lit "JOINBATTLEFAILED Waiting for JOINBATTLEACCEPT/JOINBATTLEDENIED from host" ∷ []) r)
    else (add_pending_battle sid ref r >>= ask)

-- A battle that exists, and a client that is in none.
unfoldable pub enter_or_ask : ℕ → ℕ → Option Text → Root → Outcome
unfolding join_refusal send host_of ask_host remove_pending_battle join_battle
enter_or_ask sid ref key r = elim (join_refusal (r.channel_at ref) (r.client_at sid) key) [
  | some refusal ↦ done (send sid refusal r)
  | none ↦ elim (host_of r ref) [
    | none ↦ raised r
    | some host ↦
        if has_flag (r.client_at host) (codes "b")
          && not (has_level (r.client_at sid) (codes "mod"))
        then ask_host sid ref host r
        else (remove_pending_battle sid r >>= join_battle sid ref)
  ]
]

-- `battle_id in self._root.battles`; no battle has a negative id.
unfoldable pub battle_with_id : Root → ℤ → Option ℕ
battle_with_id r (pos battle_id) = lookup battle_id r.battles
battle_with_id r (negsuc _) = none

-- `client.current_battle in self._root.battles`
abbrev pub in_open_battle : Root → ℕ → Bool
in_open_battle r sid = elim (r.client_at sid).current_battle [
  | none ↦ false
  | some battle_id ↦ has_key battle_id r.battles
]

-- JOINBATTLE with an id that has been read.
unfoldable pub join_numbered : ℕ → ℤ → Option Text → Root → Outcome
unfolding send battle_with_id enter_or_ask
join_numbered sid n key r =
    if in_open_battle r sid
    then done (send sid (lit "JOINBATTLEFAILED You are already in a battle" ∷ []) r)
    else elim (battle_with_id r n) [
      | none ↦ done (send sid (lit "JOINBATTLEFAILED Battle does not exist" ∷ []) r)
      | some ref ↦
          if contains sid (r.channel_at ref).users
          then done (send sid (lit "JOINBATTLEFAILED Client is already in battle" ∷ []) r)
          else enter_or_ask sid ref key r
    ]

-- The script password is kept whatever comes of the command.
unfoldable pub note_password : ℕ → Option Text → Root → Root
note_password sid script_password r =
    if is_truthy script_password
    then set_client sid (λ c. record c { script_password = script_password }) r
    else r

unfoldable pub in_joinbattle : ℕ → Text → Option Text → Option Text → Root → Outcome
unfolding int32 send note_password join_numbered
in_joinbattle sid battle_id key script_password r = elim (int32 battle_id) [
  | none ↦ done (
      send sid (lit "JOINBATTLEFAILED Invalid battle id: " ∷ txt battle_id ∷ lit "." ∷ [])
        (note_password sid script_password r))
  | some n ↦ join_numbered sid n key (note_password sid script_password r)
]

-- The host's battle; without one `battle.host` raises.
unfoldable pub is_host : ℕ → ℕ → Root → Bool
is_host sid ref r = elim (r.channel_at ref).battle.host [ none ↦ false | some host ↦ eqb sid host ]

unfoldable pub in_joinbattleaccept : ℕ → Text → Root → Outcome
unfolding client_from_username out_failed get_current_battle is_host remove_pending_battle
    join_battle
in_joinbattleaccept sid username r = elim (client_from_username r username) [
  | none ↦
      done (out_failed sid "JOINBATTLEACCEPT" (lit "Couldn't find user " ∷ txt username ∷ []) r)
  | some user ↦ elim (get_current_battle r sid) [
    | none ↦ raised r
    | some ref ↦
        if is_host sid ref r
        then (if contains user (r.channel_at ref).battle.pending_users
            then (remove_pending_battle user r >>= join_battle user ref)
            else done r)
        else elim (r.channel_at ref).battle.host [
          | none ↦ raised r
          | some host ↦ done (
              out_failed sid "JOINBATTLEACCEPT"
                (lit "Client isn't the specified host, " ∷ num sid ∷ lit " vs " ∷ num host ∷ []) r)
        ]
  ]
]

abbrev pub denied_because : Option Text → Message
denied_because reason = lit "JOINBATTLEFAILED Access denied by host" ∷ elim reason [
  | none ↦ []
  | some [] ↦ []
  | some (c ∷ why) ↦ lit " (" ∷ txt (c ∷ why) ∷ lit ")" ∷ []
]

unfoldable pub in_joinbattledeny : ℕ → Text → Option Text → Root → Outcome
unfolding client_from_username get_current_battle is_host remove_pending_battle send
in_joinbattledeny sid username reason r = elim (client_from_username r username) [
  | none ↦ done r
  | some user ↦ elim (get_current_battle r sid) [
    | none ↦ raised r
    | some ref ↦
        if is_host sid ref r && contains user (r.channel_at ref).battle.pending_users
        then (remove_pending_battle user r >>= (λ r1. done (send user (denied_because reason) r1)))
        else done r
  ]
]

-- The host closes the battle: it leaves both tables before its members are dismissed.
unfoldable pub close_battle : ℕ → ℕ → Root → Outcome
unfolding is_registered remove_battle
close_battle ref battle_id r =
    let name = (r.channel_at ref).name in
    if not (is_registered r name) && not (has_key name r.channels)
    then raised r
    else remove_battle ref (record r {
      channels = if is_registered r name then r.channels else erase name r.channels;
      battles = erase battle_id r.battles;
    })

unfoldable pub in_leavebattle : ℕ → Root → Outcome
unfolding get_current_battle out_failed is_host close_battle leave_battle
in_leavebattle sid r =
    let r1 = set_client sid (λ c. record c { relayed_host_ip = none }) r in
    elim (get_current_battle r1 sid) [
      | none ↦ done (out_failed sid "LEAVEBATTLE" (lit "not in battle" ∷ []) r1)
      | some ref ↦ elim (r1.channel_at ref).battle.battle_id [
        | none ↦ done (out_failed sid "LEAVEBATTLE" (lit "couldn't find battle" ∷ []) r1)
        | some battle_id ↦
            if not (has_key battle_id r1.battles)
            then done (out_failed sid "LEAVEBATTLE" (lit "couldn't find battle" ∷ []) r1)
            else if is_host sid ref r1
            then close_battle ref battle_id r1
            else leave_battle sid ref r1
      ]
    ]

unfoldable pub in_kickfrombattle : ℕ → Text → Root → Outcome
unfolding owned_battle member_called send in_leavebattle
in_kickfrombattle sid username r = elim (owned_battle r sid) [
  | none ↦ done r
  | some ref ↦ elim (member_called r ref username) [
    | none ↦ done r
    | some user ↦
        if has_level (r.client_at user) (codes "mod")
        then done r
        else in_leavebattle user
            (send user (lit "FORCEQUITBATTLE " ∷ txt (r.client_at sid).username ∷ []) r)
  ]
]
