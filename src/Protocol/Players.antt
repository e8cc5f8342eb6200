-- ===== src/Protocol/Players.antt =====
-- protocol/Protocol.py: `in_MYBATTLESTATUS`, `in_HANDICAP`, `in_FORCETEAMNO`, `in_FORCEALLYNO`,
-- `in_FORCETEAMCOLOR`, `in_FORCESPECTATORMODE`.
use uberserver.Base.{
  ℕ, ◌+◌, ◌-◌, ◌≤◌, Bool, true, false, ◌&&◌, ◌||◌, not, List, [], ◌∷◌, ◌++◌, Option, none, some,
  if◌then◌else◌, ◌==◌, text_eq, nat_eq, eqb, leb, length, take, zero, suc,
}
use uberserver.Base.Dict.{contains}
use uberserver.Base.Int.{ℤ, pos, negsuc, eqb_ℤ, leb_ℤ, parse_int, ◌+ℤ◌, ◌-ℤ◌, ltb_ℤ}
use uberserver.Base.Text.{Text, codes, all_digits, decimal_from}
use uberserver.Syntax.Numbers.{int32, dec2bin}
use uberserver.Server.Types.{
  Root, Client, Channel, BattleStatus, Message, Piece, lit, txt, num, int, Color, raw, read,
}
use uberserver.Server.Store.{set_client, set_battle}
use uberserver.Server.Cast.{send, out_failed, broadcast_all, broadcast_battle, everyone}
use uberserver.Server.Outcome.{Outcome, done, raised, ◌>>=◌}
use uberserver.Battle.Status.{calc_battlestatus, is_spectator, spectator_count, color_piece}
use uberserver.Battle.Leave.{battle_info, tell_battle}
use uberserver.Protocol.Current.{get_current_battle, owned_battle, member_called, tell_current}
pub mod Decoded
pub mod Counted
pub mod Stored

unfoldable pub drop : ℕ → Text → Text
drop zero s = s
drop (suc n) [] = []
drop (suc n) (_ ∷ s) = drop n s

-- The last 32 digits.
unfoldable pub last_32 : Text → Text
unfolding drop
last_32 s = drop (length s - 32) s

-- `width` of the 32 digits that are unpacked, from the one at `at`.
abbrev pub field : ℕ → ℕ → Text → Text
field at width bits = take width (drop at bits)

-- `client.battlestatus.update({…})`: the handicap is the host's to set.
unfoldable pub status_of_bits : Text → Text → BattleStatus → BattleStatus
unfolding drop
status_of_bits bits mode old = record {
  ready = field 30 1 bits;
  id = field 26 4 bits;
  ally = field 22 4 bits;
  mode = mode;
  sync = field 8 2 bits;
  side = field 4 4 bits;
  handicap = old.handicap;
}

-- The mode that is granted and the number of spectators after it.
unfoldable pub granted_mode : Bool → Text → ℕ → ℕ → ℤ → Text × ℤ
granted_mode spectating mode members spectators maxplayers =
    if spectating
    then (if leb_ℤ maxplayers (pos members -ℤ pos spectators)
        then (codes "0", pos spectators)
        else if mode == codes "1"
        then (mode, pos spectators -ℤ pos 1)
        else (mode, pos spectators))
    else if mode == codes "0"
    then (mode, pos spectators +ℤ pos 1)
    else (mode, pos spectators)

unfoldable pub same_color : Color → Color → Bool
same_color (raw s) (raw t) = s == t
same_color (read a) (read b) = eqb_ℤ a b
same_color (raw _) (read _) = false
same_color (read _) (raw _) = false

abbrev pub battlestatus_message : Text → ℕ → Color → Message
battlestatus_message username status color =
    lit "CLIENTBATTLESTATUS "
    ∷ txt username
    ∷ lit " "
    ∷ num status
    ∷ lit " "
    ∷ color_piece color
    ∷ []

-- CLIENTBATTLESTATUS to the battle, or to the client alone where nothing changed.
unfoldable pub tell_status : ℕ → ℕ → ℕ → Color → Root → Outcome
unfolding calc_battlestatus send tell_battle same_color
tell_status sid ref oldstatus oldcolor r =
    let c = r.client_at sid in
    elim (calc_battlestatus c.battlestatus) [
      | none ↦ raised r
      | some newstatus ↦
          let m = battlestatus_message c.username newstatus c.teamcolor in
          if eqb oldstatus newstatus && same_color c.teamcolor oldcolor
          then done (send sid m r)
          else tell_battle ref m r
    ]

-- The assignments to the client and to the battle's count.
abbrev pub assign_status : ℕ → ℕ → BattleStatus → Color → ℤ → Root → Root
assign_status sid ref status color specs r =
    set_battle ref (λ b. record b { spectators = specs })
      (set_client sid (λ c. record c { battlestatus = status; teamcolor = color }) r)

-- UPDATEBATTLEINFO where the number of spectators is not the old one.
unfoldable pub announce_count : ℕ → ℤ → Root → Root
unfolding broadcast_all
announce_count ref oldspecs r =
    if eqb_ℤ oldspecs (r.channel_at ref).battle.spectators
    then r
    else broadcast_all (battle_info r ref) r

-- The part of `in_MYBATTLESTATUS` after its checks; the new status is not negative.
unfoldable pub change_status : ℕ → ℕ → ℕ → ℤ → Root → Outcome
change_status sid ref status color r =
    let c = r.client_at sid in
    let ch = r.channel_at ref in
    let bits = last_32 (dec2bin (pos status) 32) in
    let (mode, specs) =
      granted_mode (is_spectator c.battlestatus) (field 21 1 bits) (length ch.users)
        (spectator_count r ch.users) ch.battle.maxplayers in
    elim (calc_battlestatus c.battlestatus) [
      | none ↦ raised r
      | some oldstatus ↦ tell_status sid ref oldstatus c.teamcolor (
          announce_count ref ch.battle.spectators
            (assign_status sid ref (status_of_bits bits mode c.battlestatus) (read color) specs r))
    ]

-- A negative status, -(n + 1), is reported and has 2147483648 added. The answer to an invalid colour
-- names a variable that has no value yet, and raises.
unfoldable pub my_battle_status : ℕ → Text → Text → Root → Outcome
unfolding int32 out_failed get_current_battle change_status
my_battle_status sid battlestatus teamcolor r = elim (int32 battlestatus) [
  | none ↦
      done (
        out_failed sid "MYBATTLESTATUS" (lit "invalid status: " ∷ txt battlestatus ∷ lit "." ∷ [])
          r)
  | some status ↦
      let (value, r1) : ℕ × Root = elim status [
        | pos n ↦ (n, r)
        | negsuc n ↦ (
          2147483647 - n,
          out_failed sid "MYBATTLESTATUS"
              (lit "invalid status is below 0: "
                ∷ txt battlestatus
                ∷ lit ". Please update your lobby!"
                ∷ [])
              r,
        )
      ] in
      elim (int32 teamcolor) [
        | none ↦ raised r1
        | some color ↦ elim (get_current_battle r1 sid) [
          | none ↦ done (out_failed sid "MYBATTLESTATUS" (lit "not inside a battle" ∷ []) r1)
          | some ref ↦ change_status sid ref value color r1
        ]
      ]
]

-- CLIENTBATTLESTATUS of a player whose host has changed something.
unfoldable pub tell_forced : ℕ → Text → Root → Outcome
unfolding calc_battlestatus tell_current
tell_forced user username r = elim (calc_battlestatus (r.client_at user).battlestatus) [
  | none ↦ raised r
  | some status ↦
      tell_current user (battlestatus_message username status (r.client_at user).teamcolor) r
]

-- The guards that the host's commands share: the battle and the player, or nothing to do.
unfoldable pub forced_player : Root → ℕ → Text → Option (ℕ × ℕ)
unfolding owned_battle member_called
forced_player r sid username = elim (owned_battle r sid) [
  | none ↦ none
  | some ref ↦ elim (member_called r ref username) [ none ↦ none | some user ↦ some (ref, user) ]
]

unfoldable pub handicap_player : ℕ → Text → Text → Root → Outcome
unfolding forced_player dec2bin tell_forced all_digits decimal_from
handicap_player sid username value r = elim (forced_player r sid username) [
  | none ↦ done r
  | some (_, user) ↦
      if all_digits value && leb (decimal_from 0 value) 100
      then tell_forced user username (
          set_client user
            (λ c. record c {
              battlestatus = record c.battlestatus {
                handicap = dec2bin (pos (decimal_from 0 value)) 7;
              };
            })
            r)
      else done r
]

-- No range is checked; a text that is no integer raises.
unfoldable pub force_team_no : ℕ → Text → Text → Root → Outcome
unfolding forced_player dec2bin tell_forced
force_team_no sid username teamno r = elim (forced_player r sid username) [
  | none ↦ done r
  | some (_, user) ↦ elim (parse_int teamno) [
    | none ↦ raised r
    | some n ↦ tell_forced user username (
        set_client user
          (λ c. record c { battlestatus = record c.battlestatus { id = dec2bin n 4 } }) r)
  ]
]

unfoldable pub force_ally_no : ℕ → Text → Text → Root → Outcome
unfolding forced_player dec2bin tell_forced
force_ally_no sid username allyno r = elim (forced_player r sid username) [
  | none ↦ done r
  | some (_, user) ↦ elim (parse_int allyno) [
    | none ↦ raised r
    | some n ↦ tell_forced user username (
        set_client user
          (λ c. record c { battlestatus = record c.battlestatus { ally = dec2bin n 4 } }) r)
  ]
]

unfoldable pub force_team_color : ℕ → Text → Text → Root → Outcome
unfolding forced_player tell_forced
force_team_color sid username teamcolor r = elim (forced_player r sid username) [
  | none ↦ done r
  | some (_, user) ↦
      tell_forced user username (set_client user (λ c. record c { teamcolor = raw teamcolor }) r)
]

-- The battle is looked up again, as the player's own.
unfoldable pub force_spectator_mode : ℕ → Text → Root → Outcome
unfolding forced_player get_current_battle tell_forced broadcast_all
force_spectator_mode sid username r = elim (forced_player r sid username) [
  | none ↦ done r
  | some (_, user) ↦
      if (r.client_at user).battlestatus.mode == codes "1"
      then elim (get_current_battle r user) [
        | none ↦ done r
        | some ref ↦
            tell_forced user username (
              set_client user
                (λ c. record c { battlestatus = record c.battlestatus { mode = codes "0" } })
                (set_battle ref (λ b. record b { spectators = b.spectators +ℤ pos 1 }) r))
            >>= (λ r1. done (broadcast_all (battle_info r1 ref) r1))
      ]
      else done r
]
