-- ===== src/Protocol/Address.antt =====
-- protocol/Protocol.py: `relayedAddressFor`, `client_AddBattle`, `client_AddBattleLines`,
-- `broadcast_AddBattle`, `broadcast_MoveBattle`, `turnUriFor`. The address that is left in
-- `battle.ip` is read nowhere else and is not kept.
use uberserver.Base.{
  ℕ, Bool, true, false, ◌&&◌, ◌||◌, not, List, [], ◌∷◌, ◌++◌, Option, none, some, if◌then◌else◌,
  ◌==◌, text_eq, nat_eq,
}
use uberserver.Base.Dict.{Dict, values, contains}
use uberserver.Base.Int.{ℤ}
use uberserver.Base.Text.{Text, codes, tab, split, starts_with}
use uberserver.Syntax.Tags.{is_private_ip}
use uberserver.Server.Types.{Root, Client, Channel, BattlePart, Message, Piece, lit, txt, num, int}
use uberserver.Server.Store.{has_flag, is_truthy, client_from_session}
use uberserver.Server.Cast.{send}
use uberserver.Server.Outcome.{Outcome, done, raised, ◌>>=◌}
use uberserver.Channel.Access.{passworded}
use uberserver.Battle.Status.{optional_nat, optional_int}
use uberserver.Battle.Join.{host_of}
pub mod Reachable

abbrev pub text_of : Option Text → Text
text_of none = codes "None"
text_of (some s) = s

abbrev pub same_text : Option Text → Option Text → Bool
same_text none none = true
same_text (some a) (some b) = a == b
same_text none (some _) = false
same_text (some _) none = false

unfoldable pub relayed_address_for : Root → Client → BattlePart → Option Text
unfolding is_private_ip
relayed_address_for r c b =
    if is_truthy b.relayed_ip
      && is_truthy r.turn_lan_ip
      && same_text b.relayed_ip r.online_ip
      && is_private_ip c.ip_address
    then r.turn_lan_ip
    else b.relayed_ip

-- The address that a battle is announced to a client with.
unfoldable pub translated_ip : Root → Client → Client → BattlePart → Option Text
unfolding relayed_address_for is_private_ip
translated_ip r host c b =
    if is_truthy b.relayed_ip
    then relayed_address_for r c b
    else if host.ip_address == c.ip_address
    then some host.local_ip
    else if is_private_ip host.ip_address && not (is_private_ip c.ip_address)
    then r.online_ip
    else some host.ip_address

abbrev pub battle_type : Option ℤ → Piece
battle_type none = lit ""
battle_type (some n) = int n

-- BATTLEOPENED, with the channel's name for a client that sent 'u'.
unfoldable pub battle_opened : Root → Client → Client → Channel → Message
unfolding translated_ip passworded
battle_opened r host c ch =
    let b = ch.battle in
    let gap = lit " " in
    let column = txt (tab ∷ []) in
    lit "BATTLEOPENED "
    ∷ optional_nat b.battle_id
    ∷ gap
    ∷ battle_type b.type
    ∷ gap
    ∷ battle_type b.nat_type
    ∷ gap
    ∷ txt host.username
    ∷ gap
    ∷ txt (text_of (translated_ip r host c b))
    ∷ gap
    ∷ int b.port
    ∷ gap
    ∷ int b.maxplayers
    ∷ gap
    ∷ num (passworded ch)
    ∷ gap
    ∷ txt b.rank
    ∷ gap
    ∷ optional_int b.maphash
    ∷ gap
    ∷ txt b.engine
    ∷ column
    ∷ txt b.version
    ∷ column
    ∷ txt b.map_name
    ∷ column
    ∷ txt b.title
    ∷ column
    ∷ txt b.modname
    ∷ (if has_flag c (codes "u") then column ∷ txt ch.name ∷ [] else [])

unfoldable pub add_battle_lines : Root → Client → Client → Channel → List Message
unfolding battle_opened
add_battle_lines r host c ch =
    battle_opened r host c ch
    ∷ (if is_truthy ch.battle.relayed_ip && has_flag c (codes "r")
        then (lit "BATTLEISRELAYED " ∷ optional_nat ch.battle.battle_id ∷ []) ∷ []
        else [])

unfoldable pub send_all : ℕ → List Message → Root → Root
unfolding send
send_all sid [] r = r
send_all sid (m ∷ ms) r = send_all sid ms (send sid m r)

unfoldable pub announce_battle : ℕ → ℕ → List ℕ → Root → Root
unfolding send_all add_battle_lines
announce_battle ref host [] r = r
announce_battle ref host (sid ∷ sids) r =
    announce_battle ref host sids
      (send_all sid (add_battle_lines r (r.client_at host) (r.client_at sid) (r.channel_at ref)) r)

-- Every client whose name is in use, whether or not anyone hosts the battle: without a host the first
-- one raises.
unfoldable pub broadcast_add_battle : ℕ → Root → Outcome
unfolding announce_battle host_of
broadcast_add_battle ref r = elim (host_of r ref) [
  | none ↦ elim r.usernames [ [] ↦ done r | _ ∷ _ ↦ raised r ]
  | some host ↦ done (announce_battle ref host (values r.usernames) r)
]

unfoldable pub announce_move : ℕ → List ℕ → Root → Root
unfolding send relayed_address_for
announce_move ref [] r = r
announce_move ref (sid ∷ sids) r =
    let b = (r.channel_at ref).battle in
    announce_move ref sids (
      if has_flag (r.client_at sid) (codes "r")
      then send sid
          (lit "BATTLEHOSTMOVED "
            ∷ optional_nat b.battle_id
            ∷ lit " "
            ∷ txt (text_of (relayed_address_for r (r.client_at sid) b))
            ∷ lit " "
            ∷ int b.port
            ∷ [])
          r
      else r)

unfoldable pub broadcast_move_battle : ℕ → Root → Root
unfolding announce_move
broadcast_move_battle ref r = announce_move ref (values r.usernames) r

unfoldable pub first_plain : List Text → Option Text
unfolding starts_with
first_plain [] = none
first_plain (entry ∷ entries) =
    if starts_with (codes "turns:") entry then first_plain entries else some entry

unfoldable pub turn_uri_for : Text → Client → Option Text
unfolding split first_plain
turn_uri_for uri c = if has_flag c (codes "turns") then some uri else first_plain (split b',' uri)
