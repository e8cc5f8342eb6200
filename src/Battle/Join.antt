-- ===== src/Battle/Join.antt =====
-- protocol/Battle.py: `joinBattle`; protocol/Protocol.py: `publicIP`.
use uberserver.Base.{
  ℕ, Bool, true, false, ◌&&◌, ◌||◌, not, List, [], ◌∷◌, ◌++◌, Option, none, some, eqb,
  if◌then◌else◌, nat_eq, text_eq, length, ◌==◌,
}
use uberserver.Base.Dict.{Dict, contains}
use uberserver.Base.Int.{ℤ, pos, ltb_ℤ}
use uberserver.Base.Text.{Text, codes, join, tab}
use uberserver.Server.Types.{
  Root, Client, Channel, BattlePart, Message, Piece, lit, txt, num, int, Bot, Rect, raw,
}
use uberserver.Server.Store.{set_client, client_from_session, has_flag, is_truthy}
use uberserver.Server.Cast.{send, broadcast, ignoring, turn_enabled}
use uberserver.Server.Outcome.{Outcome, done, raised, ◌>>=◌}
use uberserver.Channel.Members.{add_user}
use uberserver.Battle.Status.{
  calc_battlestatus, fresh_status, optional_nat, optional_int, color_piece,
}
pub mod Entry

-- Behind a trusted proxy the address is the one that LOGIN gave.
unfoldable pub public_ip : Root → Client → Text
public_ip r c = if contains c.ip_address r.trusted_proxies then c.local_ip else c.ip_address

-- JOINEDBATTLE, with the script password where one is passed on.
abbrev pub joined_battle : Option ℕ → Text → Option Text → Message
joined_battle battle_id username none =
    lit "JOINEDBATTLE " ∷ optional_nat battle_id ∷ lit " " ∷ txt username ∷ []
joined_battle battle_id username (some password) =
    lit "JOINEDBATTLE "
    ∷ optional_nat battle_id
    ∷ lit " "
    ∷ txt username
    ∷ lit " "
    ∷ txt password
    ∷ []

-- The announcement of a client who is not the host. `host` is the session that was looked up.
unfoldable pub announce_joiner : ℕ → ℕ → ℕ → Root → Root
unfolding send broadcast turn_enabled public_ip
announce_joiner sid host ref r =
    let b = (r.channel_at ref).battle in
    let c = r.client_at sid in
    let h = r.client_at host in
    let r1 =
      if has_flag h (codes "r") && turn_enabled r
      then send host (lit "CLIENTIP " ∷ txt c.username ∷ lit " " ∷ txt (public_ip r c) ∷ []) r
      else r in
    let r2 =
      broadcast (joined_battle b.battle_id c.username none) none (ignoring (host ∷ sid ∷ [])) r1 in
    let message = joined_battle b.battle_id c.username (
      if is_truthy c.script_password && has_flag h (codes "sp") then c.script_password else none) in
    send sid message (send host message r2)

unfoldable pub script_tag_texts : Dict Text Text → List Text
script_tag_texts [] = []
script_tag_texts ((tag, val) ∷ d) = (tag ++ (codes "=" ++ val)) ∷ script_tag_texts d

unfoldable pub send_settings : ℕ → ℕ → Root → Root
unfolding send script_tag_texts
send_settings sid ref r =
    let b = (r.channel_at ref).battle in
    let r1 =
      send sid (lit "SETSCRIPTTAGS " ∷ txt (join (tab ∷ []) (script_tag_texts b.script_tags)) ∷ [])
        r in
    if eqb (length b.disabled_units) 0
    then r1
    else send sid (lit "DISABLEUNITS " ∷ txt (join (codes " ") b.disabled_units) ∷ []) r1

-- The status of each member; a member who is not online, or whose status is no number, raises.
unfoldable pub send_statuses : ℕ → List ℕ → Root → Outcome
unfolding send client_from_session
send_statuses sid [] r = done r
send_statuses sid (member ∷ members) r = elim (client_from_session r member) [
  | none ↦ raised r
  | some s ↦ elim (calc_battlestatus (r.client_at s).battlestatus) [
    | none ↦ raised r
    | some status ↦ send_statuses sid members (
        send sid
          (lit "CLIENTBATTLESTATUS "
            ∷ txt (r.client_at s).username
            ∷ lit " "
            ∷ num status
            ∷ lit " "
            ∷ color_piece (r.client_at s).teamcolor
            ∷ [])
          r)
  ]
]

unfoldable pub send_bots : ℕ → Option ℕ → Dict Text Bot → Root → Root
unfolding send
send_bots sid battle_id [] r = r
send_bots sid battle_id ((name, bot) ∷ bots) r = send_bots sid battle_id bots (
    send sid
      (lit "ADDBOT "
        ∷ optional_nat battle_id
        ∷ lit " "
        ∷ txt name
        ∷ lit " "
        ∷ txt bot.owner
        ∷ lit " "
        ∷ txt bot.status
        ∷ lit " "
        ∷ txt bot.color
        ∷ lit " "
        ∷ txt bot.ai_dll
        ∷ [])
      r)

abbrev pub rect_message : ℤ → Rect → Message
rect_message allyno rect =
    lit "ADDSTARTRECT "
    ∷ int allyno
    ∷ lit " "
    ∷ int rect.left
    ∷ lit " "
    ∷ int rect.top
    ∷ lit " "
    ∷ int rect.right
    ∷ lit " "
    ∷ int rect.bottom
    ∷ []

unfoldable pub send_rects : ℕ → Dict ℤ Rect → Root → Root
unfolding send
send_rects sid [] r = r
send_rects sid ((allyno, rect) ∷ rects) r =
    send_rects sid rects (send sid (rect_message allyno rect) r)

-- The assignments at the end of `joinBattle`, and the request for a status.
unfoldable pub enter_battle : ℕ → ℕ → Root → Root
unfolding send
enter_battle sid ref r = send sid (lit "REQUESTBATTLESTATUS" ∷ []) (
    set_client sid
      (λ c. record c {
        battlestatus = fresh_status;
        teamcolor = raw (codes "0");
        current_battle = (r.channel_at ref).battle.battle_id;
      })
      r)

-- CLIENTIPPORT to the host of a hole-punched battle; comparing the `''` of a closed battle raises.
unfoldable pub send_ip_port : ℕ → Option ℕ → ℕ → Root → Outcome
unfolding send
send_ip_port sid host ref r = elim (r.channel_at ref).battle.nat_type [
  | none ↦ raised r
  | some nat_type ↦
      if not (ltb_ℤ (pos 0) nat_type)
        || eqb (r.client_at sid).udpport 0
        || elim host [ none ↦ false | some h ↦ eqb h sid ]
      then done r
      else elim host [
        | none ↦ raised r
        | some h ↦ done (
            send h
              (lit "CLIENTIPPORT "
                ∷ txt (r.client_at sid).username
                ∷ lit " "
                ∷ txt (r.client_at sid).ip_address
                ∷ lit " "
                ∷ num (r.client_at sid).udpport
                ∷ [])
              r)
      ]
]

-- `if client!=host:`; without a host in the session table `host.compat` raises.
unfoldable pub announce_unless_host : ℕ → Option ℕ → ℕ → Root → Outcome
announce_unless_host sid none ref r = raised r
announce_unless_host sid (some host) ref r =
    if eqb sid host then done r else done (announce_joiner sid host ref r)

-- `self._root.clientFromSession(self.host)`
unfoldable pub host_of : Root → ℕ → Option ℕ
unfolding client_from_session
host_of r ref = elim (r.channel_at ref).battle.host [
  | none ↦ none
  | some host ↦ client_from_session r host
]

-- What a joiner is told and what is announced, between the entry into the channel and into the
-- battle.
unfoldable pub brief : ℕ → ℕ → Root → Outcome
brief sid ref r = announce_unless_host sid (host_of r ref) ref r >>= (λ r1.
    send_ip_port sid (host_of r1 ref) ref (send_settings sid ref r1) >>= (λ r2.
      send_statuses sid (r2.channel_at ref).users r2 >>= (λ r3. done (
        send_rects sid (r3.channel_at ref).battle.startrects (
          send_bots sid (r3.channel_at ref).battle.battle_id (r3.channel_at ref).battle.bots r3)))))

unfoldable pub join_battle : ℕ → ℕ → Root → Outcome
unfolding send
join_battle sid ref r =
    let ch = r.channel_at ref in
    let opening : Message =
      lit "JOINBATTLE "
      ∷ optional_nat ch.battle.battle_id
      ∷ lit " "
      ∷ optional_int ch.battle.hashcode
      ∷ (if has_flag (r.client_at sid) (codes "u") then lit " " ∷ txt ch.name ∷ [] else []) in
    add_user sid ref (send sid opening r)
    >>= (λ r1. brief sid ref r1 >>= (λ r2. done (enter_battle sid ref r2)))
