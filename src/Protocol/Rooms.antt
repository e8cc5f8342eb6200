-- ===== src/Protocol/Rooms.antt =====
-- protocol/Protocol.py: `in_JOIN`, `in_LEAVE`, `in_CHANNELTOPIC`, `in_CHANNELS`; the constructor of
-- protocol/Channel.py.
use uberserver.Base.{
  ℕ, suc, Bool, true, false, ◌&&◌, ◌||◌, not, List, [], ◌∷◌, ◌++◌, Option, none, some,
  if◌then◌else◌, ◌==◌, text_eq, nat_eq, eqb, length, ◌+◌,
}
use uberserver.Base.Dict.{Dict, lookup, insert, erase, contains, has_key}
use uberserver.Base.Text.{Text, codes, lstrip_char, has_substring, starts_with}
use uberserver.Syntax.Names.{Verdict, valid, invalid, valid_channel_syntax}
use uberserver.Server.Types.{Root, Client, Channel, Message, Piece, lit, txt, num}
use uberserver.Server.Store.{put, has_level, is_truthy, is_registered}
use uberserver.Server.Cast.{send, out_failed}
use uberserver.Server.Outcome.{Outcome, done, raised, ◌>>=◌}
use uberserver.Channel.Access.{is_founder, is_op, person}
use uberserver.Channel.Members.{add_user, remove_user}
use uberserver.Channel.Settings.{set_topic}
use uberserver.Channel.Penalties.{get_ban_message}
use uberserver.Battle.Status.{fresh_battle}
use uberserver.Protocol.Address.{text_of, same_text}
pub mod Entrance
pub mod Exit

abbrev pub fresh_channel : Bool → Text → Channel
fresh_channel is_battle name = record {
  is_battle = is_battle;
  name = name;
  key = none;
  owner_user_id = none;
  topic = some [];
  topic_user_id = none;
  antispam = false;
  store_history = false;
  last_used = none;
  operators = [];
  users = [];
  user_clients = [];
  bridged_users = [];
  mutelist = [];
  ban = [];
  ban_ip = [];
  bridged_ban = [];
  forwards = [];
  battle = fresh_battle;
}

-- `self._root.channels[name] = Channel(self._root, name)`: the reference is the one that is free.
unfoldable pub create_channel : Bool → Text → Root → Root
create_channel is_battle name r = record r {
  channel_at = put r.next_ref (fresh_channel is_battle name) r.channel_at;
  next_ref = suc r.next_ref;
  channels = insert name r.next_ref r.channels;
}

-- `chan in ("newbies")` asks whether the name is a part of that word.
unfoldable pub kept_out : Client → Text → Bool
unfolding starts_with has_substring
kept_out c chan =
    (c.bot || starts_with (codes "SPADS") c.agent)
    && has_substring chan (codes "newbies")
    && not (c.username == codes "ChanServ")

-- `channel.key in (key, None, '*', '')`, the last two of which are no key.
unfoldable pub fits_key : Channel → Option Text → Bool
fits_key ch key =
    not (is_truthy ch.key) || same_text ch.key key || same_text ch.key (some (codes "*"))

-- The refusals of a channel that exists.
unfoldable pub refusal : Root → ℕ → ℕ → Text → Option Text → Option Message
unfolding is_founder fits_key get_ban_message
refusal r sid ref chan key =
    let ch = r.channel_at ref in
    let c = r.client_at sid in
    if ch.is_battle && not (c.username == codes "ChanServ") && not c.bot
    then some (
        lit "JOINFAILED Channel '"
        ∷ txt chan
        ∷ lit "' is associated to a battle, please use JOINBATTLE to access it"
        ∷ [])
    else if is_founder ch (person c) || has_level c (codes "mod")
    then none
    else if has_key c.user_id ch.ban || has_key c.ip_address ch.ban_ip
    then some
        (lit "JOINFAILED " ∷ txt chan ∷ lit " " ∷ get_ban_message r ref c.user_id c.ip_address)
    else if not (fits_key ch key)
    then some (lit "JOINFAILED " ∷ txt chan ∷ lit " Invalid key" ∷ [])
    else none

-- `assert(chan not in client.channels)` and the entry.
unfoldable pub enter_channel : ℕ → ℕ → Text → Option Text → Root → Outcome
unfolding refusal send add_user
enter_channel sid ref chan key r =
    if contains sid (r.channel_at ref).users then done r else elim (refusal r sid ref chan key) [
      | some m ↦ done (send sid m r)
      | none ↦ if contains chan (r.client_at sid).channels then raised r else add_user sid ref r
    ]

unfoldable pub find_or_create : ℕ → Text → Option Text → Root → Outcome
unfolding out_failed create_channel enter_channel starts_with
find_or_create sid chan key r = elim (lookup chan r.channels) [
  | some ref ↦ enter_channel sid ref chan key r
  | none ↦
      if starts_with (codes "__battle__") chan
      then done (
          out_failed sid "JOIN"
            (lit "cannot create channel "
              ∷ txt chan
              ∷ lit " with prefix __battle__, these names are reserved for battles"
              ∷ [])
            r)
      else enter_channel sid r.next_ref chan key (create_channel false chan r)
]

unfoldable pub in_join : ℕ → Text → Option Text → Root → Outcome
unfolding lstrip_char valid_channel_syntax kept_out send out_failed find_or_create
in_join sid given key r =
    let chan = lstrip_char b'#' given in
    let c = r.client_at sid in
    elim (valid_channel_syntax chan) [
      | invalid reason ↦ done (send sid (lit "JOINFAILED " ∷ txt reason ∷ []) r)
      | valid ↦
          if kept_out c chan
          then done r
          else if (chan == codes "moderator") && not (has_level c (codes "mod"))
          then done (
              out_failed sid "JOIN"
                (lit "Only moderators allowed in this channel! access=" ∷ txt c.access ∷ []) r)
          else if eqb (length chan) 0
          then done (out_failed sid "JOIN" (lit "Invalid channel" ∷ []) r)
          else find_or_create sid chan key r
    ]

-- An empty channel that is not registered is forgotten.
unfoldable pub drop_if_empty : ℕ → Text → Root → Root
unfolding is_registered
drop_if_empty ref chan r =
    let ch = r.channel_at ref in
    if not (is_registered r ch.name) && eqb (length ch.users) 0 && eqb (length ch.bridged_users) 0
    then record r { channels = erase chan r.channels }
    else r

-- `assert(not client.session_id in channel.users)` and what follows it.
unfoldable pub settle : ℕ → ℕ → Text → Root → Outcome
unfolding drop_if_empty
settle sid ref chan r =
    if contains sid (r.channel_at ref).users then raised r else done (drop_if_empty ref chan r)

unfoldable pub in_leave : ℕ → Text → Option Text → Root → Outcome
unfolding out_failed
in_leave sid chan reason r = elim (lookup chan r.channels) [
  | none ↦ done r
  | some ref ↦
      if (r.channel_at ref).is_battle && not ((r.client_at sid).username == codes "ChanServ")
      then done (
          out_failed sid "LEAVE" (txt chan ∷ lit " is a battle, use LEAVEBATTLE to leave it" ∷ [])
            r)
      else if not (contains sid (r.channel_at ref).users)
      then done (out_failed sid "LEAVE" (lit "not in channel " ∷ txt chan ∷ []) r)
      else settle sid ref chan (remove_user sid ref reason r)
]

unfoldable pub in_channeltopic : ℕ → Text → Text → Root → Root
unfolding is_op set_topic
in_channeltopic sid chan topic r = elim (lookup chan r.channels) [
  | none ↦ r
  | some ref ↦
      if is_op (r.channel_at ref) (person (r.client_at sid))
      then set_topic ref (person (r.client_at sid)) topic r
      else r
]

unfoldable pub list_channels : ℕ → Dict Text ℕ → Root → Root
unfolding send
list_channels sid [] r = r
list_channels sid ((_, ref) ∷ channels) r =
    let ch = r.channel_at ref in
    list_channels sid channels (
      if is_truthy ch.key
      then r
      else send sid
          (lit "CHANNEL "
            ∷ txt ch.name
            ∷ lit " "
            ∷ num (length ch.users)
            ∷ lit " "
            ∷ txt (text_of ch.topic)
            ∷ [])
          r)

unfoldable pub in_channels : ℕ → Root → Root
unfolding list_channels send
in_channels sid r = send sid (lit "ENDOFCHANNELS" ∷ []) (list_channels sid r.channels r)
