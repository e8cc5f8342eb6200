-- ===== src/Protocol/Chat.antt =====
-- protocol/Protocol.py: `in_SAY`, `in_SAYEX`, `in_SAYPRIVATE`, `in_SAYPRIVATEEX`, `in_BATTLEHOSTMSG`,
-- `broadcast_SendBattle`, the end of a message to a user who is not online; and `hook_SAY` of
-- SayHooks.py. Whether the spam filter trips, which goes by the clock in
-- fractions of a second, is the parameter `spams`; a message to be stored is logged as a database call.
use uberserver.Base.{
  ℕ, Bool, true, false, ◌&&◌, ◌||◌, not, List, [], ◌∷◌, ◌++◌, Option, none, some, if◌then◌else◌,
  ◌==◌, text_eq, nat_eq, eqb, length, String,
}
use uberserver.Base.Dict.{lookup, contains, has_key}
use uberserver.Base.Text.{Text, codes, strip}
use uberserver.Server.Types.{Root, Client, Channel, Message, Piece, lit, txt, num}
use uberserver.Server.Store.{record_db, client_from_session, client_from_username, has_flag}
use uberserver.Server.Cast.{Filter, send, out_failed, broadcast}
use uberserver.Server.Outcome.{Outcome, done, raised, ◌>>=◌}
use uberserver.Channel.Access.{Person, person, is_op, is_muted}
use uberserver.Channel.Members.{u_flag}
use uberserver.Channel.Settings.{bool_name}
use uberserver.Channel.Penalties.{mute_user, get_mute_message}
use uberserver.Protocol.Current.{get_current_battle}
use uberserver.Protocol.Bots.{is_ignored}
pub mod Heard
pub mod Private

abbrev pub is_blank : Text → Bool
is_blank [] = true
is_blank (_ ∷ _) = false

-- The flags and the sender of `broadcast_SendBattle`; whether a client is logged in is not asked.
unfoldable pub hears_battle : (ℕ → Client) → Filter → ℕ → Bool
hears_battle client_at f sid =
    let c = client_at sid in
    elim f.flag [ none ↦ true | some flag ↦ has_flag c flag ]
    && elim f.not_flag [ none ↦ true | some flag ↦ not (has_flag c flag) ]
    && elim f.source [
      | none ↦ true
      | some source ↦ not (contains (client_at source).user_id c.ignored)
    ]

-- A member that is not online is an AttributeError.
unfoldable pub tell_members : List ℕ → Message → Filter → Root → Outcome
unfolding hears_battle send
tell_members [] m f r = done r
tell_members (sid ∷ sids) m f r = elim (client_from_session r sid) [
  | none ↦ raised r
  | some s ↦ tell_members sids m f (if hears_battle r.client_at f s then send s m r else r)
]

-- The mute of a sender is a dict, which is compared with a time: a TypeError.
unfoldable pub broadcast_send_battle : ℕ → Message → Filter → Root → Outcome
unfolding tell_members
broadcast_send_battle ref m f r =
    let ch = r.channel_at ref in
    if elim f.source [
      | none ↦ false
      | some source ↦ has_key (r.client_at source).user_id ch.mutelist
    ]
    then raised r
    else tell_members ch.users m f r

-- The texts in which SAY and SAYEX differ.
abbrev pub cmd_of : Bool → String
cmd_of ex = if ex then "SAYEX" else "SAY"

abbrev pub said_of : Bool → String
said_of ex = if ex then "SAIDEX " else "SAID "

abbrev pub said_battle_of : Bool → String
said_battle_of ex = if ex then "SAIDBATTLEEX " else "SAIDBATTLE "

-- The messages that go by a sender: to those with a flag, or to those without.
abbrev pub from_with : ℕ → Text → Filter
from_with sid flag = record { ignore = []; source = some sid; flag = some flag; not_flag = none }

abbrev pub from_without : ℕ → Text → Filter
from_without sid flag = record { ignore = []; source = some sid; flag = none; not_flag = some flag }

abbrev pub said : Bool → Text → Text → Text → Message
said ex chan username msg =
    lit (said_of ex) ∷ txt chan ∷ lit " " ∷ txt username ∷ lit " " ∷ txt msg ∷ []

-- The second half of the announcement, for clients without the flag u.
unfoldable pub say_legacy : Bool → ℕ → Text → Text → Root → Outcome
unfolding broadcast broadcast_send_battle
say_legacy ex sid chan msg r =
    let c = r.client_at sid in
    let plain : Outcome =
      done (broadcast (said ex chan c.username msg) (some chan) (from_without sid u_flag) r) in
    elim c.current_battle [
      | none ↦ plain
      | some battle_id ↦ if eqb battle_id 0 then plain else elim (lookup battle_id r.battles) [
        | none ↦ raised r
        | some ref ↦
            if (r.channel_at ref).name == chan
            then broadcast_send_battle ref
                (lit (said_battle_of ex) ∷ txt c.username ∷ lit " " ∷ txt msg ∷ [])
                (from_without sid u_flag) r
            else plain
      ]
    ]

-- `_enqueue_channel_store`, where the channel keeps its history.
unfoldable pub store_message : Bool → ℕ → Option ℕ → ℕ → Text → Root → Root
store_message ex user_id bridged_id ref msg r =
    let ch = r.channel_at ref in
    record r {
      db =
          if ch.store_history
          then record {
            method = "add_channel_message";
            channel = ch.name;
            args =
                num user_id
                ∷ elim bridged_id [ none ↦ lit "None" | some b ↦ num b ]
                ∷ txt msg
                ∷ bool_name ex
                ∷ [];
          }
            ∷ r.db
          else r.db;
    }

-- What follows the hook.
unfoldable pub say_hooked : Bool → ℕ → ℕ → Text → Text → Root → Outcome
unfolding strip is_muted get_mute_message send store_message broadcast say_legacy
say_hooked ex sid ref chan msg r =
    let c = r.client_at sid in
    if is_blank (strip msg)
    then done r
    else if is_muted (r.channel_at ref) (person c)
    then done (
        send sid
          (lit "CHANNELMESSAGE "
            ∷ txt chan
            ∷ lit " You are "
            ∷ (get_mute_message r ref c.user_id ++ (lit "." ∷ [])))
          r)
    else say_legacy ex sid chan msg (
        broadcast (said ex chan c.username msg) (some chan) (from_with sid u_flag)
          (store_message ex c.user_id none ref msg r))

-- `limit` is how deep the calls of a channel on its forwards may go.
module _ (limit : ℕ) (spams : ℕ → ℕ → Text → Root → Bool) where
  unfoldable pub hook_say : ℕ → ℕ → Text → Root → Outcome
  unfolding is_muted is_op
  hook_say sid ref msg r =
      let ch = r.channel_at ref in
      let c = person (r.client_at sid) in
      if is_muted ch c
      then done r
      else if ch.antispam && not (is_op ch c) && spams sid ref msg r
      then mute_user limit ref (person (r.client_at r.chanserv)) c (codes "spamming") 300 r
      else done r

  -- `in_SAY` and `in_SAYEX`, by whether the message is an action.
  unfoldable pub say : Bool → ℕ → Text → Text → Root → Outcome
  unfolding out_failed hook_say say_hooked
  say ex sid chan msg r = if is_blank msg then done r else elim (lookup chan r.channels) [
    | none ↦ done (out_failed sid (cmd_of ex) (lit "Channel %s does not exist" ∷ []) r)
    | some ref ↦
        if not (contains sid (r.channel_at ref).users)
        then done (out_failed sid (cmd_of ex) (lit "Not present in channel " ∷ txt chan ∷ []) r)
        else hook_say sid ref msg r >>= say_hooked ex sid ref chan msg
  ]

  unfoldable pub in_say : ℕ → Text → Text → Root → Outcome
  unfolding say
  in_say sid chan msg r = say false sid chan msg r

  unfoldable pub in_sayex : ℕ → Text → Text → Root → Outcome
  unfolding say
  in_sayex sid chan msg r = say true sid chan msg r

abbrev pub private_of : Bool → String
private_of ex = if ex then "SAYPRIVATEEX " else "SAYPRIVATE "

abbrev pub said_private_of : Bool → String
said_private_of ex = if ex then "SAIDPRIVATEEX " else "SAIDPRIVATE "

-- `in_SAYPRIVATE` and `in_SAYPRIVATEEX`. A message to a user who is not online goes to the database.
-- `chanserv` is what the static client does with a message: `Handle` of ChanServ.py.
module _ (chanserv : Message → Root → Root) where
  unfoldable pub say_private : Bool → ℕ → Text → Text → Root → Root
  unfolding client_from_username send
  say_private ex sid user msg r = if is_blank msg then r else elim (client_from_username r user) [
    | none ↦
        record_db "do_enqueue_offline_message" []
          (num (r.client_at sid).user_id ∷ txt user ∷ txt msg ∷ bool_name ex ∷ []) r
    | some receiver ↦
        let r1 = send sid (lit (private_of ex) ∷ txt user ∷ lit " " ∷ txt msg ∷ []) r in
        let m =
          lit (said_private_of ex) ∷ txt (r.client_at sid).username ∷ lit " " ∷ txt msg ∷ [] in
        if is_ignored r receiver sid
        then r1
        else if (r.client_at receiver).static
        then chanserv m r1
        else send receiver m r1
  ]

  unfoldable pub in_sayprivate : ℕ → Text → Text → Root → Root
  unfolding say_private
  in_sayprivate sid user msg r = say_private false sid user msg r

  unfoldable pub in_sayprivateex : ℕ → Text → Text → Root → Root
  unfolding say_private
  in_sayprivateex sid user msg r = say_private true sid user msg r

-- What the database answers about a message to a user who is not online.
pub data Queued : Type 0 where
  ok bot nouser : Queued

abbrev pub private_cmd : Bool → String
private_cmd ex = if ex then "SAYPRIVATEEX" else "SAYPRIVATE"

unfoldable pub offline_message_queued : Bool → Queued → ℕ → Text → Text → Root → Root
unfolding client_from_session send out_failed
offline_message_queued ex verdict sid user msg r =
    if not (contains sid r.clients) then r else elim verdict [
      | ok ↦ send sid (lit (private_of ex) ∷ txt user ∷ lit " " ∷ txt msg ∷ []) r
      | bot ↦
          out_failed sid (private_cmd ex)
            (lit "Cannot send offline messages to bots (" ∷ txt user ∷ lit ")" ∷ []) r
      | nouser ↦ r
    ]

unfoldable pub offline_message_failed : Bool → ℕ → Text → Root → Root
unfolding out_failed
offline_message_failed ex sid user r =
    if not (contains sid r.clients)
    then r
    else out_failed sid (private_cmd ex)
        (lit "Server error queueing your message for " ∷ txt user ∷ lit ", it was not sent" ∷ []) r

-- A message of a battle's host to one member.
unfoldable pub in_battlehostmsg : ℕ → Text → Text → Text → Root → Root
unfolding get_current_battle client_from_username send
in_battlehostmsg sid battle_name username msg r = elim (get_current_battle r sid) [
  | none ↦ r
  | some ref ↦
      let ch = r.channel_at ref in
      let c = r.client_at sid in
      if not (elim ch.battle.host [ none ↦ false | some host ↦ eqb sid host ])
      then r
      else if not (ch.name == battle_name)
      then r
      else elim (client_from_username r username) [
        | none ↦ r
        | some user ↦
            if not (contains user ch.users)
            then r
            else if is_ignored r user sid || has_key c.user_id ch.mutelist
            then r
            else if not (has_flag (r.client_at user) u_flag)
            then send user (lit "SAIDBATTLEEX " ∷ txt c.username ∷ lit " " ∷ txt msg ∷ []) r
            else send user (said true ch.name c.username msg) r
      ]
]
