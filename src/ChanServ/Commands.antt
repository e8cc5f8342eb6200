-- ===== src/ChanServ/Commands.antt =====
-- ChanServ.py: `HandleCommand`, with the commands `register`, `setbot`, `unsetbot` and `refreship`.
use uberserver.Base.{
  ℕ, Bool, true, false, not, [], ◌∷◌, ◌++◌, Option, none, some, if◌then◌else◌, eqb, leb, all, ◌&&◌,
  ◌||◌, length, nat_eq, text_eq, ◌==◌,
}
use uberserver.Base.Dict.{lookup, contains}
use uberserver.Base.Text.{Text, codes, lower, strip, partition, space}
use uberserver.Server.Types.{Root, Message, lit, txt, num}
use uberserver.Server.Store.{client_from_username, set_client, record_db, is_registered}
use uberserver.Server.Outcome.{Outcome}
use uberserver.Server.Accounts.{UserDb, find_username}
use uberserver.Channel.Access.{Person, person, is_admin}
use uberserver.Channel.Settings.{register, bool_name}
use uberserver.ChanServ.{
  Answer, says, fails, reply, reply_after, Call, in_channel, deny, as_staff, given,
}
use uberserver.ChanServ.Governing.{
  unregister_command, forward_command, unforward_command, history_command, antispam_command,
  setkey_command, op_command, deop_command, changefounder_command, not_found,
}
use uberserver.ChanServ.Policing.{
  mute_command, unmute_command, ban_command, unban_command, kick_command, topic_command,
}
use uberserver.ChanServ.Listing.{
  help, battlename_command, showip_command, listforwards_command, listmutes_command,
  listbans_command, info_command,
}

-- `chan or args`
abbrev either : Option Text → Option Text → Option Text
either chan args = elim (given chan) [ none ↦ given args | some c ↦ some c ]

-- The bot flag of a user, in the database and of the client with the name, if there is one.
unfoldable pub set_bot : Person → Bool → Root → Root
unfolding client_from_username
set_bot target flag r =
    let r1 = record_db "set_bot" [] (num target.user_id ∷ bool_name flag ∷ []) r in
    elim (client_from_username r1 target.username) [
      | none ↦ r1
      | some sid ↦ set_client sid (λ c. record c { bot = flag }) r1
    ]

abbrev bot_message : Bool → Text → Message
bot_message true name = lit "<" ∷ txt name ∷ lit "> has been flagged as a bot" ∷ []
bot_message false name = lit "<" ∷ txt name ∷ lit "> bot flag has been removed" ∷ []

abbrev bot_usage : Bool → Message
bot_usage true = lit "Usage: :setbot username" ∷ []
bot_usage false = lit "Usage: :unsetbot username" ∷ []

-- `setbot` and `unsetbot`, by the flag.
unfoldable pub setbot_command :
    UserDb → Bool → Option Person → Option Text → Option Text → Root → Answer
unfolding set_bot
setbot_command users flag client chan args r =
    as_staff client (reply (lit "You must be a moderator or admin to set bot flags" ∷ []) r)
      (λ _. elim (either chan args) [
        | none ↦ reply (bot_usage flag) r
        | some username ↦ elim (find_username users r (strip username)) [
          | none ↦ reply (lit "User <" ∷ txt (strip username) ∷ lit "> not found" ∷ []) r
          | some target ↦ reply (bot_message flag target.username) (set_bot target flag r)
        ]
      ])
      r

abbrev pub written : Option Text → Message
written none = lit "None" ∷ []
written (some s) = txt s ∷ []

abbrev refreshing : Root → Message
refreshing r = elim (given r.online_ip_override) [
  | some address ↦
      lit "Refreshing server IP. Note ONLINE_IP/--onlineip is pinned to "
      ∷ txt address
      ∷ lit ", so the online IP will not change."
      ∷ []
  | none ↦
      lit "Refreshing server IP (current: "
      ∷ (written r.online_ip ++ (lit "). This may take a few seconds..." ∷ []))
]

-- `refreshIpAsync` starts the refresh on another thread, unless one is under way.
unfoldable pub refreship_command : Option Person → Root → Answer
refreship_command client r = elim client [
  | none ↦ fails r
  | some c ↦
      if not (is_admin c)
      then reply (lit "You must be an admin to refresh the server IP" ∷ []) r
      else if r.ip_refresh_pending
      then reply (lit "An IP refresh is already in progress, please wait." ∷ []) r
      else reply (refreshing r) (record r { ip_refresh_pending = true })
]

-- `isalpha` of each character, for ASCII.
abbrev is_word : Text → Bool
is_word cmd = leb 3 (length cmd) && all (λ c. (leb 65 c && leb c 90) || (leb 97 c && leb c 122)) cmd

abbrev pub unknown : Text → Root → Answer
unknown cmd r =
    if is_word cmd
    then reply (lit "command '" ∷ txt cmd ∷ lit "' does not exist, try ':help' to get help" ∷ []) r
    else says [] r

-- `args.split(' ', 1)[0]`
abbrev first_word : Text → Text
first_word s = (partition space s).0

-- `chan[0] == '#'`
abbrev starts_with_hash : Text → Bool
starts_with_hash [] = false
starts_with_hash (c ∷ _) = eqb c b'#'

-- `limit` is how deep the calls of a channel on its forwards may go; `respond` is `Respond`.
module _ (limit : ℕ) (users : UserDb) (respond : Message → Root → Outcome) where
  unfoldable pub register_command : Text → Option Person → Text → Option Text → Root → Answer
  register_command user client chan args r =
      let k : Call = record { user = user; client = client; chan = chan; ref = 0; args = args } in
      as_staff client
        (deny k "You must contact one of the server moderators to register a channel" r)
        (λ c.
          let name : Text = elim (given args) [ none ↦ user | some a ↦ a ] in
          elim (find_username users r name) [
            | none ↦ not_found k name r
            | some target ↦ elim (lookup chan r.channels) [
              | none ↦ reply (lit "Channel " ∷ txt chan ∷ lit " does not exist" ∷ []) r
              | some ref ↦
                  if is_registered r (r.channel_at ref).name
                  then deny k "Already registered" r
                  else reply_after
                      (in_channel k
                        (lit "Successfully registered to <" ∷ txt (first_word name) ∷ lit ">" ∷ []))
                      (respond (lit "JOIN " ∷ txt chan ∷ []) (register ref c target r))
            ]
          ])
        r

  -- The commands about a channel that exists and that ChanServ is in.
  unfoldable pub channel_command : Text → Call → Root → Answer
  channel_command cmd k r =
      if cmd == codes "unregister"
      then unregister_command respond k r
      else if cmd == codes "forward"
      then forward_command k r
      else if cmd == codes "unforward"
      then unforward_command k r
      else if cmd == codes "listforwards"
      then listforwards_command k r
      else if cmd == codes "history"
      then history_command k r
      else if cmd == codes "antispam"
      then antispam_command k r
      else if cmd == codes "setkey"
      then setkey_command k r
      else if cmd == codes "op"
      then op_command limit users k r
      else if cmd == codes "deop"
      then deop_command limit users k r
      else if cmd == codes "changefounder"
      then changefounder_command limit users k r
      else if cmd == codes "mute"
      then mute_command limit users k r
      else if cmd == codes "unmute"
      then unmute_command limit users k r
      else if cmd == codes "listmutes"
      then listmutes_command users k r
      else if cmd == codes "ban"
      then ban_command limit users k r
      else if cmd == codes "unban"
      then unban_command limit users k r
      else if cmd == codes "listbans"
      then listbans_command users k r
      else if cmd == codes "kick"
      then kick_command limit users k r
      else if cmd == codes "topic"
      then topic_command k r
      else if cmd == codes "info"
      then info_command users k r
      else unknown cmd r

  -- `register`, and what stands between it and the commands about a channel.
  unfoldable pub named_command : Text → Text → Option Person → Text → Option Text → Root → Answer
  unfolding register_command channel_command
  named_command user cmd client chan args r =
      if cmd == codes "register"
      then register_command user client chan args r
      else elim (lookup chan r.channels) [
        | none ↦ reply (lit "Channel '" ∷ txt chan ∷ lit "' does not exist" ∷ []) r
        | some ref ↦
            if not (contains chan (r.client_at r.chanserv).channels)
            then reply
                (lit "ChanServ is not present in channel '"
                  ∷ txt chan
                  ∷ lit "' (unregistered?)"
                  ∷ [])
                r
            else channel_command cmd
                (record { user = user; client = client; chan = chan; ref = ref; args = args }) r
      ]

  -- The commands that need a channel.
  unfoldable pub with_channel :
      Text → Text → Option Person → Option Text → Option Text → Root → Answer
  unfolding named_command
  with_channel user cmd client chan args r = elim (given chan) [
    | none ↦ reply (lit "Channel not specified" ∷ []) r
    | some name ↦
        if starts_with_hash name
        then reply
            (lit
                "ChanServ commands do not permit the # character to prefix channel names, please retry"
              ∷ [])
            r
        else named_command user cmd client name args r
  ]

  unfoldable pub handle_command : Text → Text → Option Text → Option Text → Root → Answer
  unfolding client_from_username with_channel
  handle_command user command chan args r =
      let client : Option Person = elim (client_from_username r user) [
        | none ↦ none
        | some sid ↦ some (person (r.client_at sid))
      ] in
      let cmd = lower command in
      if cmd == codes "help"
      then says (help user) r
      else if cmd == codes "battlename"
      then battlename_command users chan r
      else if cmd == codes "setbot"
      then setbot_command users true client chan args r
      else if cmd == codes "unsetbot"
      then setbot_command users false client chan args r
      else if cmd == codes "refreship"
      then refreship_command client r
      else if cmd == codes "showip"
      then showip_command client r
      else with_channel user cmd client chan args r
