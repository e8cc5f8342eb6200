-- ===== src/ChanServ/Listing.antt =====
-- ChanServ.py, `HandleCommand`: the commands that only answer, `help`, `battlename`, `showip`,
-- `listforwards`, `listmutes`, `listbans` and `info`. A time is written as its number of seconds.
use uberserver.Base.{
  ℕ, ◌+◌, List, [], ◌∷◌, ◌++◌, Option, none, some, if◌then◌else◌, eqb, length, nat_eq, text_eq,
  String,
}
use uberserver.Base.Text.{Text}
use uberserver.Base.Dict.{Dict}
use uberserver.Server.Types.{Root, Message, lit, txt, num, Penalty}
use uberserver.Server.Store.{client_from_username, client_from_id}
use uberserver.Server.Accounts.{UserDb, find_username, find_id, find_bridged_id}
use uberserver.Channel.Access.{Person}
use uberserver.Protocol.Current.{get_current_battle}
use uberserver.ChanServ.{Answer, says, fails, reply, Call, in_channel, deny, officer, as_staff}

abbrev pub help : Text → List Message
help user =
    (lit "Hello, " ∷ txt user ∷ lit "!" ∷ [])
    ∷ (lit "I am the server bot." ∷ [])
    ∷ (lit
          "For the full list of my commands, see https://github.com/ScarylePoo/uberserver/wiki/ChanServ"
        ∷ [])
    ∷ (lit
          "If you want to go ahead and register a new channel, please contact one of the server moderators!"
        ∷ [])
    ∷ []

-- `self._root.protocol.getCurrentBattle(host)` and `battle.host != host.session_id`
unfoldable pub hosted_by : Root → ℕ → Option ℕ
unfolding get_current_battle
hosted_by r sid = elim (get_current_battle r sid) [
  | none ↦ none
  | some ref ↦ elim (r.channel_at ref).battle.host [
    | none ↦ none
    | some host ↦ if eqb host sid then some ref else none
  ]
]

abbrev text_or : String → Option Text → Message
text_or default none = lit default ∷ []
text_or default (some []) = lit default ∷ []
text_or default (some (c ∷ s)) = txt (c ∷ s) ∷ []

abbrev plain : Option Text → Message
plain none = lit "None" ∷ []
plain (some s) = txt s ∷ []

unfoldable pub showip_command : Option Person → Root → Answer
showip_command client r =
    as_staff client
      (reply (lit "You must be a moderator or admin to view server IP configuration" ∷ []) r)
      (λ _.
        says
          ((lit "Server online IP: "
              ∷ (plain r.online_ip
                  ++ (lit " (override: "
                      ∷ (text_or "none" r.online_ip_override ++ (lit ")" ∷ [])))))
            ∷ (lit "Server local IP: "
                ∷ (plain r.local_ip
                    ++ (lit " (override: "
                        ∷ (text_or "none" r.local_ip_override ++ (lit ")" ∷ [])))))
            ∷ [])
          r)
      r

abbrev forward_names : List Text → Message
forward_names [] = []
forward_names (name ∷ names) = lit " #" ∷ txt name ∷ forward_names names

unfoldable pub listforwards_command : Call → Root → Answer
listforwards_command k r = elim (r.channel_at k.ref).forwards [
  | [] ↦ deny k "Not forwarding to anywhere" r
  | name ∷ names ↦ reply (in_channel k (lit "Forwarding to" ∷ forward_names (name ∷ names))) r
]

module _ (users : UserDb) where
  -- An OfflineClient has no `current_battle`, so that a host who is not online raises. Without a
  -- name the text None is looked up, which no user has.
  unfoldable pub battlename_command : Option Text → Root → Answer
  unfolding hosted_by client_from_username
  battlename_command chan r = elim chan [
    | none ↦ reply (lit "User None does not exist" ∷ []) r
    | some name ↦ elim (find_username users r name) [
      | none ↦ reply (lit "User " ∷ txt name ∷ lit " does not exist" ∷ []) r
      | some host ↦ elim host.session [
        | none ↦ fails r
        | some sid ↦ elim (hosted_by r sid) [
          | none ↦ reply (lit "User " ∷ txt name ∷ lit " is not hosting a battle" ∷ []) r
          | some ref ↦ reply (txt (r.channel_at ref).name ∷ []) r
        ]
      ]
    ]
  ]

  abbrev name_or_unknown : Option Person → Message
  name_or_unknown none = lit "unknown" ∷ []
  name_or_unknown (some p) = txt p.username ∷ []

  abbrev name_or_id : ℕ → Option Person → Message
  name_or_id user_id none = lit "id:" ∷ num user_id ∷ []
  name_or_id user_id (some p) = txt p.username ∷ []

  unfoldable pub mute_lines : Root → Dict ℕ Penalty → List Message
  mute_lines r [] = []
  mute_lines r ((user_id, mute) ∷ mutes) =
      (name_or_id user_id (find_id users r user_id)
        ++ (lit " :: "
            ∷ txt mute.reason
            ∷ lit " :: ends "
            ∷ num mute.expires
            ∷ lit " ("
            ∷ (name_or_unknown (find_id users r mute.issuer_user_id) ++ (lit ")" ∷ []))))
      ∷ mute_lines r mutes

  unfoldable pub listmutes_command : Call → Root → Answer
  unfolding officer mute_lines
  listmutes_command k r = elim (officer k r) [
    | none ↦ deny k "You do not have permission to execute this command" r
    | some _ ↦ elim (r.channel_at k.ref).mutelist [
      | [] ↦ reply (lit "The mutelist is empty." ∷ []) r
      | m ∷ mutes ↦
          says
            ((lit " -- Mutelist for " ∷ txt k.chan ∷ lit " -- " ∷ [])
              ∷ (mute_lines r (m ∷ mutes) ++ ((lit " -- End Mutelist -- " ∷ []) ∷ [])))
            r
    ]
  ]

  -- Users that are in no database any more are passed over.
  unfoldable pub ban_lines : Root → Dict ℕ Penalty → List Message
  ban_lines r [] = []
  ban_lines r ((user_id, ban) ∷ bans) =
      let rest = ban_lines r bans in
      elim (find_id users r user_id) [
        | none ↦ rest
        | some target ↦
            (txt target.username
              ∷ lit " :: "
              ∷ txt ban.ip_address
              ∷ lit " :: "
              ∷ txt ban.reason
              ∷ lit " :: ends "
              ∷ num ban.expires
              ∷ lit " ("
              ∷ (name_or_unknown (find_id users r ban.issuer_user_id) ++ (lit ")" ∷ [])))
            ∷ rest
      ]

  -- The issuer is looked up among the users that are online.
  unfoldable pub bridged_ban_lines : Root → Dict ℕ Penalty → List Message
  bridged_ban_lines r [] = []
  bridged_ban_lines r ((bridged_id, ban) ∷ bans) =
      let rest = bridged_ban_lines r bans in
      elim (find_bridged_id users r bridged_id) [
        | none ↦ rest
        | some target ↦
            (txt target.username
              ∷ lit " :: "
              ∷ txt ban.reason
              ∷ lit " :: ends "
              ∷ num ban.expires
              ∷ lit " ("
              ∷ (elim (client_from_id r ban.issuer_user_id) [
                | none ↦ lit "unknown" ∷ []
                | some sid ↦ txt (r.client_at sid).username ∷ []
              ]
                  ++ (lit ")" ∷ [])))
            ∷ rest
      ]

  unfoldable pub listbans_command : Call → Root → Answer
  unfolding officer ban_lines bridged_ban_lines
  listbans_command k r = elim (officer k r) [
    | none ↦ deny k "You do not have permission to execute this command" r
    | some _ ↦
        let ch = r.channel_at k.ref in
        if eqb (length ch.ban + length ch.bridged_ban) 0
        then reply (lit "The banlist is empty." ∷ []) r
        else says
            ((lit " -- Banlist for " ∷ txt k.chan ∷ lit " -- " ∷ [])
              ∷ (ban_lines r ch.ban
                  ++ (bridged_ban_lines r ch.bridged_ban
                      ++ ((lit " -- End Banlist -- " ∷ []) ∷ []))))
            r
  ]

  -- `op_list`: the names of the operators that are found, in brackets, or `empty`.
  unfoldable pub op_names : Root → List ℕ → List Text
  op_names r [] = []
  op_names r (user_id ∷ ids) =
      let rest = op_names r ids in
      elim (find_id users r user_id) [ none ↦ rest | some p ↦ p.username ∷ rest ]

  abbrev spaced : List Text → Message
  spaced [] = []
  spaced (name ∷ names) = lit " " ∷ txt name ∷ spaced names

  abbrev op_list : List Text → Message
  op_list [] = lit "empty" ∷ []
  op_list (name ∷ names) = lit "[" ∷ txt name ∷ (spaced names ++ (lit "]" ∷ []))

  -- A founder that is in no database is written as None.
  abbrev founder_message : Root → Option ℕ → Message
  founder_message r none = lit "No founder is registered" ∷ []
  founder_message r (some owner) =
      if eqb owner 0 then lit "No founder is registered" ∷ [] else elim (find_id users r owner) [
        | none ↦ lit "None" ∷ []
        | some p ↦ lit "Founder is <" ∷ txt p.username ∷ lit ">" ∷ []
      ]

  -- A channel that was never used has no date to write: an AttributeError.
  unfoldable pub info_command : Call → Root → Answer
  unfolding op_names
  info_command k r =
      let ch = r.channel_at k.ref in
      elim ch.last_used [
        | none ↦ fails r
        | some used ↦
            reply
              (lit "#"
                ∷ txt k.chan
                ∷ lit " info: "
                ∷ (founder_message r ch.owner_user_id
                    ++ (lit ". Operator list is "
                        ∷ (op_list (op_names r ch.operators)
                            ++ (lit ". Currently contains "
                                ∷ num (length ch.users)
                                ∷ lit " users and "
                                ∷ num (length ch.bridged_users)
                                ∷ lit " bridged users. "
                                ∷ (if ch.antispam
                                    then lit "Anti-spam protection is on"
                                    else lit "Anti-spam protection is off")
                                ∷ lit ". "
                                ∷ (if ch.store_history
                                    then lit "Channel history is on"
                                    else lit "Channel history is off")
                                ∷ lit ". Last used on "
                                ∷ num used
                                ∷ lit "."
                                ∷ [])))))
              r
      ]
