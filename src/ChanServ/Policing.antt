-- ===== src/ChanServ/Policing.antt =====
-- ChanServ.py, `HandleCommand`: the commands of the operators of a channel. Each is the code under
-- its `if cmd == …`.
use uberserver.Base.{
  ℕ, Bool, not, ◌||◌, List, [], ◌∷◌, Option, none, some, if◌then◌else◌, nat_eq, text_eq, String,
}
use uberserver.Base.Dict.{lookup, contains, has_key}
use uberserver.Base.Int.{pos}
use uberserver.Base.Text.{Text, codes, split_at_most, space, has_substring}
use uberserver.Syntax.Duration.{pretty_time_delta}
use uberserver.Server.Types.{Root, Message, lit, txt, Penalty}
use uberserver.Server.Store.{client_from_id}
use uberserver.Server.Accounts.{UserDb, find_username, find_bridged}
use uberserver.Channel.Access.{Person, is_op}
use uberserver.Channel.Settings.{set_topic}
use uberserver.Channel.Penalties.{
  mute_user, unmute_user, ban_user, unban_user, ban_bridged_user, unban_bridged_user, kick_user,
  expires_after,
}
use uberserver.ChanServ.{
  Answer, fails, reply, reply_after, Call, in_channel, deny, officer, given, is_empty, lasting,
  unreadable, overflows, parse_duration,
}
use uberserver.ChanServ.Governing.{not_found, about_user}

abbrev three_parts : List Text → Option (Text × Text × Text)
three_parts (a ∷ b ∷ c ∷ []) =
    if is_empty a || is_empty b || is_empty c then none else some (a, b, c)
three_parts _ = none

-- `args.split(' ', 2)` where there are two spaces and no part is empty.
unfoldable pub three_words : Text → Option (Text × Text × Text)
three_words args = three_parts (split_at_most space 2 args)

-- The answer has no channel put into it.
abbrev usage : Root → Answer
usage r =
    reply
      (lit "#%s: Please specify a target username, a duration, and a reason (in that order)" ∷ []) r

abbrev no_duration : Call → Text → Root → Answer
no_duration k duration r =
    reply
      (in_channel k (
        lit "Could not parse duration "
        ∷ txt duration
        ∷ lit ", please enter a number of minutes or specify a time unit e.g. '10m', '2h', or '3d'"
        ∷ []))
      r

-- The arguments of `mute` and `ban`: a name, a duration and a reason. No arguments at all raise.
abbrev pub timed : Call → (Text → ℕ → Text → Answer) → Root → Answer
timed k f r = elim k.args [
  | none ↦ fails r
  | some args ↦ elim (three_words args) [
    | none ↦ usage r
    | some (name, duration, reason) ↦ elim (parse_duration duration) [
      | unreadable ↦ no_duration k duration r
      | overflows ↦ fails r
      | lasting seconds ↦ f name seconds reason
    ]
  ]
]

-- `':' in target_username`: the name of a bridged user.
abbrev pub is_bridged_name : Text → Bool
is_bridged_name name = has_substring (codes ":") name

abbrev lasting_message : Call → String → Text → ℕ → Message
lasting_message k before name seconds =
    in_channel k (lit before ∷ txt name ∷ lit "> for " ∷ txt (pretty_time_delta (pos seconds)) ∷ [])

-- Who is said to have issued a penalty that is already there.
abbrev already : Call → String → Text → Penalty → Root → Answer
already k verb name p r =
    reply
      (in_channel k (
        lit "User <" ∷ txt name ∷ lit verb ∷ elim (client_from_id r p.issuer_user_id) [
          | none ↦ lit "<unknown user>" ∷ []
          | some sid ↦ lit "<" ∷ txt (r.client_at sid).username ∷ lit ">" ∷ []
        ]))
      r

-- `limit` is how deep the calls of a channel on its forwards may go.
module _ (limit : ℕ) (users : UserDb) where
  unfoldable pub mute_target : Call → Person → Text → ℕ → Text → Root → Answer
  mute_target k c name seconds reason r =
      if is_bridged_name name
      then reply
          (in_channel k (
            lit
              "Use !ban to remove a bridged user from the channel bridge (then, their chat will not be forwarded to #"
            ∷ txt k.chan
            ∷ lit ")"
            ∷ []))
          r
      else elim (find_username users r name) [
        | none ↦ not_found k name r
        | some target ↦ elim (lookup target.user_id (r.channel_at k.ref).mutelist) [
          | some mute ↦ already k "> is already muted by " target.username mute r
          | none ↦
              if is_op (r.channel_at k.ref) target
              then reply
                  (about_user k "Cannot mute <" target.username ">, user has operator status") r
              else reply_after (lasting_message k "muted <" target.username seconds)
                  (mute_user limit k.ref c target reason seconds r)
        ]
      ]

  unfoldable pub mute_command : Call → Root → Answer
  unfolding officer mute_target
  mute_command k r = elim (officer k r) [
    | none ↦ deny k "You do not have permission to mute users in this channel" r
    | some c ↦ timed k (λ name seconds reason. mute_target k c name seconds reason r) r
  ]

  unfoldable pub unmute_command : Call → Root → Answer
  unfolding officer
  unmute_command k r = elim (officer k r) [
    | none ↦ deny k "You do not have permission to unmute users in this channel" r
    | some c ↦ elim (given k.args) [
      | none ↦ deny k "You must specify a user to unmute" r
      | some name ↦
          if is_bridged_name name
          then deny k "For bridged users, use !ban/!unban" r
          else elim (find_username users r name) [
            | none ↦ reply (about_user k "User <" name "> not found in mutelist") r
            | some target ↦
                if not (has_key target.user_id (r.channel_at k.ref).mutelist)
                then reply (about_user k "User <" name "> not found in mutelist") r
                else reply_after (about_user k "unmuted <" target.username ">")
                    (unmute_user limit k.ref c target r)
          ]
    ]
  ]

  unfoldable pub ban_bridged_target : Call → Person → Text → ℕ → Text → Root → Answer
  ban_bridged_target k c name seconds reason r = elim (find_bridged users r name) [
    | none ↦ reply (about_user k "Bridged user <" name "> not found") r
    | some target ↦ elim (lookup target.bridged_id (r.channel_at k.ref).bridged_ban) [
      | some ban ↦ already k "> is already banned by " target.username ban r
      | none ↦
          reply_after (lasting_message k "banned <" target.username seconds)
            (ban_bridged_user limit k.ref c target.bridged_id reason seconds r)
    ]
  ]

  -- The answer about a ban whose issuer is not online reads `ban.ip_address` of a dict, which raises.
  abbrev already_banned : Call → Person → Penalty → Root → Answer
  already_banned k target ban r = elim (client_from_id r ban.issuer_user_id) [
    | none ↦ fails r
    | some sid ↦
        reply
          (in_channel k (
            lit "User <"
            ∷ txt target.username
            ∷ lit ">, ip "
            ∷ txt ban.ip_address
            ∷ lit " is already banned by <"
            ∷ txt (r.client_at sid).username
            ∷ lit ">"
            ∷ []))
          r
  ]

  unfoldable pub ban_target : Call → Person → Text → ℕ → Text → Root → Answer
  ban_target k c name seconds reason r = elim (find_username users r name) [
    | none ↦ not_found k name r
    | some target ↦
        if is_op (r.channel_at k.ref) target
        then reply (about_user k "Cannot ban <" target.username ">, user has operator status") r
        else (let banning : Answer =
              reply_after (lasting_message k "banned <" target.username seconds)
                (ban_user limit k.ref c target (expires_after r.now seconds) reason r) in
            elim (lookup target.user_id (r.channel_at k.ref).ban) [
              | none ↦ banning
              | some ban ↦
                  if has_key target.last_ip (r.channel_at k.ref).ban_ip
                  then already_banned k target ban r
                  else banning
            ])
  ]

  unfoldable pub ban_command : Call → Root → Answer
  unfolding officer ban_bridged_target ban_target
  ban_command k r = elim (officer k r) [
    | none ↦ deny k "You do not have permission to ban users from this channel" r
    | some c ↦
        timed k
          (λ name seconds reason.
            if is_bridged_name name
            then ban_bridged_target k c name seconds reason r
            else ban_target k c name seconds reason r)
          r
  ]

  unfoldable pub unban_bridged_target : Call → Person → Text → Root → Answer
  unban_bridged_target k c name r = elim (find_bridged users r name) [
    | none ↦ reply (about_user k "User <" name "> not found on the bridge") r
    | some target ↦
        if not (has_key target.bridged_id (r.channel_at k.ref).bridged_ban)
        then reply (about_user k "User <" target.username "> not found in bridged banlist") r
        else reply_after (about_user k "<" target.username "> unbanned")
            (unban_bridged_user limit k.ref c target.bridged_id r)
  ]

  unfoldable pub unban_target : Call → Person → Text → Root → Answer
  unban_target k c name r = elim (find_username users r name) [
    | none ↦ reply (about_user k "User '" name "' does not exist") r
    | some target ↦
        if not (has_key target.user_id (r.channel_at k.ref).ban)
        then reply (about_user k "User <" target.username "> not found in banlist") r
        else reply_after (about_user k "<" target.username "> unbanned")
            (unban_user limit k.ref c target r)
  ]

  unfoldable pub unban_command : Call → Root → Answer
  unfolding officer unban_bridged_target unban_target
  unban_command k r = elim (officer k r) [
    | none ↦ deny k "You do not have permission to unban users from this channel" r
    | some c ↦ elim (given k.args) [
      | none ↦ deny k "You must specify a user to unban from the channel" r
      | some name ↦
          if is_bridged_name name then unban_bridged_target k c name r else unban_target k c name r
    ]
  ]

  -- A user who is not online has no `session_id`: an AttributeError.
  unfoldable pub kick_command : Call → Root → Answer
  unfolding officer
  kick_command k r = elim (officer k r) [
    | none ↦ deny k "You do not have permission to kick users from the channel" r
    | some c ↦ elim (given k.args) [
      | none ↦ deny k "You must specify a user to kick from the channel" r
      | some name ↦ elim (find_username users r name) [
        | none ↦ not_found k name r
        | some target ↦ elim target.session [
          | none ↦ fails r
          | some sid ↦
              if not (contains sid (r.channel_at k.ref).users)
              then not_found k name r
              else if is_op (r.channel_at k.ref) target
              then reply
                  (about_user k "Cannot kick <" target.username ">, user has operator status") r
              else reply_after (about_user k "kicked <" target.username ">")
                  (kick_user limit k.ref c target r)
        ]
      ]
    ]
  ]

unfoldable pub topic_command : Call → Root → Answer
unfolding officer
topic_command k r = elim (officer k r) [
  | none ↦ deny k "You do not have permission to set the topic" r
  | some c ↦
      deny k "Topic changed" (set_topic k.ref c (elim k.args [ none ↦ [] | some args ↦ args ]) r)
]
