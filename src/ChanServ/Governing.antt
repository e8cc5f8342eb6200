-- ===== src/ChanServ/Governing.antt =====
-- ChanServ.py, `HandleCommand`: the commands of the moderators of the server and of the founder of a
-- channel. Each is the code under its `if cmd == …`.
use uberserver.Base.{
  ℕ, Bool, true, false, not, ◌||◌, [], ◌∷◌, Option, none, some, if◌then◌else◌, nat_eq, text_eq,
  ◌==◌, eqb, String,
}
use uberserver.Base.Dict.{lookup, contains}
use uberserver.Base.Text.{Text, codes, lstrip_char}
use uberserver.Server.Types.{Root, Message, lit, txt}
use uberserver.Server.Store.{is_registered}
use uberserver.Server.Outcome.{Outcome}
use uberserver.Server.Accounts.{UserDb, find_username}
use uberserver.Channel.Access.{Person, is_op}
use uberserver.Channel.Settings.{
  unregister, add_forward, remove_forward, set_history, set_antispam, set_key, set_founder,
}
use uberserver.Channel.Penalties.{op_user, deop_user}
use uberserver.ChanServ.{
  Answer, reply, reply_after, Call, in_channel, deny, governor, as_staff, given,
}

-- `respond` is `self.Respond`: ChanServ's own line, handled by the protocol.
unfoldable pub unregister_command : (Message → Root → Outcome) → Call → Root → Answer
unfolding governor
unregister_command respond k r = elim (governor k r) [
  | none ↦
      deny k
        "You must contact one of the server moderators or the owner of the channel to unregister a channel"
        r
  | some c ↦
      if not (is_registered r (r.channel_at k.ref).name)
      then deny k "Not registered" r
      else reply_after (in_channel k (lit "Successfully unregistered." ∷ []))
          (respond (lit "LEAVE " ∷ txt k.chan ∷ []) (unregister k.ref c r))
]

abbrev missing : Text → Root → Answer
missing name r = reply (lit "Channel " ∷ txt name ∷ lit " does not exist (missing #?)" ∷ []) r

-- The last part of `forward`, once both channels are known.
unfoldable pub forward_to : Call → Person → ℕ → Root → Answer
forward_to k c ref_to r =
    let from = r.channel_at k.ref in
    let to = r.channel_at ref_to in
    if from.is_battle || not to.is_battle
    then deny k
        "To avoid circular dependencies, it is only permitted to forward mutes/bans from (non-battle) channels into battles"
        r
    else if contains to.name from.forwards
    then reply
        (in_channel k (lit "Forwarding of mutes/bans already exists to #" ∷ txt to.name ∷ [])) r
    else if not (is_registered r to.name)
    then reply
        (in_channel k (
          lit "You must register "
          ∷ txt to.name
          ∷ lit " before you can forward mutes/bans to it"
          ∷ []))
        r
    else reply
        (in_channel k (lit "Successfully added forwarding of mutes/bans to #" ∷ txt to.name ∷ []))
        (add_forward k.ref c ref_to r)

unfoldable pub forward_command : Call → Root → Answer
unfolding forward_to
forward_command k r =
    as_staff k.client
      (deny k "You must contact one of the server moderators to add mute/ban forwarding" r)
      (λ c. elim (given k.args) [
        | none ↦ deny k "You must specify a channel to forward mutes/bans to" r
        | some args ↦
            let name = lstrip_char b'#' args in
            elim (lookup name r.channels) [
              | none ↦ missing name r
              | some ref_to ↦ forward_to k c ref_to r
            ]
      ])
      r

unfoldable pub unforward_command : Call → Root → Answer
unforward_command k r =
    as_staff k.client
      (deny k
        "You must contact one of the server moderators to remove mute/ban forwarding from a channel"
        r)
      (λ c. elim (given k.args) [
        | none ↦ deny k "You must specify a channel to forward mutes/bans to" r
        | some args ↦
            let name = lstrip_char b'#' args in
            elim (lookup name r.channels) [
              | none ↦ missing name r
              | some ref_to ↦
                  let to = (r.channel_at ref_to).name in
                  if not (contains to (r.channel_at k.ref).forwards)
                  then reply
                      (in_channel k
                        (lit "Forwarding of mutes/bans to #" ∷ txt to ∷ lit " does not exist" ∷ []))
                      r
                  else reply
                      (in_channel k
                        (lit "Successfully removed forwarding of mutes/bans to #" ∷ txt to ∷ []))
                      (remove_forward k.ref c ref_to r)
            ]
      ])
      r

-- `if args == 'on': … if args == 'off': …`
abbrev is_word : Option Text → Text → Bool
is_word none word = false
is_word (some args) word = args == word

unfoldable pub history_command : Call → Root → Answer
unfolding governor
history_command k r = elim (governor k r) [
  | none ↦ deny k "You do not have permission to change history settings in the channel" r
  | some c ↦
      if is_word k.args (codes "on")
      then deny k "History enabled" (set_history k.ref c true r)
      else if is_word k.args (codes "off")
      then deny k "History disabled" (set_history k.ref c false r)
      else deny k "Unknown value for history setting (expected: on, off)." r
]

unfoldable pub antispam_command : Call → Root → Answer
unfolding governor
antispam_command k r = elim (governor k r) [
  | none ↦
      deny k
        "You must contact one of the server moderators or the owner of the channel to change the antispam settings"
        r
  | some c ↦
      if is_word k.args (codes "on")
      then deny k "Anti-spam protection is on." (set_antispam k.ref c true r)
      else if is_word k.args (codes "off")
      then deny k "Anti-spam protection is off." (set_antispam k.ref c false r)
      else deny k "Unknown value for anti-spam setting (expected: on, off)." r
]

unfoldable pub setkey_command : Call → Root → Answer
unfolding governor
setkey_command k r = elim (governor k r) [
  | none ↦ deny k "You do not have permission to change the channel password" r
  | some c ↦ elim (given k.args) [
    | none ↦ deny k "You must specify a password for the channel (use '*' for no password)" r
    | some args ↦
        if (r.channel_at k.ref).is_battle
        then reply
            (lit
                "This is not currently possible, instead you can close and re-open the battle with a new password!"
              ∷ [])
            r
        else deny k "Set key" (set_key k.ref c (some args) r)
  ]
]

abbrev pub not_found : Call → Text → Root → Answer
not_found k name r = reply (in_channel k (lit "User <" ∷ txt name ∷ lit "> not found" ∷ [])) r

-- `'#%s: … <%s> …' % (chan, name)`
abbrev pub about_user : Call → String → Text → String → Message
about_user k before name after = in_channel k (lit before ∷ txt name ∷ lit after ∷ [])

-- `limit` is how deep the calls of a channel on its forwards may go.
module _ (limit : ℕ) (users : UserDb) where
  unfoldable pub op_command : Call → Root → Answer
  unfolding governor
  op_command k r = elim (governor k r) [
    | none ↦ deny k "You do not have permission to op users" r
    | some c ↦ elim (given k.args) [
      | none ↦ deny k "You must specify a user to op" r
      | some args ↦ elim (find_username users r args) [
        | none ↦ not_found k args r
        | some target ↦
            if is_op (r.channel_at k.ref) target
            then reply (about_user k "<" args "> was already an op") r
            else reply_after (about_user k "added <" args "> to operator list")
                (op_user limit k.ref c target r)
      ]
    ]
  ]

  unfoldable pub deop_command : Call → Root → Answer
  unfolding governor
  deop_command k r = elim (governor k r) [
    | none ↦ deny k "You do not have permission to deop users" r
    | some c ↦ elim (given k.args) [
      | none ↦ deny k "You must specify a user to deop" r
      | some args ↦ elim (find_username users r args) [
        | none ↦ not_found k args r
        | some target ↦
            if elim (r.channel_at k.ref).owner_user_id [
              | none ↦ false
              | some owner ↦ eqb target.user_id owner
            ]
            then deny k "Cannot remove operator status from channel founder" r
            else if not (is_op (r.channel_at k.ref) target)
            then reply (about_user k "<" args "> was not an op") r
            else reply_after (about_user k "removed <" args "> from operator list")
                (deop_user limit k.ref c target r)
      ]
    ]
  ]

  -- The answer about a missing user has no channel put into it.
  unfoldable pub changefounder_command : Call → Root → Answer
  unfolding governor
  changefounder_command k r = elim (governor k r) [
    | none ↦
        deny k
          "You must contact one of the server moderators or the owner of the channel to change the founder"
          r
    | some c ↦ elim (given k.args) [
      | none ↦ deny k "You must specify a new founder" r
      | some args ↦ elim (find_username users r args) [
        | none ↦ reply (lit "#%s: Cannot assign founder status to a user who does not exist" ∷ []) r
        | some target ↦
            reply (about_user k "changed founder to <" args ">") (set_founder k.ref c target r)
      ]
    ]
  ]
