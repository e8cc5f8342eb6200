-- ===== src/Protocol/Dispatch.antt =====
-- protocol/Protocol.py: `restricted`, `restricted_list`, `get_function_args`, `_dispatch`, `_handle`.
-- The handlers are the parameter `Handlers`: which command has which arguments is read off their
-- signatures in the program. A handler returns or raises.
use uberserver.Base.{
  ℕ, zero, suc, ◌+◌, ◌-◌, ◌≤◌, Bool, true, false, not, ◌&&◌, ◌||◌, List, [], ◌∷◌, ◌++◌, Option,
  none, some, if◌then◌else◌, ◌==◌, text_eq, eqb, ltb, leb, length, take, any,
}
use uberserver.Base.Dict.{contains}
use uberserver.Base.Text.{Text, codes, split, split_at_most, count_char, upper, partition, space}
use uberserver.Server.Types.{Root, Client, Message, Piece, lit, txt}
use uberserver.Server.Store.{set_client}
use uberserver.Server.Cast.{out_servermsg, send}
use uberserver.Server.Outcome.{Outcome, done, raised, ◌>>=◌}
use uberserver.Wire.Tweak.{set_msg_id}
pub mod Guards
pub mod Arguments

abbrev pub everyone_commands : List Text
everyone_commands =
    codes "EXIT"
    ∷ codes "PING"
    ∷ codes "LISTCOMPFLAGS"
    ∷ codes "RESENDVERIFICATION"
    ∷ codes "RESETPASSWORD"
    ∷ codes "RESETPASSWORDREQUEST"
    ∷ codes "STARTTLS"
    ∷ codes "STLS"
    ∷ []

abbrev pub fresh_commands : List Text
fresh_commands = codes "LOGIN" ∷ codes "REGISTER" ∷ []

abbrev pub battle_commands : List Text
battle_commands =
    codes "ADDBOT"
    ∷ codes "ADDSTARTRECT"
    ∷ codes "DISABLEUNITS"
    ∷ codes "ENABLEUNITS"
    ∷ codes "ENABLEALLUNITS"
    ∷ codes "FORCEALLYNO"
    ∷ codes "FORCESPECTATORMODE"
    ∷ codes "FORCETEAMCOLOR"
    ∷ codes "FORCETEAMNO"
    ∷ codes "HANDICAP"
    ∷ codes "JOINBATTLE"
    ∷ codes "JOINBATTLEACCEPT"
    ∷ codes "JOINBATTLEDENY"
    ∷ codes "KICKFROMBATTLE"
    ∷ codes "LEAVEBATTLE"
    ∷ codes "MYBATTLESTATUS"
    ∷ codes "BATTLEHOSTMSG"
    ∷ codes "OPENBATTLE"
    ∷ codes "REMOVEBOT"
    ∷ codes "REMOVESCRIPTTAGS"
    ∷ codes "REMOVESTARTRECT"
    ∷ codes "RING"
    ∷ codes "SETSCRIPTTAGS"
    ∷ codes "UPDATEBATTLEINFO"
    ∷ codes "UPDATEBOT"
    ∷ []

abbrev pub channel_commands : List Text
channel_commands =
    codes "CHANNELS"
    ∷ codes "CHANNELTOPIC"
    ∷ codes "JOIN"
    ∷ codes "LEAVE"
    ∷ codes "SAY"
    ∷ codes "SAYEX"
    ∷ codes "SAYPRIVATE"
    ∷ codes "SAYPRIVATEEX"
    ∷ codes "GETCHANNELMESSAGES"
    ∷ []

abbrev pub account_commands : List Text
account_commands =
    codes "GETUSERINFO"
    ∷ codes "RENAMEACCOUNT"
    ∷ codes "CHANGEPASSWORD"
    ∷ codes "CHANGEEMAILREQUEST"
    ∷ codes "CHANGEEMAIL"
    ∷ codes "RESENDVERIFICATION"
    ∷ codes "IGNORE"
    ∷ codes "UNIGNORE"
    ∷ codes "IGNORELIST"
    ∷ codes "FRIENDREQUEST"
    ∷ codes "ACCEPTFRIENDREQUEST"
    ∷ codes "DECLINEFRIENDREQUEST"
    ∷ codes "UNFRIEND"
    ∷ codes "FRIENDLIST"
    ∷ codes "FRIENDREQUESTLIST"
    ∷ []

abbrev pub meta_commands : List Text
meta_commands =
    codes "MYSTATUS"
    ∷ codes "PORTTEST"
    ∷ codes "JSON"
    ∷ codes "TURNCREDENTIALS"
    ∷ codes "RELAYEDHOST"
    ∷ codes "MOVERELAYEDHOST"
    ∷ codes "BRIDGECLIENTFROM"
    ∷ codes "UNBRIDGECLIENTFROM"
    ∷ codes "JOINFROM"
    ∷ codes "LEAVEFROM"
    ∷ codes "SAYFROM"
    ∷ codes "MUTE"
    ∷ codes "MUTELIST"
    ∷ codes "SETCHANNELKEY"
    ∷ codes "UNMUTE"
    ∷ codes "SAYBATTLE"
    ∷ codes "SAYBATTLEEX"
    ∷ codes "SAYBATTLEPRIVATEEX"
    ∷ codes "FORCELEAVECHANNEL"
    ∷ codes "GETINGAMETIME"
    ∷ []

abbrev pub user_commands : List Text
user_commands = battle_commands ++ (channel_commands ++ (account_commands ++ meta_commands))

abbrev pub mod_commands : List Text
mod_commands =
    codes "GETUSERID"
    ∷ codes "GETIP"
    ∷ codes "FINDIP"
    ∷ codes "SETBOTMODE"
    ∷ codes "CREATEBOTACCOUNT"
    ∷ codes "RESETUSERPASSWORD"
    ∷ codes "KICK"
    ∷ codes "BAN"
    ∷ codes "BANSPECIFIC"
    ∷ codes "UNBAN"
    ∷ codes "BLACKLIST"
    ∷ codes "UNBLACKLIST"
    ∷ codes "LISTBANS"
    ∷ codes "LISTBLACKLIST"
    ∷ []

abbrev pub admin_commands : List Text
admin_commands =
    codes "ADMINBROADCAST"
    ∷ codes "BROADCAST"
    ∷ codes "BROADCASTEX"
    ∷ codes "SETMINSPRINGVERSION"
    ∷ codes "SETACCESS"
    ∷ codes "DELETEACCOUNT"
    ∷ codes "LISTMODS"
    ∷ codes "STATS"
    ∷ codes "RELOAD"
    ∷ codes "CLEANUP"
    ∷ []

-- `restricted[level]`; a level that is not there is a KeyError.
unfoldable pub restricted : Text → Option (List Text)
restricted level =
    if level == codes "disabled"
    then some []
    else if level == codes "everyone"
    then some everyone_commands
    else if level == codes "fresh"
    then some fresh_commands
    else if level == codes "agreement"
    then some (codes "CONFIRMAGREEMENT" ∷ [])
    else if level == codes "user"
    then some user_commands
    else if level == codes "mod"
    then some mod_commands
    else if level == codes "admin"
    then some admin_commands
    else none

unfoldable pub restricted_list : List Text
restricted_list =
    everyone_commands
    ++ (fresh_commands
        ++ (codes "CONFIRMAGREEMENT" ∷ (user_commands ++ (mod_commands ++ admin_commands))))

-- `for level in client.accesslevels: if command in self.restricted[level]: …; break`
unfoldable pub is_allowed : Text → List Text → Option Bool
unfolding restricted
is_allowed command [] = some false
is_allowed command (level ∷ levels) =
    let later = is_allowed command levels in
    elim (restricted level) [
      | none ↦ none
      | some commands ↦ if contains command commands then some true else later
    ]

-- The number of arguments of a handler and how many of them have a default, and the handler.
pub record Handlers : Type 0 where
  pub total_args : Text → ℕ
  pub optional_args : Text → ℕ
  pub run : Text → ℕ → List Text → Root → Outcome

-- `self.out_FAILED(client, command, reason)`
unfoldable pub refuse : ℕ → Text → Message → Root → Root
unfolding send
refuse sid command reason =
    send sid (lit "FAILED msg=" ∷ (reason ++ (lit "\tcmd=" ∷ txt command ∷ [])))

-- `none` is the refusal for want of arguments; `given` is what follows the command.
unfoldable pub get_function_args : ℕ → ℕ → ℕ → Text → Option (List Text)
unfolding split split_at_most
get_function_args total optional numspaces given =
    if eqb total 0
    then some []
    else if ltb numspaces (total - optional)
    then none
    else if eqb (total - optional) 0 && eqb numspaces 0
    then some []
    else if ltb (total - 1) numspaces
    then some (split_at_most space (total - 1) given)
    else some (split space given)

abbrev pub shown_args : Option Text → Text
shown_args none = codes "None"
shown_args (some s) = if ltb 64 (length s) then take 64 s ++ codes "..." else s

-- The handler, once the command is known and allowed.
unfoldable pub call : Handlers → ℕ → Text → ℕ → Text → Root → Outcome
unfolding get_function_args out_servermsg refuse
call h sid command numspaces given r =
    elim (get_function_args (h.total_args command) (h.optional_args command) numspaces given) [
      | some arguments ↦ h.run command sid arguments r
      | none ↦ done (
          refuse sid command (lit "Incorrect arguments." ∷ [])
            (out_servermsg sid (txt command ∷ lit " failed. Incorrect arguments." ∷ []) r))
    ]

unfoldable pub dispatch : Handlers → ℕ → Text → Root → Outcome
unfolding count_char partition upper restricted_list is_allowed out_servermsg refuse call
dispatch h sid msg r =
    let (word, spaced, given) = partition space msg in
    let command = upper word in
    if not (contains command restricted_list)
    then done (
        refuse sid command (lit "Unknown command." ∷ []) (
          out_servermsg sid
            (txt command
              ∷ lit " failed. Unknown command. (args='"
              ∷ txt (shown_args (if spaced then some given else none))
              ∷ lit "')"
              ∷ [])
            r))
    else elim (is_allowed command (r.client_at sid).accesslevels) [
      | none ↦ raised r
      | some false ↦ done (
          refuse sid command (lit "Insufficient rights." ∷ [])
            (out_servermsg sid (txt command ∷ lit " failed. Insufficient rights." ∷ []) r))
      | some true ↦ call h sid command (count_char space msg) given r
    ]

-- The message id of a handled command; the one before it comes back whether the handler returns or
-- raises.
abbrev pub with_id : ℕ → Text → Root → Root
with_id sid msg_id = set_client sid (λ c. record c { msg_id = msg_id })

unfoldable pub restore : ℕ → Text → Outcome → Outcome
restore sid msg_id (done r) = done (with_id sid msg_id r)
restore sid msg_id (raised r) = raised (with_id sid msg_id r)

unfoldable pub handle : Handlers → ℕ → Text → Root → Outcome
unfolding set_msg_id dispatch restore
handle h sid msg r =
    let (msg_id, rest) = set_msg_id msg in
    restore sid (r.client_at sid).msg_id (dispatch h sid rest (with_id sid msg_id r))
