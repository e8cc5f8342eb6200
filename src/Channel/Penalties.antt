-- ===== src/Channel/Penalties.antt =====
-- protocol/Channel.py: `opUser`, `deopUser`, `kickUser`, `banUser`, `unbanUser`, `muteUser`,
-- `unmuteUser`, `banBridgedUser`, `unbanBridgedUser`, `getBanMessage`, `getMuteMessage`; and the
-- `kickUser` of protocol/Battle.py. Each goes on to the channels that the channel forwards to, by
-- recursion on fuel; a call without fuel left is the RecursionError of a chain without an end.
use uberserver.Base.{
  ℕ, zero, suc, ◌+◌, ◌-◌, Bool, true, false, not, List, [], ◌∷◌, ◌++◌, Option, none, some,
  if◌then◌else◌, nat_eq, text_eq, min, String,
}
use uberserver.Base.Dict.{Dict, lookup, insert, erase, has_key, contains, add, discard}
use uberserver.Base.Int.{ℤ, pos, sub_ℕ}
use uberserver.Base.Text.{Text, codes}
use uberserver.Syntax.Duration.{pretty_time_delta}
use uberserver.Server.Types.{Root, Channel, Message, Piece, lit, txt, num, Penalty}
use uberserver.Server.Store.{set_channel, record_db}
use uberserver.Server.Outcome.{Outcome, done, raised, ◌>>=◌, each_channel}
use uberserver.Channel.Access.{Person, is_muted}
use uberserver.Channel.Members.{channel_message, remove_user, remove_bridged_user}
use uberserver.Channel.Settings.{identity}
pub mod Operators
pub mod Mutes
pub mod Bans

-- `datetime.max`, in seconds, where the sum overflows.
unfoldable pub expires_after : ℕ → ℕ → ℕ
expires_after now duration = min (now + duration) 253402300799

abbrev pub penalty : ℕ → ℕ → Text → ℕ → Penalty
penalty who expires reason issuer = record {
  who = who;
  expires = expires;
  reason = reason;
  issuer_user_id = issuer;
  ip_address = [];
}

abbrev by_message : Person → String → Channel → String → Person → Message
by_message target middle ch last client =
    lit "<"
    ∷ txt target.username
    ∷ lit middle
    ∷ identity ch
    ∷ lit last
    ∷ txt client.username
    ∷ lit ">"
    ∷ []

-- `opUser` before it goes on to the forwards.
unfoldable pub op_here : ℕ → Person → Person → Root → Root
unfolding channel_message
op_here ref client target r =
    let ch = r.channel_at ref in
    channel_message ref
      (by_message target "> has been added to this " ch "'s operator list by <" client)
      (record_db "opUser" ch.name (num target.user_id ∷ [])
        (set_channel ref (λ c. record c { operators = add target.user_id c.operators }) r))

unfoldable pub op_user : ℕ → ℕ → Person → Person → Root → Outcome
op_user zero ref client target r = raised r
op_user (suc fuel) ref client target r =
    let ch = r.channel_at ref in
    let forwarded =
      each_channel (λ next. op_user fuel next client target) ch.forwards
        (op_here ref client target r) in
    if contains target.user_id ch.operators then done r else forwarded

-- `deopUser` before it goes on to the forwards.
unfoldable pub deop_here : ℕ → Person → Person → Root → Root
unfolding channel_message
deop_here ref client target r =
    let ch = r.channel_at ref in
    channel_message ref
      (by_message target "> has been removed from this " ch "'s operator list by <" client)
      (record_db "deopUser" ch.name (num target.user_id ∷ [])
        (set_channel ref (λ c. record c { operators = discard target.user_id c.operators }) r))

unfoldable pub deop_user : ℕ → ℕ → Person → Person → Root → Outcome
deop_user zero ref client target r = raised r
deop_user (suc fuel) ref client target r =
    let ch = r.channel_at ref in
    let forwarded =
      each_channel (λ next. deop_user fuel next client target) ch.forwards
        (deop_here ref client target r) in
    if not (contains target.user_id ch.operators) then done r else forwarded

-- `Channel.kickUser` before it goes on to the forwards.
unfoldable pub kick_here : ℕ → Person → Person → Root → Root
unfolding channel_message
kick_here ref client target r =
    let ch = r.channel_at ref in
    elim target.session [
      | none ↦ r
      | some sid ↦
          if contains sid ch.users
          then remove_user sid ref none (
              channel_message ref
                (lit "<"
                  ∷ txt target.username
                  ∷ lit "> has been removed from this "
                  ∷ identity ch
                  ∷ lit " by <"
                  ∷ txt client.username
                  ∷ lit ">"
                  ∷ [])
                r)
          else r
    ]

-- `Battle.kickUser` calls `super().kickUser(self, client, target)`, one argument too many: a
-- TypeError before anything is done.
unfoldable pub kick_user : ℕ → ℕ → Person → Person → Root → Outcome
kick_user zero ref client target r = raised r
kick_user (suc fuel) ref client target r =
    let forwarded =
      each_channel (λ next. kick_user fuel next client target) (r.channel_at ref).forwards
        (kick_here ref client target r) in
    if (r.channel_at ref).is_battle then raised r else forwarded

-- The entries that `banUser` makes.
unfoldable pub add_ban : ℕ → Person → Person → ℕ → Text → Root → Root
add_ban ref client target expires reason r =
    let entry = record (penalty target.user_id expires reason client.user_id) {
      ip_address = target.last_ip;
    } in
    record_db "banUser" (r.channel_at ref).name
      (num client.user_id ∷ num target.user_id ∷ num expires ∷ txt reason ∷ [])
      (set_channel ref
        (λ c. record c {
          ban = insert target.user_id entry c.ban;
          ban_ip = insert target.last_ip entry c.ban_ip;
        })
        r)

unfoldable pub ban_user : ℕ → ℕ → Person → Person → ℕ → Text → Root → Outcome
ban_user zero ref client target expires reason r = raised r
ban_user (suc fuel) ref client target expires reason r =
    let ch = r.channel_at ref in
    let banned =
      kick_user (suc fuel) ref client target (add_ban ref client target expires reason r) in
    let forwarded =
      banned
      >>= each_channel (λ next. ban_user fuel next client target expires reason) ch.forwards in
    if has_key target.user_id ch.ban then done r else forwarded

unfoldable pub unban_here : ℕ → Person → Root → Root
unban_here ref target r = record_db "unbanUser" (r.channel_at ref).name (num target.user_id ∷ []) (
    set_channel ref
      (λ c. record c { ban = erase target.user_id c.ban; ban_ip = erase target.last_ip c.ban_ip })
      r)

unfoldable pub unban_user : ℕ → ℕ → Person → Person → Root → Outcome
unban_user zero ref client target r = raised r
unban_user (suc fuel) ref client target r =
    each_channel (λ next. unban_user fuel next client target) (r.channel_at ref).forwards
      (unban_here ref target r)

-- `muteUser` before it goes on to the forwards.
unfoldable pub mute_here : ℕ → Person → Person → Text → ℕ → Root → Root
unfolding channel_message expires_after
mute_here ref client target reason duration r =
    let ch = r.channel_at ref in
    let expires = expires_after r.now duration in
    let entry = penalty target.user_id expires reason client.user_id in
    channel_message ref
      (lit "<"
        ∷ txt client.username
        ∷ lit "> has been muted by <"
        ∷ txt target.username
        ∷ lit "> for "
        ∷ txt (pretty_time_delta (pos duration))
        ∷ [])
      (record_db "muteUser" ch.name
        (num client.user_id ∷ num target.user_id ∷ num expires ∷ txt reason ∷ [])
        (set_channel ref (λ c. record c { mutelist = insert target.user_id entry c.mutelist }) r))

unfoldable pub mute_user : ℕ → ℕ → Person → Person → Text → ℕ → Root → Outcome
mute_user zero ref client target reason duration r = raised r
mute_user (suc fuel) ref client target reason duration r =
    let ch = r.channel_at ref in
    let forwarded =
      each_channel (λ next. mute_user fuel next client target reason duration) ch.forwards
        (mute_here ref client target reason duration r) in
    if has_key target.user_id ch.mutelist then done r else forwarded

-- `unmuteUser` before it goes on to the forwards.
unfoldable pub unmute_here : ℕ → Person → Person → Root → Root
unfolding channel_message
unmute_here ref client target r =
    channel_message ref
      (lit "<"
        ∷ txt target.username
        ∷ lit "> has been unmuted by <"
        ∷ txt client.username
        ∷ lit ">"
        ∷ [])
      (record_db "unmuteUser" (r.channel_at ref).name (num target.user_id ∷ [])
        (set_channel ref (λ c. record c { mutelist = erase target.user_id c.mutelist }) r))

unfoldable pub unmute_user : ℕ → ℕ → Person → Person → Root → Outcome
unmute_user zero ref client target r = raised r
unmute_user (suc fuel) ref client target r =
    let ch = r.channel_at ref in
    let forwarded =
      each_channel (λ next. unmute_user fuel next client target) ch.forwards
        (unmute_here ref client target r) in
    if not (has_key target.user_id ch.mutelist) then done r else forwarded

-- The argument `expires` is overwritten. The test for the announcement comes after the removal.
unfoldable pub add_bridged_ban : ℕ → Person → ℕ → Text → ℕ → Root → Root
unfolding expires_after
add_bridged_ban ref client bridged_id reason duration r =
    let expires = expires_after r.now duration in
    record_db "banBridgedUser" (r.channel_at ref).name
      (num client.user_id ∷ num bridged_id ∷ num expires ∷ txt reason ∷ [])
      (set_channel ref
        (λ c. record c {
          bridged_ban =
              insert bridged_id (penalty bridged_id expires reason client.user_id) c.bridged_ban;
        })
        r)

unfoldable pub ban_bridged_user : ℕ → ℕ → Person → ℕ → Text → ℕ → Root → Outcome
unfolding channel_message
ban_bridged_user zero ref client bridged_id reason duration r = raised r
ban_bridged_user (suc fuel) ref client bridged_id reason duration r =
    let ch = r.channel_at ref in
    let removed =
      remove_bridged_user bridged_id ref []
        (add_bridged_ban ref client bridged_id reason duration r) in
    let announced = removed >>= λ s. done (
      if contains bridged_id (s.channel_at ref).bridged_users
      then channel_message ref
          (lit "<"
            ∷ txt (s.bridged_at bridged_id).username
            ∷ lit "> has been removed from this "
            ∷ identity ch
            ∷ lit " by <"
            ∷ txt client.username
            ∷ lit ">"
            ∷ [])
          s
      else s) in
    let forwarded =
      announced
      >>= each_channel (λ next. ban_bridged_user fuel next client bridged_id reason duration)
          ch.forwards in
    if has_key bridged_id ch.bridged_ban then done r else forwarded

unfoldable pub unban_bridged_user : ℕ → ℕ → Person → ℕ → Root → Outcome
unban_bridged_user zero ref client bridged_id r = raised r
unban_bridged_user (suc fuel) ref client bridged_id r =
    let ch = r.channel_at ref in
    let forwarded =
      each_channel (λ next. unban_bridged_user fuel next client bridged_id) ch.forwards
        (record_db "unbanBridgedUser" ch.name (num bridged_id ∷ [])
          (set_channel ref (λ c. record c { bridged_ban = erase bridged_id c.bridged_ban }) r)) in
    if not (has_key bridged_id ch.bridged_ban) then done r else forwarded

-- The ban that holds for a client: that of the user, else that of the address.
unfoldable pub ban_of : Channel → ℕ → Text → Option Penalty
ban_of ch user_id ip_address = elim (lookup user_id ch.ban) [
  | some ban ↦ some ban
  | none ↦ lookup ip_address ch.ban_ip
]

unfoldable pub get_ban_message : Root → ℕ → ℕ → Text → Message
unfolding ban_of
get_ban_message r ref user_id ip_address = elim (ban_of (r.channel_at ref) user_id ip_address) [
  | none ↦ lit "not banned" ∷ []
  | some ban ↦
      lit "Cannot join channel '"
      ∷ txt (r.channel_at ref).name
      ∷ lit "' (reason: "
      ∷ txt ban.reason
      ∷ lit ", remaining: "
      ∷ txt (pretty_time_delta (sub_ℕ ban.expires r.now))
      ∷ lit ")"
      ∷ []
]

unfoldable pub get_mute_message : Root → ℕ → ℕ → Message
get_mute_message r ref user_id = elim (lookup user_id (r.channel_at ref).mutelist) [
  | none ↦ lit "not muted" ∷ []
  | some mute ↦ lit "muted for " ∷ txt (pretty_time_delta (sub_ℕ mute.expires r.now)) ∷ []
]
