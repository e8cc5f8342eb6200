-- ===== src/Channel/Members.antt =====
-- protocol/Channel.py: `broadcast`, `channelMessage`, `recordUse`, `addUser`, `removeUser`,
-- `addBridgedUser`, `removeBridgedUser`.
use uberserver.Base.{
  ℕ, ◌≡◌, Bool, true, false, ◌&&◌, not, List, [], ◌∷◌, ◌++◌, Option, none, some, eqb, if◌then◌else◌,
  nat_eq, text_eq, length,
}
use uberserver.Base.Dict.{Dict, lookup, insert, contains, add, discard}
use uberserver.Base.Text.{Text, codes, join}
use uberserver.Server.Types.{Root, Client, Channel, Message, Piece, lit, txt, num, BridgedClient}
use uberserver.Server.Store.{
  set_client, set_channel, record_db, client_from_id, client_from_session, has_flag, put,
}
use uberserver.Server.Cast.{Filter, everyone, only_flag, send, broadcast}
use uberserver.Server.Outcome.{Outcome, done, raised, ◌>>=◌}
pub mod Lockstep

unfoldable pub channel_broadcast : ℕ → Message → Filter → Root → Root
unfolding broadcast
channel_broadcast ref m f r = broadcast m (some (r.channel_at ref).name) f r

abbrev pub u_flag : Text
u_flag = codes "u"

unfoldable pub channel_message : ℕ → Message → Root → Root
unfolding channel_broadcast
channel_message ref message r =
    channel_broadcast ref (lit "CHANNELMESSAGE " ∷ txt (r.channel_at ref).name ∷ lit " " ∷ message)
      (if (r.channel_at ref).is_battle then only_flag u_flag else everyone) r

unfoldable pub record_use : ℕ → Root → Root
record_use ref r =
    record_db "recordUse" (r.channel_at ref).name []
      (set_channel ref (λ ch. record ch { last_used = some r.now }) r)

-- `'u' if self.identity=="battle" else None`
abbrev pub legacy_filter : Channel → Filter
legacy_filter ch = if ch.is_battle then only_flag u_flag else everyone

-- The names of bridged users by their bridge; `none` where a bridge is not online.
unfoldable pub bridged_names :
    Root → List ℕ → Dict Text (List Text) → Option (Dict Text (List Text))
bridged_names r [] d = some d
bridged_names r (bridged_id ∷ rest) d =
    elim (client_from_id r (r.bridged_at bridged_id).bridge_user_id) [
      | none ↦ none
      | some bridge ↦
          let bridge_name = (r.client_at bridge).username in
          let names : List Text = elim (lookup bridge_name d) [ none ↦ [] | some names ↦ names ] in
          bridged_names r rest
            (insert bridge_name (names ++ ((r.bridged_at bridged_id).username ∷ [])) d)
    ]

-- `none` is the failed assertion that every member is online.
unfoldable pub member_names : Root → List ℕ → Option (List Text)
member_names r [] = some []
member_names r (sid ∷ sids) = elim (client_from_session r sid) [
  | none ↦ none
  | some s ↦ elim (member_names r sids) [
    | none ↦ none
    | some names ↦ some ((r.client_at s).username ∷ names)
  ]
]

unfoldable pub send_bridged : ℕ → Text → Dict Text (List Text) → Root → Root
send_bridged sid name [] r = r
send_bridged sid name ((bridge, names) ∷ d) r = send_bridged sid name d (
    send sid
      (lit "CLIENTSFROM "
        ∷ txt name
        ∷ lit " "
        ∷ txt bridge
        ∷ lit " "
        ∷ txt (join (codes " ") names)
        ∷ [])
      r)

unfoldable pub send_topic : ℕ → ℕ → Root → Root
unfolding send
send_topic sid ref r =
    let ch = r.channel_at ref in
    let topic_username : Text = elim ch.topic_user_id [
      | none ↦ codes "ChanServ"
      | some user_id ↦ elim (client_from_id r user_id) [
        | none ↦ codes "ChanServ"
        | some setter ↦ (r.client_at setter).username
      ]
    ] in
    send sid
      (lit "CHANNELTOPIC "
        ∷ txt ch.name
        ∷ lit " "
        ∷ txt topic_username
        ∷ lit " "
        ∷ txt (elim ch.topic [ none ↦ codes "None" | some topic ↦ topic ])
        ∷ [])
      r

-- The bridged users and then the members, each unless an exception came before.
unfoldable pub send_lists :
    ℕ → Text → Option (Dict Text (List Text)) → Option (List Text) → Root → Outcome
unfolding send send_bridged
send_lists sid name none members r = raised r
send_lists sid name (some bridged) none r = raised (send_bridged sid name bridged r)
send_lists sid name (some bridged) (some members) r = done (
    send sid (lit "CLIENTS " ∷ txt name ∷ lit " " ∷ txt (join (codes " ") members) ∷ [])
      (send_bridged sid name bridged r))

-- What `addUser` sends to the client once it has been announced.
unfoldable pub send_channel_state : ℕ → ℕ → Root → Outcome
unfolding send_topic bridged_names member_names send_lists
send_channel_state sid ref r =
    let ch = r.channel_at ref in
    send_lists sid ch.name
      (if has_flag (r.client_at sid) u_flag then bridged_names r ch.bridged_users [] else some [])
      (member_names r ch.users) (send_topic sid ref r)

-- The assignments of `addUser`: both membership sets of the channel and the client's own.
unfoldable pub enrol : ℕ → ℕ → Root → Root
enrol sid ref r =
    set_client sid (λ c. record c { channels = add (r.channel_at ref).name c.channels })
      (set_channel ref
        (λ ch. record ch { users = add sid ch.users; user_clients = add sid ch.user_clients }) r)

-- The state of `addUser` before it sends anything.
unfoldable pub admit : ℕ → ℕ → Root → Root
unfolding enrol record_use
admit sid ref r =
    if (r.client_at sid).static then enrol sid ref r else record_use ref (enrol sid ref r)

-- Legacy clients are not told that they are in a battle's channel.
unfoldable pub announce_join : ℕ → ℕ → Root → Outcome
unfolding channel_broadcast send send_channel_state
announce_join sid ref r =
    let ch = r.channel_at ref in
    let c = r.client_at sid in
    let joined : Message = lit "JOINED " ∷ txt ch.name ∷ lit " " ∷ txt c.username ∷ [] in
    if ch.is_battle && not (has_flag c u_flag)
    then done (channel_broadcast ref joined (legacy_filter ch) r)
    else send_channel_state sid ref (
        channel_broadcast ref joined (legacy_filter ch)
          (send sid (lit "JOIN " ∷ txt ch.name ∷ []) r))

unfoldable pub add_user : ℕ → ℕ → Root → Outcome
unfolding admit announce_join
add_user sid ref r =
    if contains sid (r.channel_at ref).users
    then done r
    else announce_join sid ref (admit sid ref r)

unfoldable pub forget_channel : ℕ → Text → Root → Root
forget_channel sid name = set_client sid (λ c. record c { channels = discard name c.channels })

-- What `removeUser` does once the others have been told.
unfoldable pub expel : ℕ → ℕ → Root → Root
unfolding record_use
expel sid ref r =
    let r1 =
      set_channel ref
        (λ ch. record ch {
          users = discard sid ch.users;
          user_clients = discard sid ch.user_clients;
        })
        r in
    if (r.client_at sid).static then r1 else record_use ref r1

abbrev pub left_message : Text → Text → Option Text → Message
left_message name username none = lit "LEFT " ∷ txt name ∷ lit " " ∷ txt username ∷ []
left_message name username (some []) = lit "LEFT " ∷ txt name ∷ lit " " ∷ txt username ∷ []
left_message name username (some (c ∷ why)) =
    lit "LEFT " ∷ txt name ∷ lit " " ∷ txt username ∷ lit " " ∷ txt (c ∷ why) ∷ []

unfoldable pub remove_user : ℕ → ℕ → Option Text → Root → Root
unfolding forget_channel expel channel_broadcast
remove_user sid ref reason r =
    let ch = r.channel_at ref in
    let r1 = forget_channel sid ch.name r in
    if not (contains sid ch.users)
    then r1
    else expel sid ref (
        channel_broadcast ref (left_message ch.name (r.client_at sid).username reason)
          (legacy_filter ch) r1)

unfoldable pub add_bridged_user : ℕ → ℕ → Root → Outcome
unfolding channel_broadcast
add_bridged_user bridged_id ref r =
    let ch = r.channel_at ref in
    let b = r.bridged_at bridged_id in
    if contains bridged_id ch.bridged_users
    then done r
    else (let r1 =
          set_channel ref (λ ch. record ch { bridged_users = add bridged_id ch.bridged_users })
            (record r {
              bridged_at =
                  put bridged_id (record b { channels = add ch.name b.channels }) r.bridged_at;
            }) in
        elim (client_from_id r b.bridge_user_id) [
          | none ↦ raised r1
          | some bridge ↦ done (
              channel_broadcast ref
                (lit "JOINEDFROM "
                  ∷ txt ch.name
                  ∷ lit " "
                  ∷ txt (r.client_at bridge).username
                  ∷ lit " "
                  ∷ txt b.username
                  ∷ [])
                (only_flag u_flag) r1)
        ])

-- `channels.remove` is a KeyError where the bridged client does not have the channel.
unfoldable pub remove_bridged_user : ℕ → ℕ → Text → Root → Outcome
unfolding channel_broadcast
remove_bridged_user bridged_id ref reason r =
    let ch = r.channel_at ref in
    let b = r.bridged_at bridged_id in
    if not (contains bridged_id ch.bridged_users)
    then done r
    else (let r1 =
          set_channel ref (λ ch. record ch { bridged_users = discard bridged_id ch.bridged_users })
            r in
        if not (contains ch.name b.channels)
        then raised r1
        else done (
            channel_broadcast ref
              (lit "LEFTFROM " ∷ txt ch.name ∷ lit " " ∷ txt b.username ∷ lit " " ∷ txt reason ∷ [])
              (only_flag u_flag)
              (record r1 {
                bridged_at =
                    put bridged_id (record b { channels = discard ch.name b.channels })
                      r1.bridged_at;
              })))
