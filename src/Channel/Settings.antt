-- ===== src/Channel/Settings.antt =====
-- protocol/Channel.py: `register`, `unregister`, `setTopic`, `setFounder`, `setAntispam`,
-- `setHistory`, `setKey`, `addForward`, `removeForward`.
use uberserver.Base.{
  ℕ, Bool, true, false, not, List, [], ◌∷◌, Option, none, some, eqb, if◌then◌else◌, nat_eq, text_eq,
  length, ◌==◌,
}
use uberserver.Base.Dict.{update, contains, add, discard}
use uberserver.Base.Text.{Text, codes}
use uberserver.Server.Types.{Root, Channel, Message, Piece, lit, txt, num}
use uberserver.Server.Store.{set_channel, record_db, is_truthy, is_open_key}
use uberserver.Server.Cast.{everyone}
use uberserver.Channel.Access.{Person}
use uberserver.Channel.Members.{channel_broadcast, channel_message, record_use}

-- `self.identity` as it is written into messages.
abbrev pub identity : Channel → Piece
identity ch = if ch.is_battle then lit "battle" else lit "channel"

abbrev pub bool_name : Bool → Piece
bool_name true = lit "True"
bool_name false = lit "False"

unfoldable pub set_founder : ℕ → Person → Person → Root → Root
unfolding channel_message
set_founder ref client target r =
    channel_message ref
      (lit "<"
        ∷ txt target.username
        ∷ lit "> has been set as this "
        ∷ identity (r.channel_at ref)
        ∷ lit "'s founder by <"
        ∷ txt client.username
        ∷ lit ">"
        ∷ [])
      (record_db "setFounder" (r.channel_at ref).name (num target.user_id ∷ [])
        (set_channel ref (λ ch. record ch { owner_user_id = some target.user_id }) r))

unfoldable pub register : ℕ → Person → Person → Root → Root
unfolding set_founder record_use
register ref client target r =
    let name = (r.channel_at ref).name in
    let r1 = set_founder ref client target r in
    record_use ref (
      record_db "register" name (num target.user_id ∷ [])
        (record r1 { registered_names = add name r1.registered_names }))

unfoldable pub unregister : ℕ → Person → Root → Root
unfolding channel_message
unregister ref client r =
    let name = (r.channel_at ref).name in
    let r1 =
      channel_message ref
        (lit "This channel has been unregistered by <" ∷ txt client.username ∷ lit ">" ∷ [])
        (set_channel ref (λ ch. record ch { owner_user_id = none; topic = none; operators = [] })
          r) in
    record_db "unRegister" name []
      (record r1 { registered_names = discard name r1.registered_names })

-- `*` and the empty topic both remove the topic.
abbrev topic_of : Text → Text
topic_of topic = if topic == codes "*" then [] else topic

abbrev is_current_topic : Option Text → Text → Bool
is_current_topic none topic = eqb (length topic) 0
is_current_topic (some []) topic = eqb (length topic) 0
is_current_topic (some (c ∷ s)) topic = topic == (c ∷ s)

unfoldable pub set_topic : ℕ → Person → Text → Root → Root
unfolding channel_broadcast channel_message
set_topic ref client topic r =
    let new = topic_of topic in
    if is_current_topic (r.channel_at ref).topic new
    then r
    else channel_message ref
        (if eqb (length new) 0 then lit "Topic removed." ∷ [] else lit "Topic changed." ∷ [])
        (channel_broadcast ref
          (lit "CHANNELTOPIC "
            ∷ txt (r.channel_at ref).name
            ∷ lit " "
            ∷ txt client.username
            ∷ lit " "
            ∷ txt new
            ∷ [])
          everyone
          (record_db "setTopic" (r.channel_at ref).name (txt new ∷ num client.user_id ∷ [])
            (set_channel ref (λ ch. record ch { topic = some new }) r)))

unfoldable pub set_antispam : ℕ → Person → Bool → Root → Root
unfolding channel_message
set_antispam ref client val r =
    channel_message ref
      (lit "Anti-spam protection was set to "
        ∷ bool_name val
        ∷ lit " by <"
        ∷ txt client.username
        ∷ lit ">"
        ∷ [])
      (record_db "setAntispam" (r.channel_at ref).name (bool_name val ∷ [])
        (set_channel ref (λ ch. record ch { antispam = val }) r))

unfoldable pub set_history : ℕ → Person → Bool → Root → Root
unfolding channel_message
set_history ref client val r =
    channel_message ref
      (lit "History retention was set to "
        ∷ bool_name val
        ∷ lit " by <"
        ∷ txt client.username
        ∷ lit ">"
        ∷ [])
      (record_db "setHistory" (r.channel_at ref).name (bool_name val ∷ [])
        (set_channel ref (λ ch. record ch { store_history = val }) r))

unfoldable pub set_key : ℕ → Person → Option Text → Root → Root
unfolding channel_message
set_key ref client key r =
    let ch = r.channel_at ref in
    let r1 = record_db "setKey" ch.name [] r in
    if is_open_key key
    then if is_truthy ch.key
      then channel_message ref
          (lit "<" ∷ txt client.username ∷ lit "> removed the password of this " ∷ identity ch ∷ [])
          (set_channel ref (λ c. record c { key = none }) r1)
      else r1
    else channel_message ref
        (lit "<" ∷ txt client.username ∷ lit "> set a new password for this " ∷ identity ch ∷ [])
        (set_channel ref (λ c. record c { key = key }) r1)

-- `for user_id in self.operators: channel_to.operators.add(user_id)`
unfoldable pub add_all : List ℕ → List ℕ → List ℕ
add_all [] xs = xs
add_all (k ∷ ks) xs = add_all ks (add k xs)

-- The entries already there are overwritten.
unfoldable pub add_forward : ℕ → Person → ℕ → Root → Root
unfolding channel_message add_all
add_forward ref client ref_to r =
    let from = r.channel_at ref in
    let to = r.channel_at ref_to in
    let r1 =
      record_db "addForward" from.name (txt to.name ∷ [])
        (set_channel ref (λ ch. record ch { forwards = add to.name ch.forwards }) r) in
    let r2 =
      set_channel ref_to
        (λ ch. record ch {
          operators = add_all from.operators ch.operators;
          mutelist = update ch.mutelist from.mutelist;
          ban = update ch.ban from.ban;
          ban_ip = update ch.ban_ip from.ban_ip;
          bridged_ban = update ch.bridged_ban from.bridged_ban;
        })
        r1 in
    let message : Message =
      lit "<" ∷ txt client.username ∷ lit "> added forwarding to #" ∷ txt to.name ∷ [] in
    channel_message ref_to message (channel_message ref message r2)

unfoldable pub remove_forward : ℕ → Person → ℕ → Root → Root
unfolding channel_message
remove_forward ref client ref_to r =
    let from = r.channel_at ref in
    let to = r.channel_at ref_to in
    if not (contains to.name from.forwards)
    then r
    else (let message : Message =
          lit "<" ∷ txt client.username ∷ lit "> removed forwarding to #" ∷ txt to.name ∷ [] in
        channel_message ref_to message (
          channel_message ref message (
            record_db "removeForward" from.name (txt to.name ∷ [])
              (set_channel ref (λ ch. record ch { forwards = discard to.name ch.forwards }) r))))
