-- ===== src/Protocol/Bridge.antt =====
-- protocol/Protocol.py: `in_BRIDGECLIENTFROM`, `in_UNBRIDGECLIENTFROM`, `in_JOINFROM`, `in_LEAVEFROM`,
-- `in_SAYFROM`; `bridgedClient` of DataHandler.py and `isHosting` of Client.py. What the database of
-- bridged users makes of a user is the parameter `bridge_user`.
use uberserver.Base.{
  ℕ, Bool, true, false, ◌&&◌, ◌||◌, not, List, [], ◌∷◌, ◌++◌, Option, none, some, if◌then◌else◌,
  ◌==◌, text_eq, nat_eq, eqb, ltb, length, String,
}
use uberserver.Base.Dict.{
  Dict, lookup, insert, erase, contains, has_key, add, discard, keys, get_or,
}
use uberserver.Base.Text.{Text, codes}
use uberserver.Syntax.Names.{valid, invalid, valid_bridge_syntax}
use uberserver.Server.Types.{Root, Client, Channel, BridgedClient, Message, Piece, lit, txt, num}
use uberserver.Server.Store.{
  put, set_client, has_flag, client_from_id, client_from_username, record_db,
}
use uberserver.Server.Cast.{Filter, send, out_failed, out_servermsg, broadcast}
use uberserver.Server.Outcome.{Outcome, done, raised, ◌>>=◌}
use uberserver.Server.Accounts.{UserDb}
use uberserver.Channel.Access.{has_key_set}
use uberserver.Channel.Members.{u_flag, add_bridged_user, remove_bridged_user}
use uberserver.Protocol.Chat.{is_blank, from_with, from_without, said, store_message}
pub mod Admission
pub mod Owned
pub mod Restored

-- What `bridgedClient` finds: a bridged user, nobody, or a table that does not fit, which raises.
pub data Found : Type 0 where
  bridged : ℕ → Found
  nobody : Found
  broken : Found

abbrev found_in : Root → Dict Text ℕ → Text → Found
found_in r names external_id = elim (lookup external_id names) [
  | none ↦ nobody
  | some bridged_id ↦ if contains bridged_id r.bridged_ids then bridged bridged_id else broken
]

unfoldable pub bridged_client : Root → Text → Text → Found
unfolding client_from_id
bridged_client r location external_id = elim (lookup location r.bridged_locations) [
  | none ↦ nobody
  | some bridge_user_id ↦ elim (client_from_id r bridge_user_id) [
    | none ↦ broken
    | some bridge_user ↦ elim (lookup location (r.client_at bridge_user).bridge) [
      | none ↦ broken
      | some names ↦ found_in r names external_id
    ]
  ]
]

-- `client.isHosting()`, where a battle that is gone is a KeyError.
unfoldable pub is_hosting : Root → ℕ → Option Bool
is_hosting r sid = elim (r.client_at sid).current_battle [
  | none ↦ some false
  | some battle_id ↦ if eqb battle_id 0 then some false else elim (lookup battle_id r.battles) [
    | none ↦ none
    | some ref ↦ some (elim (r.channel_at ref).battle.host [ none ↦ false | some h ↦ eqb h sid ])
  ]
]

-- `client.session_id == channel.host` of a battle.
abbrev hosts : Channel → ℕ → Bool
hosts ch sid = elim ch.battle.host [ none ↦ false | some host ↦ eqb sid host ]

abbrev pub bridge_user_of : Root → ℕ → ℕ
bridge_user_of r bridged_id = (r.bridged_at bridged_id).bridge_user_id

-- `… on a different bridge (got %i, expected %i)`
abbrev other_bridge : String → Root → ℕ → ℕ → Message
other_bridge who r sid bridged_id =
    lit who
    ∷ txt (r.bridged_at bridged_id).username
    ∷ lit "> is on a different bridge (got "
    ∷ num (bridge_user_of r bridged_id)
    ∷ lit ", expected "
    ∷ num (r.client_at sid).user_id
    ∷ lit ")"
    ∷ []

abbrev missing : String → Text → Text → Message
missing who location external_id =
    lit who ∷ txt location ∷ lit "," ∷ txt external_id ∷ lit ") not found" ∷ []

unfoldable pub in_leavefrom : ℕ → Text → Text → Text → Root → Outcome
unfolding out_failed bridged_client remove_bridged_user
in_leavefrom sid chan location external_id r =
    if not (has_flag (r.client_at sid) u_flag) then done r else elim (lookup chan r.channels) [
      | none ↦
          done (out_failed sid "LEAVEFROM" (lit "Channel '" ∷ txt chan ∷ lit "' not found" ∷ []) r)
      | some ref ↦ elim (bridged_client r location external_id) [
        | broken ↦ raised r
        | nobody ↦
            done (out_failed sid "LEAVEFROM" (missing "Bridged user (" location external_id) r)
        | bridged bridged_id ↦
            if not (eqb (bridge_user_of r bridged_id) (r.client_at sid).user_id)
            then done
                (out_failed sid "LEAVEFROM" (other_bridge "Bridged user <" r sid bridged_id) r)
            else remove_bridged_user bridged_id ref [] r
      ]
    ]

unfoldable pub leave_all_from : ℕ → List Text → Text → Text → Root → Outcome
unfolding in_leavefrom
leave_all_from sid [] location external_id r = done r
leave_all_from sid (chan ∷ chans) location external_id r =
    in_leavefrom sid chan location external_id r >>= leave_all_from sid chans location external_id

-- The three `del`s, each of which raises where there is nothing to delete.
unfoldable pub forget_bridged : ℕ → Text → Text → ℕ → Root → Outcome
unfolding send
forget_bridged sid location external_id bridged_id r =
    let b = r.bridged_at bridged_id in
    elim (lookup location (r.client_at sid).bridge) [
      | none ↦ raised r
      | some names ↦
          if not (has_key external_id names)
          then raised r
          else (let r1 =
                set_client sid
                  (λ c. record c { bridge = insert location (erase external_id names) c.bridge })
                  r in
              if not (contains bridged_id r1.bridged_ids)
              then raised r1
              else (let r2 = record r1 { bridged_ids = discard bridged_id r1.bridged_ids } in
                  if not (has_key b.username r2.bridged_usernames)
                  then raised r2
                  else done (
                      send sid
                        (lit "UNBRIDGEDCLIENTFROM "
                          ∷ txt b.location
                          ∷ lit " "
                          ∷ txt b.external_id
                          ∷ [])
                        (record r2 { bridged_usernames = erase b.username r2.bridged_usernames }))))
    ]

unfoldable pub in_unbridgeclientfrom : ℕ → Text → Text → Root → Outcome
unfolding out_failed bridged_client leave_all_from forget_bridged
in_unbridgeclientfrom sid location external_id r =
    if not (has_flag (r.client_at sid) u_flag)
    then done r
    else elim (bridged_client r location external_id) [
      | broken ↦ raised r
      | nobody ↦
          done (
            out_failed sid "UNBRIDGECLIENTFROM" (missing "Bridged client (" location external_id) r)
      | bridged bridged_id ↦
          if not (eqb (bridge_user_of r bridged_id) (r.client_at sid).user_id)
          then done (
              out_failed sid "UNBRIDGECLIENTFROM" (other_bridge "Bridged client <" r sid bridged_id)
                r)
          else (let b = r.bridged_at bridged_id in
              leave_all_from sid b.channels b.location b.external_id r
              >>= forget_bridged sid location external_id bridged_id)
    ]

-- Why users may not be bridged into a channel.
unfoldable pub bridging_refusal : Root → ℕ → ℕ → Text → Option Message
unfolding has_key_set
bridging_refusal r sid ref chan =
    let ch = r.channel_at ref in
    if has_key_set ch && not (ch.is_battle && hosts ch sid)
    then some (lit "Cannot bridge to #" ∷ txt chan ∷ lit ", this channel has a password" ∷ [])
    else if not ch.is_battle && not (r.client_at sid).bot
    then some (lit "A botflag is needed to bridge clients into #" ∷ txt chan ∷ [])
    else if ch.is_battle && not (hosts ch sid)
    then some (lit "Only the battle host can bridge clients into #" ∷ txt chan ∷ [])
    else none

unfoldable pub in_joinfrom : ℕ → Text → Text → Text → Root → Outcome
unfolding out_failed bridging_refusal bridged_client add_bridged_user
in_joinfrom sid chan location external_id r =
    let refuse = λ (m : Message). done (out_failed sid "JOINFROM" m r) in
    if not (has_flag (r.client_at sid) u_flag) then done r else elim (lookup chan r.channels) [
      | none ↦ refuse (lit "Channel '" ∷ txt chan ∷ lit "' not found" ∷ [])
      | some ref ↦ elim (bridging_refusal r sid ref chan) [
        | some m ↦ refuse m
        | none ↦ elim (bridged_client r location external_id) [
          | broken ↦ raised r
          | nobody ↦ refuse (missing "Bridged user (" location external_id)
          | bridged bridged_id ↦
              if not (eqb (bridge_user_of r bridged_id) (r.client_at sid).user_id)
              then refuse (other_bridge "Bridged client <" r sid bridged_id)
              else if has_key bridged_id (r.channel_at ref).bridged_ban
              then refuse (
                  lit "Bridged user <"
                  ∷ txt (r.bridged_at bridged_id).username
                  ∷ lit "> is banned from channel #"
                  ∷ txt chan
                  ∷ [])
              else add_bridged_user bridged_id ref r
        ]
      ]
    ]

abbrev pub said_from : Text → Text → Text → Message
said_from chan username msg =
    lit "SAIDFROM " ∷ txt chan ∷ lit " " ∷ txt username ∷ lit " " ∷ txt msg ∷ []

-- For clients without the flag u the bridge speaks, with the name in front.
abbrev pub said_for : Channel → Text → Text → Text → Text → Message
said_for ch chan bridge_name username msg =
    let quoted = lit " <" ∷ txt username ∷ lit "> " ∷ txt msg ∷ [] in
    if ch.is_battle
    then lit "SAIDBATTLE " ∷ txt bridge_name ∷ quoted
    else lit "SAID " ∷ txt chan ∷ lit " " ∷ txt bridge_name ∷ quoted

-- What is said once it is allowed.
unfoldable pub speak_from : ℕ → ℕ → ℕ → Text → Text → Root → Root
unfolding store_message broadcast
speak_from sid ref bridged_id chan msg r =
    let c = r.client_at sid in
    let b = r.bridged_at bridged_id in
    let r1 = store_message false c.user_id (some bridged_id) ref msg r in
    broadcast (said_for (r.channel_at ref) chan c.username b.username msg) (some chan)
      (from_without sid u_flag)
      (broadcast (said_from chan b.username msg) (some chan) (from_with sid u_flag) r1)

unfoldable pub in_sayfrom : ℕ → Text → Text → Text → Text → Root → Outcome
unfolding bridged_client out_failed speak_from
in_sayfrom sid chan location external_id msg r =
    if is_blank msg then done r else elim (lookup chan r.channels) [
      | none ↦ done r
      | some ref ↦ elim (bridged_client r location external_id) [
        | broken ↦ raised r
        | nobody ↦ done r
        | bridged bridged_id ↦
            if not (eqb (bridge_user_of r bridged_id) (r.client_at sid).user_id)
            then done r
            else if not (contains bridged_id (r.channel_at ref).bridged_users)
            then done (
                out_failed sid "SAYFROM"
                  (lit "Bridged user <"
                    ∷ txt (r.bridged_at bridged_id).username
                    ∷ lit "> not present in channel"
                    ∷ [])
                  r)
            else done (speak_from sid ref bridged_id chan msg r)
      ]
    ]
