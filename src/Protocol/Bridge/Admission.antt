-- ===== src/Protocol/Bridge/Admission.antt =====
-- protocol/Protocol.py: `in_BRIDGECLIENTFROM`; the constructors of `BridgedClient` in
-- protocol/BridgedClient.py and of `OfflineBridgedClient` in SQLUsers.py.
use uberserver.Base.{
  ℕ, Bool, true, false, ◌&&◌, not, [], ◌∷◌, ◌++◌, none, some, if◌then◌else◌, ◌==◌, text_eq, nat_eq,
  eqb, ltb, length,
}
use uberserver.Base.Dict.{Dict, lookup, insert, contains, has_key, add}
use uberserver.Base.Text.{Text}
use uberserver.Syntax.Names.{valid, invalid, valid_bridge_syntax}
use uberserver.Server.Types.{Root, Message, lit, txt}
use uberserver.Server.Store.{put, set_client, has_flag, client_from_username, record_db}
use uberserver.Server.Cast.{send, out_failed, out_servermsg}
use uberserver.Server.Outcome.{Outcome, done, raised, ◌>>=◌}
use uberserver.Server.Accounts.{UserDb}
use uberserver.Channel.Members.{u_flag}
use uberserver.Protocol.Bridge.{is_hosting}

-- What `bridgeduserdb.bridge_user` answers: a refusal, or the id under which the user is kept.
pub data Registration : Type 0 where
  refused : Text → Registration
  kept_as : ℕ → Registration

abbrev pub admit_cmd : ℕ → Message → Root → Root
admit_cmd sid m r = out_failed sid "BRIDGECLIENTFROM" m r

-- The checks of who may bridge from which location, before anything is written. `raised` is a battle
-- that is gone.
pub data Permission : Type 0 where
  granted : Permission
  denied : Message → Permission
  stuck : Permission

-- The name is that of a bot, online or not.
unfoldable pub names_bot : UserDb → Root → Text → Bool
unfolding client_from_username
names_bot users r name = elim (client_from_username r name) [
  | some s ↦ (r.client_at s).bot
  | none ↦ elim (users.by_username name) [
    | none ↦ false
    | some a ↦ if name == a.username then a.bot else false
  ]
]

abbrev hosting_check : Root → ℕ → Text → Permission
hosting_check r sid location =
    let c = r.client_at sid in
    if c.bot then granted else elim (is_hosting r sid) [
      | none ↦ stuck
      | some false ↦ denied (lit "Only bot users and battle hosts can bridge clients" ∷ [])
      | some true ↦
          if location == c.username
          then granted
          else denied (
              lit "You are only allowed to bridge clients with location '"
              ∷ txt c.username
              ∷ lit "'"
              ∷ [])
    ]

unfoldable pub may_bridge : UserDb → Root → ℕ → Text → Text → Text → Permission
unfolding is_hosting valid_bridge_syntax names_bot
may_bridge users r sid location external_id external_username =
    let c = r.client_at sid in
    if not (has_flag c u_flag)
    then denied (lit "You need the 'u' compatibility flag to bridge clients" ∷ [])
    else elim (hosting_check r sid location) [
      | stuck ↦ stuck
      | denied m ↦ denied m
      | granted ↦ elim (valid_bridge_syntax location external_id external_username) [
        | invalid reason ↦ denied (lit "Invalid syntax: " ∷ txt reason ∷ [])
        | valid ↦
            if names_bot users r location && not (location == c.username)
            then denied (lit "You cannot bridge from a location named after another bot user" ∷ [])
            else granted
      ]
    ]

-- A location that nobody bridges from becomes the client's; `assert(not location in client.bridge)`.
unfoldable pub claim_location : ℕ → Text → Root → Outcome
unfolding out_servermsg
claim_location sid location r =
    let c = r.client_at sid in
    if has_key location r.bridged_locations
    then done r
    else (let r1 = record r { bridged_locations = insert location c.user_id r.bridged_locations } in
        if has_key location c.bridge
        then raised r1
        else done (
            out_servermsg sid
              (lit "You are now the bridge bot for location '" ∷ txt location ∷ lit "'" ∷ [])
              (set_client sid (λ d. record d { bridge = insert location [] d.bridge }) r1)))

abbrev pub bridged_name : Text → Text → Text
bridged_name location external_username = external_username ++ (b':' ∷ location)

-- The new bridged client in the three tables.
unfoldable pub install : ℕ → Text → Text → Text → ℕ → Dict Text ℕ → Root → Root
unfolding send
install sid location external_id external_username bridged_id names r =
    send sid
      (lit "BRIDGEDCLIENTFROM "
        ∷ txt location
        ∷ lit " "
        ∷ txt external_id
        ∷ lit " "
        ∷ txt external_username
        ∷ [])
      (set_client sid
        (λ c. record c { bridge = insert location (insert external_id bridged_id names) c.bridge })
        (record r {
          bridged_at =
              put bridged_id
                (record {
                  bridged_id = bridged_id;
                  external_id = external_id;
                  location = location;
                  external_username = external_username;
                  username = bridged_name location external_username;
                  bridge_user_id = (r.client_at sid).user_id;
                  channels = [];
                })
                r.bridged_at;
          bridged_ids = add bridged_id r.bridged_ids;
          bridged_usernames =
              insert (bridged_name location external_username) bridged_id r.bridged_usernames;
        }))

module _ (users : UserDb) (bridge_user : Text → Text → Text → Root → Registration) where
  -- The last part, with the client's table of the location.
  unfoldable pub register_bridged : ℕ → Text → Text → Text → Dict Text ℕ → Root → Root
  unfolding out_failed install
  register_bridged sid location external_id external_username names r =
      if not (r.client_at sid).bot && ltb 256 (length names)
      then admit_cmd sid
          (lit "You have reached your maximum allowed number (256) of bridged clients" ∷ []) r
      else (let r1 =
            record_db "bridge_user" []
              (txt location ∷ lit ", " ∷ txt external_id ∷ lit ", " ∷ txt external_username ∷ [])
              r in
          elim (bridge_user location external_id external_username r) [
            | refused reason ↦ admit_cmd sid (txt reason ∷ []) r1
            | kept_as bridged_id ↦
                if contains bridged_id r1.bridged_ids
                then admit_cmd sid
                    (lit "The client already exists on the bridge ("
                      ∷ txt location
                      ∷ lit ","
                      ∷ txt external_id
                      ∷ lit ")"
                      ∷ [])
                    r1
                else install sid location external_id external_username bridged_id names r1
          ])

  -- The location has a bridge. That it is another's is told to the client with a format that asks for
  -- two values and is given one: a TypeError, or an AttributeError where the other is not online.
  unfoldable pub bridge_from : ℕ → Text → Text → Text → Root → Outcome
  unfolding register_bridged
  bridge_from sid location external_id external_username r =
      elim (lookup location r.bridged_locations) [
        | none ↦ raised r
        | some bridge_user_id ↦
            if not (eqb bridge_user_id (r.client_at sid).user_id)
            then raised r
            else elim (lookup location (r.client_at sid).bridge) [
              | none ↦ raised r
              | some names ↦
                  done (register_bridged sid location external_id external_username names r)
            ]
      ]

  unfoldable pub in_bridgeclientfrom : ℕ → Text → Text → Text → Root → Outcome
  unfolding may_bridge out_failed claim_location bridge_from
  in_bridgeclientfrom sid location external_id external_username r =
      elim (may_bridge users r sid location external_id external_username) [
        | stuck ↦ raised r
        | denied m ↦ done (admit_cmd sid m r)
        | granted ↦
            claim_location sid location r >>= bridge_from sid location external_id external_username
      ]
