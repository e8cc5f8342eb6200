-- ===== src/Server/Cast.antt =====
-- DataHandler.py: `multicast`, `broadcast`, `broadcast_battle`, `turn_enabled`; Client.py: `Send`;
-- protocol/Protocol.py: `out_FAILED`, `out_SERVERMSG`, `out_OPENBATTLEFAILED`. The log files, the
-- command statistics and the write buffers are not modelled.
use uberserver.Base.{
  ℕ, Bool, true, not, ◌&&◌, List, [], ◌∷◌, ◌++◌, Option, none, some, String, keep, nat_eq, text_eq,
  any, if◌then◌else◌,
}
use uberserver.Base.Dict.{lookup, contains}
use uberserver.Base.Text.{Text}
use uberserver.Server.Types.{Root, Client, Message, lit, txt, Sent}
use uberserver.Server.Outcome.{Outcome, done, raised}
use uberserver.Server.Store.{has_flag, is_truthy}

-- `Client.Send`: the id of the command being answered stands in front.
unfoldable pub send : ℕ → Message → Root → Root
send sid m r = record r {
  sent = record { to = sid; message = txt (r.client_at sid).msg_id ∷ m } ∷ r.sent;
}

-- One message to each of the clients, in order.
unfoldable pub emit : (ℕ → Client) → List ℕ → Message → List Sent → List Sent
emit client_at [] m log = log
emit client_at (sid ∷ sids) m log =
    emit client_at sids m (record { to = sid; message = txt (client_at sid).msg_id ∷ m } ∷ log)

-- The keyword arguments of `multicast`.
pub record Filter : Type 0 where
  pub ignore : List ℕ
  pub source : Option ℕ
  pub flag : Option Text
  pub not_flag : Option Text

abbrev pub everyone : Filter
everyone = record { ignore = []; source = none; flag = none; not_flag = none }

abbrev pub only_flag : Text → Filter
only_flag f = record everyone { flag = some f }

abbrev pub ignoring : List ℕ → Filter
ignoring sids = record everyone { ignore = sids }

-- The `continue`s of the loop in `multicast`.
unfoldable pub receives : (ℕ → Client) → Filter → ℕ → Bool
receives client_at f sid =
    let c = client_at sid in
    c.logged_in
    && not (contains sid f.ignore)
    && elim f.source [
      | none ↦ true
      | some source ↦ not (contains (client_at source).user_id c.ignored)
    ]
    && elim f.flag [ none ↦ true | some flag ↦ has_flag c flag ]
    && elim f.not_flag [ none ↦ true | some flag ↦ not (has_flag c flag) ]

-- What `multicast` has sent when it ends: nothing to static clients.
unfoldable pub delivered : List ℕ → Message → Filter → Root → Root
delivered sids m f r = record r {
  sent =
      emit r.client_at
        (keep (λ sid. not (r.client_at sid).static) (keep (receives r.client_at f) sids)) m r.sent;
}

-- Static clients come last. The only one is ChanServ, whose `Send` takes no second argument, so that the
-- call of it with the command raises, once all others have the message.
unfoldable pub multicast : List ℕ → Message → Filter → Root → Outcome
unfolding delivered
multicast sids m f r =
    let s = delivered sids m f r in
    if any (λ sid. (r.client_at sid).static) (keep (receives r.client_at f) sids)
    then raised s
    else done s

-- A name that is no channel reaches every client. What `multicast` raises is logged, and what it has
-- sent stays sent.
unfoldable pub broadcast : Message → Option Text → Filter → Root → Root
unfolding delivered
broadcast m chan f r =
    delivered
      (elim chan [
        | none ↦ r.clients
        | some name ↦ elim (lookup name r.channels) [
          | none ↦ r.clients
          | some ref ↦ (r.channel_at ref).user_clients
        ]
      ])
      m f r

unfoldable pub broadcast_all : Message → Root → Root
unfolding broadcast
broadcast_all m = broadcast m none everyone

unfoldable pub broadcast_battle : Message → ℕ → Filter → Root → Outcome
unfolding multicast
broadcast_battle m battle_id f r = elim (lookup battle_id r.battles) [
  | none ↦ done r
  | some ref ↦ multicast (r.channel_at ref).user_clients m f r
]

unfoldable pub turn_enabled : Root → Bool
turn_enabled r = is_truthy r.turn_uri && is_truthy r.turn_secret

-- `'FAILED ' + _dictToTags({'msg':message, 'cmd':cmd})`
unfoldable pub out_failed : ℕ → String → Message → Root → Root
unfolding send
out_failed sid cmd message =
    send sid (lit "FAILED msg=" ∷ (message ++ (lit "\tcmd=" ∷ lit cmd ∷ [])))

unfoldable pub out_servermsg : ℕ → Message → Root → Root
unfolding send
out_servermsg sid message = send sid (lit "SERVERMSG " ∷ message)

unfoldable pub out_openbattlefailed : ℕ → Message → Root → Root
unfolding send
out_openbattlefailed sid reason = send sid (lit "OPENBATTLEFAILED " ∷ reason)
