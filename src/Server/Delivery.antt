-- ===== src/Server/Delivery.antt =====
-- Who receives what `multicast` and `broadcast` of DataHandler.py send.
use uberserver.Base.{
  ℕ, ◌⊎◌, ◌≡◌, refl, ◌&&◌, not, List, [], ◌∷◌, arith, eqb, eqb_iff, if◌then◌else◌, nat_eq, text_eq,
  keep,
}
use uberserver.Base.Dict.{contains, Distinct, contains-keep, keep-Distinct}
use uberserver.Server.Types.{Root, Client, Message, Sent, txt}
use uberserver.Server.Cast.{send, Filter, receives, emit, delivered}

-- The messages sent to a client, newest first.
unfoldable pub received : ℕ → List Sent → List Message
received x [] = []
received x (s ∷ log) = let rest = received x log in if eqb x s.to then s.message ∷ rest else rest

-- At most one message is sent, to this client, and nothing else differs.
abbrev pub Answered : ℕ → Root → Root → Type 0
Answered sid r s = (s ≡ r) ⊎ ((m : Message) × (s ≡ send sid m r))

-- A message as it reaches a client, behind the id of the command that the client waits for.
abbrev pub stamped : (ℕ → Client) → ℕ → Message → Message
stamped client_at x m = txt (client_at x).msg_id ∷ m

received-emit :
    (client_at : ℕ → Client) (x : ℕ) (sids : List ℕ) (m : Message) (log : List Sent)
    → Distinct sids
    → received x (emit client_at sids m log)
      ≡ (if contains x sids then stamped client_at x m ∷ received x log else received x log)
unfolding emit received contains
received-emit client_at x [] m log h = refl
received-emit client_at x (sid ∷ sids) m log h = ground (
  arith,
  eqb_iff x sid,
  received-emit client_at x sids m (record { to = sid; message = stamped client_at sid m } ∷ log)
      h.1,
)

-- Each client that `multicast` goes to, that is not static and that the filter lets through gets the
-- message once; nobody else gets anything.
pub received-delivered :
    (x : ℕ) (sids : List ℕ) (m : Message) (f : Filter) (r : Root)
    → Distinct sids
    → received x (delivered sids m f r).sent ≡ (
        if contains x sids && receives r.client_at f x && not (r.client_at x).static
        then stamped r.client_at x m ∷ received x r.sent
        else received x r.sent)
unfolding delivered
received-delivered x sids m f r h =
    let targets = keep (receives r.client_at f) sids in
    let few = keep-Distinct (receives r.client_at f) sids h in
    let is_plain = λ (sid : ℕ). not (r.client_at sid).static in
    ground (
      arith,
      received-emit r.client_at x (keep is_plain targets) m r.sent
          (keep-Distinct is_plain targets few),
      contains-keep is_plain x targets,
      contains-keep (receives r.client_at f) x sids,
    )
