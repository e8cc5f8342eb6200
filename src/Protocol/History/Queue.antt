-- ===== src/Protocol/History/Queue.antt =====
-- The order in which the messages of a channel reach the database, over the history queue of
-- protocol/Protocol.py: its events as a relation.
use uberserver.Base.{
  ℕ, suc, ◌≤◌, ◌≡◌, refl, ◌∙◌, ap, Bool, true, false, List, [], ◌∷◌, ◌++◌, Option, none, some,
  arith, if◌then◌else◌, leb, length, length-append, append_assoc, map,
}
use mathlib.Core.List.{map-append}
use uberserver.Protocol.History.{
  Stored, Backlog, pump_channel_store, enqueue_channel_store, channel_store_over, has_room,
  channel_store_max,
}

-- The backlog with its past: the messages that were taken, and those that the database is done with,
-- each with whether it was stored.
pub record Past : Type 0 where
  pub now : Backlog
  pub taken : List Stored
  pub settled : List (Stored × Bool)

abbrev pub start : Past
start = record {
  now = record { history_queue = []; history_inflight = none };
  taken = [];
  settled = [];
}

-- A message is said, or the database answers about the one that is with it.
pub data Step : Past → Past → Type 0 where
  say_taken :
      (p : Past) (m : Stored)
      → has_room p.now ≡ true
      → Step p (record p { now = enqueue_channel_store m p.now; taken = p.taken ++ (m ∷ []) })
  say_dropped :
      (p : Past) (m : Stored)
      → has_room p.now ≡ false
      → Step p (record p { now = enqueue_channel_store m p.now })
  answer :
      (p : Past) (m : Stored) (stored : Bool)
      → p.now.history_inflight ≡ some m
      → Step p
          (record p { now = channel_store_over p.now; settled = p.settled ++ ((m, stored) ∷ []) })

pub data Reach : Past → Type 0 where
  here : Reach start
  next : {p q : Past} → Reach p → Step p q → Reach q

abbrev pub in_flight : Option Stored → List Stored
in_flight none = []
in_flight (some m) = m ∷ []

abbrev pub message_of : Stored × Bool → Stored
message_of (m, _) = m

-- What is settled, what is with the database and what waits are the messages taken, in their order;
-- nothing waits while the database is idle; and the queue is within its limit.
pub record InOrder (p : Past) : Type 0 where
  pub order :
      map message_of p.settled ++ (in_flight p.now.history_inflight ++ p.now.history_queue)
      ≡ p.taken
  pub busy : p.now.history_inflight ≡ none → p.now.history_queue ≡ []
  pub bounded : length p.now.history_queue ≤ channel_store_max

-- A pump keeps what is in flight and waits, in order, and leaves nothing waiting for an idle database.
pump-all :
    (b : Backlog)
    → (in_flight (pump_channel_store b).history_inflight ++ (pump_channel_store b).history_queue
        ≡ in_flight b.history_inflight ++ b.history_queue)
      × (length (pump_channel_store b).history_queue ≤ length b.history_queue)
unfolding pump_channel_store
pump-all b = ground arith

pump-busy :
    (b : Backlog)
    → (pump_channel_store b).history_inflight ≡ none
    → (pump_channel_store b).history_queue ≡ []
unfolding pump_channel_store
pump-busy b h = ground arith

enqueue-room :
    (m : Stored) (b : Backlog)
    → has_room b ≡ true
    → enqueue_channel_store m b
      ≡ pump_channel_store (record b { history_queue = b.history_queue ++ (m ∷ []) })
unfolding enqueue_channel_store
enqueue-room m b h = rw (h, enqueue_channel_store) refl

enqueue-full : (m : Stored) (b : Backlog) → has_room b ≡ false → enqueue_channel_store m b ≡ b
unfolding enqueue_channel_store
enqueue-full m b h = rw (h, enqueue_channel_store) refl

room-lt :
    (n : ℕ) → (if leb channel_store_max n then false else true) ≡ true → suc n ≤ channel_store_max
room-lt n h = ground arith

regroup :
    (xs ys zs : List Stored) (m : Stored)
    → xs ++ (ys ++ (zs ++ (m ∷ []))) ≡ (xs ++ (ys ++ zs)) ++ (m ∷ [])
regroup xs ys zs m = simp append_assoc

Step-InOrder : {p q : Past} → Step p q → InOrder p → InOrder q
Step-InOrder (say_taken p m room) h =
    let q = p.now.history_queue in
    let b = record p.now { history_queue = q ++ (m ∷ []) } in
    rw (enqueue-room m p.now room) (record {
      order =
          ap (λ (xs : List Stored). map message_of p.settled ++ xs) (pump-all b).0
          ∙ regroup (map message_of p.settled) (in_flight p.now.history_inflight) q m
          ∙ ap (λ (xs : List Stored). xs ++ (m ∷ [])) h.order;
      busy = pump-busy b;
      bounded = omega (arith, (pump-all b).1, length-append q (m ∷ []), room-lt (length q) room);
    })
Step-InOrder (say_dropped p m full) h =
    rw (enqueue-full m p.now full) (record { order = h.order; busy = h.busy; bounded = h.bounded })
Step-InOrder (answer p m stored e) h =
    let b = record p.now { history_inflight = none } in
    let q = p.now.history_queue in
    unfold channel_store_over in
    record {
      order =
          ap (λ (xs : List Stored). map message_of (p.settled ++ ((m, stored) ∷ [])) ++ xs)
            (pump-all b).0
          ∙ (rw map-append (rw append_assoc (rw e at h.order)));
      busy = pump-busy b;
      bounded = omega (arith, (pump-all b).1, h.bounded);
    }

start-InOrder : InOrder start
start-InOrder = record { order = refl; busy = λ _. refl; bounded = omega arith }

-- However messages are said and the database answers, storing them or failing: the messages that the
-- database is done with, the one that is with it and those that wait are the ones that were taken, in
-- the order in which they were said; nothing waits while the database is idle, so that no message is
-- ever stuck; and never more than the limit wait.
pub Reach-InOrder : {p : Past} → Reach p → InOrder p
Reach-InOrder here = start-InOrder
Reach-InOrder (next r s) = Step-InOrder s (Reach-InOrder r)
