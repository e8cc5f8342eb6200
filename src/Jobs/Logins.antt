-- ===== src/Jobs/Logins.antt =====
-- DataHandler.py: `login_backpressured`, `drain_login_queue`, and the part of `in_LOGIN` in
-- protocol/Protocol.py that puts a login into the queue. What a login does is the parameter `login`;
-- an exception in it is logged, and what it wrote stays.
use uberserver.Base.{
  ℕ, zero, suc, ◌≡◌, refl, sym, ap, subst, Bool, true, false, List, [], ◌∷◌, arith, if◌then◌else◌,
  ltb, nat_eq, length, Bool-cases, inl, inr, ◌⊎◌, ◌<◌, ◌≤◌,
}
use uberserver.Base.Dict.{contains}
use uberserver.Base.Text.{Text}
use uberserver.Server.Types.{Root}

pub record Waiting : Type 0 where
  pub session_id : ℕ
  pub msg_id : Text
  pub args : List Text

pub record Door : Type 0 where
  pub root : Root
  pub queue : List Waiting
  pub backpressured_clients : ℕ
  pub backpressure_limit : ℕ

unfoldable pub login_backpressured : Door → Bool
login_backpressured d = ltb d.backpressure_limit d.backpressured_clients

-- Whether the client of an entry is still connected.
unfoldable pub is_connected : Waiting → Door → Bool
is_connected w d = contains w.session_id d.root.clients

module _ (login : Waiting → Door → Door) where
  -- The body of the loop: the first entry is taken out, and logged in if its client is there.
  unfoldable pub serve : Waiting → List Waiting → Door → Door
  serve w rest d =
      let d1 = record d { queue = rest } in if is_connected w d1 then login w d1 else d1

  -- `while self.login_queue and not self.login_backpressured()`, on fuel.
  unfoldable pub drain : ℕ → Door → Door
  unfolding serve login_backpressured
  drain zero d = d
  drain (suc fuel) d = elim d.queue [
    | [] ↦ d
    | w ∷ rest ↦ if login_backpressured d then d else drain fuel (serve w rest d)
  ]

  -- Each round takes one entry, so that the length of the queue is enough.
  unfoldable pub drain_login_queue : Door → Door
  unfolding drain
  drain_login_queue d = drain (length d.queue) d

  -- What a drain is to do, as a relation between the door before and after: entries are taken from the
  -- front, each while the send path is free; a client that is connected is logged in, any other is left
  -- out; and it ends with nobody waiting or the send path under pressure.
  pub data Drained : Door → Door → Type 0 where
    ends :
        (d : Door) → (d.queue ≡ []) ⊎ (d.backpressure_limit < d.backpressured_clients) → Drained d d
    logs_in :
        (d s : Door) (w : Waiting) (rest : List Waiting)
        → d.queue ≡ w ∷ rest
        → d.backpressured_clients ≤ d.backpressure_limit
        → contains w.session_id d.root.clients ≡ true
        → Drained (login w (record d { queue = rest })) s
        → Drained d s
    leaves_out :
        (d s : Door) (w : Waiting) (rest : List Waiting)
        → d.queue ≡ w ∷ rest
        → d.backpressured_clients ≤ d.backpressure_limit
        → contains w.session_id d.root.clients ≡ false
        → Drained (record d { queue = rest }) s
        → Drained d s

  module _ (keeps_queue : (w : Waiting) (d : Door) → (login w d).queue ≡ d.queue) where
    serve-queue : (w : Waiting) (rest : List Waiting) (d : Door) → (serve w rest d).queue ≡ rest
    unfolding serve
    serve-queue w rest d = elim (Bool-cases (is_connected w (record d { queue = rest }))) [
      | inl there ↦ rw there (keeps_queue w (record d { queue = rest }))
      | inr gone ↦ rw gone refl
    ]

    nobody_waits : (d : Door) → d.queue ≡ [] → Drained d (drain 0 d)
    unfolding drain
    nobody_waits d e = ends d (inl e)

    pressure :
        (d : Door) → login_backpressured d ≡ true → d.backpressure_limit < d.backpressured_clients
    unfolding login_backpressured
    pressure d h = ground (arith, h)

    calm :
        (d : Door) → login_backpressured d ≡ false → d.backpressured_clients ≤ d.backpressure_limit
    unfolding login_backpressured
    calm d h = ground (arith, h)

    served :
        (w : Waiting) (rest : List Waiting) (d s : Door)
        → d.queue ≡ w ∷ rest
        → d.backpressured_clients ≤ d.backpressure_limit
        → Drained (serve w rest d) s
        → Drained d s
    unfolding serve is_connected
    served w rest d s e free more = elim (Bool-cases (contains w.session_id d.root.clients)) [
      | inl there ↦ logs_in d s w rest e free there (rw there at more)
      | inr left ↦ leaves_out d s w rest e free left (rw left at more)
    ]

    -- One round of the loop, where somebody waits.
    drain_round :
        (fuel : ℕ) (w : Waiting) (rest : List Waiting) (d : Door)
        → d.queue ≡ w ∷ rest
        → drain (suc fuel) d ≡ (if login_backpressured d then d else drain fuel (serve w rest d))
    unfolding drain
    drain_round fuel w rest d e =
        ap
          (λ (q : List Waiting). elim q [
            | [] ↦ d
            | v ∷ more ↦ if login_backpressured d then d else drain fuel (serve v more d)
          ])
          e

    drain-Drained : (q : List Waiting) (d : Door) → d.queue ≡ q → Drained d (drain (length q) d)
    drain-Drained [] d e = nobody_waits d e
    drain-Drained (w ∷ rest) d e =
        subst (Drained d) (sym (drain_round (length rest) w rest d e))
          (elim (Bool-cases (login_backpressured d)) [
            | inl pressed ↦ rw pressed (ends d (inr (pressure d pressed)))
            | inr free ↦ rw free (
                served w rest d (drain (length rest) (serve w rest d)) e (calm d free)
                  (drain-Drained rest (serve w rest d) (serve-queue w rest d)))
          ])

-- Where a login does not change the queue, one drain of it takes entries from the front while the send
-- path is free, logs in those whose clients are connected then and leaves out the others, and ends only
-- with nobody waiting or with the send path under pressure.
pub drain_login_queue-Drained :
    (login : Waiting → Door → Door)
    → ((w : Waiting) (d : Door) → (login w d).queue ≡ d.queue)
    → (d : Door) → Drained login d (drain_login_queue login d)
unfolding drain_login_queue
drain_login_queue-Drained login keeps_queue d = drain-Drained login keeps_queue d.queue d refl
