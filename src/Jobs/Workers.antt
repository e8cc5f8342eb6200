-- ===== src/Jobs/Workers.antt =====
-- DataHandler.py: `_run_db`, a database call on another thread, tried again when it lost a race.
use uberserver.Base.{
  ℕ, zero, suc, ◌+◌, ◌≤◌, ◌<◌, ◌≡◌, refl, ◌∙◌, ap, Bool, true, false, List, [], ◌∷◌, ◌++◌, Option,
  none, some, arith, if◌then◌else◌, nat_eq, inl, inr, ◌⊎◌,
}
use native.Mathlib.Nat.{add-zero}
use uberserver.Base.Dict.{contains}

-- How a call ends: with its result, or with an exception, by the error number of the database if it
-- has one.
pub data Reply {ℓ} (A : Type ℓ) : Type ℓ where
  returned : A → Reply A
  failed : Option ℕ → Reply A

-- What `_run_db` does to the session, and its waits, in hundredths of a second; a commit that raises
-- leaves nothing committed.
pub data Effect : Type 0 where
  commit failed_commit rollback close : Effect
  sleep : ℕ → Effect

abbrev pub retry_errnos : List ℕ
retry_errnos = 1213 ∷ 1205 ∷ 1020 ∷ []

abbrev pub max_attempts : ℕ
max_attempts = 4

abbrev pub commits : List Effect → ℕ
commits [] = 0
commits (commit ∷ log) = suc (commits log)
commits (failed_commit ∷ log) = commits log
commits (rollback ∷ log) = commits log
commits (close ∷ log) = commits log
commits (sleep _ ∷ log) = commits log

commits-append : (log more : List Effect) → commits (log ++ more) ≡ commits log + commits more
commits-append [] more = omega arith
commits-append (commit ∷ log) more = omega (arith, commits-append log more)
commits-append (failed_commit ∷ log) more = commits-append log more
commits-append (rollback ∷ log) more = commits-append log more
commits-append (close ∷ log) more = commits-append log more
commits-append (sleep _ ∷ log) more = commits-append log more

module _ {ℓ} {A : Type ℓ} where
  -- An exception that another attempt may not meet.
  unfoldable pub is_transient : Reply A → Bool
  unfolding contains
  is_transient (returned _) = false
  is_transient (failed none) = false
  is_transient (failed (some errno)) = contains errno retry_errnos

  -- What is inside of the `try`: the call, and the commit where it returned. `commit_error` is the
  -- exception that the commit meets, if it meets one.
  unfoldable pub attempt : Reply A → Option (Option ℕ) → Reply A
  attempt (failed errno) commit_error = failed errno
  attempt (returned a) none = returned a
  attempt (returned a) (some errno) = failed errno

  -- What it does to the session.
  unfoldable pub tried : Reply A → Option (Option ℕ) → List Effect
  tried (failed errno) commit_error = []
  tried (returned a) none = commit ∷ []
  tried (returned a) (some errno) = failed_commit ∷ []

  -- The last attempt, or one that is not tried again.
  abbrev finish : Reply A → List Effect → Reply A × List Effect
  finish (returned a) log = (returned a, log ++ (close ∷ []))
  finish (failed errno) log = (failed errno, log ++ (rollback ∷ close ∷ []))

  -- The loop from attempt number `n` on, with `left` attempts to come after it; `finally` closes the
  -- session a second time before the next attempt. `fn n` is what the call gives at attempt n, and
  -- `commit_error n` what its commit meets.
  unfoldable pub run_from :
      (ℕ → Reply A) → (ℕ → Option (Option ℕ)) → ℕ → ℕ → List Effect → Reply A × List Effect
  unfolding is_transient attempt tried
  run_from fn commit_error zero n log =
      finish (attempt (fn n) (commit_error n)) (log ++ tried (fn n) (commit_error n))
  run_from fn commit_error (suc left) n log =
      let now = log ++ tried (fn n) (commit_error n) in
      let again =
        run_from fn commit_error left (suc n)
          (now ++ (rollback ∷ close ∷ sleep (n + 1) ∷ close ∷ [])) in
      let reply = attempt (fn n) (commit_error n) in
      if is_transient reply then again else finish reply now

  unfoldable pub run_db : (ℕ → Reply A) → (ℕ → Option (Option ℕ)) → Reply A × List Effect
  unfolding run_from
  run_db fn commit_error = run_from fn commit_error 3 0 []

  abbrev pub commits_of : Reply A → ℕ
  commits_of (returned _) = 1
  commits_of (failed _) = 0

  finish_lem :
      (a : Reply A) (log : List Effect)
      → ((finish a log).0 ≡ a) × (commits (finish a log).1 ≡ commits log)
  finish_lem (returned a) log = (refl, omega (arith, commits-append log (close ∷ [])))
  finish_lem (failed e) log = (refl, omega (arith, commits-append log (rollback ∷ close ∷ [])))

  -- Only an attempt that returns has committed.
  commits-tried :
      (a : Reply A) (error : Option (Option ℕ))
      → commits (tried a error) ≡ commits_of (attempt a error)
  unfolding tried attempt
  commits-tried (failed errno) error = refl
  commits-tried (returned a) none = refl
  commits-tried (returned a) (some errno) = refl

  transient-commits_of : (a : Reply A) → is_transient a ≡ true → commits_of a ≡ 0
  unfolding is_transient
  transient-commits_of (returned a) h = absurd (ground (arith, h))
  transient-commits_of (failed e) h = refl

  module _ (fn : ℕ → Reply A) (commit_error : ℕ → Option (Option ℕ)) where
    abbrev reply_at : ℕ → Reply A
    reply_at n = attempt (fn n) (commit_error n)

    -- From attempt n on, k of them being tried again.
    run_from_lem :
        (left n k : ℕ) (log : List Effect)
        → k ≤ left
        → ((m : ℕ) → m < k → is_transient (reply_at (n + m)) ≡ true)
        → (k ≡ left) ⊎ (is_transient (reply_at (n + k)) ≡ false)
        → ((run_from fn commit_error left n log).0 ≡ reply_at (n + k))
          × (commits (run_from fn commit_error left n log).1
              ≡ commits log + commits_of (reply_at (n + k)))
    unfolding run_from
    run_from_lem zero n k log le before last =
        let e : k ≡ 0 = omega arith in
        let (same, count) = finish_lem (reply_at n) (log ++ tried (fn n) (commit_error n)) in
        rw e (
          rw add-zero (
            same,
            omega (
              arith,
              count,
              commits-append log (tried (fn n) (commit_error n)),
              commits-tried (fn n) (commit_error n),
            ),
          ))
    run_from_lem (suc left) n zero log le before last = elim last [
      | inl wrong ↦ absurd (omega arith)
      | inr stop ↦
          let (same, count) = finish_lem (reply_at n) (log ++ tried (fn n) (commit_error n)) in
          rw add-zero (
            rw (rw add-zero at stop) (
              same,
              omega (
                arith,
                count,
                commits-append log (tried (fn n) (commit_error n)),
                commits-tried (fn n) (commit_error n),
              ),
            ))
    ]
    run_from_lem (suc left) n (suc k) log le before last =
        let shift = λ (m : ℕ). (let e : suc n + m ≡ n + suc m = omega arith in e) in
        let first : is_transient (reply_at n) ≡ true = rw add-zero at (before 0 (omega arith)) in
        let now = log ++ tried (fn n) (commit_error n) in
        let retried = rollback ∷ close ∷ sleep (n + 1) ∷ close ∷ [] in
        let later =
          run_from_lem left (suc n) k (now ++ retried) (omega arith)
            (λ m lt. rw (shift m) (before (suc m) (omega arith)))
            (elim last [ inl e ↦ inl (omega arith) | inr stop ↦ inr (rw (shift k) stop) ]) in
        rw first (
          later.0 ∙ ap reply_at (shift k),
          later.1
              ∙ omega (
                arith,
                commits-append now retried,
                commits-append log (tried (fn n) (commit_error n)),
                commits-tried (fn n) (commit_error n),
                transient-commits_of (reply_at n) first,
                ap (λ (m : ℕ). commits_of (reply_at m)) (shift k),
              ),
        )

  -- `_run_db` ends as its attempt k ends, an attempt being the call and then the commit: where all
  -- attempts before it met an exception that may pass and it is the last of the four or met none such.
  -- The result is that of attempt k, and one commit has been done if that returned and none otherwise.
  pub run_db-attempt :
      (fn : ℕ → Reply A) (commit_error : ℕ → Option (Option ℕ)) (k : ℕ)
      → k < max_attempts
      → ((m : ℕ) → m < k → is_transient (attempt (fn m) (commit_error m)) ≡ true)
      → (k ≡ 3) ⊎ (is_transient (attempt (fn k) (commit_error k)) ≡ false)
      → ((run_db fn commit_error).0 ≡ attempt (fn k) (commit_error k))
        × (commits (run_db fn commit_error).1 ≡ commits_of (attempt (fn k) (commit_error k)))
  unfolding run_db
  run_db-attempt fn commit_error k lt before last =
      let zero_add = λ (m : ℕ). (let e : 0 + m ≡ m = omega arith in e) in
      let all =
        run_from_lem fn commit_error 3 0 k [] (omega arith) (λ m l. rw (zero_add m) (before m l))
          (elim last [ inl e ↦ inl e | inr stop ↦ inr (rw (zero_add k) stop) ]) in
      (
        all.0 ∙ ap (reply_at fn commit_error) (zero_add k),
        all.1 ∙ omega (arith, ap (λ (m : ℕ). commits_of (reply_at fn commit_error m)) (zero_add k)),
      )
