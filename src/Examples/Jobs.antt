-- ===== src/Examples/Jobs.antt =====
-- The theorems about the jobs of the server at small inputs.
use uberserver.Base.{
  ℕ, ◌≡◌, ◌+◌, refl, true, [], ◌∷◌, none, some, arith, inr, eqb, if◌then◌else◌, ◌≢◌, ◌<◌, nat_eq,
  Option,
}
use uberserver.Base.Dict.{contains, lookup, Dict}
use uberserver.Server.Types.{Root}
use uberserver.Server.Store.{client_from_id}
use uberserver.Server.Outcome.{after, each_channel}
use uberserver.Server.Accounts.{find_id}
use uberserver.Channel.Access.{person}
use uberserver.Channel.Penalties.{unmute_user, unmute_here}
use uberserver.Channel.Penalties.Mutes.{mute_in}
use uberserver.Jobs.Quotas.{decrement_times, lookup-decrement_times}
use uberserver.Jobs.Logins.{Waiting, Door, drain_login_queue, Drained, drain_login_queue-Drained}
use uberserver.Jobs.Workers.{
  Reply, returned, failed, is_transient, attempt, run_db, commits, run_db-attempt,
}
use uberserver.Jobs.Timeouts.{expired, unmute_expired}
use uberserver.Jobs.Timeouts.Lifted.{unmute_expired_lifts}
use uberserver.Examples.{world, main, cid, some_penalty}
use uberserver.Examples.Robots.{no_accounts}

abbrev quotas : Dict ℕ ℕ
quotas = (7, 3) ∷ (9, 1) ∷ []

three_is_some : ◌≢◌ {A = Option ℕ} (some 3) (some 0)
three_is_some h = cc

lookup-decrement_times_example : lookup 7 (decrement_times 2 quotas) ≡ some 1
unfolding lookup
lookup-decrement_times_example = lookup-decrement_times 2 7 quotas (refl, (refl, tt)) three_is_some

abbrev second_time : ℕ → Reply ℕ
second_time n = if eqb n 0 then failed (some 1213) else returned 5

first_fails : (m : ℕ) → m < 1 → is_transient (attempt (second_time m) none) ≡ true
unfolding is_transient contains attempt
first_fails m lt = ground arith

abbrev no_error : ℕ → Option (Option ℕ)
no_error n = none

run_db-attempt_example :
    ((run_db second_time no_error).0 ≡ returned 5) × (commits (run_db second_time no_error).1 ≡ 1)
unfolding is_transient attempt
run_db-attempt_example = run_db-attempt second_time no_error 1 (omega arith) first_fails (inr refl)

abbrev counting : Waiting → Door → Door
counting w d = record d { root = record d.root { now = d.root.now + w.session_id } }

abbrev someone_waits : Door
someone_waits = record {
  root = world;
  queue =
      record { session_id = 2; msg_id = []; args = [] }
      ∷ record { session_id = 8; msg_id = []; args = [] }
      ∷ [];
  backpressured_clients = 3;
  backpressure_limit = 50;
}

drain_login_queue-Drained_example :
    Drained counting someone_waits (drain_login_queue counting someone_waits)
drain_login_queue-Drained_example = drain_login_queue-Drained counting (λ w d. refl) someone_waits

abbrev muted_world : Root
muted_world = record world {
  now = 1000;
  channel_at = λ _. record main { mutelist = (103, some_penalty) ∷ []; forwards = [] };
}

unmute_expired_lifts_example :
    mute_in (after (unmute_expired 2 no_accounts 0 (103 ∷ []) muted_world)) 0 103 ≡ none
unfolding find_id client_from_id lookup expired unmute_expired unmute_user unmute_here each_channel
unmute_expired_lifts_example =
    unmute_expired_lifts 1 no_accounts 0 103 (person cid) some_penalty muted_world
      (after (unmute_expired 2 no_accounts 0 (103 ∷ []) muted_world)) refl refl refl (omega arith)
      refl
