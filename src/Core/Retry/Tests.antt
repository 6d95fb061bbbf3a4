-- ===== src/Core/Retry/Tests.antt =====
-- `retry_async` at a service that is down for a number of calls.
use txn_event_processor.Prelude.{
  String, ℕ, zero, suc, ◌+◌, ◌-◌, ◌≡◌, refl, true, none, List, [], ◌∷◌, ◌++◌, length, arith, ◌≤◌,
}
use txn_event_processor.Action.{Action, ok, err}
use txn_event_processor.Core.Errors.{Exn, transient_error, is_transient, value_error}
use txn_event_processor.Core.Retry.{
  Timer, IsUniform, pause, retry_async, retry_loop, compute_delay, call_on_retry, delay_ceiling,
}
use txn_event_processor.Core.Retry.Laws.{Runs, retry_async-Runs}
use txn_event_processor.Core.Retry.Recovery.{IsOutage, retry_async_recovers, retry_async_gives_up}
use txn_event_processor.Core.Config.{default_settings}
use txn_event_processor.Core.Retry.Delays.{
  total, worst_case, IsBackoff, IsSleepLog, retry_async-sleeps,
}

-- The calls that will fail, and the sleeps so far.
abbrev Outage : Type 0
Outage = ℕ × List ℕ

abbrev call_service : Action Outage ℕ
call_service (zero, slept) = (ok 42, (zero, slept))
call_service (suc n, slept) = (err (transient_error "down"), (n, slept))

-- The longest jitter, as the tests of the program pin it.
abbrev longest : Timer Outage
longest = record { uniform = λ lo hi w. (ok hi, w); sleep = λ d w. (ok tt, (w.0, w.1 ++ d ∷ [])) }

longest-IsUniform : IsUniform longest
longest-IsUniform lo hi d w le e = ground arith

answers_lem : (w : Outage) → w.0 ≡ 0 → (a : ℕ) × (v : Outage) × (call_service w ≡ (ok a, v))
answers_lem (zero, slept) e = (42, (zero, slept), refl)
answers_lem (suc n, slept) e = absurd (omega arith)

fails_lem :
    (w : Outage) (n : ℕ)
    → w.0 ≡ suc n
    → (x : Exn) × (v : Outage) × (call_service w ≡ (err x, v)) × (is_transient x ≡ true) × (v.0 ≡ n)
unfolding is_transient
fails_lem (zero, slept) n e = absurd (omega arith)
fails_lem (suc m, slept) n e = (transient_error "down", (m, slept), refl, refl, omega arith)

outage : IsOutage call_service is_transient (pause longest 20 100 none) (λ w. w.0)
unfolding pause compute_delay call_on_retry delay_ceiling
outage = record {
  answers = answers_lem;
  fails = fails_lem;
  waits = λ k x w. ((w.0, w.1 ++ delay_ceiling k 20 100 ∷ []), refl, refl);
}

call_keeps : (w : Outage) → (call_service w).1.1 ≡ w.1
call_keeps (zero, slept) = refl
call_keeps (suc n, slept) = refl

sleep_log : IsSleepLog longest call_service none (λ w. w.1)
unfolding call_on_retry
sleep_log = record {
  fn_keeps = call_keeps;
  uniform_keeps = λ lo hi w. refl;
  on_retry_keeps = λ k x d w. refl;
  sleep_adds = λ d w. refl;
}

two_failures :
    retry_async longest call_service 4 20 100 is_transient none (2, []) ≡ (ok 42, (0, 20 ∷ 40 ∷ []))
unfolding retry_async retry_loop pause compute_delay call_on_retry delay_ceiling is_transient
two_failures = refl

no_attempts :
    retry_async longest call_service 0 20 100 is_transient none (2, [])
    ≡ (err (value_error "retry_async requires attempts >= 1"), (2, []))
unfolding retry_async
no_attempts = refl

retry_async-Runs_example :
    Runs call_service is_transient
      (pause longest 20 100 none)
      3
      1
      (2, [])
      (retry_async longest call_service 4 20 100 is_transient none (2, [])).0
      (retry_async longest call_service 4 20 100 is_transient none (2, [])).1
retry_async-Runs_example =
    retry_async-Runs longest call_service 4 20 100 is_transient none (2, []) (omega arith)

retry_async_recovers_example :
    (a : ℕ) × (v : Outage) × (retry_async longest call_service 4 20 100 is_transient none (2, [])
      ≡ (ok a, v))
retry_async_recovers_example =
    retry_async_recovers longest call_service 4 20 100 is_transient none (λ w. w.0) outage (2, [])
      (omega arith)

retry_async_gives_up_example :
    (x : Exn) × (v : Outage) × (retry_async longest call_service 4 20 100 is_transient none (9, [])
      ≡ (err x, v))
    × (is_transient x ≡ true)
    × (v.0 + 4 ≡ 9)
retry_async_gives_up_example =
    retry_async_gives_up longest call_service 4 20 100 is_transient none (λ w. w.0) outage (9, [])
      (omega arith) (omega arith)

retry_async-sleeps_example :
    (ds : List ℕ) × ((retry_async longest call_service 4 20 100 is_transient none (9, [])).1.1
      ≡ [] ++ ds)
    × (length ds ≤ 4 - 1)
    × IsBackoff 20 100 1 ds
    × (total ds ≤ worst_case 20 100 (4 - 1) 1)
retry_async-sleeps_example =
    retry_async-sleeps longest call_service 4 20 100 is_transient none (λ w. w.1) longest-IsUniform
      sleep_log (9, []) (omega arith)

-- With the default settings the retries of one lookup or insert sleep 1.4 seconds at most, and those at
-- the start of the worker 87 seconds.
event_budget :
    (host : String)
    → let s = default_settings host in
      worst_case s.retry_base_delay_s s.retry_max_delay_s (s.rate_attempts - 1) 1 ≡ 1400
unfolding default_settings delay_ceiling
event_budget host = refl

startup_budget :
    (host : String)
    → let s = default_settings host in
      worst_case s.db_startup_base_delay_s 5000 (s.db_startup_attempts - 1) 1 ≡ 87000
unfolding default_settings delay_ceiling
startup_budget host = refl
