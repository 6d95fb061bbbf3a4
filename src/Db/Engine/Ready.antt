-- ===== src/Db/Engine/Ready.antt =====
-- app/db/engine.py: what it means that `wait_until_ready` returns.
use txn_event_processor.Prelude.{Bool-cases, ℕ, ◌≤◌, ◌≡◌, Bool, arith, none, inl, inr}
use txn_event_processor.Core.Errors.{Exn, is_database_unavailable}
use txn_event_processor.Core.Retry.{Timer, pause}
use txn_event_processor.Core.Retry.Laws.{
  Runs, returned, refused, exhausted, interrupted, again, retry_async-Runs,
}
use txn_event_processor.Action.{Action, Result, ok, run-cases}
use txn_event_processor.Db.Errors.{is_db_exception}
use txn_event_processor.Db.Engine.{probe, wait_until_ready}

-- A run that returns ends with a call of `fn` that returned.
Runs-ok :
    {W A : Type 0} (fn : Action W A) (retry_on : Exn → Bool) (wait : ℕ → Exn → Action W (Unit {0}))
    {n k : ℕ} {w x : W} {r : Result A}
    → Runs fn retry_on wait n k w r x
    → (a : A) → r ≡ ok a
    → (u : W) × (fn u ≡ (ok a, x))
Runs-ok fn retry_on wait {w = w} (returned b p) a e = (w, ground arith)
Runs-ok fn retry_on wait (refused y p q) a e = absurd (ground arith)
Runs-ok fn retry_on wait (exhausted y m p q) a e = absurd (ground arith)
Runs-ok fn retry_on wait (interrupted y z p q s) a e = absurd (ground arith)
Runs-ok fn retry_on wait (again y p q s more) a e = Runs-ok fn retry_on wait more a e

module _ {W : Type 0} (t : Timer W) (select_one : Action W (Unit {0})) where
  probe_ok : (u v : W) → probe t select_one u ≡ (ok tt, v) → select_one u ≡ (ok tt, v)
  unfolding probe
  probe_ok u v h = elim (run-cases select_one u) [
    | inl (_, x, p) ↦ ground arith
    | inr (e, x, p) ↦ elim (Bool-cases (is_db_exception e)) [
      | inl q ↦ absurd (ground arith)
      | inr q ↦ absurd (ground arith)
    ]
  ]

  -- If `wait_until_ready` returns, with at least one attempt, then its last act was a query of the
  -- table that succeeded: the state that it leaves is the one in which that query returned.
  pub wait_until_ready_returns :
      (max_delay attempts base_delay : ℕ) (w : W)
      → 1 ≤ attempts
      → (wait_until_ready t select_one max_delay attempts base_delay w).0 ≡ ok tt
      → (u : W) × (select_one u
          ≡ (ok tt, (wait_until_ready t select_one max_delay attempts base_delay w).1))
  unfolding wait_until_ready
  wait_until_ready_returns max_delay attempts base_delay w one h =
      let run =
        retry_async-Runs t (probe t select_one) attempts base_delay max_delay
          is_database_unavailable none w one in
      let (u, p) =
        Runs-ok (probe t select_one) is_database_unavailable (pause t base_delay max_delay none) run
          tt h in
      (u, probe_ok u _ p)
