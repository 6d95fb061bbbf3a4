-- ===== src/Core/Retry/Keeps.antt =====
-- app/core/retry.py: `retry_async` and properties of the state.
use mathlib.Core.Path.{subst}
use txn_event_processor.Prelude.{ℕ, ◌≤◌, Bool, Option}
use txn_event_processor.Core.Errors.{Exn}
use txn_event_processor.Core.Retry.{
  Timer, OnRetry, pause, compute_delay, delay_ceiling, call_on_retry, retry_async,
}
use txn_event_processor.Core.Retry.Laws.{
  Runs, returned, refused, exhausted, interrupted, again, retry_async-Runs,
}
use txn_event_processor.Action.{Action, Result}
use txn_event_processor.Action.Keeps.{Keeps, >>=-Keeps}

module _ {W A : Type 0} (P : W → Type 0) (t : Timer W) (fn : Action W A)
    (attempts base_delay max_delay : ℕ) (retry_on : Exn → Bool) (on_retry : Option (OnRetry W))
    (uniform : (lo hi : ℕ) → Keeps P (t.uniform lo hi)) (sleep : (d : ℕ) → Keeps P (t.sleep d))
    (call : (k : ℕ) (e : Exn) (d : ℕ) → Keeps P (call_on_retry on_retry k e d))
    (keep : Keeps P fn) where
  pause-Keeps : (k : ℕ) (e : Exn) → Keeps P (pause t base_delay max_delay on_retry k e)
  unfolding pause compute_delay
  pause-Keeps k e =
      >>=-Keeps P _ _ (uniform 0 (delay_ceiling k base_delay max_delay))
        λ d. >>=-Keeps P _ _ (call k e d) λ _. sleep d

  kept_by_run :
      {n k : ℕ} {w v : W} {r : Result A}
      → Runs fn retry_on (pause t base_delay max_delay on_retry) n k w r v
      → P w
      → P v
  kept_by_run (returned {w} a p) h = subst (λ x. P x.1) p (keep.at w h)
  kept_by_run (refused {w} e p q) h = subst (λ x. P x.1) p (keep.at w h)
  kept_by_run (exhausted {w} e z p q) h = subst (λ x. P x.1) p (keep.at w h)
  kept_by_run (interrupted {k} {w} {u} e x p q s) h =
      subst (λ y. P y.1) s ((pause-Keeps k e).at u (subst (λ y. P y.1) p (keep.at w h)))
  kept_by_run (again {k} {w} {u} e p q s rest) h =
      kept_by_run rest
        (subst (λ y. P y.1) s ((pause-Keeps k e).at u (subst (λ y. P y.1) p (keep.at w h))))

  pub retry_async-Keeps :
      1 ≤ attempts → Keeps P (retry_async t fn attempts base_delay max_delay retry_on on_retry)
  retry_async-Keeps h = record {
    at = λ w q.
        kept_by_run (retry_async-Runs t fn attempts base_delay max_delay retry_on on_retry w h) q;
  }
