-- ===== src/Core/Retry/Outcome.antt =====
-- app/core/retry.py: what holds after `retry_async`, by how it ended.
use txn_event_processor.Prelude.{ℕ, ◌≤◌, ◌≡◌, Bool, Option}
use mathlib.Core.Path.{subst}
use txn_event_processor.Core.Errors.{Exn}
use txn_event_processor.Core.Retry.{Timer, OnRetry, pause, retry_async}
use txn_event_processor.Core.Retry.Laws.{
  Runs, returned, refused, exhausted, interrupted, again, retry_async-Runs,
}
use txn_event_processor.Action.{Action, Result, ok, err}
use txn_event_processor.Action.Keeps.{Keeps}
use txn_event_processor.Action.Triple.{After, Triple}

module _ {W A : Type 0} (t : Timer W) (fn : Action W A) (attempts base_delay max_delay : ℕ)
    (retry_on : Exn → Bool) (on_retry : Option (OnRetry W)) (P : W → Type 0) (Q : A → W → Type 0)
    (once : Triple P fn Q (λ e v. P v))
    (wait : (k : ℕ) (e : Exn) → Keeps P (pause t base_delay max_delay on_retry k e)) where
  After-call : (w v : W) (r : Result A) → P w → fn w ≡ (r, v) → After Q (λ e v. P v) r v
  After-call w v r h p = subst (λ z. After Q (λ e v. P v) z.0 z.1) p (once.at w h)

  after_pause :
      (k : ℕ) (e : Exn) (w v : W) (r : Result (Unit {0}))
      → P w
      → pause t base_delay max_delay on_retry k e w ≡ (r, v)
      → P v
  after_pause k e w v r h p = subst (λ z. P z.1) p ((wait k e).at w h)

  Runs-After :
      {n k : ℕ} {w v : W} {r : Result A}
      → Runs fn retry_on (pause t base_delay max_delay on_retry) n k w r v
      → P w
      → After Q (λ e v. P v) r v
  Runs-After (returned {w} {v} a p) h = After-call w v (ok a) h p
  Runs-After (refused {w} {v} e p q) h = After-call w v (err e) h p
  Runs-After (exhausted {w} {v} e z p q) h = After-call w v (err e) h p
  Runs-After (interrupted {k} {w} {u} {v} e x p q s) h =
      after_pause k e u v (err x) (After-call w u (err e) h p) s
  Runs-After (again {k} {w} {u} {v} e p q s rest) h =
      Runs-After rest (after_pause k e u v (ok tt) (After-call w u (err e) h p) s)

  pub retry_async-Triple :
      1 ≤ attempts
      → Triple P (retry_async t fn attempts base_delay max_delay retry_on on_retry) Q (λ e v. P v)
  retry_async-Triple le = record {
    at = λ w h.
        Runs-After (retry_async-Runs t fn attempts base_delay max_delay retry_on on_retry w le) h;
  }
