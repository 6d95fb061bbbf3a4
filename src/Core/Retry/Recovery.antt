-- ===== src/Core/Retry/Recovery.antt =====
-- How `retry_async` meets an outage that lasts for a number of calls.
use txn_event_processor.Prelude.{
  ℕ, zero, suc, ◌+◌, ◌-◌, ◌≤◌, ◌<◌, ◌≡◌, refl, ◌∙◌, Bool, true, Option, arith,
}
use txn_event_processor.Core.Errors.{Exn}
use txn_event_processor.Core.Retry.{Timer, OnRetry, pause, retry_loop, retry_async}
use txn_event_processor.Core.Retry.Laws.{loop-again, loop-last, loop-returned, retry_async-eq-loop}
use txn_event_processor.Action.{Action, ok, err}

-- `down w` calls of `fn` will still fail with a retryable error; then it answers. Waiting returns and
-- does not change that.
pub record IsOutage {W A : Type 0} (fn : Action W A) (retry_on : Exn → Bool)
    (wait : ℕ → Exn → Action W (Unit {0})) (down : W → ℕ) : Type 0 where
  pub answers : (w : W) → down w ≡ 0 → (a : A) × (v : W) × (fn w ≡ (ok a, v))
  pub fails :
      (w : W) (n : ℕ)
      → down w ≡ suc n
      → (x : Exn) × (v : W) × (fn w ≡ (err x, v)) × (retry_on x ≡ true) × (down v ≡ n)
  pub waits : (k : ℕ) (x : Exn) (w : W) → (v : W) × (wait k x w ≡ (ok tt, v)) × (down v ≡ down w)

module _ {W A : Type 0} (fn : Action W A) (attempts : ℕ) (retry_on : Exn → Bool)
    (wait : ℕ → Exn → Action W (Unit {0})) (down : W → ℕ) (o : IsOutage fn retry_on wait down) where
  loop_recovers :
      (n k d : ℕ) (w : W)
      → n + k ≡ attempts
      → down w ≡ d
      → d ≤ n
      → (a : A) × (v : W) × (retry_loop fn attempts retry_on wait (suc n) k w ≡ (ok a, v))
  loop_recovers n k zero w e p h =
      let (a, v, q) = o.answers w p in (a, v, loop-returned fn attempts retry_on wait n k w v a q)
  loop_recovers zero k (suc d) w e p h = elim h [ ]
  loop_recovers (suc n) k (suc d) w e p h =
      let (x, v, q, r, s) = o.fails w d p in
      let (u, y, z) = o.waits k x v in
      let (a, u', t) = loop_recovers n (k + 1) d u (omega arith) (z ∙ s) (omega arith) in
      (a, u', loop-again fn attempts retry_on wait (suc n) k w v u x (omega arith) q r y ∙ t)

  loop_gives_up :
      (n k d : ℕ) (w : W)
      → n + k ≡ attempts
      → down w ≡ d
      → n < d
      → (x : Exn) × (v : W) × (retry_loop fn attempts retry_on wait (suc n) k w ≡ (err x, v))
        × (retry_on x ≡ true)
        × (down v + suc n ≡ d)
  loop_gives_up n k zero w e p h = elim h [ ]
  loop_gives_up zero k (suc d) w e p h =
      let (x, v, q, r, s) = o.fails w d p in
      (x, v, loop-last fn attempts retry_on wait zero k w v x (omega arith) q r, r, omega arith)
  loop_gives_up (suc n) k (suc d) w e p h =
      let (x, v, q, r, s) = o.fails w d p in
      let (u, y, z) = o.waits k x v in
      let (x', v', t, r', s') = loop_gives_up n (k + 1) d u (omega arith) (z ∙ s) (omega arith) in
      (
        x',
        v',
        loop-again fn attempts retry_on wait (suc n) k w v u x (omega arith) q r y ∙ t,
        r',
        omega arith,
      )

module _ {W A : Type 0} (t : Timer W) (fn : Action W A) (attempts base_delay max_delay : ℕ)
    (retry_on : Exn → Bool) (on_retry : Option (OnRetry W)) (down : W → ℕ)
    (o : IsOutage fn retry_on (pause t base_delay max_delay on_retry) down) where
  -- If the next calls of `fn` fail with retryable errors fewer than `attempts` times and then `fn`
  -- answers, and pauses return without changing that, then `retry_async` returns a value.
  pub retry_async_recovers :
      (w : W)
      → down w < attempts
      → (a : A) × (v : W) × (retry_async t fn attempts base_delay max_delay retry_on on_retry w
          ≡ (ok a, v))
  retry_async_recovers w h =
      let (a, v, p) =
        loop_recovers fn attempts retry_on (pause t base_delay max_delay on_retry) down o
          (attempts - 1) 1 (down w) w (omega arith) refl (omega arith) in
      (
        a,
        v,
        retry_async-eq-loop t fn attempts base_delay max_delay retry_on on_retry w (omega arith)
            ∙ p,
      )

  -- If at least `attempts` further calls of `fn` fail with retryable errors, pauses return without
  -- changing that, and `attempts` is at least 1, then `retry_async` raises a retryable error after
  -- exactly `attempts` calls.
  pub retry_async_gives_up :
      (w : W)
      → 1 ≤ attempts
      → attempts ≤ down w
      → (x : Exn) × (v : W) × (retry_async t fn attempts base_delay max_delay retry_on on_retry w
          ≡ (err x, v))
        × (retry_on x ≡ true)
        × (down v + attempts ≡ down w)
  retry_async_gives_up w g h =
      let (x, v, p, q, s) =
        loop_gives_up fn attempts retry_on (pause t base_delay max_delay on_retry) down o
          (attempts - 1) 1 (down w) w (omega arith) refl (omega arith) in
      (
        x,
        v,
        retry_async-eq-loop t fn attempts base_delay max_delay retry_on on_retry w (omega arith)
            ∙ p,
        q,
        omega arith,
      )
