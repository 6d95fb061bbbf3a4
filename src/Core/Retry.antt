-- ===== src/Core/Retry.antt =====
-- app/core/retry.py: exponential backoff with full jitter. Delays are whole ticks of one time unit;
-- the event loop's sleep and the random source are a `Timer`, which the callers pass in.
pub mod Laws
pub mod Recovery
pub mod Delays
pub mod Keeps
pub mod Outcome
mod Tests
use txn_event_processor.Prelude.{
  ℕ, zero, suc, ◌+◌, ◌-◌, ◌*◌, ◌^◌, ◌≤◌, ◌≡◌, min, Bool, Option, none, some, ltb, leb,
  if◌then◌else◌,
}
use txn_event_processor.Core.Errors.{Exn, value_error, other_exception}
use txn_event_processor.Action.{Action, ok, pure, raise, try_except, ◌>>=◌, ◌>>◌}

-- `random.uniform` and `asyncio.sleep`.
pub record Timer (W : Type 0) : Type 0 where
  pub uniform : ℕ → ℕ → Action W ℕ
  pub sleep : ℕ → Action W (Unit {0})

-- `random.uniform(a, b)` lies between its bounds.
abbrev pub IsUniform : {W : Type 0} → Timer W → Type 0
IsUniform {W} t =
    (lo hi d : ℕ) (w : W) → lo ≤ hi → (t.uniform lo hi w).0 ≡ ok d → (lo ≤ d) × (d ≤ hi)

-- The bound of the jitter after failure number `attempt`, counted from 1.
unfoldable pub delay_ceiling : ℕ → ℕ → ℕ → ℕ
delay_ceiling attempt base_delay max_delay = min max_delay (base_delay * 2 ^ (attempt - 1))

unfoldable pub compute_delay : {W : Type 0} → Timer W → ℕ → ℕ → ℕ → Action W ℕ
compute_delay t attempt base_delay max_delay =
    t.uniform 0 (delay_ceiling attempt base_delay max_delay)

abbrev pub OnRetry : Type 0 → Type 0
OnRetry W = ℕ → Exn → ℕ → Action W (Unit {0})

-- `if on_retry is not None: on_retry(...)`
unfoldable pub call_on_retry : {W : Type 0} → Option (OnRetry W) → OnRetry W
call_on_retry none attempt exc delay = pure tt
call_on_retry (some on_retry) attempt exc delay = on_retry attempt exc delay

module _ {W : Type 0} (t : Timer W) (base_delay max_delay : ℕ) (on_retry : Option (OnRetry W)) where
  -- What happens between two calls of `fn`.
  unfoldable pub pause : ℕ → Exn → Action W (Unit {0})
  pause attempt exc = do
    delay ← compute_delay t attempt base_delay max_delay
    call_on_retry on_retry attempt exc delay
    t.sleep delay

module _ {W A : Type 0} (fn : Action W A) (attempts : ℕ) (retry_on : Exn → Bool)
    (wait : ℕ → Exn → Action W (Unit {0})) where
  -- `for attempt in range(1, attempts + 1)`, with the rounds left. A loop that ended by itself would
  -- return Python's `None`, which has no type here; `retry_async-Runs` shows that it does not.
  unfoldable pub retry_loop : ℕ → ℕ → Action W A
  retry_loop zero attempt = raise (other_exception "returned None")
  retry_loop (suc left) attempt =
      let rest = retry_loop left (attempt + 1) in
      try_except fn λ exc.
        if retry_on exc
        then (if leb attempts attempt then raise exc else (wait attempt exc >> rest))
        else raise exc

module _ {W A : Type 0} (t : Timer W) (fn : Action W A) (attempts base_delay max_delay : ℕ)
    (retry_on : Exn → Bool) (on_retry : Option (OnRetry W)) where
  unfoldable pub retry_async : Action W A
  retry_async =
      if ltb attempts 1
      then raise (value_error "retry_async requires attempts >= 1")
      else retry_loop fn attempts retry_on (pause t base_delay max_delay on_retry) attempts 1
