-- ===== src/Core/Retry/Laws.antt =====
-- What a call of `retry_async` does, against a description by rules.
use txn_event_processor.Prelude.{
  ℕ, zero, suc, ◌+◌, ◌-◌, ◌≤◌, ◌<◌, ◌≡◌, refl, inl, inr, Bool, true, false, Option, arith,
  Bool-cases, ap,
}
use txn_event_processor.Core.Errors.{Exn}
use txn_event_processor.Core.Retry.{Timer, OnRetry, pause, retry_loop, retry_async}
use txn_event_processor.Action.{Action, Result, ok, err, run-cases}

-- The runs of `fn` with at most `n` retries, the next failure being number `attempt`: a success or an
-- error that is not retried ends the run; the last error is raised again; an exception out of the
-- pause (a cancelled sleep) ends it too.
pub data Runs {W A : Type 0} (fn : Action W A) (retry_on : Exn → Bool)
    (wait : ℕ → Exn → Action W (Unit {0})) : ℕ → ℕ → W → Result A → W → Type 0 where
  returned : {n k : ℕ} {w v : W} (a : A) → fn w ≡ (ok a, v) → Runs fn retry_on wait n k w (ok a) v
  refused :
      {n k : ℕ} {w v : W} (e : Exn)
      → fn w ≡ (err e, v)
      → retry_on e ≡ false
      → Runs fn retry_on wait n k w (err e) v
  exhausted :
      {n k : ℕ} {w v : W} (e : Exn)
      → n ≡ 0
      → fn w ≡ (err e, v)
      → retry_on e ≡ true
      → Runs fn retry_on wait n k w (err e) v
  interrupted :
      {n k : ℕ} {w u v : W} (e x : Exn)
      → fn w ≡ (err e, u)
      → retry_on e ≡ true
      → wait k e u ≡ (err x, v)
      → Runs fn retry_on wait (suc n) k w (err x) v
  again :
      {n k : ℕ} {w u v x : W} {r : Result A} (e : Exn)
      → fn w ≡ (err e, u)
      → retry_on e ≡ true
      → wait k e u ≡ (ok tt, v)
      → Runs fn retry_on wait n (k + 1) v r x
      → Runs fn retry_on wait (suc n) k w r x

module _ {W A : Type 0} (fn : Action W A) (attempts : ℕ) (retry_on : Exn → Bool)
    (wait : ℕ → Exn → Action W (Unit {0})) where
  pub loop-again :
      (n k : ℕ) (w v u : W) (x : Exn)
      → k < attempts
      → fn w ≡ (err x, v)
      → retry_on x ≡ true
      → wait k x v ≡ (ok tt, u)
      → retry_loop fn attempts retry_on wait (suc n) k w
        ≡ retry_loop fn attempts retry_on wait n (k + 1) u
  unfolding retry_loop
  loop-again n k w v u x lt p q s = ground arith

  pub loop-interrupted :
      (n k : ℕ) (w v u : W) (x y : Exn)
      → k < attempts
      → fn w ≡ (err x, v)
      → retry_on x ≡ true
      → wait k x v ≡ (err y, u)
      → retry_loop fn attempts retry_on wait (suc n) k w ≡ (err y, u)
  unfolding retry_loop
  loop-interrupted n k w v u x y lt p q s = ground arith

  pub loop-last :
      (n k : ℕ) (w v : W) (x : Exn)
      → attempts ≤ k
      → fn w ≡ (err x, v)
      → retry_on x ≡ true
      → retry_loop fn attempts retry_on wait (suc n) k w ≡ (err x, v)
  unfolding retry_loop
  loop-last n k w v x le p q = ground arith

  pub loop-refused :
      (n k : ℕ) (w v : W) (x : Exn)
      → fn w ≡ (err x, v)
      → retry_on x ≡ false
      → retry_loop fn attempts retry_on wait (suc n) k w ≡ (err x, v)
  unfolding retry_loop
  loop-refused n k w v x p q = ground arith

  pub loop-returned :
      (n k : ℕ) (w v : W) (a : A)
      → fn w ≡ (ok a, v)
      → retry_loop fn attempts retry_on wait (suc n) k w ≡ (ok a, v)
  unfolding retry_loop
  loop-returned n k w v a p = ground arith

  -- A round, given what the later rounds do.
  round-Runs :
      (n k : ℕ) (w : W)
      → ((x : Exn) (v : W)
          → fn w ≡ (err x, v)
          → retry_on x ≡ true
          → let r = retry_loop fn attempts retry_on wait (suc n) k w in
            Runs fn retry_on wait n k w r.0 r.1)
      → let r = retry_loop fn attempts retry_on wait (suc n) k w in
        Runs fn retry_on wait n k w r.0 r.1
  round-Runs n k w failed = elim (run-cases fn w) [
    | inl (a, v, p) ↦ rw (loop-returned n k w v a p) (returned a p)
    | inr (x, v, p) ↦ elim (Bool-cases (retry_on x)) [
      | inr q ↦ rw (loop-refused n k w v x p q) (refused x p q)
      | inl q ↦ failed x v p q
    ]
  ]

  pub loop-Runs :
      (n k : ℕ) (w : W)
      → n + k ≡ attempts
      → let r = retry_loop fn attempts retry_on wait (suc n) k w in
        Runs fn retry_on wait n k w r.0 r.1
  loop-Runs zero k w e =
      round-Runs zero k w
        λ x v p q. rw (loop-last zero k w v x (omega arith) p q) (exhausted x refl p q)
  loop-Runs (suc n) k w e = round-Runs (suc n) k w λ x v p q. elim (run-cases (wait k x) v) [
    | inl (_, u, s) ↦
        rw (loop-again (suc n) k w v u x (omega arith) p q s)
          (again x p q s (loop-Runs n (k + 1) u (omega arith)))
    | inr (y, u, s) ↦
        rw (loop-interrupted (suc n) k w v u x y (omega arith) p q s) (interrupted x y p q s)
  ]

module _ {W A : Type 0} (t : Timer W) (fn : Action W A) (attempts base_delay max_delay : ℕ)
    (retry_on : Exn → Bool) (on_retry : Option (OnRetry W)) where
  pub retry_async-eq-loop :
      (w : W)
      → 1 ≤ attempts
      → retry_async t fn attempts base_delay max_delay retry_on on_retry w
        ≡ retry_loop fn attempts retry_on
            (pause t base_delay max_delay on_retry)
            (suc (attempts - 1))
            1
            w
  unfolding retry_async
  retry_async-eq-loop w h =
      let e : attempts ≡ suc (attempts - 1) = omega arith in
      ground (
        arith,
        ap (λ n. retry_loop fn attempts retry_on (pause t base_delay max_delay on_retry) n 1 w) e,
      )

  -- With at least one attempt, a call of `retry_async` is a run of the rules `Runs` with at most
  -- `attempts - 1` retries, counted from failure 1: a success or an error that is not retried ends
  -- it, a retryable error is followed by a pause and another call while retries are left and is
  -- raised again when none is, and an exception out of the pause ends it.
  pub retry_async-Runs :
      (w : W)
      → 1 ≤ attempts
      → let r = retry_async t fn attempts base_delay max_delay retry_on on_retry w in
        Runs fn retry_on (pause t base_delay max_delay on_retry) (attempts - 1) 1 w r.0 r.1
  retry_async-Runs w h = rw (retry_async-eq-loop w h) (
      loop-Runs fn attempts retry_on (pause t base_delay max_delay on_retry) (attempts - 1) 1 w
        (omega arith))
