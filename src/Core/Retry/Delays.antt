-- ===== src/Core/Retry/Delays.antt =====
-- The sleeps of `retry_async`: how many, and how long.
use txn_event_processor.Prelude.{
  ◌*◌, ◌^◌, min, ℕ, zero, suc, ◌+◌, ◌-◌, ◌≤◌, ◌≡◌, ◌⊎◌, inl, inr, Bool, Option, List, [], ◌∷◌, ◌++◌,
  length, ap, arith,
}
use mathlib.Core.List.{append-nil, append_assoc}
use txn_event_processor.Core.Errors.{Exn}
use txn_event_processor.Core.Retry.{
  Timer, IsUniform, OnRetry, delay_ceiling, compute_delay, call_on_retry, pause, retry_async,
}
use txn_event_processor.Core.Retry.Laws.{
  Runs, returned, refused, exhausted, interrupted, again, retry_async-Runs,
}
use txn_event_processor.Action.{Action, Result, err, run-cases}

-- Delay number `k` and the later ones are within the capped bound, which doubles with each.
abbrev pub IsBackoff : ℕ → ℕ → ℕ → List ℕ → Type 0
IsBackoff base_delay max_delay k [] = Unit
IsBackoff base_delay max_delay k (d ∷ ds) =
    (d ≤ min max_delay (base_delay * 2 ^ (k - 1))) × IsBackoff base_delay max_delay (k + 1) ds

abbrev pub total : List ℕ → ℕ
total [] = 0
total (d ∷ ds) = d + total ds

-- The longest that `n` sleeps take together, from delay number `k` on.
abbrev pub worst_case : ℕ → ℕ → ℕ → ℕ → ℕ
worst_case base_delay max_delay zero k = 0
worst_case base_delay max_delay (suc n) k =
    min max_delay (base_delay * 2 ^ (k - 1)) + worst_case base_delay max_delay n (k + 1)

total-worst_case :
    (base_delay max_delay n k : ℕ) (ds : List ℕ)
    → length ds ≤ n
    → IsBackoff base_delay max_delay k ds
    → total ds ≤ worst_case base_delay max_delay n k
total-worst_case base_delay max_delay n k [] h b = omega arith
total-worst_case base_delay max_delay zero k (d ∷ ds) h b = absurd (omega (arith, h))
total-worst_case base_delay max_delay (suc n) k (d ∷ ds) h (le, b) =
    omega (arith, le, total-worst_case base_delay max_delay n (k + 1) ds (omega (arith, h)) b)

-- `slept` lists the sleeps so far: only the timer's `sleep` adds to it, however it ends.
pub record IsSleepLog {W A : Type 0} (t : Timer W) (fn : Action W A) (on_retry : Option (OnRetry W))
    (slept : W → List ℕ) : Type 0 where
  pub fn_keeps : (w : W) → slept (fn w).1 ≡ slept w
  pub uniform_keeps : (lo hi : ℕ) (w : W) → slept (t.uniform lo hi w).1 ≡ slept w
  pub on_retry_keeps :
      (k : ℕ) (x : Exn) (d : ℕ) (w : W) → slept (call_on_retry on_retry k x d w).1 ≡ slept w
  pub sleep_adds : (d : ℕ) (w : W) → slept (t.sleep d w).1 ≡ slept w ++ d ∷ []

module _ {W A : Type 0} (t : Timer W) (fn : Action W A) (attempts base_delay max_delay : ℕ)
    (retry_on : Exn → Bool) (on_retry : Option (OnRetry W)) (slept : W → List ℕ)
    (uniform : IsUniform t) (l : IsSleepLog t fn on_retry slept) where
  -- A pause that returns has slept once; one that raises, at most once.
  pause-sleeps :
      (k : ℕ) (x : Exn) (w : W)
      → ((r : Result (Unit {0})) × (d : ℕ) × ((pause t base_delay max_delay on_retry k x w).0 ≡ r)
          × (d ≤ min max_delay (base_delay * 2 ^ (k - 1)))
          × (slept (pause t base_delay max_delay on_retry k x w).1 ≡ slept w ++ d ∷ []))
        ⊎ ((y : Exn) × ((pause t base_delay max_delay on_retry k x w).0 ≡ err y)
            × (slept (pause t base_delay max_delay on_retry k x w).1 ≡ slept w))
  unfolding pause compute_delay delay_ceiling
  pause-sleeps k x w = elim (run-cases (t.uniform 0 (delay_ceiling k base_delay max_delay)) w) [
    | inr (y, v, p) ↦ inr (
      y,
      ground arith,
      ground (arith, l.uniform_keeps 0 (delay_ceiling k base_delay max_delay) w),
    )
    | inl (d, v, p) ↦ elim (run-cases (call_on_retry on_retry k x d) v) [
      | inr (y, u, q) ↦ inr (
        y,
        ground arith,
        ground (
          arith,
          l.uniform_keeps 0 (delay_ceiling k base_delay max_delay) w,
          l.on_retry_keeps k x d v,
        ),
      )
      | inl (_, u, q) ↦ inl (
        (t.sleep d u).0,
        d,
        ground arith,
        (uniform 0 (delay_ceiling k base_delay max_delay) d w (omega arith) (ap (λ r. r.0) p)).1,
        ground (
          arith,
          l.uniform_keeps 0 (delay_ceiling k base_delay max_delay) w,
          l.on_retry_keeps k x d v,
          l.sleep_adds d u,
        ),
      )
    ]
  ]

  Runs-sleeps :
      {n k : ℕ} {w v : W} {r : Result A}
      → Runs fn retry_on (pause t base_delay max_delay on_retry) n k w r v
      → (ds : List ℕ) × (slept v ≡ slept w ++ ds)
        × (length ds ≤ n)
        × IsBackoff base_delay max_delay k ds
  Runs-sleeps (returned {w} {v} a p) =
      ([], ground (arith, l.fn_keeps w, append-nil (slept w)), ground arith, tt)
  Runs-sleeps (refused {w} e p q) =
      ([], ground (arith, l.fn_keeps w, append-nil (slept w)), ground arith, tt)
  Runs-sleeps (exhausted {w} e z p q) =
      ([], ground (arith, l.fn_keeps w, append-nil (slept w)), ground arith, tt)
  Runs-sleeps (interrupted {k} {w} {u} {v} e x p q s) = elim (pause-sleeps k e u) [
    | inl (r, d, z, le, g) ↦ (d ∷ [], ground (arith, l.fn_keeps w), omega arith, (le, tt))
    | inr (y, z, g) ↦ ([], ground (arith, l.fn_keeps w, append-nil (slept w)), omega arith, tt)
  ]
  Runs-sleeps (again {k} {w} {u} {v} e p q s rest) =
      let (ds, g, len, b) = Runs-sleeps rest in
      elim (pause-sleeps k e u) [
        | inl (r, d, z, le, h) ↦ (
          d ∷ ds,
          ground (arith, l.fn_keeps w, append_assoc (slept w) (d ∷ []) ds),
          omega arith,
          (le, b),
        )
        | inr (y, z, h) ↦ absurd (ground arith)
      ]

  -- With at least one attempt, the sleeps of `retry_async` are at most `attempts - 1` many, and
  -- sleep number `k` is at most `min(max_delay, base_delay * 2 ** (k - 1))`, and together they take
  -- at most the sum of these bounds, however the call ends, if `random.uniform` stays between its
  -- bounds and only the timer's sleep is a sleep.
  pub retry_async-sleeps :
      (w : W)
      → 1 ≤ attempts
      → (ds : List ℕ) × (slept
            (retry_async t fn attempts base_delay max_delay retry_on on_retry w).1
          ≡ slept w ++ ds)
        × (length ds ≤ attempts - 1)
        × IsBackoff base_delay max_delay 1 ds
        × (total ds ≤ worst_case base_delay max_delay (attempts - 1) 1)
  retry_async-sleeps w h =
      let (ds, all, few, b) =
        Runs-sleeps (retry_async-Runs t fn attempts base_delay max_delay retry_on on_retry w h) in
      (ds, all, few, b, total-worst_case base_delay max_delay (attempts - 1) 1 ds few b)
