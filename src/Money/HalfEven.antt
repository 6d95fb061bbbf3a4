-- ===== src/Money/HalfEven.antt =====
-- app/services/converter.py: the rounding rule.
use txn_event_processor.Prelude.{ℕ, ◌+◌, ◌*◌, ◌/◌, ◌%◌, ◌≤◌, ◌<◌, ◌≡◌, arith, ◌⊎◌, inl, inr}
use native.Mathlib.Decide.{dec_lt}
use native.Mathlib.Nat.{div-add-mod', mod-lt}
use txn_event_processor.Money.{div_half_even, round_quotient}

-- The two ways in which a quotient is rounded.
pub round_quotient-cases :
    (q r d : ℕ)
    → ((round_quotient q r d ≡ q) × (2 * r ≤ d) × (2 * r ≡ d → q % 2 ≡ 0))
      ⊎ ((round_quotient q r d ≡ q + 1) × (d ≤ 2 * r) × (2 * r ≡ d → (q + 1) % 2 ≡ 0))
unfolding round_quotient
round_quotient-cases q r d = ground arith

module _ (n d : ℕ) (h : 0 < d) where
  -- A quotient rounded half to even is within half a unit of the exact quotient, for a positive
  -- divisor.
  pub div_half_even_nearest :
      (2 * (div_half_even n d * d) ≤ 2 * n + d) × (2 * n ≤ 2 * (div_half_even n d * d) + d)
  unfolding div_half_even
  div_half_even_nearest = elim (round_quotient-cases (n / d) (n % d) d) [
    | inl (e, le, _) ↦ rw e (omega (arith, div-add-mod' n d))
    | inr (e, le, _) ↦ rw e (omega (arith, div-add-mod' n d, mod-lt n h))
  ]

  -- Of two results that are equally near, it is the even one.
  pub div_half_even_tie :
      (2 * n ≡ 2 * (div_half_even n d * d) + d) ⊎ (2 * n + d ≡ 2 * (div_half_even n d * d))
      → div_half_even n d % 2 ≡ 0
  unfolding div_half_even
  div_half_even_tie = elim (round_quotient-cases (n / d) (n % d) d) [
    | inl (e, le, even) ↦ rw e (λ t. even (omega (arith, div-add-mod' n d)))
    | inr (e, le, even) ↦ rw e (λ t. even (omega (arith, div-add-mod' n d, mod-lt n h)))
  ]

pub div_half_even-one : (n : ℕ) → div_half_even n 1 ≡ n
div_half_even-one n = omega (arith, div_half_even_nearest n 1 (omega arith))

-- Rounding half to even keeps the order of the dividends, for a positive divisor.
div_half_even_mono : (m n d : ℕ) → 0 < d → m ≤ n → div_half_even m d ≤ div_half_even n d
div_half_even_mono m n d h le = elim (dec_lt m n) [
  | no p ↦ let e : m ≡ n = omega arith in rw e (omega arith)
  | yes p ↦ grind (arith, div_half_even_nearest m d h, div_half_even_nearest n d h)
]
