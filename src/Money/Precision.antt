-- ===== src/Money/Precision.antt =====
-- The fuel of `excess_digits`, which rounds the products of app/services/converter.py to the decimal
-- context's 28 digits, is enough.
use native.Mathlib.Nat.{pow-suc, div-add-mod', mod-lt}
use txn_event_processor.Prelude.{
  ℕ, zero, suc, ◌+◌, ◌*◌, ◌/◌, ◌^◌, ◌≤◌, ◌<◌, ◌≡◌, inl, inr, arith, ltb, Bool-cases,
}
use txn_event_processor.Money.{prec_limit, excess_digits}

-- `k` is the least number of digits that `c` has to lose to have 28 at most.
pub record IsExcess (c k : ℕ) : Type 0 where
  pub enough : c < prec_limit * 10 ^ k
  pub least : (j : ℕ) → suc j ≡ k → prec_limit * 10 ^ j ≤ c

tenth : (c : ℕ) → (10 * (c / 10) ≤ c) × (c < 10 * (c / 10) + 10)
tenth c = let positive : 0 < 10 = omega arith in omega (arith, div-add-mod' c 10, mod-lt c positive)

IsExcess-suc : (c k : ℕ) → prec_limit ≤ c → IsExcess (c / 10) k → IsExcess c (suc k)
IsExcess-suc c k h e = record {
  enough = omega (arith, pow-suc 10 k, tenth c, e.enough);
  least = λ j s. below j s;
}
  where
    below : (j : ℕ) → suc j ≡ suc k → prec_limit * 10 ^ j ≤ c
    below zero s = omega arith
    below (suc j) s = omega (arith, pow-suc 10 j, tenth c, e.least j (omega arith))

-- With the coefficient itself as fuel, or more, the count of digits beyond the precision never runs
-- out: it is the least number of digits that the coefficient has to lose to have 28 at most.
pub excess_digits-IsExcess : (fuel c : ℕ) → c ≤ fuel → IsExcess c (excess_digits fuel c)
unfolding excess_digits
excess_digits-IsExcess zero c h = record {
  enough = omega arith;
  least = λ j s. absurd (omega arith);
}
excess_digits-IsExcess (suc fuel) c h = elim (Bool-cases (ltb c prec_limit)) [
  | inl e ↦ rw e (record { enough = ground arith; least = λ j s. absurd (omega arith) })
  | inr e ↦
      let small : prec_limit ≤ c = ground arith in
      rw e (
        IsExcess-suc c (excess_digits fuel (c / 10)) (ground arith)
          (excess_digits-IsExcess fuel (c / 10) (omega (arith, tenth c, small))))
]
