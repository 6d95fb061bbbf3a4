-- ===== src/Money/Convert.antt =====
-- What `convert_to_usd` returns, against the exact product.
use txn_event_processor.Prelude.{
  ℕ, zero, suc, ◌+◌, ◌*◌, ◌%◌, ◌^◌, ◌≤◌, ◌<◌, ◌≡◌, refl, arith, ◌⊎◌, ap, ◌∙◌, lt→ltb,
}
use mathlib.Core.Path.{ap₂}
use native.Mathlib.Nat.{pow-suc, pow-le-pow_right, one-le-pow}
use txn_event_processor.Prelude.Int.{pos, neg, ◌+ℤ◌, ◌-ℤ◌, int_laws, neg-add, neg-sub_over}
use txn_event_processor.Money.{
  Decimal, prec_limit, div_half_even, excess_digits, fix, xor, rescale, quantize, convert_to_usd,
  usd_quant,
}
use txn_event_processor.Money.HalfEven.{div_half_even_nearest, div_half_even_tie, div_half_even-one}
use txn_event_processor.Action.{ok}

-- A result that has at most 28 digits is not rounded.
excess_digits_none : (c fuel : ℕ) → c < prec_limit → excess_digits fuel c ≡ 0
unfolding excess_digits
excess_digits_none c zero h = refl
excess_digits_none c (suc fuel) h = ground arith

fix_exact : (x : Decimal) → x.coeff < prec_limit → fix x ≡ x
unfolding fix
fix_exact x h =
    let e : x.exp +ℤ pos 0 ≡ x.exp = omega int_laws in
    rw (excess_digits_none x.coeff x.coeff h)
      (rw (div_half_even-one x.coeff) (rw (lt→ltb _ _ h) λ i. record x { exp = e i }))

-- `u` cents are the amount `c * 10 ** -p` in dollars, rounded once, half to even.
pub record IsCents (p c u : ℕ) : Type 0 where
  pub above : 2 * (u * 10 ^ p) ≤ 2 * (100 * c) + 10 ^ p
  pub below : 2 * (100 * c) ≤ 2 * (u * 10 ^ p) + 10 ^ p
  pub even :
      (2 * (100 * c) ≡ 2 * (u * 10 ^ p) + 10 ^ p) ⊎ (2 * (100 * c) + 10 ^ p ≡ 2 * (u * 10 ^ p))
      → u % 2 ≡ 0

shifted-IsCents : (k c : ℕ) → IsCents (suc (suc k)) c (div_half_even c (10 ^ k))
shifted-IsCents k c = record {
  above = omega (arith, step, scaled, near);
  below = omega (arith, step, scaled, near);
  even = λ t. div_half_even_tie c (10 ^ k) positive (omega (arith, step, scaled, t));
}
  where
    positive : 0 < 10 ^ k
    positive = one-le-pow k 10 (omega arith)

    step : 10 ^ suc (suc k) ≡ 10 ^ k * 100
    step = rw (pow-suc 10 (suc k), pow-suc 10 k) (omega arith)

    scaled : div_half_even c (10 ^ k) * 10 ^ suc (suc k) ≡ div_half_even c (10 ^ k) * (10 ^ k * 100)
    scaled = ap (λ t. div_half_even c (10 ^ k) * t) step

    near :
        (2 * (div_half_even c (10 ^ k) * 10 ^ k) ≤ 2 * c + 10 ^ k)
        × (2 * c ≤ 2 * (div_half_even c (10 ^ k) * 10 ^ k) + 10 ^ k)
    near = div_half_even_nearest c (10 ^ k) positive

-- The coefficient that `quantize` computes at two places.
rescale-IsCents : (p c : ℕ) → IsCents p c (rescale c (neg p -ℤ neg 2))
unfolding rescale ◌-ℤ◌
rescale-IsCents zero c = omega arith
rescale-IsCents (suc zero) c = omega arith
rescale-IsCents (suc (suc zero)) c = omega arith
rescale-IsCents (suc (suc (suc k))) c =
    rw (neg-sub_over (suc (suc (suc k))) 2 (suc k) (omega arith)) (shifted-IsCents (suc k) c)

-- A dollar amount below 10 ** 14 has cents below the precision.
IsCents-lt : (p c u : ℕ) → IsCents p c u → c < 10 ^ 14 * 10 ^ p → u < prec_limit
IsCents-lt p c u h le = grind (arith, h.above, one-le-pow p 10)

-- `x` has `p` decimal places.
abbrev pub HasPlaces : ℕ → Decimal → Type 0
HasPlaces p x = x.exp ≡ neg p

quantize_cents :
    (x : Decimal) (p : ℕ)
    → HasPlaces p x
    → rescale x.coeff (neg p -ℤ neg 2) < prec_limit
    → quantize x usd_quant
      ≡ ok (record { negative = x.negative; coeff = rescale x.coeff (neg p -ℤ neg 2); exp = neg 2 })
unfolding quantize
quantize_cents x p e h = rw e (rw (lt→ltb _ _ h) refl)

-- If `amount` has `p` decimal places and `rate` has `q`, with `p + q ≤ 14`, and the product is
-- below 10 ** 14 dollars (what the column `amount_usd`, Numeric(18, 4), can hold), then
-- `convert_to_usd` returns the exact product rounded once to whole cents, half to even, with the
-- sign of the product.
pub convert_to_usd_exact :
    (amount rate : Decimal) (p q : ℕ)
    → HasPlaces p amount
    → HasPlaces q rate
    → p + q ≤ 14
    → amount.coeff * rate.coeff < 10 ^ 14 * 10 ^ (p + q)
    → (u : ℕ) × (convert_to_usd amount rate
        ≡ ok (record { negative = xor amount.negative rate.negative; coeff = u; exp = neg 2 }))
      × IsCents (p + q) (amount.coeff * rate.coeff) u
unfolding convert_to_usd
convert_to_usd_exact amount rate p q ep eq small fits = (
  cents,
  ap (λ x. quantize x usd_quant) (fix_exact exact fits_context)
      ∙ quantize_cents exact (p + q) places (IsCents-lt (p + q) product cents is_cents fits),
  is_cents,
)
  where
    product : ℕ
    product = amount.coeff * rate.coeff

    cents : ℕ
    cents = rescale product (neg (p + q) -ℤ neg 2)

    is_cents : IsCents (p + q) product cents
    is_cents = rescale-IsCents (p + q) product

    exact : Decimal
    exact = record {
      negative = xor amount.negative rate.negative;
      coeff = product;
      exp = amount.exp +ℤ rate.exp;
    }

    places : HasPlaces (p + q) exact
    places = ap₂ ◌+ℤ◌ ep eq ∙ neg-add p q

    fits_context : product < prec_limit
    fits_context = omega (arith, pow-le-pow_right {n = 10} (omega arith) small)
