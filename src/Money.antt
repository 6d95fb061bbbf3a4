-- ===== src/Money.antt =====
-- app/services/converter.py, over the finite numbers of Python's `decimal` in its default context:
-- 28 significant digits, rounding half to even.
pub mod HalfEven
pub mod Convert
pub mod Precision
use txn_event_processor.Prelude.{
  ℕ, zero, suc, ◌+◌, ◌-◌, ◌*◌, ◌/◌, ◌%◌, ◌^◌, Bool, true, false, ltb, leb, ◌==◌, if◌then◌else◌, ◌≡◌,
  refl,
}
use txn_event_processor.Prelude.Int.{ℤ, pos, negsuc, neg, ◌+ℤ◌, ◌-ℤ◌}
use txn_event_processor.Core.Errors.{other_exception}
use txn_event_processor.Action.{Result, ok, err}

-- `(-1) ** negative * coeff * 10 ** exp`
pub record Decimal : Type 0 where
  pub negative : Bool
  pub coeff : ℕ
  pub exp : ℤ

-- A quotient `q` with remainder `r` by `d`, to the nearest whole number, a tie to the even one.
unfoldable pub round_quotient : ℕ → ℕ → ℕ → ℕ
round_quotient q r d =
    if ltb (2 * r) d then q else if ltb d (2 * r) then q + 1 else if q % 2 == 0 then q else q + 1

-- `n / d` under ROUND_HALF_EVEN.
unfoldable pub div_half_even : ℕ → ℕ → ℕ
unfolding round_quotient
div_half_even n d = round_quotient (n / d) (n % d) d

-- `getcontext().prec` is 28: coefficients are below this.
abbrev pub prec_limit : ℕ
prec_limit = 10 ^ 28

-- How many digits a coefficient has beyond the precision; each round drops one. The coefficient
-- itself is enough fuel.
unfoldable pub excess_digits : ℕ → ℕ → ℕ
excess_digits zero coeff = 0
excess_digits (suc fuel) coeff =
    let rest = suc (excess_digits fuel (coeff / 10)) in if ltb coeff prec_limit then 0 else rest

-- The context's rounding of a result; a coefficient that rounds up to 29 digits loses a zero.
unfoldable pub fix : Decimal → Decimal
fix x =
    let k = excess_digits x.coeff x.coeff in
    let c = div_half_even x.coeff (10 ^ k) in
    if ltb c prec_limit
    then record x { coeff = c; exp = x.exp +ℤ pos k }
    else record x { coeff = c / 10; exp = x.exp +ℤ pos (k + 1) }

abbrev pub xor : Bool → Bool → Bool
xor true true = false
xor true false = true
xor false b = b

-- `amount * rate`
unfoldable pub mul : Decimal → Decimal → Decimal
unfolding fix
mul x y = fix (record {
  negative = xor x.negative y.negative;
  coeff = x.coeff * y.coeff;
  exp = x.exp +ℤ y.exp;
})

-- A coefficient at another exponent: `shift` is the old exponent less the new one.
unfoldable pub rescale : ℕ → ℤ → ℕ
rescale coeff (pos shift) = coeff * 10 ^ shift
rescale coeff (negsuc shift) = div_half_even coeff (10 ^ suc shift)

-- `x.quantize(quant, rounding=ROUND_HALF_EVEN)`: a result beyond the precision is refused.
unfoldable pub quantize : Decimal → Decimal → Result Decimal
quantize x quant =
    let c = rescale x.coeff (x.exp -ℤ quant.exp) in
    if ltb c prec_limit
    then ok (record { negative = x.negative; coeff = c; exp = quant.exp })
    else err (other_exception "[<class 'decimal.InvalidOperation'>]")

-- `USD_QUANT = Decimal("0.01")`
abbrev pub usd_quant : Decimal
usd_quant = record { negative = false; coeff = 1; exp = neg 2 }

unfoldable pub convert_to_usd : Decimal → Decimal → Result Decimal
unfolding mul quantize
convert_to_usd amount rate = quantize (mul amount rate) usd_quant
