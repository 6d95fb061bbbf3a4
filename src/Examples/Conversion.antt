-- ===== src/Examples/Conversion.antt =====
-- Conversions to dollars.
use txn_event_processor.Prelude.{ℕ, ◌≡◌, ◌*◌, refl, arith, false}
use txn_event_processor.Prelude.Int.{neg, ◌-ℤ◌, ◌+ℤ◌}
use txn_event_processor.Action.{ok}
use txn_event_processor.Money.{Decimal, div_half_even, convert_to_usd, xor, excess_digits, rescale}
use txn_event_processor.Money.Convert.{convert_to_usd_exact, IsCents}

-- 19.99 euros at 1.08
abbrev price : Decimal
price = record { negative = false; coeff = 1999; exp = neg 2 }

abbrev euro : Decimal
euro = record { negative = false; coeff = 108; exp = neg 2 }

price_in_dollars :
    convert_to_usd price euro ≡ ok (record { negative = false; coeff = 2159; exp = neg 2 })
unfolding convert_to_usd rescale ◌-ℤ◌ div_half_even excess_digits ◌+ℤ◌
price_in_dollars = refl

-- A tie goes to the even number, up or down.
tie_down : div_half_even 25 10 ≡ 2
unfolding div_half_even
tie_down = refl

tie_up : div_half_even 35 10 ≡ 4
unfolding div_half_even
tie_up = refl

convert_to_usd_exact_example :
    (u : ℕ) × (convert_to_usd price euro
      ≡ ok (record { negative = xor false false; coeff = u; exp = neg 2 }))
    × IsCents 4 (1999 * 108) u
convert_to_usd_exact_example =
    convert_to_usd_exact price euro 2 2 refl refl (omega arith) (omega arith)
