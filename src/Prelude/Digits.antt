-- ===== src/Prelude/Digits.antt =====
-- The decimal digits of a natural number, as Python's `str` writes them.
use Prim.Native.Char.{Char}
use txn_event_processor.Prelude.{ℕ, zero, suc, ◌/◌, ◌%◌, String, ◌==◌, if◌then◌else◌}

abbrev pub digit : ℕ → Char
digit zero = "0"
digit (suc zero) = "1"
digit (suc (suc zero)) = "2"
digit (suc (suc (suc zero))) = "3"
digit (suc (suc (suc (suc zero)))) = "4"
digit (suc (suc (suc (suc (suc zero))))) = "5"
digit (suc (suc (suc (suc (suc (suc zero)))))) = "6"
digit (suc (suc (suc (suc (suc (suc (suc zero))))))) = "7"
digit (suc (suc (suc (suc (suc (suc (suc (suc zero)))))))) = "8"
digit _ = "9"

-- The digits of a positive number before `out`; the number itself is enough fuel.
unfoldable pub emit : ℕ → ℕ → String → String
emit zero n out = out
emit (suc fuel) n out =
    let rest = emit fuel (n / 10) (String.◌∷◌ (digit (n % 10)) out) in if n == 0 then out else rest

unfoldable pub str_nat : ℕ → String
unfolding emit
str_nat n = if n == 0 then "0" else emit n n String.[]
