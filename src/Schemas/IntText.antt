-- ===== src/Schemas/IntText.antt =====
-- Python's `str(n)` and `int(text)` for integers, on ASCII text: an optional sign, digits with single
-- underscores between them, and blanks around the whole.
pub mod RoundTrip
use Prim.Native.Char.{Char, code}
use mathlib.Core.Option
use txn_event_processor.Prelude.{
  ℕ, zero, suc, ◌+◌, ◌-◌, ◌*◌, ◌/◌, ◌%◌, String, Bool, true, false, ◌&&◌, ◌||◌, Option, none, some,
  leb, ◌==◌, if◌then◌else◌, ◌≡◌, refl,
}
unfoldable pub use txn_event_processor.Prelude.Digits.{digit, emit, str_nat}
use txn_event_processor.Action.{Result, ok, err}
use txn_event_processor.Core.Errors.{value_error}
use txn_event_processor.Prelude.Int.{ℤ, pos, negsuc, neg}

-- The decimal text of an integer, of any length.
unfoldable pub int_text : ℤ → String
unfolding str_nat
int_text (pos n) = str_nat n
int_text (negsuc n) = String.◌∷◌ "-" (str_nat (suc n))

abbrev pub is_digit : ℕ → Bool
is_digit c = leb b'0' c && leb c b'9'

abbrev pub is_blank : ℕ → Bool
is_blank c = c == 32 || leb 9 c && leb c 13 || leb 28 c && leb c 31

unfoldable pub all_blank : String → Bool
all_blank String.[] = true
all_blank (String.◌∷◌ c s) = is_blank (code c) && all_blank s

-- Reads digits into `n`; `after_digit` tells whether the last character read was one.
unfoldable pub scan : String → ℕ → Bool → Option ℕ
scan String.[] n after_digit = if after_digit then some n else none
scan (String.◌∷◌ c s) n after_digit = elim (is_digit (code c)) [
  | true ↦ scan s (n * 10 + (code c - b'0')) true
  | false ↦ elim (code c == b'_' && after_digit) [
    | true ↦ scan s n false
    | false ↦ if is_blank (code c) && after_digit && all_blank s then some n else none
  ]
]

unfoldable pub read_sign : String → Option ℤ
read_sign String.[] = none
read_sign (String.◌∷◌ c s) =
    if code c == b'-'
    then Option.map neg (scan s 0 false)
    else if code c == b'+'
    then Option.map pos (scan s 0 false)
    else Option.map pos (scan (String.◌∷◌ c s) 0 false)

-- The integer that a text of any length writes.
unfoldable pub read_int : String → Option ℤ
unfolding read_sign
read_int String.[] = none
read_int (String.◌∷◌ c s) =
    let rest = read_int s in if is_blank (code c) then rest else read_sign (String.◌∷◌ c s)

unfoldable pub digit_count : String → ℕ
digit_count String.[] = 0
digit_count (String.◌∷◌ c s) = if is_digit (code c) then suc (digit_count s) else digit_count s

-- Python's limit, by default, on the digits of an integer that is converted to or from text.
abbrev pub max_str_digits : ℕ
max_str_digits = 4300

abbrev pub fits : String → Bool
fits text = leb (digit_count text) max_str_digits

-- `str(n)`
unfoldable pub str_int : ℤ → Result String
unfolding int_text digit_count
str_int n =
    let text = int_text n in
    if fits text
    then ok text
    else err (value_error "Exceeds the limit (4300 digits) for integer string conversion")

-- `int(text)`; `none` where it raises ValueError.
unfoldable pub int_of_text : String → Option ℤ
unfolding read_int digit_count
int_of_text text = if fits text then read_int text else none
