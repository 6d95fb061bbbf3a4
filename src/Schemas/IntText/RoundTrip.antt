-- ===== src/Schemas/IntText/RoundTrip.antt =====
-- Python's `str` and `int`, one after the other.
use Prim.Native.Char.{Char, code}
use mathlib.Core.Option
use native.Mathlib.Decide.{dec_lt}
use txn_event_processor.Prelude.{
  ℕ, zero, suc, ◌+◌, ◌-◌, ◌*◌, ◌/◌, ◌%◌, ◌≤◌, ◌<◌, String, Bool, true, false, some, ◌==◌, ◌≡◌, refl,
  arith, ◌∙◌, Bool-cases, inl, inr, ap,
}
use txn_event_processor.Prelude.Int.{ℤ, pos, negsuc}
use txn_event_processor.Schemas.IntText.{digit, emit, str_nat, int_text, is_digit, scan, read_int}

code-digit : (d : ℕ) → d < 10 → code (digit d) ≡ b'0' + d
code-digit zero h = refl
code-digit (suc zero) h = refl
code-digit (suc (suc zero)) h = refl
code-digit (suc (suc (suc zero))) h = refl
code-digit (suc (suc (suc (suc zero)))) h = refl
code-digit (suc (suc (suc (suc (suc zero))))) h = refl
code-digit (suc (suc (suc (suc (suc (suc zero)))))) h = refl
code-digit (suc (suc (suc (suc (suc (suc (suc zero))))))) h = refl
code-digit (suc (suc (suc (suc (suc (suc (suc (suc zero)))))))) h = refl
code-digit (suc (suc (suc (suc (suc (suc (suc (suc (suc zero))))))))) h = refl
code-digit (suc (suc (suc (suc (suc (suc (suc (suc (suc (suc d)))))))))) h = absurd (omega arith)

is_digit-digit : (d : ℕ) → d < 10 → is_digit (code (digit d)) ≡ true
is_digit-digit d h = rw (code-digit d h) (ground arith)

scan_step :
    (c : Char) (n : ℕ) (b : Bool) (s : String)
    → is_digit (code c) ≡ true
    → scan (String.◌∷◌ c s) n b ≡ scan s (n * 10 + (code c - b'0')) true
unfolding scan
scan_step c n b s e = ground arith

scan-digit :
    (d n : ℕ) (b : Bool) (out : String)
    → d < 10
    → scan (String.◌∷◌ (digit d) out) n b ≡ scan out (n * 10 + d) true
scan-digit d n b out h =
    let e : code (digit d) - b'0' ≡ d = omega (arith, code-digit d h) in
    scan_step (digit d) n b out (is_digit-digit d h) ∙ ap (λ k. scan out (n * 10 + k) true) e

emit-zero : (fuel : ℕ) (out : String) → emit fuel 0 out ≡ out
unfolding emit
emit-zero zero out = refl
emit-zero (suc fuel) out = refl

emit_step :
    (fuel n : ℕ) (out : String)
    → 0 < n
    → emit (suc fuel) n out ≡ emit fuel (n / 10) (String.◌∷◌ (digit (n % 10)) out)
unfolding emit
emit_step fuel n out h = ground arith

scan-emit :
    (fuel n : ℕ) (b : Bool) (out : String)
    → n ≤ fuel
    → 0 < n
    → scan (emit fuel n out) 0 b ≡ scan out n true
scan-emit zero n b out le pos_n = absurd (omega arith)
scan-emit (suc fuel) n b out le pos_n = rw (emit_step fuel n out pos_n) (elim (dec_lt 0 (n / 10)) [
  | yes p ↦
      rw (scan-emit fuel (n / 10) b (String.◌∷◌ (digit (n % 10)) out) (omega arith) p)
        (scan-digit (n % 10) (n / 10) true out (omega arith) ∙ last (omega arith))
  | no p ↦
      let e : n / 10 ≡ 0 = omega arith in
      rw e (
        rw (emit-zero fuel (String.◌∷◌ (digit (n % 10)) out))
          (scan-digit (n % 10) 0 b out (omega arith) ∙ last (omega arith)))
])
  where
    last : {m : ℕ} → m ≡ n → scan out m true ≡ scan out n true
    last e = ap (λ k. scan out k true) e

-- A text that begins with a digit.
abbrev StartsWithDigit : String → Type 0
StartsWithDigit String.[] = ⊥
StartsWithDigit (String.◌∷◌ c s) = is_digit (code c) ≡ true

emit-StartsWithDigit :
    (fuel n : ℕ) (out : String) → StartsWithDigit out → StartsWithDigit (emit fuel n out)
unfolding emit
emit-StartsWithDigit zero n out h = h
emit-StartsWithDigit (suc fuel) n out h = elim (Bool-cases (n == 0)) [
  | inl e ↦ rw e h
  | inr e ↦ rw e (emit-StartsWithDigit fuel (n / 10) _ (is_digit-digit (n % 10) (omega arith)))
]

str_nat-emit : (n : ℕ) → str_nat (suc n) ≡ emit (suc n) (suc n) String.[]
unfolding str_nat
str_nat-emit n = ground arith

str_nat-StartsWithDigit : (n : ℕ) → StartsWithDigit (str_nat n)
str_nat-StartsWithDigit zero = unfold str_nat in refl
str_nat-StartsWithDigit (suc n) =
    rw (str_nat-emit n, emit_step n (suc n) String.[] (omega arith))
      (emit-StartsWithDigit n (suc n / 10) _ (is_digit-digit (suc n % 10) (omega arith)))

scan-str_nat : (n : ℕ) → scan (str_nat n) 0 false ≡ some n
scan-str_nat zero = unfold str_nat scan in refl
scan-str_nat (suc n) =
    rw (str_nat-emit n)
      (scan-emit (suc n) (suc n) false String.[] (omega arith) (omega arith) ∙ unfold scan in refl)

read_sign-digits : (s : String) → StartsWithDigit s → read_int s ≡ Option.map pos (scan s 0 false)
unfolding read_int
read_sign-digits String.[] h = absurd h
read_sign-digits (String.◌∷◌ c s) h = ground arith

-- `int(str(n))` is `n`, for every integer.
pub read_int-int_text : (n : ℤ) → read_int (int_text n) ≡ some n
unfolding int_text
read_int-int_text (pos n) =
    rw (read_sign-digits (str_nat n) (str_nat-StartsWithDigit n)) (rw (scan-str_nat n) refl)
read_int-int_text (negsuc n) = unfold read_int in rw (scan-str_nat (suc n)) refl
