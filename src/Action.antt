-- ===== src/Action.antt =====
-- A coroutine of the program: it reads and writes the state `W` of the objects and services that it
-- holds, and returns or raises. What was written before a raise stays written. An `await` that is
-- cancelled raises `cancelled`, so a task that is cancelled or killed at any `await` is a run too.
pub mod Keeps
pub mod Triple
use txn_event_processor.Prelude.{◌≡◌, refl, Bool, true, false, if◌then◌else◌, arith, ◌⊎◌, inl, inr}
use txn_event_processor.Core.Errors.{Exn}

pub data Result {ℓ} (A : Type ℓ) : Type ℓ where
  ok : A → Result A
  err : Exn → Result A

abbrev pub Action : Type 0 → Type 0 → Type 0
Action W A = W → Result A × W

module _ {W A : Type 0} where
  abbrev pub pure : A → Action W A
  pure a w = (ok a, w)

  abbrev pub raise : Exn → Action W A
  raise e w = (err e, w)

  abbrev pub gets : (W → A) → Action W A
  gets f w = (ok (f w), w)

  abbrev pub of_result : Result A → Action W A
  of_result r w = (r, w)

  -- `try: m` with the clauses `except … : h`; the handler raises again what it does not match.
  abbrev pub try_except : Action W A → (Exn → Action W A) → Action W A
  try_except m h w = let (r, w') = m w in elim r [ ok a ↦ (ok a, w') | err e ↦ h e w' ]

module _ {W : Type 0} where
  abbrev pub modify : (W → W) → Action W (Unit {0})
  modify f w = (ok tt, f w)

infixl 5 ◌>>=◌ ◌>>◌
abbrev pub ◌>>=◌ : {W A B : Type 0} → Action W A → (A → Action W B) → Action W B
◌>>=◌ m f w = let (r, w') = m w in elim r [ ok a ↦ f a w' | err e ↦ (err e, w') ]

abbrev pub ◌>>◌ : {W A B : Type 0} → Action W A → Action W B → Action W B
m >> k = m >>= λ _. k

-- `finally: after`, which runs however `m` ends; what it raises itself takes precedence.
abbrev pub finally : {W A : Type 0} → Action W A → Action W (Unit {0}) → Action W A
finally m after w =
    let (r, w') = m w in
    let (q, w'') = after w' in elim q [ ok _ ↦ (r, w'') | err e ↦ (err e, w'') ]

-- Every call has returned or raised.
pub Result-cases {ℓ} :
    {A : Type ℓ} (r : Result A) → ((a : A) × (r ≡ ok a)) ⊎ ((e : Exn) × (r ≡ err e))
Result-cases (ok a) = inl (a, refl)
Result-cases (err e) = inr (e, refl)

-- The same of an action, with the state that it leaves.
pub run-cases :
    {W A : Type 0} (m : Action W A) (w : W)
    → ((a : A) × (v : W) × (m w ≡ (ok a, v))) ⊎ ((e : Exn) × (v : W) × (m w ≡ (err e, v)))
run-cases m w = elim (Result-cases (m w).0) [
  | inl (a, p) ↦ inl (a, (m w).1, λ i. (p i, (m w).1))
  | inr (e, p) ↦ inr (e, (m w).1, λ i. (p i, (m w).1))
]

-- The same chain for results alone.
abbrev pub and_then : {A B : Type 0} → Result A → (A → Result B) → Result B
and_then (ok a) f = f a
and_then (err e) f = err e

-- Inversion of a chain that returns.
pub >>=-returns :
    {W A B : Type 0} (m : Action W A) (f : A → Action W B) (w : W) (b : B)
    → ((m >>= f) w).0 ≡ ok b
    → (a : A) × (v : W) × (m w ≡ (ok a, v)) × ((m >>= f) w ≡ f a v)
>>=-returns m f w b h = elim (run-cases m w) [
  | inl (a, v, p) ↦ (a, v, p, ground arith)
  | inr (e, v, p) ↦ absurd (ground arith)
]
