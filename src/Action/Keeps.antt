-- ===== src/Action/Keeps.antt =====
-- Invariants of actions: what holds before a call holds after it, however it ends.
use txn_event_processor.Prelude.{Bool, true, false, if◌then◌else◌}
use txn_event_processor.Core.Errors.{Exn}
use txn_event_processor.Action.{
  Action, Result, ok, err, pure, raise, gets, of_result, try_except, finally, ◌>>=◌,
}

pub record Keeps {W A : Type 0} (P : W → Type 0) (m : Action W A) : Type 0 where
  pub at : (w : W) → P w → P (m w).1

module _ {W : Type 0} (P : W → Type 0) where
  module _ {A : Type 0} where
    pub pure-Keeps : (a : A) → Keeps P (pure a)
    pure-Keeps a = record { at = λ w h. h }

    pub raise-Keeps : (e : Exn) → Keeps P (raise {A = A} e)
    raise-Keeps e = record { at = λ w h. h }

    pub gets-Keeps : (f : W → A) → Keeps P (gets f)
    gets-Keeps f = record { at = λ w h. h }

    pub of_result-Keeps : (r : Result A) → Keeps P (of_result r)
    of_result-Keeps r = record { at = λ w h. h }

    pub if-Keeps :
        (b : Bool) (m n : Action W A) → Keeps P m → Keeps P n → Keeps P (if b then m else n)
    if-Keeps true m n j k = j
    if-Keeps false m n j k = k

    handled :
        (h : Exn → Action W A)
        → ((e : Exn) → Keeps P (h e))
        → (r : Result A) (u : W) → P u
        → P (elim r as (λ _. Result A × W) [ ok a ↦ (ok a, u) | err e ↦ h e u ]).1
    handled h k (ok a) u q = q
    handled h k (err e) u q = (k e).at u q

    pub try_except-Keeps :
        (m : Action W A) (h : Exn → Action W A)
        → Keeps P m
        → ((e : Exn) → Keeps P (h e))
        → Keeps P (try_except m h)
    try_except-Keeps m h j k = record { at = λ w q. handled h k (m w).0 (m w).1 (j.at w q) }

    left :
        (r : Result A) (s : Result (Unit {0})) (u : W)
        → P u
        → P (elim s as (λ _. Result A × W) [ ok _ ↦ (r, u) | err e ↦ (err e, u) ]).1
    left r (ok _) u q = q
    left r (err e) u q = q

    pub finally-Keeps :
        (m : Action W A) (after : Action W (Unit {0}))
        → Keeps P m
        → Keeps P after
        → Keeps P (finally m after)
    finally-Keeps m after j k = record {
      at = λ w q. left (m w).0 (after (m w).1).0 (after (m w).1).1 (k.at (m w).1 (j.at w q));
    }

  module _ {A B : Type 0} where
    continued :
        (f : A → Action W B)
        → ((a : A) → Keeps P (f a))
        → (r : Result A) (u : W) → P u
        → P (elim r as (λ _. Result B × W) [ ok a ↦ f a u | err e ↦ (err e, u) ]).1
    continued f k (ok a) u q = (k a).at u q
    continued f k (err e) u q = q

    pub >>=-Keeps :
        (m : Action W A) (f : A → Action W B)
        → Keeps P m
        → ((a : A) → Keeps P (f a))
        → Keeps P (m >>= f)
    >>=-Keeps m f j k = record { at = λ w q. continued f k (m w).0 (m w).1 (j.at w q) }
