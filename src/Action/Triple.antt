-- ===== src/Action/Triple.antt =====
-- Pre- and postconditions of actions: what holds when a call returns, and what when it raises.
use txn_event_processor.Prelude.{◌≡◌, refl, Bool, true, false, if◌then◌else◌}
use txn_event_processor.Core.Errors.{Exn}
use txn_event_processor.Action.{Action, Result, ok, err, try_except, ◌>>=◌}
use txn_event_processor.Action.Keeps.{Keeps}

-- What a result with its state has to meet.
abbrev pub After : {W A : Type 0} → (A → W → Type 0) → (Exn → W → Type 0) → Result A → W → Type 0
After Q E (ok a) w = Q a w
After Q E (err e) w = E e w

pub record Triple {W A : Type 0} (P : W → Type 0) (m : Action W A) (Q : A → W → Type 0)
    (E : Exn → W → Type 0) : Type 0 where
  pub at : (w : W) → P w → After Q E (m w).0 (m w).1

module _ {W : Type 0} where
  After-both :
      {A : Type 0} (P : W → Type 0) (r : Result A) (w : W)
      → P w
      → After (λ a v. P v) (λ e v. P v) r w
  After-both P (ok a) w h = h
  After-both P (err e) w h = h

  pub Keeps-Triple :
      {A : Type 0} (P : W → Type 0) (m : Action W A)
      → Keeps P m
      → Triple P m (λ a v. P v) (λ e v. P v)
  Keeps-Triple P m k = record { at = λ w h. After-both P (m w).0 (m w).1 (k.at w h) }

  pub weaken-Triple :
      {A : Type 0} (P : W → Type 0) (m : Action W A) (Q S : A → W → Type 0) (E F : Exn → W → Type 0)
      → Triple P m Q E
      → ((a : A) (v : W) → Q a v → S a v)
      → ((e : Exn) (v : W) → E e v → F e v)
      → Triple P m S F
  weaken-Triple P m Q S E F t f g = record { at = λ w h. weak (m w).0 (m w).1 (t.at w h) }
    where
      weak : (r : Result _) (v : W) → After Q E r v → After S F r v
      weak (ok a) v h = f a v h
      weak (err e) v h = g e v h

  pub if-Triple :
      {A : Type 0} (P : W → Type 0) (b : Bool) (m n : Action W A) (Q : A → W → Type 0)
      (E : Exn → W → Type 0)
      → (b ≡ true → Triple P m Q E)
      → (b ≡ false → Triple P n Q E)
      → Triple P (if b then m else n) Q E
  if-Triple P true m n Q E f g = f refl
  if-Triple P false m n Q E f g = g refl

  module _ {A B : Type 0} (P : W → Type 0) (Q : A → W → Type 0) (S : B → W → Type 0)
      (E : Exn → W → Type 0) where
    continued :
        (f : A → Action W B)
        → ((a : A) → Triple (Q a) (f a) S E)
        → (r : Result A) (u : W) → After Q E r u
        → let z : Result B × W = elim r [ ok a ↦ f a u | err e ↦ (err e, u) ] in After S E z.0 z.1
    continued f k (ok a) u h = (k a).at u h
    continued f k (err e) u h = h

    pub >>=-Triple :
        (m : Action W A) (f : A → Action W B)
        → Triple P m Q E
        → ((a : A) → Triple (Q a) (f a) S E)
        → Triple P (m >>= f) S E
    >>=-Triple m f t k = record { at = λ w h. continued f k (m w).0 (m w).1 (t.at w h) }

  module _ {A : Type 0} (P : W → Type 0) (Q : A → W → Type 0) (E F : Exn → W → Type 0) where
    handled :
        (g : Exn → Action W A)
        → ((e : Exn) → Triple (E e) (g e) Q F)
        → (r : Result A) (u : W) → After Q E r u
        → let z : Result A × W = elim r [ ok a ↦ (ok a, u) | err e ↦ g e u ] in After Q F z.0 z.1
    handled g k (ok a) u h = h
    handled g k (err e) u h = (k e).at u h

    pub try_except-Triple :
        (m : Action W A) (g : Exn → Action W A)
        → Triple P m Q E
        → ((e : Exn) → Triple (E e) (g e) Q F)
        → Triple P (try_except m g) Q F
    try_except-Triple m g t k = record { at = λ w h. handled g k (m w).0 (m w).1 (t.at w h) }
