-- ===== src/Db/Retryable.antt =====
-- The errors of app/db/errors.py that a retry may mend, told from the parts of the exception.
use txn_event_processor.Prelude.{
  Option, eq_iff, str_eq, ap, if◌then◌else◌, Bool, true, false, ◌≡◌, refl, arith, ◌||◌, Bool-cases,
  inl, inr, none, some, ◌∙◌, sym, ◌⊎◌,
}
use Prim.Native.Char.{Char}
use txn_event_processor.Prelude.{String, ◌≢◌}
use txn_event_processor.Core.Errors.{
  Exn, app_error, transient_error, permanent_error, rate_service_unavailable, unknown_currency,
  database_unavailable, key_error, value_error, os_error, sqlalchemy_error, postgres_error,
  redis_error, response_error, request_error, status_error, http_exception, other_exception,
  shutdown_requested, cancelled,
}
use txn_event_processor.Db.Errors.{
  orig_state, or_else, is_one_of, transient_sqlstate_classes, is_os_error, is_transient_state,
  sqlstate_of,
}

-- The condition under which an error is worth a retry.
abbrev pub is_retryable : Exn → Bool
is_retryable e = is_os_error e || is_transient_state (sqlstate_of e)

-- The same, said of the exception's parts. A SQLSTATE is five characters, of which the first two are
-- its class: 08 is a lost connection, 40 a rollback, 53 a lack of resources, 57 an intervention.
abbrev InClass : Char → Char → String → Type 0
InClass c d s = (rest : String) × (s ≡ String.◌∷◌ c (String.◌∷◌ d rest))

abbrev IsTransientClass : String → Type 0
IsTransientClass s =
    InClass "0" "8" s ⊎ (InClass "4" "0" s ⊎ (InClass "5" "3" s ⊎ InClass "5" "7" s))

-- The SQLSTATE that a fault reports: its own, or that of the wrapped exception where its own is
-- missing or empty.
abbrev Reports : Option String → Option (Option String) → String → Type 0
Reports own orig s =
    ((own ≡ some s) × (s ≢ "")) ⊎ (((own ≡ none) ⊎ (own ≡ some "")) × (orig ≡ some (some s)))

abbrev HasTransientState : Option String → Option (Option String) → Type 0
HasTransientState own orig = (s : String) × Reports own orig s × IsTransientClass s

-- Errors that a retry may mend: the connection's, and those whose SQLSTATE says so.
abbrev pub IsRetryable : Exn → Type 0
IsRetryable (os_error _) = Unit
IsRetryable (sqlalchemy_error f) = HasTransientState f.sqlstate f.orig
IsRetryable (postgres_error f) = HasTransientState f.sqlstate f.orig
IsRetryable _ = ⊥

graft : String → String → String
graft String.[] t = t
graft (String.◌∷◌ c s) t = String.◌∷◌ c (graft s t)

has_two : String → Bool
has_two String.[] = false
has_two (String.◌∷◌ c String.[]) = false
has_two (String.◌∷◌ c (String.◌∷◌ d s)) = true

-- The class that the first two characters are.
in_class-cases :
    (p : String)
    → is_one_of transient_sqlstate_classes p ≡ true
    → ("08" ≡ p) ⊎ (("40" ≡ p) ⊎ (("53" ≡ p) ⊎ ("57" ≡ p)))
in_class-cases p h = elim (Bool-cases (str_eq "08" p)) [
  | inl a ↦ inl ((eq_iff "08" p).0 a)
  | inr a ↦ elim (Bool-cases (str_eq "40" p)) [
    | inl b ↦ inr (inl ((eq_iff "40" p).0 b))
    | inr b ↦ elim (Bool-cases (str_eq "53" p)) [
      | inl c ↦ inr (inr (inl ((eq_iff "53" p).0 c)))
      | inr c ↦ elim (Bool-cases (str_eq "57" p)) [
        | inl d ↦ inr (inr (inr ((eq_iff "57" p).0 d)))
        | inr d ↦ absurd (ground arith)
      ]
    ]
  ]
]

too_short :
    (p : String) → has_two p ≡ false → ("08" ≡ p) ⊎ (("40" ≡ p) ⊎ (("53" ≡ p) ⊎ ("57" ≡ p))) → ⊥
unfolding has_two
too_short p h (inl e) = cc (h, ap has_two e)
too_short p h (inr (inl e)) = cc (h, ap has_two e)
too_short p h (inr (inr (inl e))) = cc (h, ap has_two e)
too_short p h (inr (inr (inr e))) = cc (h, ap has_two e)

in_class : (s : String) → is_transient_state (some s) ≡ true → IsTransientClass s
unfolding graft has_two
in_class String.[] h = absurd (cc h)
in_class (String.◌∷◌ c String.[]) h =
    let p = String.◌∷◌ c String.[] in absurd (too_short p refl (in_class-cases p h))
in_class (String.◌∷◌ c (String.◌∷◌ d rest)) h =
    elim (in_class-cases (String.◌∷◌ c (String.◌∷◌ d String.[])) h) [
      | inl e ↦ inl (rest, sym (ap (λ t. graft t rest) e))
      | inr (inl e) ↦ inr (inl (rest, sym (ap (λ t. graft t rest) e)))
      | inr (inr (inl e)) ↦ inr (inr (inl (rest, sym (ap (λ t. graft t rest) e))))
      | inr (inr (inr e)) ↦ inr (inr (inr (rest, sym (ap (λ t. graft t rest) e))))
    ]

class_test : (s : String) → IsTransientClass s → is_transient_state (some s) ≡ true
class_test s (inl (rest, e)) = rw e refl
class_test s (inr (inl (rest, e))) = rw e refl
class_test s (inr (inr (inl (rest, e)))) = rw e refl
class_test s (inr (inr (inr (rest, e)))) = rw e refl

orig_test :
    (own : Option String) (orig : Option (Option String))
    → ((own ≡ none) ⊎ (own ≡ some ""))
    → is_transient_state (orig_state orig) ≡ true
    → HasTransientState own orig
orig_test own none m h = absurd (cc h)
orig_test own (some none) m h = absurd (cc h)
orig_test own (some (some s)) m h = (s, inr (m, refl), in_class s h)

test_state :
    (own : Option String) (orig : Option (Option String))
    → is_transient_state (or_else own (orig_state orig)) ≡ true
    → HasTransientState own orig
test_state none orig h = orig_test none orig (inl refl) h
test_state (some s) orig h = elim (Bool-cases (str_eq s "")) [
  | inl e ↦
      orig_test (some s) orig (inr (ap some ((eq_iff s "").0 e)))
        (ap (λ b. is_transient_state (if b then orig_state orig else some s)) (sym e) ∙ h)
  | inr e ↦ (
    s,
    inl (refl, λ p. cc (e, (eq_iff s "").1 p)),
    in_class s (ap (λ b. is_transient_state (if b then orig_state orig else some s)) (sym e) ∙ h),
  )
]

state_test :
    (own : Option String) (orig : Option (Option String))
    → HasTransientState own orig
    → is_transient_state (or_else own (orig_state orig)) ≡ true
state_test own orig (s, inr (inl p, q), c) = rw (p, q) (class_test s c)
state_test own orig (s, inr (inr p, q), c) = rw (p, q) (class_test s c)
state_test own orig (s, inl (p, ne), c) = elim (Bool-cases (str_eq s "")) [
  | inl e ↦ absurd (ne ((eq_iff s "").0 e))
  | inr e ↦ rw (p, e) (class_test s c)
]

pub is_retryable-IsRetryable : (e : Exn) → is_retryable e ≡ true → IsRetryable e
unfolding sqlstate_of
is_retryable-IsRetryable (os_error _) h = tt
is_retryable-IsRetryable (sqlalchemy_error f) h = test_state f.sqlstate f.orig h
is_retryable-IsRetryable (postgres_error f) h = test_state f.sqlstate f.orig h
is_retryable-IsRetryable (app_error _) h = absurd (cc h)
is_retryable-IsRetryable (transient_error _) h = absurd (cc h)
is_retryable-IsRetryable (permanent_error _) h = absurd (cc h)
is_retryable-IsRetryable (rate_service_unavailable _) h = absurd (cc h)
is_retryable-IsRetryable (unknown_currency _) h = absurd (cc h)
is_retryable-IsRetryable (database_unavailable _) h = absurd (cc h)
is_retryable-IsRetryable (key_error _) h = absurd (cc h)
is_retryable-IsRetryable (value_error _) h = absurd (cc h)
is_retryable-IsRetryable (redis_error _) h = absurd (cc h)
is_retryable-IsRetryable (response_error _) h = absurd (cc h)
is_retryable-IsRetryable (request_error _) h = absurd (cc h)
is_retryable-IsRetryable (status_error _) h = absurd (cc h)
is_retryable-IsRetryable (http_exception _ _) h = absurd (cc h)
is_retryable-IsRetryable (other_exception _) h = absurd (cc h)
is_retryable-IsRetryable shutdown_requested h = absurd (cc h)
is_retryable-IsRetryable cancelled h = absurd (cc h)

pub IsRetryable-is_retryable : (e : Exn) → IsRetryable e → is_retryable e ≡ true
unfolding sqlstate_of
IsRetryable-is_retryable (os_error _) h = refl
IsRetryable-is_retryable (sqlalchemy_error f) h = state_test f.sqlstate f.orig h
IsRetryable-is_retryable (postgres_error f) h = state_test f.sqlstate f.orig h
IsRetryable-is_retryable (app_error _) h = absurd h
IsRetryable-is_retryable (transient_error _) h = absurd h
IsRetryable-is_retryable (permanent_error _) h = absurd h
IsRetryable-is_retryable (rate_service_unavailable _) h = absurd h
IsRetryable-is_retryable (unknown_currency _) h = absurd h
IsRetryable-is_retryable (database_unavailable _) h = absurd h
IsRetryable-is_retryable (key_error _) h = absurd h
IsRetryable-is_retryable (value_error _) h = absurd h
IsRetryable-is_retryable (redis_error _) h = absurd h
IsRetryable-is_retryable (response_error _) h = absurd h
IsRetryable-is_retryable (request_error _) h = absurd h
IsRetryable-is_retryable (status_error _) h = absurd h
IsRetryable-is_retryable (http_exception _ _) h = absurd h
IsRetryable-is_retryable (other_exception _) h = absurd h
IsRetryable-is_retryable shutdown_requested h = absurd h
IsRetryable-is_retryable cancelled h = absurd h
