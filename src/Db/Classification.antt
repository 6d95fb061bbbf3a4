-- ===== src/Db/Classification.antt =====
-- app/db/errors.py and the repository's except clauses, on the exceptions that come out.
use txn_event_processor.Prelude.{
  true, false, ◌≡◌, refl, arith, Bool-cases, inl, inr, none, some, ◌⊎◌,
}
use txn_event_processor.Core.Errors.{
  Exn, is_transient, app_error, transient_error, permanent_error, rate_service_unavailable,
  unknown_currency, database_unavailable, key_error, value_error, os_error, sqlalchemy_error,
  postgres_error, redis_error, response_error, request_error, status_error, http_exception,
  other_exception, shutdown_requested, cancelled, str_exn,
}
use txn_event_processor.Action.{Action, err, run-cases}
use txn_event_processor.Db.Errors.{
  is_db_exception, is_os_error, is_transient_state, sqlstate_of, classify_db_error,
}
use txn_event_processor.Db.Repository.{classified}
use txn_event_processor.Db.Retryable.{
  is_retryable, IsRetryable, is_retryable-IsRetryable, IsRetryable-is_retryable,
}

-- No database exception is a `TransientError` by itself.
db_not_transient : (e : Exn) → is_db_exception e ≡ true → is_transient e ≡ false
unfolding is_db_exception is_transient
db_not_transient (os_error _) h = refl
db_not_transient (sqlalchemy_error _) h = refl
db_not_transient (postgres_error _) h = refl
db_not_transient (app_error _) h = refl
db_not_transient (permanent_error _) h = refl
db_not_transient (unknown_currency _) h = refl
db_not_transient (key_error _) h = refl
db_not_transient (value_error _) h = refl
db_not_transient (redis_error _) h = refl
db_not_transient (response_error _) h = refl
db_not_transient (request_error _) h = refl
db_not_transient (status_error _) h = refl
db_not_transient (http_exception _ _) h = refl
db_not_transient (other_exception _) h = refl
db_not_transient shutdown_requested h = refl
db_not_transient cancelled h = refl
db_not_transient (transient_error _) h = absurd (cc h)
db_not_transient (rate_service_unavailable _) h = absurd (cc h)
db_not_transient (database_unavailable _) h = absurd (cc h)

classify_cases :
    (e : Exn)
    → ((classify_db_error e ≡ none) × (is_retryable e ≡ false))
      ⊎ ((x : Exn) × (classify_db_error e ≡ some x)
          × (is_transient x ≡ true)
          × (is_retryable e ≡ true))
unfolding classify_db_error is_transient
classify_cases e = elim (Bool-cases (is_os_error e)) [
  | inl p ↦ inr (database_unavailable (str_exn e), ground arith, refl, ground arith)
  | inr p ↦ elim (Bool-cases (is_transient_state (sqlstate_of e))) [
    | inl q ↦ inr (database_unavailable (str_exn e), ground arith, refl, ground arith)
    | inr q ↦ inl (ground arith, ground arith)
  ]
]

module _ {D A : Type 0} (m : Action D A) (d : D) (e : Exn) (raised : (m d).0 ≡ err e)
    (known : is_db_exception e ≡ true) where
  classified_passes : classify_db_error e ≡ none → (classified m d).0 ≡ err e
  unfolding classified
  classified_passes z = elim (run-cases m d) [
    | inl (a, u, q) ↦ absurd (ground arith)
    | inr (y, u, q) ↦ let k : y ≡ e = ground arith in ground arith
  ]

  classified_turns : (x : Exn) → classify_db_error e ≡ some x → (classified m d).0 ≡ err x
  unfolding classified
  classified_turns x z = elim (run-cases m d) [
    | inl (a, u, q) ↦ absurd (ground arith)
    | inr (y, u, q) ↦ let k : y ≡ e = ground arith in ground arith
  ]

  -- When a repository call meets a database exception `e`, an exception leaves it that is a
  -- `TransientError` exactly if `e` is an `OSError` or reports a SQLSTATE of class 08, 40, 53 or
  -- 57, where an exception reports its own SQLSTATE, or that of the exception it wraps if its own
  -- is missing or empty.
  pub classified_raises :
      (x : Exn) × ((classified m d).0 ≡ err x)
      × (is_transient x ≡ true → IsRetryable e)
      × (IsRetryable e → is_transient x ≡ true)
  classified_raises = elim (classify_cases e) [
    | inl (z, r) ↦ (
      e,
      classified_passes z,
      (λ t. absurd (cc (t, db_not_transient e known))),
      λ n. absurd (cc (r, IsRetryable-is_retryable e n)),
    )
    | inr (x, z, t, r) ↦ (x, classified_turns x z, (λ _. is_retryable-IsRetryable e r), λ _. t)
  ]
