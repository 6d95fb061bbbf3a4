-- ===== src/Db/Errors.antt =====
-- app/db/errors.py: which database errors are worth a retry.
use txn_event_processor.Prelude.{
  String, Option, none, some, Bool, true, false, List, [], ◌∷◌, ◌||◌, str_eq, if◌then◌else◌, ℕ,
  zero, suc,
}
use txn_event_processor.Core.Errors.{
  Exn, os_error, sqlalchemy_error, postgres_error, database_unavailable, str_exn,
}

-- `isinstance(exc, DB_EXCEPTIONS)`
unfoldable pub is_db_exception : Exn → Bool
is_db_exception (os_error _) = true
is_db_exception (sqlalchemy_error _) = true
is_db_exception (postgres_error _) = true
is_db_exception _ = false

abbrev pub transient_sqlstate_classes : List String
transient_sqlstate_classes = "08" ∷ "40" ∷ "53" ∷ "57" ∷ []

abbrev pub is_one_of : List String → String → Bool
is_one_of [] s = false
is_one_of (x ∷ xs) s = str_eq x s || is_one_of xs s

-- `text[:n]`
abbrev pub prefix : ℕ → String → String
prefix zero s = String.[]
prefix (suc n) String.[] = String.[]
prefix (suc n) (String.◌∷◌ c s) = String.◌∷◌ c (prefix n s)

-- `getattr(exc, "sqlstate", None)`
unfoldable pub own_sqlstate : Exn → Option String
own_sqlstate (sqlalchemy_error f) = f.sqlstate
own_sqlstate (postgres_error f) = f.sqlstate
own_sqlstate _ = none

-- `getattr(getattr(exc, "orig", None), "sqlstate", None)`
abbrev pub orig_state : Option (Option String) → Option String
orig_state none = none
orig_state (some state) = state

unfoldable pub orig_sqlstate : Exn → Option String
orig_sqlstate (sqlalchemy_error f) = orig_state f.orig
orig_sqlstate (postgres_error f) = orig_state f.orig
orig_sqlstate _ = none

-- `a or b`, where `None` and the empty text are false.
abbrev pub or_else : Option String → Option String → Option String
or_else none b = b
or_else (some a) b = if str_eq a "" then b else some a

unfoldable pub sqlstate_of : Exn → Option String
unfolding own_sqlstate orig_sqlstate
sqlstate_of exc = or_else (own_sqlstate exc) (orig_sqlstate exc)

abbrev pub is_os_error : Exn → Bool
is_os_error (os_error _) = true
is_os_error _ = false

-- `sqlstate is not None and sqlstate[:2] in _TRANSIENT_SQLSTATE_CLASSES`
abbrev pub is_transient_state : Option String → Bool
is_transient_state none = false
is_transient_state (some state) = is_one_of transient_sqlstate_classes (prefix 2 state)

unfoldable pub classify_db_error : Exn → Option Exn
unfolding sqlstate_of
classify_db_error exc =
    if is_os_error exc
    then some (database_unavailable (str_exn exc))
    else if is_transient_state (sqlstate_of exc)
    then some (database_unavailable (str_exn exc))
    else none
