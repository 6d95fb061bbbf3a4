-- ===== src/Core/Errors.antt =====
-- app/core/errors.py, and the exceptions of other libraries that the code catches or lets pass.
use Prim.Native.String.{◌++◌ as str_append}
use txn_event_processor.Prelude.Digits.{str_nat}
use txn_event_processor.Prelude.{String, Option, Bool, true, false, ℕ}

-- What a database exception carries: its text, its own `sqlstate` attribute, and `orig`, the
-- wrapped driver exception with that one's `sqlstate`.
pub record DbFault : Type 0 where
  pub text : String
  pub sqlstate : Option String
  pub orig : Option (Option String)

-- One constructor for each exception class that the code tells apart.
pub data Exn : Type 0 where
  -- `AppError`, and the two bases of the taxonomy raised directly
  app_error transient_error permanent_error : String → Exn
  rate_service_unavailable unknown_currency database_unavailable : String → Exn
  -- Python's own
  key_error value_error os_error : String → Exn
  -- `SQLAlchemyError`, `asyncpg.exceptions.PostgresError`
  sqlalchemy_error postgres_error : DbFault → Exn
  -- `RedisError`, and its subclass `ResponseError`
  redis_error response_error : String → Exn
  -- `httpx.RequestError`, `httpx.HTTPStatusError`
  request_error status_error : String → Exn
  -- `fastapi.HTTPException`
  http_exception : ℕ → String → Exn
  -- any other subclass of `Exception`
  other_exception : String → Exn
  -- `_ShutdownRequested` of app/worker.py
  shutdown_requested : Exn
  -- `asyncio.CancelledError`, a `BaseException` that is no `Exception`
  cancelled : Exn

-- `isinstance(exc, TransientError)`
unfoldable pub is_transient : Exn → Bool
is_transient (transient_error _) = true
is_transient (rate_service_unavailable _) = true
is_transient (database_unavailable _) = true
is_transient _ = false

-- `isinstance(exc, PermanentError)`
unfoldable pub is_permanent : Exn → Bool
is_permanent (permanent_error _) = true
is_permanent (unknown_currency _) = true
is_permanent _ = false

-- `isinstance(exc, DatabaseUnavailable)`
unfoldable pub is_database_unavailable : Exn → Bool
is_database_unavailable (database_unavailable _) = true
is_database_unavailable _ = false

-- `isinstance(exc, Exception)`
unfoldable pub is_exception : Exn → Bool
is_exception cancelled = false
is_exception _ = true

-- `isinstance(exc, (OSError, RedisError))`
unfoldable pub is_queue_fault : Exn → Bool
is_queue_fault (os_error _) = true
is_queue_fault (redis_error _) = true
is_queue_fault (response_error _) = true
is_queue_fault _ = false

-- `repr(key)`, for the keys that the code looks up: they have no quote, backslash or control
-- character.
abbrev repr_key : String → String
repr_key key = str_append "'" (str_append key "'")

-- `str(exc)`; a `KeyError` shows its key as `repr` does, an `HTTPException` its status too.
unfoldable pub str_exn : Exn → String
str_exn (app_error s) = s
str_exn (transient_error s) = s
str_exn (permanent_error s) = s
str_exn (rate_service_unavailable s) = s
str_exn (unknown_currency s) = s
str_exn (database_unavailable s) = s
str_exn (key_error s) = repr_key s
str_exn (value_error s) = s
str_exn (os_error s) = s
str_exn (sqlalchemy_error f) = f.text
str_exn (postgres_error f) = f.text
str_exn (redis_error s) = s
str_exn (response_error s) = s
str_exn (request_error s) = s
str_exn (status_error s) = s
str_exn (http_exception code s) = str_append (str_nat code) (str_append ": " s)
str_exn (other_exception s) = s
str_exn shutdown_requested = ""
str_exn cancelled = ""

-- `isinstance(exc, (KeyError, ValueError))`
unfoldable pub is_parse_error : Exn → Bool
is_parse_error (key_error _) = true
is_parse_error (value_error _) = true
is_parse_error _ = false
