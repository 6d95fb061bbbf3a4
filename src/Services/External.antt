-- ===== src/Services/External.antt =====
-- The libraries and servers outside the repository that the worker calls.
use txn_event_processor.Prelude.{ℕ, String}
use txn_event_processor.Action.{Action, Result}
use txn_event_processor.Money.{Decimal}
use txn_event_processor.Schemas.Datetime.{Datetime}
use txn_event_processor.Schemas.Events.{Pydantic}
use txn_event_processor.Db.Session.{Session}
use txn_event_processor.Queue.Redis.{Redis}

-- A response of the rate service; `rate` is `response.json()["rate"]`, or what evaluating it raises.
pub record Response : Type 0 where
  pub status_code : ℕ
  pub rate : Result String

-- `R`, `D`, `H` and `T` are the states of Redis, of the database with its session, of the HTTP client
-- with the rate service, and of the clocks, the event loop and the random source.
pub record External : Type 1 where
  pub R : Type 0
  pub D : Type 0
  pub H : Type 0
  pub T : Type 0
  pub redis : Redis R
  pub session : Session D
  -- `httpx.AsyncClient.get(url)`
  pub http_get : String → Action H Response
  -- `time.monotonic()`, in ticks
  pub monotonic : Action T ℕ
  -- `datetime.now(UTC)`
  pub now : Action T Datetime
  pub uniform : ℕ → ℕ → Action T ℕ
  pub sleep : ℕ → Action T (Unit {0})
  pub pydantic : Pydantic
  -- `Decimal(text)` and `repr(text)`
  pub decimal : String → Result Decimal
  pub repr : String → String
