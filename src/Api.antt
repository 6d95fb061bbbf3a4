-- ===== src/Api.antt =====
-- app/api/routes.py: the handlers of the HTTP API, and the exception handler of app/main.py. Of the
-- state they use the connections, the clock and the metrics. What FastAPI does around a handler
-- (reading and validating the request) is over when it runs.
pub mod Ingest
pub mod Listing
pub mod Health
pub mod Summary
pub mod Lifespan
pub mod App
use Prim.Native.String.{◌++◌ as str_append}
use mathlib.Core.Option
use txn_event_processor.Prelude.{ℕ, ◌+◌, String, Option, ◌||◌, map, if◌then◌else◌}
use txn_event_processor.Core.Errors.{
  Exn, http_exception, is_queue_fault, is_database_unavailable, str_exn,
}
use txn_event_processor.Core.Config.{Settings}
use txn_event_processor.Core.Metrics.{Metrics}
use txn_event_processor.Action.{Action, pure, raise, try_except, ◌>>=◌, ◌>>◌}
use txn_event_processor.Schemas.Datetime.{Datetime, assume_utc}
use txn_event_processor.Schemas.Events.{TransactionEventIn, accept_event}
use txn_event_processor.Schemas.Responses.{
  AcceptedResponse, UserSummary, TransactionOut, TransactionPage, ErrorBody,
}
use txn_event_processor.Db.Errors.{is_db_exception}
use txn_event_processor.Db.Models.{ProcessedTransaction}
use txn_event_processor.Db.Repository
use txn_event_processor.Db.Repository.{list_user_transactions}
use txn_event_processor.Queue.Producer.{EventProducer, publish}
use txn_event_processor.Services.External.{External}
use txn_event_processor.Services.World.{World, on_redis, on_db, on_time, count}

-- `HTTPException(status_code=503, detail=f"{what}: {exc}")`
abbrev pub unavailable : String → Exn → Exn
unavailable what exc = http_exception 503 (str_append what (str_append ": " (str_exn exc)))

-- `EVENTS_PUBLISHED.inc()`
abbrev pub inc_published : Metrics → Metrics
inc_published m = record m { events_published = m.events_published + 1 }

unfoldable pub transaction_out : ProcessedTransaction → TransactionOut
transaction_out row = record {
  id = row.id;
  user_id = row.user_id;
  amount = row.amount;
  currency = row.currency;
  rate = row.rate;
  amount_usd = row.amount_usd;
  timestamp = row.timestamp;
}

-- The status and the body of the response to a `DatabaseUnavailable` that no handler caught.
unfoldable pub database_unavailable_handler : Exn → ℕ × ErrorBody
database_unavailable_handler exc =
    (503, record { detail = str_append "database unavailable: " (str_exn exc) })

-- `app.state`, and the dependencies that hand its parts out. The client and the repository stand for
-- the connections of the external state, so that a handler holds the producer and the settings.
pub record AppState : Type 0 where
  pub settings : Settings
  pub producer : EventProducer

unfoldable pub get_settings : AppState → Settings
get_settings state = state.settings

unfoldable pub get_producer : AppState → EventProducer
get_producer state = state.producer

-- `EventProducer(redis, settings.stream_name, settings.stream_maxlen)`, as `lifespan` builds it
unfoldable pub producer_of : Settings → EventProducer
producer_of settings = record { stream = settings.stream_name; maxlen = settings.stream_maxlen }

module _ (x : External) where
  unfoldable pub ingest_event :
      EventProducer → TransactionEventIn → Action (World x) AcceptedResponse
  ingest_event producer payload = do
    now ← on_time x x.now
    let event = accept_event x.pydantic payload now
    stream_id ←
        try_except (on_redis x (publish x.redis x.pydantic producer event)) λ exc.
          if is_queue_fault exc then raise (unavailable "queue unavailable" exc) else raise exc
    count x inc_published
    pure (record { event_id = event.id; stream_id = stream_id })

  unfoldable pub get_user_summary : String → Action (World x) UserSummary
  get_user_summary user_id = do
    totals ← on_db x (Repository.user_summary x.session user_id)
    pure (record { user_id = user_id; total_usd = totals.0; transaction_count = totals.1 })

  unfoldable pub user_transactions :
      String → Option Datetime → Option Datetime → ℕ → ℕ → Action (World x) TransactionPage
  unfolding transaction_out
  user_transactions user_id from_ to limit offset = do
    page ← on_db x (
        list_user_transactions x.session user_id (Option.map assume_utc from_)
          (Option.map assume_utc to) limit offset)
    pure (record {
      items = map transaction_out page.0;
      total = page.1;
      limit = limit;
      offset = offset;
    })

  unfoldable pub liveness : Action (World x) String
  liveness = pure "alive"

  unfoldable pub readiness : Action (World x) String
  readiness = do
    try_except (on_redis x x.redis.ping)
        λ exc. if is_queue_fault exc then raise (unavailable "redis unreachable" exc) else raise exc
    try_except (on_db x (Repository.user_summary x.session "__healthcheck__")) λ exc.
        if is_database_unavailable exc || is_db_exception exc
        then raise (unavailable "database unreachable" exc)
        else raise exc
    pure "ready"
