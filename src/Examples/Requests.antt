-- ===== src/Examples/Requests.antt =====
-- A request to the API at the site in memory.
use txn_event_processor.Schemas.Envelope.{new_envelope, to_fields}
use txn_event_processor.Db.Repository.{user_summary}
use txn_event_processor.Db.Errors.{classify_db_error, is_db_exception}
use txn_event_processor.Prelude.{some, ◌≡◌, refl, arith}
use txn_event_processor.Action.{ok}
use txn_event_processor.Schemas.Events.{accept_event}
use txn_event_processor.Schemas.Responses.{AcceptedResponse}
use txn_event_processor.Queue.Producer.{publish, EventProducer}
use txn_event_processor.Action.{err}
use txn_event_processor.Prelude.{none, []}
use txn_event_processor.Core.Errors.{str_exn, is_database_unavailable, Exn, sqlalchemy_error}
use txn_event_processor.Services.External.{External}
use txn_event_processor.Services.World.{World}
use txn_event_processor.Core.Logging.Setup.{Loggers}
use txn_event_processor.Api.{database_unavailable_handler, get_user_summary, AppState}
use txn_event_processor.Api.App.{router, App, create_app, get_summary, failure}
use txn_event_processor.Api.App.Failures.{whole, outage, router-outage}
use txn_event_processor.Fakes.Web.{serve, serve-IsFastapi, connections}
use txn_event_processor.Fakes.Site.{settings}
use txn_event_processor.Api.Health.{verdict, readiness-verdict}
use txn_event_processor.Fakes.Database.{database}
use txn_event_processor.Fakes.Site.{no_metrics}
use txn_event_processor.Api.{readiness, ingest_event}
use txn_event_processor.Api.Ingest.{IsQueued, ingest_event-IsQueued}
use txn_event_processor.Fakes.Json.{library-IsPydantic}
use txn_event_processor.Fakes.Queue.{server_pending, server_entries, server-IsRedis}
use txn_event_processor.Fakes.Site.{site, start, payment}

abbrev capped : EventProducer
capped = record { stream = "events"; maxlen = some 100000 }

abbrev accepted : AcceptedResponse
accepted = record { event_id = "e-1"; stream_id = "1-0" }

accepts : (ingest_event (site 200) capped payment.event_in (start 200)).0 ≡ ok accepted
unfolding ingest_event publish accept_event to_fields new_envelope
accepts = refl

ingest_event-IsQueued_example :
    IsQueued
      (site 200)
      server_pending
      server_entries
      server-IsRedis
      library-IsPydantic
      capped
      payment.event_in
      accepted
      (ingest_event (site 200) capped payment.event_in (start 200)).1.redis
ingest_event-IsQueued_example =
    ingest_event-IsQueued (site 200) server_pending server_entries server-IsRedis library-IsPydantic
      capped payment.event_in (omega arith) (start 200) accepted accepts

-- A database without the table, as `create_all` has not run yet.
abbrev no_table : Exn
no_table =
    sqlalchemy_error (record { text = "no such table"; sqlstate = some "42P01"; orig = none })

abbrev bare_site : External
bare_site = record (site 200) {
  session = record database { sum_and_count = λ c cs d. (err no_table, d) };
}

abbrev bare_start : World bare_site
bare_start = record {
  redis = (start 200).redis;
  db = (start 200).db;
  http = tt;
  time = 100;
  cache = [];
  metrics = no_metrics;
}

readiness-verdict_example : (readiness bare_site bare_start).0 ≡ verdict (ok tt) (err no_table)
readiness-verdict_example = readiness-verdict bare_site bare_start

-- A database that has gone away.
abbrev gone : Exn
gone = sqlalchemy_error (record { text = "gone"; sqlstate = some "08006"; orig = none })

abbrev down_site : External
down_site = record (site 200) {
  session = record database { sum_and_count = λ c cs d. (err gone, d) };
}

abbrev down_start : World down_site
down_start = record {
  redis = (start 200).redis;
  db = (start 200).db;
  http = tt;
  time = 100;
  cache = [];
  metrics = no_metrics;
}

abbrev loggers : Loggers
loggers = record { handlers = []; root_level = "WARNING"; levels = [] }

abbrev app : App down_site
app = whole down_site (connections down_site) settings

builds :
    (create_app down_site (connections down_site) (λ t. "INFO") (λ t. ok t) (ok settings) loggers).0
    ≡ ok app
unfolding create_app
builds = refl

abbrev state : AppState
state = record { settings = settings; producer = capped }

router-outage_example :
    serve down_site app state (get_summary "u-1") down_start ≡ (outage gone, down_start)
unfolding is_db_exception
router-outage_example =
    router-outage down_site (connections down_site) (λ t. "INFO") (λ t. ok t) (serve down_site)
      (serve-IsFastapi down_site) (ok settings) loggers app builds state (get_summary "u-1")
      down_start gone down_start.db refl refl

unavailable_503 :
    (serve down_site app state (get_summary "u-1") down_start).0
    ≡ ok (503, failure (record { detail = "database unavailable: gone" }))
unfolding router get_user_summary user_summary is_db_exception classify_db_error
    is_database_unavailable database_unavailable_handler str_exn
unavailable_503 = refl
