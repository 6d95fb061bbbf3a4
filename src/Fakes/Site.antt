-- ===== src/Fakes/Site.antt =====
-- One site: the servers, a clock, and a rate service that answers every currency alike.
use txn_event_processor.Prelude.{true, arith, ℕ, ◌+◌, none, some, false, [], ◌∷◌}
use txn_event_processor.Prelude.Int.{pos, neg}
use txn_event_processor.Core.Metrics.{Metrics}
use txn_event_processor.Core.Config.{Settings, IsChecked}
use txn_event_processor.Action.{ok}
use txn_event_processor.Money.{Decimal}
use txn_event_processor.Schemas.Datetime.{Datetime}
use txn_event_processor.Schemas.Events.{TransactionEvent}
use txn_event_processor.Queue.Consumer.{StreamConsumer, StreamMessage}
use txn_event_processor.Services.External.{External}
use txn_event_processor.Services.RateClient.{RateClient}
use txn_event_processor.Services.World.{World}
use txn_event_processor.Fakes.Json.{library}
use txn_event_processor.Fakes.Queue.{first_fields, Streams, server}
use txn_event_processor.Fakes.Database.{Table, database}

abbrev pub half : Decimal
half = record { negative = false; coeff = 5; exp = neg 1 }

abbrev pub noon : Datetime
noon = record { local = 43200; tzinfo = some (pos 0) }

-- The site, with the status code of every response.
abbrev pub site : ℕ → External
site status = record {
  R = Streams;
  D = Table;
  H = Unit {0};
  T = ℕ;
  redis = server;
  session = database;
  http_get = λ url h. (ok (record { status_code = status; rate = ok "0.5" }), h);
  monotonic = λ t. (ok t, t);
  now = λ t. (ok noon, t);
  uniform = λ lo hi t. (ok hi, t);
  sleep = λ d t. (ok tt, t + d);
  pydantic = library;
  decimal = λ text. ok half;
  repr = λ text. text;
}

abbrev pub rate_client : RateClient
rate_client = record { base_url = "http://rate-service"; cache_ttl_s = 60 }

abbrev pub settings : Settings
settings = record {
  stream_name = "events";
  consumer_group = "workers";
  consumer_name = "worker-1";
  batch_size = 10;
  block_ms = 5000;
  stream_maxlen = none;
  max_deliveries = 3;
  reclaim_interval_s = 30;
  min_idle_ms = 60000;
  rate_attempts = 2;
  db_attempts = 2;
  retry_base_delay_s = 1;
  retry_max_delay_s = 4;
  db_startup_attempts = 10;
  db_startup_base_delay_s = 1;
  rate_service_url = "http://rate-service";
  rate_cache_ttl_s = 60;
  rate_service_timeout_s = 2;
  database_url = "postgresql+asyncpg://postgres:5432/txn_events";
  redis_url = "redis://redis:6379/0";
  worker_metrics_port = 9000;
  log_level = "info";
}

pub settings-IsChecked : IsChecked settings
settings-IsChecked = record {
  block_ms_ge = omega arith;
  max_deliveries_ge = omega arith;
  rate_attempts_ge = omega arith;
  db_attempts_ge = omega arith;
  db_startup_attempts_ge = omega arith;
}

abbrev pub consumer : StreamConsumer
consumer = record {
  stream = "events";
  group = "workers";
  consumer = "worker-1";
  batch_size = 10;
  block_ms = 5000;
  dlq_stream = "events:dlq";
}

abbrev pub payment : TransactionEvent
payment = record {
  event_in = record {
    id = "e-1";
    user_id = "u-1";
    amount = record { negative = false; coeff = 1999; exp = neg 2 };
    currency = "EUR";
    timestamp = noon;
  };
  received_at = noon;
}

-- A delivery of the payment, by how often it was delivered.
abbrev pub delivery : ℕ → StreamMessage
delivery n = record {
  msg_id = "1-1";
  event = payment;
  delivery_count = n;
  raw_fields = first_fields;
}

abbrev pub no_metrics : Metrics
no_metrics = record {
  events_published = 0;
  processed = 0;
  duplicate = 0;
  failed_transient = 0;
  failed_permanent = 0;
  failed_exhausted = 0;
  failed_unexpected = 0;
  retries_rate_lookup = 0;
  retries_db_insert = 0;
  consumer_lag = 0;
  processing_count = 0;
}

-- The worker's state with that delivery pending.
abbrev pub start : (status : ℕ) → World (site status)
start status = record {
  redis = record { listed = λ s. []; unacked = "1-1" ∷ []; has_new = true };
  db = record { committed = []; open_rows = [] };
  http = tt;
  time = 100;
  cache = [];
  metrics = no_metrics;
}
