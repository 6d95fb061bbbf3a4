-- ===== src/Services/World.antt =====
-- The state of the worker process: its connections and the objects that its calls share.
use txn_event_processor.Prelude.{ℕ}
use txn_event_processor.Prelude.Dict.{Dict}
use txn_event_processor.Action.{ok, Action}
use txn_event_processor.Core.Metrics.{Metrics}
use txn_event_processor.Core.Retry.{Timer}
use txn_event_processor.Money.{Decimal}
use txn_event_processor.Services.External.{External}

pub record World (x : External) : Type 0 where
  pub redis : x.R
  pub db : x.D
  pub http : x.H
  pub time : x.T
  -- `RateClient._cache`: currency -> (rate, expires_at on the monotonic clock)
  pub cache : Dict (Decimal × ℕ)
  pub metrics : Metrics

module _ (x : External) where
  -- A call on one of the connections.
  abbrev pub on_redis : {A : Type 0} → Action x.R A → Action (World x) A
  on_redis m w = let (r, v) = m w.redis in (r, record w { redis = v })

  abbrev pub on_db : {A : Type 0} → Action x.D A → Action (World x) A
  on_db m w = let (r, v) = m w.db in (r, record w { db = v })

  abbrev pub on_http : {A : Type 0} → Action x.H A → Action (World x) A
  on_http m w = let (r, v) = m w.http in (r, record w { http = v })

  abbrev pub on_time : {A : Type 0} → Action x.T A → Action (World x) A
  on_time m w = let (r, v) = m w.time in (r, record w { time = v })

  -- `COUNTER.inc()` and the like
  abbrev pub count : (Metrics → Metrics) → Action (World x) (Unit {0})
  count f w = (ok tt, record w { metrics = f w.metrics })

  abbrev pub timer : Timer (World x)
  timer = record { uniform = λ lo hi. on_time (x.uniform lo hi); sleep = λ d. on_time (x.sleep d) }
