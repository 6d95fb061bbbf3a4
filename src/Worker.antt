-- ===== src/Worker.antt =====
-- app/worker.py: the delivery policy and the loops of the worker.
pub mod NoLoss
pub mod Policy
pub mod Cutoff
pub mod Rounds
pub mod Counts
pub mod Fleet
pub mod Process
use Prim.Native.String.{◌++◌ as str_append}
use txn_event_processor.Prelude.{
  ℕ, zero, suc, ◌+◌, String, Bool, true, false, List, [], ◌∷◌, leb, if◌then◌else◌,
}
use txn_event_processor.Core.Errors.{
  shutdown_requested, Exn, is_permanent, is_transient, is_exception, str_exn,
}
use txn_event_processor.Core.Config.{Settings, dlq_stream_name}
use txn_event_processor.Core.Metrics.{Metrics}
use txn_event_processor.Action.{Action, pure, raise, try_except, ◌>>=◌, ◌>>◌}
use txn_event_processor.Queue.Consumer.{
  StreamConsumer, StreamMessage, ack, dead_letter, read, claim_stale, lag,
}
use txn_event_processor.Services.External.{External}
use txn_event_processor.Services.World.{World, on_redis, on_time, count}
use txn_event_processor.Services.RateClient.{RateClient}
use txn_event_processor.Services.Processor.{Outcome, processed, duplicate, process}

-- `EVENTS_PROCESSED.labels(outcome=outcome).inc()`
unfoldable pub inc_processed : Outcome → Metrics → Metrics
inc_processed processed m = record m { processed = m.processed + 1 }
inc_processed duplicate m = record m { duplicate = m.duplicate + 1 }

-- The values of the label `kind` of `EVENTS_FAILED`.
pub data FailureKind : Type 0 where
  transient permanent exhausted unexpected : FailureKind

-- `EVENTS_FAILED.labels(kind=kind).inc()`
unfoldable pub inc_failed : FailureKind → Metrics → Metrics
inc_failed transient m = record m { failed_transient = m.failed_transient + 1 }
inc_failed permanent m = record m { failed_permanent = m.failed_permanent + 1 }
inc_failed exhausted m = record m { failed_exhausted = m.failed_exhausted + 1 }
inc_failed unexpected m = record m { failed_unexpected = m.failed_unexpected + 1 }

module _ (x : External) (rates : RateClient) (consumer : StreamConsumer) (settings : Settings) where
  -- The body of the `try` in `handle`.
  unfoldable pub attempt : StreamMessage → Action (World x) (Unit {0})
  attempt msg = do
    outcome ← process x rates settings msg.event
    on_redis x (ack x.redis consumer msg.msg_id)
    count x (inc_processed outcome)

  -- Dead-letter the message, then count the failure.
  unfoldable pub park : StreamMessage → String → FailureKind → Action (World x) (Unit {0})
  park msg reason kind = do
    on_redis x (dead_letter x.redis consumer msg reason)
    count x (inc_failed kind)

  -- The `except` clauses of `handle`, in their order.
  unfoldable pub on_failure : StreamMessage → Exn → Action (World x) (Unit {0})
  unfolding park
  on_failure msg exc =
      if is_permanent exc
      then park msg (str_exn exc) permanent
      else if is_transient exc
      then (if leb settings.max_deliveries msg.delivery_count
          then park msg "max deliveries exceeded" exhausted
          else count x (inc_failed transient))
      else if is_exception exc
      then park msg (str_append "unexpected error: " (str_exn exc)) unexpected
      else raise exc

  unfoldable pub handle : StreamMessage → Action (World x) (Unit {0})
  unfolding attempt on_failure
  handle msg = try_except (attempt msg) (on_failure msg)

  -- `for msg in messages: await handle(...)`
  unfoldable pub handle_all : List StreamMessage → Action (World x) (Unit {0})
  unfolding handle
  handle_all [] = pure tt
  handle_all (msg ∷ messages) = do handle msg; handle_all messages

  -- One round of `while True` in `consume_loop`.
  unfoldable pub consume_round : Action (World x) (Unit {0})
  unfolding handle_all
  consume_round = do messages ← on_redis x (read x.redis x.pydantic consumer); handle_all messages

  -- One round of `while True` in `reclaim_loop`.
  unfoldable pub reclaim_round : Action (World x) (Unit {0})
  unfolding handle_all
  reclaim_round = do
    on_time x (x.sleep settings.reclaim_interval_s)
    messages ← on_redis x (claim_stale x.redis x.pydantic consumer settings.min_idle_ms)
    handle_all messages

  -- One round of `while True` in `lag_loop`; `interval` is `LAG_POLL_INTERVAL_S`.
  unfoldable pub lag_round : ℕ → Action (World x) (Unit {0})
  lag_round interval = do
    n ← on_redis x (lag x.redis consumer)
    count x (λ m. record m { consumer_lag = n })
    on_time x (x.sleep interval)

-- `_watch_for_shutdown`; `wait` is `stop_event.wait()`.
unfoldable pub watch_for_shutdown : {W : Type 0} → Action W (Unit {0}) → Action W (Unit {0})
watch_for_shutdown wait = do wait; raise shutdown_requested

-- The consumer and the rate client that `run_worker` builds.
unfoldable pub consumer_of : Settings → StreamConsumer
consumer_of settings = record {
  stream = settings.stream_name;
  group = settings.consumer_group;
  consumer = settings.consumer_name;
  batch_size = settings.batch_size;
  block_ms = settings.block_ms;
  dlq_stream = dlq_stream_name settings;
}

unfoldable pub rates_of : Settings → RateClient
rates_of settings = record {
  base_url = settings.rate_service_url;
  cache_ttl_s = settings.rate_cache_ttl_s;
}
