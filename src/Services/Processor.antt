-- ===== src/Services/Processor.antt =====
-- app/services/processor.py: `EventProcessor`.
pub mod Neutral
pub mod Frame
pub mod Run
pub mod Applies
pub mod Stores
use txn_event_processor.Prelude.{ℕ, ◌+◌, Bool, true, false, some, if◌then◌else◌}
use txn_event_processor.Core.Errors.{is_transient}
use txn_event_processor.Core.Config.{Settings}
use txn_event_processor.Core.Metrics.{Metrics}
use txn_event_processor.Core.Retry.{OnRetry, retry_async}
use txn_event_processor.Action.{Action, pure, of_result, finally, ◌>>=◌, ◌>>◌}
use txn_event_processor.Money.{Decimal, convert_to_usd}
use txn_event_processor.Schemas.Events.{TransactionEvent}
use txn_event_processor.Db.Models.{ProcessedTransaction}
use txn_event_processor.Db.Repository.{insert_ignore_duplicate}
use txn_event_processor.Services.External.{External}
use txn_event_processor.Services.World.{World, on_db, on_time, count, timer}
use txn_event_processor.Services.RateClient.{RateClient, get_rate}

pub data Outcome : Type 0 where
  processed duplicate : Outcome

-- The operation that a retry callback is bound to.
pub data Operation : Type 0 where
  rate_lookup db_insert : Operation

-- `RETRIES.labels(operation=operation).inc()`
unfoldable pub inc_retries : Operation → Metrics → Metrics
inc_retries rate_lookup m = record m { retries_rate_lookup = m.retries_rate_lookup + 1 }
inc_retries db_insert m = record m { retries_db_insert = m.retries_db_insert + 1 }

abbrev pub inc_processing : Metrics → Metrics
inc_processing m = record m { processing_count = m.processing_count + 1 }

module _ (x : External) (rates : RateClient) (settings : Settings) where
  -- `EventProcessor._on_retry`, less its log line
  unfoldable pub on_retry : Operation → OnRetry (World x)
  on_retry operation attempt exc delay = count x (inc_retries operation)

  -- The rate lookup, retried.
  unfoldable pub look_up_rate : TransactionEvent → Action (World x) Decimal
  unfolding on_retry
  look_up_rate event =
      retry_async (timer x) (get_rate x rates event.currency) settings.rate_attempts
        settings.retry_base_delay_s settings.retry_max_delay_s is_transient
        (some (on_retry rate_lookup))

  unfoldable pub make_row : TransactionEvent → Decimal → Action (World x) ProcessedTransaction
  make_row event rate = do
    amount_usd ← of_result (convert_to_usd event.amount rate)
    processed_at ← on_time x x.now
    pure (record {
      id = event.id;
      user_id = event.user_id;
      amount = event.amount;
      currency = event.currency;
      rate = rate;
      amount_usd = amount_usd;
      timestamp = event.timestamp;
      processed_at = processed_at;
    })

  -- The insert, retried.
  unfoldable pub insert_row : ProcessedTransaction → Action (World x) Bool
  unfolding on_retry
  insert_row row =
      retry_async (timer x) (on_db x (insert_ignore_duplicate x.session row)) settings.db_attempts
        settings.retry_base_delay_s settings.retry_max_delay_s is_transient
        (some (on_retry db_insert))

  -- `EventProcessor.process`; the `with` block records the duration however it ends.
  unfoldable pub process : TransactionEvent → Action (World x) Outcome
  unfolding look_up_rate make_row insert_row
  process event =
      finally
        (do
          rate ← look_up_rate event
          row ← make_row event rate
          inserted ← insert_row row
          pure (if inserted then processed else duplicate))
        (count x inc_processing)
