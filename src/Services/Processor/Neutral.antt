-- ===== src/Services/Processor/Neutral.antt =====
-- app/services/processor.py: `process`, on properties that its own bookkeeping leaves alone.
use txn_event_processor.Core.Retry.{call_on_retry}
use txn_event_processor.Action.{of_result}
use txn_event_processor.Services.World.{count, on_http}
use Prim.Native.String.{◌++◌ as str_append}
use txn_event_processor.Prelude.{arith, if◌then◌else◌, ℕ, String, ◌≡◌, ◌≤◌, Option, none, some}
use txn_event_processor.Action.Keeps.{
  gets-Keeps, Keeps, pure-Keeps, raise-Keeps, of_result-Keeps, try_except-Keeps, finally-Keeps,
  >>=-Keeps,
}
use txn_event_processor.Core.Config.{Settings, IsChecked}
use txn_event_processor.Core.Retry.Keeps.{retry_async-Keeps}
use txn_event_processor.Db.Models.{ProcessedTransaction}
use txn_event_processor.Db.Repository.{insert_ignore_duplicate}
use txn_event_processor.Money.{Decimal}
use txn_event_processor.Schemas.Events.{TransactionEvent}
use txn_event_processor.Services.External.{External}
use txn_event_processor.Services.World.{World, timer}
use txn_event_processor.Services.RateClient.{
  if_fresh, or_fetch, RateClient, get_rate, cached, store, request, rate_of, fetch,
}
use txn_event_processor.Core.Metrics.{Metrics}
use txn_event_processor.Services.World.{on_db}
use txn_event_processor.Prelude.{refl, ap, ◌+◌}
use txn_event_processor.Services.Processor.{
  Operation, inc_retries, rate_lookup, db_insert, on_retry, duplicate, processed, inc_processing,
  Action, process, look_up_rate, make_row, insert_row,
}

-- What a worker has counted as handled, however it ended.
abbrev pub handled_total : Metrics → ℕ
handled_total m =
    m.processed + m.duplicate + m.failed_transient + m.failed_permanent + m.failed_exhausted
    + m.failed_unexpected

inc_retries-handled_total :
    (o : Operation) (m : Metrics) → handled_total (inc_retries o m) ≡ handled_total m
unfolding inc_retries
inc_retries-handled_total rate_lookup m = refl
inc_retries-handled_total db_insert m = refl

module _ (x : External) (rates : RateClient) (settings : Settings) (Holds : World x → Type 0)
    (free : (w v : World x)
      → v.redis ≡ w.redis
      → v.db ≡ w.db
      → handled_total v.metrics ≡ handled_total w.metrics
      → Holds w
      → Holds v) where
  aside :
      {A : Type 0} (m : Action (World x) A)
      → ((w : World x)
          → ((m w).1.redis ≡ w.redis) × ((m w).1.db ≡ w.db) × ((m w).1.metrics ≡ w.metrics))
      → Keeps Holds m
  aside m same = record {
    at = λ w h. free w (m w).1 (same w).0 (same w).1 (ap handled_total (same w).2) h;
  }

  if_fresh-Keeps : (entry : Option (Decimal × ℕ)) → Keeps Holds (if_fresh x rates entry)
  unfolding if_fresh
  if_fresh-Keeps none = pure-Keeps Holds _
  if_fresh-Keeps (some (rate, expires_at)) = aside _ λ w. ground arith

  cached-Keeps : (currency : String) → Keeps Holds (cached x rates currency)
  unfolding cached
  cached-Keeps currency = >>=-Keeps Holds _ _ (gets-Keeps Holds _) if_fresh-Keeps

  request-Keeps : (currency : String) → Keeps Holds (request x rates currency)
  unfolding request
  request-Keeps currency =
      try_except-Keeps Holds
        (on_http x (x.http_get (str_append rates.base_url (str_append "/rates/" currency)))) _
        (aside _ λ w. (refl, refl, refl)) λ e. raise-Keeps Holds _

  store-Keeps : (currency : String) (rate : Decimal) → Keeps Holds (store x rates currency rate)
  unfolding store
  store-Keeps currency rate = aside _ λ w. ground arith

  fetch-Keeps : (currency : String) → Keeps Holds (fetch x rates currency)
  unfolding fetch
  fetch-Keeps currency = >>=-Keeps Holds _ _ (request-Keeps currency) λ r.
      >>=-Keeps Holds (of_result (rate_of x currency r)) _ (of_result-Keeps Holds _)
        λ rate. >>=-Keeps Holds _ _ (store-Keeps currency rate) λ _. pure-Keeps Holds _

  or_fetch-Keeps :
      (currency : String) (known : Option Decimal) → Keeps Holds (or_fetch x rates currency known)
  or_fetch-Keeps currency none = fetch-Keeps currency
  or_fetch-Keeps currency (some rate) = pure-Keeps Holds _

  pub get_rate-Keeps : (currency : String) → Keeps Holds (get_rate x rates currency)
  unfolding get_rate
  get_rate-Keeps currency = >>=-Keeps Holds _ _ (cached-Keeps currency) (or_fetch-Keeps currency)

  counted :
      (f : Metrics → Metrics)
      → ((m : Metrics) → handled_total (f m) ≡ handled_total m)
      → Keeps Holds (count x f)
  counted f same = record { at = λ w h. free w _ refl refl (same w.metrics) h }

  pub look_up_rate-Keeps :
      (ev : TransactionEvent)
      → 1 ≤ settings.rate_attempts
      → Keeps Holds (look_up_rate x rates settings ev)
  unfolding look_up_rate call_on_retry on_retry
  look_up_rate-Keeps ev h =
      retry_async-Keeps Holds (timer x) _ _ _ _ _ _ (λ lo hi. aside _ λ w. (refl, refl, refl))
        (λ d. aside _ λ w. (refl, refl, refl))
        (λ k e d. counted (inc_retries rate_lookup) (inc_retries-handled_total rate_lookup))
        (get_rate-Keeps ev.currency) h

  pub make_row-Keeps :
      (ev : TransactionEvent) (rate : Decimal) → Keeps Holds (make_row x rates settings ev rate)
  unfolding make_row
  make_row-Keeps ev rate = aside _ λ w. ground arith

  -- The insert keeps what a single attempt keeps.
  pub insert_row-Keeps :
      (row : ProcessedTransaction)
      → 1 ≤ settings.db_attempts
      → Keeps Holds (on_db x (insert_ignore_duplicate x.session row))
      → Keeps Holds (insert_row x rates settings row)
  unfolding insert_row call_on_retry on_retry
  insert_row-Keeps row h one =
      retry_async-Keeps Holds (timer x) _ _ _ _ _ _ (λ lo hi. aside _ λ w. (refl, refl, refl))
        (λ d. aside _ λ w. (refl, refl, refl))
        (λ k e d. counted (inc_retries db_insert) (inc_retries-handled_total db_insert)) one h

  pub process-Keeps :
      (ev : TransactionEvent)
      → IsChecked settings
      → ((row : ProcessedTransaction)
          → Keeps Holds (on_db x (insert_ignore_duplicate x.session row)))
      → Keeps Holds (process x rates settings ev)
  unfolding process
  process-Keeps ev checked one =
      finally-Keeps Holds _ (count x inc_processing)
        (>>=-Keeps Holds _ _ (look_up_rate-Keeps ev checked.rate_attempts_ge) λ rate.
          >>=-Keeps Holds _ _ (make_row-Keeps ev rate) λ row.
            >>=-Keeps Holds _ _ (insert_row-Keeps row checked.db_attempts_ge (one row))
              λ inserted. pure-Keeps Holds (if inserted then processed else duplicate))
        (counted inc_processing λ m. refl)
