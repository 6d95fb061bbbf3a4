-- ===== src/Examples/Delivery.antt =====
-- The worker at one delivery.
use txn_event_processor.Schemas.Datetime.{assume_utc}
use txn_event_processor.Schemas.Events.{accept_event, validate_event}
use txn_event_processor.Prelude.{
  inl, inr, length, ◌+◌, some, none, true, false, [], ◌∷◌, ◌≡◌, refl, arith,
}
use txn_event_processor.Action.{ok, err}
use txn_event_processor.Action.Keeps.{Keeps}
use txn_event_processor.Core.Retry.{retry_async, retry_loop, pause, compute_delay, call_on_retry}
use txn_event_processor.Core.Errors.{
  is_transient, is_permanent, str_exn, rate_service_unavailable, unknown_currency,
}
use txn_event_processor.Db.Models.{has_id}
use txn_event_processor.Queue.Consumer.{ack, dead_letter}
use txn_event_processor.Schemas.IntText.{scan, int_of_text, str_nat}
use txn_event_processor.Services.RateClient.{get_rate}
use txn_event_processor.Money.{convert_to_usd, rescale, div_half_even, excess_digits}
use txn_event_processor.Prelude.Int.{◌-ℤ◌, ◌+ℤ◌}
use txn_event_processor.Db.Repository.{insert_ignore_duplicate}
use txn_event_processor.Prelude.Dict.{lookup, insert}
use txn_event_processor.Services.Processor.{process, processed}
use txn_event_processor.Services.Processor.Applies.{Applies, process-Applies}
use txn_event_processor.Queue.Consumer.Safety.{Has}
use txn_event_processor.Services.World.{World}
use txn_event_processor.Worker.{reclaim_round, handle, handle_all}
use txn_event_processor.Worker.{consume_round}
use txn_event_processor.Worker.Rounds.{reclaim_round-Keeps, consume_round-IsAccounted}
use txn_event_processor.Fakes.Queue.{server, first_fields}
use txn_event_processor.Fakes.Contract.{hands_out, can_claim, carries_payment}
use txn_event_processor.Worker.NoLoss.{IsAccounted}
use txn_event_processor.Worker.Counts.{handle_all_counts}
use txn_event_processor.Services.Processor.Neutral.{handled_total}
use txn_event_processor.Worker.Cutoff.{handle_cutoff, handle_transient, handle_permanent}
use txn_event_processor.Fakes.Queue.{server_pending, server_entries, server-IsRedis}
use txn_event_processor.Fakes.Database.{database-IsPostgres}
use txn_event_processor.Services.Pipeline.{accepted_stored}
use txn_event_processor.Api.Ingest.{IsQueued}
use txn_event_processor.Schemas.Responses.{AcceptedResponse}
use txn_event_processor.Schemas.Envelope.{parse_fields}
use txn_event_processor.Queue.Consumer.{parse_entry}
use txn_event_processor.Fakes.Queue.{Streams}
use txn_event_processor.Fakes.Json.{load, library, library-IsPydantic}
use txn_event_processor.Fakes.Site.{noon}
use txn_event_processor.Fakes.Site.{
  site, settings, settings-IsChecked, rate_client, consumer, delivery, payment, start,
}

stored_once : (process (site 200) rate_client settings payment (start 200)).0 ≡ ok processed
unfolding process retry_async retry_loop get_rate lookup convert_to_usd rescale ◌-ℤ◌ div_half_even
    excess_digits ◌+ℤ◌ insert_ignore_duplicate
stored_once = refl

process-Applies_example :
    let res = process (site 200) rate_client settings payment (start 200) in
    Applies (λ r. r) payment res.0 [] res.1.db.committed × (res.1.db.open_rows ≡ [])
process-Applies_example =
    process-Applies (site 200) rate_client settings settings-IsChecked (λ d. d.committed)
      (λ d. d.open_rows) (λ r. r) database-IsPostgres payment (start 200) refl

-- The stream once the payment is accepted.
abbrev with_payment : Streams
with_payment = record (start 200).redis { listed = λ s. first_fields ∷ [] }

abbrev accepted : AcceptedResponse
accepted = record { event_id = "e-1"; stream_id = "1-1" }

parsed : parse_fields library first_fields ≡ ok payment
unfolding parse_fields lookup int_of_text scan load validate_event assume_utc
parsed = refl

unfoldable queued :
    IsQueued
      (site 200)
      server_pending
      server_entries
      server-IsRedis
      library-IsPydantic
      (record { stream = "events"; maxlen = none })
      payment.event_in
      accepted
      with_payment
unfolding accept_event assume_utc
queued = record {
  now = noon;
  older = [];
  fields = first_fields;
  last = refl;
  parses = parsed;
  same_id = refl;
}

taken_in :
    (parse_entry server library consumer ("1-1", queued.fields) (("1-1", 1) ∷ []) with_payment).0
    ≡ ok (some (delivery 1))
unfolding parse_entry parse_fields lookup int_of_text scan load validate_event assume_utc queued
taken_in = refl

accepted_stored_example :
    has_id "e-1" (process (site 200) rate_client settings payment (start 200)).1.db.committed ≡ true
accepted_stored_example =
    accepted_stored (site 200) server_pending server_entries server-IsRedis library-IsPydantic
      (record { stream = "events"; maxlen = none }) payment.event_in consumer rate_client settings
      settings-IsChecked (λ d. d.committed) (λ d. d.open_rows) (λ r. r) database-IsPostgres accepted
      with_payment queued "1-1" (("1-1", 1) ∷ []) with_payment (delivery 1) taken_in (start 200)
      processed refl stored_once

handle_all_counts_example :
    (handled_total
        (handle_all
          (site 200)
          rate_client
          consumer
          settings
          (delivery 1 ∷ [])
          (start 200)).1.metrics
      ≡ handled_total (start 200).metrics + length (delivery 1 ∷ []))
unfolding handle_all process retry_async retry_loop get_rate lookup convert_to_usd rescale ◌-ℤ◌
    div_half_even excess_digits ◌+ℤ◌ insert_ignore_duplicate ack
handle_all_counts_example =
    handle_all_counts (site 200) rate_client consumer settings settings-IsChecked (delivery 1 ∷ [])
      (start 200)

-- Two attempts at a rate service that answers 503.
rate_down :
    (process (site 503) rate_client settings payment (start 503)).0
    ≡ err (rate_service_unavailable "rate-service returned 503")
unfolding process retry_async retry_loop get_rate lookup is_transient pause compute_delay
    call_on_retry str_nat
rate_down = refl

parked_at_limit :
    (handle (site 503) rate_client consumer settings (delivery 3) (start 503)).0 ≡ ok tt
unfolding handle process retry_async retry_loop get_rate lookup is_transient pause compute_delay
    call_on_retry is_permanent dead_letter
parked_at_limit = refl

handle_cutoff_example :
    server_pending
      (handle (site 503) rate_client consumer settings (delivery 3) (start 503)).1.redis
      "events"
      "workers"
      "1-1"
    ≡ false
handle_cutoff_example =
    handle_cutoff (site 503) rate_client consumer settings server_pending server_entries
      server-IsRedis (delivery 3) (start 503) (omega arith) parked_at_limit

handle_transient_example :
    ((handle (site 503) rate_client consumer settings (delivery 1) (start 503)).0 ≡ ok tt)
    × ((handle (site 503) rate_client consumer settings (delivery 1) (start 503)).1.redis
        ≡ (start 503).redis)
    × ((handle (site 503) rate_client consumer settings (delivery 1) (start 503)).1.db
        ≡ (process (site 503) rate_client settings payment (start 503)).1.db)
unfolding is_transient
handle_transient_example =
    handle_transient (site 503) rate_client consumer settings server_pending server_entries
      server-IsRedis (delivery 1) (start 503) (rate_service_unavailable "rate-service returned 503")
      settings-IsChecked rate_down refl (omega arith)

rate_unknown :
    (process (site 404) rate_client settings payment (start 404)).0
    ≡ err (unknown_currency "no rate for currency EUR")
unfolding process retry_async retry_loop get_rate lookup is_transient
rate_unknown = refl

parked_at_once :
    (handle (site 404) rate_client consumer settings (delivery 1) (start 404)).0 ≡ ok tt
unfolding handle process retry_async retry_loop get_rate lookup is_transient is_permanent
    dead_letter
parked_at_once = refl

handle_permanent_example :
    Has (insert "reason" "no rate for currency EUR" (delivery 1).raw_fields) (
      server_entries
        (handle (site 404) rate_client consumer settings (delivery 1) (start 404)).1.redis
        "events:dlq")
    × (server_pending
          (handle (site 404) rate_client consumer settings (delivery 1) (start 404)).1.redis
          "events"
          "workers"
          "1-1"
        ≡ false)
unfolding is_permanent str_exn
handle_permanent_example =
    handle_permanent (site 404) rate_client consumer settings server_pending server_entries
      server-IsRedis (delivery 1) (start 404) (unknown_currency "no rate for currency EUR")
      rate_unknown refl parked_at_once

-- The payment is on the stream and nothing was given out yet.
abbrev unread : World (site 200)
unread = record (start 200) { redis = record { listed = λ s. []; unacked = []; has_new = true } }

consume_round-IsAccounted_example :
    IsAccounted
      (site 200)
      rate_client
      consumer
      settings
      settings-IsChecked
      server_pending
      server_entries
      server-IsRedis
      (λ d. d.committed)
      (λ d. d.open_rows)
      (λ r. r)
      database-IsPostgres
      "1-1"
      first_fields
      "e-1"
      (consume_round (site 200) rate_client consumer settings unread).1
consume_round-IsAccounted_example =
    consume_round-IsAccounted (site 200) rate_client consumer settings settings-IsChecked
      server_pending server_entries server-IsRedis (λ d. d.committed) (λ d. d.open_rows) (λ r. r)
      database-IsPostgres "1-1" first_fields "e-1" hands_out carries_payment unread
      (inr (refl, (("events", ("1-1", first_fields) ∷ []) ∷ [], refl, inl refl)))

reclaim_round-Keeps_example :
    Keeps
      (IsAccounted
        (site 200)
        rate_client
        consumer
        settings
        settings-IsChecked
        server_pending
        server_entries
        server-IsRedis
        (λ d. d.committed)
        (λ d. d.open_rows)
        (λ r. r)
        database-IsPostgres
        "1-1"
        first_fields
        "e-1")
      (reclaim_round (site 200) rate_client consumer settings)
reclaim_round-Keeps_example =
    reclaim_round-Keeps (site 200) rate_client consumer settings settings-IsChecked server_pending
      server_entries server-IsRedis (λ d. d.committed) (λ d. d.open_rows) (λ r. r)
      database-IsPostgres "1-1" first_fields "e-1" can_claim carries_payment
