-- ===== src/Services/Pipeline.antt =====
-- From the API to the table: `ingest_event` of app/api/routes.py, `_parse_entries` of
-- app/queue/consumer.py and `process` of app/services/processor.py, one after the other.
use txn_event_processor.Prelude.{
  ℕ, String, Bool, true, List, [], ◌≡◌, some, arith, sym, ap, ◌∙◌, inl, inr,
}
use txn_event_processor.Prelude.Dict.{Dict}
use txn_event_processor.Core.Config.{Settings, IsChecked}
use txn_event_processor.Action.{ok, run-cases}
use txn_event_processor.Db.Models.{ProcessedTransaction, has_id}
use txn_event_processor.Db.Session.{IsPostgres}
use txn_event_processor.Schemas.Events.{
  TransactionEvent, TransactionEventIn, IsPydantic, accept_event,
}
use txn_event_processor.Schemas.Envelope.{Fields, parse_fields}
use txn_event_processor.Schemas.Responses.{AcceptedResponse}
use txn_event_processor.Queue.Redis.{IsRedis}
use txn_event_processor.Queue.Producer.{EventProducer}
use txn_event_processor.Queue.Consumer.{StreamConsumer, StreamMessage, parse_entry, count_of}
use txn_event_processor.Services.External.{External}
use txn_event_processor.Services.World.{World}
use txn_event_processor.Services.RateClient.{RateClient}
use txn_event_processor.Services.Processor.{process, Outcome}
use txn_event_processor.Services.Processor.Stores.{process_stores}
use txn_event_processor.Api.Ingest.{IsQueued}

module _ (x : External) (consumer : StreamConsumer) where
  -- A message carries the event that its fields parse to.
  message_event :
      (i : String) (fields : Fields) (counts : Dict ℕ) (r : x.R) (event : TransactionEvent)
      (msg : StreamMessage)
      → parse_fields x.pydantic fields ≡ ok event
      → (parse_entry x.redis x.pydantic consumer (i, fields) counts r).0 ≡ ok (some msg)
      → msg.event ≡ event
  unfolding parse_entry
  message_event i fields counts r event msg p h = elim (run-cases (count_of i counts) r) [
    | inl (n, u, q) ↦ ground arith
    | inr (e, u, q) ↦ absurd (ground arith)
  ]

module _ (x : External) (pending : x.R → String → String → String → Bool)
    (entries : x.R → String → List Fields) (laws : IsRedis x.redis pending entries)
    (pydantic : IsPydantic x.pydantic) (producer : EventProducer) (payload : TransactionEventIn)
    (consumer : StreamConsumer) (rates : RateClient) (settings : Settings)
    (checked : IsChecked settings) (rows written : x.D → List ProcessedTransaction)
    (stored : ProcessedTransaction → ProcessedTransaction)
    (db_laws : IsPostgres x.session rows written stored) where
  -- From the API to the table: if the stream's last entry holds what `ingest_event` queued for a
  -- response, and a worker that parses this entry gets a message, and `process` returns for that
  -- message's event from a state with no open transaction, then a row with the id that the response
  -- gave is committed in the table, provided the settings passed validation and Postgres behaves as
  -- documented.
  pub accepted_stored :
      (response : AcceptedResponse) (s : x.R)
      (q : IsQueued x pending entries laws pydantic producer payload response s) (i : String)
      (counts : Dict ℕ) (r : x.R) (msg : StreamMessage)
      → (parse_entry x.redis x.pydantic consumer (i, q.fields) counts r).0 ≡ ok (some msg)
      → (v : World x) (o : Outcome) → written v.db ≡ []
      → (process x rates settings msg.event v).0 ≡ ok o
      → has_id response.event_id (rows (process x rates settings msg.event v).1.db) ≡ true
  accepted_stored response s q i counts r msg p v o idle h =
      let e =
        message_event x consumer i q.fields counts r (accept_event x.pydantic payload q.now) msg
          q.parses p in
      let same = q.same_id ∙ ap (λ (ev : TransactionEvent). ev.id) (sym e) in
      ap (λ k. has_id k (rows (process x rates settings msg.event v).1.db)) same
      ∙ process_stores x rates settings checked rows written stored db_laws msg.event v o idle h
