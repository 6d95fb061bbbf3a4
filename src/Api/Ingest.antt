-- ===== src/Api/Ingest.antt =====
-- `ingest_event` of app/api/routes.py: what an accepted request leaves on the stream.
use txn_event_processor.Prelude.{
  ap, sym, ◌∙◌, Bool-cases, Bool, String, List, [], ◌∷◌, ◌++◌, ◌≡◌, inl, inr, arith,
}
use txn_event_processor.Core.Errors.{is_queue_fault}
use txn_event_processor.Action.{and_then, Result-cases, ok, run-cases}
use txn_event_processor.Schemas.Datetime.{Datetime}
use txn_event_processor.Schemas.Events.{TransactionEventIn, accept_event, IsPydantic}
use txn_event_processor.Schemas.Envelope.{Fields, parse_fields, to_fields, new_envelope}
use txn_event_processor.Schemas.Envelope.RoundTrip.{parse-accept_event}
use txn_event_processor.Schemas.Responses.{AcceptedResponse}
use txn_event_processor.Queue.Redis.{IsRedis, IsCap}
use txn_event_processor.Queue.Producer.{EventProducer, publish}
use txn_event_processor.Services.External.{External}
use txn_event_processor.Services.World.{World}
use txn_event_processor.Api.{ingest_event}

module _ (x : External) (pending : x.R → String → String → String → Bool)
    (entries : x.R → String → List Fields) (laws : IsRedis x.redis pending entries)
    (pydantic : IsPydantic x.pydantic) (producer : EventProducer)
    (payload : TransactionEventIn) where
  -- The stream ends with fields that a worker parses to the event, which has the id of the response.
  pub record IsQueued (response : AcceptedResponse) (r : x.R) : Type 0 where
    pub now : Datetime
    pub older : List Fields
    pub fields : Fields
    pub last : entries r producer.stream ≡ older ++ fields ∷ []
    pub parses : parse_fields x.pydantic fields ≡ ok (accept_event x.pydantic payload now)
    pub same_id : response.event_id ≡ (accept_event x.pydantic payload now).id

  written_fields :
      (now : Datetime)
      → (fields : Fields) × (to_fields
            (new_envelope (x.pydantic.dump_json (accept_event x.pydantic payload now)))
          ≡ ok fields)
        × (parse_fields x.pydantic fields ≡ ok (accept_event x.pydantic payload now))
  written_fields now =
      let event = accept_event x.pydantic payload now in
      let p = parse-accept_event x.pydantic pydantic payload now in
      elim (Result-cases (to_fields (new_envelope (x.pydantic.dump_json event)))) [
        | inl (fields, q) ↦ (fields, q, ap (λ r. and_then r (parse_fields x.pydantic)) (sym q) ∙ p)
        | inr (e, q) ↦ absurd (cc (ap (λ r. and_then r (parse_fields x.pydantic)) (sym q) ∙ p))
      ]

  -- If `ingest_event` returns, then the stream's last entry has fields that the worker's parsing
  -- turns into exactly the validated event of the request with some time of receipt, and the
  -- response has that event's id, provided the stream's bound, if any, is positive, and Redis and
  -- pydantic behave as documented.
  pub ingest_event-IsQueued :
      IsCap producer.maxlen
      → (w : World x) (response : AcceptedResponse)
      → (ingest_event x producer payload w).0 ≡ ok response
      → IsQueued response (ingest_event x producer payload w).1.redis
  unfolding ingest_event publish
  ingest_event-IsQueued cap w response h = elim (run-cases x.now w.time) [
    | inr (e, t, p) ↦ absurd (ground arith)
    | inl (now, t, p) ↦
        let event = accept_event x.pydantic payload now in
        let (fields, written, parsed) = written_fields now in
        elim (run-cases (x.redis.xadd producer.stream fields producer.maxlen) w.redis) [
          | inr (e, r, q) ↦ elim (Bool-cases (is_queue_fault e)) [
            | inl k ↦ absurd (ground arith)
            | inr k ↦ absurd (ground arith)
          ]
          | inl (i, r, q) ↦
              let (older, last) =
                laws.xadd_last producer.stream fields producer.maxlen w.redis i cap
                  (ground arith) in
              record {
                now = now;
                older = older;
                fields = fields;
                last = ground arith;
                parses = parsed;
                same_id = ground arith;
              }
        ]
  ]
