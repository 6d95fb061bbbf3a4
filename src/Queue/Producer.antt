-- ===== src/Queue/Producer.antt =====
-- app/queue/producer.py: `EventProducer`.
use txn_event_processor.Prelude.{ℕ, String, Option}
use txn_event_processor.Action.{Action, of_result, ◌>>=◌}
use txn_event_processor.Schemas.Events.{TransactionEvent, Pydantic}
use txn_event_processor.Schemas.Envelope.{new_envelope, to_fields}
use txn_event_processor.Queue.Redis.{Redis}

pub record EventProducer : Type 0 where
  pub stream : String
  pub maxlen : Option ℕ

unfoldable pub publish :
    {R : Type 0} → Redis R → Pydantic → EventProducer → TransactionEvent → Action R String
publish redis p self event = do
  fields ← of_result (to_fields (new_envelope (p.dump_json event)))
  redis.xadd self.stream fields self.maxlen
