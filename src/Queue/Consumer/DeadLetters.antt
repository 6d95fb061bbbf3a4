-- ===== src/Queue/Consumer/DeadLetters.antt =====
-- app/queue/consumer.py: `read` and `claim_stale`, on the entries of the dead-letter stream.
use txn_event_processor.Prelude.{Bool, ℕ, String, List, [], ◌∷◌, inl, inr}
use txn_event_processor.Prelude.Dict.{Dict, insert}
use txn_event_processor.Action.Keeps.{Keeps, pure-Keeps, >>=-Keeps}
use txn_event_processor.Schemas.Envelope.{Fields}
use txn_event_processor.Schemas.Events.{Pydantic}
use txn_event_processor.Queue.Redis.{Redis, IsRedis, Entry}
use txn_event_processor.Queue.Consumer.{
  StreamConsumer, parse_entry, parse_entries, delivery_count_of, delivery_counts, times_delivered,
  claimed_messages, read, claim_stale, ones,
}
use txn_event_processor.Queue.Consumer.Safety.{Has, dead_letter_fields-Has}
use txn_event_processor.Queue.Consumer.Batch.{parse_entry-state, parse_entries-state}
use txn_event_processor.Queue.Consumer.Reading.{xread, read-state}
use txn_event_processor.Queue.Consumer.Claiming.{xclaim, claim_stale-state, claimed-state}

module _ {R : Type 0} (redis : Redis R) (p : Pydantic) (self : StreamConsumer)
    (pending : R → String → String → String → Bool) (entries : R → String → List Fields)
    (laws : IsRedis redis pending entries) (f : Fields) where
  abbrev IsListed : R → Type 0
  IsListed r = Has f (entries r self.dlq_stream)

  parse_entry-Has :
      (e : Entry) (counts : Dict ℕ) (r : R)
      → IsListed r
      → IsListed (parse_entry redis p self e counts r).1
  parse_entry-Has e counts r h = elim (parse_entry-state redis p self e counts r) [
    | inl q ↦ rw q h
    | inr (reason, q) ↦
        rw q (dead_letter_fields-Has redis self pending entries laws f e.0 e.1 reason r h)
  ]

  parse_entries-Has :
      (l : List Entry) (counts : Dict ℕ) (r : R)
      → IsListed r
      → IsListed (parse_entries redis p self l counts r).1
  parse_entries-Has [] counts r h = unfold parse_entries in h
  parse_entries-Has (e ∷ l) counts r h =
      let k = parse_entry-Has e counts r h in
      elim (parse_entries-state redis p self e l counts r) [
        | inl q ↦ rw q k
        | inr q ↦ rw q (parse_entries-Has l counts (parse_entry redis p self e counts r).1 k)
      ]

  pub read-Has : (r : R) → IsListed r → IsListed (read redis p self r).1
  read-Has r h =
      let same =
        laws.xreadgroup_entries self.group self.consumer self.stream self.batch_size self.block_ms r
          self.dlq_stream in
      let k : IsListed (xread redis p self r).1 = rw same h in
      elim (read-state redis p self r) [
        | inl (q, _) ↦ rw q k
        | inr (reply, l, a, b, q) ↦
            rw q (parse_entries-Has l (ones l []) (xread redis p self r).1 k)
      ]

  counts-Has :
      (l : List Entry) (counts : Dict ℕ) → Keeps IsListed (delivery_counts redis self l counts)
  unfolding delivery_counts delivery_count_of
  counts-Has [] counts = pure-Keeps IsListed counts
  counts-Has ((msg_id, fields) ∷ l) counts =
      >>=-Keeps IsListed (delivery_count_of redis self msg_id)
        (λ n. delivery_counts redis self l (insert msg_id n counts))
        (>>=-Keeps IsListed (redis.xpending_range self.stream self.group msg_id msg_id 1) _
          (record {
            at = λ r h.
                rw
                  (laws.xpending_range_entries self.stream self.group msg_id msg_id 1 r
                    self.dlq_stream)
                  h;
          })
          λ found. pure-Keeps IsListed (times_delivered found))
        λ n. counts-Has l (insert msg_id n counts)

  claimed-Has :
      (l : List Entry) (r : R) → IsListed r → IsListed (claimed_messages redis p self l r).1
  claimed-Has l r h =
      let k = (counts-Has l []).at r h in
      elim (claimed-state redis p self 0 l r) [
        | inl q ↦ rw q h
        | inr (inl (e, q)) ↦ rw q k
        | inr (inr (counts, q)) ↦
            rw q (parse_entries-Has l counts (delivery_counts redis self l [] r).1 k)
      ]

  pub claim_stale-Has :
      (min_idle_ms : ℕ) (r : R) → IsListed r → IsListed (claim_stale redis p self min_idle_ms r).1
  claim_stale-Has min_idle_ms r h =
      let same =
        laws.xautoclaim_entries self.stream self.group self.consumer min_idle_ms "0-0"
          self.batch_size r self.dlq_stream in
      let k : IsListed (xclaim redis p self min_idle_ms r).1 = rw same h in
      elim (claim_stale-state redis p self min_idle_ms r) [
        | inl (e, q) ↦ rw q k
        | inr (cursor, l, deleted, a, q) ↦
            rw q (claimed-Has l (xclaim redis p self min_idle_ms r).1 k)
      ]
