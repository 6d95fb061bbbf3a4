-- ===== src/Queue/Consumer/Reading.antt =====
-- app/queue/consumer.py: `read`, on the state and on the messages.
use mathlib.Core.Path.{subst}
use txn_event_processor.Prelude.{
  String, Bool, List, [], ◌≡◌, ◌⊎◌, inl, inr, arith, some, All, Option-cases, ◌∙◌, sym,
}
use txn_event_processor.Action.{Action, ok, err, run-cases}
use txn_event_processor.Core.Errors.{Exn}
use txn_event_processor.Schemas.Envelope.{Fields, parse_fields}
use txn_event_processor.Schemas.Events.{Pydantic, TransactionEvent}
use txn_event_processor.Queue.Redis.{Redis, IsRedis, Entry, IsGiven}
use txn_event_processor.Queue.Consumer.{
  StreamConsumer, StreamMessage, parse_entries, read, first_entries, ones,
}
use txn_event_processor.Queue.Consumer.Safety.{IsKept}
use txn_event_processor.Queue.Consumer.Batch.{Agrees, parse_entries_keeps}
use txn_event_processor.Queue.Consumer.Messages.{Delivers, parse_entries-Delivers}

module _ {R : Type 0} (redis : Redis R) (p : Pydantic) (self : StreamConsumer) where
  -- The command that `read` sends.
  abbrev pub xread : Action R (List (String × List Entry))
  xread = redis.xreadgroup self.group self.consumer self.stream self.batch_size self.block_ms

  -- Whatever the server hands out as entry `j` has the fields `g`: an entry's fields never change.
  abbrev pub HandsOut : String → Fields → Type 0
  HandsOut j g =
      (r : R) (reply : List (String × List Entry)) (l : List Entry)
      → (xread r).0 ≡ ok reply
      → first_entries reply ≡ some l
      → Agrees j g l

  -- `read` ends with the state that the command left, and no message, or parses what it was given.
  pub read-state :
      (r : R)
      → (((read redis p self r).1 ≡ (xread r).1)
          × (((read redis p self r).0 ≡ ok []) ⊎ ((e : Exn) × ((read redis p self r).0 ≡ err e))))
        ⊎ ((reply : List (String × List Entry)) × (l : List Entry) × ((xread r).0 ≡ ok reply)
            × (first_entries reply ≡ some l)
            × (read redis p self r ≡ parse_entries redis p self l (ones l []) (xread r).1))
  unfolding read
  read-state r = elim (run-cases xread r) [
    | inr (e, u, q) ↦ inl (ground arith, inr (e, ground arith))
    | inl (reply, u, q) ↦ elim (Option-cases (first_entries reply)) [
      | inl z ↦ inl (ground arith, inl (ground arith))
      | inr (l, z) ↦ inr (reply, l, ground arith, z, ground arith)
    ]
  ]

  module _ (j : String) (g : Fields) (out : HandsOut j g) where
    pub read-Delivers :
        (i : String)
        → ((ev : TransactionEvent) → parse_fields p g ≡ ok ev → i ≡ ev.id)
        → (r v : R) (ms : List StreamMessage) → read redis p self r ≡ (ok ms, v)
        → All (Delivers j g i) ms
    read-Delivers i carries r v ms h = elim (read-state r) [
      | inl (_, inl q) ↦ let e : [] ≡ ms = ground arith in subst (All (Delivers j g i)) e tt
      | inl (_, inr (e, q)) ↦ absurd (ground arith)
      | inr (reply, l, a, b, q) ↦
          parse_entries-Delivers redis p self j g i carries l (ones l []) (xread r).1 v ms
            (out r reply l a b) (sym q ∙ h)
    ]

    module _ (pending : R → String → String → String → Bool) (entries : R → String → List Fields)
        (laws : IsRedis redis pending entries) where
      xread_keeps :
          (r : R)
          → IsKept redis self pending entries laws r j g
          → IsKept redis self pending entries laws (xread r).1 j g
      xread_keeps r (inl h) = inl (
          laws.xreadgroup_pending self.group self.consumer self.stream self.batch_size self.block_ms
            r j h)
      xread_keeps r (inr (reason, h)) = inr (
        reason,
        rw
            (laws.xreadgroup_entries self.group self.consumer self.stream self.batch_size
              self.block_ms r self.dlq_stream)
            h,
      )

      -- What the command leaves the delivery in is what `read` leaves it in.
      after_xread :
          (r : R)
          → IsKept redis self pending entries laws (xread r).1 j g
          → IsKept redis self pending entries laws (read redis p self r).1 j g
      after_xread r k = elim (read-state r) [
        | inl (q, _) ↦ rw q k
        | inr (reply, l, a, b, q) ↦ rw q (
            parse_entries_keeps redis p self pending entries laws j g l (ones l []) (xread r).1
              (out r reply l a b) k)
      ]

      -- An entry that is given out is pending or dead-lettered when `read` ends.
      pub read_gives :
          (r : R) (reply : List (String × List Entry))
          → (xread r).0 ≡ ok reply
          → IsGiven j reply
          → IsKept redis self pending entries laws (read redis p self r).1 j g
      read_gives r reply h given = after_xread r (
          inl (
            laws.xreadgroup_gives self.group self.consumer self.stream self.batch_size self.block_ms
              r reply j h given))

      pub read_keeps :
          (r : R)
          → IsKept redis self pending entries laws r j g
          → IsKept redis self pending entries laws (read redis p self r).1 j g
      read_keeps r h = after_xread r (xread_keeps r h)
