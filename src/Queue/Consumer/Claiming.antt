-- ===== src/Queue/Consumer/Claiming.antt =====
-- app/queue/consumer.py: `claim_stale`, on the state and on the messages.
use mathlib.Core.Path.{subst}
use txn_event_processor.Prelude.{
  ℕ, String, Bool, List, [], ◌∷◌, ◌≡◌, ◌⊎◌, inl, inr, refl, arith, All, ◌∙◌, sym,
}
use txn_event_processor.Prelude.Dict.{Dict, insert}
use txn_event_processor.Action.{Action, ok, err, run-cases}
use txn_event_processor.Action.Keeps.{Keeps, pure-Keeps, >>=-Keeps}
use txn_event_processor.Core.Errors.{Exn}
use txn_event_processor.Schemas.Envelope.{Fields, parse_fields}
use txn_event_processor.Schemas.Events.{Pydantic, TransactionEvent}
use txn_event_processor.Queue.Redis.{Redis, IsRedis, Entry}
use txn_event_processor.Queue.Consumer.{
  times_delivered, StreamConsumer, StreamMessage, parse_entries, delivery_count_of, delivery_counts,
  claimed_messages, claim_stale,
}
use txn_event_processor.Queue.Consumer.Safety.{IsKept}
use txn_event_processor.Queue.Consumer.Batch.{Agrees, parse_entries_keeps}
use txn_event_processor.Queue.Consumer.Messages.{Delivers, parse_entries-Delivers}

module _ {R : Type 0} (redis : Redis R) (p : Pydantic) (self : StreamConsumer)
    (min_idle_ms : ℕ) where
  -- The command that `claim_stale` sends first.
  abbrev pub xclaim : Action R (String × List Entry × List String)
  xclaim = redis.xautoclaim self.stream self.group self.consumer min_idle_ms "0-0" self.batch_size

  -- Whatever the server lets be claimed as entry `j` has the fields `g`.
  abbrev pub Claims : String → Fields → Type 0
  Claims j g =
      (r : R) (cursor : String) (l : List Entry) (deleted : List String)
      → (xclaim r).0 ≡ ok (cursor, l, deleted)
      → Agrees j g l

  pub claim_stale-state :
      (r : R)
      → ((e : Exn) × (claim_stale redis p self min_idle_ms r ≡ (err e, (xclaim r).1)))
        ⊎ ((cursor : String) × (l : List Entry) × (deleted : List String) × ((xclaim r).0
              ≡ ok (cursor, l, deleted))
            × (claim_stale redis p self min_idle_ms r
                ≡ claimed_messages redis p self l (xclaim r).1))
  unfolding claim_stale
  claim_stale-state r = elim (run-cases xclaim r) [
    | inr (e, u, q) ↦ inl (e, ground arith)
    | inl ((cursor, l, deleted), u, q) ↦ inr (cursor, l, deleted, ground arith, ground arith)
  ]

  -- No entry at all, a lookup of a count that raised, or the parsing of the batch.
  pub claimed-state :
      (l : List Entry) (r : R)
      → (claimed_messages redis p self l r ≡ (ok [], r))
        ⊎ ((e : Exn) × (claimed_messages redis p self l r
              ≡ (err e, (delivery_counts redis self l [] r).1)))
        ⊎ ((counts : Dict ℕ) × (claimed_messages redis p self l r
              ≡ parse_entries redis p self l counts (delivery_counts redis self l [] r).1))
  unfolding claimed_messages
  claimed-state [] r = inl refl
  claimed-state (e ∷ l) r = elim (run-cases (delivery_counts redis self (e ∷ l) []) r) [
    | inr (y, u, q) ↦ inr (inl (y, ground arith))
    | inl (counts, u, q) ↦ inr (inr (counts, ground arith))
  ]

  module _ (j : String) (g : Fields) (out : Claims j g) where
    claimed-Delivers :
        (i : String)
        → ((ev : TransactionEvent) → parse_fields p g ≡ ok ev → i ≡ ev.id)
        → (l : List Entry) (r v : R) (ms : List StreamMessage) → Agrees j g l
        → claimed_messages redis p self l r ≡ (ok ms, v)
        → All (Delivers j g i) ms
    claimed-Delivers i carries l r v ms same h = elim (claimed-state l r) [
      | inl q ↦ let e : [] ≡ ms = ground arith in subst (All (Delivers j g i)) e tt
      | inr (inl (e, q)) ↦ absurd (ground arith)
      | inr (inr (counts, q)) ↦
          parse_entries-Delivers redis p self j g i carries l counts
            (delivery_counts redis self l [] r).1 v ms same (sym q ∙ h)
    ]

    pub claim_stale-Delivers :
        (i : String)
        → ((ev : TransactionEvent) → parse_fields p g ≡ ok ev → i ≡ ev.id)
        → (r v : R) (ms : List StreamMessage) → claim_stale redis p self min_idle_ms r ≡ (ok ms, v)
        → All (Delivers j g i) ms
    claim_stale-Delivers i carries r v ms h = elim (claim_stale-state r) [
      | inl (e, q) ↦ absurd (ground arith)
      | inr (cursor, l, deleted, a, q) ↦
          claimed-Delivers i carries l (xclaim r).1 v ms (out r cursor l deleted a) (sym q ∙ h)
    ]

    module _ (pending : R → String → String → String → Bool) (entries : R → String → List Fields)
        (laws : IsRedis redis pending entries) where
      abbrev IsKeptIn : R → Type 0
      IsKeptIn r = IsKept redis self pending entries laws r j g

      delivery_count_of-Keeps :
          (msg_id : String) → Keeps IsKeptIn (delivery_count_of redis self msg_id)
      unfolding delivery_count_of
      delivery_count_of-Keeps msg_id =
          >>=-Keeps IsKeptIn (redis.xpending_range self.stream self.group msg_id msg_id 1) _
            (record { at = looked }) λ found. pure-Keeps IsKeptIn (times_delivered found)
        where
          looked :
              (r : R)
              → IsKeptIn r
              → IsKeptIn (redis.xpending_range self.stream self.group msg_id msg_id 1 r).1
          looked r (inl h) =
              inl (laws.xpending_range_pending self.stream self.group msg_id msg_id 1 r j ∙ h)
          looked r (inr (reason, h)) = inr (
            reason,
            rw
                (laws.xpending_range_entries self.stream self.group msg_id msg_id 1 r
                  self.dlq_stream)
                h,
          )

      delivery_counts-Keeps :
          (l : List Entry) (counts : Dict ℕ) → Keeps IsKeptIn (delivery_counts redis self l counts)
      unfolding delivery_counts
      delivery_counts-Keeps [] counts = pure-Keeps IsKeptIn counts
      delivery_counts-Keeps ((msg_id, fields) ∷ l) counts =
          >>=-Keeps IsKeptIn (delivery_count_of redis self msg_id)
            (λ n. delivery_counts redis self l (insert msg_id n counts))
            (delivery_count_of-Keeps msg_id) λ n. delivery_counts-Keeps l (insert msg_id n counts)

      xclaim_keeps : (r : R) → IsKeptIn r → IsKeptIn (xclaim r).1
      xclaim_keeps r (inl h) = inl (
          laws.xautoclaim_pending self.stream self.group self.consumer min_idle_ms "0-0"
            self.batch_size r j h)
      xclaim_keeps r (inr (reason, h)) = inr (
        reason,
        rw
            (laws.xautoclaim_entries self.stream self.group self.consumer min_idle_ms "0-0"
              self.batch_size r self.dlq_stream)
            h,
      )

      claimed_keep :
          (l : List Entry) (r : R)
          → Agrees j g l
          → IsKeptIn r
          → IsKeptIn (claimed_messages redis p self l r).1
      claimed_keep l r same h =
          let k = (delivery_counts-Keeps l []).at r h in
          elim (claimed-state l r) [
            | inl q ↦ rw q h
            | inr (inl (e, q)) ↦ rw q k
            | inr (inr (counts, q)) ↦ rw q (
                parse_entries_keeps redis p self pending entries laws j g l counts
                  (delivery_counts redis self l [] r).1 same k)
          ]

      pub claim_stale_keeps :
          (r : R) → IsKeptIn r → IsKeptIn (claim_stale redis p self min_idle_ms r).1
      claim_stale_keeps r h =
          let k = xclaim_keeps r h in
          elim (claim_stale-state r) [
            | inl (e, q) ↦ rw q k
            | inr (cursor, l, deleted, a, q) ↦
                rw q (claimed_keep l (xclaim r).1 (out r cursor l deleted a) k)
          ]
