-- ===== src/Worker/NoLoss.antt =====
-- app/worker.py: `handle`, on where a delivery is afterwards.
use txn_event_processor.Prelude.{
  String, Bool, true, List, [], ◌∷◌, ◌≡◌, ◌≢◌, ◌⊎◌, inl, inr, arith, All, leb, str_eq, eq_iff,
  Bool-cases, ◌∙◌, sym,
}
use mathlib.Core.Path.{subst, subst₂}
use txn_event_processor.Action.{ok, run-cases}
use txn_event_processor.Action.Keeps.{
  if-Keeps, Keeps, pure-Keeps, raise-Keeps, try_except-Keeps, >>=-Keeps,
}
use txn_event_processor.Core.Errors.{Exn, is_permanent, is_transient, is_exception}
use txn_event_processor.Core.Config.{Settings, IsChecked}
use txn_event_processor.Db.Models.{ProcessedTransaction, has_id}
use txn_event_processor.Db.Session.{IsPostgres}
use txn_event_processor.Db.Repository.{insert_ignore_duplicate}
use txn_event_processor.Queue.Redis.{IsRedis}
use txn_event_processor.Queue.Consumer.{StreamConsumer, StreamMessage, ack, dead_letter}
use txn_event_processor.Queue.Consumer.Safety.{IsKept, dead_letter_fields_keeps}
use txn_event_processor.Schemas.Envelope.{Fields}
use txn_event_processor.Services.External.{External}
use txn_event_processor.Services.World.{World, on_redis, count}
use txn_event_processor.Services.RateClient.{RateClient}
use txn_event_processor.Services.Processor.{process, Outcome}
use txn_event_processor.Services.Processor.Frame.{process-Keeps}
use txn_event_processor.Services.Processor.Stores.{
  insert_keeps_idle, insert_keeps_idle, process_stores, insert_keeps_stored,
}
use txn_event_processor.Worker.{
  unexpected, exhausted, permanent, inc_failed, attempt, park, on_failure, handle, handle_all,
  FailureKind,
}

module _ (x : External) (rates : RateClient) (consumer : StreamConsumer) (settings : Settings)
    (checked : IsChecked settings) (pending : x.R → String → String → String → Bool)
    (entries : x.R → String → List Fields) (redis_laws : IsRedis x.redis pending entries)
    (rows written : x.D → List ProcessedTransaction)
    (stored : ProcessedTransaction → ProcessedTransaction)
    (db_laws : IsPostgres x.session rows written stored) where
  -- The delivery `j` of fields `g`, which carry the event `i`, is pending, dead-lettered or stored,
  -- and no transaction is open.
  abbrev pub IsSafe : String → Fields → String → x.R → x.D → Type 0
  IsSafe j g i r d =
      (written d ≡ [])
      × (IsKept x.redis consumer pending entries redis_laws r j g ⊎ (has_id i (rows d) ≡ true))

  abbrev pub IsAccounted : String → Fields → String → World x → Type 0
  IsAccounted j g i w = IsSafe j g i w.redis w.db

  -- A message that has the id `j` has the fields `g` and the event `i`.
  abbrev pub IsDeliveryOf : String → Fields → String → StreamMessage → Type 0
  IsDeliveryOf j g i msg = j ≡ msg.msg_id → (g ≡ msg.raw_fields) × (i ≡ msg.event.id)

  module _ (j : String) (g : Fields) (i : String) where
    insert_keeps :
        (row : ProcessedTransaction) (r : x.R) (d : x.D)
        → IsSafe j g i r d
        → IsSafe j g i r (insert_ignore_duplicate x.session row d).1
    insert_keeps row r d (idle, inl kept) = (
      insert_keeps_idle x rates settings checked rows written stored db_laws row r d idle,
      inl kept,
    )
    insert_keeps row r d (idle, inr h) =
        let (idle', h') =
          insert_keeps_stored x rates settings checked rows written stored db_laws i row r d
            (idle, h) in
        (idle', inr h')

    -- An acknowledgement keeps what is dead-lettered, and the other deliveries.
    ack_other :
        (msg_id : String) (r : x.R)
        → j ≢ msg_id
        → IsKept x.redis consumer pending entries redis_laws r j g
        → IsKept x.redis consumer pending entries redis_laws (ack x.redis consumer msg_id r).1 j g
    unfolding ack
    ack_other msg_id r ne (inl p) =
        inl (redis_laws.xack_others consumer.stream consumer.group msg_id j r ne ∙ p)
    ack_other msg_id r ne (inr (reason, q)) = inr (
      reason,
      rw (redis_laws.xack_entries consumer.stream consumer.group msg_id r consumer.dlq_stream) q,
    )

    ack_keeps :
        (msg_id : String) (r : x.R) (d : x.D)
        → IsSafe j g i r d
        → (j ≡ msg_id → has_id i (rows d) ≡ true)
        → IsSafe j g i (ack x.redis consumer msg_id r).1 d
    ack_keeps msg_id r d (idle, inr h) done = (idle, inr h)
    ack_keeps msg_id r d (idle, inl kept) done = elim (Bool-cases (str_eq j msg_id)) [
      | inl e ↦ (idle, inr (done ((eq_iff j msg_id).0 e)))
      | inr e ↦ (idle, inl (ack_other msg_id r (ground (arith, eq_iff j msg_id)) kept))
    ]

    -- `attempt` either ends where `process` raised or acknowledges after it returned.
    attempt-state :
        (msg : StreamMessage) (w : World x)
        → let u = (process x rates settings msg.event w).1 in
          let v = (attempt x rates consumer settings msg w).1 in
          ((v.redis ≡ u.redis) × (v.db ≡ u.db))
          ⊎ ((o : Outcome) × ((process x rates settings msg.event w).0 ≡ ok o)
              × (v.redis ≡ (ack x.redis consumer msg.msg_id u.redis).1)
              × (v.db ≡ u.db))
    unfolding attempt
    attempt-state msg w = elim (run-cases (process x rates settings msg.event) w) [
      | inr (e, u, p) ↦ inl (ground arith, ground arith)
      | inl (o, u, p) ↦ elim (run-cases (ack x.redis consumer msg.msg_id) u.redis) [
        | inl (_, v, q) ↦ inr (o, ground arith, ground arith, ground arith)
        | inr (e, v, q) ↦ inr (o, ground arith, ground arith, ground arith)
      ]
    ]

    attempt-Keeps :
        (msg : StreamMessage)
        → IsDeliveryOf j g i msg
        → Keeps (IsAccounted j g i) (attempt x rates consumer settings msg)
    attempt-Keeps msg same = record {
      at = λ w h.
          let u = (process x rates settings msg.event w).1 in
          let k =
            (process-Keeps x rates settings (IsSafe j g i) msg.event checked insert_keeps).at w h in
          elim (attempt-state msg w) [
            | inl (p, q) ↦ subst₂ (IsSafe j g i) (sym p) (sym q) k
            | inr (o, e, p, q) ↦
                let done =
                  process_stores x rates settings checked rows written stored db_laws msg.event w o
                    h.0 e in
                subst₂ (IsSafe j g i) (sym p) (sym q) (
                  ack_keeps msg.msg_id u.redis u.db k
                    λ own. subst (λ y. has_id y (rows u.db) ≡ true) (sym (same own).1) done)
          ];
    }

    dead_letter_keeps :
        (msg : StreamMessage) (reason : String) (r : x.R) (d : x.D)
        → IsDeliveryOf j g i msg
        → IsSafe j g i r d
        → IsSafe j g i (dead_letter x.redis consumer msg reason r).1 d
    unfolding dead_letter
    dead_letter_keeps msg reason r d same (idle, inr h) = (idle, inr h)
    dead_letter_keeps msg reason r d same (idle, inl kept) = (
      idle,
      inl (
          dead_letter_fields_keeps x.redis consumer pending entries redis_laws j g msg.msg_id
            msg.raw_fields reason r (λ e. (same e).0) kept),
    )

    park-Keeps :
        (msg : StreamMessage) (reason : String) (kind : FailureKind)
        → IsDeliveryOf j g i msg
        → Keeps (IsAccounted j g i) (park x rates consumer settings msg reason kind)
    unfolding park
    park-Keeps msg reason kind same =
        >>=-Keeps (IsAccounted j g i) (on_redis x (dead_letter x.redis consumer msg reason))
          (λ _. count x (inc_failed kind))
          (record { at = λ w h. dead_letter_keeps msg reason w.redis w.db same h })
          λ _. record { at = λ w h. h }

    on_failure-Keeps :
        (msg : StreamMessage) (exc : Exn)
        → IsDeliveryOf j g i msg
        → Keeps (IsAccounted j g i) (on_failure x rates consumer settings msg exc)
    unfolding on_failure
    on_failure-Keeps msg exc same =
        if-Keeps (IsAccounted j g i) (is_permanent exc) _ _ (park-Keeps msg _ permanent same) (
          if-Keeps (IsAccounted j g i) (is_transient exc) _ _
            (if-Keeps (IsAccounted j g i) (leb settings.max_deliveries msg.delivery_count) _ _
              (park-Keeps msg "max deliveries exceeded" exhausted same) (record { at = λ w h. h }))
            (if-Keeps (IsAccounted j g i) (is_exception exc) _ _ (park-Keeps msg _ unexpected same)
              (raise-Keeps (IsAccounted j g i) exc)))

    -- `handle` keeps every delivery accounted for, its own and the others, however it ends.
    pub handle-Keeps :
        (msg : StreamMessage)
        → IsDeliveryOf j g i msg
        → Keeps (IsAccounted j g i) (handle x rates consumer settings msg)
    unfolding handle
    handle-Keeps msg same =
        try_except-Keeps (IsAccounted j g i) _ _ (attempt-Keeps msg same)
          λ e. on_failure-Keeps msg e same

    -- Handling a batch of messages keeps every delivery accounted for: if no transaction is open
    -- and the delivery `j`, with fields `g` that carry the event `i`, is pending, dead-lettered
    -- with a reason or stored as a row with the id `i`, then the same holds after `handle_all`,
    -- however it ends (an exception and a cancellation included), provided every message of the
    -- batch with the id `j` has those fields and that event, the settings passed validation, and
    -- Redis and Postgres behave as documented.
    pub handle_all-Keeps :
        (messages : List StreamMessage)
        → All (IsDeliveryOf j g i) messages
        → Keeps (IsAccounted j g i) (handle_all x rates consumer settings messages)
    unfolding handle_all
    handle_all-Keeps [] same = pure-Keeps (IsAccounted j g i) tt
    handle_all-Keeps (msg ∷ messages) same =
        >>=-Keeps (IsAccounted j g i) (handle x rates consumer settings msg) _
          (handle-Keeps msg same.0) λ _. handle_all-Keeps messages same.1
