-- ===== src/Worker/Cutoff.antt =====
-- app/worker.py: `handle`, by how the processing of the message ended.
use txn_event_processor.Prelude.{
  String, Bool, true, false, ◌≡◌, ◌≤◌, ◌<◌, ◌⊎◌, inl, inr, refl, arith, ap, leb, le→leb,
  lt→leb_false, Bool-cases, ◌∙◌, sym, List,
}
use mathlib.Core.Path.{subst}
use Prim.Native.String.{◌++◌ as str_append}
use txn_event_processor.Action.{ok, err, run-cases}
use txn_event_processor.Core.Errors.{Exn, is_permanent, is_transient, is_exception, str_exn}
use txn_event_processor.Core.Config.{Settings, IsChecked}
use txn_event_processor.Prelude.Dict.{insert}
use txn_event_processor.Queue.Redis.{IsRedis}
use txn_event_processor.Queue.Consumer.{StreamConsumer, StreamMessage, ack}
use txn_event_processor.Queue.Consumer.Safety.{Has}
use txn_event_processor.Schemas.Envelope.{Fields}
use txn_event_processor.Schemas.Events.{TransactionEvent}
use txn_event_processor.Services.External.{External}
use txn_event_processor.Services.World.{World}
use txn_event_processor.Services.RateClient.{RateClient}
use txn_event_processor.Services.Processor.{process}
use txn_event_processor.Services.Processor.Frame.{process-Keeps}
use txn_event_processor.Worker.{
  attempt, park, on_failure, handle, FailureKind, permanent, exhausted, unexpected,
}
use txn_event_processor.Worker.Policy.{
  IsParked, park_returns, not_permanent, on_failure_permanent, on_failure_exhausted,
  on_failure_unexpected, on_failure_raises, on_failure_transient, handle_raised,
}

module _ (x : External) (rates : RateClient) (consumer : StreamConsumer) (settings : Settings)
    (pending : x.R → String → String → String → Bool) (entries : x.R → String → List Fields)
    (laws : IsRedis x.redis pending entries) where
  parked :
      (msg : StreamMessage) (e : Exn) (reason : String) (kind : FailureKind) (w : World x)
      → on_failure x rates consumer settings msg e ≡ park x rates consumer settings msg reason kind
      → (on_failure x rates consumer settings msg e w).0 ≡ ok tt
      → IsParked x rates consumer settings pending entries laws msg reason
          (on_failure x rates consumer settings msg e w).1
  parked msg e reason kind w q =
      subst
        (λ m.
          (m w).0 ≡ ok tt
          → IsParked x rates consumer settings pending entries laws msg reason (m w).1)
        (sym q) (park_returns x rates consumer settings pending entries laws msg reason kind w)

  -- A handler that returns has parked the message, or left it for a later delivery.
  on_failure_returns :
      (msg : StreamMessage) (e : Exn) (w : World x)
      → (on_failure x rates consumer settings msg e w).0 ≡ ok tt
      → ((reason : String) × IsParked x rates consumer settings pending entries laws msg reason
            (on_failure x rates consumer settings msg e w).1)
        ⊎ (leb settings.max_deliveries msg.delivery_count ≡ false)
  on_failure_returns msg e w h = elim (Bool-cases (is_permanent e)) [
    | inl p ↦ inl (
      str_exn e,
      parked msg e _ permanent w (on_failure_permanent x rates consumer settings msg e p) h,
    )
    | inr p ↦ elim (Bool-cases (is_transient e)) [
      | inl q ↦ elim (Bool-cases (leb settings.max_deliveries msg.delivery_count)) [
        | inl l ↦ inl (
          "max deliveries exceeded",
          parked msg e _ exhausted w (on_failure_exhausted x rates consumer settings msg e p q l) h,
        )
        | inr l ↦ inr l
      ]
      | inr q ↦ elim (Bool-cases (is_exception e)) [
        | inl r ↦ inl (
          str_append "unexpected error: " (str_exn e),
          parked msg e _ unexpected w (on_failure_unexpected x rates consumer settings msg e p q r)
              h,
        )
        | inr r ↦
            absurd
              (cc (ap (λ m. (m w).0) (on_failure_raises x rates consumer settings msg e p q r), h))
      ]
    ]
  ]

  handle_state :
      (msg : StreamMessage) (w : World x)
      → ((v : World x) × (attempt x rates consumer settings msg w ≡ (ok tt, v))
          × (handle x rates consumer settings msg w ≡ (ok tt, v)))
        ⊎ ((e : Exn) × (v : World x) × (attempt x rates consumer settings msg w ≡ (err e, v))
            × (handle x rates consumer settings msg w
                ≡ on_failure x rates consumer settings msg e v))
  unfolding handle
  handle_state msg w = elim (run-cases (attempt x rates consumer settings msg) w) [
    | inl (_, v, p) ↦ inl (v, p, ground arith)
    | inr (e, v, p) ↦ inr (e, v, p, ground arith)
  ]

  attempt_returns :
      (msg : StreamMessage) (w v : World x)
      → attempt x rates consumer settings msg w ≡ (ok tt, v)
      → pending v.redis consumer.stream consumer.group msg.msg_id ≡ false
  unfolding attempt ack
  attempt_returns msg w v h = elim (run-cases (process x rates settings msg.event) w) [
    | inr (e, u, p) ↦ absurd (ground arith)
    | inl (o, u, p) ↦ elim (run-cases (ack x.redis consumer msg.msg_id) u.redis) [
      | inr (e, r, q) ↦ absurd (ground arith)
      | inl (_, r, q) ↦
          let k =
            laws.xack_ok consumer.stream consumer.group msg.msg_id u.redis (ap (λ z. z.0) q) in
          subst (λ y. pending y consumer.stream consumer.group msg.msg_id ≡ false)
            (ap (λ z. z.1) q ∙ ground arith) k
    ]
  ]

  -- When `handle` returns for a message that has been delivered `max_deliveries` times or more, the
  -- message is no longer pending in its group, whatever its processing raised, if Redis behaves as
  -- documented.
  pub handle_cutoff :
      (msg : StreamMessage) (w : World x)
      → settings.max_deliveries ≤ msg.delivery_count
      → (handle x rates consumer settings msg w).0 ≡ ok tt
      → pending
          (handle x rates consumer settings msg w).1.redis
          consumer.stream
          consumer.group
          msg.msg_id
        ≡ false
  handle_cutoff msg w l h = elim (handle_state msg w) [
    | inl (v, p, q) ↦ rw q (attempt_returns msg w v p)
    | inr (e, v, p, q) ↦ elim (on_failure_returns msg e v (subst (λ y. y.0 ≡ ok tt) q h)) [
      | inl (reason, k) ↦ rw q k.1
      | inr k ↦ absurd (cc (k, le→leb settings.max_deliveries msg.delivery_count l))
    ]
  ]

  -- `process` leaves the queue alone.
  process_redis :
      (ev : TransactionEvent) (w : World x)
      → IsChecked settings
      → (process x rates settings ev w).1.redis ≡ w.redis
  process_redis ev w checked =
      (process-Keeps x rates settings (λ r d. r ≡ w.redis) ev checked (λ row r d q. q)).at w refl

  -- If `process` raises a transient error and the message has been delivered fewer than
  -- `max_deliveries` times, then, with validated settings, `handle` returns, the queue is exactly
  -- as before it, and the database as `process` left it.
  pub handle_transient :
      (msg : StreamMessage) (w : World x) (e : Exn)
      → IsChecked settings
      → (process x rates settings msg.event w).0 ≡ err e
      → is_transient e ≡ true
      → msg.delivery_count < settings.max_deliveries
      → ((handle x rates consumer settings msg w).0 ≡ ok tt)
        × ((handle x rates consumer settings msg w).1.redis ≡ w.redis)
        × ((handle x rates consumer settings msg w).1.db
            ≡ (process x rates settings msg.event w).1.db)
  handle_transient msg w e checked p t l =
      let u = (process x rates settings msg.event w).1 in
      let q = handle_raised x rates consumer settings msg e w u (λ i. (p i, u)) in
      let r =
        on_failure_transient x rates consumer settings msg e (not_permanent e t) t
          (lt→leb_false settings.max_deliveries msg.delivery_count l) in
      let s = q ∙ ap (λ m. m u) r in
      (
        ap (λ z. z.0) s,
        ap (λ z. z.1.redis) s ∙ process_redis msg.event w checked,
        ap (λ z. z.1.db) s,
      )

  -- If `process` raises a permanent error and `handle` returns, then the dead-letter stream has an
  -- entry with the message's fields and the error's text as their reason, and the message is no
  -- longer pending, if Redis behaves as documented.
  pub handle_permanent :
      (msg : StreamMessage) (w : World x) (e : Exn)
      → (process x rates settings msg.event w).0 ≡ err e
      → is_permanent e ≡ true
      → (handle x rates consumer settings msg w).0 ≡ ok tt
      → let r = (handle x rates consumer settings msg w).1.redis in
        Has (insert "reason" (str_exn e) msg.raw_fields) (entries r consumer.dlq_stream)
        × (pending r consumer.stream consumer.group msg.msg_id ≡ false)
  handle_permanent msg w e p t h =
      let u = (process x rates settings msg.event w).1 in
      let q = handle_raised x rates consumer settings msg e w u (λ i. (p i, u)) in
      rw q (
        parked msg e (str_exn e) permanent u
          (on_failure_permanent x rates consumer settings msg e t) (subst (λ y. y.0 ≡ ok tt) q h))
