-- ===== src/Worker/Policy.antt =====
-- app/worker.py: the clauses of `handle`, one equation for each.
use txn_event_processor.Prelude.{
  String, Bool, true, false, ◌≡◌, refl, arith, ap, leb, ◌∙◌, sym, List,
}
use mathlib.Core.Path.{subst}
use Prim.Native.String.{◌++◌ as str_append}
use txn_event_processor.Action.{raise, ok, err, >>=-returns}
use txn_event_processor.Core.Errors.{
  app_error, transient_error, permanent_error, rate_service_unavailable, unknown_currency,
  database_unavailable, key_error, value_error, os_error, sqlalchemy_error, postgres_error,
  response_error, request_error, status_error, http_exception, other_exception, shutdown_requested,
  cancelled, Exn, is_permanent, is_transient, is_exception, str_exn, redis_error,
}
use txn_event_processor.Core.Config.{Settings}
use txn_event_processor.Prelude.Dict.{insert}
use txn_event_processor.Queue.Redis.{IsRedis}
use txn_event_processor.Queue.Consumer.{StreamConsumer, StreamMessage, dead_letter}
use txn_event_processor.Queue.Consumer.Safety.{Has, dead_letter_fields_returns}
use txn_event_processor.Schemas.Envelope.{Fields}
use txn_event_processor.Services.External.{External}
use txn_event_processor.Services.World.{World, on_redis, count}
use txn_event_processor.Services.RateClient.{RateClient}
use txn_event_processor.Services.Processor.{process}
use txn_event_processor.Worker.{
  attempt, park, on_failure, handle, FailureKind, permanent, transient, exhausted, unexpected,
  inc_failed,
}

-- The two bases of the taxonomy have no common subclass.
pub not_permanent : (e : Exn) → is_transient e ≡ true → is_permanent e ≡ false
unfolding is_transient is_permanent
not_permanent (permanent_error _) h = absurd (cc h)
not_permanent (unknown_currency _) h = absurd (cc h)
not_permanent (app_error _) h = refl
not_permanent (transient_error _) h = refl
not_permanent (rate_service_unavailable _) h = refl
not_permanent (database_unavailable _) h = refl
not_permanent (key_error _) h = refl
not_permanent (value_error _) h = refl
not_permanent (os_error _) h = refl
not_permanent (sqlalchemy_error _) h = refl
not_permanent (postgres_error _) h = refl
not_permanent (redis_error _) h = refl
not_permanent (response_error _) h = refl
not_permanent (request_error _) h = refl
not_permanent (status_error _) h = refl
not_permanent (http_exception _ _) h = refl
not_permanent (other_exception _) h = refl
not_permanent shutdown_requested h = refl
not_permanent cancelled h = refl

module _ (x : External) (rates : RateClient) (consumer : StreamConsumer) (settings : Settings) where
  module _ (msg : StreamMessage) (e : Exn) where
    pub on_failure_permanent :
        is_permanent e ≡ true
        → on_failure x rates consumer settings msg e
          ≡ park x rates consumer settings msg (str_exn e) permanent
    unfolding on_failure
    on_failure_permanent p = rw p refl

    pub on_failure_exhausted :
        is_permanent e ≡ false
        → is_transient e ≡ true
        → leb settings.max_deliveries msg.delivery_count ≡ true
        → on_failure x rates consumer settings msg e
          ≡ park x rates consumer settings msg "max deliveries exceeded" exhausted
    unfolding on_failure
    on_failure_exhausted p q l = rw (p, q, l) refl

    pub on_failure_transient :
        is_permanent e ≡ false
        → is_transient e ≡ true
        → leb settings.max_deliveries msg.delivery_count ≡ false
        → on_failure x rates consumer settings msg e ≡ count x (inc_failed transient)
    unfolding on_failure
    on_failure_transient p q l = rw (p, q, l) refl

    pub on_failure_unexpected :
        is_permanent e ≡ false
        → is_transient e ≡ false
        → is_exception e ≡ true
        → on_failure x rates consumer settings msg e
          ≡ park x rates consumer settings msg
              (str_append "unexpected error: " (str_exn e))
              unexpected
    unfolding on_failure
    on_failure_unexpected p q r = rw (p, q, r) refl

    pub on_failure_raises :
        is_permanent e ≡ false
        → is_transient e ≡ false
        → is_exception e ≡ false
        → on_failure x rates consumer settings msg e ≡ raise e
    unfolding on_failure
    on_failure_raises p q r = rw (p, q, r) refl

  module _ (msg : StreamMessage) (e : Exn) (w u : World x)
      (raised : process x rates settings msg.event w ≡ (err e, u)) where
    -- A raise of `process` goes to the handlers.
    pub handle_raised :
        handle x rates consumer settings msg w ≡ on_failure x rates consumer settings msg e u
    unfolding handle attempt
    handle_raised = ground arith

module _ (x : External) (rates : RateClient) (consumer : StreamConsumer) (settings : Settings)
    (pending : x.R → String → String → String → Bool) (entries : x.R → String → List Fields)
    (laws : IsRedis x.redis pending entries) where
  abbrev pub IsParked : StreamMessage → String → World x → Type 0
  IsParked msg reason w =
      Has (insert "reason" reason msg.raw_fields) (entries w.redis consumer.dlq_stream)
      × (pending w.redis consumer.stream consumer.group msg.msg_id ≡ false)

  pub park_returns :
      (msg : StreamMessage) (reason : String) (kind : FailureKind) (w : World x)
      → (park x rates consumer settings msg reason kind w).0 ≡ ok tt
      → IsParked msg reason (park x rates consumer settings msg reason kind w).1
  unfolding park dead_letter
  park_returns msg reason kind w h =
      let (u, v, p, q) =
        >>=-returns (on_redis x (dead_letter x.redis consumer msg reason))
          (λ _. count x (inc_failed kind)) w tt h in
      let k =
        dead_letter_fields_returns x.redis consumer pending entries laws msg.msg_id msg.raw_fields
          reason w.redis (ap (λ z. z.0) p) in
      subst
        (λ r.
          Has (insert "reason" reason msg.raw_fields) (entries r consumer.dlq_stream)
          × (pending r consumer.stream consumer.group msg.msg_id ≡ false))
        (ap (λ z. z.1.redis) p ∙ sym (ap (λ z. z.1.redis) q)) k
