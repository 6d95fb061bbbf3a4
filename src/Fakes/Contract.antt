-- ===== src/Fakes/Contract.antt =====
-- The Redis in memory hands one entry out, and always with the same fields.
use txn_event_processor.Prelude.{inl, inr, Bool-cases, [], ◌∷◌, ◌≡◌, refl, arith}
use txn_event_processor.Action.{ok}
use txn_event_processor.Schemas.IntText.{int_of_text, scan}
use txn_event_processor.Prelude.Dict.{lookup}
use mathlib.Core.Path.{subst}
use txn_event_processor.Queue.Consumer.Batch.{Agrees}
use txn_event_processor.Schemas.Datetime.{assume_utc}
use txn_event_processor.Queue.Consumer.Claiming.{Claims}
use txn_event_processor.Queue.Consumer.Reading.{HandsOut}
use txn_event_processor.Schemas.Envelope.{parse_fields}
use txn_event_processor.Schemas.Events.{validate_event, TransactionEvent}
use txn_event_processor.Fakes.Queue.{is_in, server, first_fields}
use txn_event_processor.Fakes.Json.{library, load}
use txn_event_processor.Fakes.Site.{consumer, payment}

-- The entry that the server hands out carries the payment.
reads_payment : parse_fields library first_fields ≡ ok payment
unfolding parse_fields lookup load int_of_text scan validate_event assume_utc
reads_payment = refl

pub hands_out : HandsOut server library consumer "1-1" first_fields
hands_out r reply l a b = elim (Bool-cases r.has_new) [
  | inl e ↦
      let q : (("1-1", first_fields) ∷ []) ≡ l = ground arith in
      subst (Agrees "1-1" first_fields) q (λ _. refl, tt)
  | inr e ↦ absurd (ground arith)
]

pub carries_payment :
    (ev : TransactionEvent) → parse_fields library first_fields ≡ ok ev → "e-1" ≡ ev.id
carries_payment ev h = ground (arith, reads_payment)

pub can_claim : Claims server library consumer 60000 "1-1" first_fields
can_claim r cursor l deleted a = elim (Bool-cases (is_in "1-1" r.unacked)) [
  | inl e ↦
      let q : (("1-1", first_fields) ∷ []) ≡ l = ground arith in
      subst (Agrees "1-1" first_fields) q (λ _. refl, tt)
  | inr e ↦ let q : [] ≡ l = ground arith in subst (Agrees "1-1" first_fields) q tt
]
