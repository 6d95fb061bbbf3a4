-- ===== src/Schemas/Envelope/RoundTrip.antt =====
-- app/schemas/events.py: envelopes written by the API and read by the worker.
use txn_event_processor.Prelude.{true, ◌≡◌, inl, inr, arith, ap}
use txn_event_processor.Prelude.Dict.{lookup}
use txn_event_processor.Core.Errors.{Exn, is_parse_error}
use txn_event_processor.Action.{and_then, Result, ok, err, Result-cases}
use txn_event_processor.Schemas.IntText.RoundTrip.{read_int-int_text}
use txn_event_processor.Schemas.IntText.{
  str_nat, digit_count, int_text, max_str_digits, str_int, int_of_text,
}
use txn_event_processor.Prelude.Int.{ℤ}
use txn_event_processor.Prelude.{String, ◌∙◌, refl, some, ◌≤◌, le→leb}
use txn_event_processor.Schemas.Events.{
  TransactionEvent, TransactionEventIn, Pydantic, IsPydantic, accept_event, validate_event_idem,
}
use txn_event_processor.Schemas.Datetime.{Datetime}
use txn_event_processor.Schemas.Envelope.{
  ◌>>=◌, Fields, StreamEnvelope, new_envelope, to_fields, from_fields, to_event, parse_fields,
}

-- Python writes no integer of more digits than its limit.
abbrev pub IsPrintable : StreamEnvelope → Type 0
IsPrintable e = digit_count (int_text e.schema_version) ≤ max_str_digits

str_int_returns :
    (n : ℤ)
    → digit_count (int_text n) ≤ max_str_digits
    → (str_int n ≡ ok (int_text n)) × (int_of_text (int_text n) ≡ some n)
unfolding str_int int_of_text
str_int_returns n h =
    let f = le→leb (digit_count (int_text n)) max_str_digits h in
    (rw f refl, rw f (read_int-int_text n))

-- Every envelope whose version has at most 4300 digits, the most that Python converts to or from
-- text, is written to fields and read back from them unchanged; `to_fields` does not raise for it.
pub from_fields-to_fields :
    (e : StreamEnvelope) → IsPrintable e → and_then (to_fields e) from_fields ≡ ok e
unfolding from_fields to_fields lookup
from_fields-to_fields e h = let (a, b) = str_int_returns e.schema_version h in ground arith

new_envelope-IsPrintable : (payload : String) → IsPrintable (new_envelope payload)
unfolding new_envelope digit_count int_text str_nat
new_envelope-IsPrintable payload = omega arith

and_then_assoc :
    {A B C : Type 0} (r : Result A) (f : A → Result B) (g : B → Result C)
    → and_then r (λ a. f a >>= g) ≡ and_then (and_then r f) g
and_then_assoc (ok a) f g = elim (Result-cases (f a)) [
  | inl (b, q) ↦ rw q refl
  | inr (e, q) ↦ rw q refl
]
and_then_assoc (err e) f g = refl

from_fields_raises :
    (fields : Fields) (e : Exn) → from_fields fields ≡ err e → is_parse_error e ≡ true
unfolding from_fields is_parse_error
from_fields_raises fields e h = ground arith

module _ (p : Pydantic) (laws : IsPydantic p) where
  -- The fields of an accepted event are written without an exception, and the worker parses them to
  -- exactly that event, if pydantic and `str.upper` behave as documented.
  pub parse-accept_event :
      (payload : TransactionEventIn) (now : Datetime)
      → let ev = accept_event p payload now in
        and_then (to_fields (new_envelope (p.dump_json ev))) (parse_fields p) ≡ ok ev
  unfolding accept_event new_envelope
  parse-accept_event payload now =
      let raw : TransactionEvent = record { event_in = payload; received_at = now } in
      let ev = accept_event p payload now in
      let e = new_envelope (p.dump_json ev) in
      unfold parse_fields in
      and_then_assoc (to_fields e) from_fields (to_event p)
      ∙ ap (λ r. and_then r (to_event p))
          (from_fields-to_fields e (new_envelope-IsPrintable (p.dump_json ev)))
      ∙ rw (laws.load-dump ev) (ap ok (validate_event_idem p laws raw))

  to_event_raises : (v : StreamEnvelope) (e : Exn) → to_event p v ≡ err e → is_parse_error e ≡ true
  unfolding to_event is_parse_error
  to_event_raises v e h = elim (Result-cases (p.load_json v.payload)) [
    | inl (ev, q) ↦ ground arith
    | inr (x, q) ↦ ground (arith, laws.load_raises v.payload x q)
  ]

  -- Whatever an entry's fields are, an error that parsing them raises is a `KeyError` or a
  -- `ValueError`, the two that `_parse_entries` catches, if pydantic behaves as documented.
  parse_fields_raises :
      (fields : Fields) (e : Exn) → parse_fields p fields ≡ err e → is_parse_error e ≡ true
  unfolding parse_fields
  parse_fields_raises fields e h = elim (Result-cases (from_fields fields)) [
    | inl (v, q) ↦ to_event_raises v e (ground arith)
    | inr (x, q) ↦ ground (arith, from_fields_raises fields x)
  ]
