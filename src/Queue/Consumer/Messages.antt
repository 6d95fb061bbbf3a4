-- ===== src/Queue/Consumer/Messages.antt =====
-- app/queue/consumer.py: `_parse_entries`, on the messages that it returns.
use mathlib.Core.Path.{subst}
use txn_event_processor.Prelude.{
  ℕ, String, List, [], ◌∷◌, ◌≡◌, inl, inr, arith, none, some, Option, All, Bool-cases, Option-cases,
  ◌∙◌, sym, ap,
}
use txn_event_processor.Prelude.Dict.{Dict, lookup}
use txn_event_processor.Action.{ok, run-cases, Result-cases}
use txn_event_processor.Core.Errors.{is_parse_error, str_exn}
use txn_event_processor.Schemas.Envelope.{Fields, parse_fields}
use txn_event_processor.Schemas.Events.{Pydantic, TransactionEvent}
use txn_event_processor.Queue.Redis.{Redis, Entry}
use txn_event_processor.Queue.Consumer.{
  StreamConsumer, StreamMessage, dead_letter_fields, parse_entry, parse_entries, cons_message,
  str_append,
}
use txn_event_processor.Queue.Consumer.Batch.{Agrees}

-- A message with the id `j` has the fields `g` and the event `i`.
abbrev pub Delivers : String → Fields → String → StreamMessage → Type 0
Delivers j g i m = j ≡ m.msg_id → (g ≡ m.raw_fields) × (i ≡ m.event.id)

module _ {R : Type 0} (redis : Redis R) (p : Pydantic) (self : StreamConsumer) where
  parse_entry_message :
      (e : Entry) (counts : Dict ℕ) (r u : R) (m : StreamMessage)
      → parse_entry redis p self e counts r ≡ (ok (some m), u)
      → (m.msg_id ≡ e.0) × (m.raw_fields ≡ e.1) × (parse_fields p e.1 ≡ ok m.event)
  unfolding parse_entry
  parse_entry_message (msg_id, fields) counts r u m h =
      elim (Result-cases (parse_fields p fields)) [
        | inl (ev, q) ↦ elim (Option-cases (lookup msg_id counts)) [
          | inl z ↦ absurd (ground arith)
          | inr (n, z) ↦ ground arith
        ]
        | inr (x, q) ↦ elim (Bool-cases (is_parse_error x)) [
          | inr z ↦ absurd (ground arith)
          | inl z ↦
              elim (run-cases
                (dead_letter_fields redis self msg_id fields
                  (str_append "unparseable: " (str_exn x)))
                r) [ inl (_, v, y) ↦ absurd (ground arith) | inr (_, v, y) ↦ absurd (ground arith) ]
        ]
      ]

  module _ (j : String) (g : Fields) (i : String)
      (carries : (ev : TransactionEvent) → parse_fields p g ≡ ok ev → i ≡ ev.id) where
    message-Delivers :
        (e : Entry) (counts : Dict ℕ) (r u : R) (m : StreamMessage)
        → (j ≡ e.0 → g ≡ e.1)
        → parse_entry redis p self e counts r ≡ (ok (some m), u)
        → Delivers j g i m
    message-Delivers e counts r u m same h own =
        let (a, b, c) = parse_entry_message e counts r u m h in
        let f = same (own ∙ a) in (f ∙ sym b, carries m.event (ap (parse_fields p) f ∙ c))

    cons-Delivers :
        (e : Entry) (counts : Dict ℕ) (r u : R) (o : Option StreamMessage) (ms : List StreamMessage)
        → (j ≡ e.0 → g ≡ e.1)
        → parse_entry redis p self e counts r ≡ (ok o, u)
        → All (Delivers j g i) ms
        → All (Delivers j g i) (cons_message o ms)
    cons-Delivers e counts r u none ms same h k = k
    cons-Delivers e counts r u (some m) ms same h k = (message-Delivers e counts r u m same h, k)

    pub parse_entries-Delivers :
        (l : List Entry) (counts : Dict ℕ) (r v : R) (ms : List StreamMessage)
        → Agrees j g l
        → parse_entries redis p self l counts r ≡ (ok ms, v)
        → All (Delivers j g i) ms
    unfolding parse_entries
    parse_entries-Delivers [] counts r v ms same h =
        let e : [] ≡ ms = ground arith in subst (All (Delivers j g i)) e tt
    parse_entries-Delivers (e ∷ l) counts r v ms same h =
        elim (run-cases (parse_entry redis p self e counts) r) [
          | inr (x, u, q) ↦ absurd (ground arith)
          | inl (o, u, q) ↦ elim (run-cases (parse_entries redis p self l counts) u) [
            | inr (x, t, z) ↦ absurd (ground arith)
            | inl (later, t, z) ↦
                let k = parse_entries-Delivers l counts u t later same.1 z in
                let w : cons_message o later ≡ ms = ground arith in
                subst (All (Delivers j g i)) w (cons-Delivers e counts r u o later same.0 q k)
          ]
        ]
