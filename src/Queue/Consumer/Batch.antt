-- ===== src/Queue/Consumer/Batch.antt =====
-- app/queue/consumer.py: `_parse_entries`, on the state that it leaves.
use txn_event_processor.Prelude.{
  ℕ, String, Bool, List, [], ◌∷◌, ◌≡◌, ◌⊎◌, inl, inr, arith, All, Bool-cases, Option-cases,
}
use txn_event_processor.Prelude.Dict.{Dict, lookup}
use txn_event_processor.Action.{run-cases, Result-cases}
use txn_event_processor.Core.Errors.{is_parse_error, str_exn}
use txn_event_processor.Schemas.Envelope.{Fields, parse_fields}
use txn_event_processor.Schemas.Events.{Pydantic}
use txn_event_processor.Queue.Redis.{Redis, IsRedis, Entry}
use txn_event_processor.Queue.Consumer.{
  str_append, StreamConsumer, dead_letter_fields, parse_entry, parse_entries,
}
use txn_event_processor.Queue.Consumer.Safety.{IsKept, dead_letter_fields_keeps}

-- No entry of the batch has the id `j` with other fields than `g`.
abbrev pub Agrees : String → Fields → List Entry → Type 0
Agrees j g = All (λ e. j ≡ e.0 → g ≡ e.1)

module _ {R : Type 0} (redis : Redis R) (p : Pydantic) (self : StreamConsumer) where
  -- A round leaves the queue as it was, or dead-letters its entry.
  pub parse_entry-state :
      (e : Entry) (counts : Dict ℕ) (r : R)
      → ((parse_entry redis p self e counts r).1 ≡ r)
        ⊎ ((reason : String) × ((parse_entry redis p self e counts r).1
              ≡ (dead_letter_fields redis self e.0 e.1 reason r).1))
  unfolding parse_entry
  parse_entry-state (msg_id, fields) counts r = elim (Result-cases (parse_fields p fields)) [
    | inl (ev, q) ↦ elim (Option-cases (lookup msg_id counts)) [
      | inl z ↦ inl (ground arith)
      | inr (n, z) ↦ inl (ground arith)
    ]
    | inr (x, q) ↦ elim (Bool-cases (is_parse_error x)) [
      | inr z ↦ inl (ground arith)
      | inl z ↦ inr (str_append "unparseable: " (str_exn x), ground arith)
    ]
  ]

  -- A raise in a round ends the loop; otherwise the later rounds run from the state it leaves.
  pub parse_entries-state :
      (e : Entry) (l : List Entry) (counts : Dict ℕ) (r : R)
      → let u = (parse_entry redis p self e counts r).1 in
        ((parse_entries redis p self (e ∷ l) counts r).1 ≡ u)
        ⊎ ((parse_entries redis p self (e ∷ l) counts r).1
            ≡ (parse_entries redis p self l counts u).1)
  unfolding parse_entries
  parse_entries-state e l counts r = elim (run-cases (parse_entry redis p self e counts) r) [
    | inr (x, u, q) ↦ inl (ground arith)
    | inl (m, u, q) ↦ elim (run-cases (parse_entries redis p self l counts) u) [
      | inr (x, v, z) ↦ inr (ground arith)
      | inl (ms, v, z) ↦ inr (ground arith)
    ]
  ]

  module _ (pending : R → String → String → String → Bool) (entries : R → String → List Fields)
      (laws : IsRedis redis pending entries) where
    parse_entry_keeps :
        (j : String) (g : Fields) (e : Entry) (counts : Dict ℕ) (r : R)
        → (j ≡ e.0 → g ≡ e.1)
        → IsKept redis self pending entries laws r j g
        → IsKept redis self pending entries laws (parse_entry redis p self e counts r).1 j g
    parse_entry_keeps j g e counts r same h = elim (parse_entry-state e counts r) [
      | inl q ↦ rw q h
      | inr (reason, q) ↦
          rw q
            (dead_letter_fields_keeps redis self pending entries laws j g e.0 e.1 reason r same h)
    ]

    -- Parsing a batch of entries keeps a delivery pending or dead-lettered, however it ends, if no
    -- entry of the batch has its id with other fields and Redis behaves as documented.
    pub parse_entries_keeps :
        (j : String) (g : Fields) (l : List Entry) (counts : Dict ℕ) (r : R)
        → Agrees j g l
        → IsKept redis self pending entries laws r j g
        → IsKept redis self pending entries laws (parse_entries redis p self l counts r).1 j g
    parse_entries_keeps j g [] counts r same h = unfold parse_entries in h
    parse_entries_keeps j g (e ∷ l) counts r same h =
        let k = parse_entry_keeps j g e counts r same.0 h in
        elim (parse_entries-state e l counts r) [
          | inl q ↦ rw q k
          | inr q ↦
              rw q
                (parse_entries_keeps j g l counts (parse_entry redis p self e counts r).1 same.1 k)
        ]
