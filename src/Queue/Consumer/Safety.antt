-- ===== src/Queue/Consumer/Safety.antt =====
-- app/queue/consumer.py: `_dead_letter_fields`, and what it does to the deliveries of a group.
use mathlib.Core.Path.{subst}
use txn_event_processor.Prelude.{
  eq_iff, Bool-cases, ◌≢◌, ◌∙◌, str_eq, ap, String, Bool, true, false, List, [], ◌∷◌, ◌++◌, ◌≡◌,
  ◌⊎◌, inl, inr, refl, arith, none,
}
use txn_event_processor.Prelude.Dict.{insert}
use txn_event_processor.Action.{ok, err, run-cases}
use txn_event_processor.Schemas.Envelope.{Fields}
use txn_event_processor.Queue.Redis.{Redis, IsRedis}
use txn_event_processor.Queue.Consumer.{Exn, StreamConsumer, dead_letter_fields}

-- Some entry of a stream has these fields.
abbrev pub Has : Fields → List Fields → Type 0
Has f [] = ⊥
Has f (g ∷ l) = (g ≡ f) ⊎ Has f l

Has-append : (f : Fields) (l m : List Fields) → Has f l → Has f (l ++ m)
Has-append f [] m h = absurd h
Has-append f (g ∷ l) m (inl e) = inl e
Has-append f (g ∷ l) m (inr h) = inr (Has-append f l m h)

pub Has-last : (f : Fields) (l : List Fields) → Has f (l ++ f ∷ [])
Has-last f [] = inl refl
Has-last f (g ∷ l) = inr (Has-last f l)

module _ {R : Type 0} (redis : Redis R) (self : StreamConsumer)
    (pending : R → String → String → String → Bool) (entries : R → String → List Fields)
    (laws : IsRedis redis pending entries) where
  abbrev pub IsPending : R → String → Type 0
  IsPending r msg_id = pending r self.stream self.group msg_id ≡ true

  -- The dead-letter stream has an entry with these fields and a reason.
  abbrev pub IsDeadLettered : R → Fields → Type 0
  IsDeadLettered r fields =
      (reason : String) × Has (insert "reason" reason fields) (entries r self.dlq_stream)

  -- A delivered entry is pending or dead-lettered.
  abbrev pub IsKept : R → String → Fields → Type 0
  IsKept r msg_id fields = IsPending r msg_id ⊎ IsDeadLettered r fields

  pub xadd-Has :
      (g f : Fields) (r : R)
      → Has g (entries r self.dlq_stream)
      → Has g (entries (redis.xadd self.dlq_stream f none r).1 self.dlq_stream)
  xadd-Has g f r h = elim (run-cases (redis.xadd self.dlq_stream f none) r) [
    | inl (i, u, q) ↦ rw (laws.xadd_ok self.dlq_stream f r i (ap (λ x. x.0) q)) (Has-append g _ _ h)
    | inr (e, u, q) ↦ elim (laws.xadd_err self.dlq_stream f r e (ap (λ x. x.0) q)) [
      | inl same ↦ rw same h
      | inr added ↦ rw added (Has-append g _ _ h)
    ]
  ]

  dead_letter_fields_raised :
      (msg_id : String) (fields : Fields) (reason : String) (r u : R) (e : Exn)
      → redis.xadd self.dlq_stream (insert "reason" reason fields) none r ≡ (err e, u)
      → dead_letter_fields redis self msg_id fields reason r ≡ (err e, u)
  unfolding dead_letter_fields
  dead_letter_fields_raised msg_id fields reason r u e q = ground arith

  dead_letter_fields_added :
      (msg_id : String) (fields : Fields) (reason : String) (r u : R) (i : String)
      → redis.xadd self.dlq_stream (insert "reason" reason fields) none r ≡ (ok i, u)
      → dead_letter_fields redis self msg_id fields reason r
        ≡ redis.xack self.stream self.group msg_id u
  unfolding dead_letter_fields
  dead_letter_fields_added msg_id fields reason r u i q = ground arith

  -- Dead-lettering removes nothing from the dead-letter stream.
  pub dead_letter_fields-Has :
      (g : Fields) (msg_id : String) (fields : Fields) (reason : String) (r : R)
      → Has g (entries r self.dlq_stream)
      → Has g (entries (dead_letter_fields redis self msg_id fields reason r).1 self.dlq_stream)
  dead_letter_fields-Has g msg_id fields reason r h =
      let added = insert "reason" reason fields in
      let kept = xadd-Has g added r h in
      elim (run-cases (redis.xadd self.dlq_stream added none) r) [
        | inl (i, u, q) ↦
            rw
              (
                dead_letter_fields_added msg_id fields reason r u i q,
                laws.xack_entries self.stream self.group msg_id u self.dlq_stream,
              )
              (subst (λ x. Has g (entries x.1 self.dlq_stream)) q kept)
        | inr (e, u, q) ↦
            rw (dead_letter_fields_raised msg_id fields reason r u e q)
              (subst (λ x. Has g (entries x.1 self.dlq_stream)) q kept)
      ]

  -- Other deliveries stay as pending as they were.
  pub dead_letter_fields-pending :
      (j msg_id : String) (fields : Fields) (reason : String) (r : R)
      → j ≢ msg_id
      → pending (dead_letter_fields redis self msg_id fields reason r).1 self.stream self.group j
        ≡ pending r self.stream self.group j
  dead_letter_fields-pending j msg_id fields reason r ne =
      let added = insert "reason" reason fields in
      let kept = laws.xadd_pending self.dlq_stream added r self.stream self.group j in
      elim (run-cases (redis.xadd self.dlq_stream added none) r) [
        | inl (i, u, q) ↦
            rw
              (
                dead_letter_fields_added msg_id fields reason r u i q,
                laws.xack_others self.stream self.group msg_id j u ne,
              )
              (subst
                (λ x. pending x.1 self.stream self.group j ≡ pending r self.stream self.group j) q
                kept)
        | inr (e, u, q) ↦ rw (dead_letter_fields_raised msg_id fields reason r u e q) (
            subst (λ x. pending x.1 self.stream self.group j ≡ pending r self.stream self.group j) q
              kept)
      ]

  -- A pending entry that is dead-lettered is afterwards still pending or in the dead-letter stream
  -- with a reason, however the call ends, if Redis behaves as documented.
  pub dead_letter_fields-IsKept :
      (msg_id : String) (fields : Fields) (reason : String) (r : R)
      → IsPending r msg_id
      → IsKept (dead_letter_fields redis self msg_id fields reason r).1 msg_id fields
  dead_letter_fields-IsKept msg_id fields reason r h =
      let added = insert "reason" reason fields in
      let kept = laws.xadd_pending self.dlq_stream added r self.stream self.group msg_id in
      elim (run-cases (redis.xadd self.dlq_stream added none) r) [
        | inl (i, u, q) ↦
            let grown = laws.xadd_ok self.dlq_stream added r i (ap (λ x. x.0) q) in
            inr (
              reason,
              rw
                  (
                    dead_letter_fields_added msg_id fields reason r u i q,
                    laws.xack_entries self.stream self.group msg_id u self.dlq_stream,
                  )
                  (subst (λ x. Has added (entries x.1 self.dlq_stream)) q
                    (rw grown (Has-last added (entries r self.dlq_stream)))),
            )
        | inr (e, u, q) ↦ inl (
            rw (dead_letter_fields_raised msg_id fields reason r u e q)
              (subst (λ x. pending x.1 self.stream self.group msg_id ≡ true) q (kept ∙ h)))
      ]

  -- If dead-lettering returns, the dead-letter stream has an entry with the fields and the reason,
  -- and the entry is no longer pending, if Redis behaves as documented.
  pub dead_letter_fields_returns :
      (msg_id : String) (fields : Fields) (reason : String) (r : R)
      → (dead_letter_fields redis self msg_id fields reason r).0 ≡ ok tt
      → let v = (dead_letter_fields redis self msg_id fields reason r).1 in
        Has (insert "reason" reason fields) (entries v self.dlq_stream)
        × (pending v self.stream self.group msg_id ≡ false)
  dead_letter_fields_returns msg_id fields reason r h =
      let added = insert "reason" reason fields in
      elim (run-cases (redis.xadd self.dlq_stream added none) r) [
        | inl (i, u, q) ↦
            let step = dead_letter_fields_added msg_id fields reason r u i q in
            let grown = laws.xadd_ok self.dlq_stream added r i (ap (λ x. x.0) q) in
            (
              rw (step, laws.xack_entries self.stream self.group msg_id u self.dlq_stream)
                  (subst (λ x. Has added (entries x.1 self.dlq_stream)) q
                    (rw grown (Has-last added (entries r self.dlq_stream)))),
              rw step
                  (laws.xack_ok self.stream self.group msg_id u (subst (λ x. x.0 ≡ ok tt) step h)),
            )
        | inr (e, u, q) ↦
            let step = dead_letter_fields_raised msg_id fields reason r u e q in
            absurd (cc (ap (λ x. x.0) step, h))
      ]

  -- What dead-lettering one delivery keeps of another one, or of itself.
  pub dead_letter_fields_keeps :
      (j : String) (g : Fields) (msg_id : String) (fields : Fields) (reason : String) (r : R)
      → (j ≡ msg_id → g ≡ fields)
      → IsKept r j g
      → IsKept (dead_letter_fields redis self msg_id fields reason r).1 j g
  dead_letter_fields_keeps j g msg_id fields reason r same (inr (why, h)) =
      inr (why, dead_letter_fields-Has (insert "reason" why g) msg_id fields reason r h)
  dead_letter_fields_keeps j g msg_id fields reason r same (inl h) =
      elim (Bool-cases (str_eq j msg_id)) [
        | inl e ↦
            let e' = (eq_iff j msg_id).0 e in
            rw (e', same e') (dead_letter_fields-IsKept msg_id fields reason r (rw e' at h))
        | inr e ↦ inl (
            dead_letter_fields-pending j msg_id fields reason r (ground (arith, eq_iff j msg_id))
            ∙ h)
      ]
