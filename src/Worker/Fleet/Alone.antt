-- ===== src/Worker/Fleet/Alone.antt =====
-- One worker's moves, on where a delivery is afterwards.
use txn_event_processor.Prelude.{
  ◌++◌, String, Bool, true, List, [], ◌∷◌, ◌≡◌, ◌≢◌, ◌⊎◌, inl, inr, none, ◌∙◌, sym, All, str_eq,
  eq_iff, Bool-cases, arith,
}
use mathlib.Core.Path.{subst}
use txn_event_processor.Prelude.Dict.{insert}
use txn_event_processor.Action.{ok}
use txn_event_processor.Core.Config.{Settings}
use txn_event_processor.Db.Models.{ProcessedTransaction, has_id}
use txn_event_processor.Db.Session.{IsPostgres}
use txn_event_processor.Db.Repository.{insert_ignore_duplicate}
use txn_event_processor.Db.Repository.Insert.{insert_ignore_duplicate-Inserts, Inserts}
use txn_event_processor.Queue.Redis.{IsRedis}
use txn_event_processor.Queue.Consumer.{claim_stale, read, StreamConsumer, StreamMessage, ack}
use txn_event_processor.Queue.Consumer.Safety.{Has, Has-last, xadd-Has, IsKept, IsDeadLettered}
use txn_event_processor.Queue.Consumer.Messages.{Delivers}
use txn_event_processor.Queue.Consumer.Reading.{HandsOut, read_keeps, read-Delivers}
use txn_event_processor.Queue.Consumer.Claiming.{Claims, claim_stale_keeps, claim_stale-Delivers}
use txn_event_processor.Schemas.Envelope.{Fields, parse_fields}
use txn_event_processor.Schemas.Events.{TransactionEvent}
use txn_event_processor.Services.External.{External}
use txn_event_processor.Services.Processor.Stores.{Inserts-has_id}
use txn_event_processor.Worker.Fleet.Monotone.{Effect, Effect-idle, Effect-has_id, inserts}
use txn_event_processor.Worker.Fleet.{
  Place, resting, holding, stored, failed, parking, parked, Move, fetch, fetch_raises, claim,
  claim_raises, try_insert, insert_row, give_up, acknowledge, acknowledge_raises, park_permanent,
  park_exhausted, leave, park_unexpected, add, add_raises, remove, remove_raises, finish_round, die,
}

-- The messages that a worker holds carry, under the id `j`, the fields `g` and the event `i`.
abbrev pub InHand : String → Fields → String → Place → Type 0
InHand j g i resting = Unit
InHand j g i (holding ms) = All (Delivers j g i) ms
InHand j g i (stored msg ms) = Delivers j g i msg × All (Delivers j g i) ms
InHand j g i (failed _ msg ms) = Delivers j g i msg × All (Delivers j g i) ms
InHand j g i (parking _ msg ms) = Delivers j g i msg × All (Delivers j g i) ms
InHand j g i (parked msg ms) = Delivers j g i msg × All (Delivers j g i) ms

module _ (x : External) (settings : Settings) (pending : x.R → String → String → String → Bool)
    (entries : x.R → String → List Fields) (redis_laws : IsRedis x.redis pending entries)
    (rows written : x.D → List ProcessedTransaction)
    (stored_as : ProcessedTransaction → ProcessedTransaction)
    (db_laws : IsPostgres x.session rows written stored_as) (m : StreamConsumer) (j : String)
    (g : Fields) (i : String) where
  abbrev pub IsListed : x.R → Type 0
  IsListed r = IsDeadLettered x.redis m pending entries redis_laws r g

  -- Nothing of the delivery is open: it is pending, dead-lettered or stored, and no transaction is
  -- open.
  abbrev pub IsSafeIn : x.R → x.D → Type 0
  IsSafeIn r d =
      (written d ≡ [])
      × (IsKept x.redis m pending entries redis_laws r j g ⊎ (has_id i (rows d) ≡ true))

  -- What a worker that is about to acknowledge the delivery relies on.
  abbrev pub IsSettled : Place → x.R → x.D → Type 0
  IsSettled (stored msg _) r d = j ≡ msg.msg_id → has_id i (rows d) ≡ true
  IsSettled (parked msg _) r d = j ≡ msg.msg_id → IsListed r
  IsSettled _ r d = Unit

  xack_safe :
      (n : String) (r : x.R) (d : x.D)
      → (j ≡ n → IsListed r ⊎ (has_id i (rows d) ≡ true))
      → IsSafeIn r d
      → IsSafeIn (x.redis.xack m.stream m.group n r).1 d
  xack_safe n r d settled (idle, inr h) = (idle, inr h)
  xack_safe n r d settled (idle, inl (inr (reason, h))) =
      (idle, inl (inr (reason, rw (redis_laws.xack_entries m.stream m.group n r m.dlq_stream) h)))
  xack_safe n r d settled (idle, inl (inl h)) = elim (Bool-cases (str_eq j n)) [
    | inr e ↦
        let ne : j ≢ n = ground (arith, eq_iff j n) in
        (idle, inl (inl (redis_laws.xack_others m.stream m.group n j r ne ∙ h)))
    | inl e ↦ elim (settled ((eq_iff j n).0 e)) [
      | inr k ↦ (idle, inr k)
      | inl (reason, k) ↦ (
        idle,
        inl (inr (reason, rw (redis_laws.xack_entries m.stream m.group n r m.dlq_stream) k)),
      )
    ]
  ]

  xadd_safe :
      (f : Fields) (r : x.R) (d : x.D)
      → IsSafeIn r d
      → IsSafeIn (x.redis.xadd m.dlq_stream f none r).1 d
  xadd_safe f r d (idle, inr h) = (idle, inr h)
  xadd_safe f r d (idle, inl (inl h)) =
      (idle, inl (inl (redis_laws.xadd_pending m.dlq_stream f r m.stream m.group j ∙ h)))
  xadd_safe f r d (idle, inl (inr (reason, h))) = (
    idle,
    inl (
        inr
          (reason, xadd-Has x.redis m pending entries redis_laws (insert "reason" reason g) f r h)),
  )

  insert_safe :
      (row : ProcessedTransaction) (r : x.R) (d : x.D)
      → IsSafeIn r d
      → IsSafeIn r (insert_ignore_duplicate x.session row d).1
  insert_safe row r d (idle, h) =
      let e : Effect x settings m r d r (insert_ignore_duplicate x.session row d).1 = inserts row in
      let idle' = Effect-idle x settings rows written stored_as db_laws e idle in
      elim h [
        | inl k ↦ (idle', inl k)
        | inr k ↦ (idle', inr (Effect-has_id x settings rows written stored_as db_laws i e idle k))
      ]

  module _ (out : HandsOut x.redis x.pydantic m j g)
      (claims : Claims x.redis x.pydantic m settings.min_idle_ms j g)
      (carries : (ev : TransactionEvent) → parse_fields x.pydantic g ≡ ok ev → i ≡ ev.id) where
    pub Move-InHand :
        {r s : x.R} {d e : x.D} {p q : Place}
        → Move x settings m r d p s e q
        → InHand j g i p
        → InHand j g i q
    Move-InHand {r} (fetch ms h) k =
        read-Delivers x.redis x.pydantic m j g out i carries r _ ms
          (λ n. (h n, (read x.redis x.pydantic m r).1))
    Move-InHand (fetch_raises e h) k = tt
    Move-InHand {r} (claim ms h) k =
        claim_stale-Delivers x.redis x.pydantic m settings.min_idle_ms j g claims i carries r _ ms
          (λ n. (h n, (claim_stale x.redis x.pydantic m settings.min_idle_ms r).1))
    Move-InHand (claim_raises e h) k = tt
    Move-InHand (try_insert e row msg ms a h) k = k
    Move-InHand (insert_row b row msg ms a h) k = k
    Move-InHand (give_up e msg ms) k = k
    Move-InHand (acknowledge msg ms h) k = k.1
    Move-InHand (acknowledge_raises e msg ms h) k = k
    Move-InHand (park_permanent e msg ms h) k = k
    Move-InHand (park_exhausted e msg ms h l) k = k
    Move-InHand (leave e msg ms h l) k = k.1
    Move-InHand (park_unexpected e msg ms h a l) k = k
    Move-InHand (add n reason msg ms h) k = k
    Move-InHand (add_raises e reason msg ms h) k = tt
    Move-InHand (remove msg ms h) k = k.1
    Move-InHand (remove_raises e msg ms h) k = tt
    Move-InHand finish_round k = tt
    Move-InHand (die p) k = tt

    pub Move-IsSafe :
        {r s : x.R} {d e : x.D} {p q : Place}
        → Move x settings m r d p s e q
        → IsSettled p r d
        → IsSafeIn r d
        → IsSafeIn s e
    unfolding ack
    Move-IsSafe {r} (fetch ms h) w (idle, inl k) =
        (idle, inl (read_keeps x.redis x.pydantic m j g out pending entries redis_laws r k))
    Move-IsSafe (fetch ms h) w (idle, inr k) = (idle, inr k)
    Move-IsSafe {r} (fetch_raises e h) w (idle, inl k) =
        (idle, inl (read_keeps x.redis x.pydantic m j g out pending entries redis_laws r k))
    Move-IsSafe (fetch_raises e h) w (idle, inr k) = (idle, inr k)
    Move-IsSafe {r} (claim ms h) w (idle, inl k) = (
      idle,
      inl (
          claim_stale_keeps x.redis x.pydantic m settings.min_idle_ms j g claims pending entries
            redis_laws r k),
    )
    Move-IsSafe (claim ms h) w (idle, inr k) = (idle, inr k)
    Move-IsSafe {r} (claim_raises e h) w (idle, inl k) = (
      idle,
      inl (
          claim_stale_keeps x.redis x.pydantic m settings.min_idle_ms j g claims pending entries
            redis_laws r k),
    )
    Move-IsSafe (claim_raises e h) w (idle, inr k) = (idle, inr k)
    Move-IsSafe {r} {d} (try_insert e row msg ms a h) w k = insert_safe row r d k
    Move-IsSafe {r} {d} (insert_row b row msg ms a h) w k = insert_safe row r d k
    Move-IsSafe (give_up e msg ms) w k = k
    Move-IsSafe {r} {d} (acknowledge msg ms h) w k = xack_safe msg.msg_id r d (λ own. inr (w own)) k
    Move-IsSafe {r} {d} (acknowledge_raises e msg ms h) w k =
        xack_safe msg.msg_id r d (λ own. inr (w own)) k
    Move-IsSafe (park_permanent e msg ms h) w k = k
    Move-IsSafe (park_exhausted e msg ms h l) w k = k
    Move-IsSafe (leave e msg ms h l) w k = k
    Move-IsSafe (park_unexpected e msg ms h a l) w k = k
    Move-IsSafe {r} {d} (add n reason msg ms h) w k =
        xadd_safe (insert "reason" reason msg.raw_fields) r d k
    Move-IsSafe {r} {d} (add_raises e reason msg ms h) w k =
        xadd_safe (insert "reason" reason msg.raw_fields) r d k
    Move-IsSafe {r} {d} (remove msg ms h) w k = xack_safe msg.msg_id r d (λ own. inl (w own)) k
    Move-IsSafe {r} {d} (remove_raises e msg ms h) w k =
        xack_safe msg.msg_id r d (λ own. inl (w own)) k
    Move-IsSafe finish_round w k = k
    Move-IsSafe (die p) w k = k

    inserted :
        (b : Bool) (row : ProcessedTransaction) (msg : StreamMessage) (d : x.D)
        → row.id ≡ msg.event.id
        → (insert_ignore_duplicate x.session row d).0 ≡ ok b
        → written d ≡ []
        → has_id msg.event.id (rows (insert_ignore_duplicate x.session row d).1) ≡ true
    inserted b row msg d a h idle =
        let ins =
          (insert_ignore_duplicate-Inserts x.session rows written stored_as db_laws row d idle).0 in
        let after = rows (insert_ignore_duplicate x.session row d).1 in
        subst (λ n. has_id n after ≡ true) a
          (Inserts-has_id row (stored_as row) (rows d) after b (db_laws.stored_id row)
            (subst (λ z. Inserts row (stored_as row) (rows d) z after) h ins))

    added :
        (n reason : String) (msg : StreamMessage) (r : x.R)
        → (x.redis.xadd m.dlq_stream (insert "reason" reason msg.raw_fields) none r).0 ≡ ok n
        → g ≡ msg.raw_fields
        → IsListed (x.redis.xadd m.dlq_stream (insert "reason" reason msg.raw_fields) none r).1
    added n reason msg r h same =
        let f = insert "reason" reason msg.raw_fields in
        (
          reason,
          rw (redis_laws.xadd_ok m.dlq_stream f r n h) (
              subst (λ z. Has (insert "reason" reason z) (entries r m.dlq_stream ++ f ∷ []))
                (sym same) (Has-last f (entries r m.dlq_stream))),
        )

    pub Move-IsSettled :
        {r s : x.R} {d e : x.D} {p q : Place}
        → Move x settings m r d p s e q
        → InHand j g i p
        → IsSafeIn r d
        → IsSettled q s e
    Move-IsSettled (fetch ms h) k w = tt
    Move-IsSettled (fetch_raises e h) k w = tt
    Move-IsSettled (claim ms h) k w = tt
    Move-IsSettled (claim_raises e h) k w = tt
    Move-IsSettled (try_insert e row msg ms a h) k w = tt
    Move-IsSettled {d} (insert_row b row msg ms a h) k w =
        λ own. rw ((k.0 own).1) (inserted b row msg d a h w.0)
    Move-IsSettled (give_up e msg ms) k w = tt
    Move-IsSettled (acknowledge msg ms h) k w = tt
    Move-IsSettled (acknowledge_raises e msg ms h) k w = tt
    Move-IsSettled (park_permanent e msg ms h) k w = tt
    Move-IsSettled (park_exhausted e msg ms h l) k w = tt
    Move-IsSettled (leave e msg ms h l) k w = tt
    Move-IsSettled (park_unexpected e msg ms h a l) k w = tt
    Move-IsSettled {r} (add n reason msg ms h) k w = λ own. added n reason msg r h (k.0 own).0
    Move-IsSettled (add_raises e reason msg ms h) k w = tt
    Move-IsSettled (remove msg ms h) k w = tt
    Move-IsSettled (remove_raises e msg ms h) k w = tt
    Move-IsSettled finish_round k w = tt
    Move-IsSettled (die p) k w = tt
