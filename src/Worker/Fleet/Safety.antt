-- ===== src/Worker/Fleet/Safety.antt =====
-- All workers and the API together, on where a delivery is in every later state.
use txn_event_processor.Prelude.{
  true, none, ℕ, String, Bool, List, [], ◌≡◌, refl, ◌≢◌, inl, inr, ◌∙◌, ◌==◌, Bool-cases,
}
use txn_event_processor.Prelude.Dict.{insert}
use txn_event_processor.Action.{Result-cases, ok}
use txn_event_processor.Core.Config.{Settings}
use txn_event_processor.Db.Models.{ProcessedTransaction}
use txn_event_processor.Db.Session.{IsPostgres}
use txn_event_processor.Queue.Redis.{IsRedis}
use txn_event_processor.Queue.Producer.{EventProducer, publish}
use txn_event_processor.Queue.Consumer.{StreamConsumer}
use txn_event_processor.Queue.Consumer.Reading.{HandsOut}
use txn_event_processor.Queue.Consumer.Claiming.{Claims}
use txn_event_processor.Schemas.Envelope.{Fields, parse_fields, to_fields, new_envelope}
use txn_event_processor.Schemas.Events.{TransactionEvent}
use txn_event_processor.Services.External.{External}
use txn_event_processor.Worker.Fleet.Monotone.{Effect, Effect-has_id, Effect-Has, Move-Effect}
use txn_event_processor.Worker.Fleet.Alone.{
  InHand, IsSafeIn, IsSettled, Move-InHand, Move-IsSafe, Move-IsSettled,
}
use txn_event_processor.Worker.Fleet.{
  Place, resting, holding, stored, failed, parking, parked, Fleet, member, put, Step, accept, work,
  Reach, here, next,
}

module _ (x : External) (settings : Settings) (producer : EventProducer) (consumer : StreamConsumer)
    (names : ℕ → String) (rows written : x.D → List ProcessedTransaction)
    (stored_as : ProcessedTransaction → ProcessedTransaction)
    (db_laws : IsPostgres x.session rows written stored_as) where
  module _ (pending : x.R → String → String → String → Bool) (entries : x.R → String → List Fields)
      (redis_laws : IsRedis x.redis pending entries) (j : String) (g : Fields) (i : String) where
    -- The delivery `j`, with fields `g` that carry the event `i`, is pending, dead-lettered or stored;
    -- what the workers hold of it carries the same; and a worker that is about to acknowledge it has
    -- stored or dead-lettered it.
    pub record IsFine (s : Fleet x settings) : Type 0 where
      pub safe :
          IsSafeIn x settings pending entries redis_laws rows written stored_as db_laws consumer j g
            i s.redis s.db
      pub in_hand : (n : ℕ) → InHand j g i (s.place n)
      pub settled :
          (n : ℕ)
          → IsSettled x settings pending entries redis_laws rows written stored_as db_laws consumer
              j g i
              (s.place n)
              s.redis
              s.db

    -- The API's MAXLEN never drops the delivery while it is pending.
    abbrev pub IsRoomy : Type 0
    IsRoomy =
        (event : TransactionEvent) (r : x.R)
        → pending r consumer.stream consumer.group j ≡ true
        → pending (publish x.redis x.pydantic producer event r).1 consumer.stream consumer.group j
          ≡ true

    -- Without a MAXLEN it is so.
    pub no_maxlen-IsRoomy : producer.maxlen ≡ none → IsRoomy
    unfolding publish
    no_maxlen-IsRoomy e event r h =
        elim (Result-cases (to_fields (new_envelope (x.pydantic.dump_json event)))) [
          | inl (fields, q) ↦
              rw (q, e)
                (redis_laws.xadd_pending producer.stream fields r consumer.stream consumer.group j
                  ∙ h)
          | inr (_, q) ↦ rw q h
        ]

    Effect-IsSettled :
        (p : Place) (k : ℕ) {r t : x.R} {d e : x.D}
        → Effect x settings (member x settings producer consumer names k) r d t e
        → written d ≡ []
        → IsSettled x settings pending entries redis_laws rows written stored_as db_laws consumer j
            g i p r d
        → IsSettled x settings pending entries redis_laws rows written stored_as db_laws consumer j
            g i p t e
    Effect-IsSettled resting k f idle h = tt
    Effect-IsSettled (holding _) k f idle h = tt
    Effect-IsSettled (failed _ _ _) k f idle h = tt
    Effect-IsSettled (parking _ _ _) k f idle h = tt
    Effect-IsSettled (stored msg _) k f idle h =
        λ own. Effect-has_id x settings rows written stored_as db_laws i f idle (h own)
    Effect-IsSettled (parked msg _) k f idle h = λ own.
        let (reason, l) = h own in
        (reason, Effect-Has x settings pending entries redis_laws (insert "reason" reason g) f l)

    module _ (apart : consumer.dlq_stream ≢ producer.stream)
        (out : (k : ℕ)
          → HandsOut x.redis x.pydantic (member x settings producer consumer names k) j g)
        (claims : (k : ℕ)
          → Claims x.redis x.pydantic
              (member x settings producer consumer names k)
              settings.min_idle_ms
              j
              g)
        (carries : (ev : TransactionEvent) → parse_fields x.pydantic g ≡ ok ev → i ≡ ev.id)
        (roomy : IsRoomy) where
      published :
          (event : TransactionEvent) (r : x.R)
          → entries (publish x.redis x.pydantic producer event r).1 consumer.dlq_stream
            ≡ entries r consumer.dlq_stream
      unfolding publish
      published event r =
          elim (Result-cases (to_fields (new_envelope (x.pydantic.dump_json event)))) [
            | inl (fields, q) ↦ rw q (
                redis_laws.xadd_others producer.stream fields producer.maxlen r consumer.dlq_stream
                  apart)
            | inr (_, q) ↦ rw q refl
          ]

      accept-IsSafeIn :
          (event : TransactionEvent) (r : x.R) (d : x.D)
          → IsSafeIn x settings pending entries redis_laws rows written stored_as db_laws consumer j
              g i r d
          → IsSafeIn x settings pending entries redis_laws rows written stored_as db_laws consumer j
              g i
              (publish x.redis x.pydantic producer event r).1
              d
      unfolding publish
      accept-IsSafeIn event r d (idle, inr h) = (idle, inr h)
      accept-IsSafeIn event r d (idle, inl (inr (reason, h))) =
          (idle, inl (inr (reason, rw (published event r) h)))
      accept-IsSafeIn event r d (idle, inl (inl h)) = (idle, inl (inl (roomy event r h)))

      accept-IsSettled :
          (event : TransactionEvent) (p : Place) (r : x.R) (d : x.D)
          → IsSettled x settings pending entries redis_laws rows written stored_as db_laws consumer
              j g i p r d
          → IsSettled x settings pending entries redis_laws rows written stored_as db_laws consumer
              j g i p
              (publish x.redis x.pydantic producer event r).1
              d
      accept-IsSettled event resting r d h = tt
      accept-IsSettled event (holding _) r d h = tt
      accept-IsSettled event (failed _ _ _) r d h = tt
      accept-IsSettled event (parking _ _ _) r d h = tt
      accept-IsSettled event (stored _ _) r d h = h
      accept-IsSettled event (parked _ _) r d h =
          λ own. let (reason, l) = h own in (reason, rw (published event r) l)

      work-InHand :
          (k n : ℕ) (p : Place) (places : ℕ → Place)
          → InHand j g i p
          → ((l : ℕ) → InHand j g i (places l))
          → InHand j g i (put x settings k p places n)
      work-InHand k n p places h all = elim (Bool-cases (k == n)) [
        | inl e ↦ rw e h
        | inr e ↦ rw e (all n)
      ]

      work-IsSettled :
          (k n : ℕ) (p : Place) (places : ℕ → Place) (r : x.R) (d : x.D)
          → IsSettled x settings pending entries redis_laws rows written stored_as db_laws consumer
              j g i p r d
          → ((l : ℕ)
              → IsSettled x settings pending entries redis_laws rows written stored_as db_laws
                  consumer j g i
                  (places l)
                  r
                  d)
          → IsSettled x settings pending entries redis_laws rows written stored_as db_laws consumer
              j g i
              (put x settings k p places n)
              r
              d
      work-IsSettled k n p places r d h all = elim (Bool-cases (k == n)) [
        | inl e ↦ rw e h
        | inr e ↦ rw e (all n)
      ]

      Step-IsFine :
          {s t : Fleet x settings}
          → Step x settings producer consumer names s t
          → IsFine s
          → IsFine t
      Step-IsFine {s} (accept event) f = record {
        safe = accept-IsSafeIn event s.redis s.db f.safe;
        in_hand = f.in_hand;
        settled = λ n. accept-IsSettled event (s.place n) s.redis s.db (f.settled n);
      }
      Step-IsFine {s} (work k {r} {d} {p} mv) f =
          let m = member x settings producer consumer names k in
          let e = Move-Effect x settings mv in
          record {
            safe =
                Move-IsSafe x settings pending entries redis_laws rows written stored_as db_laws m j
                  g i (out k) (claims k) carries mv (f.settled k) f.safe;
            in_hand = λ n.
                work-InHand k n p s.place
                  (Move-InHand x settings pending entries redis_laws rows written stored_as db_laws
                    m j g i (out k) (claims k) carries mv (f.in_hand k))
                  f.in_hand;
            settled = λ n.
                work-IsSettled k n p s.place r d
                  (Move-IsSettled x settings pending entries redis_laws rows written stored_as
                    db_laws m j g i (out k) (claims k) carries mv (f.in_hand k) f.safe)
                  λ l. Effect-IsSettled (s.place l) k e f.safe.0 (f.settled l);
          }

      -- Any number of workers of one consumer group and the API, interleaved in any order of their
      -- steps (a read or a claim with the parsing of its batch, an insert with its commit, a call
      -- to Redis) and dying at any point, lose no delivery: in every state that they reach from a
      -- state where it is so, no transaction is open and the delivery `j`, with fields `g`, is
      -- pending, dead-lettered with a reason or stored as a row with the id `i`; what every worker
      -- holds of `j` carries the same, and a worker that is about to acknowledge `j` has stored or
      -- dead-lettered it. This is provided the dead-letter stream is not the stream that the API
      -- writes to, the server never hands out an entry `j` with other fields or lets it be claimed
      -- with other fields, an event that `g` parses to has the id `i`, the API's MAXLEN never drops
      -- `j` while it is pending (without a MAXLEN it never does), and Redis and Postgres behave as
      -- documented.
      pub Reach-IsFine :
          {s t : Fleet x settings}
          → Reach x settings producer consumer names s t
          → IsFine s
          → IsFine t
      Reach-IsFine here f = f
      Reach-IsFine (next r st) f = Step-IsFine st (Reach-IsFine r f)
