-- ===== src/Worker/Rounds.antt =====
-- app/worker.py: a round of `consume_loop` and of `reclaim_loop`, on where a delivery is afterwards.
use mathlib.Core.Path.{subst}
use txn_event_processor.Prelude.{[], String, Bool, List, ◌≡◌, ◌⊎◌, inl, inr, arith, ap}
use txn_event_processor.Action.{ok, err, run-cases}
use txn_event_processor.Action.Keeps.{Keeps}
use txn_event_processor.Core.Config.{Settings, IsChecked}
use txn_event_processor.Core.Errors.{Exn}
use txn_event_processor.Db.Models.{ProcessedTransaction}
use txn_event_processor.Db.Session.{IsPostgres}
use txn_event_processor.Queue.Redis.{Entry, IsGiven, IsRedis}
use txn_event_processor.Queue.Consumer.{StreamConsumer, StreamMessage, read}
use txn_event_processor.Queue.Consumer.Reading.{
  xread, read_gives, HandsOut, read-Delivers, read_keeps,
}
use txn_event_processor.Schemas.Envelope.{Fields, parse_fields}
use txn_event_processor.Schemas.Events.{TransactionEvent}
use txn_event_processor.Services.External.{External}
use txn_event_processor.Services.World.{World}
use txn_event_processor.Services.RateClient.{RateClient}
use txn_event_processor.Queue.Consumer.{claim_stale}
use txn_event_processor.Queue.Consumer.Claiming.{Claims, claim_stale-Delivers, claim_stale_keeps}
use txn_event_processor.Services.World.{on_time}
use txn_event_processor.Worker.{reclaim_round, handle_all, consume_round}
use txn_event_processor.Worker.NoLoss.{IsSafe, IsAccounted, handle_all-Keeps}

module _ (x : External) (rates : RateClient) (consumer : StreamConsumer) (settings : Settings)
    (checked : IsChecked settings) (pending : x.R → String → String → String → Bool)
    (entries : x.R → String → List Fields) (redis_laws : IsRedis x.redis pending entries)
    (rows written : x.D → List ProcessedTransaction)
    (stored : ProcessedTransaction → ProcessedTransaction)
    (db_laws : IsPostgres x.session rows written stored) where
  consume_round-state :
      (w : World x)
      → ((ms : List StreamMessage) × (v : x.R) × (read x.redis x.pydantic consumer w.redis
            ≡ (ok ms, v))
          × (consume_round x rates consumer settings w
              ≡ handle_all x rates consumer settings ms (record w { redis = v })))
        ⊎ ((e : Exn) × (v : x.R) × (read x.redis x.pydantic consumer w.redis ≡ (err e, v))
            × ((consume_round x rates consumer settings w).1 ≡ record w { redis = v }))
  unfolding consume_round
  consume_round-state w = elim (run-cases (read x.redis x.pydantic consumer) w.redis) [
    | inl (ms, v, q) ↦ inl (ms, v, q, ground arith)
    | inr (e, v, q) ↦ inr (e, v, q, ground arith)
  ]

  module _ (j : String) (g : Fields) (i : String) (out : HandsOut x.redis x.pydantic consumer j g)
      (carries : (ev : TransactionEvent) → parse_fields x.pydantic g ≡ ok ev → i ≡ ev.id) where
    abbrev IsFine : x.R → x.D → Type 0
    IsFine =
        IsSafe x rates consumer settings checked pending entries redis_laws rows written stored
          db_laws j g i

    read_safe : (r : x.R) (d : x.D) → IsFine r d → IsFine (read x.redis x.pydantic consumer r).1 d
    read_safe r d (idle, inr h) = (idle, inr h)
    read_safe r d (idle, inl k) =
        (idle, inl (read_keeps x.redis x.pydantic consumer j g out pending entries redis_laws r k))

    -- The delivery is accounted for, or the round's read gives it out for the first time.
    abbrev pub IsDue : World x → Type 0
    IsDue w =
        IsFine w.redis w.db
        ⊎ ((written w.db ≡ [])
            × ((reply : List (String × List Entry)) × ((xread x.redis x.pydantic consumer w.redis).0
                  ≡ ok reply)
                × IsGiven j reply))

    read_due : (w : World x) → IsDue w → IsFine (read x.redis x.pydantic consumer w.redis).1 w.db
    read_due w (inl h) = read_safe w.redis w.db h
    read_due w (inr (idle, (reply, q, given))) = (
      idle,
      inl (
          read_gives x.redis x.pydantic consumer j g out pending entries redis_laws w.redis reply q
            given),
    )

    -- A round of the consuming loop loses no delivery, a new one included: if no transaction is
    -- open, and the delivery `j`, with fields `g`, is either accounted for (pending, dead-lettered
    -- with a reason, or stored as a row with the id `i`) or given out by this round's XREADGROUP,
    -- then it is accounted for and no transaction is open after `consume_round`, however it ends
    -- (an exception and a cancellation included). This is provided the server never hands out an
    -- entry `j` with other fields, an event that `g` parses to has the id `i`, the settings passed
    -- validation, and Redis and Postgres behave as documented.
    pub consume_round-IsAccounted :
        (w : World x)
        → IsDue w
        → IsFine
            (consume_round x rates consumer settings w).1.redis
            (consume_round x rates consumer settings w).1.db
    consume_round-IsAccounted w h =
        let k = read_due w h in
        elim (consume_round-state w) [
          | inr (e, v, q, s) ↦ rw s (subst (λ r. IsFine r w.db) (ap (λ z. z.1) q) k)
          | inl (ms, v, q, s) ↦ rw s (
              (handle_all-Keeps x rates consumer settings checked pending entries redis_laws rows
                  written stored db_laws j g i ms
                  (read-Delivers x.redis x.pydantic consumer j g out i carries w.redis v ms q)).at
                (record w { redis = v }) (subst (λ r. IsFine r w.db) (ap (λ z. z.1) q) k))
        ]

  reclaim_round-state :
      (w : World x)
      → let u = on_time x (x.sleep settings.reclaim_interval_s) w in
        let c = claim_stale x.redis x.pydantic consumer settings.min_idle_ms w.redis in
        ((e : Exn) × ((reclaim_round x rates consumer settings w).1 ≡ u.1))
        ⊎ ((ms : List StreamMessage) × (v : x.R) × (c ≡ (ok ms, v))
            × (reclaim_round x rates consumer settings w
                ≡ handle_all x rates consumer settings ms (record (u.1) { redis = v })))
        ⊎ ((e : Exn) × (v : x.R) × (c ≡ (err e, v))
            × ((reclaim_round x rates consumer settings w).1 ≡ record (u.1) { redis = v }))
  unfolding reclaim_round
  reclaim_round-state w = elim (run-cases (on_time x (x.sleep settings.reclaim_interval_s)) w) [
    | inr (e, u, q) ↦ inl (e, ground arith)
    | inl (_, u, q) ↦
        elim (run-cases (claim_stale x.redis x.pydantic consumer settings.min_idle_ms) w.redis) [
          | inl (ms, v, z) ↦ inr (inl (ms, v, z, ground arith))
          | inr (e, v, z) ↦ inr (inr (e, v, z, ground arith))
        ]
  ]

  module _ (j : String) (g : Fields) (i : String)
      (out : Claims x.redis x.pydantic consumer settings.min_idle_ms j g)
      (carries : (ev : TransactionEvent) → parse_fields x.pydantic g ≡ ok ev → i ≡ ev.id) where
    abbrev IsHeld : x.R → x.D → Type 0
    IsHeld =
        IsSafe x rates consumer settings checked pending entries redis_laws rows written stored
          db_laws j g i

    claim_safe :
        (r : x.R) (d : x.D)
        → IsHeld r d
        → IsHeld (claim_stale x.redis x.pydantic consumer settings.min_idle_ms r).1 d
    claim_safe r d (idle, inr h) = (idle, inr h)
    claim_safe r d (idle, inl k) = (
      idle,
      inl (
          claim_stale_keeps x.redis x.pydantic consumer settings.min_idle_ms j g out pending entries
            redis_laws r k),
    )

    -- A round of the reclaiming loop loses no delivery: if no transaction is open and the delivery
    -- `j`, with fields `g`, is pending, dead-lettered with a reason or stored as a row with the id
    -- `i`, then the same holds after `reclaim_round`, however it ends (an exception and a
    -- cancellation included), provided the server never lets an entry `j` be claimed with other
    -- fields, an event that `g` parses to has the id `i`, the settings passed validation, and Redis
    -- and Postgres behave as documented.
    pub reclaim_round-Keeps :
        Keeps
          (IsAccounted x rates consumer settings checked pending entries redis_laws rows written
            stored db_laws j g i)
          (reclaim_round x rates consumer settings)
    reclaim_round-Keeps = record {
      at = λ w h.
          let u = (on_time x (x.sleep settings.reclaim_interval_s) w).1 in
          let k = claim_safe w.redis w.db h in
          elim (reclaim_round-state w) [
            | inl (e, s) ↦ rw s h
            | inr (inr (e, v, q, s)) ↦ rw s (subst (λ r. IsHeld r w.db) (ap (λ z. z.1) q) k)
            | inr (inl (ms, v, q, s)) ↦ rw s (
                (handle_all-Keeps x rates consumer settings checked pending entries redis_laws rows
                    written stored db_laws j g i ms
                    (claim_stale-Delivers x.redis x.pydantic consumer settings.min_idle_ms j g out i
                      carries w.redis v ms q)).at
                  (record u { redis = v }) (subst (λ r. IsHeld r w.db) (ap (λ z. z.1) q) k))
          ];
    }
