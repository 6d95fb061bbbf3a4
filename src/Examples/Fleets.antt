-- ===== src/Examples/Fleets.antt =====
-- Two workers at one delivery: the first reads it and dies, the second claims it.
use txn_event_processor.Schemas.Datetime.{assume_utc}
use txn_event_processor.Schemas.Events.{validate_event}
use txn_event_processor.Schemas.IntText.{scan, int_of_text}
use txn_event_processor.Prelude.Dict.{insert, lookup}
use txn_event_processor.Schemas.Envelope.{parse_fields}
use txn_event_processor.Prelude.{
  zero, suc, ℕ, String, [], ◌∷◌, ◌≡◌, ◌≢◌, refl, none, inl, arith, eq_iff,
}
use txn_event_processor.Action.{ok}
use txn_event_processor.Action.Triple.{After}
use txn_event_processor.Queue.Producer.{EventProducer}
use txn_event_processor.Queue.Consumer.{
  delivery_count_of, parse_entry, StreamConsumer, read, claim_stale,
}
use txn_event_processor.Worker.{handle}
use txn_event_processor.Worker.Fleet.{
  Fleet, resting, holding, Move, Moves, Reach, work, here, next, put,
}
use txn_event_processor.Worker.Fleet.Safety.{IsFine, Reach-IsFine, IsRoomy, no_maxlen-IsRoomy}
use txn_event_processor.Worker.Fleet.Simulation.{handle-Moves}
use txn_event_processor.Fakes.Queue.{
  server, server_pending, server_entries, server-IsRedis, first_fields,
}
use txn_event_processor.Fakes.Database.{database-IsPostgres}
use txn_event_processor.Fakes.Contract.{hands_out, can_claim, carries_payment}
use txn_event_processor.Fakes.Json.{library, load}
use txn_event_processor.Fakes.Site.{
  site, settings, settings-IsChecked, rate_client, consumer, delivery, start,
}

abbrev producer : EventProducer
producer = record { stream = "events"; maxlen = none }

abbrev names : ℕ → String
names zero = "worker-1"
names (suc k) = "worker-2"

abbrev worker : ℕ → StreamConsumer
worker k = record consumer { consumer = names k }

abbrev Two : Type 0
Two = Fleet (site 200) settings

abbrev opening : Two
opening = record { redis = (start 200).redis; db = (start 200).db; place = λ k. resting }

abbrev taken : Two
taken = record opening {
  redis = (read server library (worker 0) opening.redis).1;
  place = put (site 200) settings 0 (holding (delivery 1 ∷ [])) opening.place;
}

abbrev dead : Two
dead = record taken { place = put (site 200) settings 0 resting taken.place }

abbrev claimed : Two
claimed = record dead {
  redis = (claim_stale server library (worker 1) 60000 dead.redis).1;
  place = put (site 200) settings 1 (holding (delivery 2 ∷ [])) dead.place;
}

first_read : (read server library (worker 0) opening.redis).0 ≡ ok (delivery 1 ∷ [])
unfolding read parse_entry parse_fields lookup int_of_text scan load insert validate_event
    assume_utc
first_read = refl

second_claim : (claim_stale server library (worker 1) 60000 dead.redis).0 ≡ ok (delivery 2 ∷ [])
unfolding claim_stale read parse_entry parse_fields lookup int_of_text scan load insert
    delivery_count_of validate_event assume_utc
second_claim = refl

turns : Reach (site 200) settings producer consumer names opening claimed
turns =
    next
      (next (next here (work 0 (Move.fetch (delivery 1 ∷ []) first_read)))
        (work 0 (Move.die (holding (delivery 1 ∷ [])))))
      (work 1 (Move.claim (delivery 2 ∷ []) second_claim))

apart : consumer.dlq_stream ≢ producer.stream
apart = ground (arith, eq_iff "events:dlq" "events")

roomy :
    IsRoomy
      (site 200)
      settings
      producer
      consumer
      names
      (λ d. d.committed)
      (λ d. d.open_rows)
      (λ r. r)
      database-IsPostgres
      server_pending
      server_entries
      server-IsRedis
      "1-1"
      first_fields
      "e-1"
roomy =
    no_maxlen-IsRoomy (site 200) settings producer consumer names (λ d. d.committed)
      (λ d. d.open_rows) (λ r. r) database-IsPostgres server_pending server_entries server-IsRedis
      "1-1" first_fields "e-1" refl

Reach-IsFine_example :
    IsFine
      (site 200)
      settings
      producer
      consumer
      names
      (λ d. d.committed)
      (λ d. d.open_rows)
      (λ r. r)
      database-IsPostgres
      server_pending
      server_entries
      server-IsRedis
      "1-1"
      first_fields
      "e-1"
      claimed
Reach-IsFine_example =
    Reach-IsFine (site 200) settings producer consumer names (λ d. d.committed) (λ d. d.open_rows)
      (λ r. r) database-IsPostgres server_pending server_entries server-IsRedis "1-1" first_fields
      "e-1" apart (λ k. hands_out) (λ k. can_claim) carries_payment roomy turns
      (record { safe = (refl, inl (inl refl)); in_hand = λ n. tt; settled = λ n. tt })

handle-Moves_example :
    After
      (λ u v.
        Moves
          (site 200)
          settings
          consumer
          (start 200).redis
          (start 200).db
          (holding (delivery 1 ∷ []))
          v.redis
          v.db
          (holding []))
      (λ e v.
        Moves
          (site 200)
          settings
          consumer
          (start 200).redis
          (start 200).db
          (holding (delivery 1 ∷ []))
          v.redis
          v.db
          resting)
      (handle (site 200) rate_client consumer settings (delivery 1) (start 200)).0
      (handle (site 200) rate_client consumer settings (delivery 1) (start 200)).1
handle-Moves_example =
    handle-Moves (site 200) rate_client settings settings-IsChecked consumer (delivery 1) []
      (start 200)
