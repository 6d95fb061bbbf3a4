-- ===== src/Worker/Fleet/Simulation.antt =====
-- `handle` of app/worker.py, run without interruption, as moves of one worker.
pub mod Processing
use txn_event_processor.Prelude.{
  ℕ, String, Bool, true, false, List, [], ◌∷◌, ◌≡◌, ◌≤◌, ◌<◌, refl, none, some, leb, leb→le, arith,
  ap, if◌then◌else◌,
}
use Prim.Native.String.{◌++◌ as str_append}
use txn_event_processor.Prelude.Dict.{insert}
use txn_event_processor.Action.{Action, Result, ok, err, ◌>>=◌, ◌>>◌, pure, finally}
use txn_event_processor.Action.Keeps.{Keeps, >>=-Keeps}
use txn_event_processor.Action.Triple.{
  After, Triple, Keeps-Triple, weaken-Triple, if-Triple, >>=-Triple, try_except-Triple,
}
use txn_event_processor.Core.Config.{Settings, IsChecked}
use txn_event_processor.Core.Errors.{Exn, is_permanent, is_transient, is_exception, str_exn}
use txn_event_processor.Core.Metrics.{Metrics}
use txn_event_processor.Core.Retry.{pause, compute_delay, call_on_retry}
use txn_event_processor.Core.Retry.Outcome.{retry_async-Triple}
use txn_event_processor.Db.Models.{ProcessedTransaction}
use txn_event_processor.Db.Repository.{insert_ignore_duplicate}
use txn_event_processor.Queue.Consumer.{
  StreamConsumer, StreamMessage, ack, dead_letter, dead_letter_fields,
}
use txn_event_processor.Money.{Decimal}
use txn_event_processor.Schemas.Events.{TransactionEvent}
use txn_event_processor.Services.External.{External}
use txn_event_processor.Services.World.{World, on_db, on_redis, count, timer}
use txn_event_processor.Services.RateClient.{RateClient}
use txn_event_processor.Services.Processor.{
  inc_processing, db_insert, Operation, process, look_up_rate, make_row, insert_row, on_retry,
  Outcome, processed, duplicate,
}
use txn_event_processor.Services.Processor.Frame.{look_up_rate-Keeps, make_row-Keeps}
use txn_event_processor.Worker.{
  attempt, park, on_failure, handle, FailureKind, permanent, transient, exhausted, unexpected,
  inc_failed, inc_processed,
}
use txn_event_processor.Worker.Fleet.{
  Place, resting, holding, stored, failed, parking, parked, Move, Moves, here, next,
}
use txn_event_processor.Worker.Fleet.Simulation.Processing.{process-Triple}

module _ (x : External) (rates : RateClient) (settings : Settings) (checked : IsChecked settings)
    (m : StreamConsumer) (r0 : x.R) (d0 : x.D) (msg : StreamMessage) (ms : List StreamMessage) where
  -- The worker has come from the first message to this place, by its moves.
  abbrev At : Place → World x → Type 0
  At p w = Moves x settings m r0 d0 (holding (msg ∷ ms)) w.redis w.db p

  abbrev Start : World x → Type 0
  Start = At (holding (msg ∷ ms))

  acked :
      (w : World x) (res : Result (Unit {0}))
      → At (stored msg ms) w
      → (ack x.redis m msg.msg_id w.redis).0 ≡ res
      → After
          (λ u. At (holding ms))
          (λ e. At (failed e msg ms))
          res
          (record w { redis = (ack x.redis m msg.msg_id w.redis).1 })
  acked w (ok _) h p = next h (Move.acknowledge msg ms p)
  acked w (err e) h p = next h (Move.acknowledge_raises e msg ms p)

  attempt-Triple :
      Triple Start
        (attempt x rates m settings msg)
        (λ u. At (holding ms))
        (λ e. At (failed e msg ms))
  unfolding attempt
  attempt-Triple =
      >>=-Triple Start (λ o. At (stored msg ms)) (λ u. At (holding ms)) (λ e. At (failed e msg ms))
        (process x rates settings msg.event)
        (λ o. on_redis x (ack x.redis m msg.msg_id) >> count x (inc_processed o))
        (weaken-Triple Start (process x rates settings msg.event) (λ o. At (stored msg ms))
          (λ o. At (stored msg ms)) (λ e. Start) (λ e. At (failed e msg ms))
          (process-Triple x rates settings checked m r0 d0 msg ms) (λ o v h. h)
          (λ e v h. next h (Move.give_up e msg ms)))
        λ o.
          >>=-Triple (At (stored msg ms)) (λ u. At (holding ms)) (λ u. At (holding ms))
            (λ e. At (failed e msg ms)) (on_redis x (ack x.redis m msg.msg_id))
            (λ _. count x (inc_processed o)) (record { at = λ w h. acked w _ h refl })
            λ _. record { at = λ w h. h }

  -- The same for the queue alone, the table being as it is.
  abbrev InQueue : x.D → Place → x.R → Type 0
  InQueue d p r = Moves x settings m r0 d0 (holding (msg ∷ ms)) r d p

  lifted :
      {A : Type 0} (q : Place) (f : Exn → Place) (w : World x) (res : Result A) (r : x.R)
      → After (λ a. InQueue w.db q) (λ e. InQueue w.db (f e)) res r
      → After (λ a. At q) (λ e. At (f e)) res (record w { redis = r })
  lifted q f w (ok a) r h = h
  lifted q f w (err e) r h = h

  on_redis-Triple :
      {A : Type 0} (p q : Place) (f : Exn → Place) (n : Action x.R A)
      → ((d : x.D) → Triple (InQueue d p) n (λ a. InQueue d q) (λ e. InQueue d (f e)))
      → Triple (At p) (on_redis x n) (λ a. At q) (λ e. At (f e))
  on_redis-Triple p q f n t = record { at = λ w h. lifted q f w _ _ ((t w.db).at w.redis h) }

  removed :
      (d : x.D) (r : x.R) (res : Result (Unit {0}))
      → InQueue d (parked msg ms) r
      → (x.redis.xack m.stream m.group msg.msg_id r).0 ≡ res
      → After
          (λ u. InQueue d (holding ms))
          (λ e. InQueue d resting)
          res
          (x.redis.xack m.stream m.group msg.msg_id r).1
  removed d r (ok _) h p = next h (Move.remove msg ms p)
  removed d r (err e) h p = next h (Move.remove_raises e msg ms p)

  added :
      (reason : String) (d : x.D) (r : x.R) (res : Result String)
      → InQueue d (parking reason msg ms) r
      → (x.redis.xadd m.dlq_stream (insert "reason" reason msg.raw_fields) none r).0 ≡ res
      → After
          (λ i. InQueue d (parked msg ms))
          (λ e. InQueue d resting)
          res
          (x.redis.xadd m.dlq_stream (insert "reason" reason msg.raw_fields) none r).1
  added reason d r (ok i) h p = next h (Move.add i reason msg ms p)
  added reason d r (err e) h p = next h (Move.add_raises e reason msg ms p)

  dead_letter-Triple :
      (reason : String) (d : x.D)
      → Triple
          (InQueue d (parking reason msg ms))
          (dead_letter x.redis m msg reason)
          (λ u. InQueue d (holding ms))
          (λ e. InQueue d resting)
  unfolding dead_letter dead_letter_fields
  dead_letter-Triple reason d =
      >>=-Triple (InQueue d (parking reason msg ms)) (λ i. InQueue d (parked msg ms))
        (λ u. InQueue d (holding ms)) (λ e. InQueue d resting)
        (x.redis.xadd m.dlq_stream (insert "reason" reason msg.raw_fields) none)
        (λ _. x.redis.xack m.stream m.group msg.msg_id)
        (record { at = λ r h. added reason d r _ h refl })
        λ _. record { at = λ r h. removed d r _ h refl }

  park-Triple :
      (reason : String) (kind : FailureKind)
      → Triple
          (At (parking reason msg ms))
          (park x rates m settings msg reason kind)
          (λ u. At (holding ms))
          (λ e. At resting)
  unfolding park
  park-Triple reason kind =
      >>=-Triple (At (parking reason msg ms)) (λ u. At (holding ms)) (λ u. At (holding ms))
        (λ e. At resting) (on_redis x (dead_letter x.redis m msg reason))
        (λ _. count x (inc_failed kind))
        (on_redis-Triple (parking reason msg ms) (holding ms) (λ e. resting)
          (dead_letter x.redis m msg reason) (dead_letter-Triple reason))
        λ _. record { at = λ w h. h }

  parks :
      (e : Exn) (reason : String) (kind : FailureKind)
      → ((r : x.R) (d : x.D) → Move x settings m r d (failed e msg ms) r d (parking reason msg ms))
      → Triple
          (At (failed e msg ms))
          (park x rates m settings msg reason kind)
          (λ u. At (holding ms))
          (λ e. At resting)
  parks e reason kind mv = record {
    at = λ w h. (park-Triple reason kind).at w (next h (mv w.redis w.db));
  }

  on_failure-Triple :
      (e : Exn)
      → Triple
          (At (failed e msg ms))
          (on_failure x rates m settings msg e)
          (λ u. At (holding ms))
          (λ e. At resting)
  unfolding on_failure
  on_failure-Triple e =
      let before = At (failed e msg ms) in
      if-Triple before (is_permanent e) _ _ (λ u. At (holding ms)) (λ e. At resting)
        (λ p. parks e (str_exn e) permanent (λ r d. Move.park_permanent e msg ms p))
        λ p.
          if-Triple before (is_transient e) _ _ (λ u. At (holding ms)) (λ e. At resting)
            (λ q.
              if-Triple before (leb settings.max_deliveries msg.delivery_count) _ _
                (λ u. At (holding ms)) (λ e. At resting)
                (λ l.
                  parks e "max deliveries exceeded" exhausted
                    (λ r d. Move.park_exhausted e msg ms q (ground arith)))
                λ l. record { at = λ w h. next h (Move.leave e msg ms q (ground arith)) })
            λ q.
              if-Triple before (is_exception e) _ _ (λ u. At (holding ms)) (λ e. At resting)
                (λ l.
                  parks e (str_append "unexpected error: " (str_exn e)) unexpected
                    (λ r d. Move.park_unexpected e msg ms l p q))
                λ l. record { at = λ w h. next h (Move.die (failed e msg ms)) }

  handle-Triple :
      Triple Start (handle x rates m settings msg) (λ u. At (holding ms)) (λ e. At resting)
  unfolding handle
  handle-Triple =
      try_except-Triple Start (λ u. At (holding ms)) (λ e. At (failed e msg ms)) (λ e. At resting)
        (attempt x rates m settings msg) (on_failure x rates m settings msg) attempt-Triple
        on_failure-Triple

module _ (x : External) (rates : RateClient) (settings : Settings) (checked : IsChecked settings)
    (m : StreamConsumer) where
  -- `handle`, run on a message to any end, is a sequence of the moves that a worker of the fleet
  -- makes: from the place before the message to the place before the next one if it returns, and to
  -- the place before a round if it raises, provided the settings passed validation.
  pub handle-Moves :
      (msg : StreamMessage) (ms : List StreamMessage) (w : World x)
      → After
          (λ u v. Moves x settings m w.redis w.db (holding (msg ∷ ms)) v.redis v.db (holding ms))
          (λ e v. Moves x settings m w.redis w.db (holding (msg ∷ ms)) v.redis v.db resting)
          (handle x rates m settings msg w).0
          (handle x rates m settings msg w).1
  handle-Moves msg ms w = (handle-Triple x rates settings checked m w.redis w.db msg ms).at w here
