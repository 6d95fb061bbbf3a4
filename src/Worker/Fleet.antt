-- ===== src/Worker/Fleet.antt =====
-- Several workers on one queue and one table (`docker compose up --scale worker=N`), with the API,
-- interleaved in any order. A worker's step is one call that reaches the queue or the table; reading
-- or claiming a batch, with the parsing of its entries, is one step, and so is the insert with its
-- commit and close: the table's rows change at the commit alone, and what else the insert awaits is
-- inside its own transaction. Between two steps of a worker the others may take any number of theirs,
-- and a worker may die at any point.
pub mod Monotone
pub mod Alone
pub mod Safety
pub mod Simulation
use Prim.Native.String.{◌++◌ as str_append}
use txn_event_processor.Prelude.{
  ℕ, String, Bool, true, false, List, [], ◌∷◌, ◌≡◌, ◌<◌, ◌≤◌, none, ◌==◌, if◌then◌else◌,
}
use txn_event_processor.Prelude.Dict.{insert}
use txn_event_processor.Core.Config.{Settings}
use txn_event_processor.Core.Errors.{Exn, is_permanent, is_transient, is_exception, str_exn}
use txn_event_processor.Action.{ok, err}
use txn_event_processor.Db.Models.{ProcessedTransaction}
use txn_event_processor.Db.Repository.{insert_ignore_duplicate}
use txn_event_processor.Schemas.Events.{TransactionEvent}
use txn_event_processor.Queue.Producer.{EventProducer, publish}
use txn_event_processor.Queue.Consumer.{StreamConsumer, StreamMessage, ack, read, claim_stale}
use txn_event_processor.Services.External.{External}

-- Where a worker stands, with the messages that it still has to handle.
pub data Place : Type 0 where
  -- before a round
  resting : Place
  -- about to handle the first message, or in `process` for it
  holding : List StreamMessage → Place
  -- `process` has returned for the message; before its XACK
  stored : StreamMessage → List StreamMessage → Place
  -- in the `except` clauses
  failed : Exn → StreamMessage → List StreamMessage → Place
  -- before the XADD of `_dead_letter_fields`, with the reason
  parking : String → StreamMessage → List StreamMessage → Place
  -- before the XACK that follows it
  parked : StreamMessage → List StreamMessage → Place

module _ (x : External) (settings : Settings) where
  -- The calls of the worker `m`, from a queue, a table and a place to the next ones.
  pub data Move (m : StreamConsumer) (r : x.R) (d : x.D) : Place → x.R → x.D → Place → Type 0 where
    fetch :
        (ms : List StreamMessage)
        → (read x.redis x.pydantic m r).0 ≡ ok ms
        → Move m r d resting (read x.redis x.pydantic m r).1 d (holding ms)
    fetch_raises :
        (e : Exn)
        → (read x.redis x.pydantic m r).0 ≡ err e
        → Move m r d resting (read x.redis x.pydantic m r).1 d resting
    claim :
        (ms : List StreamMessage)
        → (claim_stale x.redis x.pydantic m settings.min_idle_ms r).0 ≡ ok ms
        → Move m r d resting
            (claim_stale x.redis x.pydantic m settings.min_idle_ms r).1
            d
            (holding ms)
    claim_raises :
        (e : Exn)
        → (claim_stale x.redis x.pydantic m settings.min_idle_ms r).0 ≡ err e
        → Move m r d resting (claim_stale x.redis x.pydantic m settings.min_idle_ms r).1 d resting
    -- an attempt of `process` at the insert that raises, and one that returns
    try_insert :
        (e : Exn) (row : ProcessedTransaction) (msg : StreamMessage) (ms : List StreamMessage)
        → row.id ≡ msg.event.id
        → (insert_ignore_duplicate x.session row d).0 ≡ err e
        → Move m r d
            (holding (msg ∷ ms))
            r
            (insert_ignore_duplicate x.session row d).1
            (holding (msg ∷ ms))
    insert_row :
        (b : Bool) (row : ProcessedTransaction) (msg : StreamMessage) (ms : List StreamMessage)
        → row.id ≡ msg.event.id
        → (insert_ignore_duplicate x.session row d).0 ≡ ok b
        → Move m r d
            (holding (msg ∷ ms))
            r
            (insert_ignore_duplicate x.session row d).1
            (stored msg ms)
    -- an exception out of `process`
    give_up :
        (e : Exn) (msg : StreamMessage) (ms : List StreamMessage)
        → Move m r d (holding (msg ∷ ms)) r d (failed e msg ms)
    acknowledge :
        (msg : StreamMessage) (ms : List StreamMessage)
        → (ack x.redis m msg.msg_id r).0 ≡ ok tt
        → Move m r d (stored msg ms) (ack x.redis m msg.msg_id r).1 d (holding ms)
    acknowledge_raises :
        (e : Exn) (msg : StreamMessage) (ms : List StreamMessage)
        → (ack x.redis m msg.msg_id r).0 ≡ err e
        → Move m r d (stored msg ms) (ack x.redis m msg.msg_id r).1 d (failed e msg ms)
    -- the clauses of `handle`
    park_permanent :
        (e : Exn) (msg : StreamMessage) (ms : List StreamMessage)
        → is_permanent e ≡ true
        → Move m r d (failed e msg ms) r d (parking (str_exn e) msg ms)
    park_exhausted :
        (e : Exn) (msg : StreamMessage) (ms : List StreamMessage)
        → is_transient e ≡ true
        → settings.max_deliveries ≤ msg.delivery_count
        → Move m r d (failed e msg ms) r d (parking "max deliveries exceeded" msg ms)
    leave :
        (e : Exn) (msg : StreamMessage) (ms : List StreamMessage)
        → is_transient e ≡ true
        → msg.delivery_count < settings.max_deliveries
        → Move m r d (failed e msg ms) r d (holding ms)
    park_unexpected :
        (e : Exn) (msg : StreamMessage) (ms : List StreamMessage)
        → is_exception e ≡ true
        → is_permanent e ≡ false
        → is_transient e ≡ false
        → Move m r d
            (failed e msg ms)
            r
            d
            (parking (str_append "unexpected error: " (str_exn e)) msg ms)
    add :
        (i reason : String) (msg : StreamMessage) (ms : List StreamMessage)
        → (x.redis.xadd m.dlq_stream (insert "reason" reason msg.raw_fields) none r).0 ≡ ok i
        → Move m r d
            (parking reason msg ms)
            (x.redis.xadd m.dlq_stream (insert "reason" reason msg.raw_fields) none r).1
            d
            (parked msg ms)
    add_raises :
        (e : Exn) (reason : String) (msg : StreamMessage) (ms : List StreamMessage)
        → (x.redis.xadd m.dlq_stream (insert "reason" reason msg.raw_fields) none r).0 ≡ err e
        → Move m r d
            (parking reason msg ms)
            (x.redis.xadd m.dlq_stream (insert "reason" reason msg.raw_fields) none r).1
            d
            resting
    remove :
        (msg : StreamMessage) (ms : List StreamMessage)
        → (x.redis.xack m.stream m.group msg.msg_id r).0 ≡ ok tt
        → Move m r d (parked msg ms) (x.redis.xack m.stream m.group msg.msg_id r).1 d (holding ms)
    remove_raises :
        (e : Exn) (msg : StreamMessage) (ms : List StreamMessage)
        → (x.redis.xack m.stream m.group msg.msg_id r).0 ≡ err e
        → Move m r d (parked msg ms) (x.redis.xack m.stream m.group msg.msg_id r).1 d resting
    finish_round : Move m r d (holding []) r d resting
    -- a cancellation, a kill, or an exception that ends the process
    die : (p : Place) → Move m r d p r d resting

  -- A worker alone: any number of its moves, the last one first.
  pub data Moves (m : StreamConsumer) (r : x.R) (d : x.D) (p : Place)
      : x.R → x.D → Place → Type 0 where
    here : Moves m r d p r d p
    next :
        {s t : x.R} {e f : x.D} {q u : Place}
        → Moves m r d p s e q
        → Move m s e q t f u
        → Moves m r d p t f u

  -- What is shared, and where each worker stands.
  pub record Fleet : Type 0 where
    pub redis : x.R
    pub db : x.D
    pub place : ℕ → Place

  abbrev pub put : ℕ → Place → (ℕ → Place) → ℕ → Place
  put k p places n = if k == n then p else places n

  -- Worker `k` differs from the others by its consumer name only.
  module _ (producer : EventProducer) (consumer : StreamConsumer) (names : ℕ → String) where
    abbrev pub member : ℕ → StreamConsumer
    member k = record consumer { consumer = names k }

    pub data Step (s : Fleet) : Fleet → Type 0 where
      accept :
          (event : TransactionEvent)
          → Step s (record s { redis = (publish x.redis x.pydantic producer event s.redis).1 })
      work :
          (k : ℕ) {r : x.R} {d : x.D} {p : Place}
          → Move (member k) s.redis s.db (s.place k) r d p
          → Step s (record { redis = r; db = d; place = put k p s.place })

    pub data Reach (s : Fleet) : Fleet → Type 0 where
      here : Reach s s
      next : {t u : Fleet} → Reach s t → Step t u → Reach s u
