-- ===== src/Worker/Fleet/Monotone.antt =====
-- What a move of a worker does to the queue and to the table.
use txn_event_processor.Prelude.{String, Bool, true, List, [], ◌≡◌, none}
use txn_event_processor.Prelude.Dict.{insert}
use txn_event_processor.Core.Config.{Settings}
use txn_event_processor.Db.Models.{ProcessedTransaction, has_id}
use txn_event_processor.Db.Session.{IsPostgres}
use txn_event_processor.Db.Repository.{insert_ignore_duplicate}
use txn_event_processor.Db.Repository.Insert.{insert_ignore_duplicate-Inserts}
use txn_event_processor.Queue.Redis.{IsRedis}
use txn_event_processor.Queue.Consumer.{StreamConsumer, ack, read, claim_stale}
use txn_event_processor.Queue.Consumer.Safety.{Has, xadd-Has}
use txn_event_processor.Queue.Consumer.DeadLetters.{read-Has, claim_stale-Has}
use txn_event_processor.Schemas.Envelope.{Fields}
use txn_event_processor.Services.External.{External}
use txn_event_processor.Services.Processor.Stores.{has_id-Inserts}
use txn_event_processor.Worker.Fleet.{
  Place, Move, fetch, fetch_raises, claim, claim_raises, try_insert, insert_row, give_up,
  acknowledge, acknowledge_raises, park_permanent, park_exhausted, leave, park_unexpected, add,
  add_raises, remove, remove_raises, finish_round, die,
}

module _ (x : External) (settings : Settings) where
  -- The one call that a move makes, if any.
  pub data Effect (m : StreamConsumer) (r : x.R) (d : x.D) : x.R → x.D → Type 0 where
    quiet : Effect m r d r d
    reads : Effect m r d (read x.redis x.pydantic m r).1 d
    claims : Effect m r d (claim_stale x.redis x.pydantic m settings.min_idle_ms r).1 d
    inserts :
        (row : ProcessedTransaction) → Effect m r d r (insert_ignore_duplicate x.session row d).1
    removes : (i : String) → Effect m r d (x.redis.xack m.stream m.group i r).1 d
    adds : (f : Fields) → Effect m r d (x.redis.xadd m.dlq_stream f none r).1 d

  pub Move-Effect :
      {m : StreamConsumer} {r s : x.R} {d e : x.D} {p q : Place}
      → Move x settings m r d p s e q
      → Effect m r d s e
  unfolding ack
  Move-Effect (fetch ms h) = reads
  Move-Effect (fetch_raises e h) = reads
  Move-Effect (claim ms h) = claims
  Move-Effect (claim_raises e h) = claims
  Move-Effect (try_insert e row msg ms i h) = inserts row
  Move-Effect (insert_row b row msg ms i h) = inserts row
  Move-Effect (give_up e msg ms) = quiet
  Move-Effect (acknowledge msg ms h) = removes msg.msg_id
  Move-Effect (acknowledge_raises e msg ms h) = removes msg.msg_id
  Move-Effect (park_permanent e msg ms h) = quiet
  Move-Effect (park_exhausted e msg ms h l) = quiet
  Move-Effect (leave e msg ms h l) = quiet
  Move-Effect (park_unexpected e msg ms h k l) = quiet
  Move-Effect (add i reason msg ms h) = adds (insert "reason" reason msg.raw_fields)
  Move-Effect (add_raises e reason msg ms h) = adds (insert "reason" reason msg.raw_fields)
  Move-Effect (remove msg ms h) = removes msg.msg_id
  Move-Effect (remove_raises e msg ms h) = removes msg.msg_id
  Move-Effect finish_round = quiet
  Move-Effect (die p) = quiet

  module _ (rows written : x.D → List ProcessedTransaction)
      (stored_as : ProcessedTransaction → ProcessedTransaction)
      (laws : IsPostgres x.session rows written stored_as) where
    pub Effect-idle :
        {m : StreamConsumer} {r s : x.R} {d e : x.D}
        → Effect m r d s e
        → written d ≡ []
        → written e ≡ []
    Effect-idle quiet h = h
    Effect-idle reads h = h
    Effect-idle claims h = h
    Effect-idle {d} (inserts row) h =
        (insert_ignore_duplicate-Inserts x.session rows written stored_as laws row d h).1
    Effect-idle (removes i) h = h
    Effect-idle (adds f) h = h

    -- No move removes a row.
    pub Effect-has_id :
        (i : String) {m : StreamConsumer} {r s : x.R} {d e : x.D}
        → Effect m r d s e
        → written d ≡ []
        → has_id i (rows d) ≡ true
        → has_id i (rows e) ≡ true
    Effect-has_id i quiet h k = k
    Effect-has_id i reads h k = k
    Effect-has_id i claims h k = k
    Effect-has_id i {d} (inserts row) h k =
        has_id-Inserts i row (stored_as row) (rows d) _ _
          (insert_ignore_duplicate-Inserts x.session rows written stored_as laws row d h).0 k
    Effect-has_id i (removes n) h k = k
    Effect-has_id i (adds f) h k = k

  module _ (pending : x.R → String → String → String → Bool) (entries : x.R → String → List Fields)
      (laws : IsRedis x.redis pending entries) where
    -- No move removes an entry of the dead-letter stream.
    pub Effect-Has :
        (f : Fields) {m : StreamConsumer} {r s : x.R} {d e : x.D}
        → Effect m r d s e
        → Has f (entries r m.dlq_stream)
        → Has f (entries s m.dlq_stream)
    Effect-Has f quiet h = h
    Effect-Has f {m} {r} reads h = read-Has x.redis x.pydantic m pending entries laws f r h
    Effect-Has f {m} {r} claims h =
        claim_stale-Has x.redis x.pydantic m pending entries laws f settings.min_idle_ms r h
    Effect-Has f (inserts row) h = h
    Effect-Has f {m} {r} (removes i) h = rw (laws.xack_entries m.stream m.group i r m.dlq_stream) h
    Effect-Has f {m} {r} (adds g) h = xadd-Has x.redis m pending entries laws f g r h
