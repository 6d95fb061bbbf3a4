-- ===== src/Db/Engine.antt =====
-- app/db/engine.py: the engine, the tables, and waiting for them at the worker's start.
pub mod Ready
use txn_event_processor.Prelude.{true, false, Bool, String, ℕ, none, if◌then◌else◌}
use txn_event_processor.Core.Errors.{database_unavailable, is_database_unavailable, str_exn}
use txn_event_processor.Core.Retry.{Timer, retry_async}
use txn_event_processor.Action.{finally, ◌>>◌, Action, raise, try_except}
use txn_event_processor.Db.Errors.{is_db_exception}

-- The arguments of `create_async_engine`.
pub record EngineOptions : Type 0 where
  pub url : String
  pub pool_size : ℕ
  pub max_overflow : ℕ
  pub pool_pre_ping : Bool

-- `create_engine`; `create_async_engine` is SQLAlchemy's.
unfoldable pub create_engine :
    {W : Type 0} → (EngineOptions → Action W (Unit {0})) → String → Action W (Unit {0})
create_engine create_async_engine database_url =
    create_async_engine
      (record { url = database_url; pool_size = 5; max_overflow = 5; pool_pre_ping = true })

-- The arguments of `async_sessionmaker` beside the engine.
pub record SessionOptions : Type 0 where
  pub expire_on_commit : Bool

-- `create_session_factory`; `async_sessionmaker` is SQLAlchemy's.
unfoldable pub create_session_factory :
    {W : Type 0} → (SessionOptions → Action W (Unit {0})) → Action W (Unit {0})
create_session_factory async_sessionmaker = async_sessionmaker (record { expire_on_commit = false })

-- `init_models`: `in_transaction` is `async with engine.begin()`.
unfoldable pub init_models :
    {W : Type 0}
    → (Action W (Unit {0}) → Action W (Unit {0}))
    → Action W (Unit {0})
    → Action W (Unit {0})
init_models in_transaction create_all = in_transaction create_all

module _ {W : Type 0} (t : Timer W) (select_one : Action W (Unit {0})) where
  -- `probe`; `select_one` connects and runs `SELECT 1 FROM processed_transactions LIMIT 1`.
  unfoldable pub probe : Action W (Unit {0})
  probe =
      try_except select_one
        λ exc. if is_db_exception exc then raise (database_unavailable (str_exn exc)) else raise exc

  -- `max_delay` is the five seconds that the source writes out, in ticks.
  unfoldable pub wait_until_ready : ℕ → ℕ → ℕ → Action W (Unit {0})
  unfolding probe
  wait_until_ready max_delay attempts base_delay =
      retry_async t probe attempts base_delay max_delay is_database_unavailable none
