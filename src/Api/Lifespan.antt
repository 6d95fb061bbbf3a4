-- ===== src/Api/Lifespan.antt =====
-- `lifespan` of app/main.py: what the API opens before it serves and closes afterwards.
use txn_event_processor.Core.Config.{Settings}
use txn_event_processor.Action.{Action, pure, finally, ◌>>=◌, ◌>>◌}
use txn_event_processor.Db.Engine.{
  EngineOptions, create_engine, init_models, SessionOptions, create_session_factory,
}
use txn_event_processor.Queue.Client.{RedisOptions, create_redis, close_redis, default_timeout_ms}
use txn_event_processor.Services.External.{External}
use txn_event_processor.Services.World.{World}
use txn_event_processor.Api.{AppState, producer_of}

-- What `lifespan` calls of SQLAlchemy and redis-py.
pub record Connections (x : External) : Type 0 where
  pub create_async_engine : EngineOptions → Action (World x) (Unit {0})
  pub async_sessionmaker : SessionOptions → Action (World x) (Unit {0})
  -- `async with engine.begin()`, and `SQLModel.metadata.create_all` in it
  pub in_transaction : Action (World x) (Unit {0}) → Action (World x) (Unit {0})
  pub create_all : Action (World x) (Unit {0})
  pub from_url : RedisOptions → Action (World x) (Unit {0})
  pub close_client : Action (World x) (Unit {0})
  pub dispose_engine : Action (World x) (Unit {0})

module _ (x : External) (lib : Connections x) (settings : Settings) where
  -- Up to the `try`, with what it puts on `app.state`.
  unfoldable pub open_state : Action (World x) AppState
  unfolding create_engine init_models create_session_factory create_redis
  open_state = do
    create_engine lib.create_async_engine settings.database_url
    init_models lib.in_transaction lib.create_all
    create_session_factory lib.async_sessionmaker
    create_redis lib.from_url settings.redis_url default_timeout_ms
    pure (record { settings = settings; producer = producer_of settings })

  -- The whole of `lifespan`; `serve` is what runs at the `yield`.
  unfoldable pub lifespan : (AppState → Action (World x) (Unit {0})) → Action (World x) (Unit {0})
  unfolding open_state close_redis
  lifespan serve = do
    state ← open_state
    finally (serve state) (close_redis lib.close_client >> lib.dispose_engine)
