-- ===== src/Worker/Process.antt =====
-- `run_worker` of app/worker.py: from its set-up over the TaskGroup to closing what it holds.
pub mod Shutdown
mod Main
use txn_event_processor.Prelude.{ℕ, ◌+◌, String, Bool, true, false, List, [], ◌∷◌, keep, not}
use txn_event_processor.Core.Config.{Settings}
use txn_event_processor.Core.Errors.{Exn, shutdown_requested}
use txn_event_processor.Action.{Action, Result, ok, err, pure, ◌>>=◌, ◌>>◌}
use txn_event_processor.Db.Engine.{
  EngineOptions, create_engine, wait_until_ready, SessionOptions, create_session_factory,
}
use txn_event_processor.Queue.Client.{RedisOptions, create_redis, close_redis}
use txn_event_processor.Queue.Consumer.{ensure_group}
use txn_event_processor.Services.External.{External}
use txn_event_processor.Services.World.{World, on_redis, timer}
use txn_event_processor.Worker.{
  consume_round, reclaim_round, lag_round, watch_for_shutdown, consumer_of, rates_of,
}

-- A task of the TaskGroup: a coroutine that runs once, or one round of a `while True`.
pub data Task (W : Type 0) : Type 0 where
  once : Action W (Unit {0}) → Task W
  forever : Action W (Unit {0}) → Task W

-- How `async with asyncio.TaskGroup()` ends: all tasks have returned, with the group of what they
-- raised other than by being cancelled, or with an exception that is no group.
pub data GroupEnd : Type 0 where
  all_done : GroupEnd
  group : List Exn → GroupEnd
  interrupted : Exn → GroupEnd

-- How a coroutine ends that may raise an `ExceptionGroup`.
pub data Exit : Type 0 where
  finished : Exit
  raised : Exn → Exit
  raised_group : List Exn → Exit

pub data Signal : Type 0 where
  sigterm sigint : Signal

-- What `run_worker` calls of prometheus_client, SQLAlchemy, redis-py, httpx and asyncio.
pub record Libraries (x : External) : Type 0 where
  pub start_http_server : ℕ → Action (World x) (Unit {0})
  pub create_async_engine : EngineOptions → Action (World x) (Unit {0})
  pub async_sessionmaker : SessionOptions → Action (World x) (Unit {0})
  pub select_one : Action (World x) (Unit {0})
  pub from_url : RedisOptions → Action (World x) (Unit {0})
  pub http_client : ℕ → Action (World x) (Unit {0})
  -- `loop.add_signal_handler(sig, stop_event.set)` and `stop_event.wait()`
  pub add_signal_handler : Signal → Action (World x) (Unit {0})
  pub wait_stop : Action (World x) (Unit {0})
  pub task_group : List (Task (World x)) → World x → GroupEnd × World x
  pub close_http : Action (World x) (Unit {0})
  pub close_client : Action (World x) (Unit {0})
  pub dispose_engine : Action (World x) (Unit {0})

-- `isinstance(exc, _ShutdownRequested)`
abbrev pub is_shutdown : Exn → Bool
is_shutdown shutdown_requested = true
is_shutdown _ = false

abbrev pub exit_of : List Exn → Exit
exit_of [] = finished
exit_of (e ∷ es) = raised_group (e ∷ es)

-- `except* _ShutdownRequested`: the part of the group that does not match is raised again.
unfoldable pub except_shutdown : GroupEnd → Exit
except_shutdown all_done = finished
except_shutdown (group es) = exit_of (keep (λ e. not (is_shutdown e)) es)
except_shutdown (interrupted e) = raised e

-- `finally`: what closing raises takes precedence.
abbrev pub after_close : Exit → Result (Unit {0}) → Exit
after_close exit (ok _) = exit
after_close exit (err e) = raised e

module _ (x : External) (lib : Libraries x) (settings : Settings) where
  -- Up to the `try`, with the tick a millisecond: the cap of `wait_until_ready` and the margin over a
  -- BLOCK are five seconds.
  unfoldable pub set_up : Action (World x) (Unit {0})
  set_up = do
    lib.start_http_server settings.worker_metrics_port
    create_engine lib.create_async_engine settings.database_url
    wait_until_ready (timer x) lib.select_one 5000 settings.db_startup_attempts
        settings.db_startup_base_delay_s
    create_session_factory lib.async_sessionmaker
    create_redis lib.from_url settings.redis_url (settings.block_ms + 5000)
    on_redis x (ensure_group x.redis (consumer_of settings))
    lib.http_client settings.rate_service_timeout_s
    lib.add_signal_handler sigterm
    lib.add_signal_handler sigint

  -- The tasks, in the order of their creation.
  unfoldable pub tasks : ℕ → List (Task (World x))
  tasks lag_interval =
      forever (consume_round x (rates_of settings) (consumer_of settings) settings)
      ∷ forever (reclaim_round x (rates_of settings) (consumer_of settings) settings)
      ∷ forever (lag_round x (rates_of settings) (consumer_of settings) settings lag_interval)
      ∷ once (watch_for_shutdown lib.wait_stop)
      ∷ []

  unfoldable pub close_all : Action (World x) (Unit {0})
  close_all = do lib.close_http; close_redis lib.close_client; lib.dispose_engine

  -- `run_worker`; `lag_interval` is `LAG_POLL_INTERVAL_S`.
  unfoldable pub run_worker : ℕ → World x → Exit × World x
  unfolding set_up tasks close_all except_shutdown
  run_worker lag_interval w =
      let (r, u) = set_up w in
      elim r [
        | err e ↦ (raised e, u)
        | ok _ ↦
            let (end, v) = lib.task_group (tasks lag_interval) u in
            let (q, t) = close_all v in (after_close (except_shutdown end) q, t)
      ]
