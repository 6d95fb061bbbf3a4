-- ===== src/Examples/Process.antt =====
-- The start of a worker, and its end when a task crashes while it is asked to stop.
use txn_event_processor.Db.Errors.{is_db_exception}
use txn_event_processor.Queue.Consumer.{ensure_group}
use txn_event_processor.Queue.Client.{close_redis, create_redis}
use txn_event_processor.Core.Retry.{call_on_retry, compute_delay, pause, retry_loop, retry_async}
use txn_event_processor.Db.Engine.{create_session_factory, wait_until_ready, create_engine}
use txn_event_processor.Prelude.{[], ◌∷◌, ◌≡◌, List, refl, ℕ}
use txn_event_processor.Core.Errors.{
  is_database_unavailable, Exn, shutdown_requested, other_exception,
}
use txn_event_processor.Action.{err, Action, ok, pure}
use txn_event_processor.Services.World.{World}
use txn_event_processor.Worker.Process.{Libraries, group, run_worker, set_up, close_all}
use txn_event_processor.Worker.Process.Shutdown.{Settles, run_worker-Settles}
use txn_event_processor.Core.Retry.{Timer}
use txn_event_processor.Core.Errors.{postgres_error}
use txn_event_processor.Db.Engine.{wait_until_ready}
use txn_event_processor.Db.Engine.Ready.{wait_until_ready_returns}
use txn_event_processor.Prelude.{zero, suc, some, none, arith}
use txn_event_processor.Fakes.Site.{site, start, settings}

abbrev quiet : Action (World (site 200)) (Unit {0})
quiet = pure tt

abbrev both : List Exn
both = shutdown_requested ∷ other_exception "a bug" ∷ []

abbrev libraries : Libraries (site 200)
libraries = record {
  start_http_server = λ port. quiet;
  create_async_engine = λ options. quiet;
  async_sessionmaker = λ options. quiet;
  select_one = quiet;
  from_url = λ options. quiet;
  http_client = λ timeout. quiet;
  add_signal_handler = λ signal. quiet;
  wait_stop = quiet;
  task_group = λ ts w. (group both, w);
  close_http = quiet;
  close_client = quiet;
  dispose_engine = quiet;
}

starts : set_up (site 200) libraries settings (start 200) ≡ (ok tt, start 200)
unfolding set_up create_session_factory create_engine wait_until_ready retry_async retry_loop
    create_redis ensure_group
starts = refl

closes : close_all (site 200) libraries settings (start 200) ≡ (ok tt, start 200)
unfolding close_all close_redis
closes = refl

run_worker-Settles_example :
    Settles both (run_worker (site 200) libraries settings 5 (start 200)).0
    × ((run_worker (site 200) libraries settings 5 (start 200)).1 ≡ start 200)
run_worker-Settles_example =
    run_worker-Settles (site 200) libraries settings 5 (start 200) (start 200) (start 200)
      (start 200) both starts refl closes

-- The table is missing for a number of queries.
abbrev booting : Action ℕ (Unit {0})
booting zero = (ok tt, 0)
booting (suc n) =
    (err (postgres_error (record { text = "no table"; sqlstate = some "42P01"; orig = none })), n)

abbrev patient : Timer ℕ
patient = record { uniform = λ lo hi w. (ok hi, w); sleep = λ d w. (ok tt, w) }

ready : (wait_until_ready patient booting 5000 20 1000 3).0 ≡ ok tt
unfolding wait_until_ready retry_async retry_loop is_db_exception is_database_unavailable pause
    compute_delay call_on_retry
ready = refl

wait_until_ready_returns_example :
    (u : ℕ) × (booting u ≡ (ok tt, (wait_until_ready patient booting 5000 20 1000 3).1))
wait_until_ready_returns_example =
    wait_until_ready_returns patient booting 5000 20 1000 3 (omega arith) ready
