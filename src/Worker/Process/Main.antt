-- ===== src/Worker/Process/Main.antt =====
-- `main` of app/worker.py: the settings, the logging, and the worker.
use txn_event_processor.Prelude.{String, ℕ}
use txn_event_processor.Core.Config.{Settings}
use txn_event_processor.Core.Logging.Setup.{Loggers, configure_logging}
use txn_event_processor.Action.{Result, ok, err}
use txn_event_processor.Services.External.{External}
use txn_event_processor.Services.World.{World}
use txn_event_processor.Worker.Process.{Libraries, Exit, raised, run_worker}

-- `LAG_POLL_INTERVAL_S`: five seconds, in milliseconds.
abbrev pub lag_poll_interval_s : ℕ
lag_poll_interval_s = 5000

module _ (x : External) (lib : Libraries x) (upper : String → String)
    (check_level : String → Result String) where
  -- `load` is `Settings()`, which reads the environment and validates it.
  unfoldable pub main : Result Settings → Loggers × World x → Exit × (Loggers × World x)
  unfolding configure_logging run_worker
  main (err e) (l, w) = (raised e, (l, w))
  main (ok settings) (l, w) =
      let (r, k) = configure_logging upper check_level settings.log_level l in
      elim r [
        | err e ↦ (raised e, (k, w))
        | ok _ ↦ let (exit, v) = run_worker x lib settings lag_poll_interval_s w in (exit, (k, v))
      ]
