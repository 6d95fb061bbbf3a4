-- ===== src/Api/App.antt =====
-- `create_app` of app/main.py: the application that FastAPI serves, and what FastAPI makes of the
-- outcome of a handler.
pub mod Failures
use txn_event_processor.Prelude.{◌≢◌, ℕ, String, Option, Bool, true, false, List, [], ◌∷◌, ◌≡◌, ◌≢◌}
use txn_event_processor.Core.Config.{Settings}
use txn_event_processor.Core.Errors.{Exn, http_exception, is_database_unavailable}
use txn_event_processor.Core.Logging.Setup.{Loggers, configure_logging}
use txn_event_processor.Action.{Action, Result, ok, err, pure, ◌>>=◌}
use txn_event_processor.Schemas.Datetime.{Datetime}
use txn_event_processor.Schemas.Events.{TransactionEventIn}
use txn_event_processor.Schemas.Responses.{
  AcceptedResponse, UserSummary, TransactionPage, ErrorBody,
}
use txn_event_processor.Services.External.{External}
use txn_event_processor.Services.World.{World}
use txn_event_processor.Api.{
  AppState, get_producer, ingest_event, get_user_summary, user_transactions, liveness, readiness,
  database_unavailable_handler,
}
use txn_event_processor.Api.Lifespan.{Connections, lifespan}

-- A request, by its route, with the arguments that FastAPI has read and validated against the
-- parameters of the handler.
pub data Request : Type 0 where
  post_event : TransactionEventIn → Request
  get_summary : String → Request
  get_transactions : String → Option Datetime → Option Datetime → ℕ → ℕ → Request
  get_live get_ready : Request

-- What a handler returns, by its `response_model`; `health` has the `status` of the two health checks.
pub data Body : Type 0 where
  accepted : AcceptedResponse → Body
  summary : UserSummary → Body
  listing : TransactionPage → Body
  health : String → Body
  failure : ErrorBody → Body

-- The `status_code` that a route declares, or 200.
unfoldable pub status_code : Request → ℕ
status_code (post_event _) = 202
status_code (get_summary _) = 200
status_code (get_transactions _ _ _ _ _) = 200
status_code get_live = 200
status_code get_ready = 200

-- What `create_app` puts together.
pub record App (x : External) : Type 0 where
  pub title : String
  pub settings : Settings
  pub lifespan : (AppState → Action (World x) (Unit {0})) → Action (World x) (Unit {0})
  pub router : AppState → Request → Action (World x) Body
  pub mounts : List String
  -- the handler registered for `DatabaseUnavailable`
  pub database_unavailable : Exn → ℕ × ErrorBody

module _ (x : External) where
  -- `router`: which handler takes which request, with its dependencies.
  unfoldable pub router : AppState → Request → Action (World x) Body
  router state (post_event payload) = do
    response ← ingest_event x (get_producer state) payload
    pure (accepted response)
  router state (get_summary user_id) = do
    response ← get_user_summary x user_id
    pure (summary response)
  router state (get_transactions user_id from_ to limit offset) = do
    page ← user_transactions x user_id from_ to limit offset
    pure (listing page)
  router state get_live = do text ← liveness x; pure (health text)
  router state get_ready = do text ← readiness x; pure (health text)

  module _ (lib : Connections x) (upper : String → String)
      (check_level : String → Result String) where
    -- `load` is `Settings()`.
    unfoldable pub create_app : Result Settings → Action Loggers (App x)
    unfolding router lifespan database_unavailable_handler configure_logging
    create_app (err e) l = (err e, l)
    create_app (ok settings) l =
        (configure_logging upper check_level settings.log_level >>= λ _. pure (record {
          title = "txn-event-processor";
          settings = settings;
          lifespan = lifespan x lib settings;
          router = router;
          mounts = "/metrics" ∷ [];
          database_unavailable = database_unavailable_handler;
        }))
          l

-- FastAPI, as documented: the body of a handler that returns is sent with the route's status, a
-- `DatabaseUnavailable` goes to the handler registered for it, an `HTTPException` carries its own
-- status, and any other exception is raised to the server.
pub record IsFastapi (x : External)
    (serve : App x → AppState → Request → Action (World x) (ℕ × Body)) : Type 0 where
  pub sends :
      (app : App x) (state : AppState) (q : Request) (w v : World x) (body : Body)
      → app.router state q w ≡ (ok body, v)
      → serve app state q w ≡ (ok (status_code q, body), v)
  pub handles :
      (app : App x) (state : AppState) (q : Request) (w v : World x) (e : Exn)
      → app.router state q w ≡ (err e, v)
      → is_database_unavailable e ≡ true
      → serve app state q w
        ≡ (ok ((app.database_unavailable e).0, failure (app.database_unavailable e).1), v)
  pub carries :
      (app : App x) (state : AppState) (q : Request) (w v : World x) (code : ℕ) (detail : String)
      → app.router state q w ≡ (err (http_exception code detail), v)
      → serve app state q w ≡ (ok (code, failure (record { detail = detail })), v)
  pub raises :
      (app : App x) (state : AppState) (q : Request) (w v : World x) (e : Exn)
      → app.router state q w ≡ (err e, v)
      → is_database_unavailable e ≡ false
      → ((code : ℕ) (detail : String) → e ≢ http_exception code detail)
      → serve app state q w ≡ (err e, v)
