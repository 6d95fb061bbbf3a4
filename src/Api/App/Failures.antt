-- ===== src/Api/App/Failures.antt =====
-- What a client of the read APIs sees when the database fails.
use Prim.Native.String.{◌++◌ as str_append}
use mathlib.Core.Option
use txn_event_processor.Prelude.{
  [], ◌∷◌, ℕ, String, Option, List, Bool, true, false, ◌≡◌, ◌≢◌, map, refl, ap, ◌∙◌, sym, arith,
  inl, inr, Bool-cases, if◌then◌else◌,
}
use txn_event_processor.Core.Config.{Settings}
use txn_event_processor.Core.Errors.{
  Exn, http_exception, database_unavailable, is_database_unavailable, str_exn,
}
use txn_event_processor.Core.Logging.Setup.{Loggers, configure_logging}
use txn_event_processor.Action.{Action, Result, ok, err, pure, ◌>>=◌, ◌>>◌, finally, run-cases}
use txn_event_processor.Schemas.Datetime.{Datetime, assume_utc}
use txn_event_processor.Schemas.Responses.{ErrorBody}
use txn_event_processor.Db.Models.{ProcessedTransaction}
use txn_event_processor.Db.Session.{amount_usd_column, user_is}
use txn_event_processor.Db.Errors.{
  is_db_exception, classify_db_error, is_os_error, is_transient_state, sqlstate_of,
}
use txn_event_processor.Db.Retryable.{is_retryable}
use txn_event_processor.Db.Repository.{
  classified, user_summary, list_user_transactions, rows_stmt, list_conditions,
}
use txn_event_processor.Services.External.{External}
use txn_event_processor.Services.World.{World, on_db}
use txn_event_processor.Api.{
  transaction_out, AppState, get_user_summary, user_transactions, database_unavailable_handler,
}
use txn_event_processor.Api.Lifespan.{Connections, lifespan}
use txn_event_processor.Api.App.{
  App, Request, get_summary, get_transactions, post_event, get_live, get_ready, Body, failure,
  summary, listing, router, create_app, IsFastapi,
}

abbrev choice : Exn → Bool → Result (ℕ × Body)
choice e retryable =
    if retryable
    then ok (503, failure (record { detail = str_append "database unavailable: " (str_exn e) }))
    else err e

-- 503 with the text of a failure that may pass, and the exception itself otherwise.
abbrev pub outage : Exn → Result (ℕ × Body)
outage e = choice e (is_retryable e)

classified_outage :
    {D A : Type 0} (m : Action D A) (d v : D) (e : Exn)
    → m d ≡ (err e, v)
    → is_db_exception e ≡ true
    → classified m d ≡ (err (if is_retryable e then database_unavailable (str_exn e) else e), v)
unfolding classified classify_db_error
classified_outage m d v e h known = elim (Bool-cases (is_os_error e)) [
  | inl p ↦ ground arith
  | inr p ↦ elim (Bool-cases (is_transient_state (sqlstate_of e))) [
    | inl q ↦ ground arith
    | inr q ↦ ground arith
  ]
]

db_not_unavailable : (e : Exn) → is_db_exception e ≡ true → is_database_unavailable e ≡ false
unfolding is_db_exception is_database_unavailable
db_not_unavailable e known = ground arith

db_not_http :
    (e : Exn)
    → is_db_exception e ≡ true
    → (code : ℕ) (detail : String) → e ≢ http_exception code detail
unfolding is_db_exception
db_not_http e known code detail same = absurd (ground arith)

only_err :
    {D A : Type 0} (m : Action D A) (d v : D) (e : Exn)
    → (m >> pure tt) d ≡ (err e, v)
    → m d ≡ (err e, v)
only_err m d v e h = elim (run-cases m d) [
  | inl (a, u, p) ↦ absurd (ground arith)
  | inr (c, u, p) ↦ ground arith
]

module _ (x : External) where
  two_steps :
      {A B C : Type 0} (m : Action x.D A) (f : A → Action (World x) B) (g : B → Action (World x) C)
      (w : World x) (c : Exn) (u : x.D)
      → m w.db ≡ (err c, u)
      → ((on_db x m >>= f) >>= g) w ≡ (err c, record w { db = u })
  two_steps m f g w c u h = ground arith

  summary_route :
      (state : AppState) (user : String) (w : World x) (c : Exn) (u : x.D)
      → classified
          (finally (x.session.sum_and_count amount_usd_column (user_is user ∷ [])) x.session.close)
          w.db
        ≡ (err c, u)
      → router x state (get_summary user) w ≡ (err c, record w { db = u })
  unfolding router get_user_summary user_summary
  summary_route state user w c u h =
      two_steps (user_summary x.session user)
        (λ totals.
          pure (record { user_id = user; total_usd = totals.0; transaction_count = totals.1 }))
        (λ response. pure (summary response)) w c u h

  -- The two queries of a listing, in one session.
  abbrev listing_queries :
      String
      → Option Datetime
      → Option Datetime
      → ℕ
      → ℕ
      → Action x.D (List ProcessedTransaction × ℕ)
  listing_queries user start end limit offset =
      finally
        (do
          rows ← x.session.select_rows (rows_stmt x.session user start end limit offset)
          total ← x.session.count_rows (list_conditions x.session user start end)
          pure (rows, total))
        x.session.close

  listing_route :
      (state : AppState) (user : String) (from_ to : Option Datetime) (limit offset : ℕ)
      (w : World x) (c : Exn) (u : x.D)
      → classified
          (listing_queries user
            (Option.map assume_utc from_)
            (Option.map assume_utc to)
            limit
            offset)
          w.db
        ≡ (err c, u)
      → router x state (get_transactions user from_ to limit offset) w
        ≡ (err c, record w { db = u })
  unfolding router user_transactions list_user_transactions
  listing_route state user from_ to limit offset w c u h =
      two_steps
        (list_user_transactions x.session user (Option.map assume_utc from_)
          (Option.map assume_utc to) limit offset)
        (λ page. pure (record {
          items = map transaction_out page.0;
          total = page.1;
          limit = limit;
          offset = offset;
        }))
        (λ page. pure (listing page)) w c u h

  -- What the two read APIs ask of the database; the other requests are left aside.
  abbrev pub queries : Request → Action x.D (Unit {0})
  queries (get_summary user) =
      finally (x.session.sum_and_count amount_usd_column (user_is user ∷ [])) x.session.close
      >> pure tt
  queries (get_transactions user from_ to limit offset) =
      listing_queries user (Option.map assume_utc from_) (Option.map assume_utc to) limit offset
      >> pure tt
  queries (post_event _) = pure tt
  queries get_live = pure tt
  queries get_ready = pure tt

  -- The application on its settings.
  abbrev pub whole : Connections x → Settings → App x
  whole lib settings = record {
    title = "txn-event-processor";
    settings = settings;
    lifespan = lifespan x lib settings;
    router = router x;
    mounts = "/metrics" ∷ [];
    database_unavailable = database_unavailable_handler;
  }

  created :
      (lib : Connections x) (upper : String → String) (check_level : String → Result String)
      (load : Result Settings) (l : Loggers) (app : App x)
      → (create_app x lib upper check_level load l).0 ≡ ok app
      → (app.router ≡ router x) × (app.database_unavailable ≡ database_unavailable_handler)
  unfolding create_app
  created lib upper check_level (err e) l app h = absurd (ground arith)
  created lib upper check_level (ok settings) l app h =
      elim (run-cases (configure_logging upper check_level settings.log_level) l) [
        | inr (e, k, q) ↦ absurd (ground arith)
        | inl (_, k, q) ↦
            let made = ap (λ s. (((λ _. s) >>= λ _. pure (whole lib settings)) l).0) (sym q) ∙ h in
            let same : whole lib settings ≡ app = cc made in
            (ap (λ a. a.router) (sym same), ap (λ a. a.database_unavailable) (sym same))
      ]

  module _ (lib : Connections x) (upper : String → String) (check_level : String → Result String)
      (serve : App x → AppState → Request → Action (World x) (ℕ × Body)) (laws : IsFastapi x serve)
      (load : Result Settings) (l : Loggers) (app : App x)
      (built : (create_app x lib upper check_level load l).0 ≡ ok app) (state : AppState) where
    -- A route whose handler hands on what the repository raises.
    route_outage :
        {A : Type 0} (m : Action x.D A) (q : Request) (w : World x) (e : Exn) (v : x.D)
        → ((c : Exn) (u : x.D)
            → classified m w.db ≡ (err c, u)
            → router x state q w ≡ (err c, record w { db = u }))
        → m w.db ≡ (err e, v)
        → is_db_exception e ≡ true
        → serve app state q w ≡ (outage e, record w { db = v })
    unfolding database_unavailable_handler is_database_unavailable str_exn
    route_outage m q w e v routes h known =
        let (r, d) = created lib upper check_level load l app built in
        let raised = ap (λ f. f state q w) r ∙ routes _ v (classified_outage m w.db v e h known) in
        let after : World x = record w { db = v } in
        let c = database_unavailable (str_exn e) in
        let turned : Bool → Result Body × World x = λ b. (err (if b then c else e), after) in
        let answers : Bool → Result (ℕ × Body) × World x = λ b. (choice e b, after) in
        elim (Bool-cases (is_retryable e)) [
          | inl k ↦
              laws.handles app state q w after c (raised ∙ ap turned k) refl
              ∙ ap (λ (f : Exn → ℕ × ErrorBody). (ok ((f c).0, failure (f c).1), after)) d
              ∙ sym (ap answers k)
          | inr k ↦
              laws.raises app state q w after e (raised ∙ ap turned k) (db_not_unavailable e known)
                (db_not_http e known)
              ∙ sym (ap answers k)
        ]

    -- When the queries of one of the two read APIs fail with an exception of the database's
    -- drivers, the client of the application that `create_app` builds gets HTTP status 503 and the
    -- exception's text if it is an `OSError` or its SQLSTATE is in a transient class, and any other
    -- such exception is raised to the server as it is; of the process's state only the database's
    -- has changed. This is provided FastAPI turns outcomes of handlers into responses as
    -- documented.
    pub router-outage :
        (q : Request) (w : World x) (e : Exn) (v : x.D)
        → queries q w.db ≡ (err e, v)
        → is_db_exception e ≡ true
        → serve app state q w ≡ (outage e, record w { db = v })
    router-outage (get_summary user) w e v h known =
        let m =
          finally (x.session.sum_and_count amount_usd_column (user_is user ∷ [])) x.session.close in
        route_outage m (get_summary user) w e v (summary_route state user w) (only_err m w.db v e h)
          known
    router-outage (get_transactions user from_ to limit offset) w e v h known =
        let m =
          listing_queries user (Option.map assume_utc from_) (Option.map assume_utc to) limit
            offset in
        route_outage m (get_transactions user from_ to limit offset) w e v
          (listing_route state user from_ to limit offset w) (only_err m w.db v e h) known
    router-outage (post_event payload) w e v h known = absurd (ground arith)
    router-outage get_live w e v h known = absurd (ground arith)
    router-outage get_ready w e v h known = absurd (ground arith)
