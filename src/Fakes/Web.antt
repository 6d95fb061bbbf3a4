-- ===== src/Fakes/Web.antt =====
-- A FastAPI that serves an application as documented, and the rest of what the API is started with.
use txn_event_processor.Prelude.{
  ℕ, String, Option, none, some, true, false, ◌≡◌, ◌≢◌, refl, ap, ◌∙◌, arith, inl, inr,
  Option-cases, if◌then◌else◌,
}
use txn_event_processor.Core.Errors.{Exn, http_exception, is_database_unavailable}
use txn_event_processor.Action.{Action, Result, ok, err, pure}
use txn_event_processor.Services.External.{External}
use txn_event_processor.Services.World.{World}
use txn_event_processor.Api.{AppState}
use txn_event_processor.Api.Lifespan.{Connections}
use txn_event_processor.Api.App.{App, Request, Body, failure, status_code, IsFastapi}

abbrev http_of : Exn → Option (ℕ × String)
http_of (http_exception code detail) = some (code, detail)
http_of _ = none

http_of-some :
    (e : Exn) (code : ℕ) (detail : String)
    → http_of e ≡ some (code, detail)
    → e ≡ http_exception code detail
http_of-some e code detail h = ground arith

module _ (x : External) where
  abbrev reply : App x → ℕ → Result Body → Result (ℕ × Body)
  reply app code (ok body) = ok (code, body)
  reply app code (err e) =
      if is_database_unavailable e
      then ok ((app.database_unavailable e).0, failure (app.database_unavailable e).1)
      else elim (http_of e) [ some (c, d) ↦ ok (c, failure (record { detail = d })) | none ↦ err e ]

  abbrev pub serve : App x → AppState → Request → Action (World x) (ℕ × Body)
  serve app state q w = let (r, v) = app.router state q w in (reply app (status_code q) r, v)

  reply_handles :
      (app : App x) (code : ℕ) (e : Exn)
      → is_database_unavailable e ≡ true
      → reply app code (err e)
        ≡ ok ((app.database_unavailable e).0, failure (app.database_unavailable e).1)
  reply_handles app code e h = rw h refl

  reply_raises :
      (app : App x) (code : ℕ) (e : Exn)
      → is_database_unavailable e ≡ false
      → ((c : ℕ) (d : String) → e ≢ http_exception c d)
      → reply app code (err e) ≡ err e
  reply_raises app code e h other = elim (Option-cases (http_of e)) [
    | inl p ↦ rw (h, p) refl
    | inr ((c, d), p) ↦ absurd (other c d (http_of-some e c d p))
  ]

  pub serve-IsFastapi : IsFastapi x serve
  unfolding is_database_unavailable
  serve-IsFastapi = record {
    sends = λ app state q w v body h. ap (λ s. (reply app (status_code q) s.0, s.1)) h;
    handles = λ app state q w v e h k.
        ap (λ s. (reply app (status_code q) s.0, s.1)) h
        ∙ ap (λ r. (r, v)) (reply_handles app (status_code q) e k);
    carries = λ app state q w v code detail h. ap (λ s. (reply app (status_code q) s.0, s.1)) h;
    raises = λ app state q w v e h k other.
        ap (λ s. (reply app (status_code q) s.0, s.1)) h
        ∙ ap (λ r. (r, v)) (reply_raises app (status_code q) e k other);
  }

  -- Connections that open and close without a fault.
  abbrev pub connections : Connections x
  connections = record {
    create_async_engine = λ options. pure tt;
    async_sessionmaker = λ options. pure tt;
    in_transaction = λ m. m;
    create_all = pure tt;
    from_url = λ options. pure tt;
    close_client = pure tt;
    dispose_engine = pure tt;
  }
