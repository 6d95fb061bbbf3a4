-- ===== src/Api/Health.antt =====
-- `readiness` of app/api/routes.py, over the outcomes of what it calls.
use Prim.Native.String.{◌++◌ as str_append}
use txn_event_processor.Prelude.{
  [], ◌∷◌, sym, some, ℕ, String, Bool, true, false, ◌≡◌, refl, ap, ◌∙◌, arith, ◌||◌, if◌then◌else◌,
  Bool-cases, Option-cases, inl, inr,
}
use txn_event_processor.Core.Errors.{
  database_unavailable, Exn, http_exception, is_queue_fault, is_database_unavailable, str_exn,
}
use txn_event_processor.Action.{
  raise, ◌>>=◌, try_except, pure, pure, ◌>>◌, raise, try_except, Action, Result, ok, err, run-cases,
  finally,
}
use txn_event_processor.Money.{Decimal}
use txn_event_processor.Db.Errors.{
  is_db_exception, classify_db_error, is_os_error, is_transient_state, sqlstate_of,
}
use txn_event_processor.Db.Repository.{classified, user_summary}
use txn_event_processor.Db.Session.{amount_usd_column, user_is, Session}
use txn_event_processor.Services.External.{External}
use txn_event_processor.Services.World.{World}
use txn_event_processor.Api.{readiness, unavailable}

-- The answer, by how the ping of Redis and the query with the closing of its session end.
abbrev pub verdict : Result (Unit {0}) → Result (Decimal × ℕ) → Result String
verdict (ok _) (ok _) = ok "ready"
verdict (ok _) (err c) = err (
    if is_database_unavailable c || is_db_exception c
    then http_exception 503 (str_append "database unreachable" (str_append ": " (str_exn c)))
    else c)
verdict (err c) _ = err (
    if is_queue_fault c
    then http_exception 503 (str_append "redis unreachable" (str_append ": " (str_exn c)))
    else c)

classify_text : (c x : Exn) → classify_db_error c ≡ some x → x ≡ database_unavailable (str_exn c)
unfolding classify_db_error
classify_text c x h = elim (Bool-cases (is_os_error c)) [
  | inl p ↦ ground arith
  | inr p ↦ elim (Bool-cases (is_transient_state (sqlstate_of c))) [
    | inl q ↦ ground arith
    | inr q ↦ absurd (ground arith)
  ]
]

or_true : (a b : Bool) → b ≡ true → (a || b) ≡ true
or_true a b h = ground arith

classified_ok :
    {D A : Type 0} (m : Action D A) (d v : D) (a : A) → m d ≡ (ok a, v) → classified m d ≡ (ok a, v)
unfolding classified
classified_ok m d v a h = ground arith

-- What leaves the repository for an exception of the database is an exception of the database too,
-- or says that it is unavailable, with the same text; any other exception leaves it as it is.
classified_err :
    {D A : Type 0} (m : Action D A) (d v : D) (c : Exn)
    → m d ≡ (err c, v)
    → (x : Exn) × (classified m d ≡ (err x, v))
      × ((is_database_unavailable x || is_db_exception x)
          ≡ (is_database_unavailable c || is_db_exception c))
      × (str_exn x ≡ str_exn c)
      × ((is_database_unavailable c || is_db_exception c) ≡ false → x ≡ c)
unfolding classified is_database_unavailable str_exn
classified_err m d v c h = elim (Bool-cases (is_db_exception c)) [
  | inr q ↦ (c, ground arith, refl, refl, λ _. refl)
  | inl q ↦ elim (Option-cases (classify_db_error c)) [
    | inl z ↦ (c, ground arith, refl, refl, λ _. refl)
    | inr (x, z) ↦
        let e = classify_text c x z in
        let known = or_true (is_database_unavailable c) (is_db_exception c) q in
        (x, ground arith, rw (e, known) refl, rw e refl, λ n. absurd (ground arith))
  ]
]

abbrev probe : {D : Type 0} → Session D → String → Action D (Decimal × ℕ)
probe s user = finally (s.sum_and_count amount_usd_column (user_is user ∷ [])) s.close

module _ {D : Type 0} (s : Session D) (user : String) (d v : D) where
  summary_ok : (a : Decimal × ℕ) → probe s user d ≡ (ok a, v) → user_summary s user d ≡ (ok a, v)
  unfolding user_summary
  summary_ok a h = classified_ok (probe s user) d v a h

  summary_err :
      (c : Exn)
      → probe s user d ≡ (err c, v)
      → (x : Exn) × (user_summary s user d ≡ (err x, v))
        × ((is_database_unavailable x || is_db_exception x)
            ≡ (is_database_unavailable c || is_db_exception c))
        × (str_exn x ≡ str_exn c)
        × ((is_database_unavailable c || is_db_exception c) ≡ false → x ≡ c)
  unfolding user_summary
  summary_err c h = classified_err (probe s user) d v c h

raised :
    {W A B : Type 0} (b : Bool) (e c : Exn) (f : A → Action W B) (w : W)
    → (((if b then raise e else raise c) >>= f) w).0 ≡ err (if b then e else c)
raised true e c f w = refl
raised false e c f w = refl

module _ (x : External) (w : World x) where
  -- The handler from its second call on, and the whole of it, with the outcome of a call given.
  abbrev query : Result (Decimal × ℕ) × x.D → Action (World x) String
  query (a, d) =
      try_except (λ v. (a, record v { db = d }))
        (λ exc.
          if is_database_unavailable exc || is_db_exception exc
          then raise (unavailable "database unreachable" exc)
          else raise exc)
      >> pure "ready"

  abbrev answer : Result (Unit {0}) × x.R → Action (World x) String
  answer (q, r) =
      try_except (λ v. (q, record v { redis = r }))
        (λ exc.
          if is_queue_fault exc then raise (unavailable "redis unreachable" exc) else raise exc)
      >> λ v. query (user_summary x.session "__healthcheck__" v.db) v

  readiness-answer : (readiness x w).0 ≡ (answer (x.redis.ping w.redis) w).0
  unfolding readiness
  readiness-answer = refl

  query-verdict :
      (v : World x) (a : Result (Decimal × ℕ)) (d : x.D) → (query (a, d) v).0 ≡ verdict (ok tt) a
  query-verdict v (ok _) d = refl
  query-verdict v (err e) d =
      raised (is_database_unavailable e || is_db_exception e) (unavailable "database unreachable" e)
        e (λ _. pure "ready") (record v { db = d })

  answer-verdict :
      (q : Result (Unit {0})) (r : x.R)
      → (answer (q, r) w).0 ≡ verdict q (user_summary x.session "__healthcheck__" w.db).0
  answer-verdict (ok _) r =
      let res = user_summary x.session "__healthcheck__" w.db in
      query-verdict (record w { redis = r }) res.0 res.1
  answer-verdict (err e) r =
      raised {A = Unit {0}} (is_queue_fault e) (unavailable "redis unreachable" e) e
        (λ _ v. query (user_summary x.session "__healthcheck__" v.db) v) (record w { redis = r })

-- The answer does not tell apart two exceptions that are alike.
verdict_same :
    (e c : Exn)
    → ((is_database_unavailable e || is_db_exception e)
        ≡ (is_database_unavailable c || is_db_exception c))
    → str_exn e ≡ str_exn c
    → ((is_database_unavailable c || is_db_exception c) ≡ false → e ≡ c)
    → (q : Result (Unit {0})) → verdict q (err e) ≡ verdict q (err c)
verdict_same e c same text passed (err _) = refl
verdict_same e c same text passed (ok _) =
    elim (Bool-cases (is_database_unavailable c || is_db_exception c)) [
      | inl k ↦ rw (same, k, text) refl
      | inr k ↦ rw (passed k) refl
    ]

-- The readiness check, by how its two calls end: it answers `ready` exactly if the ping of Redis
-- and the query with the closing of its session return; it is HTTP error 503 with the text of what
-- failed if the ping raises an `OSError` or a `RedisError`, or, after a ping that returned, the
-- database raises any exception of its drivers, transient or not; any other exception passes
-- through.
pub readiness-verdict :
    (x : External) (w : World x)
    → (readiness x w).0
      ≡ verdict
          (x.redis.ping w.redis).0
          (finally
            (x.session.sum_and_count amount_usd_column (user_is "__healthcheck__" ∷ []))
            x.session.close
            w.db).0
readiness-verdict x w =
    let q = (x.redis.ping w.redis).0 in
    readiness-answer x w
    ∙ answer-verdict x w q (x.redis.ping w.redis).1
    ∙ elim (run-cases (probe x.session "__healthcheck__") w.db) [
      | inl (a, d, h) ↦
          ap (λ s. verdict q s.0) (summary_ok x.session "__healthcheck__" w.db d a h ∙ sym h)
      | inr (c, d, h) ↦
          let (e, z, same, text, passed) = summary_err x.session "__healthcheck__" w.db d c h in
          ap (λ s. verdict q s.0) z
          ∙ verdict_same e c same text passed q
          ∙ ap (λ s. verdict q s.0) (sym h)
    ]
