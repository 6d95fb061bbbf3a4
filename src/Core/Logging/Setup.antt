-- ===== src/Core/Logging/Setup.antt =====
-- `configure_logging` of app/core/logging.py, on the state of the standard library's loggers.
use txn_event_processor.Prelude.{String, some, List, [], ◌∷◌, ◌≡◌, arith, inl, inr, ap, sym, ◌∙◌}
use txn_event_processor.Prelude.Dict.{Dict, lookup, insert, lookup-insert}
use txn_event_processor.Action.{Action, Result, Result-cases, ok, err, pure, modify, ◌>>◌}

-- `StreamHandler(sys.stdout)` with `_JSONFormatter`, or a handler that another part has installed.
pub data Handler : Type 0 where
  json_stdout : Handler
  other_handler : String → Handler

-- The root logger, and the levels set on other loggers, by their names.
pub record Loggers : Type 0 where
  pub handlers : List Handler
  pub root_level : String
  pub levels : Dict String

-- `upper` is `str.upper`; `check_level` is the test of `Logger.setLevel`, which raises on a name that
-- is no level.
module _ (upper : String → String) (check_level : String → Result String) where
  -- `root.setLevel(level)`
  abbrev pub set_root_level : String → Action Loggers (Unit {0})
  set_root_level level l = elim (check_level level) [
    | ok name ↦ (ok tt, record l { root_level = name })
    | err e ↦ (err e, l)
  ]

  -- `logging.getLogger(name).setLevel(logging.WARNING)`
  abbrev pub quiet : String → Action Loggers (Unit {0})
  quiet name = modify (λ l. record l { levels = insert name "WARNING" l.levels })

  abbrev pub noisy_loggers : List String
  noisy_loggers = "uvicorn.access" ∷ "httpx" ∷ "httpcore" ∷ []

  abbrev pub quiet_all : List String → Action Loggers (Unit {0})
  quiet_all [] = pure tt
  quiet_all (name ∷ names) = quiet name >> quiet_all names

  unfoldable pub configure_logging : String → Action Loggers (Unit {0})
  configure_logging level = do
    modify (λ l. record l { handlers = json_stdout ∷ [] })
    set_root_level (upper level)
    quiet_all noisy_loggers

  -- If `configure_logging` returns, there is one handler on the root logger, whatever was there, and
  -- the libraries that log each request are at WARNING.
  configure_logging-IsQuiet :
      (level : String) (l v : Loggers)
      → configure_logging level l ≡ (ok tt, v)
      → (v.handlers ≡ json_stdout ∷ [])
        × (check_level (upper level) ≡ ok v.root_level)
        × (lookup "uvicorn.access" v.levels ≡ some "WARNING")
        × (lookup "httpx" v.levels ≡ some "WARNING")
        × (lookup "httpcore" v.levels ≡ some "WARNING")
  unfolding configure_logging
  configure_logging-IsQuiet level l v h = elim (Result-cases (check_level (upper level))) [
    | inr (e, c) ↦ absurd (ground arith)
    | inl (name, c) ↦
        let first = insert "uvicorn.access" "WARNING" l.levels in
        let second = insert "httpx" "WARNING" first in
        let third = insert "httpcore" "WARNING" second in
        let e : v ≡ record { handlers = json_stdout ∷ []; root_level = name; levels = third } =
          ground arith in
        (
          ap (λ u. u.handlers) e,
          c ∙ ap (λ u. ok u.root_level) (sym e),
          ap (λ u. lookup "uvicorn.access" u.levels) e
              ∙ lookup-insert "httpcore" "uvicorn.access" "WARNING" second
              ∙ lookup-insert "httpx" "uvicorn.access" "WARNING" first
              ∙ lookup-insert "uvicorn.access" "uvicorn.access" "WARNING" l.levels,
          ap (λ u. lookup "httpx" u.levels) e
              ∙ lookup-insert "httpcore" "httpx" "WARNING" second
              ∙ lookup-insert "httpx" "httpx" "WARNING" first,
          ap (λ u. lookup "httpcore" u.levels) e
              ∙ lookup-insert "httpcore" "httpcore" "WARNING" second,
        )
  ]
