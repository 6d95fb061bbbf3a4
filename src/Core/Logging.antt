-- ===== src/Core/Logging.antt =====
-- app/core/logging.py: the fields of one log line. Values are their JSON texts.
pub mod Setup
use txn_event_processor.Prelude.{
  str_eq, ◌||◌, ◌∙◌, String, Option, none, some, Bool, false, [], ◌∷◌, ◌≡◌, refl, if◌then◌else◌,
}
use txn_event_processor.Prelude.Dict.{Dict, lookup, insert, lookup-insert}

-- What the formatter reads of a `LogRecord`; `attributes` is its `__dict__`.
pub record LogRecord : Type 0 where
  pub attributes : Dict String
  pub created : String
  pub levelname : String
  pub name : String
  pub text : String
  pub exc_text : Option String

-- `_RESERVED_RECORD_FIELDS`; `is_standard` tells the attributes that every `LogRecord` has.
unfoldable pub is_reserved : (String → Bool) → String → Bool
is_reserved is_standard k = is_standard k || str_eq k "message"

module _ (is_standard : String → Bool) where
  -- `{k: v for k, v in record.__dict__.items() if k not in _RESERVED_RECORD_FIELDS}`
  unfoldable pub extras_of : Dict String → Dict String
  unfolding is_reserved
  extras_of [] = []
  extras_of ((k, v) ∷ d) =
      let rest = extras_of d in if is_reserved is_standard k then rest else (k, v) ∷ rest

  -- `if record.exc_info: payload["exc_info"] = ...`
  abbrev pub with_exception : Option String → Dict String → Dict String
  with_exception none payload = payload
  with_exception (some t) payload = insert "exc_info" t payload

  -- The dict that `format` dumps: the extras first, then the fixed keys.
  unfoldable pub log_payload : LogRecord → Dict String
  unfolding extras_of
  log_payload r = with_exception r.exc_text (
      insert "message" r.text (
        insert "logger" r.name
          (insert "level" r.levelname (insert "timestamp" r.created (extras_of r.attributes)))))

  lookup-with_exception :
      (k : String) (o : Option String) (d : Dict String)
      → str_eq "exc_info" k ≡ false
      → lookup k (with_exception o d) ≡ lookup k d
  lookup-with_exception k none d h = refl
  lookup-with_exception k (some t) d h = rw (lookup-insert "exc_info" k t d, h) refl

  abbrev stamped : LogRecord → Dict String
  stamped r = insert "timestamp" r.created (extras_of r.attributes)

  abbrev leveled : LogRecord → Dict String
  leveled r = insert "level" r.levelname (stamped r)

  abbrev named : LogRecord → Dict String
  named r = insert "logger" r.name (leveled r)

  abbrev complete : LogRecord → Dict String
  complete r = insert "message" r.text (named r)

  -- Whatever extra fields a log record carries, the keys `timestamp`, `level`, `logger` and
  -- `message` of its log line hold the record's own values.
  pub log_payload_fixed :
      (r : LogRecord)
      → (lookup "timestamp" (log_payload r) ≡ some r.created)
        × (lookup "level" (log_payload r) ≡ some r.levelname)
        × (lookup "logger" (log_payload r) ≡ some r.name)
        × (lookup "message" (log_payload r) ≡ some r.text)
  unfolding log_payload
  log_payload_fixed r = (
    lookup-with_exception "timestamp" r.exc_text (complete r) refl
        ∙ lookup-insert "message" "timestamp" r.text (named r)
        ∙ lookup-insert "logger" "timestamp" r.name (leveled r)
        ∙ lookup-insert "level" "timestamp" r.levelname (stamped r)
        ∙ lookup-insert "timestamp" "timestamp" r.created (extras_of r.attributes),
    lookup-with_exception "level" r.exc_text (complete r) refl
        ∙ lookup-insert "message" "level" r.text (named r)
        ∙ lookup-insert "logger" "level" r.name (leveled r)
        ∙ lookup-insert "level" "level" r.levelname (stamped r),
    lookup-with_exception "logger" r.exc_text (complete r) refl
        ∙ lookup-insert "message" "logger" r.text (named r)
        ∙ lookup-insert "logger" "logger" r.name (leveled r),
    lookup-with_exception "message" r.exc_text (complete r) refl
        ∙ lookup-insert "message" "message" r.text (named r),
  )
