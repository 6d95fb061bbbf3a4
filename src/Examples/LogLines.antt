-- ===== src/Examples/LogLines.antt =====
-- A log line whose extra fields try to pass for another level.
use txn_event_processor.Prelude.{String, Bool, some, false, [], ◌∷◌, ◌≡◌}
use txn_event_processor.Prelude.Dict.{lookup}
use txn_event_processor.Core.Logging.{LogRecord, log_payload, log_payload_fixed}

abbrev shadowing : LogRecord
shadowing = record {
  attributes = ("level", "\"DEBUG\"") ∷ ("event_id", "\"e-1\"") ∷ [];
  created = "\"2024-01-01T00:00:00.000+00:00\"";
  levelname = "\"ERROR\"";
  name = "\"app.worker\"";
  text = "\"dead-lettered\"";
  exc_text = some "\"Traceback\"";
}

abbrev none_reserved : String → Bool
none_reserved k = false

log_payload_fixed_example :
    (lookup "timestamp" (log_payload none_reserved shadowing) ≡ some shadowing.created)
    × (lookup "level" (log_payload none_reserved shadowing) ≡ some "\"ERROR\"")
    × (lookup "logger" (log_payload none_reserved shadowing) ≡ some "\"app.worker\"")
    × (lookup "message" (log_payload none_reserved shadowing) ≡ some "\"dead-lettered\"")
log_payload_fixed_example = log_payload_fixed none_reserved shadowing
