-- ===== src/Core/Metrics.antt =====
-- app/core/metrics.py: the collectors of one process, by label.
use txn_event_processor.Prelude.{ℕ}

pub record Metrics : Type 0 where
  pub events_published : ℕ
  -- `EVENTS_PROCESSED`, by outcome
  pub processed : ℕ
  pub duplicate : ℕ
  -- `EVENTS_FAILED`, by kind
  pub failed_transient : ℕ
  pub failed_permanent : ℕ
  pub failed_exhausted : ℕ
  pub failed_unexpected : ℕ
  -- `RETRIES`, by operation
  pub retries_rate_lookup : ℕ
  pub retries_db_insert : ℕ
  pub consumer_lag : ℕ
  -- how many durations `PROCESSING_SECONDS` has recorded
  pub processing_count : ℕ
