-- ===== src/Examples/Storage.antt =====
-- The insert, on the table in memory.
use txn_event_processor.Prelude.{true, Bool, some, none, false, [], ◌∷◌, ◌≡◌, refl}
use txn_event_processor.Action.{ok, err, Action, raise}
use txn_event_processor.Core.Errors.{Exn, sqlalchemy_error, is_transient}
use txn_event_processor.Db.Errors.{is_db_exception}
use txn_event_processor.Db.Classification.{classified_raises}
use txn_event_processor.Db.Retryable.{IsRetryable}
use txn_event_processor.Db.Models.{ProcessedTransaction}
use txn_event_processor.Db.Repository.{classified, insert_ignore_duplicate}
use txn_event_processor.Db.Repository.Insert.{Inserts, insert_ignore_duplicate-Inserts}
use txn_event_processor.Fakes.Database.{Table, database, database-IsPostgres}
use txn_event_processor.Fakes.Site.{half, noon}

abbrev row : ProcessedTransaction
row = record {
  id = "e-1";
  user_id = "u-1";
  amount = half;
  currency = "USD";
  rate = half;
  amount_usd = half;
  timestamp = noon;
  processed_at = noon;
}

-- The table that holds the row already.
abbrev holding : Table
holding = record { committed = row ∷ []; open_rows = [] }

refused_twice : (insert_ignore_duplicate database row holding).0 ≡ ok false
unfolding insert_ignore_duplicate
refused_twice = refl

insert_ignore_duplicate-Inserts_example :
    let res = insert_ignore_duplicate database row holding in
    Inserts row row (row ∷ []) res.0 res.1.committed × (res.1.open_rows ≡ [])
insert_ignore_duplicate-Inserts_example =
    insert_ignore_duplicate-Inserts database (λ d. d.committed) (λ d. d.open_rows) (λ r. r)
      database-IsPostgres row holding refl

-- A deadlock, as SQLAlchemy wraps it.
abbrev deadlock : Exn
deadlock =
    sqlalchemy_error (record { text = "deadlock"; sqlstate = none; orig = some (some "40P01") })

abbrev lock_up : Action Table Bool
lock_up = raise deadlock

classified_raises_example :
    (x : Exn) × ((classified lock_up holding).0 ≡ err x)
    × (is_transient x ≡ true → IsRetryable deadlock)
    × (IsRetryable deadlock → is_transient x ≡ true)
unfolding is_db_exception
classified_raises_example = classified_raises lock_up holding deadlock refl refl
