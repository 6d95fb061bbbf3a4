-- ===== src/Db/Session.antt =====
-- What the repository takes from SQLAlchemy and Postgres: the statements that it builds, a session
-- that runs them, and the documented behaviour of both.
use txn_event_processor.Prelude.{
  ℕ, String, Option, none, some, List, [], ◌∷◌, ◌++◌, ◌≡◌, ◌⊎◌, true, false,
}
use txn_event_processor.Core.Errors.{Exn}
use txn_event_processor.Action.{Action, ok, err}
use txn_event_processor.Money.{Decimal}
use txn_event_processor.Schemas.Datetime.{Datetime}
use txn_event_processor.Db.Models.{ProcessedTransaction, has_id}

-- A condition of a WHERE clause.
pub data Condition : Type 0 where
  user_is : String → Condition
  -- `timestamp >= start`, `timestamp < end`
  not_before before : Datetime → Condition

pub data OrderBy : Type 0 where
  timestamp_desc id_desc : OrderBy

pub record Select : Type 0 where
  pub conditions : List Condition
  pub order_by : List OrderBy
  pub limit : ℕ
  pub offset : ℕ

-- A column that SUM takes.
pub data Column : Type 0 where
  amount_column rate_column amount_usd_column : Column

-- One session over the database state `D`, which holds the open transaction too.
pub record Session (D : Type 0) : Type 0 where
  -- `INSERT ... ON CONFLICT (id) DO NOTHING RETURNING id`, and the first row of the result
  pub insert_returning : ProcessedTransaction → Action D (Option String)
  pub commit : Action D (Unit {0})
  -- leaving `async with session_factory() as session`
  pub close : Action D (Unit {0})
  -- `SELECT COALESCE(SUM(column), 0), COUNT(*) ... WHERE ...`
  pub sum_and_count : Column → List Condition → Action D (Decimal × ℕ)
  pub select_rows : Select → Action D (List ProcessedTransaction)
  -- `SELECT COUNT(*) ... WHERE ...`
  pub count_rows : List Condition → Action D ℕ

-- `rows` are the committed rows and `written` those that the open transaction has inserted; `stored`
-- is a row as its column types hold it.
pub record IsPostgres {D : Type 0} (s : Session D) (rows written : D → List ProcessedTransaction)
    (stored : ProcessedTransaction → ProcessedTransaction) : Type 0 where
  pub stored_id : (r : ProcessedTransaction) → (stored r).id ≡ r.id
  -- an insert is not visible before the commit
  pub insert_rows : (r : ProcessedTransaction) (d : D) → rows (s.insert_returning r d).1 ≡ rows d
  -- RETURNING yields an id exactly when the row was new
  pub insert_new :
      (r : ProcessedTransaction) (d : D) (i : String)
      → (s.insert_returning r d).0 ≡ ok (some i)
      → (has_id r.id (rows d) ≡ false) × (written (s.insert_returning r d).1 ≡ stored r ∷ written d)
  pub insert_conflict :
      (r : ProcessedTransaction) (d : D)
      → (s.insert_returning r d).0 ≡ ok none
      → (has_id r.id (written d ++ rows d) ≡ true)
        × (written (s.insert_returning r d).1 ≡ written d)
  -- a commit is atomic; after an error the client does not know whether it took place
  pub commit_ok :
      (d : D)
      → (s.commit d).0 ≡ ok tt
      → (rows (s.commit d).1 ≡ written d ++ rows d) × (written (s.commit d).1 ≡ [])
  pub commit_err :
      (d : D) (e : Exn)
      → (s.commit d).0 ≡ err e
      → (rows (s.commit d).1 ≡ rows d) ⊎ (rows (s.commit d).1 ≡ written d ++ rows d)
  -- what was not committed is rolled back
  pub close_rows : (d : D) → rows (s.close d).1 ≡ rows d
  pub close_written : (d : D) → written (s.close d).1 ≡ []
