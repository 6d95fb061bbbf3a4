-- ===== src/Db/Repository.antt =====
-- app/db/repository.py: `TransactionRepository`.
pub mod Insert
use txn_event_processor.Prelude.{
  ℕ, String, Option, none, some, Bool, true, false, List, [], ◌∷◌, ◌++◌, if◌then◌else◌,
}
use txn_event_processor.Core.Errors.{Exn}
use txn_event_processor.Action.{Action, pure, raise, try_except, finally, ◌>>=◌, ◌>>◌}
use txn_event_processor.Money.{Decimal}
use txn_event_processor.Schemas.Datetime.{Datetime}
use txn_event_processor.Db.Errors.{classify_db_error, is_db_exception}
use txn_event_processor.Db.Models.{ProcessedTransaction}
use txn_event_processor.Db.Session.{
  Session, Select, Condition, amount_usd_column, user_is, not_before, before, OrderBy,
  timestamp_desc, id_desc,
}

-- `TransactionRepository._reraise_classified`
unfoldable pub reraise_classified : {D A : Type 0} → Exn → Action D A
reraise_classified exc = elim (classify_db_error exc) [
  | some transient ↦ raise transient
  | none ↦ raise exc
]

-- `except DB_EXCEPTIONS as exc: self._reraise_classified(exc)`
unfoldable pub classified : {D A : Type 0} → Action D A → Action D A
unfolding reraise_classified
classified m = try_except m λ exc. if is_db_exception exc then reraise_classified exc else raise exc

abbrev pub is_some : Option String → Bool
is_some none = false
is_some (some _) = true

-- `[] if bound is None else [condition]`, as the two `conditions.append` do it
abbrev pub bound : (Datetime → Condition) → Option Datetime → List Condition
bound c none = []
bound c (some t) = c t ∷ []

module _ {D : Type 0} (s : Session D) where
  -- the body of `async with self._session_factory() as session`
  unfoldable pub insert_and_commit : ProcessedTransaction → Action D Bool
  insert_and_commit txn = do
    first ← s.insert_returning txn
    let inserted = is_some first
    s.commit
    pure inserted

  unfoldable pub insert_ignore_duplicate : ProcessedTransaction → Action D Bool
  unfolding classified insert_and_commit
  insert_ignore_duplicate txn = classified (finally (insert_and_commit txn) s.close)

  -- `select(coalesce(sum(amount_usd), 0), count()).where(user_id == ...)`, executed
  abbrev pub summary_query : String → Action D (Decimal × ℕ)
  summary_query user_id = s.sum_and_count amount_usd_column (user_is user_id ∷ [])

  unfoldable pub user_summary : String → Action D (Decimal × ℕ)
  unfolding classified
  user_summary user_id = classified (finally (summary_query user_id) s.close)

  unfoldable pub list_conditions : String → Option Datetime → Option Datetime → List Condition
  list_conditions user_id start end = user_is user_id ∷ (bound not_before start ++ bound before end)

  unfoldable pub rows_stmt : String → Option Datetime → Option Datetime → ℕ → ℕ → Select
  unfolding list_conditions
  rows_stmt user_id start end limit offset = record {
    conditions = list_conditions user_id start end;
    order_by = timestamp_desc ∷ id_desc ∷ [];
    limit = limit;
    offset = offset;
  }

  unfoldable pub list_user_transactions :
      String → Option Datetime → Option Datetime → ℕ → ℕ → Action D (List ProcessedTransaction × ℕ)
  unfolding classified rows_stmt
  list_user_transactions user_id start end limit offset = classified (
      finally
        (do
          rows ← s.select_rows (rows_stmt user_id start end limit offset)
          total ← s.count_rows (list_conditions user_id start end)
          pure (rows, total))
        s.close)
