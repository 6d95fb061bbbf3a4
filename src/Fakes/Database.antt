-- ===== src/Fakes/Database.antt =====
-- A table with one open transaction.
use txn_event_processor.Prelude.{
  String, none, some, Bool, true, false, List, [], ◌∷◌, ◌++◌, ◌≡◌, refl, arith, if◌then◌else◌, ◌||◌,
}
use txn_event_processor.Action.{ok}
use txn_event_processor.Prelude.Int.{pos}
use txn_event_processor.Db.Models.{ProcessedTransaction, has_id}
use txn_event_processor.Db.Session.{Session, IsPostgres}

pub record Table : Type 0 where
  pub committed : List ProcessedTransaction
  pub open_rows : List ProcessedTransaction

abbrev pub is_known : ProcessedTransaction → Table → Bool
is_known r d = has_id r.id d.open_rows || has_id r.id d.committed

abbrev pub database : Session Table
database = record {
  insert_returning = λ r d.
      if is_known r d
      then (ok none, d)
      else (ok (some r.id), record d { open_rows = r ∷ d.open_rows });
  commit = λ d. (ok tt, record { committed = d.open_rows ++ d.committed; open_rows = [] });
  close = λ d. (ok tt, record d { open_rows = [] });
  sum_and_count = λ c cs d. (ok (record { negative = false; coeff = 0; exp = pos 0 }, 0), d);
  select_rows = λ q d. (ok [], d);
  count_rows = λ c d. (ok 0, d);
}

has_id-append :
    (i : String) (a b : List ProcessedTransaction) → has_id i (a ++ b) ≡ (has_id i a || has_id i b)
has_id-append i [] b = refl
has_id-append i (r ∷ a) b = ground (arith, has_id-append i a b)

insert_new :
    (r : ProcessedTransaction) (d : Table) (i : String)
    → (database.insert_returning r d).0 ≡ ok (some i)
    → (has_id r.id d.committed ≡ false)
      × ((database.insert_returning r d).1.open_rows ≡ r ∷ d.open_rows)
insert_new r d i h = ground arith

insert_conflict :
    (r : ProcessedTransaction) (d : Table)
    → (database.insert_returning r d).0 ≡ ok none
    → (has_id r.id (d.open_rows ++ d.committed) ≡ true)
      × ((database.insert_returning r d).1.open_rows ≡ d.open_rows)
insert_conflict r d h = ground (arith, has_id-append r.id d.open_rows d.committed)

pub database-IsPostgres : IsPostgres database (λ d. d.committed) (λ d. d.open_rows) (λ r. r)
database-IsPostgres = record {
  stored_id = λ r. refl;
  insert_rows = λ r d. ground arith;
  insert_new = insert_new;
  insert_conflict = insert_conflict;
  commit_ok = λ d h. (refl, refl);
  commit_err = λ d e h. absurd (ground arith);
  close_rows = λ d. refl;
  close_written = λ d. refl;
}
