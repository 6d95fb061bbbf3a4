-- ===== src/Services/Processor/Stores.antt =====
-- app/services/processor.py: `process`, on the table that it leaves.
use txn_event_processor.Prelude.{
  String, Bool, true, false, List, [], ◌∷◌, ◌≡◌, arith, inl, inr, ap, ◌∙◌, eq_iff,
}
use mathlib.Core.Path.{subst}
use txn_event_processor.Action.{Result, ok, err}
use txn_event_processor.Core.Config.{Settings, IsChecked}
use txn_event_processor.Db.Models.{ProcessedTransaction, has_id}
use txn_event_processor.Db.Session.{IsPostgres}
use txn_event_processor.Db.Repository.{insert_ignore_duplicate}
use txn_event_processor.Db.Repository.Insert.{Inserts, insert_ignore_duplicate-Inserts}
use txn_event_processor.Schemas.Events.{TransactionEvent}
use txn_event_processor.Services.External.{External}
use txn_event_processor.Services.World.{World}
use txn_event_processor.Services.RateClient.{RateClient}
use txn_event_processor.Services.Processor.{duplicate, processed, process, Outcome}
use txn_event_processor.Services.Processor.Applies.{Applies, process-Applies}

has_id_self :
    (i : String) (r : ProcessedTransaction) (l : List ProcessedTransaction)
    → r.id ≡ i
    → has_id i (r ∷ l) ≡ true
has_id_self i r l e = ground (arith, eq_iff r.id i)

-- After an insert that returned, the id is in the table.
pub Inserts-has_id :
    (r kept : ProcessedTransaction) (before after : List ProcessedTransaction) (b : Bool)
    → kept.id ≡ r.id
    → Inserts r kept before (ok b) after
    → has_id r.id after ≡ true
Inserts-has_id r kept before after true e h = rw h.1 (has_id_self r.id kept before e)
Inserts-has_id r kept before after false e h = rw h.1 h.0

-- An insert never removes an id.
pub has_id-Inserts :
    (i : String) (r kept : ProcessedTransaction) (before after : List ProcessedTransaction)
    (res : Result Bool)
    → Inserts r kept before res after
    → has_id i before ≡ true
    → has_id i after ≡ true
has_id-Inserts i r kept before after (ok true) h k = rw h.1 (ground arith)
has_id-Inserts i r kept before after (ok false) h k = rw h.1 k
has_id-Inserts i r kept before after (err _) (inl same) k = rw same k
has_id-Inserts i r kept before after (err _) (inr h) k = rw h.1 (ground arith)

module _ (x : External) (rates : RateClient) (settings : Settings) (checked : IsChecked settings)
    (rows written : x.D → List ProcessedTransaction)
    (stored : ProcessedTransaction → ProcessedTransaction)
    (laws : IsPostgres x.session rows written stored) where
  -- Between calls no transaction is open.
  abbrev pub IsIdle : World x → Type 0
  IsIdle w = written w.db ≡ []

  abbrev pub IsStored : String → World x → Type 0
  IsStored i w = has_id i (rows w.db) ≡ true

  pub insert_keeps_idle :
      (row : ProcessedTransaction) (r : x.R) (d : x.D)
      → written d ≡ []
      → written (insert_ignore_duplicate x.session row d).1 ≡ []
  insert_keeps_idle row r d h =
      (insert_ignore_duplicate-Inserts x.session rows written stored laws row d h).1

  pub insert_keeps_stored :
      (i : String) (row : ProcessedTransaction) (r : x.R) (d : x.D)
      → (written d ≡ []) × (has_id i (rows d) ≡ true)
      → (written (insert_ignore_duplicate x.session row d).1 ≡ [])
        × (has_id i (rows (insert_ignore_duplicate x.session row d).1) ≡ true)
  insert_keeps_stored i row r d (h, k) =
      let (ins, idle) =
        insert_ignore_duplicate-Inserts x.session rows written stored laws row d h in
      (idle, has_id-Inserts i row (stored row) (rows d) _ _ ins k)

  stored_in :
      (ev : TransactionEvent) (before after : List ProcessedTransaction) (o : Outcome)
      → Applies stored ev (ok o) before after
      → has_id ev.id after ≡ true
  stored_in ev before after processed (row, a, new, e) =
      ap (has_id ev.id) e ∙ has_id_self ev.id (stored row) before (laws.stored_id row ∙ a.same_id)
  stored_in ev before after duplicate h = h.1

  -- If `process` returns an outcome, from a state with no open transaction, with validated settings
  -- and a Postgres that behaves as documented, then a row with the event's id is committed in the
  -- table.
  pub process_stores :
      (ev : TransactionEvent) (w : World x) (o : Outcome)
      → IsIdle w
      → (process x rates settings ev w).0 ≡ ok o
      → IsStored ev.id (process x rates settings ev w).1
  process_stores ev w o h e =
      let (applies, _) = process-Applies x rates settings checked rows written stored laws ev w h in
      let after = rows (process x rates settings ev w).1.db in
      stored_in ev (rows w.db) after o
        (subst (λ r. Applies stored ev r (rows w.db) after) e applies)
