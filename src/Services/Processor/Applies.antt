-- ===== src/Services/Processor/Applies.antt =====
-- app/services/processor.py: `process` against the table, seen as one atomic step.
use mathlib.Core.Path.{subst}
use txn_event_processor.Prelude.{
  ap, sym, ◌∙◌, eq_iff, Bool, true, false, List, [], ◌∷◌, ◌≡◌, ◌⊎◌, inl, inr, refl, arith,
}
use txn_event_processor.Action.{Result, ok, err}
use txn_event_processor.Action.Triple.{After}
use txn_event_processor.Core.Config.{Settings, IsChecked}
use txn_event_processor.Db.Models.{ProcessedTransaction, has_id}
use txn_event_processor.Db.Session.{IsPostgres}
use txn_event_processor.Db.Repository.{insert_ignore_duplicate}
use txn_event_processor.Db.Repository.Insert.{Inserts, insert_ignore_duplicate-Inserts}
use txn_event_processor.Schemas.Events.{TransactionEvent}
use txn_event_processor.Services.External.{External}
use txn_event_processor.Services.World.{World}
use txn_event_processor.Services.RateClient.{RateClient}
use txn_event_processor.Services.Processor.{process, Outcome, processed, duplicate}
use txn_event_processor.Services.Processor.Run.{IsRowOf, is_new, process-Triple}

module _ (kept : ProcessedTransaction → ProcessedTransaction) (ev : TransactionEvent) where
  -- The table has grown by a row of the event, which was new.
  abbrev pub Adds : List ProcessedTransaction → List ProcessedTransaction → Type 0
  Adds before after =
      (row : ProcessedTransaction) × IsRowOf ev row
      × (has_id ev.id before ≡ false)
      × (after ≡ kept row ∷ before)

  abbrev pub MayAdd : List ProcessedTransaction → List ProcessedTransaction → Type 0
  MayAdd before after = (after ≡ before) ⊎ Adds before after

  -- What a result says of the table before and after: a processed event was new and is added, a
  -- duplicate is in the table, and after an exception the row may have been added or not.
  abbrev pub Applies :
      Result Outcome → List ProcessedTransaction → List ProcessedTransaction → Type 0
  Applies (ok processed) before after = Adds before after
  Applies (ok duplicate) before after = MayAdd before after × (has_id ev.id after ≡ true)
  Applies (err _) before after = MayAdd before after

  abbrev Settled : Bool → List ProcessedTransaction → List ProcessedTransaction → Type 0
  Settled true before after = Adds before after
  Settled false before after = MayAdd before after × (has_id ev.id after ≡ true)

  module _ (same_id : (r : ProcessedTransaction) → (kept r).id ≡ r.id) (row : ProcessedTransaction)
      (of_ev : IsRowOf ev row) where
    known :
        (old : ProcessedTransaction)
        → IsRowOf ev old
        → (l : List ProcessedTransaction) → has_id row.id (kept old ∷ l) ≡ true
    known old a l =
        ground (arith, same_id old, a.same_id, of_ev.same_id, eq_iff (kept old).id row.id)

    tried_again :
        (before mid after : List ProcessedTransaction) (res : Result Bool)
        → MayAdd before mid
        → Inserts row (kept row) mid res after
        → After (λ b t. Settled b before t) (λ e t. MayAdd before t) res after
    tried_again before mid after (ok true) (inl e) h = (
      row,
      of_ev,
      ap (λ i. has_id i before) (sym of_ev.same_id) ∙ ap (has_id row.id) (sym e) ∙ h.0,
      h.1 ∙ ap (λ l. kept row ∷ l) e,
    )
    tried_again before mid after (ok true) (inr (old, a, new, e)) h =
        absurd (ground (arith, known old a before, ap (has_id row.id) e))
    tried_again before mid after (ok false) m h = (
      subst (MayAdd before) (sym h.1) m,
      ap (λ i. has_id i after) (sym of_ev.same_id) ∙ ap (has_id row.id) h.1 ∙ h.0,
    )
    tried_again before mid after (err _) m (inl h) = subst (MayAdd before) (sym h) m
    tried_again before mid after (err _) (inl e) (inr h) = inr (
      row,
      of_ev,
      ap (λ i. has_id i before) (sym of_ev.same_id) ∙ ap (has_id row.id) (sym e) ∙ h.0,
      h.1 ∙ ap (λ l. kept row ∷ l) e,
    )
    tried_again before mid after (err _) (inr (old, a, new, e)) (inr h) =
        absurd (ground (arith, known old a before, ap (has_id row.id) e))

module _ (x : External) (rates : RateClient) (settings : Settings) (checked : IsChecked settings)
    (rows written : x.D → List ProcessedTransaction)
    (kept : ProcessedTransaction → ProcessedTransaction)
    (laws : IsPostgres x.session rows written kept) (ev : TransactionEvent) where
  -- No transaction is open, and the table has grown by the event at most.
  abbrev IsAbout : List ProcessedTransaction → x.R → x.D → Type 0
  IsAbout before r d = (written d ≡ []) × MayAdd kept ev before (rows d)

  with_idle :
      (before : List ProcessedTransaction) (r : x.R) (d : x.D) (res : Result Bool)
      → written d ≡ []
      → After (λ b t. Settled kept ev b before t) (λ e t. MayAdd kept ev before t) res (rows d)
      → After
          (λ b t. (written t ≡ []) × Settled kept ev b before (rows t))
          (λ e t. IsAbout before r t)
          res
          d
  with_idle before r d (ok b) i h = (i, h)
  with_idle before r d (err e) i h = (i, h)

  once :
      (before : List ProcessedTransaction) (row : ProcessedTransaction) (r : x.R) (d : x.D)
      → IsRowOf ev row
      → IsAbout before r d
      → After
          (λ b t. (written t ≡ []) × Settled kept ev b before (rows t))
          (λ e t. IsAbout before r t)
          (insert_ignore_duplicate x.session row d).0
          (insert_ignore_duplicate x.session row d).1
  once before row r d a (idle, m) =
      let (ins, i) = insert_ignore_duplicate-Inserts x.session rows written kept laws row d idle in
      with_idle before r _ _ i (tried_again kept ev laws.stored_id row a before (rows d) _ _ m ins)

  conclude :
      (before : List ProcessedTransaction) (res : Result Outcome) (w : World x)
      → After
          (λ o v.
            (row : ProcessedTransaction) × IsRowOf ev row
            × ((written v.db ≡ []) × Settled kept ev (is_new o) before (rows v.db)))
          (λ e v. IsAbout before v.redis v.db)
          res
          w
      → Applies kept ev res before (rows w.db) × (written w.db ≡ [])
  conclude before (ok processed) w (row, a, (i, h)) = (h, i)
  conclude before (ok duplicate) w (row, a, (i, h)) = (h, i)
  conclude before (err e) w (i, h) = (h, i)

  -- `process`, with its lookups and retries, is one atomic step on the table, however it ends: from
  -- a state with no open transaction it adds at most one row, which carries the event's fields and
  -- the amount converted at the row's rate, and only if the event's id was new. If it returns
  -- `processed` it has added that row; if it returns `duplicate` the id is in the table; if it
  -- raises it has added the row or left the table as it was; no transaction stays open. This is
  -- provided the settings passed validation and Postgres behaves as documented.
  pub process-Applies :
      (w : World x)
      → written w.db ≡ []
      → let res = process x rates settings ev w in
        Applies kept ev res.0 (rows w.db) (rows res.1.db) × (written res.1.db ≡ [])
  process-Applies w idle = conclude (rows w.db) _ _ (
      (process-Triple x rates settings checked ev (IsAbout (rows w.db))
          (λ row b r d. (written d ≡ []) × Settled kept ev b (rows w.db) (rows d))
          (once (rows w.db))).at
        w (idle, inl refl))
