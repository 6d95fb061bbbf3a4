-- ===== src/Db/Repository/Insert.antt =====
-- The idempotent insert: what it does to the table on each way out.
use mathlib.Core.Path.{subst}
use txn_event_processor.Prelude.{
  Option-cases, Bool-cases, String, none, some, Bool, true, false, List, [], ◌∷◌, ◌≡◌, ◌⊎◌, inl,
  inr, arith,
}
use txn_event_processor.Core.Errors.{Exn}
use txn_event_processor.Action.{finally, Action, Result, ok, err, run-cases}
use txn_event_processor.Db.Models.{ProcessedTransaction, has_id, UniqueIds}
use txn_event_processor.Db.Session.{Session, IsPostgres}
use txn_event_processor.Db.Repository.{
  classify_db_error, is_db_exception, insert_and_commit, insert_ignore_duplicate, classified,
}

-- The tables that an insert of `r` may leave, by how the call ends.
abbrev pub Inserts :
    ProcessedTransaction
    → ProcessedTransaction
    → List ProcessedTransaction
    → Result Bool
    → List ProcessedTransaction
    → Type 0
Inserts r kept before (ok true) after = (has_id r.id before ≡ false) × (after ≡ kept ∷ before)
Inserts r kept before (ok false) after = (has_id r.id before ≡ true) × (after ≡ before)
Inserts r kept before (err _) after =
    (after ≡ before) ⊎ ((has_id r.id before ≡ false) × (after ≡ kept ∷ before))

Inserts-err :
    (r kept : ProcessedTransaction) (before after : List ProcessedTransaction) (res : Result Bool)
    (e : Exn)
    → Inserts r kept before res after
    → Inserts r kept before (err e) after
Inserts-err r kept before after (ok true) e h = inr h
Inserts-err r kept before after (ok false) e h = inl h.1
Inserts-err r kept before after (err _) e h = h

UniqueIds-new :
    (r kept : ProcessedTransaction) (before after : List ProcessedTransaction)
    → kept.id ≡ r.id
    → (has_id r.id before ≡ false) × (after ≡ kept ∷ before)
    → UniqueIds before
    → UniqueIds after
UniqueIds-new r kept before after e (new, p) u = rw p (rw e new, u)

Inserts-UniqueIds :
    (r kept : ProcessedTransaction) (before after : List ProcessedTransaction) (res : Result Bool)
    → kept.id ≡ r.id
    → Inserts r kept before res after
    → UniqueIds before
    → UniqueIds after
Inserts-UniqueIds r kept before after (ok true) e h u = UniqueIds-new r kept before after e h u
Inserts-UniqueIds r kept before after (ok false) e h u = rw h.1 u
Inserts-UniqueIds r kept before after (err _) e (inl same) u = rw same u
Inserts-UniqueIds r kept before after (err _) e (inr h) u = UniqueIds-new r kept before after e h u

-- Classification changes neither the state nor whether the call returns.
pub classified-cases :
    {D A : Type 0} (m : Action D A) (d : D)
    → ((a : A) × ((m d).0 ≡ ok a) × (classified m d ≡ (ok a, (m d).1)))
      ⊎ ((e x : Exn) × ((m d).0 ≡ err e) × (classified m d ≡ (err x, (m d).1)))
unfolding classified
classified-cases m d = elim (run-cases m d) [
  | inl (a, u, p) ↦ inl (a, ground arith, ground arith)
  | inr (e, u, p) ↦ elim (Bool-cases (is_db_exception e)) [
    | inr q ↦ inr (e, e, ground arith, ground arith)
    | inl q ↦ elim (Option-cases (classify_db_error e)) [
      | inl z ↦ inr (e, e, ground arith, ground arith)
      | inr (x, z) ↦ inr (e, x, ground arith, ground arith)
    ]
  ]
]

module _ {D : Type 0} (s : Session D) (rows written : D → List ProcessedTransaction)
    (stored : ProcessedTransaction → ProcessedTransaction) (laws : IsPostgres s rows written stored)
    (r : ProcessedTransaction) (d : D) (fresh : written d ≡ []) where
  abbrev InsertsFrom : Result Bool → D → Type 0
  InsertsFrom res v = Inserts r (stored r) (rows d) res (rows v)

  commit_new :
      (u : D) (i : String)
      → s.insert_returning r d ≡ (ok (some i), u)
      → InsertsFrom (insert_and_commit s r d).0 (insert_and_commit s r d).1
  unfolding insert_and_commit
  commit_new u i p = elim (run-cases s.commit u) [
    | inl (_, v, q) ↦ ground (arith, laws.insert_rows r d, laws.insert_new r d i, laws.commit_ok u)
    | inr (e, v, q) ↦
        ground (arith, laws.insert_rows r d, laws.insert_new r d i, laws.commit_err u e)
  ]

  commit_duplicate :
      (u : D)
      → s.insert_returning r d ≡ (ok none, u)
      → InsertsFrom (insert_and_commit s r d).0 (insert_and_commit s r d).1
  unfolding insert_and_commit
  commit_duplicate u p = elim (run-cases s.commit u) [
    | inl (_, v, q) ↦
        ground (arith, laws.insert_rows r d, laws.insert_conflict r d, laws.commit_ok u)
    | inr (e, v, q) ↦
        ground (arith, laws.insert_rows r d, laws.insert_conflict r d, laws.commit_err u e)
  ]

  insert_and_commit-Inserts : InsertsFrom (insert_and_commit s r d).0 (insert_and_commit s r d).1
  insert_and_commit-Inserts = elim (run-cases (s.insert_returning r) d) [
    | inr (e, u, p) ↦ unfold insert_and_commit in ground (arith, laws.insert_rows r d)
    | inl (some i, u, p) ↦ commit_new u i p
    | inl (none, u, p) ↦ commit_duplicate u p
  ]

  in_session-Inserts :
      let m = finally (insert_and_commit s r) s.close in
      InsertsFrom (m d).0 (m d).1 × (written (m d).1 ≡ [])
  in_session-Inserts =
      let b = insert_and_commit s r d in
      let h = insert_and_commit-Inserts in
      elim (run-cases s.close b.1) [
        | inl (_, v, q) ↦ ground (arith, laws.close_rows b.1, laws.close_written b.1)
        | inr (e, v, q) ↦ ground (
          arith,
          laws.close_rows b.1,
          laws.close_written b.1,
          Inserts-err r (stored r) (rows d) (rows b.1) b.0 e,
        )
      ]

  -- From a session with no open transaction, an insert that returns `True` found a new id and added
  -- exactly this row as the column types hold it; one that returns `False` found the id present and
  -- left the table as it was; one that raises left the table as it was or added the row under a new
  -- id. In each case no transaction stays open, if Postgres behaves as documented.
  pub insert_ignore_duplicate-Inserts :
      let res = insert_ignore_duplicate s r d in
      Inserts r (stored r) (rows d) res.0 (rows res.1) × (written res.1 ≡ [])
  unfolding insert_ignore_duplicate
  insert_ignore_duplicate-Inserts =
      let m = finally (insert_and_commit s r) s.close in
      let h = in_session-Inserts in
      elim (classified-cases m d) [
        | inl (a, p, q) ↦
            rw q (subst (λ res. Inserts r (stored r) (rows d) res (rows (m d).1)) p h.0, h.1)
        | inr (e, x, p, q) ↦
            rw q (Inserts-err r (stored r) (rows d) (rows (m d).1) (m d).0 x h.0, h.1)
      ]

  -- From a session with no open transaction, an insert keeps the ids of the committed rows unique,
  -- however it ends, if Postgres behaves as documented.
  pub insert_ignore_duplicate-UniqueIds :
      UniqueIds (rows d) → UniqueIds (rows (insert_ignore_duplicate s r d).1)
  insert_ignore_duplicate-UniqueIds u =
      Inserts-UniqueIds r (stored r) _ _ _ (laws.stored_id r) insert_ignore_duplicate-Inserts.0 u
