-- ===== src/Db/Queries/Ranges.antt =====
-- `list_user_transactions` of app/db/repository.py: what its total counts, by time range.
use txn_event_processor.Prelude.{
  Bool-cases, ℕ, String, Option, none, some, Bool, false, List, [], ◌∷◌, ◌≡◌, inl, inr, arith, refl,
  length, ◌+◌, ◌∙◌, ap, ◌&&◌, ◌||◌, keep,
}
use txn_event_processor.Prelude.Int.{◌≤ℤ◌}
use txn_event_processor.Action.{Action, ok, run-cases, finally, ◌>>=◌, pure}
use txn_event_processor.Schemas.Datetime.{Datetime}
use txn_event_processor.Db.Models.{ProcessedTransaction}
use txn_event_processor.Db.Session.{Session}
use txn_event_processor.Db.Repository.{
  list_user_transactions, list_conditions, rows_stmt, classified,
}
use txn_event_processor.Db.Repository.Insert.{classified-cases}
use txn_event_processor.Db.Queries.{moment, ℤ, IsQueryable, matching, holds_all}

abbrev both : {D A : Type 0} → Action D A → Action D ℕ → Action D (A × ℕ)
both m k = m >>= λ a. k >>= λ n. pure (a, n)

both_ran :
    {D A : Type 0} (m : Action D A) (k : Action D ℕ) (close : Action D (Unit {0})) (d : D) (a : A)
    (n : ℕ)
    → (classified (finally (both m k) close) d).0 ≡ ok (a, n)
    → ((m d).0 ≡ ok a) × ((k (m d).1).0 ≡ ok n)
both_ran m k close d a n h = elim (classified-cases (finally (both m k) close) d) [
  | inl (p, r, c) ↦ elim (run-cases m d) [
    | inl (b, v, e) ↦ elim (run-cases k v) [
      | inl (t, w, e') ↦ elim (run-cases close w) [
        | inl (_, _, e'') ↦ ground arith
        | inr (_, _, e'') ↦ absurd (ground arith)
      ]
      | inr (_, w, e') ↦ elim (run-cases close w) [
        | inl (_, _, e'') ↦ absurd (ground arith)
        | inr (_, _, e'') ↦ absurd (ground arith)
      ]
    ]
    | inr (b, v, e) ↦ elim (run-cases close v) [
      | inl (_, _, e'') ↦ absurd (ground arith)
      | inr (_, _, e'') ↦ absurd (ground arith)
    ]
  ]
  | inr (_, _, _, c) ↦ absurd (ground arith)
]

module _ {D : Type 0} (s : Session D) where
  -- A listing that returns has run its two queries, one after the other.
  pub list_returns :
      (user : String) (start end : Option Datetime) (limit offset : ℕ) (d : D)
      (page : List ProcessedTransaction) (total : ℕ)
      → (list_user_transactions s user start end limit offset d).0 ≡ ok (page, total)
      → ((s.select_rows (rows_stmt s user start end limit offset) d).0 ≡ ok page)
        × ((s.count_rows
              (list_conditions s user start end)
              (s.select_rows (rows_stmt s user start end limit offset) d).1).0
            ≡ ok total)
  unfolding list_user_transactions
  list_returns user start end limit offset d page total h =
      both_ran (s.select_rows (rows_stmt s user start end limit offset))
        (s.count_rows (list_conditions s user start end)) s.close d page total h

module _ {D : Type 0} (s : Session D) (rows : D → List ProcessedTransaction) (zone : ℕ → ℤ)
    (id_lt : String → String → Bool) (laws : IsQueryable s rows zone id_lt) where
  pub list_total :
      (user : String) (start end : Option Datetime) (limit offset : ℕ) (d : D)
      (page : List ProcessedTransaction) (total : ℕ)
      → (list_user_transactions s user start end limit offset d).0 ≡ ok (page, total)
      → total ≡ length (matching zone (list_conditions s user start end) (rows d))
  list_total user start end limit offset d page total h =
      let q = rows_stmt s user start end limit offset in
      laws.count_all (list_conditions s user start end) (s.select_rows q d).1 total
        (list_returns s user start end limit offset d page total h).1
      ∙ ap
          (λ (l : List ProcessedTransaction).
            length (matching zone (list_conditions s user start end) l))
          (laws.select_same q d)

-- `b` is not before the start, and not after the end.
abbrev pub IsFrom : (ℕ → ℤ) → Option Datetime → Datetime → Type 0
IsFrom zone none b = Unit
IsFrom zone (some a) b = moment zone a ≤ℤ moment zone b

abbrev pub IsUntil : (ℕ → ℤ) → Option Datetime → Datetime → Type 0
IsUntil zone none b = Unit
IsUntil zone (some c) b = moment zone b ≤ℤ moment zone c

-- Two tests that no entry passes both of, against the test that asks for either.
keep-length :
    {A : Type 0} (p q r : A → Bool)
    → ((x : A) → ((p x && q x) ≡ false) × (r x ≡ (p x || q x)))
    → (l : List A) → length (keep p l) + length (keep q l) ≡ length (keep r l)
keep-length p q r h [] = refl
keep-length p q r h (x ∷ l) =
    let ih = keep-length p q r h l in
    elim (Bool-cases (p x)) [
      | inl e ↦ elim (Bool-cases (q x)) [
        | inl e' ↦ absurd (ground (arith, h x))
        | inr e' ↦ ground (arith, h x)
      ]
      | inr e ↦ elim (Bool-cases (q x)) [
        | inl e' ↦ ground (arith, h x)
        | inr e' ↦ ground (arith, h x)
      ]
    ]

module _ {D : Type 0} (s : Session D) (zone : ℕ → ℤ) (user : String) (b : Datetime) where
  -- A row is in [start, end) when it is in [start, b) or in [b, end), and in both never.
  splits :
      (start end : Option Datetime)
      → IsFrom zone start b
      → IsUntil zone end b
      → (r : ProcessedTransaction)
      → ((holds_all zone (list_conditions s user start (some b)) r
            && holds_all zone (list_conditions s user (some b) end) r)
          ≡ false)
        × (holds_all zone (list_conditions s user start end) r ≡ (
            holds_all zone (list_conditions s user start (some b)) r
            || holds_all zone (list_conditions s user (some b) end) r))
  unfolding list_conditions
  splits none none f u r = ground arith
  splits none (some c) f u r = ground arith
  splits (some a) none f u r = ground arith
  splits (some a) (some c) f u r = ground arith

module _ {D : Type 0} (s : Session D) (rows : D → List ProcessedTransaction) (zone : ℕ → ℤ)
    (id_lt : String → String → Bool) (laws : IsQueryable s rows zone id_lt) where
  -- Adjacent ranges tile: for `b` not before the start and not after the end, where either may be
  -- open, the totals that a listing returns for [start, b) and for [b, end) add up to the total for
  -- [start, end), whatever the limits and offsets, where a datetime with no offset is read in the
  -- time zone of the database session, provided the calls see the same rows and the database runs
  -- SELECT as documented.
  pub ranges_tile :
      (user : String) (start end : Option Datetime) (b : Datetime)
      → IsFrom zone start b
      → IsUntil zone end b
      → (c d e : D) → rows c ≡ rows e
      → rows d ≡ rows e
      → (l m n i j k : ℕ) (p q r : List ProcessedTransaction) (t v w : ℕ)
      → (list_user_transactions s user start (some b) l i c).0 ≡ ok (p, t)
      → (list_user_transactions s user (some b) end m j d).0 ≡ ok (q, v)
      → (list_user_transactions s user start end n k e).0 ≡ ok (r, w)
      → t + v ≡ w
  ranges_tile user start end b from til c d e x y l m n i j k p q r t v w f g h =
      let ct = list_total s rows zone id_lt laws user start (some b) l i c p t f in
      let cv = list_total s rows zone id_lt laws user (some b) end m j d q v g in
      let cw = list_total s rows zone id_lt laws user start end n k e r w h in
      let kl =
        keep-length (holds_all zone (list_conditions s user start (some b)))
          (holds_all zone (list_conditions s user (some b) end))
          (holds_all zone (list_conditions s user start end))
          (splits s zone user b start end from til) (rows e) in
      omega (
        arith,
        ct ∙ ap (λ z. length (matching zone (list_conditions s user start (some b)) z)) x,
        cv ∙ ap (λ z. length (matching zone (list_conditions s user (some b) end) z)) y,
        cw,
        kl,
      )
