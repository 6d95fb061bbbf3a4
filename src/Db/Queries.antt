-- ===== src/Db/Queries.antt =====
-- What the repository relies on about SELECT: the rows that conditions match, the order that ORDER BY
-- promises, and LIMIT and OFFSET.
pub mod Order
pub mod Ranges
pub mod Pages
use mathlib.Core.List.{Perm, Pairwise}
use txn_event_processor.Prelude.{
  none, some, ℕ, String, Bool, true, false, List, [], ◌∷◌, ◌≡◌, ◌⊎◌, str_eq, ◌&&◌, take, drop, keep,
  length,
}
use txn_event_processor.Prelude.Int.{ℤ, pos, ◌-ℤ◌, leb_ℤ, ltb_ℤ, ◌<ℤ◌}
use txn_event_processor.Action.{ok}
use txn_event_processor.Schemas.Datetime.{Datetime, instant}
use txn_event_processor.Db.Models.{ProcessedTransaction, UniqueIds}
use txn_event_processor.Db.Session.{
  Session, Select, Condition, user_is, not_before, before, OrderBy, timestamp_desc, id_desc,
}

-- The moment that the database takes a datetime in a statement for: `zone` gives the offset of the
-- session's time zone at a clock reading, in which it reads a naive one.
abbrev pub moment : (ℕ → ℤ) → Datetime → ℤ
moment zone t = elim t.tzinfo [
  | none ↦ pos t.local -ℤ zone t.local
  | some offset ↦ pos t.local -ℤ offset
]

module _ (zone : ℕ → ℤ) where
  abbrev pub holds : Condition → ProcessedTransaction → Bool
  holds (user_is u) r = str_eq r.user_id u
  holds (not_before t) r = leb_ℤ (moment zone t) (instant r.timestamp)
  holds (before t) r = ltb_ℤ (instant r.timestamp) (moment zone t)

  -- `WHERE a AND b AND ...`
  abbrev pub holds_all : List Condition → ProcessedTransaction → Bool
  holds_all [] r = true
  holds_all (c ∷ cs) r = holds c r && holds_all cs r

  abbrev pub matching : List Condition → List ProcessedTransaction → List ProcessedTransaction
  matching cs = keep (holds_all cs)

-- `id_lt` is the order of texts in the database's collation.
module _ (id_lt : String → String → Bool) where
  -- ORDER BY lets the first row stand before the second. Rows that tie in all keys may stand in
  -- either order.
  abbrev pub MayPrecede : List OrderBy → ProcessedTransaction → ProcessedTransaction → Type 0
  MayPrecede [] r s = Unit
  MayPrecede (timestamp_desc ∷ keys) r s =
      (instant s.timestamp <ℤ instant r.timestamp)
      ⊎ ((instant r.timestamp ≡ instant s.timestamp) × MayPrecede keys r s)
  MayPrecede (id_desc ∷ keys) r s = (id_lt s.id r.id ≡ true) ⊎ ((r.id ≡ s.id) × MayPrecede keys r s)

module _ (zone : ℕ → ℤ) (id_lt : String → String → Bool) where
  -- A result of the statement on a table: the rows that match, in some order that ORDER BY allows,
  -- from `offset` on and `limit` at most.
  pub record IsPage (q : Select) (table page : List ProcessedTransaction) : Type 0 where
    pub order : List ProcessedTransaction
    pub is_perm : Perm order (matching zone q.conditions table)
    pub is_sorted : Pairwise (MayPrecede id_lt q.order_by) order
    pub is_slice : page ≡ take q.limit (drop q.offset order)

-- A session answers queries on the committed rows, and no other session commits between the two
-- queries of one operation.
pub record IsQueryable {D : Type 0} (s : Session D) (rows : D → List ProcessedTransaction)
    (zone : ℕ → ℤ) (id_lt : String → String → Bool) : Type 0 where
  pub id_lt_asym : (i j : String) → id_lt i j ≡ true → id_lt j i ≡ false
  pub select_page :
      (q : Select) (d : D) (page : List ProcessedTransaction)
      → (s.select_rows q d).0 ≡ ok page
      → IsPage zone id_lt q (rows d) page
  pub select_same : (q : Select) (d : D) → rows (s.select_rows q d).1 ≡ rows d
  pub count_all :
      (cs : List Condition) (d : D) (n : ℕ)
      → (s.count_rows cs d).0 ≡ ok n
      → n ≡ length (matching zone cs (rows d))
