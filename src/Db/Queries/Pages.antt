-- ===== src/Db/Queries/Pages.antt =====
-- `list_user_transactions` of app/db/repository.py: limit/offset paging over separate calls.
use mathlib.Core.Path.{subst, ap₂}
use mathlib.Core.List.{Perm, Mem}
use mathlib.Core.List.Perm
use mathlib.Core.List
use mathlib.Core.Nat
use txn_event_processor.Prelude.{
  inl, inr, Bool-cases, Bool-cases, ℕ, zero, suc, String, Option, Bool, false, List, [], ◌∷◌, ◌≡◌,
  arith, refl, length, take, drop, ◌+◌, ◌-◌, ◌++◌, sym, ◌∙◌, ap, keep, min,
}
use txn_event_processor.Action.{ok}
use txn_event_processor.Schemas.Datetime.{Datetime}
use txn_event_processor.Db.Models.{ProcessedTransaction, UniqueIds, has_id}
use txn_event_processor.Db.Session.{Session}
use txn_event_processor.Db.Repository.{list_user_transactions, list_conditions, rows_stmt}
use txn_event_processor.Db.Queries.{ℤ, IsQueryable, IsPage, matching}
use txn_event_processor.Db.Queries.Order.{UniqueIds-IdsTell, one_order}
use txn_event_processor.Db.Queries.Ranges.{list_returns, list_total}

abbrev count_of : Nat.ℕ → ℕ
count_of Nat.zero = 0
count_of (Nat.suc n) = suc (count_of n)

zero_plus : (n : ℕ) → n ≡ 0 + n
zero_plus n = omega arith

suc_plus : (m n : ℕ) → suc (m + n) ≡ suc m + n
suc_plus m n = omega arith

module _ {A : Type 0} where
  take-nil : (n : ℕ) → take {A = A} n [] ≡ []
  take-nil zero = refl
  take-nil (suc n) = refl

  drop-nil : (n : ℕ) → drop {A = A} n [] ≡ []
  drop-nil zero = refl
  drop-nil (suc n) = refl

  take-join : (n m : ℕ) (l : List A) → take n l ++ take m (drop n l) ≡ take (n + m) l
  take-join zero m l = ap (λ k. take k l) (zero_plus m)
  take-join (suc n) m [] = take-nil m ∙ sym (take-nil (suc n + m))
  take-join (suc n) m (x ∷ l) =
      ap (λ t. x ∷ t) (take-join n m l) ∙ ap (λ k. take k (x ∷ l)) (suc_plus n m)

  drop-drop : (o n : ℕ) (l : List A) → drop n (drop o l) ≡ drop (o + n) l
  drop-drop zero n l = ap (λ k. drop k l) (zero_plus n)
  drop-drop (suc o) n [] = drop-nil n ∙ sym (drop-nil (suc o + n))
  drop-drop (suc o) n (x ∷ l) = drop-drop o n l ∙ ap (λ k. drop k (x ∷ l)) (suc_plus o n)

  length-take : (n : ℕ) (l : List A) → length (take n l) ≡ min n (length l)
  length-take zero l = omega arith
  length-take (suc n) [] = omega arith
  length-take (suc n) (x ∷ l) = omega (arith, length-take n l)

  length-drop : (o : ℕ) (l : List A) → length (drop o l) ≡ length l - o
  length-drop zero l = omega arith
  length-drop (suc o) [] = omega arith
  length-drop (suc o) (x ∷ l) = omega (arith, length-drop o l)

  -- The library's `length` counts in its own numbers.
  length-count_of : (l : List A) → length l ≡ count_of (List.length l)
  length-count_of [] = refl
  length-count_of (x ∷ l) = ap suc (length-count_of l)

  pub Perm-length : {l r : List A} → Perm l r → length l ≡ length r
  Perm-length {l} {r} p =
      length-count_of l ∙ ap count_of (Perm.length-eq p) ∙ sym (length-count_of r)

keep-has_id :
    (p : ProcessedTransaction → Bool) (i : String) (l : List ProcessedTransaction)
    → has_id i l ≡ false
    → has_id i (keep p l) ≡ false
keep-has_id p i [] h = refl
keep-has_id p i (x ∷ l) h = elim (Bool-cases (p x)) [
  | inl e ↦ ground (arith, keep-has_id p i l)
  | inr e ↦ ground (arith, keep-has_id p i l)
]

keep-UniqueIds :
    (p : ProcessedTransaction → Bool) (l : List ProcessedTransaction)
    → UniqueIds l
    → UniqueIds (keep p l)
keep-UniqueIds p [] u = tt
keep-UniqueIds p (x ∷ l) (new, u) = elim (Bool-cases (p x)) [
  | inl e ↦ rw (e, UniqueIds) (keep-has_id p x.id l new, keep-UniqueIds p l u)
  | inr e ↦ rw (e, UniqueIds) (keep-UniqueIds p l u)
]

module _ {D : Type 0} (s : Session D) (rows : D → List ProcessedTransaction) (zone : ℕ → ℤ)
    (id_lt : String → String → Bool) (laws : IsQueryable s rows zone id_lt) where
  module _ (user : String) (start end : Option Datetime) where
    -- The page that a listing returns, as the statement on the table.
    pub list-IsPage :
        (limit offset : ℕ) (d : D) (page : List ProcessedTransaction) (total : ℕ)
        → (list_user_transactions s user start end limit offset d).0 ≡ ok (page, total)
        → IsPage zone id_lt (rows_stmt s user start end limit offset) (rows d) page
    list-IsPage limit offset d page total h =
        laws.select_page (rows_stmt s user start end limit offset) d page
          (list_returns s user start end limit offset d page total h).0

    -- The page that a listing returns has `limit` rows, or fewer where `total` leaves fewer from
    -- the offset on, provided the database runs SELECT as documented.
    pub list-length :
        (limit offset : ℕ) (d : D) (page : List ProcessedTransaction) (total : ℕ)
        → (list_user_transactions s user start end limit offset d).0 ≡ ok (page, total)
        → length page ≡ min limit (total - offset)
    unfolding rows_stmt
    list-length limit offset d page total h =
        let p = list-IsPage limit offset d page total h in
        omega (
          arith,
          ap length p.is_slice,
          length-take limit (drop offset p.order),
          length-drop offset p.order,
          Perm-length p.is_perm,
          list_total s rows zone id_lt laws user start end limit offset d page total h,
        )

    -- All calls see one order of the matching rows.
    same_order :
        (l o m k : ℕ) (table p q : List ProcessedTransaction)
        → UniqueIds table
        → (a : IsPage zone id_lt (rows_stmt s user start end l o) table p)
          (b : IsPage zone id_lt (rows_stmt s user start end m k) table q)
        → a.order ≡ b.order
    unfolding rows_stmt
    same_order l o m k table p q u a b =
        one_order id_lt laws.id_lt_asym a.order b.order a.is_sorted b.is_sorted
          (Perm.trans a.is_perm (Perm.symm b.is_perm))
          λ x y i j.
            UniqueIds-IdsTell (matching zone (list_conditions s user start end) table)
              (keep-UniqueIds _ table u) x y ((Perm.mem_iff a.is_perm).0 i)
              ((Perm.mem_iff a.is_perm).0 j)

    -- Two pages that separate calls return, of `n` rows from `o` and of `m` rows from `o + n`,
    -- joined are the page of `n + m` rows from `o`: no row is skipped or repeated, also among equal
    -- timestamps, and however the database orders ties of a statement. This is provided the calls
    -- see the same rows, no two rows have one id, and the database runs SELECT as documented.
    pub pages_join :
        (c d e : D)
        → rows c ≡ rows e
        → rows d ≡ rows e
        → UniqueIds (rows e)
        → (n m o : ℕ) (p q l : List ProcessedTransaction) (i j k : ℕ)
        → (list_user_transactions s user start end n o c).0 ≡ ok (p, i)
        → (list_user_transactions s user start end m (o + n) d).0 ≡ ok (q, j)
        → (list_user_transactions s user start end (n + m) o e).0 ≡ ok (l, k)
        → p ++ q ≡ l
    unfolding rows_stmt
    pages_join c d e x y u n m o p q l i j k f g h =
        let stmt = rows_stmt s user start end in
        let a = subst (λ t. IsPage zone id_lt (stmt n o) t p) x (list-IsPage n o c p i f) in
        let b =
          subst (λ t. IsPage zone id_lt (stmt m (o + n)) t q) y (list-IsPage m (o + n) d q j g) in
        let w = list-IsPage (n + m) o e l k h in
        let first =
          a.is_slice ∙ ap (λ z. take n (drop o z)) (same_order n o (n + m) o (rows e) p l u a w) in
        let second =
          b.is_slice
          ∙ ap (λ z. take m (drop (o + n) z)) (same_order m (o + n) (n + m) o (rows e) q l u b w)
          ∙ ap (take m) (sym (drop-drop o n w.order)) in
        ap₂ ◌++◌ first second ∙ take-join n m (drop o w.order) ∙ sym w.is_slice
