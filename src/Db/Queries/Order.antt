-- ===== src/Db/Queries/Order.antt =====
-- Why ORDER BY timestamp DESC, id DESC leaves one order of rows with different ids.
use mathlib.Core.Path.{ap₂}
use mathlib.Core.Logic.Or
use Prim.Native.Char.{IsScalar}
use text.Mathlib.TextEquality.{IsScalar-prop}
use native.Mathlib.Nat.{ℕ_set}
use mathlib.Core.HLevel.{prop→set}
use txn_event_processor.Prelude.{ℕ}
use mathlib.Core.List.{
  not-mem-nil, Mem, Perm, Pairwise, mem-cons_self, mem-cons_of_mem, eq-or-mem_of_mem-cons,
}
use mathlib.Core.List.Pairwise
use mathlib.Core.List.Perm
use txn_event_processor.Prelude.{
  String, Bool, true, false, List, [], ◌∷◌, ◌≡◌, inl, inr, sym, ap, ◌∙◌, arith, eq_iff,
}
use txn_event_processor.Prelude.Int.{pos_part, neg_part}
use txn_event_processor.Db.Models.{ProcessedTransaction, UniqueIds, has_id}
use txn_event_processor.Db.Session.{timestamp_desc, id_desc}
use txn_event_processor.Db.Queries.{MayPrecede}

IsScalar-set : (n : ℕ) → IsSet (IsScalar n)
IsScalar-set n = prop→set (IsScalar-prop n)

row_set : IsSet ProcessedTransaction
row_set = hlevel (ℕ_set, IsScalar-set)

-- The ids tell the rows of a list apart.
abbrev pub IdsTell : List ProcessedTransaction → Type 0
IdsTell l = (r s : ProcessedTransaction) → Mem r l → Mem s l → r.id ≡ s.id → r ≡ s

Bool_set : IsSet Bool
Bool_set = hlevel

Mem-has_id :
    (r : ProcessedTransaction) (l : List ProcessedTransaction) → Mem r l → has_id r.id l ≡ true
Mem-has_id r [] m = absurd (not-mem-nil m)
Mem-has_id r (s ∷ l) m =
    Or.elim (Bool_set _ _) (eq-or-mem_of_mem-cons m)
      (λ e. ground (arith, ap (λ (x : ProcessedTransaction). x.id) e, eq_iff s.id r.id))
      (λ n. ground (arith, Mem-has_id r l n))

-- A later row has another id than the first.
fresh :
    (r s : ProcessedTransaction) (l : List ProcessedTransaction)
    → has_id r.id l ≡ false
    → Mem s l
    → r.id ≡ s.id
    → ⊥
fresh r s l new m e = ground (arith, Mem-has_id s l m, ap (λ i. has_id i l) e)

pub UniqueIds-IdsTell : (l : List ProcessedTransaction) → UniqueIds l → IdsTell l
UniqueIds-IdsTell [] u r s m n e = absurd (not-mem-nil m)
UniqueIds-IdsTell (x ∷ l) (new, u) r s m n e =
    Or.elim (row_set r s) (eq-or-mem_of_mem-cons m)
      (λ p.
        Or.elim (row_set r s) (eq-or-mem_of_mem-cons n) (λ q. p ∙ sym q)
          λ n'. absurd (fresh x s l new n' (ap (λ (y : ProcessedTransaction). y.id) (sym p) ∙ e)))
      λ m'.
        Or.elim (row_set r s) (eq-or-mem_of_mem-cons n)
          (λ q.
            absurd (fresh x r l new m' (ap (λ (y : ProcessedTransaction). y.id) (sym q) ∙ sym e)))
          λ n'. UniqueIds-IdsTell l u r s m' n' e

module _ (id_lt : String → String → Bool)
    (asym : (i j : String) → id_lt i j ≡ true → id_lt j i ≡ false) where
  abbrev Before : ProcessedTransaction → ProcessedTransaction → Type 0
  Before = MayPrecede id_lt (timestamp_desc ∷ id_desc ∷ [])

  Before-antisym : (r s : ProcessedTransaction) → Before r s → Before s r → r.id ≡ s.id
  Before-antisym r s (inl p) (inl q) = absurd (omega arith)
  Before-antisym r s (inl p) (inr (e, _)) = absurd (omega (arith, ap pos_part e, ap neg_part e))
  Before-antisym r s (inr (e, _)) (inl q) = absurd (omega (arith, ap pos_part e, ap neg_part e))
  Before-antisym r s (inr (_, inr (e, _))) h = e
  Before-antisym r s (inr (_, inl _)) (inr (_, inr (e, _))) = sym e
  Before-antisym r s (inr (_, inl p)) (inr (_, inl q)) = absurd (ground (arith, asym s.id r.id p))

  heads_equal :
      (a b : ProcessedTransaction) (l r : List ProcessedTransaction)
      → Pairwise Before (a ∷ l)
      → Pairwise Before (b ∷ r)
      → Perm (a ∷ l) (b ∷ r)
      → IdsTell (a ∷ l)
      → a ≡ b
  heads_equal a b l r (Pairwise.cons f _) (Pairwise.cons g _) p tell =
      let mb = (Perm.mem_iff p).1 mem-cons_self in
      Or.elim (row_set a b) (eq-or-mem_of_mem-cons mb) (λ e. sym e)
        (λ m.
          Or.elim (row_set a b) (eq-or-mem_of_mem-cons ((Perm.mem_iff p).0 mem-cons_self)) (λ e. e)
            (λ n. tell a b mem-cons_self mb (Before-antisym a b (f b m) (g a n))))

  pub one_order :
      (l r : List ProcessedTransaction)
      → Pairwise Before l
      → Pairwise Before r
      → Perm l r
      → IdsTell l
      → l ≡ r
  one_order [] r _ _ p tell = Perm.nil-eq p
  one_order (a ∷ l) [] _ _ p tell = Perm.eq-nil p
  one_order (a ∷ l) (b ∷ r) sl sr p tell =
      let heads = heads_equal a b l r sl sr p tell in
      let tails = Perm.cons_inv (Perm.trans p (Perm.symm (Perm.cons' heads Perm.rfl))) in
      ap₂ ◌∷◌ heads (
        one_order l r (Pairwise.of_cons sl) (Pairwise.of_cons sr) tails
          λ x y m n. tell x y (mem-cons_of_mem a m) (mem-cons_of_mem a n))
