-- ===== src/Fakes/Query.antt =====
-- A session on a plain list of rows that runs SELECT: it sorts the matching rows, and answers when the
-- order is the one asked for.
use mathlib.Core.Logic.{∥∥₁_elim}
use mathlib.Core.Logic.Or
use txn_event_processor.Money.{Decimal}
use mathlib.Core.Path.{ap}
use mathlib.Core.List.{Mem, Perm, Pairwise, eq-or-mem_of_mem-cons, not-mem-nil}
use mathlib.Core.List.Perm
use Prim.Native.String.{compare}
use Prim.Native.String as Text
use Prim.Native.String.compare as compare_laws
use text.Mathlib.Text.{is_lt}
use txn_event_processor.Prelude.{
  ◌+◌, ℕ, ◌∙◌, ap, String, Bool, true, false, List, [], ◌∷◌, ◌≡◌, refl, arith, ◌&&◌, ◌||◌,
  if◌then◌else◌, take, drop, length, none, str_eq, eq_iff, inl, inr, Bool-cases,
}
use txn_event_processor.Prelude.Int.{neg, ℤ, leb_ℤ, ltb_ℤ, pos, eq_of_parts}
use txn_event_processor.Action.{ok, err}
use txn_event_processor.Core.Errors.{Exn, sqlalchemy_error}
use txn_event_processor.Schemas.Datetime.{instant}
use txn_event_processor.Db.Models.{ProcessedTransaction}
use txn_event_processor.Db.Session.{Column, Session, OrderBy, timestamp_desc, id_desc, Select}
use txn_event_processor.Api.Summary.{value, values, IsSummed}
use mathlib.Core.List.{Permᴰ}
use txn_event_processor.Db.Queries.{IsQueryable, IsPage, MayPrecede, matching}

abbrev pub id_lt : String → String → Bool
id_lt i j = is_lt (compare i j)

pub id_lt_asym : (i j : String) → id_lt i j ≡ true → id_lt j i ≡ false
id_lt_asym Text.[] Text.[] h = refl
id_lt_asym Text.[] (Text.◌∷◌ d t) h = rw (compare_laws.cons-nil d t) refl
id_lt_asym (Text.◌∷◌ c s) Text.[] h = absurd (ground (arith, compare_laws.cons-nil c s))
id_lt_asym (Text.◌∷◌ c s) (Text.◌∷◌ d t) h =
    ground (arith, compare_laws.cons-cons c d s t, compare_laws.cons-cons d c t s, id_lt_asym s t)

abbrev may_precede : List OrderBy → ProcessedTransaction → ProcessedTransaction → Bool
may_precede [] r s = true
may_precede (timestamp_desc ∷ keys) r s =
    let i = instant r.timestamp in
    let j = instant s.timestamp in ltb_ℤ j i || (leb_ℤ i j && leb_ℤ j i && may_precede keys r s)
may_precede (id_desc ∷ keys) r s = id_lt s.id r.id || (str_eq r.id s.id && may_precede keys r s)

MayPrecede-of_test :
    (keys : List OrderBy) (r s : ProcessedTransaction)
    → may_precede keys r s ≡ true
    → MayPrecede id_lt keys r s
MayPrecede-of_test [] r s h = tt
MayPrecede-of_test (timestamp_desc ∷ keys) r s h =
    elim (Bool-cases (ltb_ℤ (instant s.timestamp) (instant r.timestamp))) [
      | inl e ↦ inl (ground arith)
      | inr e ↦ inr (
        eq_of_parts (instant r.timestamp) (instant s.timestamp) (ground arith),
        MayPrecede-of_test keys r s (ground arith),
      )
    ]
MayPrecede-of_test (id_desc ∷ keys) r s h = elim (Bool-cases (id_lt s.id r.id)) [
  | inl e ↦ inl e
  | inr e ↦ inr (ground (arith, eq_iff r.id s.id), MayPrecede-of_test keys r s (ground arith))
]

-- The session's time zone is four hours ahead of UTC.
abbrev pub yerevan : ℕ → ℤ
yerevan n = pos 14400000000

abbrev place :
    List OrderBy → ProcessedTransaction → List ProcessedTransaction → List ProcessedTransaction
place keys r [] = r ∷ []
place keys r (s ∷ l) =
    let rest = place keys r l in if may_precede keys r s then r ∷ s ∷ l else s ∷ rest

abbrev sort : List OrderBy → List ProcessedTransaction → List ProcessedTransaction
sort keys [] = []
sort keys (r ∷ l) = place keys r (sort keys l)

place-perm :
    (keys : List OrderBy) (r : ProcessedTransaction) (l : List ProcessedTransaction)
    → Perm (place keys r l) (r ∷ l)
place-perm keys r [] = Perm.rfl
place-perm keys r (s ∷ l) = elim (Bool-cases (may_precede keys r s)) [
  | inl e ↦ rw e Perm.rfl
  | inr e ↦ rw e (Perm.trans (Perm.cons s (place-perm keys r l)) (Perm.swap r s l))
]

sort-perm : (keys : List OrderBy) (l : List ProcessedTransaction) → Perm (sort keys l) l
sort-perm keys [] = Perm.rfl
sort-perm keys (r ∷ l) =
    Perm.trans (place-perm keys r (sort keys l)) (Perm.cons r (sort-perm keys l))

-- Every row against every later one.
abbrev leads : List OrderBy → ProcessedTransaction → List ProcessedTransaction → Bool
leads keys r [] = true
leads keys r (s ∷ l) = may_precede keys r s && leads keys r l

abbrev is_ordered : List OrderBy → List ProcessedTransaction → Bool
is_ordered keys [] = true
is_ordered keys (r ∷ l) = leads keys r l && is_ordered keys l

Bool_set : IsSet Bool
Bool_set = hlevel

leads-Mem :
    (keys : List OrderBy) (r s : ProcessedTransaction) (l : List ProcessedTransaction)
    → leads keys r l ≡ true
    → Mem s l
    → may_precede keys r s ≡ true
leads-Mem keys r s [] h m = absurd (not-mem-nil m)
leads-Mem keys r s (x ∷ l) h m =
    Or.elim (Bool_set _ _) (eq-or-mem_of_mem-cons m) (λ e. ap (may_precede keys r) e ∙ ground arith)
      (λ n. leads-Mem keys r s l (ground arith) n)

is_ordered-Pairwise :
    (keys : List OrderBy) (l : List ProcessedTransaction)
    → is_ordered keys l ≡ true
    → Pairwise (MayPrecede id_lt keys) l
is_ordered-Pairwise keys [] h = Pairwise.nil
is_ordered-Pairwise keys (r ∷ l) h =
    Pairwise.cons (λ s m. MayPrecede-of_test keys r s (leads-Mem keys r s l (ground arith) m))
      (is_ordered-Pairwise keys l (ground arith))

-- The sum of amounts of one scale, none of them negative.
abbrev coeff_sum : List Decimal → ℕ
coeff_sum [] = 0
coeff_sum (a ∷ l) = a.coeff + coeff_sum l

abbrev pub add_up : List Decimal → Decimal
add_up l = record { negative = false; coeff = coeff_sum l; exp = neg 1 }

abbrev lost : Exn
lost = sqlalchemy_error (record { text = "no such order"; sqlstate = none; orig = none })

abbrev pub query_table : Session (List ProcessedTransaction)
query_table = record {
  insert_returning = λ r d. (ok none, r ∷ d);
  commit = λ d. (ok tt, d);
  close = λ d. (ok tt, d);
  sum_and_count =
      λ c cs d. let l = matching yerevan cs d in (ok (add_up (values c l), length l), d);
  select_rows = λ q d.
      let l = sort q.order_by (matching yerevan q.conditions d) in
      (if is_ordered q.order_by l then ok (take q.limit (drop q.offset l)) else err lost, d);
  count_rows = λ c d. (ok (length (matching yerevan c d)), d);
}

select-IsPage :
    (q : Select) (d page : List ProcessedTransaction)
    → (query_table.select_rows q d).0 ≡ ok page
    → IsPage yerevan id_lt q d page
select-IsPage q d page h =
    elim (Bool-cases (is_ordered q.order_by (sort q.order_by (matching yerevan q.conditions d)))) [
      | inl e ↦ record {
        order = sort q.order_by (matching yerevan q.conditions d);
        is_perm = sort-perm q.order_by (matching yerevan q.conditions d);
        is_sorted =
            is_ordered-Pairwise q.order_by (sort q.order_by (matching yerevan q.conditions d)) e;
        is_slice = ground arith;
      }
      | inr e ↦ absurd (ground arith)
    ]

pub query_table-IsQueryable : IsQueryable query_table (λ d. d) yerevan id_lt
query_table-IsQueryable = record {
  id_lt_asym = id_lt_asym;
  select_page = select-IsPage;
  select_same = λ q d. refl;
  count_all = λ c d n h. ground arith;
}

ℕ_hset : IsSet ℕ
ℕ_hset = hlevel

same_sum :
    (c : Column) {l m : List ProcessedTransaction}
    → Permᴰ l m
    → coeff_sum (values c l) ≡ coeff_sum (values c m)
same_sum c Permᴰ.nil = refl
same_sum c (Permᴰ.cons e d) = omega (arith, ap (λ r. (value c r).coeff) e, same_sum c d)
same_sum c (Permᴰ.swap e f) =
    omega (arith, ap (λ r. (value c r).coeff) e, ap (λ r. (value c r).coeff) f)
same_sum c (Permᴰ.trans d e) = same_sum c d ∙ same_sum c e

pub query_table-IsSummed : IsSummed query_table (λ d. d) yerevan add_up
query_table-IsSummed = record {
  any_order = λ col l m p.
      ap (λ c. record { negative = false; coeff = c; exp = neg 1 })
        (∥∥₁_elim p (ℕ_hset _ _) (same_sum col));
  sums = λ c cs d t n h. (ground arith, ground arith);
}
