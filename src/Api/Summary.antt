-- ===== src/Api/Summary.antt =====
-- `user_summary` of app/api/routes.py against the listing of the same user.
use mathlib.Core.List.{Perm}
use txn_event_processor.Prelude.{
  ℕ, zero, suc, String, none, Bool, List, [], ◌∷◌, ◌≡◌, ◌≤◌, refl, ap, sym, ◌∙◌, arith, take, keep,
  length, map, str_eq, Bool-cases, inl, inr,
}
use txn_event_processor.Money.{Decimal}
use txn_event_processor.Action.{finally, ok, run-cases}
use txn_event_processor.Schemas.Responses.{TransactionPage, UserSummary}
use txn_event_processor.Db.Models.{ProcessedTransaction}
use txn_event_processor.Prelude.Int.{ℤ}
use txn_event_processor.Db.Session.{
  Session, Condition, Column, amount_column, rate_column, amount_usd_column, user_is,
}
use txn_event_processor.Db.Repository.Insert.{classified-cases}
use txn_event_processor.Db.Repository.{user_summary}
use txn_event_processor.Db.Queries.{IsQueryable, matching}
use txn_event_processor.Db.Queries.Pages.{Perm-length}
use txn_event_processor.Services.External.{External}
use txn_event_processor.Services.World.{World}
use txn_event_processor.Api.{get_user_summary, user_transactions, transaction_out}
use txn_event_processor.Api.Listing.{shown, wanted, user_transactions-IsListing}

abbrev pub rows_of : String → List ProcessedTransaction → List ProcessedTransaction
rows_of user = keep (λ r. str_eq r.user_id user)

-- A column of a row.
abbrev pub value : Column → ProcessedTransaction → Decimal
value amount_column r = r.amount
value rate_column r = r.rate
value amount_usd_column r = r.amount_usd

abbrev pub values : Column → List ProcessedTransaction → List Decimal
values c = map (value c)

-- COALESCE(SUM(column), 0) and COUNT(*) of the rows that the conditions match, as documented; `sum_of`
-- is the sum of a column's values, which does not depend on their order.
pub record IsSummed {D : Type 0} (s : Session D) (rows : D → List ProcessedTransaction)
    (zone : ℕ → ℤ) (sum_of : List Decimal → Decimal) : Type 0 where
  pub any_order :
      (c : Column) (l m : List ProcessedTransaction)
      → Perm l m
      → sum_of (values c l) ≡ sum_of (values c m)
  pub sums :
      (c : Column) (cs : List Condition) (d : D) (total : Decimal) (n : ℕ)
      → (s.sum_and_count c cs d).0 ≡ ok (total, n)
      → (total ≡ sum_of (values c (matching zone cs (rows d))))
        × (n ≡ length (matching zone cs (rows d)))

matching-rows_of :
    (zone : ℕ → ℤ) (user : String) (l : List ProcessedTransaction)
    → matching zone (user_is user ∷ []) l ≡ rows_of user l
matching-rows_of zone user [] = refl
matching-rows_of zone user (r ∷ l) = elim (Bool-cases (str_eq r.user_id user)) [
  | inl e ↦ ground (arith, matching-rows_of zone user l)
  | inr e ↦ ground (arith, matching-rows_of zone user l)
]

wanted-rows_of :
    (user : String) (l : List ProcessedTransaction)
    → keep (wanted user none none) l ≡ rows_of user l
wanted-rows_of user [] = refl
wanted-rows_of user (r ∷ l) = elim (Bool-cases (str_eq r.user_id user)) [
  | inl e ↦ ground (arith, wanted-rows_of user l)
  | inr e ↦ ground (arith, wanted-rows_of user l)
]

values-out :
    (l : List ProcessedTransaction)
    → map (λ o. o.amount_usd) (map shown l) ≡ values amount_usd_column l
unfolding transaction_out
values-out [] = refl
values-out (r ∷ l) = ap (λ t. r.amount_usd ∷ t) (values-out l)

take_all : (n : ℕ) (l : List ProcessedTransaction) → length l ≤ n → take n l ≡ l
take_all zero [] h = refl
take_all zero (r ∷ l) h = absurd (omega (arith, h))
take_all (suc n) [] h = refl
take_all (suc n) (r ∷ l) h = ap (λ t. r ∷ t) (take_all n l (omega (arith, h)))

-- The query of a summary that returns has returned.
sum_returned :
    {D : Type 0} (s : Session D) (user : String) (d : D) (a : Decimal × ℕ)
    → (user_summary s user d).0 ≡ ok a
    → (s.sum_and_count amount_usd_column (user_is user ∷ []) d).0 ≡ ok a
unfolding user_summary
sum_returned s user d a h =
    elim (classified-cases (finally (s.sum_and_count amount_usd_column (user_is user ∷ [])) s.close)
      d) [
        | inr (_, _, _, c) ↦ absurd (ground arith)
        | inl (b, r, c) ↦
            elim (run-cases (s.sum_and_count amount_usd_column (user_is user ∷ [])) d) [
              | inl (b', v, e) ↦ elim (run-cases s.close v) [
                | inl (_, _, e') ↦ ground arith
                | inr (_, _, e') ↦ absurd (ground arith)
              ]
              | inr (e, v, p) ↦ elim (run-cases s.close v) [
                | inl (_, _, e') ↦ absurd (ground arith)
                | inr (_, _, e') ↦ absurd (ground arith)
              ]
            ]
      ]

module _ (x : External) (rows : x.D → List ProcessedTransaction) (zone : ℕ → _)
    (id_lt : String → String → Bool) (laws : IsQueryable x.session rows zone id_lt)
    (sum_of : List Decimal → Decimal) (summed : IsSummed x.session rows zone sum_of)
    (user : String) where
  -- What the summary is on the table.
  summary_sums :
      (w : World x) (s : UserSummary)
      → (get_user_summary x user w).0 ≡ ok s
      → (s.total_usd ≡ sum_of (values amount_usd_column (rows_of user (rows w.db))))
        × (s.transaction_count ≡ length (rows_of user (rows w.db)))
  unfolding get_user_summary
  summary_sums w s h = elim (run-cases (user_summary x.session user) w.db) [
    | inr (e, d, p) ↦ absurd (ground arith)
    | inl ((t, n), d, p) ↦
        let answer : s ≡ record { user_id = user; total_usd = t; transaction_count = n } =
          ground arith in
        let (a, b) =
          summed.sums amount_usd_column (user_is user ∷ []) w.db t n
            (sum_returned x.session user w.db (t, n) (ap (λ r. r.0) p)) in
        (
          ap (λ u. u.total_usd) answer
              ∙ a
              ∙ ap (λ k. sum_of (values amount_usd_column k))
                  (matching-rows_of zone user (rows w.db)),
          ap (λ u. u.transaction_count) answer
              ∙ b
              ∙ ap length (matching-rows_of zone user (rows w.db)),
        )
  ]

  -- The two read APIs agree: if `get_user_summary` returns, and `user_transactions` of the same
  -- user returns on the same rows, with no time bounds, offset 0 and a limit that is not below the
  -- total, then the summary's count is the number of the items and the total of that page, and its
  -- sum is the sum of `amount_usd` over the items. This is provided the database runs SELECT with
  -- COUNT and SUM as documented, and SUM does not depend on the order of the rows.
  pub get_user_summary-user_transactions :
      (w v : World x)
      → rows v.db ≡ rows w.db
      → (limit : ℕ) (s : UserSummary) (page : TransactionPage)
      → (get_user_summary x user w).0 ≡ ok s
      → (user_transactions x user none none limit 0 v).0 ≡ ok page
      → page.total ≤ limit
      → (s.transaction_count ≡ length page.items)
        × (s.transaction_count ≡ page.total)
        × (s.total_usd ≡ sum_of (map (λ o. o.amount_usd) page.items))
  get_user_summary-user_transactions w v same limit s page h k le =
      let l = user_transactions-IsListing x rows zone id_lt laws user none none limit 0 v page k in
      let (sum, count) = summary_sums w s h in
      let table : keep (wanted user none none) (rows v.db) ≡ rows_of user (rows w.db) =
        wanted-rows_of user (rows v.db) ∙ ap (rows_of user) same in
      let all : page.items ≡ map shown l.order =
        l.items ∙ ap (map shown) (take_all limit l.order (omega (arith, le, l.total))) in
      let counted : s.transaction_count ≡ page.total =
        count ∙ ap length (sym table) ∙ sym (Perm-length l.is_perm) ∙ sym l.total in
      (
        omega (arith, counted, l.count, le),
        counted,
        sum
            ∙ ap (λ t. sum_of (values amount_usd_column t)) (sym table)
            ∙ sym (
                summed.any_order amount_usd_column l.order
                  (keep (wanted user none none) (rows v.db)) l.is_perm)
            ∙ ap sum_of (sym (values-out l.order))
            ∙ ap (λ t. sum_of (map (λ o. o.amount_usd) t)) (sym all),
      )
