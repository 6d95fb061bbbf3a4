-- ===== src/Api/Listing.antt =====
-- `user_transactions` of app/api/routes.py: what the response of a listing holds.
use mathlib.Core.List.{Perm, Pairwise}
use txn_event_processor.Prelude.{
  Option-cases, ℕ, String, Option, none, some, Bool, true, List, [], ◌∷◌, ◌≡◌, refl, ap, sym,
  Option-cases, ◌∙◌, arith, ◌&&◌, take, drop, keep, length, min, ◌-◌, suc, map, str_eq, inl, inr,
}
use mathlib.Core.Option
use mathlib.Core.Path.{subst}
use txn_event_processor.Prelude.Int.{ℤ, ◌-ℤ◌, leb_ℤ, ltb_ℤ}
use txn_event_processor.Action.{ok, run-cases}
use txn_event_processor.Schemas.Datetime.{Datetime, instant, assume_utc}
use txn_event_processor.Schemas.Responses.{TransactionPage}
use txn_event_processor.Db.Models.{ProcessedTransaction}
use txn_event_processor.Db.Session.{timestamp_desc, id_desc}
use txn_event_processor.Db.Repository.{list_conditions, rows_stmt, list_user_transactions}
use txn_event_processor.Db.Queries.{IsQueryable, MayPrecede, moment, holds_all, matching}
use txn_event_processor.Db.Queries.Pages.{list-IsPage, list-length, Perm-length}
use txn_event_processor.Db.Queries.Ranges.{list_total}
use txn_event_processor.Services.External.{External}
use txn_event_processor.Services.World.{World}
use txn_event_processor.Api.{TransactionOut, user_transactions, transaction_out}

-- The rows that a request asks for: of the user, not before `from_`, and before `to`, on the UTC time
-- line, where a bound with no offset is a reading of UTC.
abbrev is_from : Option Datetime → ProcessedTransaction → Bool
is_from none r = true
is_from (some t) r = leb_ℤ (instant t) (instant r.timestamp)

abbrev is_until : Option Datetime → ProcessedTransaction → Bool
is_until none r = true
is_until (some t) r = ltb_ℤ (instant r.timestamp) (instant t)

abbrev pub wanted : String → Option Datetime → Option Datetime → ProcessedTransaction → Bool
wanted user from_ to r = str_eq r.user_id user && is_from from_ r && is_until to r

-- What the client is shown of a row: all but the time of processing.
abbrev pub shown : ProcessedTransaction → TransactionOut
shown r = record {
  id = r.id;
  user_id = r.user_id;
  amount = r.amount;
  currency = r.currency;
  rate = r.rate;
  amount_usd = r.amount_usd;
  timestamp = r.timestamp;
}

-- The response to a request on a table: the wanted rows, the newest first and by id among equal
-- timestamps, from `offset` on and `limit` at most, with the number of all of them; there are `limit` items, or fewer where the offset leaves fewer.
pub record IsListing (id_lt : String → String → Bool) (user : String) (from_ to : Option Datetime)
    (limit offset : ℕ) (table : List ProcessedTransaction) (page : TransactionPage) : Type 0 where
  pub order : List ProcessedTransaction
  pub is_perm : Perm order (keep (wanted user from_ to) table)
  pub is_sorted : Pairwise (MayPrecede id_lt (timestamp_desc ∷ id_desc ∷ [])) order
  pub items : page.items ≡ map shown (take limit (drop offset order))
  pub total : page.total ≡ length order
  pub count : length page.items ≡ min limit (page.total - offset)
  pub same_limit : page.limit ≡ limit
  pub same_offset : page.offset ≡ offset

-- The zone of the session does not matter once the offset is filled in.
moment-assume_utc : (zone : ℕ → ℤ) (t : Datetime) → moment zone (assume_utc t) ≡ instant t
unfolding assume_utc instant ◌-ℤ◌
moment-assume_utc zone t = elim (Option-cases t.tzinfo) [
  | inl e ↦ rw e (ground arith)
  | inr (o, e) ↦ rw e refl
]

holds_all-wanted :
    {D : Type 0} (s : _) (zone : ℕ → ℤ) (user : String) (from_ to : Option Datetime)
    (r : ProcessedTransaction)
    → holds_all zone
        (list_conditions {D = D} s user (Option.map assume_utc from_) (Option.map assume_utc to))
        r
      ≡ wanted user from_ to r
unfolding list_conditions
holds_all-wanted s zone user none none r = ground arith
holds_all-wanted s zone user none (some t) r = rw (moment-assume_utc zone t) (ground arith)
holds_all-wanted s zone user (some f) none r = rw (moment-assume_utc zone f) (ground arith)
holds_all-wanted s zone user (some f) (some t) r =
    rw (moment-assume_utc zone f, moment-assume_utc zone t) (ground arith)

keep-ext :
    (p q : ProcessedTransaction → Bool)
    → ((r : ProcessedTransaction) → p r ≡ q r)
    → (l : List ProcessedTransaction) → keep p l ≡ keep q l
keep-ext p q h l = ap (λ f. keep f l) (λ i r. h r i)

length-map : (l : List ProcessedTransaction) → length (map transaction_out l) ≡ length l
length-map [] = refl
length-map (r ∷ l) = ap suc (length-map l)

-- If `user_transactions` returns a page, then its total is the number of the user's rows not before
-- `from` and before `to`, and its items are these rows, newest first and by id among equal
-- timestamps, from the offset on and `limit` many or as many as are left. A bound with no offset
-- counts as UTC, whatever the time zone of the database session. This is provided the database runs
-- SELECT as documented and no other session commits between the two queries.
pub user_transactions-IsListing :
    (x : External) (rows : x.D → List ProcessedTransaction) (zone : ℕ → ℤ)
    (id_lt : String → String → Bool)
    → IsQueryable x.session rows zone id_lt
    → (user : String) (from_ to : Option Datetime) (limit offset : ℕ) (w : World x)
      (page : TransactionPage)
    → (user_transactions x user from_ to limit offset w).0 ≡ ok page
    → IsListing id_lt user from_ to limit offset (rows w.db) page
unfolding user_transactions rows_stmt transaction_out
user_transactions-IsListing x rows zone id_lt laws user from_ to limit offset w page h =
    let start = Option.map assume_utc from_ in
    let end = Option.map assume_utc to in
    elim (run-cases (list_user_transactions x.session user start end limit offset) w.db) [
      | inr (e, d, p) ↦ absurd (ground arith)
      | inl ((l, total), d, p) ↦
          let ran : (list_user_transactions x.session user start end limit offset w.db).0
              ≡ ok (l, total) =
            ap (λ r. r.0) p in
          let q =
            list-IsPage x.session rows zone id_lt laws user start end limit offset w.db l total
              ran in
          let same : matching zone (list_conditions x.session user start end) (rows w.db)
              ≡ keep (wanted user from_ to) (rows w.db) =
            keep-ext _ _ (holds_all-wanted x.session zone user from_ to) (rows w.db) in
          let answer : page ≡ record {
            items = map transaction_out l;
            total = total;
            limit = limit;
            offset = offset;
          } =
            ground arith in
          record {
            order = q.order;
            is_perm = subst (Perm q.order) same q.is_perm;
            is_sorted = q.is_sorted;
            items = ap (λ a. a.items) answer ∙ ap (map transaction_out) q.is_slice;
            total =
                ap (λ a. a.total) answer
                ∙ list_total x.session rows zone id_lt laws user start end limit offset w.db l total
                    ran
                ∙ sym (Perm-length q.is_perm);
            count =
                ap (λ a. length a.items) answer
                ∙ length-map l
                ∙ list-length x.session rows zone id_lt laws user start end limit offset w.db l
                    total ran
                ∙ ap (λ a. min limit (a.total - offset)) (sym answer);
            same_limit = ap (λ a. a.limit) answer;
            same_offset = ap (λ a. a.offset) answer;
          }
    ]
