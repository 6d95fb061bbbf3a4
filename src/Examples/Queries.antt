-- ===== src/Examples/Queries.antt =====
-- Listing one user's transactions, on three rows of which two tie in their timestamp.
use txn_event_processor.Prelude.{
  length, String, ℕ, some, none, List, [], ◌∷◌, ◌≡◌, ◌++◌, ◌+◌, refl, arith,
}
use txn_event_processor.Prelude.Int.{◌≤ℤ◌, pos, ◌-ℤ◌}
use txn_event_processor.Action.{ok}
use txn_event_processor.Schemas.Datetime.{assume_utc, Datetime, instant}
use txn_event_processor.Db.Models.{ProcessedTransaction}
use txn_event_processor.Db.Repository.{list_user_transactions}
use txn_event_processor.Db.Queries.{moment}
use txn_event_processor.Api.{user_transactions}
use txn_event_processor.Api.{get_user_summary}
use txn_event_processor.Db.Repository.{user_summary}
use txn_event_processor.Schemas.Responses.{UserSummary}
use txn_event_processor.Prelude.{map, false}
use txn_event_processor.Prelude.Int.{neg}
use txn_event_processor.Fakes.Query.{add_up, query_table-IsSummed}
use txn_event_processor.Api.Summary.{get_user_summary-user_transactions}
use txn_event_processor.Api.Listing.{IsListing, user_transactions-IsListing}
use txn_event_processor.Services.External.{External}
use txn_event_processor.Services.World.{World}
use txn_event_processor.Schemas.Responses.{TransactionOut, TransactionPage}
use txn_event_processor.Fakes.Site.{site, start, no_metrics}
use txn_event_processor.Db.Queries.Ranges.{ranges_tile}
use txn_event_processor.Db.Queries.Pages.{pages_join}
use txn_event_processor.Fakes.Query.{yerevan, query_table, query_table-IsQueryable, id_lt}
use txn_event_processor.Fakes.Site.{half}

abbrev at : ℕ → Datetime
at t = record { local = t; tzinfo = some (pos 0) }

abbrev row : String → ℕ → ProcessedTransaction
row i t = record {
  id = i;
  user_id = "u-1";
  amount = half;
  currency = "USD";
  rate = half;
  amount_usd = half;
  timestamp = at t;
  processed_at = at 9;
}

abbrev table : List ProcessedTransaction
table = row "e-1" 5 ∷ row "e-2" 5 ∷ row "e-3" 7 ∷ []

first_page :
    (list_user_transactions query_table "u-1" none none 2 0 table).0
    ≡ ok ((row "e-3" 7 ∷ row "e-2" 5 ∷ []), 3)
unfolding list_user_transactions instant ◌-ℤ◌
first_page = refl

second_page :
    (list_user_transactions query_table "u-1" none none 2 2 table).0 ≡ ok ((row "e-1" 5 ∷ []), 3)
unfolding list_user_transactions instant ◌-ℤ◌
second_page = refl

one_page :
    (list_user_transactions query_table "u-1" none none 4 0 table).0
    ≡ ok ((row "e-3" 7 ∷ row "e-2" 5 ∷ row "e-1" 5 ∷ []), 3)
unfolding list_user_transactions instant ◌-ℤ◌
one_page = refl

before_seven :
    (list_user_transactions query_table "u-1" (some (at 1)) (some (at 7)) 1 0 table).0
    ≡ ok ((row "e-2" 5 ∷ []), 2)
unfolding list_user_transactions instant ◌-ℤ◌
before_seven = refl

from_seven :
    (list_user_transactions query_table "u-1" (some (at 7)) none 1 0 table).0
    ≡ ok ((row "e-3" 7 ∷ []), 1)
unfolding list_user_transactions instant ◌-ℤ◌
from_seven = refl

from_one :
    (list_user_transactions query_table "u-1" (some (at 1)) none 1 0 table).0
    ≡ ok ((row "e-3" 7 ∷ []), 3)
unfolding list_user_transactions instant ◌-ℤ◌
from_one = refl

ordered : moment yerevan (at 1) ≤ℤ moment yerevan (at 7)
unfolding instant ◌-ℤ◌
ordered = omega arith

pages_join_example :
    (row "e-3" 7 ∷ row "e-2" 5 ∷ []) ++ (row "e-1" 5 ∷ [])
    ≡ row "e-3" 7 ∷ row "e-2" 5 ∷ row "e-1" 5 ∷ []
pages_join_example =
    pages_join query_table (λ d. d) yerevan id_lt query_table-IsQueryable "u-1" none none table
      table table refl refl (refl, (refl, (refl, tt))) 2 2 0 (row "e-3" 7 ∷ row "e-2" 5 ∷ [])
      (row "e-1" 5 ∷ []) (row "e-3" 7 ∷ row "e-2" 5 ∷ row "e-1" 5 ∷ []) 3 3 3 first_page second_page
      one_page

ranges_tile_example : 2 + 1 ≡ 3
ranges_tile_example =
    ranges_tile query_table (λ d. d) yerevan id_lt query_table-IsQueryable "u-1" (some (at 1)) none
      (at 7) ordered tt table table table refl refl 1 1 1 0 0 0 (row "e-2" 5 ∷ [])
      (row "e-3" 7 ∷ []) (row "e-3" 7 ∷ []) 2 1 3 before_seven from_seven from_one

abbrev query_site : External
query_site = record (site 200) { D = List ProcessedTransaction; session = query_table }

abbrev query_start : World query_site
query_start = record {
  redis = (start 200).redis;
  db = table;
  http = tt;
  time = 100;
  cache = [];
  metrics = no_metrics;
}

-- A bound with no offset.
abbrev naive : ℕ → Datetime
naive t = record { local = t; tzinfo = none }

abbrev out : String → ℕ → TransactionOut
out i t = record {
  id = i;
  user_id = "u-1";
  amount = half;
  currency = "USD";
  rate = half;
  amount_usd = half;
  timestamp = at t;
}

abbrev answer : TransactionPage
answer = record { items = out "e-2" 5 ∷ []; total = 2; limit = 1; offset = 0 }

answered :
    (user_transactions query_site "u-1" (some (naive 5)) (some (naive 7)) 1 0 query_start).0
    ≡ ok answer
unfolding user_transactions list_user_transactions instant ◌-ℤ◌ assume_utc
answered = refl

user_transactions-IsListing_example :
    IsListing id_lt "u-1" (some (naive 5)) (some (naive 7)) 1 0 table answer
user_transactions-IsListing_example =
    user_transactions-IsListing query_site (λ d. d) yerevan id_lt query_table-IsQueryable "u-1"
      (some (naive 5)) (some (naive 7)) 1 0 query_start answer answered

abbrev sum : UserSummary
sum = record {
  user_id = "u-1";
  total_usd = record { negative = false; coeff = 15; exp = neg 1 };
  transaction_count = 3;
}

abbrev everything : TransactionPage
everything = record {
  items = out "e-3" 7 ∷ out "e-2" 5 ∷ out "e-1" 5 ∷ [];
  total = 3;
  limit = 4;
  offset = 0;
}

summed : (get_user_summary query_site "u-1" query_start).0 ≡ ok sum
unfolding get_user_summary user_summary
summed = refl

listed : (user_transactions query_site "u-1" none none 4 0 query_start).0 ≡ ok everything
unfolding user_transactions list_user_transactions instant ◌-ℤ◌
listed = refl

get_user_summary-user_transactions_example :
    (sum.transaction_count ≡ length everything.items)
    × (sum.transaction_count ≡ everything.total)
    × (sum.total_usd ≡ add_up (map (λ o. o.amount_usd) everything.items))
get_user_summary-user_transactions_example =
    get_user_summary-user_transactions query_site (λ d. d) yerevan id_lt query_table-IsQueryable
      add_up query_table-IsSummed "u-1" query_start query_start refl 4 sum everything summed listed
      (omega arith)
