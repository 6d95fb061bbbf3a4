-- ===== src/Db/Models.antt =====
-- app/db/models.py: the one table.
use txn_event_processor.Prelude.{String, Bool, false, List, [], ◌∷◌, str_eq, ◌≡◌, ◌||◌}
use txn_event_processor.Money.{Decimal}
use txn_event_processor.Schemas.Datetime.{Datetime}

pub record ProcessedTransaction : Type 0 where
  pub id : String
  pub user_id : String
  pub amount : Decimal
  pub currency : String
  pub rate : Decimal
  pub amount_usd : Decimal
  pub timestamp : Datetime
  pub processed_at : Datetime

-- Whether a row with this primary key is in the table.
abbrev pub has_id : String → List ProcessedTransaction → Bool
has_id i [] = false
has_id i (r ∷ rows) = str_eq r.id i || has_id i rows

-- No two rows have one id.
abbrev pub UniqueIds : List ProcessedTransaction → Type 0
UniqueIds [] = Unit
UniqueIds (r ∷ rows) = (has_id r.id rows ≡ false) × UniqueIds rows
