-- ===== src/Schemas/Responses.antt =====
-- app/schemas/responses.py: the bodies of the read APIs.
use txn_event_processor.Prelude.{String, ℕ, List}
use txn_event_processor.Money.{Decimal}
use txn_event_processor.Schemas.Datetime.{Datetime}

pub record AcceptedResponse : Type 0 where
  pub event_id : String
  pub stream_id : String

pub record UserSummary : Type 0 where
  pub user_id : String
  pub total_usd : Decimal
  pub transaction_count : ℕ

pub record TransactionOut : Type 0 where
  pub id : String
  pub user_id : String
  pub amount : Decimal
  pub currency : String
  pub rate : Decimal
  pub amount_usd : Decimal
  pub timestamp : Datetime

pub record TransactionPage : Type 0 where
  pub items : List TransactionOut
  pub total : ℕ
  pub limit : ℕ
  pub offset : ℕ

pub record ErrorBody : Type 0 where
  pub detail : String
