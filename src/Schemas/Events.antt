-- ===== src/Schemas/Events.antt =====
-- app/schemas/events.py: the transaction event as the client sends it and as the API accepts it.
use txn_event_processor.Prelude.{String, ◌≡◌}
use txn_event_processor.Core.Errors.{Exn, value_error}
use txn_event_processor.Action.{Result, ok, err}
use txn_event_processor.Money.{Decimal}
use txn_event_processor.Schemas.Datetime.{Datetime, assume_utc, assume_utc_idem}

pub record TransactionEventIn : Type 0 where
  pub id : String
  pub user_id : String
  pub amount : Decimal
  pub currency : String
  pub timestamp : Datetime

pub record TransactionEvent : Type 0 where
  pub event_in : TransactionEventIn
  pub open event_in use *
  pub received_at : Datetime

-- What the code takes from Python's `str` and from pydantic. `load_json` is pydantic's reading of a
-- JSON text into the fields of the model, before the model's own validators run.
pub record Pydantic : Type 0 where
  pub upper : String → String
  pub dump_json : TransactionEvent → String
  pub load_json : String → Result TransactionEvent

-- `str.upper` leaves upper-cased text alone; a text that was dumped loads as what was dumped; a text
-- that does not load is a `ValidationError`, which is a `ValueError`.
pub record IsPydantic (p : Pydantic) : Type 0 where
  pub upper_upper : (s : String) → p.upper (p.upper s) ≡ p.upper s
  pub load-dump : (ev : TransactionEvent) → p.load_json (p.dump_json ev) ≡ ok ev
  pub load_raises :
      (s : String) (e : Exn)
      → p.load_json s ≡ err e
      → (message : String) × (e ≡ value_error message)

module _ (p : Pydantic) where
  -- `TransactionEventIn._upper_currency`
  unfoldable pub upper_currency : String → String
  upper_currency value = p.upper value

  -- `TransactionEventIn._naive_timestamp_means_utc`
  unfoldable pub naive_timestamp_means_utc : Datetime → Datetime
  naive_timestamp_means_utc value = assume_utc value

  -- Building a model runs its field validators.
  unfoldable pub validate_in : TransactionEventIn → TransactionEventIn
  unfolding upper_currency naive_timestamp_means_utc
  validate_in v = record v {
    currency = upper_currency v.currency;
    timestamp = naive_timestamp_means_utc v.timestamp;
  }

  -- `TransactionEvent` has the inherited validators and none on `received_at`.
  unfoldable pub validate_event : TransactionEvent → TransactionEvent
  unfolding validate_in
  validate_event v = record v { event_in = validate_in v.event_in }

  -- `TransactionEvent(**payload.model_dump(), received_at=now)`
  unfoldable pub accept_event : TransactionEventIn → Datetime → TransactionEvent
  unfolding validate_event
  accept_event payload now = validate_event (record { event_in = payload; received_at = now })

-- Validating an event a second time changes nothing, if `str.upper` leaves upper-cased text alone.
pub validate_event_idem :
    (p : Pydantic)
    → IsPydantic p
    → (v : TransactionEvent) → validate_event p (validate_event p v) ≡ validate_event p v
unfolding validate_event
validate_event_idem p laws v = λ i. record {
  event_in = record {
    id = v.id;
    user_id = v.user_id;
    amount = v.amount;
    currency = laws.upper_upper v.currency i;
    timestamp = assume_utc_idem v.timestamp i;
  };
  received_at = v.received_at;
}
