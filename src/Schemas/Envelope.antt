-- ===== src/Schemas/Envelope.antt =====
-- app/schemas/events.py: `StreamEnvelope`, what goes onto the Redis stream.
pub mod RoundTrip
use txn_event_processor.Prelude.{String, Option, none, some, List, [], ◌∷◌}
use txn_event_processor.Prelude.Int.{ℤ, pos}
use txn_event_processor.Prelude.Dict.{Dict, lookup}
use txn_event_processor.Core.Errors.{key_error, value_error}
use txn_event_processor.Action.{Result, ok, err}
use txn_event_processor.Schemas.IntText.{str_int, int_of_text}
use txn_event_processor.Schemas.Events.{TransactionEvent, Pydantic, validate_event}

-- A stream entry: a flat map from text to text.
abbrev pub Fields : Type 0
Fields = Dict String

pub record StreamEnvelope : Type 0 where
  pub schema_version : ℤ
  pub payload : String

-- `StreamEnvelope(payload=payload)`: `schema_version: int = 1`.
unfoldable pub new_envelope : String → StreamEnvelope
new_envelope payload = record { schema_version = pos 1; payload = payload }

-- `d[key]`
abbrev pub get_item : String → Fields → Result String
get_item key d = elim (lookup key d) [ none ↦ err (key_error key) | some v ↦ ok v ]

-- `int(text)`
abbrev pub parse_int : String → Result ℤ
parse_int s = elim (int_of_text s) [
  | none ↦ err (value_error "invalid literal for int() with base 10")
  | some n ↦ ok n
]

infixl 5 ◌>>=◌
abbrev pub ◌>>=◌ : {A B : Type 0} → Result A → (A → Result B) → Result B
ok a >>= f = f a
err e >>= f = err e

unfoldable pub to_fields : StreamEnvelope → Result Fields
unfolding str_int
to_fields e = do
  version_text ← str_int e.schema_version
  ok (("schema_version", version_text) ∷ ("payload", e.payload) ∷ [])

unfoldable pub from_fields : Fields → Result StreamEnvelope
from_fields fields = do
  version_text ← get_item "schema_version" fields
  version ← parse_int version_text
  payload ← get_item "payload" fields
  ok (record { schema_version = version; payload = payload })

-- `TransactionEvent.model_validate_json(self.payload)`
unfoldable pub to_event : Pydantic → StreamEnvelope → Result TransactionEvent
to_event p e = do ev ← p.load_json e.payload; ok (validate_event p ev)

-- `StreamEnvelope.from_fields(fields).to_event()`
unfoldable pub parse_fields : Pydantic → Fields → Result TransactionEvent
unfolding from_fields to_event
parse_fields p fields = do e ← from_fields fields; to_event p e
