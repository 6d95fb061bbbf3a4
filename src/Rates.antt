-- ===== src/Rates.antt =====
-- rate_service/main.py: the rate service with its fault switch.
use Prim.Native.String.{◌++◌ as str_append}
use txn_event_processor.Prelude.{ℕ, String, none, some, [], ◌∷◌}
use txn_event_processor.Prelude.Dict.{Dict, lookup}
use txn_event_processor.Core.Errors.{http_exception}
use txn_event_processor.Action.{Action, ok, pure, raise, gets, ◌>>=◌, ◌>>◌}

abbrev pub rate_table : Dict String
rate_table =
    ("USD", "1")
    ∷ ("EUR", "1.08")
    ∷ ("GBP", "1.27")
    ∷ ("JPY", "0.0067")
    ∷ ("CAD", "0.73")
    ∷ ("AUD", "0.66")
    ∷ []

pub data Mode : Type 0 where
  no_fault error timeout : Mode

pub record FaultConfig : Type 0 where
  pub mode : Mode
  pub delay_s : ℕ

-- The module's `_fault`, and the state of the event loop.
pub record Service (T : Type 0) : Type 0 where
  pub fault : FaultConfig
  pub time : T

module _ {T : Type 0} (upper repr : String → String) (sleep : ℕ → Action T (Unit {0})) where
  -- The two tests of `_fault` at the head of `get_rate`.
  unfoldable pub misbehave : FaultConfig → Action (Service T) (Unit {0})
  misbehave config = elim config.mode [
    | error ↦ raise (http_exception 500 "fault injected: error")
    | timeout ↦ λ w. let (r, t) = sleep config.delay_s w.time in (r, record w { time = t })
    | no_fault ↦ pure tt
  ]

  -- The reply's `currency` and `rate`.
  unfoldable pub quote : String → Action (Service T) (String × String)
  quote currency = elim (lookup (upper currency) rate_table) [
    | none ↦ raise (http_exception 404 (str_append "no rate for currency " (repr currency)))
    | some rate ↦ pure (upper currency, rate)
  ]

  unfoldable pub get_rate : String → Action (Service T) (String × String)
  unfolding misbehave quote
  get_rate currency = do config ← gets (λ w. w.fault); misbehave config; quote currency

  unfoldable pub set_fault : FaultConfig → Action (Service T) FaultConfig
  set_fault config w = (ok config, record w { fault = config })

  unfoldable pub health : Action (Service T) String
  health = pure "ok"
