-- ===== src/Services/Processor/Frame.antt =====
-- app/services/processor.py: `process`, on properties of the queue and the database.
use mathlib.Core.Path.{subst₂}
use txn_event_processor.Prelude.{sym, ◌≤◌, ◌≡◌}
use txn_event_processor.Action.Keeps.{Keeps}
use txn_event_processor.Core.Config.{Settings, IsChecked}
use txn_event_processor.Db.Models.{ProcessedTransaction}
use txn_event_processor.Db.Repository.{insert_ignore_duplicate}
use txn_event_processor.Money.{Decimal}
use txn_event_processor.Schemas.Events.{TransactionEvent}
use txn_event_processor.Services.External.{External}
use txn_event_processor.Services.World.{World}
use txn_event_processor.Services.RateClient.{RateClient}
use txn_event_processor.Services.Processor.{process, look_up_rate, make_row}
use txn_event_processor.Services.Processor.Neutral

module _ (x : External) (rates : RateClient) (settings : Settings) (Q : x.R → x.D → Type 0) where
  -- A property of the queue and the database.
  abbrev Holds : World x → Type 0
  Holds w = Q w.redis w.db

  free : (w v : World x) → v.redis ≡ w.redis → v.db ≡ w.db → Holds w → Holds v
  free w v p q h = subst₂ (λ r d. Q r d) (sym p) (sym q) h

  pub look_up_rate-Keeps :
      (ev : TransactionEvent)
      → 1 ≤ settings.rate_attempts
      → Keeps Holds (look_up_rate x rates settings ev)
  look_up_rate-Keeps =
      Neutral.look_up_rate-Keeps x rates settings Holds λ w v p q r h. free w v p q h

  pub make_row-Keeps :
      (ev : TransactionEvent) (rate : Decimal) → Keeps Holds (make_row x rates settings ev rate)
  make_row-Keeps = Neutral.make_row-Keeps x rates settings Holds λ w v p q r h. free w v p q h

  pub process-Keeps :
      (ev : TransactionEvent)
      → IsChecked settings
      → ((row : ProcessedTransaction) (r : x.R) (d : x.D)
          → Q r d
          → Q r (insert_ignore_duplicate x.session row d).1)
      → Keeps Holds (process x rates settings ev)
  process-Keeps ev checked one =
      Neutral.process-Keeps x rates settings Holds (λ w v p q r h. free w v p q h) ev checked
        λ row. record { at = λ w h. one row w.redis w.db h }
