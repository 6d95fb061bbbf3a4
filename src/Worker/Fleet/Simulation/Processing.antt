-- ===== src/Worker/Fleet/Simulation/Processing.antt =====
-- `process` of app/services/processor.py, run without interruption, as moves of one worker.
use txn_event_processor.Prelude.{Bool, List, ◌∷◌, ◌≡◌, refl}
use txn_event_processor.Action.{Result, ok, err}
use txn_event_processor.Services.Processor.Run
use txn_event_processor.Action.Triple.{weaken-Triple, After, Triple}
use txn_event_processor.Core.Config.{Settings, IsChecked}
use txn_event_processor.Db.Models.{ProcessedTransaction}
use txn_event_processor.Db.Repository.{insert_ignore_duplicate}
use txn_event_processor.Queue.Consumer.{StreamConsumer, StreamMessage}
use txn_event_processor.Services.External.{External}
use txn_event_processor.Services.World.{World}
use txn_event_processor.Services.RateClient.{RateClient}
use txn_event_processor.Services.Processor.{process}
use txn_event_processor.Worker.Fleet.{Place, holding, stored, Move, Moves, next}

module _ (x : External) (rates : RateClient) (settings : Settings) (checked : IsChecked settings)
    (m : StreamConsumer) (r0 : x.R) (d0 : x.D) (msg : StreamMessage) (ms : List StreamMessage) where
  -- The worker has come from the first message to this place, by its moves.
  abbrev At : Place → World x → Type 0
  At p w = Moves x settings m r0 d0 (holding (msg ∷ ms)) w.redis w.db p

  abbrev Start : World x → Type 0
  Start = At (holding (msg ∷ ms))

  tried :
      (row : ProcessedTransaction) (r : x.R) (d : x.D) (res : Result Bool)
      → row.id ≡ msg.event.id
      → Moves x settings m r0 d0 (holding (msg ∷ ms)) r d (holding (msg ∷ ms))
      → (insert_ignore_duplicate x.session row d).0 ≡ res
      → After
          (λ b t. Moves x settings m r0 d0 (holding (msg ∷ ms)) r t (stored msg ms))
          (λ e t. Moves x settings m r0 d0 (holding (msg ∷ ms)) r t (holding (msg ∷ ms)))
          res
          (insert_ignore_duplicate x.session row d).1
  tried row r d (ok b) a h p = next h (Move.insert_row b row msg ms a p)
  tried row r d (err e) a h p = next h (Move.try_insert e row msg ms a p)

  -- `process` ends where it has stored the event, or where it has not.
  pub process-Triple :
      Triple Start (process x rates settings msg.event) (λ o. At (stored msg ms)) (λ e. Start)
  process-Triple =
      weaken-Triple Start (process x rates settings msg.event) _ (λ o. At (stored msg ms))
        (λ e. Start) (λ e. Start)
        (Run.process-Triple x rates settings checked msg.event
          (λ r d. Moves x settings m r0 d0 (holding (msg ∷ ms)) r d (holding (msg ∷ ms)))
          (λ row b r d. Moves x settings m r0 d0 (holding (msg ∷ ms)) r d (stored msg ms))
          λ row r d a h. tried row r d _ a.same_id h refl)
        (λ o v (row, a, h). h) λ e v h. h
