-- ===== src/Services/Processor/Run.antt =====
-- app/services/processor.py: `process`, from what a single attempt at the insert does.
use txn_event_processor.Prelude.{
  ℕ, Bool, true, false, ◌≡◌, refl, some, arith, inl, inr, if◌then◌else◌,
}
use txn_event_processor.Action.{pure, Action, Result, ok, err, ◌>>=◌, ◌>>◌, run-cases, Result-cases}
use txn_event_processor.Action.Keeps.{Keeps, >>=-Keeps}
use txn_event_processor.Action.Triple.{After, Triple, Keeps-Triple, >>=-Triple}
use txn_event_processor.Core.Config.{Settings, IsChecked}
use txn_event_processor.Core.Errors.{Exn, is_transient}
use txn_event_processor.Core.Metrics.{Metrics}
use txn_event_processor.Core.Retry.{pause, compute_delay, call_on_retry}
use txn_event_processor.Core.Retry.Outcome.{retry_async-Triple}
use txn_event_processor.Db.Models.{ProcessedTransaction}
use txn_event_processor.Db.Repository.{insert_ignore_duplicate}
use txn_event_processor.Money.{Decimal, convert_to_usd}
use txn_event_processor.Schemas.Events.{TransactionEvent}
use txn_event_processor.Services.External.{External}
use txn_event_processor.Services.World.{World, on_db, on_time, timer}
use txn_event_processor.Services.RateClient.{RateClient}
use txn_event_processor.Services.Processor.{
  inc_processing, db_insert, process, look_up_rate, make_row, insert_row, on_retry, Outcome,
  processed, duplicate,
}
use txn_event_processor.Services.Processor.Frame.{look_up_rate-Keeps, make_row-Keeps}

-- The row of an event: its fields, and the amount converted at the row's rate.
pub record IsRowOf (ev : TransactionEvent) (row : ProcessedTransaction) : Type 0 where
  pub same_id : row.id ≡ ev.id
  pub same_user : row.user_id ≡ ev.user_id
  pub same_amount : row.amount ≡ ev.amount
  pub same_currency : row.currency ≡ ev.currency
  pub same_timestamp : row.timestamp ≡ ev.timestamp
  pub converted : convert_to_usd ev.amount row.rate ≡ ok row.amount_usd

-- Whether the insert was of a new row.
abbrev pub is_new : Outcome → Bool
is_new processed = true
is_new duplicate = false

module _ (x : External) (rates : RateClient) (settings : Settings) (checked : IsChecked settings)
    (ev : TransactionEvent) where
  make_row-IsRowOf :
      (rate : Decimal) (w v : World x) (row : ProcessedTransaction)
      → make_row x rates settings ev rate w ≡ (ok row, v)
      → IsRowOf ev row
  unfolding make_row
  make_row-IsRowOf rate w v row h = elim (Result-cases (convert_to_usd ev.amount rate)) [
    | inr (e, p) ↦ absurd (ground arith)
    | inl (a, p) ↦ elim (run-cases (on_time x x.now) w) [
      | inr (e, u, q) ↦ absurd (ground arith)
      | inl (t, u, q) ↦ record {
        same_id = ground arith;
        same_user = ground arith;
        same_amount = ground arith;
        same_currency = ground arith;
        same_timestamp = ground arith;
        converted = ground arith;
      }
    ]
  ]

  -- What follows each step of `process`.
  abbrev after_insert : Bool → Action (World x) Outcome
  after_insert inserted = pure (if inserted then processed else duplicate)

  abbrev after_row : ProcessedTransaction → Action (World x) Outcome
  after_row row = insert_row x rates settings row >>= after_insert

  abbrev after_rate : Decimal → Action (World x) Outcome
  after_rate rate = make_row x rates settings ev rate >>= after_row

  -- Of the queue and the database, `P` holds at first and after every attempt that raises, and `Q`
  -- after the attempt that returns.
  module _ (P : x.R → x.D → Type 0) (Q : ProcessedTransaction → Bool → x.R → x.D → Type 0)
      (once : (row : ProcessedTransaction) (r : x.R) (d : x.D)
        → IsRowOf ev row
        → P r d
        → After
            (λ b t. Q row b r t)
            (λ e t. P r t)
            (insert_ignore_duplicate x.session row d).0
            (insert_ignore_duplicate x.session row d).1) where
    abbrev Start : World x → Type 0
    Start w = P w.redis w.db

    abbrev Done : Outcome → World x → Type 0
    Done o w = (row : ProcessedTransaction) × IsRowOf ev row × Q row (is_new o) w.redis w.db

    abbrev Made : ProcessedTransaction → World x → Type 0
    Made row w = Start w × IsRowOf ev row

    tried :
        (row : ProcessedTransaction) (w : World x) (res : Result Bool) (d : x.D)
        → After (λ b t. Q row b w.redis t) (λ e t. P w.redis t) res d
        → After (λ b v. Q row b v.redis v.db) (λ e. Start) res (record w { db = d })
    tried row w (ok b) d h = h
    tried row w (err e) d h = h

    pause-Start :
        (k : ℕ) (e : Exn)
        → Keeps Start (
            pause
              (timer x)
              settings.retry_base_delay_s
              settings.retry_max_delay_s
              (some (on_retry x rates settings db_insert))
              k
              e)
    unfolding pause compute_delay call_on_retry on_retry
    pause-Start k e =
        let told = call_on_retry (some (on_retry x rates settings db_insert)) k e in
        >>=-Keeps Start
          (compute_delay (timer x) k settings.retry_base_delay_s settings.retry_max_delay_s)
          (λ d. told d >> (timer x).sleep d) (record { at = λ w h. h })
          λ d.
            >>=-Keeps Start (told d) (λ _. (timer x).sleep d) (record { at = λ w h. h })
              λ _. record { at = λ w h. h }

    insert_row-Triple :
        (row : ProcessedTransaction)
        → IsRowOf ev row
        → Triple Start (insert_row x rates settings row) (λ b v. Q row b v.redis v.db) (λ e. Start)
    unfolding insert_row
    insert_row-Triple row a =
        retry_async-Triple (timer x) (on_db x (insert_ignore_duplicate x.session row))
          settings.db_attempts settings.retry_base_delay_s settings.retry_max_delay_s is_transient _
          Start (λ b v. Q row b v.redis v.db)
          (record { at = λ w h. tried row w _ _ (once row w.redis w.db a h) }) pause-Start
          checked.db_attempts_ge

    made :
        (rate : Decimal) (w : World x) (res : Result ProcessedTransaction) (v : World x)
        → make_row x rates settings ev rate w ≡ (res, v)
        → Start v
        → After Made (λ e. Start) res v
    made rate w (ok row) v p h = (h, make_row-IsRowOf rate w v row p)
    made rate w (err e) v p h = h

    make_row-Triple :
        (rate : Decimal) → Triple Start (make_row x rates settings ev rate) Made (λ e. Start)
    make_row-Triple rate = record {
      at = λ w h. made rate w _ _ refl ((make_row-Keeps x rates settings P ev rate).at w h);
    }

    counted :
        (row : ProcessedTransaction)
        → IsRowOf ev row
        → (b : Bool)
        → Triple (λ (v : World x). Q row b v.redis v.db) (after_insert b) Done (λ e. Start)
    counted row a true = record { at = λ w h. (row, a, h) }
    counted row a false = record { at = λ w h. (row, a, h) }

    after_row-Triple :
        (row : ProcessedTransaction) → Triple (Made row) (after_row row) Done (λ e. Start)
    after_row-Triple row = record {
      at = λ w h.
          (>>=-Triple Start (λ b v. Q row b v.redis v.db) Done (λ e. Start)
              (insert_row x rates settings row) after_insert (insert_row-Triple row h.1)
              (counted row h.1)).at
            w h.0;
    }

    body-Triple : Triple Start (look_up_rate x rates settings ev >>= after_rate) Done (λ e. Start)
    body-Triple =
        >>=-Triple Start (λ rate. Start) Done (λ e. Start) (look_up_rate x rates settings ev)
          after_rate
          (Keeps-Triple Start (look_up_rate x rates settings ev)
            (look_up_rate-Keeps x rates settings P ev checked.rate_attempts_ge))
          λ rate.
            >>=-Triple Start Made Done (λ e. Start) (make_row x rates settings ev rate) after_row
              (make_row-Triple rate) after_row-Triple

    metrics_free :
        (f : Metrics → Metrics) (r : Result Outcome) (v : World x)
        → After Done (λ e. Start) r v
        → After Done (λ e. Start) r (record v { metrics = f v.metrics })
    metrics_free f (ok a) v h = h
    metrics_free f (err e) v h = h

    pub process-Triple : Triple Start (process x rates settings ev) Done (λ e. Start)
    unfolding process
    process-Triple = record { at = λ w h. metrics_free inc_processing _ _ (body-Triple.at w h) }
