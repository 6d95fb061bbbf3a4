-- ===== src/Worker/Counts.antt =====
-- app/worker.py: `EVENTS_PROCESSED` and `EVENTS_FAILED` against the messages handled.
use Prim.Native.String.{◌++◌ as str_append}
use txn_event_processor.Prelude.{
  ℕ, suc, ◌+◌, String, List, [], ◌∷◌, ◌≡◌, ◌≤◌, refl, ap, ◌∙◌, arith, length, leb,
}
use txn_event_processor.Action.{Action, ◌>>◌}
use txn_event_processor.Action.Keeps.{Keeps}
use txn_event_processor.Action.Triple.{
  After, Triple, Keeps-Triple, weaken-Triple, if-Triple, >>=-Triple, try_except-Triple,
}
use txn_event_processor.Core.Config.{Settings, IsChecked}
use txn_event_processor.Core.Errors.{Exn, is_permanent, is_transient, is_exception, str_exn}
use txn_event_processor.Core.Metrics.{Metrics}
use txn_event_processor.Queue.Consumer.{StreamConsumer, StreamMessage, ack, dead_letter}
use txn_event_processor.Services.External.{External}
use txn_event_processor.Services.World.{World, on_redis, count}
use txn_event_processor.Services.RateClient.{RateClient}
use txn_event_processor.Services.Processor.{process, Outcome, processed, duplicate}
use txn_event_processor.Services.Processor.Neutral.{handled_total, process-Keeps}
use txn_event_processor.Worker.{
  attempt, park, on_failure, handle, handle_all, FailureKind, permanent, transient, exhausted,
  unexpected, inc_failed, inc_processed,
}

inc_processed-total :
    (o : Outcome) (m : Metrics) → handled_total (inc_processed o m) ≡ handled_total m + 1
unfolding inc_processed
inc_processed-total processed m = omega arith
inc_processed-total duplicate m = omega arith

inc_failed-total :
    (k : FailureKind) (m : Metrics) → handled_total (inc_failed k m) ≡ handled_total m + 1
unfolding inc_failed
inc_failed-total transient m = omega arith
inc_failed-total permanent m = omega arith
inc_failed-total exhausted m = omega arith
inc_failed-total unexpected m = omega arith

module _ (x : External) (rates : RateClient) (consumer : StreamConsumer) (settings : Settings)
    (checked : IsChecked settings) where
  abbrev Counted : ℕ → World x → Type 0
  Counted n w = handled_total w.metrics ≡ n

  process-Counted :
      (n : ℕ) (msg : StreamMessage) → Keeps (Counted n) (process x rates settings msg.event)
  process-Counted n msg =
      process-Keeps x rates settings (Counted n) (λ w v p q r h. r ∙ h) msg.event checked
        λ row. record { at = λ w h. h }

  once_more :
      (n : ℕ) (f : Metrics → Metrics)
      → ((m : Metrics) → handled_total (f m) ≡ handled_total m + 1)
      → Triple (Counted n) (count x f) (λ _. Counted (n + 1)) (λ e. Counted n)
  once_more n f one = record { at = λ w h. one w.metrics ∙ ap (λ k. k + 1) h }

  quiet :
      {A : Type 0} (n : ℕ) (m : Action x.R A)
      → Triple (Counted n) (on_redis x m) (λ _. Counted n) (λ e. Counted n)
  quiet n m = Keeps-Triple (Counted n) (on_redis x m) (record { at = λ w h. h })

  attempt-Counted :
      (n : ℕ) (msg : StreamMessage)
      → Triple
          (Counted n)
          (attempt x rates consumer settings msg)
          (λ _. Counted (n + 1))
          (λ e. Counted n)
  unfolding attempt
  attempt-Counted n msg =
      >>=-Triple (Counted n) (λ _. Counted n) (λ _. Counted (n + 1)) (λ e. Counted n)
        (process x rates settings msg.event)
        (λ o. on_redis x (ack x.redis consumer msg.msg_id) >> count x (inc_processed o))
        (Keeps-Triple (Counted n) _ (process-Counted n msg))
        λ o.
          >>=-Triple (Counted n) (λ _. Counted n) (λ _. Counted (n + 1)) (λ e. Counted n)
            (on_redis x (ack x.redis consumer msg.msg_id)) (λ _. count x (inc_processed o))
            (quiet n (ack x.redis consumer msg.msg_id))
            λ _. once_more n (inc_processed o) (inc_processed-total o)

  park-Counted :
      (n : ℕ) (msg : StreamMessage) (reason : String) (kind : FailureKind)
      → Triple
          (Counted n)
          (park x rates consumer settings msg reason kind)
          (λ _. Counted (n + 1))
          (λ e. Counted n)
  unfolding park
  park-Counted n msg reason kind =
      >>=-Triple (Counted n) (λ _. Counted n) (λ _. Counted (n + 1)) (λ e. Counted n)
        (on_redis x (dead_letter x.redis consumer msg reason)) (λ _. count x (inc_failed kind))
        (quiet n (dead_letter x.redis consumer msg reason))
        λ _. once_more n (inc_failed kind) (inc_failed-total kind)

  on_failure-Counted :
      (n : ℕ) (msg : StreamMessage) (e : Exn)
      → Triple
          (Counted n)
          (on_failure x rates consumer settings msg e)
          (λ _. Counted (n + 1))
          (λ e. Counted n)
  unfolding on_failure
  on_failure-Counted n msg e =
      let one : Unit {0} → World x → Type 0 = λ _. Counted (n + 1) in
      let none : Exn → World x → Type 0 = λ _. Counted n in
      if-Triple (Counted n) (is_permanent e) _ _ one none
        (λ p. park-Counted n msg (str_exn e) permanent)
        λ p.
          if-Triple (Counted n) (is_transient e) _ _ one none
            (λ q.
              if-Triple (Counted n) (leb settings.max_deliveries msg.delivery_count) _ _ one none
                (λ l. park-Counted n msg "max deliveries exceeded" exhausted)
                λ l. once_more n (inc_failed transient) (inc_failed-total transient))
            λ q.
              if-Triple (Counted n) (is_exception e) _ _ one none
                (λ l. park-Counted n msg (str_append "unexpected error: " (str_exn e)) unexpected)
                λ l. record { at = λ w h. h }

  handle-Counted :
      (n : ℕ) (msg : StreamMessage)
      → Triple
          (Counted n)
          (handle x rates consumer settings msg)
          (λ _. Counted (n + 1))
          (λ e. Counted n)
  unfolding handle
  handle-Counted n msg =
      try_except-Triple (Counted n) (λ _. Counted (n + 1)) (λ e. Counted n) (λ e. Counted n)
        (attempt x rates consumer settings msg) (on_failure x rates consumer settings msg)
        (attempt-Counted n msg) (on_failure-Counted n msg)

  -- After `k` more messages at most; exactly `k` if the batch is done.
  abbrev UpTo : ℕ → ℕ → World x → Type 0
  UpTo n k w = (n ≤ handled_total w.metrics) × (handled_total w.metrics ≤ n + k)

  handle_all-Triple :
      (messages : List StreamMessage) (n : ℕ)
      → Triple
          (Counted n)
          (handle_all x rates consumer settings messages)
          (λ _. Counted (n + length messages))
          (λ e. UpTo n (length messages))
  unfolding handle_all
  handle_all-Triple [] n = record { at = λ w h. omega (arith, h) }
  handle_all-Triple (msg ∷ messages) n =
      let one : Unit {0} → World x → Type 0 = λ _. Counted (n + 1) in
      let few : Exn → World x → Type 0 = λ _. UpTo n (suc (length messages)) in
      >>=-Triple (Counted n) one (λ _. Counted (n + suc (length messages))) few
        (handle x rates consumer settings msg) (λ _. handle_all x rates consumer settings messages)
        (weaken-Triple (Counted n) (handle x rates consumer settings msg) one one (λ e. Counted n)
          few (handle-Counted n msg) (λ _ v h. h) λ e v h. omega (arith, h))
        λ _.
          weaken-Triple (Counted (n + 1)) (handle_all x rates consumer settings messages)
            (λ _. Counted (n + 1 + length messages)) (λ _. Counted (n + suc (length messages)))
            (λ e. UpTo (n + 1) (length messages)) few (handle_all-Triple messages (n + 1))
            (λ _ v h. omega (arith, h)) λ e v h. omega (arith, h)

  -- The counters account for every message: if a batch is handled to the end, then
  -- `EVENTS_PROCESSED` and `EVENTS_FAILED`, over all their labels, have grown by exactly the number
  -- of messages in it; if the loop stops with an exception, by that number at most, and they never
  -- fall.
  pub handle_all_counts :
      (messages : List StreamMessage) (w : World x)
      → After
          (λ _ v. handled_total v.metrics ≡ handled_total w.metrics + length messages)
          (λ _ v.
            (handled_total w.metrics ≤ handled_total v.metrics)
            × (handled_total v.metrics ≤ handled_total w.metrics + length messages))
          (handle_all x rates consumer settings messages w).0
          (handle_all x rates consumer settings messages w).1
  handle_all_counts messages w = (handle_all-Triple messages (handled_total w.metrics)).at w refl
