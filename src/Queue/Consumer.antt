-- ===== src/Queue/Consumer.antt =====
-- app/queue/consumer.py: `StreamConsumer`.
pub mod Safety
pub mod Batch
pub mod Messages
pub mod Reading
pub mod Claiming
pub mod DeadLetters
pub mod Group
use txn_event_processor.Prelude.{
  ℕ, suc, String, Option, none, some, Bool, true, false, List, [], ◌∷◌, if◌then◌else◌, str_eq, not,
}
use txn_event_processor.Prelude.Dict.{Dict, lookup, insert}
use txn_event_processor.Core.Errors.{
  Exn, str_exn, is_parse_error, key_error, other_exception, response_error,
}
use txn_event_processor.Action.{Action, ok, err, pure, raise, try_except, ◌>>=◌, ◌>>◌}
use txn_event_processor.Schemas.Events.{TransactionEvent, Pydantic}
use txn_event_processor.Schemas.Envelope.{Fields, parse_fields}
use txn_event_processor.Queue.Redis.{Redis, Entry, GroupInfo}
use text.Mathlib.Text.{find?}
use Prim.Native.String.{◌++◌ as str_append}

pub record StreamMessage : Type 0 where
  pub msg_id : String
  pub event : TransactionEvent
  pub delivery_count : ℕ
  pub raw_fields : Fields

-- The attributes of the consumer.
pub record StreamConsumer : Type 0 where
  pub stream : String
  pub group : String
  pub consumer : String
  pub batch_size : ℕ
  pub block_ms : ℕ
  pub dlq_stream : String

-- `delivery_counts[msg_id]`
abbrev pub count_of : {R : Type 0} → String → Dict ℕ → Action R ℕ
count_of msg_id counts = elim (lookup msg_id counts) [
  | none ↦ raise (key_error msg_id)
  | some n ↦ pure n
]

-- `{msg_id: 1 for msg_id, _fields in entries}`
abbrev pub ones : List Entry → Dict ℕ → Dict ℕ
ones [] counts = counts
ones ((msg_id, _) ∷ entries) counts = ones entries (insert msg_id 1 counts)

abbrev pub times_delivered : List ℕ → ℕ
times_delivered [] = 1
times_delivered (n ∷ _) = n

abbrev pub contains_text : String → String → Bool
contains_text part text = elim (find? text part) [ none ↦ false | some _ ↦ true ]

abbrev pub is_busygroup : Exn → Bool
is_busygroup (response_error text) = contains_text "BUSYGROUP" text
is_busygroup _ = false

-- `group["lag"] or 0`
abbrev pub or_zero : Option ℕ → ℕ
or_zero none = 0
or_zero (some n) = n

abbrev pub cons_message : Option StreamMessage → List StreamMessage → List StreamMessage
cons_message none messages = messages
cons_message (some m) messages = m ∷ messages

-- `_stream_name, entries = response[0]`
abbrev pub first_entries : List (String × List Entry) → Option (List Entry)
first_entries [] = none
first_entries ((_, entries) ∷ _) = some entries

module _ {R : Type 0} (redis : Redis R) (self : StreamConsumer) where
  unfoldable pub ack : String → Action R (Unit {0})
  ack msg_id = redis.xack self.stream self.group msg_id

  -- `_dead_letter_fields`; `{**fields, "reason": reason}` is the dict with one key set
  unfoldable pub dead_letter_fields : String → Fields → String → Action R (Unit {0})
  dead_letter_fields msg_id fields reason = do
    redis.xadd self.dlq_stream (insert "reason" reason fields) none
    redis.xack self.stream self.group msg_id

  unfoldable pub dead_letter : StreamMessage → String → Action R (Unit {0})
  unfolding dead_letter_fields
  dead_letter msg reason = dead_letter_fields msg.msg_id msg.raw_fields reason

  unfoldable pub delivery_count_of : String → Action R ℕ
  delivery_count_of msg_id = do
    entries ← redis.xpending_range self.stream self.group msg_id msg_id 1
    pure (times_delivered entries)

  -- the loop that fills `delivery_counts`
  unfoldable pub delivery_counts : List Entry → Dict ℕ → Action R (Dict ℕ)
  delivery_counts [] counts = pure counts
  delivery_counts ((msg_id, _) ∷ claimed) counts = do
    n ← delivery_count_of msg_id
    delivery_counts claimed (insert msg_id n counts)

  unfoldable pub ensure_group : Action R (Unit {0})
  ensure_group =
      try_except (redis.xgroup_create self.stream self.group "0" true)
        λ exc. if is_busygroup exc then pure tt else raise exc

  -- `next(g for g in groups if ...)`: in a coroutine an exhausted search is a `RuntimeError`.
  unfoldable pub lag_of : List GroupInfo → Action R ℕ
  lag_of [] = raise (other_exception "coroutine raised StopIteration")
  lag_of (g ∷ groups) = elim (str_eq g.name self.group) [
    | true ↦ pure (or_zero g.lag)
    | false ↦ lag_of groups
  ]

  unfoldable pub lag : Action R ℕ
  unfolding lag_of
  lag = do groups ← redis.xinfo_groups self.stream; lag_of groups

module _ {R : Type 0} (redis : Redis R) (p : Pydantic) (self : StreamConsumer) where
  -- One round of the loop in `_parse_entries`: the message, or `none` after `continue`.
  unfoldable pub parse_entry : Entry → Dict ℕ → Action R (Option StreamMessage)
  unfolding dead_letter_fields
  parse_entry (msg_id, fields) counts = elim (parse_fields p fields) [
    | err exc ↦
        if is_parse_error exc
        then (do
          dead_letter_fields redis self msg_id fields (str_append "unparseable: " (str_exn exc))
          pure none)
        else raise exc
    | ok event ↦ do
      n ← count_of msg_id counts
      pure (
          some (record { msg_id = msg_id; event = event; delivery_count = n; raw_fields = fields }))
  ]

  unfoldable pub parse_entries : List Entry → Dict ℕ → Action R (List StreamMessage)
  parse_entries [] counts = pure []
  parse_entries (entry ∷ entries) counts = do
    message ← parse_entry entry counts
    messages ← parse_entries entries counts
    pure (cons_message message messages)

  unfoldable pub read : Action R (List StreamMessage)
  unfolding parse_entries
  read = do
    response ← redis.xreadgroup self.group self.consumer self.stream self.batch_size self.block_ms
    elim (first_entries response) [
      | none ↦ pure []
      | some entries ↦ parse_entries entries (ones entries [])
    ]

  unfoldable pub claimed_messages : List Entry → Action R (List StreamMessage)
  unfolding delivery_counts parse_entries
  claimed_messages [] = pure []
  claimed_messages (entry ∷ rest) = do
    counts ← delivery_counts redis self (entry ∷ rest) []
    parse_entries (entry ∷ rest) counts

  unfoldable pub claim_stale : ℕ → Action R (List StreamMessage)
  unfolding claimed_messages
  claim_stale min_idle_ms = do
    reply ← redis.xautoclaim self.stream self.group self.consumer min_idle_ms "0-0" self.batch_size
    claimed_messages reply.1
