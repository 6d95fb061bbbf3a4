-- ===== src/Examples/Entries.antt =====
-- Stream entries, written and read.
use txn_event_processor.Prelude.{arith, none, false, [], ◌∷◌, ◌≡◌, inl, refl, some}
use txn_event_processor.Prelude.Int.{neg}
use txn_event_processor.Action.{and_then, ok}
use txn_event_processor.Schemas.IntText.{digit_count, int_text, str_nat}
use txn_event_processor.Schemas.Events.{accept_event}
use txn_event_processor.Schemas.Envelope.{
  StreamEnvelope, new_envelope, to_fields, from_fields, parse_fields,
}
use txn_event_processor.Schemas.Envelope.RoundTrip.{
  IsPrintable, from_fields-to_fields, parse-accept_event,
}
use txn_event_processor.Queue.Consumer.{parse_entries}
use txn_event_processor.Queue.Consumer.Safety.{IsKept}
use txn_event_processor.Queue.Consumer.Batch.{parse_entries_keeps}
use txn_event_processor.Fakes.Json.{library, library-IsPydantic}
use txn_event_processor.Queue.Consumer.{ensure_group}
use txn_event_processor.Queue.Consumer.Group.{IsEnsured, ensure_group-IsEnsured}
use txn_event_processor.Fakes.Group.{group_server, group_server-IsGrouped}
use txn_event_processor.Fakes.Queue.{
  Streams, server, server_pending, server_entries, server-IsRedis,
}
use txn_event_processor.Fakes.Site.{payment, noon, consumer}

abbrev older : StreamEnvelope
older = record { schema_version = neg 10; payload = "{}" }

short : IsPrintable older
unfolding digit_count int_text str_nat
short = omega arith

from_fields-to_fields_example : and_then (to_fields older) from_fields ≡ ok older
from_fields-to_fields_example = from_fields-to_fields older short

parse-accept_event_example :
    let ev = accept_event library payment.event_in noon in
    and_then (to_fields (new_envelope (library.dump_json ev))) (parse_fields library) ≡ ok ev
parse-accept_event_example = parse-accept_event library library-IsPydantic payment.event_in noon

-- A queue with one delivery that nothing can be read from.
abbrev queue : Streams
queue = record { listed = λ s. []; unacked = "1-1" ∷ []; has_new = false }

parse_entries_keeps_example :
    IsKept server consumer server_pending server_entries server-IsRedis
      (parse_entries server library consumer (("1-1", []) ∷ []) (("1-1", 1) ∷ []) queue).1
      "1-1"
      []
parse_entries_keeps_example =
    parse_entries_keeps server library consumer server_pending server_entries server-IsRedis "1-1"
      [] (("1-1", []) ∷ []) (("1-1", 1) ∷ []) queue (λ _. refl, tt) (inl refl)

new_group : (ensure_group group_server consumer none).1 ≡ some "0"
unfolding ensure_group
new_group = refl

old_group : ensure_group group_server consumer (some "7-1") ≡ (ok tt, some "7-1")
unfolding ensure_group
old_group = refl

ensure_group-IsEnsured_example :
    IsEnsured
      (some "7-1")
      (ensure_group group_server consumer (some "7-1")).0
      (ensure_group group_server consumer (some "7-1")).1
ensure_group-IsEnsured_example =
    ensure_group-IsEnsured group_server (λ r s g. r) group_server-IsGrouped consumer (some "7-1")
