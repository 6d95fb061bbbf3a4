-- ===== src/Fakes/Group.antt =====
-- A Redis of one stream, with the place from which its consumer group reads on. It takes no other
-- command than XGROUP CREATE.
use txn_event_processor.Prelude.{sym, true, ◌∙◌, String, Option, none, some, ◌≡◌, refl, inl, arith}
use txn_event_processor.Core.Errors.{Exn, response_error, redis_error}
use txn_event_processor.Action.{ok, err}
use txn_event_processor.Queue.Redis.{Redis}
use txn_event_processor.Queue.Consumer.Group.{IsGrouped}

abbrev busy : Exn
busy = response_error "BUSYGROUP Consumer Group name already exists"

abbrev refused : Exn
refused = redis_error "not supported"

abbrev pub group_server : Redis (Option String)
group_server = record {
  xadd = λ s f m r. (err refused, r);
  xack = λ s g i r. (err refused, r);
  xreadgroup = λ g k s n b r. (err refused, r);
  xautoclaim = λ s g k m i n r. (err refused, r);
  xpending_range = λ s g a b n r. (err refused, r);
  xgroup_create = λ s g i m r. elim r [ none ↦ (ok tt, some i) | some j ↦ (err busy, some j) ];
  xinfo_groups = λ s r. (err refused, r);
  ping = λ r. (err refused, r);
}

created :
    (i : String) (r : Option String)
    → (group_server.xgroup_create "" "" i true r).0 ≡ ok tt
    → (r ≡ none) × ((group_server.xgroup_create "" "" i true r).1 ≡ some i)
created i none h = (refl, refl)
created i (some j) h = absurd (ground arith)

occupied :
    (i : String) (r : Option String) (e : Exn)
    → (group_server.xgroup_create "" "" i true r).0 ≡ err e
    → (j : String) × (r ≡ some j) × ((group_server.xgroup_create "" "" i true r).1 ≡ some j)
occupied i none e h = absurd (ground arith)
occupied i (some j) e h = (j, refl, refl)

pub group_server-IsGrouped : IsGrouped group_server (λ r s g. r)
group_server-IsGrouped = record {
  create_ok = λ s g i m r h. created i r h;
  create_busy = λ s g i m r e h q. occupied i r e h;
  create_err = λ s g i m r e h. let (j, old, same) = occupied i r e h in inl (same ∙ sym old);
}
