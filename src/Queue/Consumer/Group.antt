-- ===== src/Queue/Consumer/Group.antt =====
-- `ensure_group` of app/queue/consumer.py: where the consumer group starts to read.
use txn_event_processor.Prelude.{
  if◌then◌else◌, String, Option, none, some, Bool, true, false, ◌≡◌, ◌⊎◌, inl, inr, arith,
  Bool-cases, Option-cases, refl, ap, sym, ◌∙◌,
}
use txn_event_processor.Core.Errors.{Exn}
use txn_event_processor.Action.{Action, pure, raise, try_except, Result, ok, err, run-cases}
use txn_event_processor.Queue.Redis.{Redis}
use txn_event_processor.Queue.Consumer.{StreamConsumer, ensure_group, is_busygroup}

-- XGROUP CREATE, as documented. `position r s g` is the id after which group `g` of stream `s` reads
-- on, if the group exists.
pub record IsGrouped {R : Type 0} (c : Redis R) (position : R → String → String → Option String)
    : Type 0 where
  pub create_ok :
      (s g i : String) (m : Bool) (r : R)
      → (c.xgroup_create s g i m r).0 ≡ ok tt
      → (position r s g ≡ none) × (position (c.xgroup_create s g i m r).1 s g ≡ some i)
  -- the group exists, and stays as it is
  pub create_busy :
      (s g i : String) (m : Bool) (r : R) (e : Exn)
      → (c.xgroup_create s g i m r).0 ≡ err e
      → is_busygroup e ≡ true
      → (j : String) × (position r s g ≡ some j)
        × (position (c.xgroup_create s g i m r).1 s g ≡ some j)
  -- after another error the command may have run, with its reply lost
  pub create_err :
      (s g i : String) (m : Bool) (r : R) (e : Exn)
      → (c.xgroup_create s g i m r).0 ≡ err e
      → (position (c.xgroup_create s g i m r).1 s g ≡ position r s g)
        ⊎ ((position r s g ≡ none) × (position (c.xgroup_create s g i m r).1 s g ≡ some i))

-- What becomes of a group's position: one that exists keeps it, and a new one starts at the stream's
-- first entry; without a return it may also not exist yet.
abbrev pub IsEnsured : Option String → Result (Unit {0}) → Option String → Type 0
IsEnsured (some j) res after = after ≡ some j
IsEnsured none (ok _) after = after ≡ some "0"
IsEnsured none (err _) after = (after ≡ none) ⊎ (after ≡ some "0")

module _ {R : Type 0} (redis : Redis R) (position : R → String → String → Option String)
    (laws : IsGrouped redis position) (self : StreamConsumer) where
  abbrev here : R → Option String
  here v = position v self.stream self.group

  abbrev create : R → Result (Unit {0}) × R
  create = redis.xgroup_create self.stream self.group "0" true

  -- An error that says that the group exists is a return, any other is raised.
  returned : (r v : R) → create r ≡ (ok tt, v) → ensure_group redis self r ≡ (ok tt, v)
  unfolding ensure_group
  returned r v p = ground arith

  abbrev pick : Bool → Exn → Action R (Unit {0})
  pick busy exc = if busy then pure tt else raise exc

  swallowed :
      (r v : R) (e : Exn)
      → create r ≡ (err e, v)
      → is_busygroup e ≡ true
      → ensure_group redis self r ≡ (ok tt, v)
  unfolding ensure_group
  swallowed r v e p q =
      ap (λ s. try_except (λ _. s) (λ exc. pick (is_busygroup exc) exc) r) p
      ∙ ap (λ b. pick b e v) q

  raised :
      (r v : R) (e : Exn)
      → create r ≡ (err e, v)
      → is_busygroup e ≡ false
      → ensure_group redis self r ≡ (err e, v)
  unfolding ensure_group
  raised r v e p q =
      ap (λ s. try_except (λ _. s) (λ exc. pick (is_busygroup exc) exc) r) p
      ∙ ap (λ b. pick b e v) q

  kept : (r v : R) (e : Exn) → here v ≡ here r → IsEnsured (here r) (err e) (here v)
  kept r v e same = elim (Option-cases (here r)) [
    | inl none_here ↦ rw (same, none_here) (inl refl)
    | inr (j, old) ↦ rw (same, old) refl
  ]

  -- However `ensure_group` ends, a consumer group that exists keeps its place in the stream; one
  -- that does not exist yet stands at the stream's first entry if the call returns, and otherwise
  -- there or is still missing. This is provided XGROUP CREATE behaves as documented.
  pub ensure_group-IsEnsured :
      (r : R)
      → IsEnsured (here r) (ensure_group redis self r).0 (here (ensure_group redis self r).1)
  ensure_group-IsEnsured r = elim (run-cases create r) [
    | inl (_, v, p) ↦
        let (new, set) = laws.create_ok self.stream self.group "0" true r (ap (λ s. s.0) p) in
        rw (returned r v p, new) (ap (λ s. here s.1) (sym p) ∙ set)
    | inr (e, v, p) ↦ elim (Bool-cases (is_busygroup e)) [
      | inl q ↦
          let (j, old, same) =
            laws.create_busy self.stream self.group "0" true r e (ap (λ s. s.0) p) q in
          rw (swallowed r v e p q, old) (ap (λ s. here s.1) (sym p) ∙ same)
      | inr q ↦ elim (laws.create_err self.stream self.group "0" true r e (ap (λ s. s.0) p)) [
        | inl same ↦ rw (raised r v e p q) (kept r v e (ap (λ s. here s.1) (sym p) ∙ same))
        | inr (new, set) ↦ rw (raised r v e p q, new) (inr (ap (λ s. here s.1) (sym p) ∙ set))
      ]
    ]
  ]
