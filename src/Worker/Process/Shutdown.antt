-- ===== src/Worker/Process/Shutdown.antt =====
-- How `run_worker` ends when its TaskGroup does.
use mathlib.Core.Logic.Or
use mathlib.Core.Path.{subst}
use mathlib.Core.List.{
  Mem, mem-cons_self, mem-cons_of_mem, eq-or-mem_of_mem-cons, not-mem-nil, Mem-prop,
}
use txn_event_processor.Prelude.{
  Bool-cases, ℕ, Bool, true, List, [], ◌∷◌, ◌≡◌, ◌≢◌, ◌↔◌, ◌⊎◌, inl, inr, refl, sym, ap, ◌∙◌, arith,
  keep, not, All,
}
use txn_event_processor.Core.Config.{Settings}
use txn_event_processor.Core.Errors.{Exn, shutdown_requested}
use txn_event_processor.Action.{ok}
use txn_event_processor.Services.External.{External}
use txn_event_processor.Services.World.{World}
use txn_event_processor.Worker.Process.{
  Exit, finished, raised_group, group, Libraries, is_shutdown, exit_of, except_shutdown, run_worker,
  set_up, tasks, close_all,
}

Bool_set : IsSet Bool
Bool_set = hlevel

module _ (p : Exn → Bool) (e : Exn) where
  Mem-keep : (l : List Exn) → Mem e l → p e ≡ true → Mem e (keep p l)
  Mem-keep [] m h = absurd (not-mem-nil m)
  Mem-keep (x ∷ l) m h = elim (Bool-cases (p x)) [
    | inl q ↦
        rw (q, keep)
          (Or.elim Mem-prop (eq-or-mem_of_mem-cons m)
            (λ s. subst (λ z. Mem e (z ∷ keep p l)) s mem-cons_self)
            (λ n. mem-cons_of_mem x (Mem-keep l n h)))
    | inr q ↦
        rw (q, keep)
          (Or.elim Mem-prop (eq-or-mem_of_mem-cons m) (λ s. absurd (ground (arith, ap p s)))
            (λ n. Mem-keep l n h))
  ]

  keep-Mem : (l : List Exn) → Mem e (keep p l) → Mem e l
  keep-Mem [] m = m
  keep-Mem (x ∷ l) m = elim (Bool-cases (p x)) [
    | inl q ↦
        Or.elim Mem-prop (eq-or-mem_of_mem-cons (rw (q, keep) at m))
          (λ s. subst (λ z. Mem e (z ∷ l)) s mem-cons_self) (λ n. mem-cons_of_mem x (keep-Mem l n))
    | inr q ↦ mem-cons_of_mem x (keep-Mem l (rw (q, keep) at m))
  ]

  keep-holds : (l : List Exn) → Mem e (keep p l) → p e ≡ true
  keep-holds [] m = absurd (not-mem-nil m)
  keep-holds (x ∷ l) m = elim (Bool-cases (p x)) [
    | inl q ↦
        Or.elim (Bool_set _ _) (eq-or-mem_of_mem-cons (rw (q, keep) at m)) (λ s. ap p s ∙ q)
          (λ n. keep-holds l n)
    | inr q ↦ keep-holds l (rw (q, keep) at m)
  ]

shutdown-test : (e : Exn) → not (is_shutdown e) ≡ true → e ≢ shutdown_requested
shutdown-test e h s = ground (arith, ap is_shutdown s)

shutdown_of_test : (e : Exn) → is_shutdown e ≡ true → e ≡ shutdown_requested
shutdown_of_test e h = ground arith

other-test : (e : Exn) → e ≢ shutdown_requested → not (is_shutdown e) ≡ true
other-test e h = elim (Bool-cases (is_shutdown e)) [
  | inl q ↦ absurd (h (shutdown_of_test e q))
  | inr q ↦ ground arith
]

keep-none :
    (es : List Exn) → keep (λ e. not (is_shutdown e)) es ≡ [] → All (λ e. e ≡ shutdown_requested) es
keep-none [] h = tt
keep-none (e ∷ es) h = elim (Bool-cases (is_shutdown e)) [
  | inl q ↦ (shutdown_of_test e q, keep-none es (ground arith))
  | inr q ↦ absurd (ground arith)
]

-- How `run_worker` ends when the group has the exceptions `es`: normally if they are all requests to
-- shut down, and else with the group of the others.
abbrev pub Settles : List Exn → Exit → Type 0
Settles es exit =
    ((exit ≡ finished) × All (λ e. e ≡ shutdown_requested) es)
    ⊎ ((rest : List Exn) × (exit ≡ raised_group rest)
        × ((e : Exn) → Mem e rest ↔ (Mem e es × (e ≢ shutdown_requested))))

exit-Settles : (es : List Exn) → Settles es (except_shutdown (group es))
unfolding except_shutdown
exit-Settles es = go (keep (λ e. not (is_shutdown e)) es) refl
  where
    go : (rest : List Exn) → keep (λ e. not (is_shutdown e)) es ≡ rest → Settles es (exit_of rest)
    go [] q = inl (refl, keep-none es q)
    go (x ∷ l) q = inr (
      x ∷ l,
      refl,
      λ e. (
        λ m.
            let n = subst (Mem e) (sym q) m in
            (
              keep-Mem (λ e. not (is_shutdown e)) e es n,
              shutdown-test e (keep-holds (λ e. not (is_shutdown e)) e es n),
            ),
        λ (m, ne). subst (Mem e) q (Mem-keep (λ e. not (is_shutdown e)) e es m (other-test e ne)),
      ),
    )

module _ (x : External) (lib : Libraries x) (settings : Settings) (lag_interval : ℕ) where
  run_worker_ends :
      (w u v t : World x) (es : List Exn)
      → set_up x lib settings w ≡ (ok tt, u)
      → lib.task_group (tasks x lib settings lag_interval) u ≡ (group es, v)
      → close_all x lib settings v ≡ (ok tt, t)
      → run_worker x lib settings lag_interval w ≡ (except_shutdown (group es), t)
  unfolding run_worker
  run_worker_ends w u v t es p q r = ground arith

  -- If the set-up returns, the TaskGroup ends with a group of exceptions and the three connections
  -- close, then `run_worker` finishes if every exception of the group is the request to shut down,
  -- and else raises the group of exactly the others, so that a crash beside a shutdown is never
  -- swallowed; in both cases the connections are closed.
  pub run_worker-Settles :
      (w u v t : World x) (es : List Exn)
      → set_up x lib settings w ≡ (ok tt, u)
      → lib.task_group (tasks x lib settings lag_interval) u ≡ (group es, v)
      → close_all x lib settings v ≡ (ok tt, t)
      → Settles es (run_worker x lib settings lag_interval w).0
        × ((run_worker x lib settings lag_interval w).1 ≡ t)
  run_worker-Settles w u v t es p q r =
      rw (run_worker_ends w u v t es p q r) (exit-Settles es, refl)
