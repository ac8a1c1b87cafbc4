-- ===== src/ExecPool/Accounts.antt =====
-- `m_numActiveTasks` of include/alpaka/core/ConcurrentExecPool.hpp, for any number of workers.
use alpaka.Base.{
  map, set, ℕ, suc, ◌+◌, ◌%◌, ◌^◌, ◌≤◌, ◌<◌, ◌≡◌, refl, ap, subst, ◌∙◌, inl, inr, true, false, Bool,
  Bool-cases, List, [], ◌∷◌, Option, none, some, arith, length, get_elem?, replicate, ◌==◌,
  if◌then◌else◌,
}
use native.Mathlib.Nat.{mod-eq_of_lt}
use alpaka.ExecPool.Wake.{wake_one_lem, wake_all_lem, wake_at_lem}
use alpaka.Tally.{tally, tally_vanishes, tally-snoc, length-snoc, All-replicate}
use alpaka.ExecPool.{
  Task, pool_destroyed, Worker, checking, Core, Pool, plus_one, with_tasks, with_active, with_flags,
  with_history, pop_task, Event, enqueue, push, work, notify, spurious_wake_up, Notice, to_one,
  to_all, notify_first, wake_at, wake, wake_one, detach, shut_down, drain, all_ended, drained,
  drain_one, push_first, work_at, step, run, fresh, start,
}
use alpaka.ExecPool.Weights.{busy, thrown, destroyed, Adds, pop_task-length, advance-Adds}

Adds-more :
    (n m : ℕ) (c : Core) (ws : List Worker) (pending pushed : List Task)
    → n ≤ m
    → Adds n c ws pending pushed
    → Adds m c ws pending pushed
Adds-more n m c ws pending pushed le h = record {
  active = h.active;
  bounded = omega (arith, le, h.bounded);
}

plus_one_lem : (a : ℕ) → suc a < 2 ^ 32 → plus_one a ≡ suc a
unfolding plus_one
plus_one_lem a small =
    ap (λ (t : ℕ). t % 2 ^ 32) (let e : a + 1 ≡ suc a = omega arith in e) ∙ mod-eq_of_lt small

abbrev pub AddsUp : ℕ → Pool → Type 0
AddsUp bound s = Adds bound s.core s.workers s.pending s.pushed

drained-Adds :
    (bound : ℕ) (c : Core) (o : Option (Task × List Task)) (ws : List Worker)
    (pending pushed : List Task)
    → pop_task c.tasks ≡ o
    → Adds bound c ws pending pushed
    → Adds bound (drained c o) ws pending pushed
unfolding drained with_tasks with_history
drained-Adds bound c none ws pending pushed e h = h
drained-Adds bound c (some (t, ts)) ws pending pushed e h =
    let o = pool_destroyed t.ident in
    let less = pop_task-length c.tasks t ts e in
    let n = tally-snoc thrown c.outcomes o in
    let d = tally-snoc destroyed c.outcomes o in
    record {
      active = omega (arith, less, n, d, h.active);
      bounded = omega (arith, less, n, d, h.bounded);
    }

drain-Adds :
    (bound : ℕ) (c : Core) (ends : Bool) (ws : List Worker) (pending pushed : List Task)
    → Adds bound c ws pending pushed
    → Adds bound (if ends then drain_one c else c) ws pending pushed
unfolding drain_one
drain-Adds bound c true ws pending pushed h =
    drained-Adds bound c (pop_task c.tasks) ws pending pushed refl h
drain-Adds bound c false ws pending pushed h = h

push_first-AddsUp :
    (bound : ℕ) (s : Pool) (o : Option (Task × List Task))
    → pop_task s.pending ≡ o
    → AddsUp bound s
    → AddsUp bound (push_first s o)
unfolding push_first with_tasks
push_first-AddsUp bound s none e h = h
push_first-AddsUp bound s (some (t, ts)) e h =
    let less = pop_task-length s.pending t ts e in
    let m = length-snoc s.core.tasks t in
    record {
      active = omega (arith, less, m, h.active);
      bounded = omega (arith, less, m, h.bounded);
    }

work_at-AddsUp :
    (bound i : ℕ) (s : Pool) (o : Option Worker)
    → bound < 2 ^ 32
    → get_elem? s.workers i ≡ o
    → AddsUp bound s
    → AddsUp bound (work_at s i o)
unfolding work_at
work_at-AddsUp bound i s none small e h = h
work_at-AddsUp bound i s (some x) small e h =
    advance-Adds bound small s.workers i s.pending s.pushed x s.core e h

-- Workers that weigh the same.
Adds-same :
    (bound : ℕ) (c : Core) (ws xs : List Worker) (pending pushed : List Task)
    → tally busy xs ≡ tally busy ws
    → Adds bound c ws pending pushed
    → Adds bound c xs pending pushed
Adds-same bound c ws xs pending pushed b h = record {
  active = omega (arith, b, h.active);
  bounded = omega (arith, b, h.bounded);
}

notify_first-AddsUp :
    (bound i : ℕ) (s : Pool) (ns : List Notice)
    → AddsUp bound s
    → AddsUp bound (notify_first i s ns)
unfolding notify_first
notify_first-AddsUp bound i s [] h = h
notify_first-AddsUp bound i s (to_one ∷ ns) h =
    Adds-same bound s.core s.workers (wake_one i s.workers) s.pending s.pushed
      (wake_one_lem busy refl i s.workers) h
notify_first-AddsUp bound i s (to_all ∷ ns) h =
    Adds-same bound s.core s.workers (map wake s.workers) s.pending s.pushed
      (wake_all_lem busy refl s.workers) h

wake_at-AddsUp :
    (bound i : ℕ) (s : Pool) (o : Option Worker)
    → get_elem? s.workers i ≡ o
    → AddsUp bound s
    → AddsUp bound (wake_at i s o)
unfolding wake_at
wake_at-AddsUp bound i s none e h = h
wake_at-AddsUp bound i s (some x) e h =
    Adds-same bound s.core s.workers (set s.workers i (wake x)) s.pending s.pushed
      (wake_at_lem busy refl s.workers i x e) h

pub step-AddsUp :
    (bound : ℕ) (e : Event) (s : Pool)
    → suc bound < 2 ^ 32
    → AddsUp bound s
    → AddsUp (suc bound) (step e s)
unfolding step with_active with_flags
step-AddsUp bound (enqueue t) s small h =
    let a = plus_one_lem s.core.num_active_tasks (omega (arith, h.active, h.bounded)) in
    let p = length-snoc s.pending t in
    record { active = omega (arith, a, p, h.active); bounded = omega (arith, p, h.bounded) }
step-AddsUp bound push s small h =
    let q = push_first s (pop_task s.pending) in
    Adds-more bound (suc bound) q.core q.workers q.pending q.pushed (omega arith)
      (push_first-AddsUp bound s (pop_task s.pending) refl h)
step-AddsUp bound (work i) s small h =
    let q = work_at s i (get_elem? s.workers i) in
    Adds-more bound (suc bound) q.core q.workers q.pending q.pushed (omega arith)
      (work_at-AddsUp bound i s (get_elem? s.workers i) (omega arith) refl h)
step-AddsUp bound (notify i) s small h =
    let q = notify_first i s s.notices in
    Adds-more bound (suc bound) q.core q.workers q.pending q.pushed (omega arith)
      (notify_first-AddsUp bound i s s.notices h)
step-AddsUp bound (spurious_wake_up i) s small h =
    let q = wake_at i s (get_elem? s.workers i) in
    Adds-more bound (suc bound) q.core q.workers q.pending q.pushed (omega arith)
      (wake_at-AddsUp bound i s (get_elem? s.workers i) refl h)
step-AddsUp bound detach s small h = record {
  active = h.active;
  bounded = omega (arith, h.bounded);
}
step-AddsUp bound shut_down s small h = record {
  active = h.active;
  bounded = omega (arith, h.bounded);
}
step-AddsUp bound drain s small h =
    let c = if all_ended s.workers then drain_one s.core else s.core in
    Adds-more bound (suc bound) c s.workers s.pending s.pushed (omega arith)
      (drain-Adds bound s.core (all_ended s.workers) s.workers s.pending s.pushed h)

pub run-AddsUp :
    (events : List Event) (bound : ℕ) (s : Pool)
    → length events + bound < 2 ^ 32
    → AddsUp bound s
    → AddsUp (length events + bound) (run events s)
unfolding run
run-AddsUp [] bound s small h =
    subst (λ q. AddsUp q s) (let e : bound ≡ 0 + bound = omega arith in e) h
run-AddsUp (e ∷ events) bound s small h =
    subst (λ q. AddsUp q (run events (step e s)))
      (let k : length events + suc bound ≡ suc (length events) + bound = omega arith in k)
      (run-AddsUp events (suc bound) (step e s) (omega arith)
        (step-AddsUp bound e s (omega arith) h))

pub start-fresh : (n : ℕ) (s : Pool) → start n ≡ some s → s ≡ fresh n
unfolding start
start-fresh n s e = elim (Bool-cases (n == 0)) [
  | inl z ↦ absurd (ground arith)
  | inr pos ↦ ground arith
]

pub fresh-AddsUp : (n : ℕ) → AddsUp 0 (fresh n)
fresh-AddsUp n =
    let b =
      tally_vanishes busy (replicate n checking)
        (All-replicate (λ x. busy x ≡ 0) n checking refl) in
    record { active = omega (arith, b); bounded = omega (arith, b) }
