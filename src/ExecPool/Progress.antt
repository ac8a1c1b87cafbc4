-- ===== src/ExecPool/Progress.antt =====
-- The turns of one worker of include/alpaka/core/ConcurrentExecPool.hpp, from one sleep to the next.
use alpaka.Base.{
  ℕ, zero, suc, ◌+◌, ◌-◌, ◌*◌, ◌≤◌, ◌≡◌, ◌≢◌, inl, inr, refl, sym, ap, ap₂, subst, ◌∙◌, Bool, true,
  false, not, ◌||◌, List, [], ◌∷◌, ◌++◌, some, arith, length, get_elem?, set, replicate,
  if◌then◌else◌,
}
use mathlib.Core.List.{append-nil}
use alpaka.ExecPool.{
  Task, Outcome, Worker, checking, popping, executing, decrementing, promising, idling, waiting,
  notified, ended, Core, Pool, is_empty, with_flags, advance, run_task, Event, work, all_ended,
  work_at, step, run, fresh, start,
}
use alpaka.ExecPool.Accounts.{start-fresh}
use alpaka.ExecPool.Sequence.{idents, due, PoolInOrder}
use alpaka.ExecPool.Order.{run-InOrder}
use alpaka.ExecPool.Alert.{PoolAlert, run-Alert}

-- A pool that is neither detached nor being destroyed.
abbrev calm : List Task → ℕ → List ℕ → List Outcome → Core
calm ts active calls outcomes = record {
  tasks = ts;
  num_active_tasks = active;
  shutdown_flag = false;
  detached_flag = false;
  calls = calls;
  outcomes = outcomes;
}

-- An upper bound of the turns of the worker up to its sleep.
abbrev rank : Worker → Bool → ℕ
rank checking empty = if empty then 3 else 7
rank popping empty = if empty then 2 else 6
rank (executing t) empty = 11
rank (decrementing t) empty = 10
rank (promising t) empty = 9
rank idling empty = if empty then 1 else 8
rank waiting empty = 0
rank notified empty = if empty then 1 else 8
rank ended empty = 0

abbrev measure : Worker → List Task → ℕ
measure x ts = 7 * length ts + rank x (is_empty ts)

-- A worker that has not ended, and sleeps only where there is no task.
abbrev Ready : Worker → List Task → Type 0
Ready x ts = (x ≢ ended) × (x ≡ waiting → ts ≡ [])

-- A turn of the worker.
abbrev Turned : Worker → List Task → ℕ → List ℕ → List Outcome → Type 0
Turned x ts active calls outcomes =
    (y : Worker) × (us : List Task) × (b : ℕ) × (cs : List ℕ) × (os : List Outcome) × ((advance x
        (calm ts active calls outcomes)).1
      ≡ y)
    × ((advance x (calm ts active calls outcomes)).0 ≡ calm us b cs os)
    × Ready y us
    × (measure y us ≤ measure x ts - 1)

idles : (ts : List Task) → measure idling ts ≤ 7 * length ts + 8
unfolding is_empty
idles [] = omega arith
idles (t ∷ ts) = omega arith

-- After the call of a task.
ran :
    (b : Bool) (t : Task) (ts : List Task) (a : ℕ) (cs : List ℕ) (os : List Outcome)
    → (y : Worker) × (us : List Task) × (d : ℕ) × (ds : List ℕ) × (ps : List Outcome) × ((run_task b
          t
          (calm ts a cs os)).1
        ≡ y)
      × ((run_task b t (calm ts a cs os)).0 ≡ calm us d ds ps)
      × Ready y us
      × (measure y us ≤ measure (executing t) ts - 1)
unfolding run_task
ran true t ts a cs os =
    (idling, ts, a, _, _, refl, refl, ((λ e. cc), (λ e. absurd (cc))), omega (arith, idles ts))
ran false t ts a cs os =
    (decrementing t, ts, a, _, _, refl, refl, ((λ e. cc), (λ e. absurd (cc))), omega arith)

turned :
    (x : Worker) (ts : List Task) (active : ℕ) (calls : List ℕ) (outcomes : List Outcome)
    → Ready x ts
    → Turned x ts active calls outcomes
unfolding advance is_empty
turned checking [] a cs os r =
    (popping, [], a, cs, os, refl, refl, ((λ e. cc), (λ e. refl)), omega arith)
turned checking (t ∷ ts) a cs os r =
    (popping, t ∷ ts, a, cs, os, refl, refl, ((λ e. cc), (λ e. absurd (cc))), omega arith)
turned popping [] a cs os r =
    (idling, [], a, cs, os, refl, refl, ((λ e. cc), (λ e. refl)), omega arith)
turned popping (t ∷ ts) a cs os r =
    (executing t, ts, a, cs, os, refl, refl, ((λ e. cc), (λ e. absurd (cc))), omega arith)
turned (executing t) ts a cs os r = ran t.throws t ts a cs os
turned (decrementing t) ts a cs os r =
    (promising t, ts, _, cs, os, refl, refl, ((λ e. cc), (λ e. absurd (cc))), omega arith)
turned (promising t) ts a cs os r =
    (idling, ts, a, cs, _, refl, refl, ((λ e. cc), (λ e. absurd (cc))), omega (arith, idles ts))
turned idling [] a cs os r =
    (waiting, [], a, cs, os, refl, refl, ((λ e. cc), (λ e. refl)), omega arith)
turned idling (t ∷ ts) a cs os r =
    (checking, t ∷ ts, a, cs, os, refl, refl, ((λ e. cc), (λ e. absurd (cc))), omega arith)
turned waiting ts a cs os r =
    let empty : length ts ≡ 0 = ap length (r.1 refl) in
    (waiting, ts, a, cs, os, refl, refl, ((λ e. cc), (λ e. r.1 refl)), omega (arith, empty))
turned notified [] a cs os r =
    (waiting, [], a, cs, os, refl, refl, ((λ e. cc), (λ e. refl)), omega arith)
turned notified (t ∷ ts) a cs os r =
    (checking, t ∷ ts, a, cs, os, refl, refl, ((λ e. cc), (λ e. absurd (cc))), omega arith)
turned ended ts a cs os r = absurd (r.0 refl)

-- The worker sleeps and the queue is empty.
abbrev AtRest : Pool → List Task → Type 0
AtRest u pushed = (u.workers ≡ waiting ∷ []) × (u.core.tasks ≡ []) × (u.pushed ≡ pushed)

at_rest : (x : Worker) (ts : List Task) → Ready x ts → measure x ts ≤ 0 → (x ≡ waiting) × (ts ≡ [])
unfolding is_empty
at_rest waiting [] r m = (refl, refl)
at_rest ended ts r m = absurd (r.0 refl)
at_rest checking [] r m = absurd (omega arith)
at_rest popping [] r m = absurd (omega arith)
at_rest idling [] r m = absurd (omega arith)
at_rest notified [] r m = absurd (omega arith)
at_rest (executing t) ts r m = absurd (omega arith)
at_rest (decrementing t) ts r m = absurd (omega arith)
at_rest (promising t) ts r m = absurd (omega arith)
at_rest checking (t ∷ ts) r m = absurd (omega arith)
at_rest popping (t ∷ ts) r m = absurd (omega arith)
at_rest idling (t ∷ ts) r m = absurd (omega arith)
at_rest waiting (t ∷ ts) r m = absurd (omega arith)
at_rest notified (t ∷ ts) r m = absurd (omega arith)

comes_to_rest :
    (n : ℕ) (s : Pool) (x : Worker) (ts : List Task) (a : ℕ) (cs : List ℕ) (os : List Outcome)
    → s.workers ≡ x ∷ []
    → s.core ≡ calm ts a cs os
    → Ready x ts
    → measure x ts ≤ n
    → AtRest (run (replicate n (work 0)) s) s.pushed
unfolding run step work_at
comes_to_rest zero s x ts a cs os one core r m =
    let (sleeps, empty) = at_rest x ts r m in
    (one ∙ ap (λ (y : Worker). y ∷ []) sleeps, ap (λ (c : Core). c.tasks) core ∙ empty, refl)
comes_to_rest (suc n) s x ts a cs os one core r m =
    let (y, us, b, ds, ps, to_y, to_core, ready, less) = turned x ts a cs os r in
    let next : step (work 0) s ≡ (record s {
      core = (advance x s.core).0;
      workers = set s.workers 0 (advance x s.core).1;
    }) =
      ap (λ (q : List Worker). work_at s 0 (get_elem? q 0)) one in
    let workers : (step (work 0) s).workers ≡ y ∷ [] =
      ap (λ (q : Pool). q.workers) next
      ∙ ap (λ (q : List Worker). set q 0 (advance x s.core).1) one
      ∙ ap (λ (z : Worker). z ∷ []) (ap (λ c. (advance x c).1) core ∙ to_y) in
    let after : (step (work 0) s).core ≡ calm us b ds ps =
      ap (λ (q : Pool). q.core) next ∙ ap (λ c. (advance x c).0) core ∙ to_core in
    let (u_workers, u_tasks, u_pushed) =
      comes_to_rest n (step (work 0) s) y us b ds ps workers after ready (omega (arith, less, m)) in
    (u_workers, u_tasks, u_pushed ∙ ap (λ (q : Pool). q.pushed) next)

measure_le : (x : Worker) (ts : List Task) → measure x ts ≤ 7 * length ts + 11
unfolding is_empty
measure_le checking [] = omega arith
measure_le checking (t ∷ ts) = omega arith
measure_le popping [] = omega arith
measure_le popping (t ∷ ts) = omega arith
measure_le (executing t) ts = omega arith
measure_le (decrementing t) ts = omega arith
measure_le (promising t) ts = omega arith
measure_le idling ts = omega (arith, idles ts)
measure_le waiting ts = omega arith
measure_le notified [] = omega arith
measure_le notified (t ∷ ts) = omega arith
measure_le ended ts = omega arith

ended_absurd : all_ended (ended ∷ []) ≡ false → ⊥
unfolding all_ended
ended_absurd e = absurd (cc)

no_tasks : (ts : List Task) (a b : Bool) → ((not (is_empty ts) || a) || b) ≡ false → ts ≡ []
unfolding is_empty
no_tasks [] a b e = refl
no_tasks (t ∷ ts) a b e = absurd (cc)

begun : PoolInOrder (fresh 1) × PoolAlert (fresh 1)
begun = (
  (checking, refl, record { left = []; sequence = refl; rest = inl refl }),
  (checking, refl, λ e. absurd (cc)),
)

-- In order, with nothing left.
all_called :
    (u : Pool) (pushed : List Task) → PoolInOrder u → AtRest u pushed → u.core.calls ≡ idents pushed
all_called u pushed (x, one, h) (sleeps, empty, same) =
    let x_eq : x ≡ waiting = (let e : x ∷ [] ≡ waiting ∷ [] = sym one ∙ sleeps in cc) in
    elim h.rest [
      | inl left_eq ↦
          let nothing : h.left ≡ [] = sym left_eq ∙ ap idents empty in
          sym (append-nil u.core.calls)
          ∙ ap₂ (λ (p q : List ℕ). u.core.calls ++ (p ++ q)) (sym (ap due x_eq)) (sym nothing)
          ∙ h.sequence
          ∙ ap idents same
      | inr over ↦ absurd (let f : waiting ≡ ended = sym x_eq ∙ over in cc)
    ]

-- A pool with one worker, after any steps that leave it neither detached nor being destroyed, with the worker
-- alive and every notification made: after 7 turns of the worker for each task in the queue and 11 more,
-- without any further notification or spurious wake-up, the queue is empty, the worker sleeps, and it has
-- called every task pushed, in the order they were pushed and each of them once. So no wake-up is lost.
pub work-runs_all :
    (s : Pool) (events : List Event)
    → start 1 ≡ some s
    → (run events s).core.shutdown_flag ≡ false
    → (run events s).core.detached_flag ≡ false
    → all_ended (run events s).workers ≡ false
    → (run events s).notices ≡ []
    → (let t = run events s in
        let u = run (replicate (7 * length t.core.tasks + 11) (work 0)) t in
        (u.core.calls ≡ idents t.pushed) × (u.core.tasks ≡ []) × (u.workers ≡ waiting ∷ []))
work-runs_all s events made runs attached alive quiet =
    let t : Pool = run events s in
    let begins : PoolInOrder s × PoolAlert s =
      subst (λ q. PoolInOrder q × PoolAlert q) (sym (start-fresh 1 s made)) begun in
    let (x, one, alert) = run-Alert events s begins.1 in
    let c = t.core in
    let core : c ≡ calm c.tasks c.num_active_tasks c.calls c.outcomes =
      unfold with_flags in ap₂ (with_flags c) runs attached in
    let n = 7 * length c.tasks + 11 in
    let not_ended : x ≢ ended =
      λ e. ended_absurd (sym (ap all_ended (one ∙ ap (λ (y : Worker). y ∷ []) e)) ∙ alive) in
    let asleep : x ≡ waiting → c.tasks ≡ [] = λ e. elim (alert e) [
      | inl notice ↦ absurd (omega (arith, ap length quiet, notice))
      | inr nothing ↦ no_tasks c.tasks c.shutdown_flag c.detached_flag nothing
    ] in
    let rest : AtRest (run (replicate n (work 0)) t) t.pushed =
      comes_to_rest n t x c.tasks c.num_active_tasks c.calls c.outcomes one core (not_ended, asleep)
        (measure_le x c.tasks) in
    let in_order : PoolInOrder (run (replicate n (work 0)) t) =
      run-InOrder (replicate n (work 0)) t (run-InOrder events s begins.0) in
    (all_called (run (replicate n (work 0)) t) t.pushed in_order rest, rest.1, rest.0)
