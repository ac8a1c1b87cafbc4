-- ===== src/ExecPool/Order.antt =====
-- The order of the calls in include/alpaka/core/ConcurrentExecPool.hpp with one worker, as the queue that does
-- not block has it.
use alpaka.Base.{
  Bool-cases, map, ℕ, zero, suc, ◌≡◌, inl, inr, refl, sym, ap, subst, ◌∙◌, Bool, true, false, List,
  [], ◌∷◌, ◌++◌, Option, none, some, get_elem?, set, if◌then◌else◌,
}
use alpaka.ExecPool.{
  Task, Worker, checking, popping, executing, decrementing, promising, idling, waiting, notified,
  ended, Core, Pool, with_tasks, with_active, with_flags, with_history, pop_task, advance, Event,
  enqueue, push, work, notify, spurious_wake_up, Notice, to_one, to_all, notify_first, wake_at,
  wake, wake_one, wake_first, is_waiting, detach, shut_down, drain, all_ended, drain_one, drained,
  push_first, work_at, step, run, fresh, start,
}
use mathlib.Core.List.{append_assoc}
use alpaka.ExecPool.Wake.{is_waiting_lem}
use alpaka.ExecPool.Accounts.{start-fresh}
use alpaka.ExecPool.Sequence.{
  idents, due, InOrder, PoolInOrder, keeps, idents-snoc, advance-InOrder,
}

push_first-InOrder :
    (s : Pool) (o : Option (Task × List Task)) → PoolInOrder s → PoolInOrder (push_first s o)
unfolding push_first with_tasks
push_first-InOrder s none h = h
push_first-InOrder s (some (t, ts)) (x, one, h) = (
  x,
  one,
  record {
    left = h.left ++ t.ident ∷ [];
    sequence =
        ap (λ (q : List ℕ). s.core.calls ++ q) (sym (append_assoc (due x) h.left (t.ident ∷ [])))
        ∙ (sym (append_assoc s.core.calls (due x ++ h.left) (t.ident ∷ []))
            ∙ (ap (λ (q : List ℕ). q ++ t.ident ∷ []) h.sequence ∙ sym (idents-snoc s.pushed t)));
    rest = elim h.rest [
      | inl q ↦ inl (idents-snoc s.core.tasks t ∙ ap (λ (r : List ℕ). r ++ t.ident ∷ []) q)
      | inr q ↦ inr q
    ];
  },
)

work_at-InOrder :
    (i : ℕ) (s : Pool) (o : Option Worker)
    → get_elem? s.workers i ≡ o
    → PoolInOrder s
    → PoolInOrder (work_at s i o)
unfolding work_at
work_at-InOrder i s none e h = h
work_at-InOrder zero s (some y) e (x, one, h) =
    let same : some x ≡ some y = sym (ap (λ (q : List Worker). get_elem? q 0) one) ∙ e in
    let x_eq : x ≡ y = cc in
    let z : Worker = (advance y s.core).1 in
    (
      z,
      ap (λ (q : List Worker). set q 0 z) one,
      advance-InOrder y s.core s.pushed (subst (λ q. InOrder q s.core s.pushed) x_eq h),
    )
work_at-InOrder (suc i) s (some y) e (x, one, h) =
    let absent : none ≡ some y = sym (ap (λ (q : List Worker). get_elem? q (suc i)) one) ∙ e in
    absurd (cc)

pub single_ended : (x : Worker) → all_ended (x ∷ []) ≡ true → x ≡ ended
unfolding all_ended
single_ended checking e = absurd (cc)
single_ended popping e = absurd (cc)
single_ended (executing t) e = absurd (cc)
single_ended (decrementing t) e = absurd (cc)
single_ended (promising t) e = absurd (cc)
single_ended idling e = absurd (cc)
single_ended waiting e = absurd (cc)
single_ended notified e = absurd (cc)
single_ended ended e = refl

drained-InOrder :
    (x : Worker) (c : Core) (o : Option (Task × List Task)) (pushed : List Task)
    → x ≡ ended
    → InOrder x c pushed
    → InOrder x (drained c o) pushed
unfolding drained with_tasks with_history
drained-InOrder x c none pushed e h = h
drained-InOrder x c (some (t, ts)) pushed e h = record {
  left = h.left;
  sequence = h.sequence;
  rest = inr e;
}

drain-InOrder :
    (x : Worker) (c : Core) (b : Bool) (pushed : List Task)
    → all_ended (x ∷ []) ≡ b
    → InOrder x c pushed
    → InOrder x (if b then drain_one c else c) pushed
unfolding drain_one
drain-InOrder x c true pushed e h =
    drained-InOrder x c (pop_task c.tasks) pushed (single_ended x e) h
drain-InOrder x c false pushed e h = h

-- The one worker may be woken.
wake-InOrder :
    (x : Worker) (c : Core) (pushed : List Task) → InOrder x c pushed → InOrder (wake x) c pushed
unfolding wake
wake-InOrder x c pushed h = elim (Bool-cases (is_waiting x)) [
  | inl asleep ↦ rw asleep (
      keeps waiting notified c c pushed refl refl refl refl (λ e. cc)
        (subst (λ y. InOrder y c pushed) (is_waiting_lem x asleep) h))
  | inr awake ↦ rw awake h
]

pub wake_first_single : (x : Worker) → wake_first (x ∷ []) ≡ wake x ∷ []
unfolding wake_first wake
wake_first_single x = elim (Bool-cases (is_waiting x)) [
  | inl asleep ↦ rw asleep refl
  | inr awake ↦ rw awake refl
]

pub wake_one_single : (i : ℕ) (x : Worker) → wake_one i (x ∷ []) ≡ wake x ∷ []
unfolding wake_one wake
wake_one_single (suc i) x = wake_first_single x
wake_one_single zero x = elim (Bool-cases (is_waiting x)) [
  | inl asleep ↦ rw asleep refl
  | inr awake ↦ rw awake refl
]

notify_first-InOrder :
    (i : ℕ) (s : Pool) (ns : List Notice) → PoolInOrder s → PoolInOrder (notify_first i s ns)
unfolding notify_first
notify_first-InOrder i s [] h = h
notify_first-InOrder i s (to_one ∷ ns) (x, one, h) =
    (wake x, ap (wake_one i) one ∙ wake_one_single i x, wake-InOrder x s.core s.pushed h)
notify_first-InOrder i s (to_all ∷ ns) (x, one, h) =
    (wake x, ap (map wake) one, wake-InOrder x s.core s.pushed h)

wake_at-InOrder :
    (i : ℕ) (s : Pool) (o : Option Worker)
    → get_elem? s.workers i ≡ o
    → PoolInOrder s
    → PoolInOrder (wake_at i s o)
unfolding wake_at
wake_at-InOrder i s none e h = h
wake_at-InOrder zero s (some y) e (x, one, h) =
    let same : some x ≡ some y = sym (ap (λ (q : List Worker). get_elem? q 0) one) ∙ e in
    let x_eq : x ≡ y = cc in
    (
      wake y,
      ap (λ (q : List Worker). set q 0 (wake y)) one,
      wake-InOrder y s.core s.pushed (subst (λ q. InOrder q s.core s.pushed) x_eq h),
    )
wake_at-InOrder (suc i) s (some y) e (x, one, h) =
    let absent : none ≡ some y = sym (ap (λ (q : List Worker). get_elem? q (suc i)) one) ∙ e in
    absurd (cc)

step-InOrder : (e : Event) (s : Pool) → PoolInOrder s → PoolInOrder (step e s)
unfolding step with_active with_flags
step-InOrder (enqueue t) s (x, one, h) =
    (x, one, record { left = h.left; sequence = h.sequence; rest = h.rest })
step-InOrder push s h = push_first-InOrder s (pop_task s.pending) h
step-InOrder (work i) s h = work_at-InOrder i s (get_elem? s.workers i) refl h
step-InOrder (notify i) s h = notify_first-InOrder i s s.notices h
step-InOrder (spurious_wake_up i) s h = wake_at-InOrder i s (get_elem? s.workers i) refl h
step-InOrder detach s (x, one, h) =
    (x, one, record { left = h.left; sequence = h.sequence; rest = h.rest })
step-InOrder shut_down s (x, one, h) =
    (x, one, record { left = h.left; sequence = h.sequence; rest = h.rest })
step-InOrder drain s (x, one, h) =
    (x, one, drain-InOrder x s.core (all_ended s.workers) s.pushed (sym (ap all_ended one)) h)

pub run-InOrder : (events : List Event) (s : Pool) → PoolInOrder s → PoolInOrder (run events s)
unfolding run
run-InOrder [] s h = h
run-InOrder (e ∷ events) s h = run-InOrder events (step e s) (step-InOrder e s h)

-- A pool with one worker, after any steps, has called a beginning of the tasks pushed, in the order they were
-- pushed and each of them once.
pub calls-in_order :
    (s : Pool) (events : List Event)
    → start 1 ≡ some s
    → (left : List ℕ) × ((run events s).core.calls ++ left ≡ idents (run events s).pushed)
calls-in_order s events e =
    let begun : PoolInOrder (fresh 1) =
      (checking, refl, record { left = []; sequence = refl; rest = inl refl }) in
    let (x, one, h) = run-InOrder events s (subst PoolInOrder (sym (start-fresh 1 s e)) begun) in
    (due x ++ h.left, h.sequence)
