-- ===== src/ExecPool/Alert.antt =====
-- What one worker of include/alpaka/core/ConcurrentExecPool.hpp sleeps for, and the notifications to come.
use alpaka.Base.{
  ℕ, zero, suc, ◌<◌, ◌≡◌, ◌≢◌, ◌⊎◌, inl, inr, refl, sym, ap, ◌∙◌, Bool, true, false, not, ◌||◌,
  Bool-cases, List, [], ◌∷◌, Option, none, some, arith, length, get_elem?, set, map,
}
use alpaka.Tally.{length-snoc}
use alpaka.ExecPool.{
  Task, Worker, checking, popping, executing, decrementing, promising, idling, waiting, notified,
  ended, Notice, to_one, to_all, Core, Pool, is_empty, with_active, pop_task, popped, run_task,
  check_idle, advance, is_waiting, wake, wake_one, notify_first, wake_at, Event, enqueue, push,
  work, notify, spurious_wake_up, detach, shut_down, drain, all_ended, push_first, work_at, step,
  run,
}
use alpaka.ExecPool.Order.{wake_one_single, single_ended}

-- What the wait for the condition tests.
abbrev pub wakes : Core → Bool
wakes c = not (is_empty c.tasks) || c.shutdown_flag || c.detached_flag

abbrev pub Alert : Worker → Core → List Notice → Type 0
Alert x c ns = x ≡ waiting → (0 < length ns) ⊎ (wakes c ≡ false)

abbrev pub PoolAlert : Pool → Type 0
PoolAlert s = (x : Worker) × (s.workers ≡ x ∷ []) × Alert x s.core s.notices

popped-awake : (c : Core) (o : Option (Task × List Task)) → (popped c o).1 ≢ waiting
unfolding popped
popped-awake c none e = absurd (cc)
popped-awake c (some (t, ts)) e = absurd (cc)

run_task-awake : (t : Task) (c : Core) (throws : Bool) → (run_task throws t c).1 ≢ waiting
unfolding run_task
run_task-awake t c true e = absurd (cc)
run_task-awake t c false e = absurd (cc)

check_idle-Alert :
    (c : Core) (more detached shutdown : Bool) (ns : List Notice)
    → wakes c ≡ (more || shutdown || detached)
    → Alert (check_idle more detached shutdown c).1 (check_idle more detached shutdown c).0 ns
unfolding check_idle
check_idle-Alert c true detached shutdown ns e = λ h. absurd (cc)
check_idle-Alert c false true shutdown ns e = λ h. absurd (cc)
check_idle-Alert c false false true ns e = λ h. absurd (cc)
check_idle-Alert c false false false ns e = λ h. inr e

advance-Alert :
    (x : Worker) (c : Core) (ns : List Notice)
    → Alert x c ns
    → Alert (advance x c).1 (advance x c).0 ns
unfolding advance
advance-Alert checking c ns h = elim (Bool-cases c.shutdown_flag) [
  | inl shut ↦ rw shut (λ e. absurd (cc))
  | inr runs ↦ rw runs (λ e. absurd (cc))
]
advance-Alert popping c ns h = λ e. absurd (popped-awake c (pop_task c.tasks) e)
advance-Alert (executing t) c ns h = λ e. absurd (run_task-awake t c t.throws e)
advance-Alert (decrementing t) c ns h = λ e. absurd (cc)
advance-Alert (promising t) c ns h = λ e. absurd (cc)
advance-Alert idling c ns h =
    check_idle-Alert c (not (is_empty c.tasks)) c.detached_flag c.shutdown_flag ns refl
advance-Alert waiting c ns h = h
advance-Alert notified c ns h = elim (Bool-cases (wakes c)) [
  | inl there ↦ rw there (λ e. absurd (cc))
  | inr still ↦ λ e. inr still
]
advance-Alert ended c ns h = λ e. absurd (cc)

wake-awake : (x : Worker) → wake x ≢ waiting
unfolding wake is_waiting
wake-awake checking e = absurd (cc)
wake-awake popping e = absurd (cc)
wake-awake (executing t) e = absurd (cc)
wake-awake (decrementing t) e = absurd (cc)
wake-awake (promising t) e = absurd (cc)
wake-awake idling e = absurd (cc)
wake-awake waiting e = absurd (cc)
wake-awake notified e = absurd (cc)
wake-awake ended e = absurd (cc)

push_first-Alert :
    (s : Pool) (o : Option (Task × List Task)) → PoolAlert s → PoolAlert (push_first s o)
unfolding push_first
push_first-Alert s none h = h
push_first-Alert s (some (t, ts)) (x, one, h) =
    (x, one, λ e. inl (omega (arith, length-snoc s.notices to_one)))

-- The one worker is the one that a step is about.
first_of :
    (s : Pool) (i : ℕ) (x y : Worker)
    → s.workers ≡ x ∷ []
    → get_elem? s.workers i ≡ some y
    → (i ≡ 0) × (x ≡ y)
first_of s zero x y one e =
    let same : some x ≡ some y = sym (ap (λ (q : List Worker). get_elem? q 0) one) ∙ e in (refl, cc)
first_of s (suc i) x y one e =
    let absent : none ≡ some y = sym (ap (λ (q : List Worker). get_elem? q (suc i)) one) ∙ e in
    absurd (cc)

work_at-Alert :
    (i : ℕ) (s : Pool) (o : Option Worker)
    → get_elem? s.workers i ≡ o
    → PoolAlert s
    → PoolAlert (work_at s i o)
unfolding work_at
work_at-Alert i s none e h = h
work_at-Alert i s (some y) e (x, one, h) =
    let (z, same) = first_of s i x y one e in
    let u : Worker = (advance y s.core).1 in
    (
      u,
      ap (λ (k : ℕ). set s.workers k u) z ∙ ap (λ (q : List Worker). set q 0 u) one,
      advance-Alert y s.core s.notices (λ w. h (same ∙ w)),
    )

notify_first-Alert :
    (i : ℕ) (s : Pool) (ns : List Notice) → PoolAlert s → PoolAlert (notify_first i s ns)
unfolding notify_first
notify_first-Alert i s [] h = h
notify_first-Alert i s (to_one ∷ ns) (x, one, h) =
    (wake x, ap (wake_one i) one ∙ wake_one_single i x, λ e. absurd (wake-awake x e))
notify_first-Alert i s (to_all ∷ ns) (x, one, h) =
    (wake x, ap (map wake) one, λ e. absurd (wake-awake x e))

wake_at-Alert :
    (i : ℕ) (s : Pool) (o : Option Worker)
    → get_elem? s.workers i ≡ o
    → PoolAlert s
    → PoolAlert (wake_at i s o)
unfolding wake_at
wake_at-Alert i s none e h = h
wake_at-Alert i s (some y) e (x, one, h) =
    let (z, same) = first_of s i x y one e in
    (
      wake y,
      ap (λ (k : ℕ). set s.workers k (wake y)) z ∙ ap (λ (q : List Worker). set q 0 (wake y)) one,
      λ w. absurd (wake-awake y w),
    )

step-Alert : (e : Event) (s : Pool) → PoolAlert s → PoolAlert (step e s)
unfolding step with_active
step-Alert (enqueue t) s h = h
step-Alert push s h = push_first-Alert s (pop_task s.pending) h
step-Alert (work i) s h = work_at-Alert i s (get_elem? s.workers i) refl h
step-Alert (notify i) s h = notify_first-Alert i s s.notices h
step-Alert (spurious_wake_up i) s h = wake_at-Alert i s (get_elem? s.workers i) refl h
step-Alert detach s (x, one, h) = (x, one, λ e. inl (omega (arith, length-snoc s.notices to_one)))
step-Alert shut_down s (x, one, h) =
    (x, one, λ e. inl (omega (arith, length-snoc s.notices to_all)))
step-Alert drain s (x, one, h) = elim (Bool-cases (all_ended s.workers)) [
  | inl over ↦
      let gone : x ≡ ended = single_ended x (sym (ap all_ended one) ∙ over) in
      (x, one, λ e. absurd (let f : waiting ≡ ended = sym e ∙ gone in cc))
  | inr runs ↦ rw runs (x, one, h)
]

pub run-Alert : (events : List Event) (s : Pool) → PoolAlert s → PoolAlert (run events s)
unfolding run
run-Alert [] s h = h
run-Alert (e ∷ events) s h = run-Alert events (step e s) (step-Alert e s h)
