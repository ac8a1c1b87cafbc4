-- ===== src/ExecPool/Weights.antt =====
-- What counts as active in include/alpaka/core/ConcurrentExecPool.hpp.
use alpaka.Base.{
  ℕ, suc, ◌+◌, ◌-◌, ◌%◌, ◌^◌, ◌≤◌, ◌<◌, ◌≡◌, refl, ap, ◌∙◌, inl, inr, true, false, not, ◌||◌, Bool,
  Bool-cases, List, [], ◌∷◌, ◌++◌, Option, none, some, arith, length, get_elem?, set, if◌then◌else◌,
}
use native.Mathlib.Nat.{mod-eq_of_lt, add-mod_right}
use alpaka.Tally.{tally, tally-set, le-tally, tally-snoc}
use alpaka.ExecPool.{
  Task, Outcome, value, task_exception, pool_destroyed, Worker, checking, popping, executing,
  decrementing, promising, idling, waiting, notified, ended, Core, is_empty, less_one, with_tasks,
  with_active, with_flags, with_history, run_task, check_idle, pop_task, popped, advance,
}

-- A task that was popped and is still counted as active.
abbrev pub busy : Worker → ℕ
busy checking = 0
busy popping = 0
busy (executing t) = 1
busy (decrementing t) = 1
busy (promising t) = 0
busy idling = 0
busy waiting = 0
busy notified = 0
busy ended = 0

abbrev pub thrown : Outcome → ℕ
thrown (value n) = 0
thrown (task_exception n) = 1
thrown (pool_destroyed n) = 0

abbrev pub destroyed : Outcome → ℕ
destroyed (value n) = 0
destroyed (task_exception n) = 0
destroyed (pool_destroyed n) = 1

abbrev pub accounted : Core → List Worker → List Task → ℕ
accounted c ws pending =
    length pending
    + length c.tasks
    + tally busy ws
    + tally thrown c.outcomes
    + tally destroyed c.outcomes

pub record Adds (bound : ℕ) (c : Core) (ws : List Worker) (pending pushed : List Task)
    : Type 0 where
  pub active : c.num_active_tasks ≡ accounted c ws pending
  pub bounded : accounted c ws pending ≤ bound

pub less_one_lem : (a : ℕ) → 0 < a → a < 2 ^ 32 → less_one a ≡ a - 1
unfolding less_one
less_one_lem a pos small =
    ap (λ (t : ℕ). t % 2 ^ 32) (let e : a + 2 ^ 32 - 1 ≡ (a - 1) + 2 ^ 32 = omega arith in e)
    ∙ (add-mod_right (a - 1) (2 ^ 32) ∙ mod-eq_of_lt (omega arith))

pub pop_task-length :
    (xs : List Task) (t : Task) (ts : List Task)
    → pop_task xs ≡ some (t, ts)
    → length xs ≡ suc (length ts)
unfolding pop_task
pop_task-length [] t ts e = absurd (cc)
pop_task-length (x ∷ xs) t ts e = let k : xs ≡ ts = cc in ap (λ q. suc (length q)) k

module _ (bound : ℕ) (small : bound < 2 ^ 32) (ws : List Worker) (i : ℕ)
    (pending pushed : List Task) where
  -- The obligations of a step from `x` to `y`.
  pub moves :
      (x y : Worker) (c d : Core)
      → get_elem? ws i ≡ some x
      → (tally busy (set ws i y) + busy x ≡ tally busy ws + busy y
          → busy x ≤ tally busy ws
          → (d.num_active_tasks ≡ accounted d (set ws i y) pending)
            × (accounted d (set ws i y) pending ≤ bound))
      → Adds bound d (set ws i y) pending pushed
  moves x y c d at f =
      let (a, b) = f (tally-set busy ws i x y at) (le-tally busy ws i x at) in
      record { active = a; bounded = b }

  pub popped-Adds :
      (c : Core) (o : Option (Task × List Task))
      → get_elem? ws i ≡ some popping
      → pop_task c.tasks ≡ o
      → Adds bound c ws pending pushed
      → Adds bound (popped c o).0 (set ws i (popped c o).1) pending pushed
  unfolding popped with_tasks
  popped-Adds c none at e h =
      moves popping idling c c at (λ a k. omega (arith, h.active, h.bounded))
  popped-Adds c (some (t, ts)) at e h =
      let less = pop_task-length c.tasks t ts e in
      moves popping (executing t) c (with_tasks c ts) at
        (λ a k. omega (arith, less, h.active, h.bounded))

  pub run_task-Adds :
      (t : Task) (c : Core) (throws : Bool)
      → get_elem? ws i ≡ some (executing t)
      → Adds bound c ws pending pushed
      → Adds bound (run_task throws t c).0 (set ws i (run_task throws t c).1) pending pushed
  unfolding run_task with_history
  run_task-Adds t c true at h =
      let o = task_exception t.ident in
      let n = tally-snoc thrown c.outcomes o in
      let d = tally-snoc destroyed c.outcomes o in
      moves (executing t) idling c (with_history c (c.calls ++ t.ident ∷ []) (c.outcomes ++ o ∷ []))
        at (λ a k. omega (arith, n, d, h.active, h.bounded))
  run_task-Adds t c false at h =
      moves (executing t) (decrementing t) c (with_history c (c.calls ++ t.ident ∷ []) c.outcomes)
        at (λ a k. omega (arith, h.active, h.bounded))

  pub check_idle-Adds :
      (c : Core) (more detached shutdown : Bool)
      → get_elem? ws i ≡ some idling
      → Adds bound c ws pending pushed
      → Adds bound
          (check_idle more detached shutdown c).0
          (set ws i (check_idle more detached shutdown c).1)
          pending
          pushed
  unfolding check_idle with_flags
  check_idle-Adds c true detached shutdown at h =
      moves idling checking c c at (λ a k. omega (arith, h.active, h.bounded))
  check_idle-Adds c false true shutdown at h =
      moves idling ended c (with_flags c c.shutdown_flag false) at
        (λ a k. omega (arith, h.active, h.bounded))
  check_idle-Adds c false false true at h =
      moves idling ended c c at (λ a k. omega (arith, h.active, h.bounded))
  check_idle-Adds c false false false at h =
      moves idling waiting c c at (λ a k. omega (arith, h.active, h.bounded))

  pub advance-Adds :
      (x : Worker) (c : Core)
      → get_elem? ws i ≡ some x
      → Adds bound c ws pending pushed
      → Adds bound (advance x c).0 (set ws i (advance x c).1) pending pushed
  unfolding advance
  advance-Adds checking c at h =
      moves checking (if c.shutdown_flag then ended else popping) c c at
        (λ a e. ground (arith, h.active, h.bounded))
  advance-Adds popping c at h = popped-Adds c (pop_task c.tasks) at refl h
  advance-Adds (executing t) c at h = run_task-Adds t c t.throws at h
  advance-Adds (decrementing t) c at h =
      moves (decrementing t) (promising t) c (with_active c (less_one c.num_active_tasks)) at
        (λ a e.
          let l =
            less_one_lem c.num_active_tasks (omega (arith, h.active, e))
              (omega (arith, h.active, h.bounded)) in
          omega (arith, l, h.active, h.bounded))
  advance-Adds (promising t) c at h =
      let n = tally-snoc thrown c.outcomes (value t.ident) in
      let d = tally-snoc destroyed c.outcomes (value t.ident) in
      moves (promising t) idling c (with_history c c.calls (c.outcomes ++ value t.ident ∷ [])) at
        (λ a e. omega (arith, n, d, h.active, h.bounded))
  advance-Adds idling c at h =
      check_idle-Adds c (not (is_empty c.tasks)) c.detached_flag c.shutdown_flag at h
  advance-Adds waiting c at h =
      moves waiting waiting c c at (λ a e. omega (arith, h.active, h.bounded))
  advance-Adds notified c at h =
      elim (Bool-cases (not (is_empty c.tasks) || c.shutdown_flag || c.detached_flag)) [
        | inl awake ↦
            rw awake (moves notified checking c c at (λ a e. omega (arith, h.active, h.bounded)))
        | inr asleep ↦
            rw asleep (moves notified waiting c c at (λ a e. omega (arith, h.active, h.bounded)))
      ]
  advance-Adds ended c at h = moves ended ended c c at (λ a e. omega (arith, h.active, h.bounded))
