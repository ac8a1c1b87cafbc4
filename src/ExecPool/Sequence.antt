-- ===== src/ExecPool/Sequence.antt =====
-- The order of the calls that one worker of include/alpaka/core/ConcurrentExecPool.hpp makes.
use alpaka.Base.{
  ℕ, ◌≡◌, ◌≢◌, ◌⊎◌, inl, inr, refl, sym, ap, ap₂, ◌∙◌, Bool, true, false, not, ◌||◌, List, [], ◌∷◌,
  ◌++◌, Option, none, some, if◌then◌else◌,
}
use alpaka.ExecPool.{
  Task, Worker, checking, popping, executing, decrementing, promising, idling, waiting, notified,
  ended, Core, Pool, with_tasks, with_active, with_flags, with_history, is_empty, pop_task, popped,
  run_task, check_idle, advance, less_one, value,
}
use mathlib.Core.List.{append_assoc}

abbrev pub idents : List Task → List ℕ
idents [] = []
idents (t ∷ ts) = t.ident ∷ idents ts

-- The task that was popped and is not yet called.
abbrev pub due : Worker → List ℕ
due checking = []
due popping = []
due (executing t) = t.ident ∷ []
due (decrementing t) = []
due (promising t) = []
due idling = []
due waiting = []
due notified = []
due ended = []

-- What is left to call is what is queued, or the worker has ended.
pub record InOrder (x : Worker) (c : Core) (pushed : List Task) : Type 0 where
  pub left : List ℕ
  pub sequence : c.calls ++ (due x ++ left) ≡ idents pushed
  pub rest : (idents c.tasks ≡ left) ⊎ (x ≡ ended)

abbrev pub PoolInOrder : Pool → Type 0
PoolInOrder s = (x : Worker) × (s.workers ≡ x ∷ []) × InOrder x s.core s.pushed

-- A step of the worker that calls nothing and pops nothing.
pub keeps :
    (x y : Worker) (c d : Core) (pushed : List Task)
    → d.calls ≡ c.calls
    → d.tasks ≡ c.tasks
    → due x ≡ []
    → due y ≡ []
    → x ≢ ended
    → InOrder x c pushed
    → InOrder y d pushed
keeps x y c d pushed same_calls same_tasks e f alive h = record {
  left = h.left;
  sequence =
      ap (λ (q : List ℕ). q ++ (due y ++ h.left)) same_calls
      ∙ (ap (λ (q : List ℕ). c.calls ++ (q ++ h.left)) (f ∙ sym e) ∙ h.sequence);
  rest = elim h.rest [ inl q ↦ inl (ap idents same_tasks ∙ q) | inr q ↦ absurd (alive q) ];
}

pub checked :
    (b : Bool) (c : Core) (pushed : List Task)
    → InOrder checking c pushed
    → InOrder (if b then ended else popping) c pushed
checked true c pushed h = keeps checking ended c c pushed refl refl refl refl (λ e. cc) h
checked false c pushed h = keeps checking popping c c pushed refl refl refl refl (λ e. cc) h

pub woken :
    (b : Bool) (c : Core) (pushed : List Task)
    → InOrder notified c pushed
    → InOrder (if b then checking else waiting) c pushed
woken true c pushed h = keeps notified checking c c pushed refl refl refl refl (λ e. cc) h
woken false c pushed h = keeps notified waiting c c pushed refl refl refl refl (λ e. cc) h

pub pop_task-idents :
    (xs : List Task) (t : Task) (ts : List Task)
    → pop_task xs ≡ some (t, ts)
    → idents xs ≡ t.ident ∷ idents ts
unfolding pop_task
pop_task-idents [] t ts e = absurd (cc)
pop_task-idents (x ∷ xs) t ts e =
    let a : x ≡ t = cc in
    let b : xs ≡ ts = cc in ap₂ (λ (p : Task) (q : List Task). idents (p ∷ q)) a b

pub popped-InOrder :
    (c : Core) (o : Option (Task × List Task)) (pushed : List Task)
    → pop_task c.tasks ≡ o
    → InOrder popping c pushed
    → InOrder (popped c o).1 (popped c o).0 pushed
unfolding popped with_tasks
popped-InOrder c none pushed e h = keeps popping idling c c pushed refl refl refl refl (λ e. cc) h
popped-InOrder c (some (t, ts)) pushed e h = elim h.rest [
  | inl q ↦ record {
    left = idents ts;
    sequence =
        ap (λ (l : List ℕ). c.calls ++ l) (sym (pop_task-idents c.tasks t ts e) ∙ q) ∙ h.sequence;
    rest = inl refl;
  }
  | inr q ↦ absurd (cc)
]

pub run_task-InOrder :
    (t : Task) (c : Core) (throws : Bool) (pushed : List Task)
    → InOrder (executing t) c pushed
    → InOrder (run_task throws t c).1 (run_task throws t c).0 pushed
unfolding run_task with_history
run_task-InOrder t c true pushed h = record {
  left = h.left;
  sequence = append_assoc c.calls (t.ident ∷ []) h.left ∙ h.sequence;
  rest = elim h.rest [ inl q ↦ inl q | inr q ↦ absurd (cc) ];
}
run_task-InOrder t c false pushed h = record {
  left = h.left;
  sequence = append_assoc c.calls (t.ident ∷ []) h.left ∙ h.sequence;
  rest = elim h.rest [ inl q ↦ inl q | inr q ↦ absurd (cc) ];
}

pub check_idle-InOrder :
    (c : Core) (more detached shutdown : Bool) (pushed : List Task)
    → InOrder idling c pushed
    → InOrder (check_idle more detached shutdown c).1 (check_idle more detached shutdown c).0 pushed
unfolding check_idle with_flags
check_idle-InOrder c true detached shutdown pushed h =
    keeps idling checking c c pushed refl refl refl refl (λ e. cc) h
check_idle-InOrder c false true shutdown pushed h =
    keeps idling ended c (with_flags c c.shutdown_flag false) pushed refl refl refl refl (λ e. cc) h
check_idle-InOrder c false false true pushed h =
    keeps idling ended c c pushed refl refl refl refl (λ e. cc) h
check_idle-InOrder c false false false pushed h =
    keeps idling waiting c c pushed refl refl refl refl (λ e. cc) h

pub idents-snoc : (ts : List Task) (t : Task) → idents (ts ++ t ∷ []) ≡ idents ts ++ t.ident ∷ []
idents-snoc [] t = refl
idents-snoc (u ∷ ts) t = ap (λ q. u.ident ∷ q) (idents-snoc ts t)

pub advance-InOrder :
    (x : Worker) (c : Core) (pushed : List Task)
    → InOrder x c pushed
    → InOrder (advance x c).1 (advance x c).0 pushed
unfolding advance with_active with_history
advance-InOrder checking c pushed h = checked c.shutdown_flag c pushed h
advance-InOrder popping c pushed h = popped-InOrder c (pop_task c.tasks) pushed refl h
advance-InOrder (executing t) c pushed h = run_task-InOrder t c t.throws pushed h
advance-InOrder (decrementing t) c pushed h =
    keeps (decrementing t) (promising t) c (with_active c (less_one c.num_active_tasks)) pushed refl
      refl refl refl (λ e. cc) h
advance-InOrder (promising t) c pushed h =
    keeps (promising t) idling c (with_history c c.calls (c.outcomes ++ value t.ident ∷ [])) pushed
      refl refl refl refl (λ e. cc) h
advance-InOrder idling c pushed h =
    check_idle-InOrder c (not (is_empty c.tasks)) c.detached_flag c.shutdown_flag pushed h
advance-InOrder waiting c pushed h = h
advance-InOrder notified c pushed h =
    woken (not (is_empty c.tasks) || c.shutdown_flag || c.detached_flag) c pushed h
advance-InOrder ended c pushed h = h
