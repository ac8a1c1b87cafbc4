-- ===== src/Event/Tallies.antt =====
-- How often a task marks an event with a count, in the queues of include/alpaka/event/EventGenericThreads.hpp.
use alpaka.Base.{
  ℕ, zero, suc, ◌+◌, ◌≡◌, refl, ◌∙◌, List, [], ◌∷◌, some, arith, get_elem?, get_or, set, ◌==◌,
  if◌then◌else◌,
}
use alpaka.Tally.{tally, tally-set, tally-snoc}
use alpaka.Event.{
  Task, client_task, signal, await, EventImpl, Queue, System, with_queue, with_event, fresh_event,
  push, run_now, finish,
}

-- 1 for the task that marks event `e` with count `c`.
abbrev pub marks : ℕ → ℕ → Task → ℕ
marks e c (client_task n) = 0
marks e c (signal e' c') = if e == e' then (if c == c' then 1 else 0) else 0
marks e c (await e' c') = 0

abbrev pub pending : ℕ → ℕ → Queue → ℕ
pending e c r = tally (marks e c) r.tasks

abbrev pub over : ℕ → ℕ → Queue → ℕ
over e c r = tally (marks e c) r.finished

abbrev pub event_at : System → ℕ → EventImpl
event_at s e = get_or s.events e fresh_event

pub get_or-set_of_get {ℓ} :
    {A : Type ℓ} (xs : List A) (i j : ℕ) (t u d : A)
    → get_elem? xs i ≡ some t
    → get_or (set xs i u) j d ≡ (if i == j then u else get_or xs j d)
get_or-set_of_get [] i j t u d h = absurd (cc)
get_or-set_of_get (x ∷ xs) zero zero t u d h = refl
get_or-set_of_get (x ∷ xs) zero (suc j) t u d h = ground arith
get_or-set_of_get (x ∷ xs) (suc i) zero t u d h = ground arith
get_or-set_of_get (x ∷ xs) (suc i) (suc j) t u d h = get_or-set_of_get xs i j t u d h ∙ ground arith

pub get_or_of_get {ℓ} :
    {A : Type ℓ} (xs : List A) (i : ℕ) (t d : A) → get_elem? xs i ≡ some t → get_or xs i d ≡ t
get_or_of_get [] i t d h = absurd (cc)
get_or_of_get (x ∷ xs) zero t d h = cc
get_or_of_get (x ∷ xs) (suc i) t d h = get_or_of_get xs i t d h

pub event_at-with_event :
    (s : System) (e i : ℕ) (old ev : EventImpl)
    → get_elem? s.events i ≡ some old
    → event_at (with_event s i ev) e ≡ (if i == e then ev else event_at s e)
event_at-with_event s e i old ev h = get_or-set_of_get s.events i e old ev fresh_event h

module _ (e c : ℕ) (r : Queue) (t : Task) where
  pub pending-push : pending e c (push r t) ≡ pending e c r + marks e c t
  unfolding push
  pending-push = tally-snoc (marks e c) r.tasks t

  pub over-push : over e c (push r t) ≡ over e c r
  unfolding push
  over-push = refl

  pub pending-run_now : pending e c (run_now r t) ≡ pending e c r
  unfolding run_now
  pending-run_now = refl

  pub over-run_now : over e c (run_now r t) ≡ over e c r + marks e c t
  unfolding run_now
  over-run_now = tally-snoc (marks e c) r.finished t

  pub over-finish : (ts : List Task) → over e c (finish r t ts) ≡ over e c r + marks e c t
  unfolding finish
  over-finish ts = tally-snoc (marks e c) r.finished t

  pub pending-finish :
      (ts : List Task)
      → r.tasks ≡ t ∷ ts
      → pending e c (finish r t ts) + marks e c t ≡ pending e c r
  unfolding finish
  pending-finish ts h = rw h (omega arith)

-- A queue that is changed in one place of the system.
pub tallied :
    (w : Queue → ℕ) (s : System) (q : ℕ) (r u : Queue)
    → get_elem? s.queues q ≡ some r
    → tally w (with_queue s q u).queues + w r ≡ tally w s.queues + w u
tallied w s q r u h = tally-set w s.queues q r u h
