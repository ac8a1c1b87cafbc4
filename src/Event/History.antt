-- ===== src/Event/History.antt =====
-- What was enqueued on a queue of include/alpaka/queue/QueueGenericThreadsNonBlocking.hpp, from step to step.
use alpaka.Base.{
  ℕ, zero, suc, ◌≡◌, refl, sym, ap, ◌∙◌, Bool, true, false, not, ◌&&◌, List, [], ◌∷◌, ◌++◌, Option,
  none, some, arith, inl, inr, Bool-cases, get_elem?, set, ◌==◌, ltb, if◌then◌else◌,
}
use mathlib.Core.List.{append_assoc, append-nil}
use alpaka.Event.{
  Task, client_task, signal, await, EventImpl, Worker, idle, getting, promising, Queue, Waiter,
  outside, testing, blocked, System, is_ready, push, finish, with_worker, run_now, enqueue_event,
  wait_queue, enqueue_task, is_kept, execute, work_idle, work_on, work_at, call_wait, waiter_at,
  Event, task, record_event, wait_for, work, wait, advance, step, run,
}

-- `u` comes later than `r`, which does not block: nothing that was enqueued is lost or moved.
abbrev pub Extends : Queue → Queue → Type 0
Extends r u =
    r.blocking ≡ false
    → (u.blocking ≡ false)
      × (more : List Task) × (u.finished ++ u.tasks ≡ (r.finished ++ r.tasks) ++ more)

abbrev pub Grows : ℕ → List Queue → List Queue → Type 0
Grows q qs us =
    (r : Queue) → get_elem? qs q ≡ some r → (u : Queue) × (get_elem? us q ≡ some u) × Extends r u

Extends-refl : (r : Queue) → Extends r r
Extends-refl r b = (b, [], sym (append-nil (r.finished ++ r.tasks)))

Extends-trans : (r u v : Queue) → Extends r u → Extends u v → Extends r v
Extends-trans r u v f g b =
    let (b', more, e) = f b in
    let (b'', more', e') = g b' in
    (b'', more ++ more', e' ∙ (ap (λ l. l ++ more') e ∙ append_assoc _ more more'))

Grows-refl : (q : ℕ) (qs : List Queue) → Grows q qs qs
Grows-refl q qs r g = (r, g, Extends-refl r)

pub get_elem?-set_of_get {ℓ} :
    {A : Type ℓ} (xs : List A) (i j : ℕ) (t u : A)
    → get_elem? xs i ≡ some t
    → get_elem? (set xs i u) j ≡ (if i == j then some u else get_elem? xs j)
get_elem?-set_of_get [] i j t u h = absurd (cc)
get_elem?-set_of_get (x ∷ xs) zero zero t u h = refl
get_elem?-set_of_get (x ∷ xs) zero (suc j) t u h = ground arith
get_elem?-set_of_get (x ∷ xs) (suc i) zero t u h = ground arith
get_elem?-set_of_get (x ∷ xs) (suc i) (suc j) t u h =
    get_elem?-set_of_get xs i j t u h ∙ ground arith

Grows-set :
    (q i : ℕ) (qs : List Queue) (r u : Queue)
    → get_elem? qs i ≡ some r
    → Extends r u
    → Grows q qs (set qs i u)
Grows-set q i qs r u g x r' g' = elim (Bool-cases (i == q)) [
  | inl same ↦
      let iq : i ≡ q = ground (arith, same) in
      let rr : r ≡ r' = let at_q : get_elem? qs q ≡ some r = rw (← iq) g in cc (sym at_q ∙ g') in
      (u, get_elem?-set_of_get qs i q r u g ∙ rw same refl, rw (← rr) x)
  | inr other ↦ (r', get_elem?-set_of_get qs i q r u g ∙ rw other g', Extends-refl r')
]

Extends-push : (r : Queue) (t : Task) → Extends r (push r t)
unfolding push
Extends-push r t b = (b, t ∷ [], sym (append_assoc r.finished r.tasks (t ∷ [])))

Extends-run_now : (r : Queue) (t : Task) → r.blocking ≡ true → Extends r (run_now r t)
Extends-run_now r t b b' = absurd (let e = sym b ∙ b' in cc)

Extends-finish :
    (r : Queue) (t : Task) (ts : List Task) → r.tasks ≡ t ∷ ts → Extends r (finish r t ts)
unfolding finish
Extends-finish r t ts front b = (
  b,
  [],
  append_assoc r.finished (t ∷ []) ts
      ∙ (ap (λ l. r.finished ++ l) (sym front) ∙ sym (append-nil (r.finished ++ r.tasks))),
)

if-Extends :
    (r : Queue) (b : Bool) (x y : Queue)
    → (b ≡ true → Extends r x)
    → (b ≡ false → Extends r y)
    → Extends r (if b then x else y)
if-Extends r true x y f g = f refl
if-Extends r false x y f g = g refl

if-Grows :
    (q : ℕ) (qs : List Queue) (b : Bool) (x y : System)
    → (b ≡ true → Grows q qs x.queues)
    → (b ≡ false → Grows q qs y.queues)
    → Grows q qs ((if b then x else y).queues)
if-Grows q qs true x y f g = f refl
if-Grows q qs false x y f g = g refl

module _ (q : ℕ) (s : System) where
  stays : Grows q s.queues s.queues
  stays = Grows-refl q s.queues

  execute-Grows :
      (i : ℕ) (r : Queue) (t : Task) (ts : List Task) (ev : Option EventImpl)
      → get_elem? s.queues i ≡ some r
      → r.tasks ≡ t ∷ ts
      → Grows q s.queues (execute s i r t ts ev).queues
  unfolding execute with_worker
  execute-Grows i r (client_task k) ts ev g front =
      Grows-set q i s.queues r _ g (Extends-finish r (client_task k) ts front)
  execute-Grows i r (signal e c) ts none g front = stays
  execute-Grows i r (signal e c) ts (some ev) g front =
      Grows-set q i s.queues r _ g (Extends-finish r (signal e c) ts front)
  execute-Grows i r (await e c) ts none g front = stays
  execute-Grows i r (await e c) ts (some ev) g front =
      elim (Bool-cases (ltb ev.last_ready_enqueue_count c)) [
        | inl b ↦ rw b (Grows-set q i s.queues r _ g (Extends-refl r))
        | inr b ↦ rw b (Grows-set q i s.queues r _ g (Extends-finish r (await e c) ts front))
      ]

  idle-Grows :
      (i : ℕ) (r : Queue) (ts : List Task)
      → get_elem? s.queues i ≡ some r
      → r.tasks ≡ ts
      → Grows q s.queues (work_idle s i r ts).queues
  unfolding work_idle
  idle-Grows i r [] g front = stays
  idle-Grows i r (t ∷ ts) g front = execute-Grows i r t ts _ g front

  worker-Grows :
      (i : ℕ) (r : Queue) (x : Worker)
      → get_elem? s.queues i ≡ some r
      → Grows q s.queues (work_on s i r x).queues
  unfolding work_on with_worker
  worker-Grows i r promising g = Grows-set q i s.queues r _ g (Extends-refl r)
  worker-Grows i r idle g = idle-Grows i r r.tasks g refl
  worker-Grows i r (getting f) g =
      if-Grows q s.queues (is_kept s.queues f) _ _
        (λ b. Grows-set q i s.queues r _ g (Extends-refl r)) (λ b. stays)

  event-Grows :
      (i e : ℕ) (r : Option Queue) (ev : Option EventImpl)
      → get_elem? s.queues i ≡ r
      → Grows q s.queues (enqueue_event s i e r ev).queues
  unfolding enqueue_event
  event-Grows i e none ev g = stays
  event-Grows i e (some r) none g = stays
  event-Grows i e (some r) (some ev) g =
      if-Grows q s.queues r.blocking _ _ (λ b. Grows-set q i s.queues r _ g (Extends-run_now r _ b))
        (λ b. Grows-set q i s.queues r _ g (Extends-push r _))

  wait-Grows :
      (i e : ℕ) (r : Option Queue) (ev : Option EventImpl)
      → get_elem? s.queues i ≡ r
      → Grows q s.queues (wait_queue s i e r ev).queues
  unfolding wait_queue
  wait-Grows i e none ev g = stays
  wait-Grows i e (some r) none g = stays
  wait-Grows i e (some r) (some ev) g =
      if-Grows q s.queues (not r.blocking && not (is_ready ev)) _ _
        (λ b. Grows-set q i s.queues r _ g (Extends-push r _)) (λ b. stays)

  task-Grows :
      (i k : ℕ) (r : Option Queue)
      → get_elem? s.queues i ≡ r
      → Grows q s.queues (enqueue_task s i k r).queues
  unfolding enqueue_task
  task-Grows i k none g = stays
  task-Grows i k (some r) g = Grows-set q i s.queues r _ g (
      if-Extends r r.blocking _ _ (λ b. Extends-run_now r (client_task k) b)
        (λ b. Extends-push r (client_task k)))

  work-Grows :
      (i : ℕ) (r : Option Queue)
      → get_elem? s.queues i ≡ r
      → Grows q s.queues (work_at s i r).queues
  unfolding work_at
  work-Grows i none g = stays
  work-Grows i (some r) g = worker-Grows i r r.worker g

  call-Grows :
      (i e : ℕ) (x : Option Waiter) (ev : Option EventImpl)
      → Grows q s.queues (call_wait s i e x ev).queues
  unfolding call_wait
  call-Grows i e none ev = stays
  call-Grows i e (some outside) none = stays
  call-Grows i e (some outside) (some ev) = stays
  call-Grows i e (some (testing e' c)) ev = stays
  call-Grows i e (some (blocked e' c f)) ev = stays

  waiter-Grows : (i : ℕ) (x : Option Waiter) → Grows q s.queues (waiter_at s i x).queues
  unfolding waiter_at
  waiter-Grows i none = stays
  waiter-Grows i (some outside) = stays
  waiter-Grows i (some (testing e c)) = stays
  waiter-Grows i (some (blocked e c f)) =
      if-Grows q s.queues (is_kept s.queues f) _ _ (λ b. stays) (λ b. stays)

  pub step-Grows : (a : Event) → Grows q s.queues (step a s).queues
  unfolding step
  step-Grows (task i k) = task-Grows i k _ refl
  step-Grows (record_event i e) = event-Grows i e _ _ refl
  step-Grows (wait_for i e) = wait-Grows i e _ (get_elem? s.events e) refl
  step-Grows (work i) = work-Grows i _ refl
  step-Grows (wait i e) = call-Grows i e _ _
  step-Grows (advance i) = waiter-Grows i _

pub run-Grows : (q : ℕ) (events : List Event) (s : System) → Grows q s.queues (run events s).queues
unfolding run
run-Grows q [] s r g = Grows-refl q s.queues r g
run-Grows q (a ∷ events) s r g =
    let (u, g', x) = step-Grows q s a r g in
    let (v, g'', y) = run-Grows q events (step a s) u g' in (v, g'', Extends-trans r u v x y)
