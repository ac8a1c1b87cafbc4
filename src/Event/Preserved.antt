-- ===== src/Event/Preserved.antt =====
-- Every step of include/alpaka/event/EventGenericThreads.hpp and its queues against the counters of one event.
use alpaka.Base.{
  ℕ, zero, suc, ◌+◌, ◌^◌, ◌<◌, ◌≡◌, refl, sym, subst, ◌∙◌, Bool, true, false, not, ◌&&◌, List, [],
  ◌∷◌, Option, none, some, arith, inl, inr, Bool-cases, get_or, replicate, map, get_elem?, length,
  ◌==◌, ltb, if◌then◌else◌,
}
use alpaka.Tally.{tally}
use alpaka.Event.{
  Task, client_task, signal, await, Future, EventImpl, Worker, idle, getting, promising, Queue,
  Waiter, outside, testing, blocked, System, is_ready, with_queue, with_event, push, finish,
  with_worker, counted, run_now, enqueue_event, wait_queue, enqueue_task, is_kept, execute,
  event_of, work_idle, work_on, work_at, call_wait, waiter_at, Event, task, record_event, wait_for,
  work, wait, advance, step, run, start, fresh_queue, fresh_event,
}
use alpaka.Event.Tallies.{
  marks, pending, over, event_at, get_or_of_get, event_at-with_event, pending-push, over-push,
  pending-run_now, over-run_now, over-finish, pending-finish, tallied,
}
use alpaka.Event.Invariant.{
  Holds, one_at, Holds-same, Holds-counted, Holds-marked, Holds-run_signal,
}

abbrev pub HoldsAt : ℕ → ℕ → ℕ → System → Type 0
HoldsAt n low e s =
    Holds n low (event_at s e) (λ c. tally (pending e c) s.queues) (λ c. tally (over e c) s.queues)

if-HoldsAt :
    (n low e : ℕ) (b : Bool) (x y : System)
    → (b ≡ true → HoldsAt n low e x)
    → (b ≡ false → HoldsAt n low e y)
    → HoldsAt n low e (if b then x else y)
if-HoldsAt n low e true x y p q = p refl
if-HoldsAt n low e false x y p q = q refl

module _ {n low : ℕ} (e : ℕ) (s : System) (h : HoldsAt n low e s) where
  -- A queue that counts the same.
  same_queue :
      (q : ℕ) (r u : Queue)
      → get_elem? s.queues q ≡ some r
      → ((c : ℕ) → pending e c u ≡ pending e c r)
      → ((c : ℕ) → over e c u ≡ over e c r)
      → HoldsAt (suc n) low e (with_queue s q u)
  same_queue q r u g p o =
      Holds-same h (λ c. omega (arith, tallied (pending e c) s q r u g, p c))
        (λ c. omega (arith, tallied (over e c) s q r u g, o c))

  later : HoldsAt (suc n) low e s
  later = Holds-same h (λ c. refl) (λ c. refl)

  -- Another event is changed, and a queue that counts the same.
  other_event :
      (q i : ℕ) (r u : Queue) (ev ev' : EventImpl)
      → get_elem? s.queues q ≡ some r
      → get_elem? s.events i ≡ some ev
      → ((i == e) ≡ false)
      → ((c : ℕ) → pending e c u ≡ pending e c r)
      → ((c : ℕ) → over e c u ≡ over e c r)
      → HoldsAt (suc n) low e (with_event (with_queue s q u) i ev')
  other_event q i r u ev ev' g g' ne p o =
      let kept : event_at (with_event (with_queue s q u) i ev') e ≡ event_at s e =
        event_at-with_event (with_queue s q u) e i ev ev' g' ∙ rw ne refl in
      subst
        (λ x.
          Holds (suc n) low x (λ c. tally (pending e c) (with_queue s q u).queues)
            (λ c. tally (over e c) (with_queue s q u).queues))
        (sym kept) (same_queue q r u g p o)

  -- The event itself is changed.
  this_event :
      (q i : ℕ) (r u : Queue) (ev ev' : EventImpl)
      → get_elem? s.queues q ≡ some r
      → get_elem? s.events i ≡ some ev
      → ((i == e) ≡ true)
      → (Holds n low ev (λ c. tally (pending e c) s.queues) (λ c. tally (over e c) s.queues)
          → Holds
              (suc n)
              low
              ev'
              (λ c. tally (pending e c) (with_queue s q u).queues)
              (λ c. tally (over e c) (with_queue s q u).queues))
      → HoldsAt (suc n) low e (with_event (with_queue s q u) i ev')
  this_event q i r u ev ev' g g' eq keep =
      let kept : event_at (with_event (with_queue s q u) i ev') e ≡ ev' =
        event_at-with_event (with_queue s q u) e i ev ev' g' ∙ rw eq refl in
      let ie : i ≡ e = ground (arith, eq) in
      let was : event_at s e ≡ ev =
        get_or_of_get s.events e ev _ (subst (λ (j : ℕ). get_elem? s.events j ≡ some ev) ie g') in
      subst
        (λ x.
          Holds (suc n) low x (λ c. tally (pending e c) (with_queue s q u).queues)
            (λ c. tally (over e c) (with_queue s q u).queues))
        (sym kept)
        (keep (
          subst
            (λ x.
              Holds n low x (λ c. tally (pending e c) s.queues) (λ c. tally (over e c) s.queues))
            was h))

  enqueue_event-HoldsAt :
      (q i : ℕ) (r : Option Queue) (ev : Option EventImpl)
      → suc n < 2 ^ 64
      → get_elem? s.queues q ≡ r
      → get_elem? s.events i ≡ ev
      → HoldsAt (suc n) low e (enqueue_event s q i r ev)
  unfolding enqueue_event
  enqueue_event-HoldsAt q i none ev l g g' = later
  enqueue_event-HoldsAt q i (some r) none l g g' = later
  enqueue_event-HoldsAt q i (some r) (some ev) l g g' =
      let f : Future = record { queue = q; place = length r.finished + length r.tasks } in
      let t : Task = signal i (counted ev f).enqueue_count in
      let mine : (i == e) ≡ true → (c : ℕ) → marks e c t ≡ one_at (counted ev f).enqueue_count c =
        λ m c. ground (arith, m) in
      let other : (i == e) ≡ false → (c : ℕ) → marks e c t ≡ 0 = λ m c. ground (arith, m) in
      if-HoldsAt (suc n) low e r.blocking _ _
        (λ b. elim (Bool-cases (i == e)) [
          | inl m ↦ this_event q i r (run_now r t) ev _ g g' m (λ k.
              Holds-marked k f l
                (λ c.
                  omega
                    (arith, tallied (pending e c) s q r (run_now r t) g, pending-run_now e c r t))
                (λ c. omega (
                  arith,
                  tallied (over e c) s q r (run_now r t) g,
                  over-run_now e c r t,
                  mine m c,
                )))
          | inr m ↦
              other_event q i r (run_now r t) ev _ g g' m (λ c. pending-run_now e c r t)
                (λ c. omega (arith, over-run_now e c r t, other m c))
        ])
        (λ b. elim (Bool-cases (i == e)) [
          | inl m ↦ this_event q i r (push r t) ev _ g g' m (λ k.
              Holds-counted k f l
                (λ c.
                  omega (
                    arith,
                    tallied (pending e c) s q r (push r t) g,
                    pending-push e c r t,
                    mine m c,
                  ))
                (λ c. omega (arith, tallied (over e c) s q r (push r t) g, over-push e c r t)))
          | inr m ↦
              other_event q i r (push r t) ev _ g g' m
                (λ c. omega (arith, pending-push e c r t, other m c)) (λ c. over-push e c r t)
        ])

  wait_queue-HoldsAt :
      (q i : ℕ) (r : Option Queue) (ev : Option EventImpl)
      → get_elem? s.queues q ≡ r
      → HoldsAt (suc n) low e (wait_queue s q i r ev)
  unfolding wait_queue
  wait_queue-HoldsAt q i none ev g = later
  wait_queue-HoldsAt q i (some r) none g = later
  wait_queue-HoldsAt q i (some r) (some ev) g =
      let t : Task = await i ev.enqueue_count in
      if-HoldsAt (suc n) low e (not r.blocking && not (is_ready ev)) _ _
        (λ b.
          same_queue q r (push r t) g (λ c. omega (arith, pending-push e c r t))
            (λ c. over-push e c r t))
        (λ b. later)

  enqueue_task-HoldsAt :
      (q k : ℕ) (r : Option Queue)
      → get_elem? s.queues q ≡ r
      → HoldsAt (suc n) low e (enqueue_task s q k r)
  unfolding enqueue_task
  enqueue_task-HoldsAt q k none g = later
  enqueue_task-HoldsAt q k (some r) g =
      let t : Task = client_task k in
      elim (Bool-cases r.blocking) [
        | inl b ↦
            same_queue q r _ g (λ c. ground (arith, b, pending-run_now e c r t))
              (λ c. ground (arith, b, over-run_now e c r t))
        | inr b ↦
            same_queue q r _ g (λ c. ground (arith, b, pending-push e c r t))
              (λ c. ground (arith, b, over-push e c r t))
      ]

  -- A task that does not mark the event is run.
  finished :
      (q : ℕ) (r : Queue) (t : Task) (ts : List Task)
      → get_elem? s.queues q ≡ some r
      → r.tasks ≡ t ∷ ts
      → ((c : ℕ) → marks e c t ≡ 0)
      → HoldsAt (suc n) low e (with_queue s q (finish r t ts))
  finished q r t ts g front none_here =
      same_queue q r (finish r t ts) g
        (λ c. omega (arith, pending-finish e c r t ts front, none_here c))
        (λ c. omega (arith, over-finish e c r t ts, none_here c))

  execute-HoldsAt :
      (q : ℕ) (r : Queue) (t : Task) (ts : List Task) (ev : Option EventImpl)
      → get_elem? s.queues q ≡ some r
      → r.tasks ≡ t ∷ ts
      → get_elem? s.events (event_of t) ≡ ev
      → HoldsAt (suc n) low e (execute s q r t ts ev)
  unfolding execute with_worker
  execute-HoldsAt q r (client_task k) ts ev g front g' =
      finished q r (client_task k) ts g front (λ c. refl)
  execute-HoldsAt q r (await i c0) ts none g front g' = later
  execute-HoldsAt q r (await i c0) ts (some ev) g front g' =
      elim (Bool-cases (ltb ev.last_ready_enqueue_count c0)) [
        | inl b ↦ rw b (same_queue q r _ g (λ c. refl) (λ c. refl))
        | inr b ↦ rw b (finished q r (await i c0) ts g front (λ c. refl))
      ]
  execute-HoldsAt q r (signal i c0) ts none g front g' = later
  execute-HoldsAt q r (signal i c0) ts (some ev) g front g' =
      let t : Task = signal i c0 in
      let mine : (i == e) ≡ true → (c : ℕ) → marks e c t ≡ one_at c0 c = λ m c. ground (arith, m) in
      let other : (i == e) ≡ false → (c : ℕ) → marks e c t ≡ 0 = λ m c. ground (arith, m) in
      elim (Bool-cases (i == e)) [
        | inl m ↦ this_event q i r (finish r t ts) ev _ g g' m (λ k.
            Holds-run_signal k c0
              (λ c. omega (
                arith,
                tallied (pending e c) s q r (finish r t ts) g,
                pending-finish e c r t ts front,
                mine m c,
              ))
              (λ c. omega (
                arith,
                tallied (over e c) s q r (finish r t ts) g,
                over-finish e c r t ts,
                mine m c,
              )))
        | inr m ↦
            other_event q i r (finish r t ts) ev _ g g' m
              (λ c. omega (arith, pending-finish e c r t ts front, other m c))
              (λ c. omega (arith, over-finish e c r t ts, other m c))
      ]

  idle-HoldsAt :
      (q : ℕ) (r : Queue) (ts : List Task)
      → get_elem? s.queues q ≡ some r
      → r.tasks ≡ ts
      → HoldsAt (suc n) low e (work_idle s q r ts)
  unfolding work_idle
  idle-HoldsAt q r [] g front = later
  idle-HoldsAt q r (t ∷ ts) g front = execute-HoldsAt q r t ts _ g front refl

  worker-HoldsAt :
      (q : ℕ) (r : Queue) (x : Worker)
      → get_elem? s.queues q ≡ some r
      → HoldsAt (suc n) low e (work_on s q r x)
  unfolding work_on with_worker
  worker-HoldsAt q r promising g = same_queue q r _ g (λ c. refl) (λ c. refl)
  worker-HoldsAt q r (getting f) g =
      if-HoldsAt (suc n) low e (is_kept s.queues f) _ _
        (λ b. same_queue q r (with_worker r idle) g (λ c. refl) (λ c. refl)) (λ b. later)
  worker-HoldsAt q r idle g = idle-HoldsAt q r r.tasks g refl

  work_at-HoldsAt :
      (q : ℕ) (r : Option Queue) → get_elem? s.queues q ≡ r → HoldsAt (suc n) low e (work_at s q r)
  unfolding work_at
  work_at-HoldsAt q none g = later
  work_at-HoldsAt q (some r) g = worker-HoldsAt q r r.worker g

  -- The threads in `wait` change neither a queue nor an event.
  call_wait-HoldsAt :
      (i j : ℕ) (x : Option Waiter) (ev : Option EventImpl)
      → HoldsAt (suc n) low e (call_wait s i j x ev)
  unfolding call_wait
  call_wait-HoldsAt i j none ev = later
  call_wait-HoldsAt i j (some outside) none = later
  call_wait-HoldsAt i j (some outside) (some ev) = later
  call_wait-HoldsAt i j (some (testing i' c)) ev = later
  call_wait-HoldsAt i j (some (blocked i' c f)) ev = later

  waiter_at-HoldsAt : (i : ℕ) (x : Option Waiter) → HoldsAt (suc n) low e (waiter_at s i x)
  unfolding waiter_at
  waiter_at-HoldsAt i none = later
  waiter_at-HoldsAt i (some outside) = later
  waiter_at-HoldsAt i (some (testing j c)) = later
  waiter_at-HoldsAt i (some (blocked j c f)) =
      if-HoldsAt (suc n) low e (is_kept s.queues f) _ _ (λ b. later) (λ b. later)

  pub step-HoldsAt : (a : Event) → suc n < 2 ^ 64 → HoldsAt (suc n) low e (step a s)
  unfolding step
  step-HoldsAt (task q k) l = enqueue_task-HoldsAt q k _ refl
  step-HoldsAt (record_event q i) l = enqueue_event-HoldsAt q i _ _ l refl refl
  step-HoldsAt (wait_for q i) l = wait_queue-HoldsAt q i _ (get_elem? s.events i) refl
  step-HoldsAt (work q) l = work_at-HoldsAt q _ refl
  step-HoldsAt (wait i j) l = call_wait-HoldsAt i j _ _
  step-HoldsAt (advance i) l = waiter_at-HoldsAt i _

pub run-HoldsAt :
    (n low e : ℕ) (events : List Event) (s : System)
    → n + length events < 2 ^ 64
    → HoldsAt n low e s
    → HoldsAt (n + length events) low e (run events s)
unfolding run
run-HoldsAt n low e [] s l h = subst (λ (k : ℕ). HoldsAt k low e s) (omega arith) h
run-HoldsAt n low e (a ∷ events) s l h =
    subst (λ (k : ℕ). HoldsAt k low e (run events (step a s))) (omega arith)
      (run-HoldsAt (suc n) low e events (step a s) (omega arith)
        (step-HoldsAt e s h a (omega arith)))

tally-fresh :
    (e c : ℕ) (kinds : List Bool)
    → (tally (pending e c) (map fresh_queue kinds) ≡ 0)
      × (tally (over e c) (map fresh_queue kinds) ≡ 0)
tally-fresh e c [] = (refl, refl)
tally-fresh e c (b ∷ kinds) =
    (omega (arith, tally-fresh e c kinds), omega (arith, tally-fresh e c kinds))

get_or-fresh : (e n : ℕ) → get_or (replicate n fresh_event) e fresh_event ≡ fresh_event
get_or-fresh e zero = refl
get_or-fresh zero (suc n) = refl
get_or-fresh (suc e) (suc n) = get_or-fresh e n

pub start-HoldsAt : (kinds : List Bool) (m k e : ℕ) → HoldsAt 0 0 e (start kinds m k)
unfolding start
start-HoldsAt kinds m k e = rw (get_or-fresh e m) (record {
  few = omega arith;
  since = omega arith;
  ordered = omega arith;
  once = λ c. omega (arith, tally-fresh e c kinds);
  none_after = λ c l. omega (arith, tally-fresh e c kinds);
  latest = (tally-fresh e 0 kinds).0;
  marked = λ l. absurd (omega arith);
})
