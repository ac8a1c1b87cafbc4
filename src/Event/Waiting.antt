-- ===== src/Event/Waiting.antt =====
-- The threads in `wait` of include/alpaka/event/EventGenericThreads.hpp, and the wait for a whole queue.
use alpaka.Base.{
  ℕ, suc, ◌+◌, ◌^◌, ◌≤◌, ◌<◌, ◌≡◌, ◌⊎◌, refl, sym, ap, subst, ◌∙◌, Bool, true, false, List, [], ◌∷◌,
  ◌++◌, Option, none, some, arith, inl, inr, Bool-cases, get_elem?, set, length, ◌==◌, ltb,
  if◌then◌else◌, ap₂, wrap_of_lt,
}
use alpaka.Event.{
  signal, Future, EventImpl, Queue, Waiter, outside, testing, blocked, System, counted,
  enqueue_event, is_kept, call_wait, tested, waiter_at, with_waiter, Event, task, record_event,
  wait_for, work, wait, advance, step, run, start,
}
use alpaka.Event.Tallies.{event_at, get_or_of_get}
use alpaka.Event.Preserved.{HoldsAt, step-HoldsAt, run-HoldsAt}
use alpaka.Event.History.{get_elem?-set_of_get}
use alpaka.Event.Laws.{last_ready, Finished, record_event-Finished, reached, if_false}
use alpaka.Event.Waiters.{work-waiters, event-waiters, wait-waiters, task-waiters}

-- A thread that was in `wait` for count `c` of an event is there still, or the event has got that far.
abbrev Waits : ℕ → ℕ → ℕ → System → Type 0
Waits i e c s =
    (get_elem? s.waiters i ≡ some (testing e c))
    ⊎ ((f : Option Future) × (get_elem? s.waiters i ≡ some (blocked e c f)))
    ⊎ (c ≤ last_ready s e)

module _ (n i e c : ℕ) (s : System) (h : HoldsAt n 0 e s) (l : suc n < 2 ^ 64) (a : Event) where
  last_ready_mono : last_ready s e ≤ last_ready (step a s) e
  last_ready_mono =
      (step-HoldsAt {n = n} {low = last_ready s e} e s
        (record {
          few = h.few;
          since = omega arith;
          ordered = h.ordered;
          once = h.once;
          none_after = h.none_after;
          latest = h.latest;
          marked = h.marked;
        })
        a l).since

  same_waiters : (step a s).waiters ≡ s.waiters → Waits i e c s → Waits i e c (step a s)
  same_waiters eq (inl w) = inl (ap (λ l. get_elem? l i) eq ∙ w)
  same_waiters eq (inr (inl (f, w))) = inr (inl (f, ap (λ l. get_elem? l i) eq ∙ w))
  same_waiters eq (inr (inr k)) = inr (inr (omega (arith, last_ready_mono, k)))

module _ (i e c : ℕ) (s : System) where
  -- Another thread is somewhere else.
  other_thread :
      (j : ℕ) (x y : Waiter)
      → get_elem? s.waiters j ≡ some x
      → ((j == i) ≡ false)
      → Waits i e c s
      → Waits i e c (with_waiter s j y)
  other_thread j x y g ne (inl w) = inl (get_elem?-set_of_get s.waiters j i x y g ∙ rw ne w)
  other_thread j x y g ne (inr (inl (f, w))) =
      inr (inl (f, get_elem?-set_of_get s.waiters j i x y g ∙ rw ne w))
  other_thread j x y g ne (inr (inr k)) = inr (inr k)

  -- The thread itself goes on from where it stands.
  this_thread :
      (j : ℕ) (x y : Waiter)
      → get_elem? s.waiters j ≡ some x
      → ((j == i) ≡ true)
      → (x ≡ testing e c
          → (y ≡ testing e c) ⊎ ((f : Option Future) × (y ≡ blocked e c f)) ⊎ (c ≤ last_ready s e))
      → ((f : Option Future) → x ≡ blocked e c f → y ≡ testing e c)
      → Waits i e c s
      → Waits i e c (with_waiter s j y)
  this_thread j x y g eq from_test from_block w =
      let ji : j ≡ i = ground (arith, eq) in
      let here : get_elem? s.waiters i ≡ some x =
        subst (λ (k : ℕ). get_elem? s.waiters k ≡ some x) ji g in
      let now : get_elem? (set s.waiters j y) i ≡ some y =
        get_elem?-set_of_get s.waiters j i x y g ∙ rw eq refl in
      elim w [
        | inl t ↦ elim (from_test (let p = sym here ∙ t in cc)) [
          | inl k ↦ inl (now ∙ ap (λ z. let o : Option Waiter = some z in o) k)
          | inr (inl (f, k)) ↦ inr (inl (f, now ∙ ap (λ z. let o : Option Waiter = some z in o) k))
          | inr (inr k) ↦ inr (inr k)
        ]
        | inr (inl (f, t)) ↦ inl (
            now
            ∙ ap (λ z. let o : Option Waiter = some z in o)
                (from_block f (let p = sym here ∙ t in cc)))
        | inr (inr k) ↦ inr (inr k)
      ]

  tested-cases :
      (e' c' : ℕ) (ev : Option EventImpl)
      → get_elem? s.events e' ≡ ev
      → testing e' c' ≡ testing e c
      → (tested e' c' ev ≡ testing e c)
        ⊎ ((f : Option Future) × (tested e' c' ev ≡ blocked e c f))
        ⊎ (c ≤ last_ready s e)
  unfolding tested
  tested-cases e' c' none g p = inl p
  tested-cases e' c' (some ev) g p =
      let ee : e' ≡ e = cc in
      let ccs : c' ≡ c = cc in
      let was : event_at s e ≡ ev =
        get_or_of_get s.events e ev _ (subst (λ (k : ℕ). get_elem? s.events k ≡ some ev) ee g) in
      elim (Bool-cases (ltb ev.last_ready_enqueue_count c')) [
        | inl b ↦ inr (inl (ev.future, rw b (cc)))
        | inr b ↦ inr (
            inr (
              subst (λ (v : EventImpl). c ≤ v.last_ready_enqueue_count) (sym was)
                (ground (arith, b, ccs))))
      ]

  call-Waits :
      (j e' : ℕ) (x : Option Waiter) (ev : Option EventImpl)
      → get_elem? s.waiters j ≡ x
      → Waits i e c s
      → Waits i e c (call_wait s j e' x ev)
  unfolding call_wait
  call-Waits j e' none ev g w = w
  call-Waits j e' (some outside) none g w = w
  call-Waits j e' (some (testing e'' c')) ev g w = w
  call-Waits j e' (some (blocked e'' c' f)) ev g w = w
  call-Waits j e' (some outside) (some ev) g w = elim (Bool-cases (j == i)) [
    | inl eq ↦ this_thread j outside _ g eq (λ p. absurd (cc)) (λ f p. absurd (cc)) w
    | inr ne ↦ other_thread j outside _ g ne w
  ]

  if-Waits :
      (b : Bool) (x y : System) → Waits i e c x → Waits i e c y → Waits i e c (if b then x else y)
  if-Waits true x y p q = p
  if-Waits false x y p q = q

  waiter-Waits :
      (j : ℕ) (x : Option Waiter)
      → get_elem? s.waiters j ≡ x
      → Waits i e c s
      → Waits i e c (waiter_at s j x)
  unfolding waiter_at
  waiter-Waits j none g w = w
  waiter-Waits j (some outside) g w = w
  waiter-Waits j (some (testing e' c')) g w = elim (Bool-cases (j == i)) [
    | inl eq ↦
        this_thread j (testing e' c') _ g eq (λ p. tested-cases e' c' _ refl p) (λ f p. absurd (cc))
          w
    | inr ne ↦ other_thread j (testing e' c') _ g ne w
  ]
  waiter-Waits j (some (blocked e' c' f)) g w =
      if-Waits (is_kept s.queues f) _ _
        (elim (Bool-cases (j == i)) [
          | inl eq ↦ this_thread j (blocked e' c' f) _ g eq (λ p. absurd (cc)) (λ f' p. cc) w
          | inr ne ↦ other_thread j (blocked e' c' f) _ g ne w
        ])
        w

step-Waits :
    (n i e c : ℕ) (s : System)
    → HoldsAt n 0 e s
    → suc n < 2 ^ 64
    → (a : Event) → Waits i e c s
    → Waits i e c (step a s)
unfolding step
step-Waits n i e c s h l (task q k) w =
    same_waiters n i e c s h l (task q k) (task-waiters s q k _) w
step-Waits n i e c s h l (record_event q j) w =
    same_waiters n i e c s h l (record_event q j) (event-waiters s q j _ _) w
step-Waits n i e c s h l (wait_for q j) w =
    same_waiters n i e c s h l (wait_for q j)
      (wait-waiters s q j (get_elem? s.queues q) (get_elem? s.events j)) w
step-Waits n i e c s h l (work q) w = same_waiters n i e c s h l (work q) (work-waiters s q _) w
step-Waits n i e c s h l (wait j e') w = call-Waits i e c s j e' _ _ refl w
step-Waits n i e c s h l (advance j) w = waiter-Waits i e c s j _ refl w

run-Waits :
    (n i e c : ℕ) (events : List Event) (s : System)
    → HoldsAt n 0 e s
    → n + length events < 2 ^ 64
    → Waits i e c s
    → Waits i e c (run events s)
unfolding run
run-Waits n i e c [] s h l w = w
run-Waits n i e c (a ∷ events) s h l w =
    run-Waits (suc n) i e c events (step a s) (step-HoldsAt e s h a (omega arith)) (omega arith)
      (step-Waits n i e c s h (omega arith) a w)

recorded_event :
    (s : System) (q e : ℕ) (r : Queue) (ev : EventImpl)
    → get_elem? s.queues q ≡ some r
    → get_elem? s.events e ≡ some ev
    → r.blocking ≡ false
    → ev.enqueue_count + 1 < 2 ^ 64
    → (ev' : EventImpl) × (get_elem? (step (record_event q e) s).events e ≡ some ev')
      × (ev'.enqueue_count ≡ ev.enqueue_count + 1)
unfolding step enqueue_event counted
recorded_event s q e r ev g g' b l =
    let self : (e == e) ≡ true = ground arith in
    (
      counted ev (record { queue = q; place = length r.finished + length r.tasks }),
      ap₂ (λ a b. get_elem? (enqueue_event s q e a b).events e) g g'
          ∙ (ap (λ (t : System). get_elem? t.events e) (if_false r.blocking _ _ b)
              ∙ (get_elem?-set_of_get s.events e e ev
                    (counted ev (record { queue = q; place = length r.finished + length r.tasks }))
                    g'
                  ∙ rw self refl)),
      wrap_of_lt 64 l,
    )

record-waiters : (s : System) (q e : ℕ) → (step (record_event q e) s).waiters ≡ s.waiters
unfolding step
record-waiters s q e = event-waiters s q e (get_elem? s.queues q) (get_elem? s.events e)

called :
    (s : System) (i e : ℕ) (ev : EventImpl)
    → get_elem? s.waiters i ≡ some outside
    → get_elem? s.events e ≡ some ev
    → get_elem? (step (wait i e) s).waiters i ≡ some (testing e ev.enqueue_count)
unfolding step call_wait
called s i e ev g g' =
    let self : (i == i) ≡ true = ground arith in
    ap₂ (λ a b. get_elem? (call_wait s i e a b).waiters i) g g'
    ∙ (get_elem?-set_of_get s.waiters i i outside (testing e ev.enqueue_count) g ∙ rw self refl)

arrived :
    (i e c : ℕ) (s : System)
    → get_elem? s.waiters i ≡ some outside
    → Waits i e c s
    → c ≤ last_ready s e
arrived i e c s g (inl w) = absurd (let p = sym g ∙ w in cc)
arrived i e c s g (inr (inl (f, w))) = absurd (let p = sym g ∙ w in cc)
arrived i e c s g (inr (inr k)) = k

-- The wait for a queue that does not block: a thread enqueues an event there and calls `wait` for it; more steps
-- follow, in any order. If the thread is out of `wait`, and the event has not been enqueued again, every task that
-- was on the queue when the event was enqueued has been run, in the order of the queue. There are fewer than 2 ^ 64
-- steps.
pub wait-Finished :
    (kinds : List Bool) (m k q i e : ℕ) (before after : List Event) (r : Queue) (ev : EventImpl)
    → length before + suc (suc (length after)) < 2 ^ 64
    → get_elem? (run before (start kinds m k)).queues q ≡ some r
    → r.blocking ≡ false
    → get_elem? (run before (start kinds m k)).events e ≡ some ev
    → get_elem? (run before (start kinds m k)).waiters i ≡ some outside
    → get_elem?
        (run (wait i e ∷ after) (step (record_event q e) (run before (start kinds m k)))).waiters
        i
      ≡ some outside
    → (event_at
        (run (wait i e ∷ after) (step (record_event q e) (run before (start kinds m k))))
        e).enqueue_count
      ≡ ev.enqueue_count + 1
    → Finished
        (run (wait i e ∷ after) (step (record_event q e) (run before (start kinds m k))))
        q
        ((r.finished ++ r.tasks) ++ signal e (ev.enqueue_count + 1) ∷ [])
wait-Finished kinds m k q i e before after r ev l g b g' w out once =
    let s = run before (start kinds m k) in
    let n : ℕ = length before in
    let held = reached kinds m k e before (omega arith) in
    let few : ev.enqueue_count ≤ n =
      subst (λ (x : EventImpl). x.enqueue_count ≤ n) (get_or_of_get s.events e ev _ g') held.few in
    let s1 = step (record_event q e) s in
    let held1 = step-HoldsAt e s held (record_event q e) (omega arith) in
    let (ev1, g1, c1) = recorded_event s q e r ev g g' b (omega arith) in
    let w1 : get_elem? s1.waiters i ≡ some outside =
      ap (λ x. get_elem? x i) (record-waiters s q e) ∙ w in
    let in_wait = called s1 i e ev1 w1 g1 in
    let t = run after (step (wait i e) s1) in
    let held2 = step-HoldsAt e s1 held1 (wait i e) (omega arith) in
    let waits =
      run-Waits (suc (suc n)) i e ev1.enqueue_count after (step (wait i e) s1) held2 (omega arith)
        (inl in_wait) in
    let got = arrived i e ev1.enqueue_count t (unfold run in out) waits in
    let held3 = run-HoldsAt (suc (suc n)) 0 e after (step (wait i e) s1) (omega arith) held2 in
    let count : (event_at t e).enqueue_count ≡ ev.enqueue_count + 1 = unfold run in once in
    let last : last_ready t e ≡ ev.enqueue_count + 1 =
      omega (arith, held3.ordered, got, c1, count) in
    record_event-Finished kinds m k q e before (wait i e ∷ after) r ev (omega arith) g b g'
      (unfold run in last)
