-- ===== src/Event/Laws.antt =====
-- `isComplete` and the wait for an event, include/alpaka/event/EventGenericThreads.hpp, against what was enqueued.
use alpaka.Base.{
  ℕ, suc, ◌+◌, ◌^◌, ◌≤◌, ◌<◌, ◌≡◌, ◌↔◌, refl, sym, ap, subst, ◌∙◌, Bool, true, false, List, [], ◌∷◌,
  ◌++◌, Option, some, arith, get_elem?, length, if◌then◌else◌, wrap_of_lt, wrap, ap₂, ◌==◌,
}
use mathlib.Core.List.{append_assoc}
use alpaka.Tally.{tally, le-tally}
use alpaka.Event.{
  Task, signal, EventImpl, Queue, System, is_ready, push, counted, enqueue_event, Event,
  record_event, step, run, start,
}
use alpaka.Event.Tallies.{marks, pending, over, event_at, get_or_of_get}
use alpaka.Event.Preserved.{HoldsAt, step-HoldsAt, run-HoldsAt, start-HoldsAt}
use alpaka.Event.History.{run-Grows, get_elem?-set_of_get}

pub reached :
    (kinds : List Bool) (m k e : ℕ) (events : List Event)
    → length events < 2 ^ 64
    → HoldsAt (length events) 0 e (run events (start kinds m k))
reached kinds m k e events l =
    subst (λ (n : ℕ). HoldsAt n 0 e (run events (start kinds m k))) (omega arith)
      (run-HoldsAt 0 0 e events (start kinds m k) (omega arith) (start-HoldsAt kinds m k e))

-- After fewer than 2 ^ 64 steps, in any order, an event is complete exactly when no queue holds the task that marks
-- it for its last enqueue, among the tasks that have not been run.
pub is_ready_iff :
    (kinds : List Bool) (m k e : ℕ) (events : List Event)
    → length events < 2 ^ 64
    → (is_ready (event_at (run events (start kinds m k)) e) ≡ true) ↔ (
        tally
          (pending e (event_at (run events (start kinds m k)) e).enqueue_count)
          (run events (start kinds m k)).queues
        ≡ 0)
unfolding is_ready
is_ready_iff kinds m k e events l = let h = reached kinds m k e events l in ground (arith, h.latest)

tally-marks-append :
    (e c : ℕ) (h more : List Task) → 0 < tally (marks e c) ((h ++ signal e c ∷ []) ++ more)
tally-marks-append e c [] more = ground arith
tally-marks-append e c (t ∷ h) more = omega (arith, tally-marks-append e c h more)

-- The task that marks is not among those to come, so it and all before it have been run.
found :
    (e c : ℕ) (done tasks h more : List Task)
    → done ++ tasks ≡ (h ++ signal e c ∷ []) ++ more
    → tally (marks e c) tasks ≡ 0
    → (rest : List Task) × (done ≡ h ++ signal e c ∷ rest)
found e c [] tasks h more eq z =
    absurd (omega (arith, tally-marks-append e c h more, ap (tally (marks e c)) eq))
found e c (d ∷ done) tasks [] more eq z = (done, cc)
found e c (d ∷ done) tasks (t ∷ h) more eq z =
    let (rest, p) = found e c done tasks h more (cc) z in (rest, cc)

pub if_false {ℓ} : {A : Type ℓ} (b : Bool) (x y : A) → b ≡ false → (if b then x else y) ≡ y
if_false true x y h = absurd (cc)
if_false false x y h = refl

recorded :
    (s : System) (q e : ℕ) (r : Queue) (ev : EventImpl)
    → get_elem? s.queues q ≡ some r
    → get_elem? s.events e ≡ some ev
    → r.blocking ≡ false
    → ev.enqueue_count + 1 < 2 ^ 64
    → get_elem? (step (record_event q e) s).queues q
      ≡ some (push r (signal e (ev.enqueue_count + 1)))
unfolding step enqueue_event counted
recorded s q e r ev g g' b l =
    let self : (q == q) ≡ true = ground arith in
    ap₂ (λ a b. get_elem? (enqueue_event s q e a b).queues q) g g'
    ∙ (ap (λ (t : System). get_elem? t.queues q) (if_false r.blocking _ _ b)
        ∙ (get_elem?-set_of_get s.queues q q r (push r (signal e (wrap 64 (ev.enqueue_count + 1))))
              g
            ∙ rw self (
                ap (λ (c : ℕ). let o : Option Queue = some (push r (signal e c)) in o)
                  (wrap_of_lt 64 l))))

abbrev pub last_ready : System → ℕ → ℕ
last_ready s e = (event_at s e).last_ready_enqueue_count

-- Nothing of what a queue was given is missing from what it has run, up to the task that marks the event.
abbrev pub Finished : System → ℕ → List Task → Type 0
Finished s q tasks =
    (u : Queue) × (get_elem? s.queues q ≡ some u)
    × (rest : List Task) × (u.finished ≡ tasks ++ rest)

-- An event is enqueued on a queue that does not block, and after more steps, in any order, the event is marked as
-- ready for this very enqueue. Then every task that was on the queue at the time of the enqueue has been run, in the
-- order of the queue, and after them the task of the event. There are fewer than 2 ^ 64 steps.
pub record_event-Finished :
    (kinds : List Bool) (m k q e : ℕ) (before after : List Event) (r : Queue) (ev : EventImpl)
    → length before + suc (length after) < 2 ^ 64
    → get_elem? (run before (start kinds m k)).queues q ≡ some r
    → r.blocking ≡ false
    → get_elem? (run before (start kinds m k)).events e ≡ some ev
    → last_ready (run after (step (record_event q e) (run before (start kinds m k)))) e
      ≡ ev.enqueue_count + 1
    → Finished
        (run after (step (record_event q e) (run before (start kinds m k))))
        q
        ((r.finished ++ r.tasks) ++ signal e (ev.enqueue_count + 1) ∷ [])
record_event-Finished kinds m k q e before after r ev l g b g' last =
    let s = run before (start kinds m k) in
    let held = reached kinds m k e before (omega arith) in
    let was : event_at s e ≡ ev = get_or_of_get s.events e ev _ g' in
    let few : ev.enqueue_count ≤ length before =
      subst (λ (x : EventImpl). x.enqueue_count ≤ length before) was held.few in
    let s' = step (record_event q e) s in
    let t = run after s' in
    let c : ℕ = ev.enqueue_count + 1 in
    let h = r.finished ++ r.tasks in
    let (u, gu, extends) =
      run-Grows q after s' (push r (signal e c)) (recorded s q e r ev g g' b (omega arith)) in
    let (b', more, eq) = extends (unfold push in b) in
    let inv =
      run-HoldsAt (suc (length before)) 0 e after s' (omega arith)
        (step-HoldsAt e s held (record_event q e) (omega arith)) in
    let marked : tally (over e c) t.queues ≡ 1 =
      ap (λ (d : ℕ). tally (over e d) t.queues) (sym last) ∙ inv.marked (omega (arith, last)) in
    let none_left : pending e c u ≡ 0 =
      omega (arith, le-tally (pending e c) t.queues q u gu, inv.once c, marked) in
    let (rest, p) =
      found e c u.finished u.tasks h more
        (eq ∙ ap (λ l. l ++ more) (unfold push in sym (append_assoc r.finished r.tasks _)))
        none_left in
    (u, gu, rest, p ∙ sym (append_assoc h (signal e c ∷ []) rest))
