-- ===== src/Callback/Invariant.antt =====
-- The owner, the worker and the queue of include/alpaka/core/CallbackThread.hpp in any order of steps.
use alpaka.Base.{ℕ, ◌≡◌, ◌≢◌, inl, inr, refl, ap, ◌∙◌, Bool, true, List, [], ◌∷◌, ◌++◌}
use mathlib.Core.List.{append_assoc}
use alpaka.Callback.{
  Owner, outside, submitting, stopping, joining, gone, Worker, absent, testing, deciding, sleeping,
  running, ended, State, initial, notify_one, with_threads, join_owner, owner_at, worker_at, Event,
  submit, destroy, own, work, step, run,
}
use alpaka.Callback.Sequence.{
  held, Settled, Emptied, Holds, st, Settled-any, Emptied-any, tested, submit-Holds, destroy-Holds,
}

module _ (b : Bool) (ts sub r : List ℕ) where
  -- A change of the owner, and of a worker who holds nothing before and after.
  turns :
      (o p : Owner) (w v : Worker)
      → held v ≡ held w
      → Settled p v
      → Emptied p v ts
      → ((b ≡ true) → (p ≢ outside) × (p ≢ submitting))
      → Holds (st b ts o w sub r)
      → Holds (st b ts p v sub r)
  turns o p w v e f g k h = record {
    sequence = ap (λ (q : List ℕ). r ++ (q ++ ts)) e ∙ h.sequence;
    settled = f;
    emptied = g;
    open_owner = k;
  }

  woken-Emptied :
      (o p : Owner) (w : Worker)
      → Emptied o w ts
      → (w ≡ ended → (p ≢ outside) × (p ≢ submitting))
      → Emptied p (notify_one w) ts
  unfolding notify_one
  woken-Emptied o p absent h k = h
  woken-Emptied o p testing h k = tt
  woken-Emptied o p deciding h k = tt
  woken-Emptied o p sleeping h k = tt
  woken-Emptied o p (running n) h k = tt
  woken-Emptied o p ended h k = (h.0, (k refl).0, (k refl).1)

  woken-held : (w : Worker) → held (notify_one w) ≡ held w
  unfolding notify_one
  woken-held absent = refl
  woken-held testing = refl
  woken-held deciding = refl
  woken-held sleeping = refl
  woken-held (running n) = refl
  woken-held ended = refl

  ended-Emptied :
      (o : Owner) (w : Worker) → Emptied o w ts → w ≡ ended → (o ≢ outside) × (o ≢ submitting)
  ended-Emptied o absent h e = absurd (cc)
  ended-Emptied o testing h e = absurd (cc)
  ended-Emptied o deciding h e = absurd (cc)
  ended-Emptied o sleeping h e = absurd (cc)
  ended-Emptied o (running n) h e = absurd (cc)
  ended-Emptied o ended h e = (h.1, h.2)

  joined-Settled : (w : Worker) → Settled (join_owner w) w
  unfolding join_owner
  joined-Settled absent = inl refl
  joined-Settled testing = tt
  joined-Settled deciding = tt
  joined-Settled sleeping = tt
  joined-Settled (running n) = tt
  joined-Settled ended = inr refl

  joined : (w : Worker) → (join_owner w ≢ outside) × (join_owner w ≢ submitting)
  unfolding join_owner
  joined absent = (λ e. cc, λ e. cc)
  joined testing = (λ e. cc, λ e. cc)
  joined deciding = (λ e. cc, λ e. cc)
  joined sleeping = (λ e. cc, λ e. cc)
  joined (running n) = (λ e. cc, λ e. cc)
  joined ended = (λ e. cc, λ e. cc)

  own-Holds :
      (o : Owner) (w : Worker) → Holds (st b ts o w sub r) → Holds (owner_at o (st b ts o w sub r))
  unfolding owner_at with_threads
  own-Holds outside w h = h
  own-Holds submitting w h =
      turns submitting outside w (notify_one w) (woken-held w) tt
        (woken-Emptied submitting outside w h.emptied
          (λ e. absurd ((ended-Emptied submitting w h.emptied e).1 refl)))
        (λ k. absurd ((h.open_owner k).1 refl)) h
  own-Holds stopping w h =
      turns stopping joining w (notify_one w) (woken-held w) tt
        (woken-Emptied stopping joining w h.emptied (λ e. (λ q. cc, λ q. cc)))
        (λ k. (λ q. cc, λ q. cc)) h
  own-Holds joining w h =
      turns joining (join_owner w) w w refl (joined-Settled w)
        (Emptied-any joining (join_owner w) w ts h.emptied (joined w).0 (joined w).1)
        (λ k. joined w) h
  own-Holds gone w h = h

  work-Holds :
      (o : Owner) (w : Worker) → Holds (st b ts o w sub r) → Holds (worker_at w (st b ts o w sub r))
  unfolding worker_at with_threads
  work-Holds o absent h = h
  work-Holds o testing h = tested b ts o sub r h
  work-Holds o deciding h =
      turns o o deciding sleeping refl
        (Settled-any o deciding sleeping h.settled (λ e. cc) (λ e. cc)) tt h.open_owner h
  work-Holds o sleeping h = h
  work-Holds o (running n) h = record {
    sequence = append_assoc r (n ∷ []) ts ∙ h.sequence;
    settled = Settled-any o (running n) testing h.settled (λ e. cc) (λ e. cc);
    emptied = tt;
    open_owner = h.open_owner;
  }
  work-Holds o ended h = h

step-Holds : (e : Event) (s : State) → Holds s → Holds (step e s)
unfolding step
step-Holds (submit n) s h = submit-Holds s.stop s.tasks s.submitted s.ran s.owner s.worker n h
step-Holds destroy s h = destroy-Holds s.stop s.tasks s.submitted s.ran s.owner s.worker h
step-Holds own s h = own-Holds s.stop s.tasks s.submitted s.ran s.owner s.worker h
step-Holds work s h = work-Holds s.stop s.tasks s.submitted s.ran s.owner s.worker h

pub run-Holds : (events : List Event) (s : State) → Holds s → Holds (run events s)
unfolding run
run-Holds [] s h = h
run-Holds (e ∷ events) s h = run-Holds events (step e s) (step-Holds e s h)

pub initial-Holds : Holds initial
initial-Holds = record {
  sequence = refl;
  settled = tt;
  emptied = refl;
  open_owner = λ e. absurd (cc);
}
