-- ===== src/Callback/Laws.antt =====
-- `submit` and the destructor of include/alpaka/core/CallbackThread.hpp: the tasks, and the wait for the worker.
use alpaka.Base.{ℕ, ◌≡◌, inl, inr, sym, ap, subst, ◌∙◌, List, ◌++◌}
use mathlib.Core.List.{append-nil}
use alpaka.Callback.{
  gone, Worker, absent, testing, deciding, sleeping, running, ended, State, initial, Event, run,
}
use alpaka.Callback.Invariant.{run-Holds, initial-Holds}
use alpaka.Callback.Sequence.{held, Settled, Emptied}

gone-ran :
    (s : State) (w : Worker) (ts : List ℕ)
    → s.ran ++ (held w ++ ts) ≡ s.submitted
    → Settled gone w
    → Emptied s.owner w ts
    → s.ran ≡ s.submitted
gone-ran s absent ts e f g = sym (append-nil s.ran) ∙ (ap (λ (q : List ℕ). s.ran ++ q) (sym g) ∙ e)
gone-ran s testing ts e f g = elim f [ inl q ↦ absurd (cc) | inr q ↦ absurd (cc) ]
gone-ran s deciding ts e f g = elim f [ inl q ↦ absurd (cc) | inr q ↦ absurd (cc) ]
gone-ran s sleeping ts e f g = elim f [ inl q ↦ absurd (cc) | inr q ↦ absurd (cc) ]
gone-ran s (running n) ts e f g = elim f [ inl q ↦ absurd (cc) | inr q ↦ absurd (cc) ]
gone-ran s ended ts e f g = sym (append-nil s.ran) ∙ (ap (λ (q : List ℕ). s.ran ++ q) (sym g.0) ∙ e)

-- After any steps, the tasks run are a beginning of the tasks submitted, in their order; and once the destructor is
-- done, every task submitted has been run.
pub tasks-run :
    (events : List Event)
    → ((left : List ℕ) × ((run events initial).ran ++ left ≡ (run events initial).submitted))
      × ((run events initial).owner ≡ gone
          → (run events initial).ran ≡ (run events initial).submitted)
tasks-run events =
    let s : State = run events initial in
    let h = run-Holds events initial initial-Holds in
    (
      (held s.worker ++ s.tasks, h.sequence),
      λ e.
          gone-ran s s.worker s.tasks h.sequence (subst (λ o. Settled o s.worker) e h.settled)
            h.emptied,
    )
