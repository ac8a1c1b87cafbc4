-- ===== src/Tests/CallbackTests.antt =====
-- Runs of the callback thread.
use alpaka.Base.{ℕ, ◌≡◌, refl, List, [], ◌∷◌, ◌++◌}
use alpaka.Callback.{gone, initial, Event, submit, destroy, own, work, run}
use alpaka.Callback.Laws.{tasks-run}

-- A task is submitted and run, and the worker finds nothing more to do.
abbrev one_task : List Event
one_task = submit 5 ∷ own ∷ work ∷ work ∷ work ∷ []

tasks-run_example :
    ((left : List ℕ) × ((run one_task initial).ran ++ left ≡ (run one_task initial).submitted))
    × ((run one_task initial).owner ≡ gone
        → (run one_task initial).ran ≡ (run one_task initial).submitted)
tasks-run_example = tasks-run one_task

-- Without the race the destructor is done.
destroyed_cleanly :
    (run (work ∷ destroy ∷ own ∷ work ∷ own ∷ []) (run one_task initial)).owner ≡ gone
unfolding run
destroyed_cleanly = refl
