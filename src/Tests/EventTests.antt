-- ===== src/Tests/EventTests.antt =====
-- Runs of the events and the queues of the CPU device.
use alpaka.Base.{◌≤◌, ◌≡◌, ◌↔◌, refl, Bool, true, false, List, [], ◌∷◌, ◌++◌, arith, length}
use alpaka.Tally.{tally}
use alpaka.Event.{
  client_task, signal, fresh_event, Queue, fresh_queue, is_ready, Event, task, record_event, work,
  wait, advance, step, run, start,
}
use alpaka.Event.Tallies.{pending, event_at}
use alpaka.Event.Laws.{last_ready, Finished, is_ready_iff, record_event-Finished}
use alpaka.Event.Waiting.{wait-Finished}
use alpaka.Event.Deadlock.{enqueued_again, enqueue_again_hangs}

-- A queue that does not block has a task, which has not been run.
abbrev one_task : List Event
one_task = task 0 7 ∷ []

abbrev with_task : Queue
with_task = record (fresh_queue false) { tasks = client_task 7 ∷ [] }

-- The worker runs the task and marks the event.
abbrev both_run : List Event
both_run = work 0 ∷ work 0 ∷ work 0 ∷ []

abbrev kinds : List Bool
kinds = false ∷ []

is_ready_iff_example :
    (is_ready (event_at (run (record_event 0 0 ∷ []) (start kinds 1 1)) 0) ≡ true) ↔ (
      tally
        (pending 0 (event_at (run (record_event 0 0 ∷ []) (start kinds 1 1)) 0).enqueue_count)
        (run (record_event 0 0 ∷ []) (start kinds 1 1)).queues
      ≡ 0)
is_ready_iff_example = is_ready_iff kinds 1 1 0 (record_event 0 0 ∷ []) (omega arith)

record_event-Finished_example :
    Finished
      (run both_run (step (record_event 0 0) (run one_task (start kinds 1 1))))
      0
      (client_task 7 ∷ signal 0 1 ∷ [])
record_event-Finished_example =
    record_event-Finished kinds 1 1 0 0 one_task both_run with_task fresh_event (omega arith)
      (unfold run in unfold start in refl) refl (unfold run in unfold start in refl)
      (unfold run in unfold start in refl)

wait-Finished_example :
    Finished
      (run
        (wait 0 0 ∷ both_run ++ advance 0 ∷ [])
        (step (record_event 0 0) (run one_task (start kinds 1 1))))
      0
      (client_task 7 ∷ signal 0 1 ∷ [])
wait-Finished_example =
    wait-Finished kinds 1 1 0 0 0 one_task (both_run ++ advance 0 ∷ []) with_task fresh_event
      (omega arith) (unfold run in unfold start in refl) refl (unfold run in unfold start in refl)
      (unfold run in unfold start in refl) (unfold run in unfold start in refl)
      (unfold run in unfold start in refl)

enqueue_again_hangs_example :
    (r : Queue) × ((enqueued_again 0 (work 0 ∷ work 0 ∷ work 0 ∷ work 0 ∷ [])).queues ≡ r ∷ [])
    × (length r.finished ≤ 1)
    × (last_ready (enqueued_again 0 (work 0 ∷ work 0 ∷ work 0 ∷ work 0 ∷ [])) 0 ≡ 0)
enqueue_again_hangs_example =
    enqueue_again_hangs 0 (work 0 ∷ work 0 ∷ work 0 ∷ work 0 ∷ []) (omega arith)
