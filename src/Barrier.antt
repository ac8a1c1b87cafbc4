-- ===== src/Barrier.antt =====
-- `BarrierThread` of include/alpaka/core/BarrierThread.hpp, with the spin lock: the threads of a block take
-- turns in any order, and each step is one access to the shared atomics.
pub mod Invariant
pub mod Safety
pub mod Preserved
pub mod Predicate
use alpaka.Base.{
  ℕ, suc, ◌+◌, ◌-◌, ◌^◌, List, [], ◌∷◌, Option, none, some, get_elem?, set, replicate, ◌==◌,
  if◌then◌else◌, wrap,
}

-- `m_curThreadCount` and `m_generation`.
pub record Shared : Type 0 where
  pub cur_thread_count : ℕ
  pub generation : ℕ

-- Where a thread stands: not in `wait`; with the generation it read, before the decrement; in the loop;
-- as the last thread before each of its two writes.
pub data Place : Type 0 where
  outside : Place
  entered : ℕ → Place
  spinning : ℕ → Place
  resetting : Place
  opening : Place

-- `passed` counts the calls of `wait` that have returned.
pub record Thread : Type 0 where
  pub place : Place
  pub passed : ℕ

pub record Barrier : Type 0 where
  pub shared : Shared
  pub threads : List Thread

module _ (w thread_count : ℕ) where
  -- The constructor, with all the threads outside.
  abbrev pub start : Barrier
  start = record {
    shared = record { cur_thread_count = thread_count; generation = 0 };
    threads = replicate thread_count (record { place = outside; passed = 0 });
  }

  -- `--m_curThreadCount`
  unfoldable pub decremented : Shared → ℕ
  decremented m = wrap w (m.cur_thread_count + 2 ^ w - 1)

  -- The next step of `wait` for a thread; a thread outside calls it.
  unfoldable pub advance_at : Place → ℕ → Shared → Shared × Thread
  unfolding decremented
  advance_at outside passed m = (m, record { place = entered m.generation; passed = passed })
  advance_at (entered g) passed m = (
    record { cur_thread_count = decremented m; generation = m.generation },
    record { place = if decremented m == 0 then resetting else spinning g; passed = passed },
  )
  advance_at (spinning g) passed m = (
    m,
    if g == m.generation
        then record { place = spinning g; passed = passed }
        else record { place = outside; passed = suc passed },
  )
  advance_at resetting passed m = (
    record { cur_thread_count = thread_count; generation = m.generation },
    record { place = opening; passed = passed },
  )
  advance_at opening passed m = (
    record { cur_thread_count = m.cur_thread_count; generation = wrap w (m.generation + 1) },
    record { place = outside; passed = suc passed },
  )

  -- A step of the thread `i`.
  unfoldable pub step : ℕ → Barrier → Barrier
  unfolding advance_at
  step i s = elim (get_elem? s.threads i) [
    | none ↦ s
    | some t ↦
        let (m, u) = advance_at t.place t.passed s.shared in
        record { shared = m; threads = set s.threads i u }
  ]

  unfoldable pub run : List ℕ → Barrier → Barrier
  unfolding step
  run [] s = s
  run (i ∷ schedule) s = run schedule (step i s)
