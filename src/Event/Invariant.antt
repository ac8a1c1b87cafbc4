-- ===== src/Event/Invariant.antt =====
-- The counters of an event against the tasks that mark it, include/alpaka/event/EventGenericThreads.hpp.
use alpaka.Base.{
  ℕ, suc, ◌+◌, ◌^◌, ◌≤◌, ◌<◌, ◌≡◌, ◌∙◌, arith, inl, inr, Bool-cases, ◌==◌, if◌then◌else◌,
}
use alpaka.Event.{Future, EventImpl, counted, run_signal}

-- `P c` and `O c` count the tasks to come and the tasks run that mark the event with `c`, and there were at most `n`
-- steps. The last ready count has been `low` before.
pub record Holds (n low : ℕ) (ev : EventImpl) (P O : ℕ → ℕ) : Type 0 where
  pub few : ev.enqueue_count ≤ n
  pub since : low ≤ ev.last_ready_enqueue_count
  pub ordered : ev.last_ready_enqueue_count ≤ ev.enqueue_count
  pub once : (c : ℕ) → P c + O c ≤ 1
  pub none_after : (c : ℕ) → ev.enqueue_count < c → P c + O c ≡ 0
  pub latest :
      P ev.enqueue_count ≡ (if ev.last_ready_enqueue_count == ev.enqueue_count then 0 else 1)
  pub marked : 0 < ev.last_ready_enqueue_count → O ev.last_ready_enqueue_count ≡ 1

abbrev pub one_at : ℕ → ℕ → ℕ
one_at c0 c = if c == c0 then 1 else 0

module _ {n low : ℕ} {ev : EventImpl} {P O P' O' : ℕ → ℕ} (h : Holds n low ev P O) where
  pub Holds-same : ((c : ℕ) → P' c ≡ P c) → ((c : ℕ) → O' c ≡ O c) → Holds (suc n) low ev P' O'
  Holds-same p o = record {
    few = omega (arith, h.few);
    since = h.since;
    ordered = h.ordered;
    once = λ c. omega (arith, p c, o c, h.once c);
    none_after = λ c l. omega (arith, p c, o c, h.none_after c l);
    latest = p ev.enqueue_count ∙ h.latest;
    marked = λ l. o ev.last_ready_enqueue_count ∙ h.marked l;
  }

  pub Holds-counted :
      (f : Future)
      → suc n < 2 ^ 64
      → ((c : ℕ) → P' c ≡ P c + one_at (counted ev f).enqueue_count c)
      → ((c : ℕ) → O' c ≡ O c)
      → Holds (suc n) low (counted ev f) P' O'
  unfolding counted
  Holds-counted f k p o =
      let e : (counted ev f).enqueue_count ≡ suc ev.enqueue_count = omega (arith, h.few) in
      record {
        few = omega (arith, h.few);
        since = h.since;
        ordered = omega (arith, h.few, h.ordered);
        once = λ c. ground (arith, e, p c, o c, h.once c, h.none_after c);
        none_after = λ c l. ground (arith, e, p c, o c, h.none_after c);
        latest = ground (
          arith,
          e,
          h.ordered,
          p (counted ev f).enqueue_count,
          h.none_after (counted ev f).enqueue_count,
        );
        marked = λ l. o ev.last_ready_enqueue_count ∙ h.marked l;
      }

  -- A blocking queue marks the event at once.
  pub Holds-marked :
      (f : Future)
      → suc n < 2 ^ 64
      → ((c : ℕ) → P' c ≡ P c)
      → ((c : ℕ) → O' c ≡ O c + one_at (counted ev f).enqueue_count c)
      → Holds
          (suc n)
          low
          (record (counted ev f) { last_ready_enqueue_count = (counted ev f).enqueue_count })
          P'
          O'
  unfolding counted
  Holds-marked f k p o =
      let e : (counted ev f).enqueue_count ≡ suc ev.enqueue_count = omega (arith, h.few) in
      record {
        few = omega (arith, h.few);
        since = omega (arith, e, h.since, h.ordered);
        ordered = omega arith;
        once = λ c. ground (arith, e, p c, o c, h.once c, h.none_after c);
        none_after = λ c l. ground (arith, e, p c, o c, h.none_after c);
        latest =
            ground
              (arith, e, p (counted ev f).enqueue_count, h.none_after (counted ev f).enqueue_count);
        marked = λ l.
            ground
              (arith, e, o (counted ev f).enqueue_count, h.none_after (counted ev f).enqueue_count);
      }

  -- A task that marks the event is run.
  pub Holds-run_signal :
      (c0 : ℕ)
      → ((c : ℕ) → P' c + one_at c0 c ≡ P c)
      → ((c : ℕ) → O' c ≡ O c + one_at c0 c)
      → Holds (suc n) low (run_signal c0 ev) P' O'
  unfolding run_signal
  Holds-run_signal c0 p o = elim (Bool-cases (c0 == ev.enqueue_count)) [
    | inl now ↦ rw now (record {
      few = omega (arith, h.few);
      since = omega (arith, h.since, h.ordered);
      ordered = omega arith;
      once = λ c. omega (arith, p c, o c, h.once c);
      none_after = λ c l. omega (arith, p c, o c, h.none_after c l);
      latest = ground (arith, now, p ev.enqueue_count, h.latest);
      marked =
          λ l. ground (arith, now, p ev.enqueue_count, o ev.enqueue_count, h.once ev.enqueue_count);
    })
    | inr late ↦ rw late (record {
      few = omega (arith, h.few);
      since = h.since;
      ordered = h.ordered;
      once = λ c. omega (arith, p c, o c, h.once c);
      none_after = λ c l. omega (arith, p c, o c, h.none_after c l);
      latest = ground (arith, late, p ev.enqueue_count, h.latest);
      marked = λ l. ground (
        arith,
        late,
        p ev.last_ready_enqueue_count,
        o ev.last_ready_enqueue_count,
        h.marked l,
        h.once ev.last_ready_enqueue_count,
      );
    })
  ]
