-- ===== src/Callback/Sequence.antt =====
-- The invariant of include/alpaka/core/CallbackThread.hpp, and the steps of `submit` and the destructor.
use alpaka.Base.{
  ℕ, ◌≡◌, ◌≢◌, ◌⊎◌, inl, inr, refl, sym, ap, ◌∙◌, Bool, true, false, List, [], ◌∷◌, ◌++◌,
}
use mathlib.Core.List.{append_assoc}
use alpaka.Callback.{
  Owner, outside, submitting, stopping, joining, gone, Worker, absent, testing, deciding, sleeping,
  running, ended, State, start_worker, submit_at, destroy_at, with_threads, test_at,
}

-- The task in the worker's hands.
abbrev pub held : Worker → List ℕ
held absent = []
held testing = []
held deciding = []
held sleeping = []
held (running n) = n ∷ []
held ended = []

-- An owner who is done: the worker was never started or has ended.
abbrev pub Settled : Owner → Worker → Type 0
Settled outside w = Unit
Settled submitting w = Unit
Settled stopping w = Unit
Settled joining w = Unit
Settled gone w = (w ≡ absent) ⊎ (w ≡ ended)

-- Nothing is left once the worker has ended, and nothing is queued before it starts.
abbrev pub Emptied : Owner → Worker → List ℕ → Type 0
Emptied o absent ts = ts ≡ []
Emptied o testing ts = Unit
Emptied o deciding ts = Unit
Emptied o sleeping ts = Unit
Emptied o (running n) ts = Unit
Emptied o ended ts = (ts ≡ []) × (o ≢ outside) × (o ≢ submitting)

pub record Holds (s : State) : Type 0 where
  pub sequence : s.ran ++ (held s.worker ++ s.tasks) ≡ s.submitted
  pub settled : Settled s.owner s.worker
  pub emptied : Emptied s.owner s.worker s.tasks
  pub open_owner : (s.stop ≡ true) → (s.owner ≢ outside) × (s.owner ≢ submitting)

abbrev pub st : Bool → List ℕ → Owner → Worker → List ℕ → List ℕ → State
st b ts o w sub r = record { stop = b; tasks = ts; owner = o; worker = w; submitted = sub; ran = r }

-- A worker at work has left the owner waiting.
pub Settled-any : (o : Owner) (w v : Worker) → Settled o w → w ≢ absent → w ≢ ended → Settled o v
Settled-any outside w v h a b = tt
Settled-any submitting w v h a b = tt
Settled-any stopping w v h a b = tt
Settled-any joining w v h a b = tt
Settled-any gone w v h a b = elim h [ inl e ↦ absurd (a e) | inr e ↦ absurd (b e) ]

pub Emptied-any :
    (o p : Owner) (w : Worker) (ts : List ℕ)
    → Emptied o w ts
    → p ≢ outside
    → p ≢ submitting
    → Emptied p w ts
Emptied-any o p absent ts h a b = h
Emptied-any o p testing ts h a b = tt
Emptied-any o p deciding ts h a b = tt
Emptied-any o p sleeping ts h a b = tt
Emptied-any o p (running n) ts h a b = tt
Emptied-any o p ended ts h a b = (h.0, a, b)

pub tested :
    (b : Bool) (ts : List ℕ) (o : Owner) (sub r : List ℕ)
    → Holds (st b ts o testing sub r)
    → Holds (test_at b ts (st b ts o testing sub r))
unfolding test_at with_threads
tested true [] o sub r h = record {
  sequence = h.sequence;
  settled = Settled-any o testing ended h.settled (λ e. cc) (λ e. cc);
  emptied = (refl, (h.open_owner refl).0, (h.open_owner refl).1);
  open_owner = h.open_owner;
}
tested false [] o sub r h = record {
  sequence = h.sequence;
  settled = Settled-any o testing deciding h.settled (λ e. cc) (λ e. cc);
  emptied = tt;
  open_owner = h.open_owner;
}
tested true (n ∷ ts) o sub r h = record {
  sequence = h.sequence;
  settled = Settled-any o testing (running n) h.settled (λ e. cc) (λ e. cc);
  emptied = tt;
  open_owner = h.open_owner;
}
tested false (n ∷ ts) o sub r h = record {
  sequence = h.sequence;
  settled = Settled-any o testing (running n) h.settled (λ e. cc) (λ e. cc);
  emptied = tt;
  open_owner = h.open_owner;
}

module _ (b : Bool) (ts sub r : List ℕ) where
  pub pushed :
      (w v : Worker) (n : ℕ)
      → held v ≡ held w
      → Emptied submitting v (ts ++ n ∷ [])
      → Holds (st b ts outside w sub r)
      → Holds (st b (ts ++ n ∷ []) submitting v (sub ++ n ∷ []) r)
  pushed w v n e f h = record {
    sequence =
        ap (λ (q : List ℕ). r ++ (q ++ (ts ++ n ∷ []))) e
        ∙ (ap (λ (q : List ℕ). r ++ q) (sym (append_assoc (held w) ts (n ∷ [])))
            ∙ (sym (append_assoc r (held w ++ ts) (n ∷ []))
                ∙ ap (λ (q : List ℕ). q ++ n ∷ []) h.sequence));
    settled = tt;
    emptied = f;
    open_owner = λ k. absurd ((h.open_owner k).0 refl);
  }

  pub submit-Holds :
      (o : Owner) (w : Worker) (n : ℕ)
      → Holds (st b ts o w sub r)
      → Holds (submit_at o w n (st b ts o w sub r))
  unfolding submit_at start_worker
  submit-Holds outside absent n h = pushed absent testing n refl tt h
  submit-Holds outside testing n h = pushed testing testing n refl tt h
  submit-Holds outside deciding n h = h
  submit-Holds outside sleeping n h = pushed sleeping sleeping n refl tt h
  submit-Holds outside (running k) n h = pushed (running k) (running k) n refl tt h
  submit-Holds outside ended n h = absurd (h.emptied.1 refl)
  submit-Holds submitting w n h = h
  submit-Holds stopping w n h = h
  submit-Holds joining w n h = h
  submit-Holds gone w n h = h

  pub destroy-Holds :
      (o : Owner) (w : Worker)
      → Holds (st b ts o w sub r)
      → Holds (destroy_at o (st b ts o w sub r))
  unfolding destroy_at
  destroy-Holds outside w h = record {
    sequence = h.sequence;
    settled = tt;
    emptied = Emptied-any outside stopping w ts h.emptied (λ e. cc) (λ e. cc);
    open_owner = λ k. (λ e. cc, λ e. cc);
  }
  destroy-Holds submitting w h = h
  destroy-Holds stopping w h = h
  destroy-Holds joining w h = h
  destroy-Holds gone w h = h
