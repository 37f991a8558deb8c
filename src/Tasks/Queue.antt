-- ===== src/Tasks/Queue.antt =====
-- The task list is a queue that is served in order: what Start, Finish and Tick do, in terms of it.
use save_extension.Base.{
  ℕ, zero, suc, ◌≤◌, ◌≡◌, refl, ap, ◌∙◌, Bool, true, false, none, some, List, [], ◌∷◌, arith,
  length, ◌==◌, nat_eq, Bool-cases, Option-cases, inl, inr,
}
use save_extension.Base.Sets.{contains, remove, remove_absent, eq_self, eq_true}
use save_extension.Tasks.{
  Behaviour, TaskList, set_flag, should_start, start_first, finish_by, finish_if, start,
}

-- No task is in the list twice.
abbrev pub Distinct : List ℕ → Type 0
Distinct [] = Unit
Distinct (t ∷ ts) = (contains ts t ≡ false) × Distinct ts

-- Serving a queue in order, starting with its first task: one after another the tasks start, and those
-- that finish at once leave, until one has to wait. What is left, the state, and who finished how.
pub record Served (S : Type 0) : Type 0 where
  pub left : List ℕ
  pub state : S
  pub done : List (ℕ × Bool)

unfoldable pub serve : {S : Type 0} → Behaviour S → List ℕ → S → Served S
serve b [] s = record { left = []; state = s; done = [] }
serve b (t ∷ ts) s = elim (b.on_start t s).1 [
  | none ↦ record { left = t ∷ ts; state = (b.on_start t s).0; done = [] }
  | some r ↦
      let rest = serve b ts (b.on_finish t r (b.on_start t s).0) in
      record { left = rest.left; state = rest.state; done = (t, r) ∷ rest.done }
]

-- The flags after some tasks finished.
abbrev pub finished_by : List (ℕ × Bool) → (ℕ → Bool) → ℕ → Bool
finished_by [] f = f
finished_by ((t, r) ∷ ds) f = set_flag (finished_by ds f) t true

abbrev pub succeeded_by : List (ℕ × Bool) → (ℕ → Bool) → ℕ → Bool
succeeded_by [] f = f
succeeded_by ((t, r) ∷ ds) f = set_flag (succeeded_by ds f) t r

abbrev pub started_by : List (ℕ × Bool) → List ℕ → (ℕ → Bool) → ℕ → Bool
started_by [] [] f = f
started_by [] (t ∷ ts) f = set_flag f t true
started_by ((t, r) ∷ ds) left f = started_by ds left (set_flag f t true)

-- The list after it has been served from a given one.
abbrev pub after_serving : {S : Type 0} → TaskList S → Served S → TaskList S
after_serving m v = record m {
  tasks = v.left;
  running = started_by v.done v.left m.running;
  finished = finished_by v.done m.finished;
  succeeded = succeeded_by v.done m.succeeded;
  state = v.state;
}

-- No task of a list has started yet.
abbrev pub Idle : (ℕ → Bool) → List ℕ → Type 0
Idle running ts = (t : ℕ) → contains ts t ≡ true → running t ≡ false

-- The first task of a list has started, and no other.
abbrev pub Active : (ℕ → Bool) → List ℕ → Type 0
Active running [] = Unit
Active running (t ∷ ts) = (running t ≡ true) × Idle running ts

pub remove-head : (t : ℕ) (ts : List ℕ) → contains ts t ≡ false → remove (t ∷ ts) t ≡ ts
unfolding remove
remove-head t ts h = ground (arith, eq_self t, remove_absent ts t h)

pub Idle-tail :
    (running : ℕ → Bool) (t : ℕ) (ts : List ℕ)
    → contains ts t ≡ false
    → Idle running (t ∷ ts)
    → Idle (set_flag running t true) ts
unfolding contains
Idle-tail running t ts d i u h = elim (Bool-cases (t == u)) [
  | inl same ↦ cc (d, h, ap (contains ts) (eq_true t u same))
  | inr other ↦ rw other (i u (ground arith))
]

with_tasks :
    {S : Type 0} (m : TaskList S) (ts : List ℕ) → m.tasks ≡ ts → m ≡ record m { tasks = ts }
with_tasks m ts e = λ i. record m { tasks = e i }

module _ {S : Type 0} (b : Behaviour S) where
  should_start-first :
      (t : ℕ) (ts : List ℕ) (m : TaskList S)
      → m.tasks ≡ t ∷ ts
      → m.running t ≡ false
      → should_start b t m ≡ true
  unfolding should_start
  should_start-first t ts m e i = rw (e, i) (eq_self t)

  -- Finish of the first task, when it has started and what follows it has not.
  pub finish_by-serve :
      (ts : List ℕ) (t : ℕ) (m : TaskList S) (fuel : ℕ) (r : Bool)
      → m.tasks ≡ t ∷ ts
      → contains ts t ≡ false
      → m.running t ≡ true
      → ((m' : TaskList S)
          → m'.tasks ≡ ts
          → m'.running ≡ m.running
          → start_first b (start b fuel) m' ≡ some (after_serving m' (serve b ts m'.state)))
      → finish_by b (start b fuel) t r m
        ≡ some (
            let v = serve b ts (b.on_finish t r m.state) in
            record m {
              tasks = v.left;
              running = started_by v.done v.left m.running;
              finished = set_flag (finished_by v.done m.finished) t true;
              succeeded = set_flag (succeeded_by v.done m.succeeded) t r;
              state = v.state;
            })
  unfolding finish_by
  finish_by-serve ts t m fuel r e d run k = rw (
    run,
    k (record m { state = b.on_finish t r m.state; tasks = remove m.tasks t })
        (ap (λ (l : List ℕ). remove l t) e ∙ remove-head t ts d) refl,
  )

  -- Starting the first task serves the list, if no task of it has started.
  pub start_first-serve :
      (ts : List ℕ) (m : TaskList S) (fuel : ℕ)
      → m.tasks ≡ ts
      → Distinct ts
      → Idle m.running ts
      → length ts ≤ fuel
      → start_first b (start b fuel) m ≡ some (after_serving m (serve b ts m.state))
  unfolding start_first start serve contains
  start_first-serve [] m fuel e d i h = rw (e, start_first) (ap some (with_tasks m [] e))
  start_first-serve (t ∷ ts) m zero e d i h = elim h [ ]
  start_first-serve (t ∷ ts) m (suc fuel) e d i h =
      let idle = i t (ground (arith, eq_self t)) in
      elim (Option-cases (b.on_start t m.state).1) [
        | inl waits ↦
            rw (e, start_first)
              (rw (should_start-first t ts m e idle, waits, finish_if, serve)
                (ap some (
                  with_tasks
                    (record m {
                      running = set_flag m.running t true;
                      state = (b.on_start t m.state).0;
                    })
                    (t ∷ ts) e)))
        | inr (r, ends) ↦
            rw (e, start_first)
              (rw (should_start-first t ts m e idle, ends, finish_if, serve)
                (finish_by-serve ts t
                  (record m {
                    running = set_flag m.running t true;
                    state = (b.on_start t m.state).0;
                  })
                  fuel r e d.0 (ground (arith, eq_self t))
                  (λ m' e' r'.
                    start_first-serve ts m' fuel e' d.1
                      (λ u k. ap (λ (f : ℕ → Bool). f u) r' ∙ Idle-tail m.running t ts d.0 i u k)
                      (omega arith))))
      ]
