-- ===== src/Examples/Queues.antt =====
-- The task list at concrete tasks.
use save_extension.Base.{
  ℕ, suc, ◌≡◌, refl, true, false, none, some, List, [], ◌∷◌, if◌then◌else◌, ◌==◌, nat_eq, arith,
}
use save_extension.Base.Sets.{contains}
use save_extension.Tasks.{Behaviour, TaskList, start, start_first}
use save_extension.Tasks.Queue.{Distinct, serve, after_serving, start_first-serve}
use save_extension.Tasks.History.{Call, submits, ticks, run, Inv}
use save_extension.Tasks.Invariant.{run-Inv}

-- Task 1 waits for its tick; the other tasks finish when they start. Every event is counted.
abbrev counting : Behaviour ℕ
counting = record {
  on_start = λ t s. (suc s, if t == 1 then none else some true);
  on_tick = λ t s. (suc s, some false);
  on_finish = λ t success s. suc s;
}

abbrev no_tasks : TaskList ℕ
no_tasks = record {
  tasks = [];
  running = λ t. false;
  finished = λ t. false;
  succeeded = λ t. false;
  next = 0;
  state = 0;
}

no_tasks-Inv : Inv no_tasks
unfolding contains
no_tasks-Inv = record {
  distinct = tt;
  active = tt;
  account = λ u. ground arith;
  unstarted = λ u h. (refl, refl);
}

abbrev calls : List (Call ℕ)
calls = submits (λ t s. s) ∷ submits (λ t s. s) ∷ submits (λ t s. s) ∷ ticks ∷ ticks ∷ []

run_example : (m' : TaskList ℕ) × (run counting calls no_tasks ≡ some m') × Inv m'
run_example = run-Inv counting calls no_tasks no_tasks-Inv

abbrev waiting : TaskList ℕ
waiting = record no_tasks { tasks = 0 ∷ 1 ∷ 2 ∷ []; next = 3 }

waiting-Distinct : Distinct (0 ∷ 1 ∷ 2 ∷ [])
unfolding contains
waiting-Distinct = (refl, (refl, (refl, tt)))

serve_example :
    start_first counting (start counting 3) waiting
    ≡ some (after_serving waiting (serve counting (0 ∷ 1 ∷ 2 ∷ []) 0))
serve_example =
    start_first-serve counting (0 ∷ 1 ∷ 2 ∷ []) waiting 3 refl waiting-Distinct (λ t h. refl)
      (omega arith)
