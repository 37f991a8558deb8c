-- ===== src/Examples/Holders.antt =====
-- A list of two tasks, of which one is done and one is dropped.
use save_extension.Base.{ℕ, ◌≡◌, refl, List, [], ◌∷◌, ◌==◌, nat_eq}
use save_extension.Scoped.{
  AsyncTasks, Holder, ScopedTasks, create_holder, listen, run_task, tick_all, cancel_all,
}
use save_extension.Scoped.History.{
  Run, begins, creates, listens, runs, ticks, cancels, Account, Run-Account,
}

-- A task is a number: 0 before it starts, 1 while it runs, and 2 when it is done. An event is the list of its listeners.
abbrev call_each : List (ℕ → List ℕ → List ℕ) → ℕ → List ℕ → List ℕ
call_each [] t s = s
call_each (f ∷ fs) t s = f t (call_each fs t s)

abbrev numbered : AsyncTasks (List ℕ)
numbered = record {
  Task = ℕ;
  is_done = λ t. t == 2;
  is_idle = λ t. t == 0;
  ensure_completion = λ t. 2;
  is_done-ensure_completion = λ t. refl;
  Event = List (ℕ → List ℕ → List ℕ);
  no_listeners = [];
  add_lambda = ◌∷◌;
  broadcast = call_each;
}

abbrev fresh : ScopedTasks numbered
fresh = record { tasks = []; next_address = 0; state = [] }

abbrev two_tasks : ScopedTasks numbered
two_tasks =
    run_task 0 (λ t. 2) (listen 0 (λ t s. 7 ∷ s) (create_holder 0 (create_holder 0 fresh).1).1)

abbrev after_all : ScopedTasks numbered
after_all = cancel_all (tick_all two_tasks)

run : Run [] after_all
run = cancels (ticks (runs 0 (λ t. 2) (listens 0 (λ t s. 7 ∷ s) (creates 0 (creates 0 begins)))))

told_once : after_all.state ≡ 7 ∷ []
unfolding cancel_all tick_all run_task listen create_holder
told_once = refl

account_example : (notices dropped : List (Holder numbered)) × Account [] after_all notices dropped
account_example = Run-Account [] after_all run
