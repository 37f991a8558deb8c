-- ===== src/Scoped.antt =====
-- FTaskHolder and FScopedTaskList (Source/SaveExtension/Public/Multithreading/ScopedTaskManager.h).
pub mod Swap
pub mod Notices
pub mod History
use save_extension.Base.{
  ℕ, zero, suc, ◌≡◌, Bool, true, false, not, Option, none, some, List, [], ◌∷◌, ◌++◌, length, ◌==◌,
  nat_eq, if◌then◌else◌,
}
use save_extension.Loader.Prepare.{remove_at_swap}

-- What is relied on of the engine: FAsyncTask, and an event that its listeners are added to. `S` is all
-- that the listeners work on.
pub record AsyncTasks (S : Type 0) : Type 1 where
  pub Task : Type 0
  pub is_done : Task → Bool
  pub is_idle : Task → Bool
  -- EnsureCompletion, which waits for the task or runs it
  pub ensure_completion : Task → Task
  pub is_done-ensure_completion : (t : Task) → is_done (ensure_completion t) ≡ true
  pub Event : Type 0
  pub no_listeners : Event
  pub add_lambda : (Task → S → S) → Event → Event
  pub broadcast : Event → Task → S → S

module _ {S : Type 0} (a : AsyncTasks S) where
  -- FTaskHolder, with its address
  pub record Holder : Type 0 where
    pub address : ℕ
    pub task : a.Task
    pub notified : Bool
    pub on_finished : a.Event

  -- FScopedTaskList, the address of the next task, and the state of the listeners
  pub record ScopedTasks : Type 0 where
    pub tasks : List Holder
    pub next_address : ℕ
    pub state : S

module _ {S : Type 0} {a : AsyncTasks S} where
  -- TryNotifyFinish
  unfoldable pub try_notify_finish : Holder a → S → Holder a × S
  try_notify_finish h s =
      if h.notified
      then (h, s)
      else (record h { notified = true }, a.broadcast h.on_finished h.task s)

  -- FTaskHolder::Tick
  unfoldable pub tick_holder : Holder a → S → (Holder a × S) × Bool
  unfolding try_notify_finish
  tick_holder h s = if a.is_done h.task then (try_notify_finish h s, true) else ((h, s), false)

  -- FTaskHolder::Cancel(true)
  unfoldable pub cancel_holder : Holder a → S → Holder a × S
  unfolding try_notify_finish
  cancel_holder h s =
      if not (a.is_idle h.task)
      then try_notify_finish (record h { task = a.ensure_completion h.task }) s
      else if a.is_done h.task
      then try_notify_finish h s
      else (h, s)

  -- CreateTask, with the task that its arguments construct
  unfoldable pub create_holder : a.Task → ScopedTasks a → ℕ × ScopedTasks a
  create_holder t l = (
    l.next_address,
    record l {
      tasks =
          l.tasks
          ++ record {
            address = l.next_address;
            task = t;
            notified = false;
            on_finished = a.no_listeners;
          }
            ∷ [];
      next_address = suc l.next_address;
    },
  )

  -- A change of the holder at an address, if it is listed
  unfoldable pub update_holder : ℕ → (Holder a → Holder a) → List (Holder a) → List (Holder a)
  update_holder k f [] = []
  update_holder k f (h ∷ hs) =
      let rest = update_holder k f hs in if h.address == k then (f h ∷ hs) else (h ∷ rest)

  -- OnFinished
  unfoldable pub listen : ℕ → (a.Task → S → S) → ScopedTasks a → ScopedTasks a
  unfolding update_holder
  listen k delegate l = record l {
    tasks =
        update_holder k (λ h. record h { on_finished = a.add_lambda delegate h.on_finished })
          l.tasks;
  }

  -- what the engine does with a task: it starts it, or works on it
  unfoldable pub run_task : ℕ → (a.Task → a.Task) → ScopedTasks a → ScopedTasks a
  unfolding update_holder
  run_task k f l = record l { tasks = update_holder k (λ h. record h { task = f h.task }) l.tasks }

  -- RemoveAllSwap in FScopedTaskList::Tick: it ticks each task, and the last one takes the place of one
  -- that has finished.
  unfoldable pub tick_tasks : ℕ → List (Holder a) → S → List (Holder a) × S
  unfolding tick_holder remove_at_swap
  tick_tasks zero hs s = (hs, s)
  tick_tasks (suc fuel) [] s = ([], s)
  tick_tasks (suc fuel) (h ∷ hs) s =
      let ((h', s'), finished) = tick_holder h s in
      elim finished [
        | true ↦ tick_tasks fuel (remove_at_swap 0 (h' ∷ hs)) s'
        | false ↦ let (left, s'') = tick_tasks fuel hs s' in (h' ∷ left, s'')
      ]

  -- FScopedTaskList::Tick; each call goes on with one task less.
  unfoldable pub tick_all : ScopedTasks a → ScopedTasks a
  unfolding tick_tasks
  tick_all l =
      let (left, s) = tick_tasks (length l.tasks) l.tasks l.state in
      record l { tasks = left; state = s }

  unfoldable pub cancel_each : List (Holder a) → S → S
  unfolding cancel_holder
  cancel_each [] s = s
  cancel_each (h ∷ hs) s = cancel_each hs (cancel_holder h s).1

  -- CancelAll
  unfoldable pub cancel_all : ScopedTasks a → ScopedTasks a
  unfolding cancel_each
  cancel_all l = record l { tasks = []; state = cancel_each l.tasks l.state }
