-- ===== src/Tasks.antt =====
-- Source/SaveExtension/Public/Serialization/SlotDataTask.h, Private/Serialization/SlotDataTask.cpp
-- and the task list of USaveManager (CreateTask, FinishTask and Tick in Private/SaveManager.cpp).
-- A task is named by a number, its address; `S` is all that the tasks themselves work on.
pub mod Queue
pub mod History
pub mod Invariant
pub mod Kept
pub mod Submitted
use save_extension.Base.{
  ℕ, zero, suc, ◌≡◌, Bool, true, false, not, ◌&&◌, ◌||◌, Option, none, some, List, [], ◌∷◌, ◌++◌,
  length, ◌==◌, nat_eq, if◌then◌else◌,
}
use save_extension.Base.Sets.{contains, remove}

-- The virtual methods of the task classes: OnStart and Tick, with the result that they pass to Finish
-- where they call it, as their last action, and OnFinish.
pub record Behaviour (S : Type 0) : Type 0 where
  pub on_start : ℕ → S → S × Option Bool
  pub on_tick : ℕ → S → S × Option Bool
  pub on_finish : ℕ → Bool → S → S

-- The task list, with the flags bRunning, bFinished and bSucceeded of every task.
pub record TaskList (S : Type 0) : Type 0 where
  pub tasks : List ℕ
  pub running : ℕ → Bool
  pub finished : ℕ → Bool
  pub succeeded : ℕ → Bool
  -- the address of the next task
  pub next : ℕ
  pub state : S

abbrev pub set_flag : (ℕ → Bool) → ℕ → Bool → ℕ → Bool
set_flag f k v j = if k == j then v else f j

module _ {S : Type 0} (b : Behaviour S) where
  -- the condition of Start
  pub should_start : ℕ → TaskList S → Bool
  should_start t m = not (m.running t) && elim m.tasks [ [] ↦ false | h ∷ _ ↦ h == t ]

  -- the end of FinishTask: the first task that is left starts
  pub start_first : (ℕ → TaskList S → Option (TaskList S)) → TaskList S → Option (TaskList S)
  start_first start m = elim m.tasks [ [] ↦ some m | h ∷ _ ↦ start h m ]

  pub mark_finished : ℕ → Bool → TaskList S → TaskList S
  mark_finished t success m = record m {
    finished = set_flag m.finished t true;
    succeeded = set_flag m.succeeded t success;
  }

  -- Finish, which calls FinishTask; `start` is Start, with less fuel.
  pub finish_by :
      (ℕ → TaskList S → Option (TaskList S)) → ℕ → Bool → TaskList S → Option (TaskList S)
  unfolding start_first mark_finished
  finish_by start t success m =
      if m.running t
      then elim (start_first start
          (record m { state = b.on_finish t success m.state; tasks = remove m.tasks t })) [
            | none ↦ none
            | some m' ↦ some (mark_finished t success m')
          ]
      else some m

  -- what a method that may call Finish leaves to do
  pub finish_if :
      (ℕ → TaskList S → Option (TaskList S)) → ℕ → Option Bool → TaskList S → Option (TaskList S)
  unfolding finish_by
  finish_if start t none m = some m
  finish_if start t (some success) m = finish_by start t success m

  -- Start. A task that finishes at once starts the next one, so this takes fuel; `none` is too little.
  unfoldable pub start : ℕ → ℕ → TaskList S → Option (TaskList S)
  unfolding should_start finish_if
  start zero t m = none
  start (suc fuel) t m =
      if should_start t m
      then (let (s, result) = b.on_start t m.state in
          finish_if (start fuel) t result
            (record m { running = set_flag m.running t true; state = s }))
      else some m

  -- Each task in the list starts once at most, so its length bounds the calls.
  abbrev pub fuel_of : TaskList S → ℕ
  fuel_of m = suc (length m.tasks)

  -- Finish
  unfoldable pub finish : ℕ → Bool → TaskList S → Option (TaskList S)
  unfolding finish_by
  finish t success m = finish_by (start (fuel_of m)) t success m

  -- CreateTask, without Prepare
  unfoldable pub create_task : TaskList S → ℕ × TaskList S
  create_task m = (m.next, record m { tasks = m.tasks ++ m.next ∷ []; next = suc m.next })

  -- what the manager's Tick does with the first task
  pub tick_first : ℕ → TaskList S → Option (TaskList S)
  unfolding finish_if
  tick_first t m =
      if m.running t
      then (let (s, result) = b.on_tick t m.state in
          finish_if (start (fuel_of m)) t result (record m { state = s }))
      else some m

  -- the part of the manager's Tick that serves the task list
  unfoldable pub tick : TaskList S → Option (TaskList S)
  unfolding tick_first
  tick m = elim m.tasks [ [] ↦ some m | t ∷ _ ↦ tick_first t m ]

  -- IsScheduled
  unfoldable pub is_scheduled : ℕ → TaskList S → Bool
  is_scheduled t m = contains m.tasks t

  -- IsSucceeded, IsFailed
  unfoldable pub is_succeeded : ℕ → TaskList S → Bool
  is_succeeded t m = m.finished t && m.succeeded t

  unfoldable pub is_failed : ℕ → TaskList S → Bool
  is_failed t m = m.finished t && not (m.succeeded t)
