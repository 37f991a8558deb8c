-- ===== src/Saver.antt =====
-- USlotDataTask_Saver (Source/SaveExtension/Public/Serialization/SlotDataTask_Saver.h,
-- Private/Serialization/SlotDataTask_Saver.cpp): the part that turns the levels of a world into records.
pub mod Schedule
pub mod Target
pub mod Levels
pub mod Prepare
pub mod Whole
pub mod Partition
pub mod Run
use save_extension.Base.{
  ℕ, zero, suc, ◌+◌, ◌-◌, ◌*◌, ◌/◌, ◌≡◌, Bool, true, false, not, ◌&&◌, Option, none, some, List, [],
  ◌∷◌, ◌++◌, max, min, length, leb, ltb, if◌then◌else◌, ◌==◌, string_eq,
}
use save_extension.Name.{Name}
use save_extension.Archive.{◌>>=◌}
use save_extension.ClassFilter.{Reflection}
use save_extension.Engine.{Engine}
use save_extension.World.{Actor, Level, StreamingLevel, GameInstance, World}
use save_extension.SlotData.{
  LevelRecord, SlotData, empty_level, clean_level, get_level_filter, bake_all_filters,
  find_level_record, update_level_record,
}
use save_extension.Actors.{SerializeTask, make_task, do_work, dump_data}

-- CeilToInt((float) count / tasks); the float division is exact enough below 2^24 actors.
abbrev pub ceil_div : ℕ → ℕ → ℕ
ceil_div count tasks = (count + tasks - 1) / tasks

-- RoundToInt(float(threads) / parts), half up
abbrev pub round_div : ℕ → ℕ → ℕ
round_div threads parts = (2 * threads + parts) / (2 * parts)

abbrev pub min_objects_per_task : ℕ
min_objects_per_task = 40

-- The tasks that a level is given, and how many actors each takes
abbrev pub assigned_tasks : Bool → ℕ → ℕ
assigned_tasks multithreaded assigned = if multithreaded then assigned else 1

abbrev pub num_per_task : ℕ → ℕ → ℕ
num_per_task count assigned = max (ceil_div count assigned) min_objects_per_task

-- The order in which RunScheduledTasks starts the tasks: all but the first, and then the first.
indexes_from : ℕ → ℕ → List ℕ
indexes_from zero i = []
indexes_from (suc n) i = i ∷ indexes_from n (suc i)

abbrev pub starting_order : ℕ → List ℕ
unfolding indexes_from
starting_order n = indexes_from (n - 1) 1 ++ 0 ∷ []

module _ {E : Engine} where
  -- AddUnique of a record for a streaming level; records are compared by their names.
  unfoldable pub has_record : List (LevelRecord E) → Name → Bool
  has_record [] name = false
  has_record (r ∷ rs) name = if r.name == name then true else has_record rs name

  abbrev pub add_unique : List (LevelRecord E) → Name → List (LevelRecord E)
  add_unique rs name = if has_record rs name then rs else (rs ++ empty_level name ∷ [])

  unfoldable pub add_records : List (LevelRecord E) → List (StreamingLevel E) → List (LevelRecord E)
  unfolding has_record
  add_records rs [] = rs
  add_records rs (l ∷ ls) =
      add_records (elim l.loaded_level [ none ↦ rs | some _ ↦ add_unique rs l.package_name ]) ls

  -- PrepareAllLevels
  unfoldable pub prepare_all_levels : Reflection → List (StreamingLevel E) → SlotData E → SlotData E
  unfolding add_records
  prepare_all_levels rf levels d =
      let d' = bake_all_filters rf d in record d' { sub_levels = add_records d'.sub_levels levels }

  -- The loop of SerializeLevelSync, which splits the actors between tasks. Every round takes an actor or
  -- more, so as many rounds as actors are enough.
  pub split_actors :
      ℕ
      → List (Option (Actor E))
      → ℕ
      → ℕ
      → Bool
      → Option Name
      → SlotData E
      → LevelRecord E
      → List (SerializeTask E)
  split_actors zero actors per index stores target d r = []
  split_actors (suc fuel) actors per index stores target d r =
      if ltb index (length actors)
      then (let num = min (length actors - index) per in
          make_task actors index num (leb index 0 && stores) target (get_level_filter d r)
          ∷ split_actors fuel actors per (index + num) stores target d r)
      else []

  -- SerializeLevelSync of a level, with its streaming level's name; `none` is the failure of its check.
  unfoldable pub serialize_level_sync :
      Bool
      → Level E
      → ℕ
      → Option Name
      → SlotData E × List (SerializeTask E)
      → Option (SlotData E × List (SerializeTask E))
  unfolding split_actors
  serialize_level_sync multithreaded level assigned target (d, tasks) = do
    r ← find_level_record d target
    let d' = update_level_record clean_level d target
    some (
      d',
      tasks
          ++ split_actors (length level.actors) level.actors
              (num_per_task (length level.actors) (assigned_tasks multithreaded assigned)) 0
              d.store_game_instance target d' (clean_level r),
    )

  -- SerializeWorld: its loop over the streaming levels
  pub serialize_levels :
      Bool
      → ℕ
      → List (StreamingLevel E)
      → SlotData E × List (SerializeTask E)
      → Option (SlotData E × List (SerializeTask E))
  serialize_levels multithreaded assigned [] s = some s
  serialize_levels multithreaded assigned (l ∷ ls) s = elim l.loaded_level [
    | none ↦ serialize_levels multithreaded assigned ls s
    | some level ↦ do
      s' ← serialize_level_sync multithreaded level assigned (some l.package_name) s
      serialize_levels multithreaded assigned ls s'
  ]

  -- A task that starts does its work, once.
  abbrev pub start_task :
      Option (GameInstance E) → SlotData E → SerializeTask E → Option (SlotData E × SerializeTask E)
  start_task game d t = if t.is_done then some (d, t) else do_work game t d

  pub start_nth :
      Option (GameInstance E)
      → ℕ
      → SlotData E
      → List (SerializeTask E)
      → Option (SlotData E × List (SerializeTask E))
  start_nth game i d [] = some (d, [])
  start_nth game zero d (t ∷ ts) = do (d', t') ← start_task game d t; some (d', t' ∷ ts)
  start_nth game (suc i) d (t ∷ ts) = do (d', ts') ← start_nth game i d ts; some (d', t ∷ ts')

  -- The tasks that are started, in the order in which they do their work
  pub start_tasks :
      Option (GameInstance E)
      → List ℕ
      → SlotData E
      → List (SerializeTask E)
      → Option (SlotData E × List (SerializeTask E))
  unfolding start_nth
  start_tasks game [] d ts = some (d, ts)
  start_tasks game (i ∷ order) d ts = do
    (d', ts') ← start_nth game i d ts
    start_tasks game order d' ts'

  -- EnsureCompletion of every task, which does the work of a task that no thread has begun
  pub ensure_completion :
      Option (GameInstance E)
      → SlotData E
      → List (SerializeTask E)
      → Option (SlotData E × List (SerializeTask E))
  ensure_completion game d [] = some (d, [])
  ensure_completion game d (t ∷ ts) = do
    (d', t') ← start_task game d t
    (d'', ts') ← ensure_completion game d' ts
    some (d'', t' ∷ ts')

  unfoldable pub dump_all : List (SerializeTask E) → SlotData E → SlotData E
  dump_all [] d = d
  dump_all (t ∷ ts) d = dump_all ts (dump_data t d)

  -- RunScheduledTasks. Without threads the tasks work in the order in which they are started; with
  -- threads, `order` is the order in which they come to work.
  unfoldable pub run_scheduled_tasks :
      Option (GameInstance E)
      → Bool
      → List ℕ
      → List (SerializeTask E)
      → SlotData E
      → Option (SlotData E)
  unfolding start_tasks ensure_completion dump_all
  run_scheduled_tasks game multithreaded order tasks d = do
    (d', tasks') ←
        start_tasks game (if multithreaded then order else starting_order (length tasks)) d tasks
    (d'', tasks'') ← ensure_completion game d' tasks'
    some (dump_all tasks'' d'')

  -- SerializeWorld
  abbrev pub tasks_per_level : ℕ → World E → ℕ
  tasks_per_level workers w =
      max 1 (round_div (max 1 (workers + 1)) (length w.streaming_levels + 1))

  unfoldable pub serialize_world :
      Reflection → Bool → ℕ → List ℕ → World E → SlotData E → Option (SlotData E)
  unfolding serialize_levels
  serialize_world rf multithreaded workers order w d = if not w.has_authority then some d else do
    let per_level = tasks_per_level workers w
    s ←
        serialize_level_sync multithreaded w.current_level per_level none
          (prepare_all_levels rf w.streaming_levels d, [])
    (d', tasks) ← serialize_levels multithreaded per_level w.streaming_levels s
    run_scheduled_tasks w.game_instance multithreaded order tasks d'
