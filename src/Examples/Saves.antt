-- ===== src/Examples/Saves.antt =====
-- A world that is saved.
use mathlib.Core.Option.{map as map_option}
use mathlib.Core.List.{flat_map}
use save_extension.Base.{
  ◌≤◌, ◌≡◌, refl, true, false, Option, none, some, List, [], ◌∷◌, arith, length, map,
}
use save_extension.Name.{Name}
use save_extension.Archive.{Each}
use save_extension.World.{Component, Actor, World}
use save_extension.SlotData.{
  SlotData, get_level_filter, bake_level, bake_all_filters, find_level_record,
}
use save_extension.Actors.{SerializeTask, make_task}
use save_extension.Actors.Saved.{saved_actors}
use save_extension.Saver.{
  split_actors, num_per_task, prepare_all_levels, run_scheduled_tasks, serialize_world, dump_all,
}
use save_extension.Saver.Schedule.{
  records_of, complete, any_stores, with_game, run_scheduled_tasks_any,
}
use save_extension.Saver.Partition.{IsFresh, split_actors_lem}
use save_extension.Saver.Levels.{saved_level, loaded, level_at, Distinct}
use save_extension.Saver.Prepare.{or_else, new_level, prepare_all_levels_lem}
use save_extension.Saver.Whole.{serialize_world_lem}
use save_extension.Examples.Classes.{classes}
use save_extension.Examples.Engines.{numbers}
use save_extension.Examples.Slots.{slot, level_filter}

abbrev pub body : Component numbers
body = record {
  name = "body";
  class = 3;
  is_valid = true;
  component_tags = "SaveTransform" ∷ [];
  is_movable = true;
  relative_transform = 12;
  props = 30;
}

abbrev pub hero : Actor numbers
hero = record {
  name = "hero";
  class = 1;
  is_valid = true;
  is_hidden = false;
  was_loaded = false;
  tags = "team" ∷ "!SaveTags" ∷ [];
  is_root_component_movable = true;
  transform = 5;
  root = some (record {
    is_movable = true;
    is_primitive = true;
    physics_linear_velocity = 3;
    physics_angular_velocity = 0;
    component_velocity = 3;
  });
  components = body ∷ [];
  props = 20;
}

abbrev pub actors : List (Option (Actor numbers))
actors =
    some hero
    ∷ none
    ∷ some (record hero { name = "rock"; tags = [] })
    ∷ some (record hero { name = "pawn"; class = 2 })
    ∷ []

abbrev pub island : World numbers
island = record {
  map_name = "Island";
  time_seconds = 75;
  has_authority = true;
  current_level = record { actors = actors };
  streaming_levels =
      record { package_name = "Cave"; loaded_level = some (record { actors = some hero ∷ [] }) }
      ∷ record { package_name = "Beach"; loaded_level = none }
      ∷ record { package_name = "Hut"; loaded_level = some (record { actors = actors }) }
      ∷ [];
  game_instance = some (record { name = "game"; class = 4; props = 1 });
}

pub island-Distinct : Distinct (loaded island.streaming_levels)
unfolding loaded level_at
island-Distinct = (refl, (refl, tt))

world_example :
    let p = prepare_all_levels classes island.streaming_levels slot in
    (d' : SlotData numbers) × (serialize_world classes true 3 (2 ∷ 0 ∷ 1 ∷ []) island slot
      ≡ some d')
    × ((t : Option Name)
        → find_level_record d' t
          ≡ elim (level_at ((none, island.current_level) ∷ loaded island.streaming_levels) t) [
            | none ↦ find_level_record p t
            | some level ↦ map_option (λ r. saved_level p r level) (find_level_record p t)
          ])
world_example = serialize_world_lem classes true 3 (2 ∷ 0 ∷ 1 ∷ []) island slot refl island-Distinct

prepare_example :
    find_level_record (prepare_all_levels classes island.streaming_levels slot) (some "Hut")
    ≡ or_else
        (map_option (bake_level classes) (find_level_record slot (some "Hut")))
        (new_level "Hut" (level_at (loaded island.streaming_levels) (some "Hut")))
prepare_example = prepare_all_levels_lem classes island.streaming_levels slot (some "Hut")

abbrev baked : SlotData numbers
baked = bake_all_filters classes slot

abbrev two_tasks : List (SerializeTask numbers)
two_tasks =
    make_task actors 0 2 true none level_filter ∷ make_task actors 2 2 false none level_filter ∷ []

schedule_example :
    run_scheduled_tasks island.game_instance true (1 ∷ 0 ∷ []) two_tasks baked
    ≡ some (
        dump_all
          (map complete two_tasks)
          (with_game island.game_instance (any_stores two_tasks) baked))
schedule_example =
    run_scheduled_tasks_any island.game_instance true (1 ∷ 0 ∷ []) two_tasks baked
      (omega arith, (omega arith, tt))

partition_example :
    let tasks =
      split_actors
        (length actors)
        actors
        (num_per_task (length actors) 2)
        0
        true
        none
        baked
        baked.main_level in
    (flat_map records_of tasks ≡ saved_actors (get_level_filter baked baked.main_level) actors)
    × Each (IsFresh none) tasks
    × (length tasks ≤ 2)
partition_example = split_actors_lem actors 2 true none baked baked.main_level (omega arith)
