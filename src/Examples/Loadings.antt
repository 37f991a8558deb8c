-- ===== src/Examples/Loadings.antt =====
-- A load whose slot was saved in another map.
use save_extension.Base.{◌≡◌, refl, true, false, none, some, Option, Bool, [], ◌∷◌}
use save_extension.Base.Int.{pos}
use save_extension.Preset.{is_frame_split_load}
use save_extension.World.{World}
use save_extension.SlotInfo.{SlotInfo, make_info}
use save_extension.SlotData.{
  SlotData, find_level_record, bake_all_filters, bake_level, update_level_record,
}
use save_extension.Loader.State.{
  Clock, LoadRun, LoaderState, before_deserialize, get_loaded_data, is_data_loaded, loaded,
  loading_map, no_task, not_started,
}
use save_extension.Loader.Run.{on_map_loaded}
use save_extension.Records.{is_record_of}
use save_extension.Loader.Prepare.{
  prepare_loaded_levels, prepare_recorded_level, respawn_actors, remove_single_record_ptr_swap,
  index_of_by_predicate, remove_at_swap,
}
use save_extension.Loader.Frames.{index_of}
use save_extension.Loader.Frames.Levels.{DistinctPackages}
use save_extension.Loader.Deserialize.{deserialize_level_async, fuel_of}
use save_extension.Loader.Run.Places.{At}
use save_extension.Loader.Run.Ends.{deserialize_level_async-ends}
use save_extension.Examples.Classes.{classes}
use save_extension.Examples.Engines.{numbers, format}
use save_extension.Examples.Disks.{Disk, files, things, Thing}
use save_extension.Examples.Filters.{preset}
use save_extension.Examples.Files.{saved_disk}
use save_extension.Examples.Slots.{slot}
use save_extension.Examples.Saves.{island, hero, actors}
use save_extension.Examples.Infos.{date_sort}
use save_extension.Examples.Prepared.{spawner}

abbrev saved_info : Thing → SlotInfo
saved_info o = record (make_info (pos 100)) { map = "Island"; played_time = pos o.1 }

abbrev saved_data : Thing → SlotData numbers
saved_data o = slot

abbrev pub load : LoadRun numbers Disk
load = record {
  manager = files;
  format = format;
  objects = things;
  info_of = saved_info;
  data_of = saved_data;
  sort = date_sort;
  reflection = classes;
  spawner = spawner;
  preset = preset;
  slot_name = "one";
  map_exists = λ m. true;
}

abbrev pub menu : World numbers
menu = record island { map_name = "Menu" }

abbrev before : LoaderState numbers Disk
before = record {
  load_state = not_started;
  new_info = none;
  slot_data = none;
  load_task = no_task;
  cursor = none;
  current_info = none;
  current_data = none;
  world = menu;
  disk = saved_disk;
}

-- the load waits for the map, with its data loaded already
abbrev opening : LoaderState numbers Disk
opening = record before {
  load_state = loading_map;
  new_info = some (saved_info (1, 4));
  load_task = loaded (some slot);
}

abbrev pub clock : Clock
clock level k = false

abbrev finished :
    (t : LoaderState numbers Disk) × (on_map_loaded load (pos 201) clock (some island) opening
      ≡ some (t, some true))
unfolding on_map_loaded is_data_loaded get_loaded_data prepare_loaded_levels prepare_recorded_level
    find_level_record respawn_actors before_deserialize remove_single_record_ptr_swap
    index_of_by_predicate bake_all_filters bake_level is_record_of remove_at_swap
    update_level_record is_frame_split_load
finished = (_, refl)

-- the island with its loaded levels only
abbrev small_island : World numbers
small_island = record island {
  streaming_levels =
      record { package_name = "Cave"; loaded_level = some (record { actors = some hero ∷ [] }) }
      ∷ record { package_name = "Hut"; loaded_level = some (record { actors = actors }) }
      ∷ [];
}

small_island-DistinctPackages : DistinctPackages small_island.streaming_levels
unfolding index_of
small_island-DistinctPackages = (refl, (refl, tt))

persistent-At : At small_island.streaming_levels none 0
unfolding At
persistent-At = refl

ends_example :
    (end : LoaderState numbers Disk × Option Bool) × (deserialize_level_async load
        (fuel_of load (record before { world = small_island }))
        clock
        slot
        none
        (record before { world = small_island })
      ≡ some end)
ends_example =
    deserialize_level_async-ends load clock slot none 0 (record before { world = small_island })
      ((_, refl), ((_, refl), tt)) small_island-DistinctPackages persistent-At
