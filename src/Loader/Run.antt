-- ===== src/Loader/Run.antt =====
-- USlotDataTask_Loader (Source/SaveExtension/Public/Serialization/SlotDataTask_Loader.h,
-- Private/Serialization/SlotDataTask_Loader.cpp): OnStart, Tick, OnMapLoaded and what they call, and
-- FLoadFileTask (Public/Multithreading/LoadFileTask.h).
pub mod Outline
pub mod Keeps
pub mod Source
pub mod Phases
pub mod Steps
pub mod Safety
pub mod Places
pub mod Ends
use save_extension.Base.{
  ℕ, zero, suc, Bool, true, false, not, ◌&&◌, Option, none, some, List, [], ◌∷◌, length, ◌==◌,
  string_eq, if◌then◌else◌,
}
use mathlib.Core.Option.{map as map_option}
use save_extension.Base.Int.{ℤ}
use save_extension.Name.{Name}
use save_extension.Archive.{Bytes, ◌>>=◌}
use save_extension.ClassFilter.{Reflection}
use save_extension.Preset.{Preset, is_mt_files_load, is_frame_split_load}
use save_extension.Engine.{Engine}
use save_extension.World.{Actor, Level, StreamingLevel, World}
use save_extension.Files.{FileFormat, SaveFile, new_file, read}
use save_extension.Disk.{FileManager, Objects, get_slot_path, create_and_deserialize_data}
use save_extension.SlotData.{
  LevelRecord, SlotData, clean_records, get_level_filter, find_level_record, bake_all_filters,
  empty_level_filter,
}
use save_extension.SlotInfo.{SlotInfo}
use save_extension.Events.{Event, load_finished}
use save_extension.Infos.{DateSort, load_info}
use save_extension.Loader.{deserialize_level_sync, deserialize_game_instance}
use save_extension.Loader.Frames.{
  Frames, deserialize_async_loop, start_frames, find_next_async_level,
}
use save_extension.Loader.Prepare.{Spawner, prepare_loaded_levels}
use save_extension.Loader.State.{
  Clock, Cursor, LoadRun, LoadState, LoadTask, LoaderState, actors_of, before_deserialize,
  deserialize_recorded_level, deserialize_streaming_levels, deserialize_world, deserializing,
  get_loaded_data, is_data_loaded, loaded, loading_map, no_task, not_started, restoring_actors,
  running, set_actors, set_streaming_actors, streaming_actors, waiting_for_data,
}
use save_extension.Loader.Deserialize.{
  Outcome, after_frames, async_loop, async_loop_with, deserialize_level_async, deserialize_prepared,
  finished_deserializing, frames_of, fuel_of, level_async_with, next_level, next_loaded,
}

module _ {E : Engine} {W : Type 0} (r : LoadRun E W) where
  -- StartDeserialization with NewSlotInfo and GetLoadedData
  unfoldable pub start_with :
      ℤ → Clock → Option SlotInfo → Option (SlotData E) → LoaderState E W → Outcome E W
  unfolding deserialize_prepared
  start_with now clock none loaded_data s = none
  start_with now clock (some info) none s =
      some (record s { load_state = deserializing; slot_data = none }, some false)
  start_with now clock (some info) (some loaded_data) s =
      let dated = record info { load_date = now } in
      let d = bake_all_filters r.reflection loaded_data in
      let w = before_deserialize d s.world in
      deserialize_prepared r (is_frame_split_load r.preset) clock
        (prepare_loaded_levels r.spawner w d)
        (record s {
          load_state = deserializing;
          new_info = some dated;
          current_info = some dated;
          slot_data = some d;
          world = w;
        })

  -- StartDeserialization
  unfoldable pub start_deserialization : ℤ → Clock → LoaderState E W → Outcome E W
  unfolding start_with
  start_deserialization now clock s =
      start_with now clock s.new_info (get_loaded_data s.load_task) s

  -- FLoadFileTask::DoWork, with the file that was read, and with the bytes of the file
  unfoldable pub loaded_from :
      Option (SaveFile r.format) → LoaderState E W → Option (LoaderState E W)
  loaded_from none s = none
  loaded_from (some file) s = some (record s {
    load_task = loaded (map_option r.data_of (create_and_deserialize_data r.objects file));
  })

  unfoldable pub load_bytes : Option Bytes → LoaderState E W → Option (LoaderState E W)
  unfolding loaded_from
  load_bytes none s = some (record s { load_task = loaded none })
  load_bytes (some bytes) s = loaded_from (read r.format (new_file r.format) bytes false) s

  unfoldable pub do_load_task : LoaderState E W → Option (LoaderState E W)
  unfolding load_bytes
  do_load_task s =
      load_bytes (r.manager.contents (get_slot_path r.manager.saved_dir r.slot_name) s.disk) s

  -- the thread that takes the task in the background
  unfoldable pub complete_in : LoadTask E → LoaderState E W → Option (LoaderState E W)
  unfolding do_load_task
  complete_in no_task s = some s
  complete_in running s = do_load_task s
  complete_in (loaded d) s = some s

  unfoldable pub complete_load_task : LoaderState E W → Option (LoaderState E W)
  unfolding complete_in
  complete_load_task s = complete_in s.load_task s

  -- StartLoadingData, in the background or at once
  unfoldable pub start_load_task : Bool → LoaderState E W → Option (LoaderState E W)
  unfolding do_load_task
  start_load_task true s = some (record s { load_task = running })
  start_load_task false s = do_load_task s

  unfoldable pub start_loading_data : LoaderState E W → Option (LoaderState E W)
  unfolding start_load_task
  start_loading_data s = start_load_task (is_mt_files_load r.preset) s

  -- Deserialize if the data are loaded, or go on waiting for them.
  unfoldable pub when_loaded : Bool → ℤ → Clock → LoaderState E W → Outcome E W
  unfolding start_deserialization
  when_loaded true now clock s = start_deserialization now clock s
  when_loaded false now clock s = some (record s { load_state = waiting_for_data }, none)

  -- OnStart once the loading of the data has started: whether the world has the map of the info
  unfoldable pub start_in_map : Bool → SlotInfo → ℤ → Clock → Option (LoaderState E W) → Outcome E W
  unfolding when_loaded
  start_in_map same info now clock none = none
  start_in_map false info now clock (some s) =
      some
        (record s { load_state = loading_map }, if r.map_exists info.map then none else some false)
  start_in_map true info now clock (some s) = when_loaded (is_data_loaded s.load_task) now clock s

  -- OnStart with what LoadInfo returns
  unfoldable pub start_from : ℤ → Clock → Option (Option SlotInfo) → LoaderState E W → Outcome E W
  unfolding start_loading_data start_in_map
  start_from now clock none s = none
  start_from now clock (some none) s = some (record s { new_info = none }, some false)
  start_from now clock (some (some info)) s =
      start_in_map (s.world.map_name == info.map) info now clock
        (start_loading_data (record s { new_info = some info }))

  -- OnStart
  unfoldable pub on_start : ℤ → Clock → LoaderState E W → Outcome E W
  unfolding start_from
  on_start now clock s =
      start_from now clock
        (load_info r.manager r.format r.objects r.info_of r.sort r.slot_name s.disk) s

  -- Tick, in the states in which it does something
  unfoldable pub tick_deserializing :
      Clock → Option Cursor → Option (SlotData E) → LoaderState E W → Outcome E W
  unfolding async_loop deserialize_level_async
  tick_deserializing clock none d s = some (s, none)
  tick_deserializing clock (some c) none s = none
  tick_deserializing clock (some c) (some d) s =
      async_loop r (λ l. deserialize_level_async r (fuel_of r s) clock d (some l)) clock d c s

  unfoldable pub tick_in : LoadState → ℤ → Clock → LoaderState E W → Outcome E W
  unfolding tick_deserializing when_loaded
  tick_in deserializing now clock s = tick_deserializing clock s.cursor s.slot_data s
  tick_in waiting_for_data now clock s = when_loaded (is_data_loaded s.load_task) now clock s
  tick_in not_started now clock s = some (s, none)
  tick_in loading_map now clock s = some (s, none)
  tick_in restoring_actors now clock s = some (s, none)

  unfoldable pub on_tick : ℤ → Clock → LoaderState E W → Outcome E W
  unfolding tick_in
  on_tick now clock s = tick_in s.load_state now clock s

  -- OnMapLoaded, whether the map of the world is the one of the info
  unfoldable pub in_new_map : Bool → ℤ → Clock → LoaderState E W → Outcome E W
  unfolding when_loaded
  in_new_map true now clock s = when_loaded (is_data_loaded s.load_task) now clock s
  in_new_map false now clock s = some (s, none)

  -- OnMapLoaded with NewSlotInfo, once the map of the world is compared with it
  unfoldable pub map_loaded : Option SlotInfo → ℤ → Clock → LoaderState E W → Outcome E W
  unfolding in_new_map
  map_loaded none now clock s = none
  map_loaded (some info) now clock s = in_new_map (s.world.map_name == info.map) now clock s

  -- the world of an opened map, in which no level of the world before is valid
  unfoldable pub enter_world : World E → LoaderState E W → LoaderState E W
  enter_world w s = record s { world = w; cursor = none }

  -- OnMapLoaded by the state of the load, in the new world
  unfoldable pub opened_in : LoadState → ℤ → Clock → LoaderState E W → Outcome E W
  unfolding map_loaded
  opened_in loading_map now clock s = map_loaded s.new_info now clock s
  opened_in not_started now clock s = some (s, none)
  opened_in waiting_for_data now clock s = some (s, none)
  opened_in restoring_actors now clock s = some (s, none)
  opened_in deserializing now clock s = some (s, none)

  -- OnMapLoaded without a world: after Finish, a load that waits for its map reads through a null pointer.
  unfoldable pub opened_without_world : LoadState → LoaderState E W → Outcome E W
  opened_without_world loading_map s = none
  opened_without_world not_started s = some (s, none)
  opened_without_world waiting_for_data s = some (s, none)
  opened_without_world restoring_actors s = some (s, none)
  opened_without_world deserializing s = some (s, none)

  -- OnMapLoaded, once the engine has opened a map with this world
  unfoldable pub on_map_loaded : ℤ → Clock → Option (World E) → LoaderState E W → Outcome E W
  unfolding enter_world opened_in opened_without_world
  on_map_loaded now clock none s = opened_without_world s.load_state s
  on_map_loaded now clock (some w) s = opened_in s.load_state now clock (enter_world w s)

  -- OnFinish: what its delegate gets, and the event that the manager sends, with the general filter
  unfoldable pub on_finish : Bool → LoaderState E W → Option SlotInfo × Event
  on_finish success s = (
    if success then s.new_info else none,
    load_finished
        (elim s.slot_data [ none ↦ empty_level_filter E | some d ↦ d.general_level_filter ])
        (not success),
  )
