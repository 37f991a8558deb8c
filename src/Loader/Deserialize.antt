-- ===== src/Loader/Deserialize.antt =====
-- USlotDataTask_Loader (Source/SaveExtension/Public/Serialization/SlotDataTask_Loader.h,
-- Private/Serialization/SlotDataTask_Loader.cpp):
-- DeserializeSync, DeserializeASync and DeserializeASyncLoop.
use save_extension.Base.{ℕ, zero, suc, Bool, true, false, Option, none, some, length, string_eq}
use save_extension.Name.{Name}
use save_extension.Engine.{Engine}
use save_extension.World.{Level, StreamingLevel, World}
use save_extension.SlotData.{
  LevelRecord, SlotData, clean_records, get_level_filter, find_level_record,
}
use save_extension.Loader.Frames.{
  Frames, deserialize_async_loop, start_frames, find_next_async_level,
}
use save_extension.Loader.State.{
  Clock, Cursor, LoadRun, LoaderState, actors_of, deserialize_world, set_actors,
}

-- What a method leaves, and what it passes to Finish, if it calls it. `none` is a crash of the code.
abbrev pub Outcome : Engine → Type 0 → Type 0
Outcome E W = Option (LoaderState E W × Option Bool)

module _ {E : Engine} {W : Type 0} (r : LoadRun E W) where
  -- FinishedDeserializing
  unfoldable pub finished_deserializing : SlotData E → LoaderState E W → Outcome E W
  finished_deserializing d s =
      let cleaned = clean_records true d in
      some (record s { slot_data = some cleaned; current_data = some cleaned }, some true)

  -- The end of DeserializeASyncLoop: `further` is DeserializeLevelASync of a streaming level.
  unfoldable pub next_loaded :
      (Name → LoaderState E W → Outcome E W)
      → SlotData E
      → Name
      → Option (Level E)
      → LoaderState E W
      → Outcome E W
  unfolding finished_deserializing
  next_loaded further d name none s = finished_deserializing d (record s { cursor = none })
  next_loaded further d name (some _) s = further name s

  unfoldable pub next_level :
      (Name → LoaderState E W → Outcome E W)
      → SlotData E
      → Option (Option (StreamingLevel E))
      → LoaderState E W
      → Outcome E W
  unfolding next_loaded
  next_level further d none s = none
  next_level further d (some none) s = finished_deserializing d s
  next_level further d (some (some l)) s = next_loaded further d l.package_name l.loaded_level s

  -- DeserializeASyncLoop after its loop, which has ended or used up the time of the frame
  unfoldable pub after_frames :
      (Name → LoaderState E W → Outcome E W)
      → SlotData E
      → Bool
      → Option Name
      → LoaderState E W
      → Outcome E W
  unfolding next_level
  after_frames further d false name s = some (s, none)
  after_frames further d true name s =
      next_level further d
        (find_next_async_level (suc (length s.world.streaming_levels)) s.world.streaming_levels true
          name)
        s

  -- its loop
  unfoldable pub frames_of : Clock → SlotData E → LevelRecord E → Cursor → World E → Frames E
  frames_of clock d level_record c w =
      deserialize_async_loop (get_level_filter d level_record) level_record.actors (clock c.level)
        (record {
          level_actors = actors_of w c.level;
          current_actors = c.level_actors;
          actor_index = c.actor_index;
          is_done = false;
        })

  -- DeserializeASyncLoop with the record that FindLevelRecord returns
  unfoldable pub async_loop_with :
      (Name → LoaderState E W → Outcome E W)
      → Clock
      → SlotData E
      → Cursor
      → Option (LevelRecord E)
      → LoaderState E W
      → Outcome E W
  unfolding after_frames frames_of
  async_loop_with further clock d c none s = some (s, none)
  async_loop_with further clock d c (some level_record) s =
      let frames = frames_of clock d level_record c s.world in
      after_frames further d frames.is_done c.level (record s {
        world = set_actors frames.level_actors s.world c.level;
        cursor = some (record c { actor_index = frames.actor_index });
      })

  unfoldable pub async_loop :
      (Name → LoaderState E W → Outcome E W)
      → Clock
      → SlotData E
      → Cursor
      → LoaderState E W
      → Outcome E W
  unfolding async_loop_with
  async_loop further clock d c s = async_loop_with further clock d c (find_level_record d c.level) s

  -- DeserializeLevelASync with the record that FindLevelRecord returns, up to the loop
  unfoldable pub level_async_with :
      (Name → LoaderState E W → Outcome E W)
      → Clock
      → SlotData E
      → Option Name
      → Option (LevelRecord E)
      → LoaderState E W
      → Outcome E W
  unfolding async_loop
  level_async_with further clock d name none s = some (s, some false)
  level_async_with further clock d name (some _) s =
      let begun : Frames E = start_frames (record { actors = actors_of s.world name }) in
      let c : Cursor = record {
        level = name;
        level_actors = begun.current_actors;
        actor_index = 0;
      } in
      async_loop further clock d c (record s { cursor = some c })

  -- DeserializeLevelASync; each call of itself, through the loop, is for another level.
  unfoldable pub deserialize_level_async :
      ℕ → Clock → SlotData E → Option Name → LoaderState E W → Outcome E W
  unfolding level_async_with
  deserialize_level_async zero clock d name s = none
  deserialize_level_async (suc fuel) clock d name s =
      level_async_with (λ l. deserialize_level_async fuel clock d (some l)) clock d name
        (find_level_record d name) s

  abbrev pub fuel_of : LoaderState E W → ℕ
  fuel_of s = suc (suc (length s.world.streaming_levels))

  -- DeserializeSync and DeserializeASync, after PrepareAllLevels
  unfoldable pub deserialize_prepared :
      Bool → Clock → Option (SlotData E × World E) → LoaderState E W → Outcome E W
  unfolding finished_deserializing deserialize_level_async
  deserialize_prepared split clock none s = none
  deserialize_prepared true clock (some (d, w)) s =
      deserialize_level_async (fuel_of s) clock d none (record s { world = w; slot_data = some d })
  deserialize_prepared false clock (some (d, w)) s =
      finished_deserializing d (record s { world = deserialize_world d w })
