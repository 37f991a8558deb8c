-- ===== src/Streaming.antt =====
-- USlotDataTask_LevelSaver and USlotDataTask_LevelLoader (Source/SaveExtension/Public/Serialization/SlotDataTask_LevelSaver.h,
-- SlotDataTask_LevelLoader.h and their Private/Serialization sources), which save and load one streaming level.
pub mod Shown
use save_extension.Base.{
  ℕ, zero, suc, ◌-◌, max, Bool, true, false, Option, none, some, List, [], ◌∷◌, length, get_elem?,
  if◌then◌else◌,
}
use save_extension.Name.{Name}
use save_extension.Archive.{◌>>=◌}
use save_extension.ClassFilter.{Reflection}
use save_extension.Preset.{Preset, is_frame_split_load}
use save_extension.LevelFilter.{LevelFilter, bake_filter}
use save_extension.Engine.{Engine}
use save_extension.World.{Actor, Level, GameInstance}
use save_extension.Records.{ActorRecord}
use save_extension.SlotData.{
  LevelRecord, SlotData, bake_level, get_level_filter, find_level_record, update_level_record,
  clean_records,
}
use save_extension.Saver.{serialize_level_sync, run_scheduled_tasks}
use save_extension.Loader.{deserialize_level_sync, deserialize_level_actor}
use save_extension.Loader.Frames.{Frames, start_frames, actor_at, update_at}
use save_extension.Loader.State.{
  LoadState, deserializing, loading_map, not_started, restoring_actors, waiting_for_data,
}

module _ {E : Engine} where
  -- GetLevelFilter(Record).BakeAllowedClasses(): the filter of the record, or the general one
  unfoldable pub bake_filter_of : Reflection → SlotData E → Name → LevelRecord E → SlotData E
  bake_filter_of rf d name r =
      if r.override_general_filter
      then update_level_record (bake_level rf) d (some name)
      else record d { general_level_filter = bake_filter rf d.general_level_filter }

  -- OnStart of the level saver with the record that FindLevelRecord returns: the slot data, and what
  -- it passes to Finish
  unfoldable pub save_level_with :
      Reflection
      → Bool
      → ℕ
      → List ℕ
      → Option (GameInstance E)
      → SlotData E
      → Name
      → Level E
      → Option (LevelRecord E)
      → Option (Option (SlotData E) × Bool)
  unfolding bake_filter_of
  save_level_with rf multithreaded workers order game d name level none = some (some d, false)
  save_level_with rf multithreaded workers order game d name level (some r) = do
    (d', tasks) ←
        serialize_level_sync multithreaded level (max 1 workers) (some name)
          (bake_filter_of rf d name r, [])
    d'' ← run_scheduled_tasks game multithreaded order tasks d'
    some (some d'', true)

  -- OnStart of the level saver; the level is there if it is loaded.
  unfoldable pub save_level :
      Reflection
      → Bool
      → ℕ
      → List ℕ
      → Option (GameInstance E)
      → Option (SlotData E)
      → Name
      → Option (Level E)
      → Option (Option (SlotData E) × Bool)
  unfolding save_level_with
  save_level rf multithreaded workers order game none name level = some (none, false)
  save_level rf multithreaded workers order game (some d) name none = some (some d, false)
  save_level rf multithreaded workers order game (some d) name (some level) =
      save_level_with rf multithreaded workers order game d name level
        (find_level_record d (some name))

  -- DeserializeASyncLoop of the level loader: it asks no filter.
  unfoldable pub level_rounds :
      LevelFilter → List (ActorRecord E) → (ℕ → Bool) → ℕ → ℕ → Frames E → Frames E
  level_rounds filter records over k zero s = record s { is_done = true }
  level_rounds filter records over k (suc left) s =
      elim (get_elem? s.current_actors s.actor_index) [
        | none ↦ record s { is_done = true }
        | some place ↦ elim (actor_at s.level_actors place) [
          | none ↦
              level_rounds filter records over k left (record s { actor_index = suc s.actor_index })
          | some a ↦
              let actors =
                update_at (deserialize_level_actor filter records) place s.level_actors in
              elim (over k) [
                | true ↦ record s { level_actors = actors }
                | false ↦
                    level_rounds filter records over (suc k) left
                      (record s { level_actors = actors; actor_index = suc s.actor_index })
              ]
        ]
      ]

  unfoldable pub level_async_loop :
      LevelFilter → List (ActorRecord E) → (ℕ → Bool) → Frames E → Frames E
  unfolding level_rounds
  level_async_loop filter records over s =
      level_rounds filter records over 0 (length s.current_actors - s.actor_index) s

module _ (E : Engine) where
  -- The level loader: the state that it has from the loader, its slot data, its level and its frames,
  -- and what it passed to Finish
  pub record LevelLoad : Type 0 where
    pub load_state : LoadState
    pub slot_data : Option (SlotData E)
    pub current_data : Option (SlotData E)
    pub frames : Frames E
    pub ended : Option Bool

module _ {E : Engine} where
  -- the actors of the level
  abbrev pub level_of : LevelLoad E → Level E
  level_of s = record { actors = s.frames.level_actors }

  -- FinishedDeserializing
  unfoldable pub finish_level : SlotData E → LevelLoad E → LevelLoad E
  finish_level d s = record s {
    slot_data = some (clean_records true d);
    current_data = some (clean_records true d);
    ended = some true;
  }

  -- a frame of the loop, and its end
  unfoldable pub load_frame : (ℕ → Bool) → SlotData E → LevelRecord E → LevelLoad E → LevelLoad E
  unfolding level_async_loop finish_level
  load_frame over d r s =
      let frames = level_async_loop (get_level_filter d r) r.actors over s.frames in
      let s' = record s { frames = frames } in if frames.is_done then finish_level d s' else s'

  -- OnStart of the level loader with the record that FindLevelRecord returns, before and after its filter
  -- is baked
  unfoldable pub load_baked :
      Preset → (ℕ → Bool) → SlotData E → Option (LevelRecord E) → LevelLoad E → LevelLoad E
  unfolding load_frame
  load_baked preset over d none s = record s { ended = some false }
  load_baked preset over d (some r) s =
      if is_frame_split_load preset
      then load_frame over d r (record s { slot_data = some d; frames = start_frames (level_of s) })
      else finish_level d (record s {
        frames = record s.frames {
          level_actors =
              (deserialize_level_sync (get_level_filter d r) r.actors (level_of s)).actors;
        };
      })

  unfoldable pub load_level_with :
      Reflection
      → Preset
      → (ℕ → Bool)
      → SlotData E
      → Name
      → Option (LevelRecord E)
      → LevelLoad E
      → LevelLoad E
  unfolding load_baked bake_filter_of
  load_level_with rf preset over d name none s = record s { ended = some false }
  load_level_with rf preset over d name (some r) s =
      let d' = bake_filter_of rf d name r in
      load_baked preset over d' (find_level_record d' (some name)) s

  unfoldable pub load_level_of :
      Reflection
      → Preset
      → (ℕ → Bool)
      → Option (SlotData E)
      → Name
      → Bool
      → LevelLoad E
      → LevelLoad E
  unfolding load_level_with
  load_level_of rf preset over none name is_loaded s = record s { ended = some false }
  load_level_of rf preset over (some d) name false s = record s { ended = some false }
  load_level_of rf preset over (some d) name true s =
      load_level_with rf preset over d name (find_level_record d (some name)) s

  -- OnStart of the level loader
  unfoldable pub load_level :
      Reflection → Preset → (ℕ → Bool) → Name → Bool → LevelLoad E → LevelLoad E
  unfolding load_level_of
  load_level rf preset over name is_loaded s =
      load_level_of rf preset over s.slot_data name is_loaded s

  -- Tick, which the level loader has from the loader: no method of a level loader sets its LoadState.
  unfoldable pub tick_level_in :
      LoadState → (ℕ → Bool) → SlotData E → LevelRecord E → LevelLoad E → LevelLoad E
  unfolding load_frame
  tick_level_in deserializing over d r s = load_frame over d r s
  tick_level_in not_started over d r s = s
  tick_level_in loading_map over d r s = s
  tick_level_in waiting_for_data over d r s = s
  tick_level_in restoring_actors over d r s = s
