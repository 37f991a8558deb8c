-- ===== src/Loader/State.antt =====
-- The state of USlotDataTask_Loader (Source/SaveExtension/Public/Serialization/SlotDataTask_Loader.h,
-- Private/Serialization/SlotDataTask_Loader.cpp) and of its
-- FLoadFileTask (Public/Multithreading/LoadFileTask.h), and what it does to the world.
use save_extension.Base.{
  ℕ, Bool, true, false, Option, none, some, List, [], ◌∷◌, ◌==◌, string_eq, if◌then◌else◌,
}
use mathlib.Core.Option.{map as map_option}
use save_extension.Name.{Name}
use save_extension.ClassFilter.{Reflection}
use save_extension.Preset.{Preset}
use save_extension.Engine.{Engine}
use save_extension.World.{Actor, Level, StreamingLevel, World}
use save_extension.Files.{FileFormat}
use save_extension.Disk.{FileManager, Objects}
use save_extension.SlotData.{SlotData, get_level_filter, find_level_record}
use save_extension.SlotInfo.{SlotInfo}
use save_extension.Infos.{DateSort}
use save_extension.Loader.{deserialize_level_sync, deserialize_game_instance}
use save_extension.Loader.Prepare.{Spawner}

-- ELoadDataTaskState
pub data LoadState : Type 0 where
  not_started loading_map waiting_for_data restoring_actors deserializing : LoadState

-- LoadDataTask: null, not done, or done with the data of the file, if it has any
pub data LoadTask (E : Engine) : Type 0 where
  no_task : LoadTask E
  running : LoadTask E
  loaded : Option (SlotData E) → LoadTask E

-- CurrentSLevel, while CurrentLevel is valid, with CurrentLevelActors and CurrentActorIndex
pub record Cursor : Type 0 where
  pub level : Option Name
  pub level_actors : List ℕ
  pub actor_index : ℕ

-- The fields of the loader, the current info and data of the manager, the world and the disk
pub record LoaderState (E : Engine) (W : Type 0) : Type 0 where
  pub load_state : LoadState
  pub new_info : Option SlotInfo
  pub slot_data : Option (SlotData E)
  pub load_task : LoadTask E
  pub cursor : Option Cursor
  pub current_info : Option SlotInfo
  pub current_data : Option (SlotData E)
  pub world : World E
  pub disk : W

-- A load that runs: the slot, and what it calls
pub record LoadRun (E : Engine) (W : Type 0) : Type 1 where
  pub manager : FileManager W
  pub format : FileFormat
  pub objects : Objects
  pub info_of : objects.Obj → SlotInfo
  pub data_of : objects.Obj → SlotData E
  pub sort : DateSort
  pub reflection : Reflection
  pub spawner : Spawner E
  pub preset : Preset
  pub slot_name : Name
  -- MakeSureMapNameIsValid
  pub map_exists : Name → Bool

-- The clock of a frame: for each level, if the time is used up after so many actors
abbrev pub Clock : Type 0
Clock = Option Name → ℕ → Bool

module _ {E : Engine} where
  -- the actors of a level of the world, by the name of its streaming level, and a write to them
  unfoldable pub streaming_actors : List (StreamingLevel E) → Name → List (Option (Actor E))
  streaming_actors [] name = []
  streaming_actors (l ∷ ls) name =
      let rest = streaming_actors ls name in
      if l.package_name == name
      then elim l.loaded_level [ none ↦ [] | some level ↦ level.actors ]
      else rest

  unfoldable pub actors_of : World E → Option Name → List (Option (Actor E))
  unfolding streaming_actors
  actors_of w none = w.current_level.actors
  actors_of w (some name) = streaming_actors w.streaming_levels name

  unfoldable pub set_streaming_actors :
      List (Option (Actor E)) → List (StreamingLevel E) → Name → List (StreamingLevel E)
  set_streaming_actors actors [] name = []
  set_streaming_actors actors (l ∷ ls) name =
      let rest = set_streaming_actors actors ls name in
      if l.package_name == name
      then (record l { loaded_level = map_option (λ _. record { actors = actors }) l.loaded_level }
          ∷ ls)
      else (l ∷ rest)

  unfoldable pub set_actors : List (Option (Actor E)) → World E → Option Name → World E
  unfolding set_streaming_actors
  set_actors actors w none = record w { current_level = record { actors = actors } }
  set_actors actors w (some name) = record w {
    streaming_levels = set_streaming_actors actors w.streaming_levels name;
  }

  -- DeserializeLevelSync of a level of the world
  unfoldable pub deserialize_recorded_level : SlotData E → Option Name → Level E → Level E
  deserialize_recorded_level d name level = elim (find_level_record d name) [
    | none ↦ level
    | some r ↦ deserialize_level_sync (get_level_filter d r) r.actors level
  ]

  unfoldable pub deserialize_streaming_levels :
      SlotData E → List (StreamingLevel E) → List (StreamingLevel E)
  unfolding deserialize_recorded_level
  deserialize_streaming_levels d [] = []
  deserialize_streaming_levels d (l ∷ ls) =
      record l {
        loaded_level =
            map_option (deserialize_recorded_level d (some l.package_name)) l.loaded_level;
      }
      ∷ deserialize_streaming_levels d ls

  -- the loops of DeserializeSync
  unfoldable pub deserialize_world : SlotData E → World E → World E
  unfolding deserialize_streaming_levels
  deserialize_world d w = record w {
    current_level = deserialize_recorded_level d none w.current_level;
    streaming_levels = deserialize_streaming_levels d w.streaming_levels;
  }

  -- BeforeDeserialize
  unfoldable pub before_deserialize : SlotData E → World E → World E
  before_deserialize d w = record w {
    time_seconds = d.time_seconds;
    game_instance =
        if d.store_game_instance
        then deserialize_game_instance d.game_instance w.game_instance
        else w.game_instance;
  }

  -- IsDataLoaded and GetLoadedData
  unfoldable pub is_data_loaded : LoadTask E → Bool
  is_data_loaded no_task = false
  is_data_loaded running = false
  is_data_loaded (loaded d) = true

  unfoldable pub get_loaded_data : LoadTask E → Option (SlotData E)
  get_loaded_data no_task = none
  get_loaded_data running = none
  get_loaded_data (loaded d) = d
