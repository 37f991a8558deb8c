-- ===== src/Manager.antt =====
-- USaveManager (Source/SaveExtension/Public/SaveManager.h, Private/SaveManager.cpp): the active preset, the
-- current slot and the tasks that it creates. The list of the tasks is in Tasks.
pub mod Slots
pub mod Classes
pub mod Active
pub mod Presets
pub mod Results
use save_extension.Base.{
  ℕ, Bool, true, false, not, ◌&&◌, ◌||◌, Option, none, some, List, [], ◌∷◌, String, ◌==◌, nat_eq,
  if◌then◌else◌,
}
use save_extension.Base.Int.{ℤ}
use save_extension.Name.{Name, name_none, is_none}
use save_extension.Archive.{◌>>=◌}
use save_extension.Preset.{Preset, get_slot_name_from_id, is_valid_id}
use save_extension.Engine.{Engine}
use save_extension.SlotData.{SlotData}
use save_extension.SlotInfo.{SlotInfo}
use save_extension.Disk.{FileManager, does_file_exist}
use save_extension.Saver.Run.{SaveRequest}
use save_extension.Tasks.{Behaviour, TaskList, is_scheduled, is_succeeded}
use save_extension.Tasks.History.{submit}

-- The classes of tasks, with what Setup gives them. A level is named by its package.
pub data TaskKind : Type 0 where
  saver : SaveRequest → TaskKind
  loader : Name → TaskKind
  level_saver : Name → TaskKind
  level_loader : Name → TaskKind

-- What a task is made with: its class and Setup, and what Prepare gives it
pub record Prepared (E : Engine) : Type 0 where
  pub kind : TaskKind
  pub slot_data : Option (SlotData E)
  pub preset : Preset

-- The fields of the manager, the tasks that it made, by their addresses, and `game`, all else
pub record Managed (E : Engine) (G : Type 0) : Type 0 where
  pub active_preset : Option Preset
  pub current_info : Option SlotInfo
  pub current_data : Option (SlotData E)
  pub notifiers : List Name
  pub prepared : ℕ → Option (Prepared E)
  pub game : G

-- What the manager calls: the engine, the classes, the settings and its tasks
pub record Services (E : Engine) (W G : Type 0) : Type 0 where
  pub files : FileManager W
  pub disk : G → W
  -- GetGameMode, with its HasAuthority, and whether there is a world
  pub game_mode : G → Option Bool
  pub has_world : G → Bool
  -- GetStreamingLevels of the world
  pub streaming_levels : G → List Name
  -- GetDefault<USavePreset>, and NewObject for the classes of presets, infos and data
  pub default_preset : Preset
  pub new_preset : ℕ → Preset
  pub new_info : Option ℕ → SlotInfo
  pub new_data : Option ℕ → SlotData E
  pub from_int : ℤ → String
  -- the class of preset in the settings, if there is one
  pub settings_preset : Option ℕ
  -- the class USavePreset
  pub preset_class : ℕ
  pub behaviour : Behaviour (Managed E G)
  -- OnMapLoaded of a loader, with what it passes to Finish if it calls it
  pub on_map_loaded : ℕ → Managed E G → Managed E G × Option Bool

-- The class of a task is USlotDataTask_Loader.
unfoldable pub is_loader : TaskKind → Bool
is_loader (saver r) = false
is_loader (loader name) = true
is_loader (level_saver name) = false
is_loader (level_loader name) = false

-- The class of a task is one that loads.
unfoldable pub loads : TaskKind → Bool
loads (saver r) = false
loads (loader name) = true
loads (level_saver name) = false
loads (level_loader name) = true

module _ {E : Engine} {W G : Type 0} (v : Services E W G) where
  -- the manager with its list of tasks
  abbrev pub Manager : Type 0
  Manager = TaskList (Managed E G)

  -- GetPreset
  unfoldable pub get_preset : Managed E G → Preset
  get_preset s = elim s.active_preset [ none ↦ v.default_preset | some p ↦ p ]

  -- HasTasks, IsSavingOrLoading
  unfoldable pub has_tasks : Manager → Bool
  has_tasks m = elim m.tasks [ [] ↦ false | _ ∷ _ ↦ true ]

  -- IsLoading
  unfoldable pub is_loading : Manager → Bool
  is_loading m = elim m.tasks [
    | [] ↦ false
    | t ∷ _ ↦ elim (m.state.prepared t) [ none ↦ false | some p ↦ loads p.kind ]
  ]

  -- CanLoadOrSave
  unfoldable pub can_load_or_save : Managed E G → Bool
  can_load_or_save s = elim (v.game_mode s.game) [
    | some false ↦ false
    | some true ↦ v.has_world s.game
    | none ↦ v.has_world s.game
  ]

  -- SetActivePreset, and what it returns
  unfoldable pub set_active_preset : Option ℕ → Manager → Option Preset × Manager
  unfolding has_tasks
  set_active_preset none m = (none, m)
  set_active_preset (some class) m =
      let same : Bool = elim m.state.active_preset [ none ↦ false | some p ↦ p.class == class ] in
      if has_tasks m || same then (none, m) else (
        some (v.new_preset class),
        record m { state = record m.state { active_preset = some (v.new_preset class) } },
      )

  -- IsInSlot
  unfoldable pub is_in_slot : Managed E G → Bool
  is_in_slot s = elim s.current_info [
    | none ↦ false
    | some _ ↦ elim s.current_data [ none ↦ false | some _ ↦ true ]
  ]

  -- TryInstantiateInfo
  unfoldable pub try_instantiate_info : Bool → Managed E G → Managed E G
  unfolding get_preset is_in_slot
  try_instantiate_info forced s =
      let preset = get_preset s in
      if is_in_slot s && not forced then s else record s {
        current_info = some (v.new_info preset.slot_info_class);
        current_data = some (v.new_data preset.slot_data_class);
      }

  -- GetCurrentInfo and GetCurrentData
  unfoldable pub get_current_info : Managed E G → Option SlotInfo × Managed E G
  unfolding try_instantiate_info
  get_current_info s = let s' = try_instantiate_info false s in (s'.current_info, s')

  unfoldable pub get_current_data : Managed E G → Option (SlotData E) × Managed E G
  unfolding try_instantiate_info
  get_current_data s = let s' = try_instantiate_info false s in (s'.current_data, s')

  -- what CreateTask, with Prepare, and Setup write
  unfoldable pub prepare : TaskKind → ℕ → Managed E G → Managed E G
  unfolding get_preset
  prepare kind t s = record s {
    prepared = λ u.
        if t == u
        then some (record { kind = kind; slot_data = s.current_data; preset = get_preset s })
        else s.prepared u;
  }

  -- CreateTask, Setup and Start, and whether the task has succeeded or is scheduled; `none` does not
  -- occur, as there is fuel for all tasks.
  unfoldable pub launch : TaskKind → Manager → Option (Bool × Manager)
  unfolding prepare
  launch kind m = do
    m' ← submit v.behaviour (prepare kind) m
    some (is_succeeded v.behaviour m.next m' || is_scheduled v.behaviour m.next m', m')
