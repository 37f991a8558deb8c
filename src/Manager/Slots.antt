-- ===== src/Manager/Slots.antt =====
-- USaveManager: saving, loading and deleting slots by name, by id and by info.
use save_extension.Base.{
  ℕ, Bool, true, false, not, ◌||◌, Option, none, some, [], ◌∷◌, if◌then◌else◌,
}
use mathlib.Core.Option.{map as map_option}
use save_extension.Base.Int.{ℤ}
use save_extension.Name.{Name, name_none, is_none}
use save_extension.Archive.{◌>>=◌}
use save_extension.Preset.{Preset, get_slot_name_from_id, is_valid_id}
use save_extension.Engine.{Engine}
use save_extension.SlotInfo.{SlotInfo}
use save_extension.Disk.{does_file_exist, delete_slot}
use save_extension.Tasks.{finish_if, start, fuel_of}
use save_extension.Manager.{
  is_loader, Managed, Services, Manager, saver, loader, level_saver, level_loader, get_preset,
  can_load_or_save, try_instantiate_info, launch,
}

module _ {E : Engine} {W G : Type 0} (v : Services E W G) where
  -- IsValidSlot and GetSlotNameFromId; the name that the preset is given is empty.
  unfoldable pub is_valid_slot : ℤ → Managed E G → Bool
  is_valid_slot id s = is_valid_id (get_preset v s) id

  unfoldable pub slot_name_from_id : ℤ → Managed E G → Name
  slot_name_from_id id s = get_slot_name_from_id v.from_int (get_preset v s) id name_none

  -- IsSlotSaved
  unfoldable pub is_slot_saved : Name → Managed E G → Bool
  is_slot_saved name s = does_file_exist v.files name (v.disk s.game)

  -- IsSlotSavedById
  unfoldable pub is_slot_saved_by_id : ℤ → Managed E G → Bool
  unfolding is_valid_slot slot_name_from_id is_slot_saved
  is_slot_saved_by_id id s =
      if is_valid_slot id s then is_slot_saved (slot_name_from_id id s) s else false

  -- SaveSlot, with a name
  unfoldable pub save_slot : Name → Bool → Bool → Manager v → Option (Bool × Manager v)
  save_slot name override_if_needed screenshot m =
      if not (can_load_or_save v m.state)
      then some (false, m)
      else if is_none name
      then some (false, m)
      else launch v
          (saver (record {
            slot_name = name;
            override_slot = override_if_needed;
            save_thumbnail = screenshot;
          }))
          m

  -- SaveSlot, with an id, and with an info
  unfoldable pub save_slot_by_id : ℤ → Bool → Bool → Manager v → Option (Bool × Manager v)
  unfolding save_slot is_valid_slot slot_name_from_id
  save_slot_by_id id override_if_needed screenshot m =
      if not (is_valid_slot id m.state)
      then some (false, m)
      else save_slot (slot_name_from_id id m.state) override_if_needed screenshot m

  unfoldable pub save_slot_by_info :
      Option SlotInfo → Bool → Bool → Manager v → Option (Bool × Manager v)
  unfolding save_slot
  save_slot_by_info none override_if_needed screenshot m = some (false, m)
  save_slot_by_info (some info) override_if_needed screenshot m =
      save_slot info.file_name override_if_needed screenshot m

  -- SaveCurrentSlot
  unfoldable pub save_current_slot : Bool → Manager v → Option (Bool × Manager v)
  unfolding save_slot_by_info
  save_current_slot screenshot m = save_slot_by_info m.state.current_info true screenshot m

  -- LoadSlot, with a name
  unfoldable pub load_slot : Name → Manager v → Option (Bool × Manager v)
  unfolding is_slot_saved
  load_slot name m =
      if not (can_load_or_save v m.state) || not (is_slot_saved name m.state)
      then some (false, m)
      else launch v (loader name) (record m { state = try_instantiate_info v false m.state })

  -- LoadSlot, with an id, and with an info
  unfoldable pub load_slot_by_id : ℤ → Manager v → Option (Bool × Manager v)
  unfolding load_slot is_valid_slot slot_name_from_id
  load_slot_by_id id m =
      if not (is_valid_slot id m.state)
      then some (false, m)
      else load_slot (slot_name_from_id id m.state) m

  unfoldable pub load_slot_by_info : Option SlotInfo → Manager v → Option (Bool × Manager v)
  unfolding load_slot
  load_slot_by_info none m = some (false, m)
  load_slot_by_info (some info) m = load_slot info.file_name m

  -- ReloadCurrentSlot
  unfoldable pub reload_current_slot : Manager v → Option (Bool × Manager v)
  unfolding load_slot_by_info
  reload_current_slot m = load_slot_by_info m.state.current_info m

  -- DeleteSlotById, and DeleteSlot with an info: what they do to the disk
  unfoldable pub delete_slot_by_id : ℤ → Managed E G → Bool × W
  unfolding is_valid_slot slot_name_from_id
  delete_slot_by_id id s =
      if not (is_valid_slot id s)
      then (false, v.disk s.game)
      else delete_slot v.files (slot_name_from_id id s) (v.disk s.game)

  unfoldable pub delete_slot_of_info : Option SlotInfo → Managed E G → Bool × W
  delete_slot_of_info none s = (false, v.disk s.game)
  delete_slot_of_info (some info) s = delete_slot v.files info.file_name (v.disk s.game)

  -- SerializeStreamingLevel, by whether its level is being removed, and DeserializeStreamingLevel
  unfoldable pub serialize_streaming_level : Name → Bool → Manager v → Option (Manager v)
  serialize_streaming_level name being_removed m =
      if not being_removed
      then map_option (λ (r : Bool × Manager v). r.1) (launch v (level_saver name) m)
      else some m

  unfoldable pub deserialize_streaming_level : Name → Manager v → Option (Manager v)
  deserialize_streaming_level name m =
      map_option (λ (r : Bool × Manager v). r.1) (launch v (level_loader name) m)

  -- UpdateLevelStreamings: a notifier for each streaming level
  unfoldable pub update_level_streamings : Managed E G → Managed E G
  update_level_streamings s =
      if v.has_world s.game then record s { notifiers = v.streaming_levels s.game } else s

  -- CreatePreset of the settings
  unfoldable pub create_preset : Preset
  create_preset = elim v.settings_preset [
    | none ↦ v.new_preset v.preset_class
    | some class ↦ v.new_preset class
  ]

  -- Initialize, after its base class
  unfoldable pub initialize : Manager v → Option (Manager v)
  unfolding create_preset reload_current_slot update_level_streamings
  initialize m = do
    let m1 = record m { state = record m.state { active_preset = some create_preset } }
    m2 ←
        (if (get_preset v m1.state).auto_load
          then map_option (λ (r : Bool × Manager v). r.1) (reload_current_slot m1)
          else some m1)
    some (record m2 { state = update_level_streamings (try_instantiate_info v false m2.state) })

  -- Deinitialize, after the other tasks are cancelled
  unfoldable pub deinitialize : Manager v → Option (Manager v)
  unfolding save_current_slot
  deinitialize m =
      if (get_preset v m.state).save_on_exit
      then map_option (λ (r : Bool × Manager v). r.1) (save_current_slot false m)
      else some m

  -- What OnMapLoadFinished does with the first task
  unfoldable pub loader_in_map : ℕ → Manager v → Option (Manager v)
  loader_in_map t m =
      if elim (m.state.prepared t) [ none ↦ false | some p ↦ is_loader p.kind ]
      then (let (s, result) = v.on_map_loaded t m.state in
          finish_if v.behaviour (start v.behaviour (fuel_of v.behaviour m)) t result
            (record m { state = s }))
      else some m

  -- OnMapLoadFinished
  unfoldable pub on_map_load_finished : Manager v → Option (Manager v)
  unfolding loader_in_map update_level_streamings
  on_map_load_finished m = do
    m1 ← elim m.tasks [ [] ↦ some m | t ∷ _ ↦ loader_in_map t m ]
    some (record m1 { state = update_level_streamings m1.state })
