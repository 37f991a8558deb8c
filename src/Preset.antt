-- ===== src/Preset.antt =====
-- Source/SaveExtension/Public/SavePreset.h and Private/SavePreset.cpp: how, what and when to save.
pub mod Slots
use save_extension.Base.{
  ℕ, ◌≡◌, Bool, true, false, not, ◌&&◌, ◌||◌, Option, none, some, String, if◌then◌else◌,
}
use save_extension.Base.Int.{ℤ, pos, ltb_ℤ, leb_ℤ}
use save_extension.Name.{Name, name_none, to_name}
use save_extension.ClassFilter.{ClassFilter}

-- ESaveASyncMode
pub data AsyncMode : Type 0 where
  only_sync load_async save_async save_and_load_async : AsyncMode

-- USavePreset, with its class; MaxFrameMs, a float, is left to those who read it.
pub record Preset : Type 0 where
  pub class : ℕ
  pub slot_info_class : Option ℕ
  pub slot_data_class : Option ℕ
  pub max_slots : ℤ
  pub auto_save : Bool
  pub auto_save_interval : ℤ
  pub save_on_exit : Bool
  pub auto_load : Bool
  pub debug : Bool
  pub debug_in_screen : Bool
  pub use_compression : Bool
  pub store_game_instance : Bool
  pub actor_filter : ClassFilter
  pub use_load_actor_filter : Bool
  pub load_actor_filter : ClassFilter
  pub store_components : Bool
  pub component_filter : ClassFilter
  pub use_load_component_filter : Bool
  pub load_component_filter : ClassFilter
  pub multithreaded_serialization : AsyncMode
  pub frame_splitted_serialization : AsyncMode
  pub multithreaded_files : AsyncMode
  pub save_and_load_sublevels : Bool

-- GetActorFilter, const
unfoldable pub get_actor_filter : Preset → Bool → ClassFilter
get_actor_filter p is_loading =
    if is_loading && p.use_load_actor_filter then p.load_actor_filter else p.actor_filter

-- GetComponentFilter, const: the switch that it reads is the one of the actors.
unfoldable pub get_component_filter : Preset → Bool → ClassFilter
get_component_filter p is_loading =
    if is_loading && p.use_load_actor_filter then p.load_component_filter else p.component_filter

-- Whether a mode is on while loading, and while saving.
abbrev pub is_load_async : AsyncMode → Bool
is_load_async load_async = true
is_load_async save_and_load_async = true
is_load_async _ = false

abbrev pub is_save_async : AsyncMode → Bool
is_save_async save_async = true
is_save_async save_and_load_async = true
is_save_async _ = false

unfoldable pub is_mt_serialization_load : Preset → Bool
is_mt_serialization_load p = is_load_async p.multithreaded_serialization

unfoldable pub is_mt_serialization_save : Preset → Bool
is_mt_serialization_save p = is_save_async p.multithreaded_serialization

unfoldable pub is_frame_split_load : Preset → Bool
unfolding is_mt_serialization_load
is_frame_split_load p =
    not (is_mt_serialization_load p) && is_load_async p.frame_splitted_serialization

unfoldable pub is_frame_split_save : Preset → Bool
unfolding is_mt_serialization_save
is_frame_split_save p =
    not (is_mt_serialization_save p) && is_save_async p.frame_splitted_serialization

unfoldable pub is_mt_files_load : Preset → Bool
is_mt_files_load p = is_load_async p.multithreaded_files

unfoldable pub is_mt_files_save : Preset → Bool
is_mt_files_save p = is_save_async p.multithreaded_files

-- GetMaxIds
unfoldable pub get_max_ids : Preset → ℤ
get_max_ids p = if leb_ℤ p.max_slots (pos 0) then pos 16384 else p.max_slots

-- IsValidId
unfoldable pub is_valid_id : Preset → ℤ → Bool
unfolding get_max_ids
is_valid_id p id =
    let max_ids = get_max_ids p in leb_ℤ (pos 0) id && (leb_ℤ max_ids (pos 0) || ltb_ℤ id max_ids)

-- GetSlotNameFromId; `from_int` is FString::FromInt, and the name that is passed in stays if the id
-- is not valid.
unfoldable pub get_slot_name_from_id : (ℤ → String) → Preset → ℤ → Name → Name
unfolding is_valid_id
get_slot_name_from_id from_int p id name = if is_valid_id p id then to_name (from_int id) else name
