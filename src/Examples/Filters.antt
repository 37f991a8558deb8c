-- ===== src/Examples/Filters.antt =====
-- Class filters, presets and level filters at concrete inputs.
use save_extension.Base.{
  ◌≡◌, ◌↔◌, refl, true, false, none, String, [], ◌∷◌, if◌then◌else◌, ◌==◌, string_eq, arith,
}
use save_extension.Base.Int.{pos, ◌≤ℤ◌, ◌<ℤ◌}
use save_extension.Base.Sets.{contains, add}
use save_extension.ClassFilter.{ClassFilter, merge, bake_allowed_classes, is_class_allowed, equals}
use save_extension.ClassFilter.Bake.{Allows, is_class_allowed-bake}
use save_extension.ClassFilter.Merge.{
  IsConsistent, allowed, ignored, unlisted, verdict, merge-verdict, equals_iff,
}
use save_extension.Preset.{Preset, only_sync, save_async, is_valid_id}
use save_extension.Preset.Slots.{is_valid_id_iff}
use save_extension.LevelFilter.{
  to_filter, bake_filter, should_save_actor, should_load_actor, should_save_component,
  should_load_component,
}
use save_extension.LevelFilter.Classes.{to_filter-classes}
use save_extension.Examples.Classes.{classes, letters}

-- Actors but no pawns
abbrev pub actors_only : ClassFilter
actors_only = record {
  base_class = 0;
  allowed_classes = letters 1 ∷ [];
  ignored_classes = letters 2 ∷ [];
  baked_allowed_classes = [];
}

-- Pawns
abbrev pub pawns : ClassFilter
pawns = record actors_only { allowed_classes = letters 2 ∷ []; ignored_classes = [] }

actors_only_allows : is_class_allowed (bake_allowed_classes classes actors_only) 1 ≡ true
unfolding is_class_allowed bake_allowed_classes contains add
actors_only_allows = refl

bake_example :
    (is_class_allowed (bake_allowed_classes classes actors_only) 2 ≡ true)
    ↔ Allows classes actors_only 2
bake_example = is_class_allowed-bake classes actors_only 2

lists_apart :
    (a b : String)
    → (a == b) ≡ false
    → (p : String) → contains (a ∷ []) p ≡ true
    → contains (b ∷ []) p ≡ false
unfolding contains
lists_apart a b apart p h =
    ground (arith, string_eq.same_iff a b, string_eq.same_iff a p, string_eq.same_iff b p)

nothing_ignored : (p : String) → contains (letters 2 ∷ []) p ≡ true → contains [] p ≡ false
unfolding contains
nothing_ignored p h = refl

merge_example :
    IsConsistent (merge actors_only pawns)
    × ((p : String)
        → verdict (merge actors_only pawns) p ≡ elim (verdict pawns p) [
          | allowed ↦ allowed
          | ignored ↦ ignored
          | unlisted ↦ verdict actors_only p
        ])
merge_example =
    merge-verdict actors_only pawns (lists_apart (letters 1) (letters 2) refl) nothing_ignored

equals_example : (equals pawns actors_only ≡ true) ↔ (
    ((p : String)
      → contains pawns.allowed_classes p ≡ true
      → contains actors_only.allowed_classes p ≡ true)
    × ((p : String)
        → contains pawns.ignored_classes p ≡ true
        → contains actors_only.ignored_classes p ≡ true))
equals_example = equals_iff pawns actors_only

-- A preset that saves actors, and loads pawns
abbrev pub preset : Preset
preset = record {
  class = 7;
  slot_info_class = none;
  slot_data_class = none;
  max_slots = pos 3;
  auto_save = true;
  auto_save_interval = pos 120;
  save_on_exit = false;
  auto_load = true;
  debug = false;
  debug_in_screen = true;
  use_compression = true;
  store_game_instance = true;
  actor_filter = actors_only;
  use_load_actor_filter = true;
  load_actor_filter = pawns;
  store_components = true;
  component_filter = actors_only;
  use_load_component_filter = false;
  load_component_filter = pawns;
  multithreaded_serialization = save_async;
  frame_splitted_serialization = only_sync;
  multithreaded_files = save_async;
  save_and_load_sublevels = true;
}

valid_id_example :
    ((is_valid_id preset (pos 2) ≡ true) ↔ (
      (pos 0 ≤ℤ pos 2)
      × ((pos 0 <ℤ preset.max_slots → pos 2 <ℤ preset.max_slots)
          × (preset.max_slots ≤ℤ pos 0 → pos 2 <ℤ pos 16384))))
    × (is_valid_id preset (pos 0) ≡ true)
valid_id_example = is_valid_id_iff preset (pos 2)

to_filter_example :
    let f = bake_filter classes (to_filter preset) in
    ((should_save_actor f 2 ≡ true)
      ↔ Allows classes
          (if preset.use_load_actor_filter then preset.load_actor_filter else preset.actor_filter)
          2)
    × ((should_save_component f true 2 ≡ true)
        ↔ Allows classes
            (if preset.use_load_actor_filter
              then preset.load_component_filter
              else preset.component_filter)
            2)
    × ((should_load_actor f 2 ≡ true) ↔ Allows classes preset.actor_filter 2)
    × ((should_load_component f true 2 ≡ true) ↔ Allows classes preset.component_filter 2)
to_filter_example = to_filter-classes classes preset 2
