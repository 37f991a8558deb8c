-- ===== src/LevelFilter.antt =====
-- Source/SaveExtension/Public/LevelFilter.h and Private/LevelFilter.cpp: which actors and components
-- of a level are saved and loaded, and which of their parts.
pub mod Classes
use save_extension.Base.{ℕ, Bool, true, false, not, ◌&&◌, ◌||◌, List, ◌==◌, string_eq}
use save_extension.Base.Sets.{contains}
use save_extension.Name.{Name}
use save_extension.ClassFilter.{
  Reflection, ClassFilter, make_filter, bake_allowed_classes, is_class_allowed,
}
use save_extension.Preset.{Preset, get_actor_filter, get_component_filter}

-- FSELevelFilter
pub record LevelFilter : Type 0 where
  pub actor_filter : ClassFilter
  pub load_actor_filter : ClassFilter
  pub store_components : Bool
  pub component_filter : ClassFilter
  pub load_component_filter : ClassFilter

-- FromPreset, and ToFilter of the preset
unfoldable pub to_filter : Preset → LevelFilter
to_filter p = record {
  actor_filter = get_actor_filter p true;
  load_actor_filter = get_actor_filter p false;
  store_components = p.store_components;
  component_filter = get_component_filter p true;
  load_component_filter = get_component_filter p false;
}

-- BakeAllowedClasses
unfoldable pub bake_filter : Reflection → LevelFilter → LevelFilter
bake_filter r f = record f {
  actor_filter = bake_allowed_classes r f.actor_filter;
  component_filter = bake_allowed_classes r f.component_filter;
  load_actor_filter = bake_allowed_classes r f.load_actor_filter;
  load_component_filter = bake_allowed_classes r f.load_component_filter;
}

-- ShouldSave and ShouldLoad of an actor of a class
unfoldable pub should_save_actor : LevelFilter → ℕ → Bool
should_save_actor f class = is_class_allowed f.actor_filter class

unfoldable pub should_load_actor : LevelFilter → ℕ → Bool
should_load_actor f class = is_class_allowed f.load_actor_filter class

-- ShouldSave and ShouldLoad of a component, valid or not, of a class
unfoldable pub should_save_component : LevelFilter → Bool → ℕ → Bool
should_save_component f is_valid class = is_valid && is_class_allowed f.component_filter class

unfoldable pub should_load_component : LevelFilter → Bool → ℕ → Bool
should_load_component f is_valid class = is_valid && is_class_allowed f.load_component_filter class

-- The tags of FSELevelFilter
abbrev pub tag_no_transform : Name
tag_no_transform = "!SaveTransform"

abbrev pub tag_no_physics : Name
tag_no_physics = "!SavePhysics"

abbrev pub tag_no_tags : Name
tag_no_tags = "!SaveTags"

abbrev pub tag_transform : Name
tag_transform = "SaveTransform"

-- HasTag
unfoldable pub has_tag : List Name → Name → Bool
has_tag tags tag = contains tags tag

-- StoresTransform of a component; its class is a scene component or not
unfoldable pub component_stores_transform : Bool → List Name → Bool
unfolding has_tag
component_stores_transform is_scene tags = is_scene && has_tag tags tag_transform

-- StoresTags, of an actor and of a component
unfoldable pub stores_tags : List Name → Bool
unfolding has_tag
stores_tags tags = not (has_tag tags tag_no_tags)

-- IsSaveTag
unfoldable pub is_save_tag : Name → Bool
is_save_tag tag = tag == tag_no_transform || tag == tag_no_physics || tag == tag_no_tags

-- StoresTransform of an actor, whose root is movable or not
unfoldable pub actor_stores_transform : Bool → List Name → Bool
unfolding has_tag
actor_stores_transform is_movable tags = is_movable && not (has_tag tags tag_no_transform)

-- StoresPhysics
unfoldable pub stores_physics : List Name → Bool
unfolding has_tag
stores_physics tags = not (has_tag tags tag_no_physics)
