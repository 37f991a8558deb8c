-- ===== src/Loader.antt =====
-- USlotDataTask_Loader (Source/SaveExtension/Public/Serialization/SlotDataTask_Loader.h,
-- Private/Serialization/SlotDataTask_Loader.cpp): the part that turns records back into actors.
pub mod Actors
pub mod Frames
pub mod Prepare
pub mod State
pub mod Deserialize
pub mod Run
use save_extension.Base.{
  ℕ, zero, suc, ◌+◌, Bool, true, false, not, ◌&&◌, ◌||◌, Option, none, some, List, [], ◌∷◌, ◌++◌,
  length, get_elem?, map, if◌then◌else◌, ◌==◌, nat_eq, ltb,
}
use save_extension.Name.{Name}
use save_extension.Archive.{Bytes, ◌>>=◌}
use save_extension.LevelFilter.{
  LevelFilter, should_save_actor, should_save_component, component_stores_transform, stores_tags,
  actor_stores_transform, stores_physics,
}
use save_extension.Engine.{Engine}
use save_extension.World.{Component, Root, Actor, Level, GameInstance}
use save_extension.Records.{
  ObjectRecord, ComponentRecord, ActorRecord, is_valid_record, is_record_of,
}

module _ {E : Engine} where
  -- FindByKey of the records of components, and of actors
  unfoldable pub find_component_record :
      List (ComponentRecord E) → Component E → Option (ComponentRecord E)
  find_component_record [] c = none
  find_component_record (r ∷ rs) c =
      let rest = find_component_record rs c in
      if is_record_of r.object c.name c.class then some r else rest

  unfoldable pub find_actor_record : List (ActorRecord E) → Actor E → Option (ActorRecord E)
  find_actor_record [] a = none
  find_actor_record (r ∷ rs) a =
      let rest = find_actor_record rs a in
      if is_record_of r.object a.name a.class then some r else rest

  -- DeserializeActorComponents: what it does to one component
  unfoldable pub restore_component : ComponentRecord E → Component E → Component E
  restore_component r c = record c {
    relative_transform =
        if component_stores_transform (E.is_scene c.class) c.component_tags && c.is_movable
        then r.transform
        else c.relative_transform;
    component_tags = if stores_tags c.component_tags then r.tags else c.component_tags;
    props = if E.is_primitive c.class then c.props else E.read_props r.data_bytes c.props;
  }

  unfoldable pub deserialize_component :
      LevelFilter → List (ComponentRecord E) → Component E → Component E
  deserialize_component filter records c =
      if should_save_component filter c.is_valid c.class
      then elim (find_component_record records c) [ none ↦ c | some r ↦ restore_component r c ]
      else c

  unfoldable pub deserialize_components :
      LevelFilter → ActorRecord E → List (Component E) → List (Component E)
  deserialize_components filter r cs =
      if filter.store_components
      then map (deserialize_component filter r.component_records) cs
      else cs

  -- The velocities are set on a primitive root, or else the linear one on the root.
  unfoldable pub set_velocities : E.Vector → E.Vector → Option (Root E) → Option (Root E)
  set_velocities linear angular none = none
  set_velocities linear angular (some root) = some (
      if root.is_primitive
      then record root { physics_linear_velocity = linear; physics_angular_velocity = angular }
      else record root { component_velocity = linear })

  -- DeserializeActor. A movable root is there, so it is no null pointer that takes the velocities.
  unfoldable pub deserialize_actor : LevelFilter → ActorRecord E → Actor E → Actor E
  deserialize_actor filter r a =
      let stores_transform = actor_stores_transform a.is_root_component_movable r.tags in
      record a {
        tags = r.tags;
        transform = if stores_transform then r.transform else a.transform;
        root =
            if stores_transform && stores_physics r.tags
            then set_velocities r.linear_velocity r.angular_velocity a.root
            else a.root;
        is_hidden = r.hidden_in_game;
        components = deserialize_components filter r a.components;
        props = E.read_props r.data_bytes a.props;
      }

  -- DeserializeLevel_Actor
  unfoldable pub deserialize_level_actor : LevelFilter → List (ActorRecord E) → Actor E → Actor E
  deserialize_level_actor filter records a = elim (find_actor_record records a) [
    | none ↦ a
    | some r ↦
        if is_valid_record r.object && elim r.class [ none ↦ false | some c ↦ c == a.class ]
        then deserialize_actor filter r a
        else a
  ]

  -- What DeserializeLevelSync does to one entry of a level, and its loop
  abbrev pub deserialize_entry :
      LevelFilter → List (ActorRecord E) → Option (Actor E) → Option (Actor E)
  deserialize_entry filter records none = none
  deserialize_entry filter records (some a) = some (
      if a.is_valid && should_save_actor filter a.class
      then deserialize_level_actor filter records a
      else a)

  unfoldable pub deserialize_level_sync : LevelFilter → List (ActorRecord E) → Level E → Level E
  deserialize_level_sync filter records level = record {
    actors = map (deserialize_entry filter records) level.actors;
  }

  -- DeserializeGameInstance
  unfoldable pub deserialize_game_instance :
      ObjectRecord → Option (GameInstance E) → Option (GameInstance E)
  deserialize_game_instance r none = none
  deserialize_game_instance r (some g) = some (
      if elim r.class [ none ↦ false | some c ↦ c == g.class ]
      then record g { props = E.read_props r.data_bytes g.props }
      else g)
