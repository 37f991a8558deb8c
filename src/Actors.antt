-- ===== src/Actors.antt =====
-- FMTTask_SerializeActors (Source/SaveExtension/Public/Serialization/MTTask_SerializeActors.h,
-- Private/Serialization/MTTask_SerializeActors.cpp): the task that makes the records of some actors of
-- a level.
pub mod Saved
use save_extension.Base.{
  ℕ, zero, suc, Bool, true, false, ◌&&◌, Option, none, some, List, [], ◌∷◌, ◌++◌, get_elem?,
  if◌then◌else◌,
}
use save_extension.Name.{Name}
use save_extension.Archive.{◌>>=◌}
use save_extension.LevelFilter.{
  LevelFilter, should_save_actor, should_save_component, component_stores_transform, stores_tags,
  is_save_tag, actor_stores_transform, stores_physics,
}
use save_extension.Engine.{Engine}
use save_extension.World.{Component, Root, Actor, GameInstance}
use save_extension.Records.{
  ObjectRecord, empty_object, ComponentRecord, ActorRecord, unset_actor, is_valid_record,
}
use save_extension.SlotData.{SlotData, update_level_record}

-- FObjectRecord(const UObject*) of an object
abbrev pub make_object : Name → ℕ → ObjectRecord
make_object name class = record empty_object { name = name; class = some class }

-- The loop that keeps only the save tags
unfoldable pub save_tags : List Name → List Name
save_tags [] = []
save_tags (t ∷ ts) = let rest = save_tags ts in if is_save_tag t then (t ∷ rest) else rest

module _ {E : Engine} where
  -- SerializeActorComponents: the record of one component, and its loop
  unfoldable pub serialize_component : Component E → ComponentRecord E
  serialize_component c = record {
    object = record {
      name = c.name;
      class = some c.class;
      data_bytes = if E.is_primitive c.class then [] else E.write_props c.props;
      tags = if stores_tags c.component_tags then c.component_tags else [];
    };
    transform =
        if component_stores_transform (E.is_scene c.class) c.component_tags && c.is_movable
        then c.relative_transform
        else E.identity;
  }

  unfoldable pub serialize_components : LevelFilter → List (Component E) → List (ComponentRecord E)
  serialize_components filter [] = []
  serialize_components filter (c ∷ cs) =
      let rest = serialize_components filter cs in
      if should_save_component filter c.is_valid c.class
      then (serialize_component c ∷ rest)
      else rest

  -- The linear and the angular velocity that SerializeActor stores
  unfoldable pub velocities : Option (Root E) → E.Vector × E.Vector
  velocities none = (E.zero_vector, E.zero_vector)
  velocities (some r) =
      if r.is_movable
      then (if r.is_primitive
          then (r.physics_linear_velocity, r.physics_angular_velocity)
          else (r.component_velocity, E.zero_vector))
      else (E.zero_vector, E.zero_vector)

  -- SerializeActor
  unfoldable pub serialize_actor : LevelFilter → Actor E → ActorRecord E
  unfolding velocities
  serialize_actor filter a =
      let stores_transform = actor_stores_transform a.is_root_component_movable a.tags in
      let (linear, angular) =
        (if stores_transform && stores_physics a.tags
          then velocities a.root
          else (E.zero_vector, E.zero_vector)) in
      record {
        object = record (make_object a.name a.class) {
          data_bytes = E.write_props a.props;
          tags = if stores_tags a.tags then a.tags else save_tags a.tags;
        };
        hidden_in_game = a.is_hidden;
        is_procedural = a.was_loaded;
        transform = if stores_transform then a.transform else E.identity;
        linear_velocity = linear;
        angular_velocity = angular;
        component_records =
            if filter.store_components then serialize_components filter a.components else [];
      }

  -- SerializeGameInstance, with the record that it replaces
  unfoldable pub serialize_game_instance : Option (GameInstance E) → ObjectRecord → ObjectRecord
  serialize_game_instance none old = old
  serialize_game_instance (some g) old = record (make_object g.name g.class) {
    data_bytes = E.write_props g.props;
  }

module _ (E : Engine) where
  -- FMTTask_SerializeActors; the level record is named by its streaming level, `none` is the main level.
  pub record SerializeTask : Type 0 where
    pub level_actors : List (Option (Actor E))
    pub start_index : ℕ
    pub num : ℕ
    pub store_game_instance : Bool
    pub level_record : Option Name
    pub filter : LevelFilter
    pub level_script_record : ActorRecord E
    pub actor_records : List (ActorRecord E)
    -- IsDone, of the FAsyncTask around it
    pub is_done : Bool

module _ {E : Engine} where
  -- The constructor
  abbrev pub make_task :
      List (Option (Actor E)) → ℕ → ℕ → Bool → Option Name → LevelFilter → SerializeTask E
  make_task actors start num stores target filter = record {
    level_actors = actors;
    start_index = start;
    num = num;
    store_game_instance = stores;
    level_record = target;
    filter = filter;
    level_script_record = unset_actor empty_object;
    actor_records = [];
    is_done = false;
  }

  -- The loop of DoWork; `none` is an index out of range.
  pub serialize_from :
      LevelFilter
      → List (Option (Actor E))
      → ℕ
      → ℕ
      → List (ActorRecord E)
      → Option (List (ActorRecord E))
  serialize_from filter actors i zero records = some records
  serialize_from filter actors i (suc num) records = do
    entry ← get_elem? actors i
    elim entry [
      | none ↦ serialize_from filter actors (suc i) num records
      | some a ↦ serialize_from filter actors (suc i) num (
          if should_save_actor filter a.class
          then records ++ serialize_actor filter a ∷ []
          else records)
    ]

  -- DoWork, which writes the game instance's record into the slot data
  unfoldable pub do_work :
      Option (GameInstance E) → SerializeTask E → SlotData E → Option (SlotData E × SerializeTask E)
  unfolding serialize_from
  do_work game t d =
      let d' =
        (if t.store_game_instance
          then record d { game_instance = serialize_game_instance game d.game_instance }
          else d) in
      do
        records ← serialize_from t.filter t.level_actors t.start_index t.num t.actor_records
        some (d', record t { actor_records = records; is_done = true })

  -- DumpData
  unfoldable pub dump_data : SerializeTask E → SlotData E → SlotData E
  dump_data t d =
      update_level_record
        (λ r. record r {
          level_script =
              if is_valid_record t.level_script_record.object
              then t.level_script_record
              else r.level_script;
          actors = r.actors ++ t.actor_records;
        })
        d t.level_record
