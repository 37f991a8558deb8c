-- ===== src/SlotData.antt =====
-- Source/SaveExtension/Public/SlotData.h, Private/SlotData.cpp, Public/Serialization/LevelRecords.h and
-- Private/Serialization/LevelRecords.cpp: what is stored of a world, and its archive format.
pub mod Format
use save_extension.Base.{
  ℕ, ◌≡◌, Bool, true, false, Option, none, some, List, [], ◌∷◌, ◌++◌, ◌==◌, string_eq,
  if◌then◌else◌, not,
}
use save_extension.Name.{Name, name_none, is_none}
use save_extension.Archive.{Bytes, Codec, ◌>>=◌, put_array, get_array}
use save_extension.ClassFilter.{Reflection, make_filter}
use save_extension.LevelFilter.{LevelFilter, bake_filter}
use save_extension.Engine.{Engine, Archives}
use save_extension.Records.{
  ObjectRecord, empty_object, ActorRecord, unset_actor, put_object, get_object, put_actor,
  get_actor,
}

-- FLevelRecord, with the name of FBaseRecord
pub record LevelRecord (E : Engine) : Type 0 where
  pub name : Name
  pub override_general_filter : Bool
  pub filter : LevelFilter
  pub level_script : ActorRecord E
  pub actors : List (ActorRecord E)

-- USlotData
pub record SlotData (E : Engine) : Type 0 where
  pub map : Name
  pub time_seconds : E.Seconds
  pub store_game_instance : Bool
  pub game_instance : ObjectRecord
  pub general_level_filter : LevelFilter
  pub main_level : LevelRecord E
  pub sub_levels : List (LevelRecord E)

-- FPersistentLevelRecord::PersistentName
abbrev pub persistent_name : Name
persistent_name = "Persistent"

-- What the records of a slot are written with, besides the archives of the records of objects.
pub record SlotArchives (E : Engine) : Type 0 where
  pub records : Archives E
  -- SerializeItem of an FSELevelFilter, read into a filter that was just made. The baked classes are
  -- transient.
  pub put_filter : LevelFilter → Bytes
  pub get_filter : Bytes → Option (LevelFilter × Bytes)
  pub stored_filter : LevelFilter → LevelFilter
  pub get_filter-put_filter :
      (f : LevelFilter) (rest : Bytes)
      → get_filter (put_filter f ++ rest) ≡ some (stored_filter f, rest)
  -- Super::Serialize of a USlotData: its tagged properties
  pub base : Codec (Name × E.Seconds)

-- FSELevelFilter()
abbrev pub empty_level_filter : Engine → LevelFilter
empty_level_filter E = record {
  actor_filter = make_filter E.actor_class;
  load_actor_filter = make_filter E.actor_class;
  store_components = false;
  component_filter = make_filter E.component_class;
  load_component_filter = make_filter E.component_class;
}

module _ {E : Engine} where
  -- FLevelRecord() with a name: FPersistentLevelRecord() and FStreamingLevelRecord(Level)
  abbrev pub empty_level : Name → LevelRecord E
  empty_level name = record {
    name = name;
    override_general_filter = false;
    filter = empty_level_filter E;
    level_script = unset_actor empty_object;
    actors = [];
  }

  -- FLevelRecord::IsValid
  unfoldable pub is_valid_level : LevelRecord E → Bool
  is_valid_level r = not (is_none r.name)

  -- FLevelRecord::CleanRecords
  unfoldable pub clean_level : LevelRecord E → LevelRecord E
  clean_level r = record r { level_script = unset_actor empty_object; actors = [] }

  -- USlotData::CleanRecords
  unfoldable pub clean_records : Bool → SlotData E → SlotData E
  clean_records keep_sublevels d = record d {
    game_instance = empty_object;
    main_level = clean_level d.main_level;
    sub_levels = if keep_sublevels then d.sub_levels else [];
  }

  -- USlotDataTask::GetLevelFilter
  unfoldable pub get_level_filter : SlotData E → LevelRecord E → LevelFilter
  get_level_filter d r = if r.override_general_filter then r.filter else d.general_level_filter

  -- The filter of a record that overrides the general one is baked.
  unfoldable pub bake_level : Reflection → LevelRecord E → LevelRecord E
  bake_level rf r =
      if r.override_general_filter then record r { filter = bake_filter rf r.filter } else r

  unfoldable pub bake_levels : Reflection → List (LevelRecord E) → List (LevelRecord E)
  bake_levels rf [] = []
  bake_levels rf (r ∷ rs) = bake_level rf r ∷ bake_levels rf rs

  -- USlotDataTask::BakeAllFilters
  unfoldable pub bake_all_filters : Reflection → SlotData E → SlotData E
  unfolding bake_levels
  bake_all_filters rf d = record d {
    general_level_filter = bake_filter rf d.general_level_filter;
    main_level = bake_level rf d.main_level;
    sub_levels = bake_levels rf d.sub_levels;
  }

  -- FindByKey of the sub-levels: the first record with the name of a streaming level
  unfoldable pub find_sub_level : List (LevelRecord E) → Name → Option (LevelRecord E)
  find_sub_level [] name = none
  find_sub_level (r ∷ rs) name = if r.name == name then some r else find_sub_level rs name

  -- USlotDataTask::FindLevelRecord; the persistent level is no streaming level.
  unfoldable pub find_level_record : SlotData E → Option Name → Option (LevelRecord E)
  unfolding find_sub_level
  find_level_record d none = some d.main_level
  find_level_record d (some name) = find_sub_level d.sub_levels name

  -- A write through the pointer that FindLevelRecord returns
  unfoldable pub update_sub_level :
      (LevelRecord E → LevelRecord E) → List (LevelRecord E) → Name → List (LevelRecord E)
  update_sub_level f [] name = []
  update_sub_level f (r ∷ rs) name =
      let rest = update_sub_level f rs name in if r.name == name then (f r ∷ rs) else (r ∷ rest)

  unfoldable pub update_level_record :
      (LevelRecord E → LevelRecord E) → SlotData E → Option Name → SlotData E
  unfolding update_sub_level
  update_level_record f d none = record d { main_level = f d.main_level }
  update_level_record f d (some name) = record d {
    sub_levels = update_sub_level f d.sub_levels name;
  }

module _ {E : Engine} (ar : SlotArchives E) where
  -- FLevelRecord::Serialize, saving and loading
  unfoldable pub put_level : LevelRecord E → Bytes
  put_level r =
      ar.records.name.put r.name
      ++ (ar.records.bool.put r.override_general_filter
          ++ ((if r.override_general_filter then ar.put_filter r.filter else [])
              ++ (put_actor ar.records r.level_script
                  ++ put_array (put_actor ar.records) ar.records.count r.actors)))

  get_override : Bool → Bytes → Option (LevelFilter × Bytes)
  get_override overrides rest =
      if overrides then ar.get_filter rest else some (empty_level_filter E, rest)

  unfoldable pub get_level : Bytes → Option (LevelRecord E × Bytes)
  unfolding get_override
  get_level bytes = do
    (name', r1) ← ar.records.name.get bytes
    (overrides, r2) ← ar.records.bool.get r1
    (filter', r3) ← get_override overrides r2
    (script, r4) ← get_actor ar.records r3
    (actors', r5) ← get_array (get_actor ar.records) ar.records.count r4
    some (
      record {
        name = name';
        override_general_filter = overrides;
        filter = filter';
        level_script = script;
        actors = actors';
      },
      r5,
    )

  -- USlotData::Serialize
  unfoldable pub put_slot_data : SlotData E → Bytes
  put_slot_data d =
      ar.base.put (d.map, d.time_seconds)
      ++ (ar.records.bool.put d.store_game_instance
          ++ (put_object ar.records d.game_instance
              ++ (ar.put_filter d.general_level_filter
                  ++ (put_level d.main_level
                      ++ put_array put_level ar.records.count d.sub_levels))))

  unfoldable pub get_slot_data : Bytes → Option (SlotData E × Bytes)
  get_slot_data bytes = do
    ((map', seconds), r1) ← ar.base.get bytes
    (stores, r2) ← ar.records.bool.get r1
    (game, r3) ← get_object ar.records r2
    (general, r4) ← ar.get_filter r3
    (main, r5) ← get_level r4
    (subs, r6) ← get_array get_level ar.records.count r5
    some (
      record {
        map = map';
        time_seconds = seconds;
        store_game_instance = stores;
        game_instance = game;
        general_level_filter = general;
        main_level = main;
        sub_levels = subs;
      },
      r6,
    )
