-- ===== src/SlotData/Format.antt =====
-- Saving and loading the records of a slot.
use save_extension.Base.{
  ◌≡◌, some, List, ◌++◌, append_assoc, if◌then◌else◌, map, Bool-cases, inl, inr,
}
use save_extension.Archive.{Bytes, Each, put_array, get_array, get_array-put_array}
use save_extension.Engine.{Engine}
use save_extension.Records.Object.{IsWritable, stored_object, get_object-put_object}
use save_extension.Records.Actor.{IsWritableActor, stored_actor, get_actor-put_actor}
use save_extension.Records.{ActorRecord, put_actor, get_actor}
use save_extension.SlotData.{
  LevelRecord, SlotData, SlotArchives, empty_level_filter, put_level, get_level, get_override,
  put_slot_data, get_slot_data,
}

module _ {E : Engine} (ar : SlotArchives E) where
  abbrev pub IsWritableLevel : LevelRecord E → Type 0
  IsWritableLevel r =
      IsWritableActor ar.records r.level_script × Each (IsWritableActor ar.records) r.actors

  abbrev pub IsWritableSlot : SlotData E → Type 0
  IsWritableSlot d =
      IsWritable d.game_instance × IsWritableLevel d.main_level × Each IsWritableLevel d.sub_levels

  -- What is loaded of the record of a level: the filter only if it overrides the general one.
  unfoldable pub stored_level : LevelRecord E → LevelRecord E
  stored_level r = record r {
    filter = if r.override_general_filter then ar.stored_filter r.filter else empty_level_filter E;
    level_script = stored_actor ar.records r.level_script;
    actors = map (stored_actor ar.records) r.actors;
  }

  unfoldable pub stored_slot : SlotData E → SlotData E
  stored_slot d = record d {
    game_instance = stored_object d.game_instance;
    general_level_filter = ar.stored_filter d.general_level_filter;
    main_level = stored_level d.main_level;
    sub_levels = map stored_level d.sub_levels;
  }

  actors :
      (xs : List (ActorRecord E)) (rest : Bytes)
      → Each (IsWritableActor ar.records) xs
      → get_array
          (get_actor ar.records)
          ar.records.count
          (put_array (put_actor ar.records) ar.records.count xs ++ rest)
        ≡ some (map (stored_actor ar.records) xs, rest)
  actors xs rest w =
      get_array-put_array ar.records.count (put_actor ar.records) (get_actor ar.records)
        (stored_actor ar.records) (IsWritableActor ar.records) (get_actor-put_actor ar.records) xs
        rest w

  get_level-put_level :
      (r : LevelRecord E) (rest : Bytes)
      → IsWritableLevel r
      → get_level ar (put_level ar r ++ rest) ≡ some (stored_level r, rest)
  unfolding get_level put_level stored_level
  get_level-put_level r rest w = elim (Bool-cases r.override_general_filter) [
    | inl own ↦ simp (
      append_assoc,
      ar.records.name.get-put,
      ar.records.bool.get-put,
      own,
      get_override,
      ar.get_filter-put_filter,
      get_actor-put_actor ar.records r.level_script _ w.0,
      actors r.actors rest w.1,
    )
    | inr general ↦ simp (
      append_assoc,
      ar.records.name.get-put,
      ar.records.bool.get-put,
      general,
      get_override,
      get_actor-put_actor ar.records r.level_script _ w.0,
      actors r.actors rest w.1,
    )
  ]

  levels :
      (xs : List (LevelRecord E)) (rest : Bytes)
      → Each IsWritableLevel xs
      → get_array
          (get_level ar)
          ar.records.count
          (put_array (put_level ar) ar.records.count xs ++ rest)
        ≡ some (map stored_level xs, rest)
  levels xs rest w =
      get_array-put_array ar.records.count (put_level ar) (get_level ar) stored_level
        IsWritableLevel get_level-put_level xs rest w

  -- What is loaded from saved slot data is that data, and the archive goes on right behind it: its map,
  -- its time, the record of the game instance, the general filter, and every level with its name, its
  -- script and its actors in their order, each as its own record is loaded. A level that does not
  -- override the general filter gets an empty filter. Every record without a name must have no class.
  pub get_slot_data-put_slot_data :
      (d : SlotData E) (rest : Bytes)
      → IsWritableSlot d
      → get_slot_data ar (put_slot_data ar d ++ rest) ≡ some (stored_slot d, rest)
  unfolding get_slot_data put_slot_data stored_slot
  get_slot_data-put_slot_data d rest w = simp (
    append_assoc,
    ar.base.get-put,
    ar.records.bool.get-put,
    get_object-put_object ar.records d.game_instance _ w.0,
    ar.get_filter-put_filter,
    get_level-put_level d.main_level _ w.1,
    levels d.sub_levels rest w.2,
  )
