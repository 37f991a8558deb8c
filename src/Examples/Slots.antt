-- ===== src/Examples/Slots.antt =====
-- Records and slot data at concrete inputs.
use save_extension.Base.{◌≡◌, refl, true, false, some, [], ◌∷◌, ◌++◌, arith}
use save_extension.Records.{
  ObjectRecord, ComponentRecord, ActorRecord, put_actor, get_actor, unset_actor,
}
use save_extension.Records.Actor.{IsWritableActor, stored_actor, get_actor-put_actor}
use save_extension.LevelFilter.{LevelFilter}
use save_extension.SlotData.{
  SlotData, empty_level, empty_level_filter, put_slot_data, get_slot_data,
}
use save_extension.SlotData.Format.{IsWritableSlot, stored_slot, get_slot_data-put_slot_data}
use save_extension.Examples.Engines.{numbers, archives, slot_archives}
use save_extension.Examples.Filters.{actors_only}

abbrev pub object_named : ObjectRecord
object_named = record { name = "hero"; class = some 1; data_bytes = 9 ∷ []; tags = "team" ∷ [] }

abbrev a_component : ComponentRecord numbers
a_component = record {
  object = record object_named { name = "body"; class = some 3 };
  transform = 12;
}

abbrev pub an_actor : ActorRecord numbers
an_actor = record {
  object = object_named;
  hidden_in_game = true;
  is_procedural = false;
  transform = 5;
  linear_velocity = 2;
  angular_velocity = 0;
  component_records = a_component ∷ [];
}

an_actor-IsWritable : IsWritableActor archives an_actor
an_actor-IsWritable = (λ unnamed. ground arith, ((λ unnamed. ground arith), tt))

actor_record_example :
    get_actor archives (put_actor archives an_actor ++ 1 ∷ [])
    ≡ some (stored_actor archives an_actor, 1 ∷ [])
actor_record_example = get_actor-put_actor archives an_actor (1 ∷ []) an_actor-IsWritable

abbrev pub level_filter : LevelFilter
level_filter = record (empty_level_filter numbers) {
  actor_filter = actors_only;
  store_components = true;
  component_filter = actors_only;
}

abbrev pub slot : SlotData numbers
slot = record {
  map = "Island";
  time_seconds = 60;
  store_game_instance = true;
  game_instance = record object_named { name = "game" };
  general_level_filter = level_filter;
  main_level = record (empty_level "Persistent") { actors = an_actor ∷ [] };
  sub_levels = record (empty_level "Cave") { actors = an_actor ∷ an_actor ∷ [] } ∷ [];
}

slot-IsWritable : IsWritableSlot slot_archives slot
unfolding unset_actor
slot-IsWritable = (
  λ unnamed. ground arith,
  ((λ _. refl, tt), (an_actor-IsWritable, tt)),
  (((λ _. refl, tt), (an_actor-IsWritable, (an_actor-IsWritable, tt))), tt),
)

slot_example :
    get_slot_data slot_archives (put_slot_data slot_archives slot ++ [])
    ≡ some (stored_slot slot_archives slot, [])
slot_example = get_slot_data-put_slot_data slot_archives slot [] slot-IsWritable
