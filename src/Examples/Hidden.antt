-- ===== src/Examples/Hidden.antt =====
-- A cave that is hidden and shown again.
use save_extension.Base.{◌≡◌, refl, true, false, none, some, [], ◌∷◌}
use save_extension.LevelFilter.{LevelFilter, bake_filter}
use save_extension.Preset.{is_frame_split_load}
use save_extension.World.{Level}
use save_extension.SlotData.{
  LevelRecord, SlotData, get_level_filter, find_level_record, empty_level,
}
use save_extension.Actors.Saved.{saved_actors}
use save_extension.Loader.{deserialize_level_sync}
use save_extension.Loader.State.{not_started}
use save_extension.Streaming.{LevelLoad, level_of, save_level, load_level}
use save_extension.Streaming.Shown.{load_level-save_level}
use save_extension.Examples.Classes.{classes}
use save_extension.Examples.Engines.{numbers}
use save_extension.Examples.Filters.{preset}
use save_extension.Examples.Slots.{slot, an_actor}
use save_extension.Examples.Saves.{hero, actors, island}

abbrev cave_record : LevelRecord numbers
cave_record = record (empty_level "Cave") { actors = an_actor ∷ an_actor ∷ [] }

abbrev cave : Level numbers
cave = record { actors = actors }

abbrev showing : LevelLoad numbers
showing = record {
  load_state = not_started;
  slot_data = none;
  current_data = none;
  frames = record {
    level_actors = some (record hero { tags = [] }) ∷ [];
    current_actors = [];
    actor_index = 0;
    is_done = false;
  };
  ended = none;
}

at_once : is_frame_split_load preset ≡ false
unfolding is_frame_split_load
at_once = refl

cave_found : find_level_record slot (some "Cave") ≡ some cave_record
unfolding find_level_record
cave_found = refl

cave_filter : LevelFilter
cave_filter = bake_filter classes (get_level_filter slot cave_record)

hidden_example :
    (d' : SlotData numbers) × (save_level classes true 3
        (1 ∷ 0 ∷ [])
        island.game_instance
        (some slot)
        "Cave"
        (some cave)
      ≡ some (some d', true))
    × let t =
        load_level classes preset
          (λ k. false)
          "Cave"
          true
          (record showing { slot_data = some d' }) in
      (t.ended ≡ some true)
      × (level_of t
          ≡ deserialize_level_sync
              (bake_filter classes cave_filter)
              (saved_actors cave_filter cave.actors)
              (level_of showing))
unfolding cave_filter
hidden_example =
    load_level-save_level classes preset (λ k. false) true 3 (1 ∷ 0 ∷ []) island.game_instance slot
      "Cave" cave_record cave showing at_once cave_found
