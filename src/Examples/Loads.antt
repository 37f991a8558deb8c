-- ===== src/Examples/Loads.antt =====
-- Actors and levels that are loaded.
use save_extension.Base.{
  ℕ, suc, ◌≡◌, refl, true, false, ◌&&◌, none, some, List, [], ◌∷◌, get_elem?, if◌then◌else◌,
}
use save_extension.Base.Sets.{contains, add}
use save_extension.ClassFilter.{is_class_allowed, bake_allowed_classes}
use save_extension.LevelFilter.{
  LevelFilter, bake_filter, should_save_actor, should_save_component, component_stores_transform,
  stores_tags,
}
use save_extension.World.{Actor, StreamingLevel}
use save_extension.Actors.{serialize_components}
use save_extension.Loader.{deserialize_component, deserialize_level_sync}
use save_extension.Loader.Actors.{saved_as, deserialize-serialize_components}
use save_extension.Loader.Frames.{
  Frames, deserialize_async_loop, start_frames, tick_frames, find_next_async_level, next_of,
  index_of,
}
use save_extension.Loader.Frames.InOneGo.{deserialize_async_loop-sync}
use save_extension.Loader.Frames.Sync.{tick_frames_stuck}
use save_extension.Loader.Frames.Levels.{
  DistinctPackages, find_next_async_level_stuck, find_next_async_level_lem,
}
use save_extension.Examples.Classes.{classes}
use save_extension.Examples.Engines.{numbers}
use save_extension.Examples.Slots.{level_filter, an_actor}
use save_extension.Examples.Saves.{body, hero, actors, island}

abbrev filter : LevelFilter
filter = bake_filter classes level_filter

-- The hero as another world has it before loading
abbrev fresh_hero : Actor numbers
fresh_hero = record hero { is_hidden = true; tags = []; transform = 0; props = 0 }

component_example : deserialize_component filter (serialize_components filter (body ∷ [])) body ≡ (
    if should_save_component filter body.is_valid body.class
    then elim (saved_as filter (body ∷ []) body) [
      | none ↦ body
      | some s ↦ record body {
        relative_transform =
            if component_stores_transform (numbers.is_scene body.class) body.component_tags
              && body.is_movable
            then (if component_stores_transform (numbers.is_scene s.class) s.component_tags
                  && s.is_movable
                then s.relative_transform
                else numbers.identity)
            else body.relative_transform;
        component_tags =
            if stores_tags body.component_tags
            then (if stores_tags s.component_tags then s.component_tags else [])
            else body.component_tags;
        props = if numbers.is_primitive body.class then body.props else s.props;
      }
    ]
    else body)
component_example = deserialize-serialize_components filter (body ∷ []) body

in_one_go_example :
    let s =
      deserialize_async_loop filter
        (an_actor ∷ [])
        (λ k. false)
        (start_frames island.current_level) in
    (s.level_actors ≡ (deserialize_level_sync filter (an_actor ∷ []) island.current_level).actors)
    × (s.is_done ≡ true)
in_one_go_example =
    deserialize_async_loop-sync filter (an_actor ∷ []) (λ k. false) (λ k. refl) island.current_level

abbrev one_actor : Frames numbers
one_actor = record {
  level_actors = some hero ∷ [];
  current_actors = 0 ∷ [];
  actor_index = 0;
  is_done = false;
}

hero_saved : should_save_actor filter 1 ≡ true
unfolding should_save_actor bake_filter is_class_allowed bake_allowed_classes contains add
hero_saved = refl

stuck_example :
    let s = tick_frames filter (an_actor ∷ []) ((λ k. true) ∷ (λ k. true) ∷ []) one_actor in
    (s.is_done ≡ false) × (s.actor_index ≡ 0)
stuck_example =
    tick_frames_stuck filter (an_actor ∷ []) ((λ k. true) ∷ (λ k. true) ∷ []) one_actor 0
      (refl, (refl, tt)) refl refl hero_saved

abbrev two_levels : List (StreamingLevel numbers)
two_levels =
    record { package_name = "Cave"; loaded_level = some (record { actors = some hero ∷ [] }) }
    ∷ record { package_name = "Hut"; loaded_level = some (record { actors = actors }) }
    ∷ []

two_levels-DistinctPackages : DistinctPackages two_levels
unfolding index_of
two_levels-DistinctPackages = (refl, (refl, tt))

next_example :
    (find_next_async_level 1 two_levels true none ≡ some (get_elem? two_levels 0))
    × ((i : ℕ) (l : StreamingLevel numbers)
        → get_elem? two_levels i ≡ some l
        → find_next_async_level 1 two_levels true (some l.package_name)
          ≡ some (get_elem? two_levels (suc i)))
next_example =
    find_next_async_level_lem 0 two_levels ((_, refl), ((_, refl), tt)) two_levels-DistinctPackages

behind_cave :
    next_of island.streaming_levels "Cave"
    ≡ some (record { package_name = "Beach"; loaded_level = none })
unfolding next_of index_of
behind_cave = refl

-- Behind the cave lies a level that is not loaded.
next_stuck_example : find_next_async_level 5 island.streaming_levels true (some "Cave") ≡ none
next_stuck_example =
    find_next_async_level_stuck 5 island.streaming_levels "Cave"
      (record { package_name = "Beach"; loaded_level = none }) behind_cave refl
