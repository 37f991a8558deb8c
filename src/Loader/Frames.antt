-- ===== src/Loader/Frames.antt =====
-- The frame-split part of USlotDataTask_Loader: DeserializeLevelASync, DeserializeASyncLoop and
-- FindNextAsyncLevel.
pub mod Sync
pub mod InOneGo
pub mod Levels
use save_extension.Base.{
  ℕ, zero, suc, ◌+◌, ◌-◌, Bool, true, false, not, ◌&&◌, Option, none, some, List, [], ◌∷◌, length,
  get_elem?, if◌then◌else◌, ◌==◌, string_eq, ltb,
}
use save_extension.Name.{Name}
use save_extension.LevelFilter.{LevelFilter, should_save_actor}
use save_extension.Engine.{Engine}
use save_extension.World.{Actor, Level, StreamingLevel}
use save_extension.Records.{ActorRecord}
use save_extension.Loader.{deserialize_level_actor}

module _ {E : Engine} where
  -- DeserializeLevelASync: the copy of the actors that are valid, each named by its place in the level
  unfoldable pub valid_from : ℕ → List (Option (Actor E)) → List ℕ
  valid_from i [] = []
  valid_from i (none ∷ actors) = valid_from (suc i) actors
  valid_from i (some a ∷ actors) =
      let rest = valid_from (suc i) actors in if a.is_valid then (i ∷ rest) else rest

  -- An actor changes in its place.
  unfoldable pub update_at :
      (Actor E → Actor E) → ℕ → List (Option (Actor E)) → List (Option (Actor E))
  update_at f i [] = []
  update_at f zero (none ∷ actors) = none ∷ actors
  update_at f zero (some a ∷ actors) = some (f a) ∷ actors
  update_at f (suc i) (entry ∷ actors) = entry ∷ update_at f i actors

  -- The actor that a weak pointer points to, if any
  abbrev pub actor_at : List (Option (Actor E)) → ℕ → Option (Actor E)
  actor_at actors i = elim (get_elem? actors i) [ none ↦ none | some entry ↦ entry ]

  -- The condition of the loop
  abbrev pub is_loadable : LevelFilter → Option (Actor E) → Bool
  is_loadable filter none = false
  is_loadable filter (some a) = a.is_valid && should_save_actor filter a.class

module _ (E : Engine) where
  -- CurrentLevelActors, CurrentActorIndex and the actors of the level; `is_done` once the loop has ended
  pub record Frames : Type 0 where
    pub level_actors : List (Option (Actor E))
    pub current_actors : List ℕ
    pub actor_index : ℕ
    pub is_done : Bool

module _ {E : Engine} where
  -- DeserializeASyncLoop of one frame. `over k` says if the time of the frame is used up once the frame has
  -- deserialized its actor number k. Every round passes an actor, so the number of those left is enough.
  unfoldable pub async_rounds :
      LevelFilter → List (ActorRecord E) → (ℕ → Bool) → ℕ → ℕ → Frames E → Frames E
  async_rounds filter records over k zero s = record s { is_done = true }
  async_rounds filter records over k (suc left) s =
      elim (get_elem? s.current_actors s.actor_index) [
        | none ↦ record s { is_done = true }
        | some place ↦ elim (is_loadable filter (actor_at s.level_actors place)) [
          | false ↦
              async_rounds filter records over k left (record s { actor_index = suc s.actor_index })
          | true ↦
              let actors =
                update_at (deserialize_level_actor filter records) place s.level_actors in
              elim (over k) [
                | true ↦ record s { level_actors = actors }
                | false ↦
                    async_rounds filter records over (suc k) left
                      (record s { level_actors = actors; actor_index = suc s.actor_index })
              ]
        ]
      ]

  unfoldable pub deserialize_async_loop :
      LevelFilter → List (ActorRecord E) → (ℕ → Bool) → Frames E → Frames E
  unfolding async_rounds
  deserialize_async_loop filter records over s =
      async_rounds filter records over 0 (length s.current_actors - s.actor_index) s

  -- The ticks while the loader deserializes: each goes on with the loop, until it has ended.
  unfoldable pub tick_frame : LevelFilter → List (ActorRecord E) → (ℕ → Bool) → Frames E → Frames E
  unfolding deserialize_async_loop
  tick_frame filter records over s =
      if s.is_done then s else deserialize_async_loop filter records over s

  unfoldable pub tick_frames :
      LevelFilter → List (ActorRecord E) → List (ℕ → Bool) → Frames E → Frames E
  tick_frames filter records [] s = s
  tick_frames filter records (over ∷ frames) s =
      tick_frames filter records frames (tick_frame filter records over s)

  -- DeserializeLevelASync of a level, up to its first frame
  unfoldable pub start_frames : Level E → Frames E
  start_frames level = record {
    level_actors = level.actors;
    current_actors = valid_from 0 level.actors;
    actor_index = 0;
    is_done = false;
  }

  -- IndexOfByKey; a streaming level is known by its package.
  unfoldable pub index_of : List (StreamingLevel E) → Name → Option ℕ
  index_of [] name = none
  index_of (l ∷ ls) name =
      let rest = index_of ls name in
      if l.package_name == name then some 0 else elim rest [ none ↦ none | some i ↦ some (suc i) ]

  -- The level behind the current one
  unfoldable pub next_of : List (StreamingLevel E) → Name → Option (StreamingLevel E)
  next_of levels name = elim (index_of levels name) [
    | none ↦ none
    | some i ↦ get_elem? levels (suc i)
  ]

  -- FindNextAsyncLevel, with fuel for its call of itself; `none` is too little. CurrentSLevel is null for the
  -- persistent level.
  unfoldable pub find_next_async_level :
      ℕ → List (StreamingLevel E) → Bool → Option Name → Option (Option (StreamingLevel E))
  unfolding next_of
  find_next_async_level zero levels level_is_valid current = none
  find_next_async_level (suc fuel) levels level_is_valid current =
      let again = find_next_async_level fuel levels level_is_valid current in
      elim current [
        | none ↦ if level_is_valid then some (get_elem? levels 0) else some none
        | some name ↦ elim (if level_is_valid then next_of levels name else none) [
          | none ↦ some none
          | some l ↦ elim l.loaded_level [ none ↦ again | some _ ↦ some (some l) ]
        ]
      ]
