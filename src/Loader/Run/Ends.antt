-- ===== src/Loader/Run/Ends.antt =====
-- DeserializeLevelASync returns: it comes to each loaded level once.
use save_extension.Base.{
  ℕ, zero, suc, ◌+◌, ◌<◌, ◌≡◌, refl, sym, Bool, true, false, Option, none, some, length, get_elem?,
  arith, string_eq, Option-cases, inl, inr, some_eq,
}
use save_extension.Name.{Name}
use save_extension.Archive.{Each}
use save_extension.Engine.{Engine}
use save_extension.World.{StreamingLevel}
use save_extension.SlotData.{LevelRecord, SlotData, find_level_record}
use save_extension.Loader.Frames.{Frames, start_frames}
use save_extension.Loader.Frames.Levels.{DistinctPackages, IsLoaded}
use save_extension.Loader.State.{Clock, Cursor, LoadRun, LoaderState, actors_of, set_actors}
use save_extension.Loader.Deserialize.{
  Outcome, after_frames, async_loop, async_loop_with, deserialize_level_async,
  finished_deserializing, frames_of, fuel_of, level_async_with, next_level, next_loaded,
}
use save_extension.Loader.Run.Places.{
  At, At-Same, At-behind, At-next, At-range, Same, Same-DistinctPackages, Same-IsLoaded,
  Same-length, set_actors-Same,
}

module _ {E : Engine} {W : Type 0} (r : LoadRun E W) where
  abbrev Ends : Outcome E W → Type 0
  Ends none = ⊥
  Ends (some end) = Unit

  -- the calls for the levels that are left
  abbrev Left : ℕ → Option Name → ℕ → LoaderState E W → Type 0
  Left fuel name p s =
      Each IsLoaded s.world.streaming_levels
      × DistinctPackages s.world.streaming_levels
      × At s.world.streaming_levels name p
      × (length s.world.streaming_levels < fuel + p)

  finished-Ends : (d : SlotData E) (s : LoaderState E W) → Ends (finished_deserializing r d s)
  unfolding finished_deserializing
  finished-Ends d s = tt

  next_loaded-Ends :
      (further : Name → LoaderState E W → Outcome E W) (d : SlotData E) (l : StreamingLevel E)
      (s : LoaderState E W)
      → Ends (further l.package_name s)
      → Ends (next_loaded r further d l.package_name l.loaded_level s)
  unfolding next_loaded
  next_loaded-Ends further d l s h = elim (Option-cases l.loaded_level) [
    | inl unloaded ↦ rw unloaded (finished-Ends d (record s { cursor = none }))
    | inr (level, loaded) ↦ rw loaded h
  ]

  next_level-Ends :
      (further : Name → LoaderState E W → Outcome E W) (d : SlotData E)
      (found : Option (Option (StreamingLevel E))) (at : Option (StreamingLevel E))
      (s : LoaderState E W)
      → found ≡ some at
      → ((l : StreamingLevel E) → at ≡ some l → Ends (further l.package_name s))
      → Ends (next_level r further d found s)
  unfolding next_level
  next_level-Ends further d none at s e h = absurd (ground arith)
  next_level-Ends further d (some none) at s e h = finished-Ends d s
  next_level-Ends further d (some (some l)) at s e h =
      next_loaded-Ends further d l s (h l (sym (some_eq e)))

  after_frames-Ends :
      (further : Name → LoaderState E W → Outcome E W) (d : SlotData E) (done : Bool)
      (name : Option Name) (p : ℕ) (s : LoaderState E W)
      → Each IsLoaded s.world.streaming_levels
      → DistinctPackages s.world.streaming_levels
      → At s.world.streaming_levels name p
      → ((l : StreamingLevel E)
          → get_elem? s.world.streaming_levels p ≡ some l
          → Ends (further l.package_name s))
      → Ends (after_frames r further d done name s)
  unfolding after_frames
  after_frames-Ends further d false name p s all distinct at h = tt
  after_frames-Ends further d true name p s all distinct at h =
      next_level-Ends further d _ (get_elem? s.world.streaming_levels p) s
        (At-next s.world.streaming_levels name p all distinct at) h

  async_loop_with-Ends :
      (further : Name → LoaderState E W → Outcome E W) (clock : Clock) (d : SlotData E) (c : Cursor)
      (p : ℕ) (o : Option (LevelRecord E)) (s : LoaderState E W)
      → Each IsLoaded s.world.streaming_levels
      → DistinctPackages s.world.streaming_levels
      → At s.world.streaming_levels c.level p
      → ((l : StreamingLevel E) (t : LoaderState E W)
          → Same s.world.streaming_levels t.world.streaming_levels
          → get_elem? t.world.streaming_levels p ≡ some l
          → Ends (further l.package_name t))
      → Ends (async_loop_with r further clock d c o s)
  unfolding async_loop_with
  async_loop_with-Ends further clock d c p none s all distinct at h = tt
  async_loop_with-Ends further clock d c p (some level_record) s all distinct at h =
      let frames = frames_of r clock d level_record c s.world in
      let t : LoaderState E W = record s {
        world = set_actors frames.level_actors s.world c.level;
        cursor = some (record c { actor_index = frames.actor_index });
      } in
      let same = set_actors-Same frames.level_actors s.world c.level in
      after_frames-Ends further d frames.is_done c.level p t (Same-IsLoaded _ _ same all)
        (Same-DistinctPackages _ _ same distinct) (At-Same _ _ c.level p same at)
        (λ l found. h l t same found)

  level_async_with-Ends :
      (further : Name → LoaderState E W → Outcome E W) (clock : Clock) (d : SlotData E)
      (name : Option Name) (p : ℕ) (o : Option (LevelRecord E)) (s : LoaderState E W)
      → Each IsLoaded s.world.streaming_levels
      → DistinctPackages s.world.streaming_levels
      → At s.world.streaming_levels name p
      → ((l : StreamingLevel E) (t : LoaderState E W)
          → Same s.world.streaming_levels t.world.streaming_levels
          → get_elem? t.world.streaming_levels p ≡ some l
          → Ends (further l.package_name t))
      → Ends (level_async_with r further clock d name o s)
  unfolding level_async_with async_loop
  level_async_with-Ends further clock d name p none s all distinct at h = tt
  level_async_with-Ends further clock d name p (some _) s all distinct at h =
      let begun : Frames E = start_frames (record { actors = actors_of s.world name }) in
      let c : Cursor = record {
        level = name;
        level_actors = begun.current_actors;
        actor_index = 0;
      } in
      async_loop_with-Ends further clock d c p _ (record s { cursor = some c }) all distinct at h

  level_async-Ends :
      (fuel : ℕ) (clock : Clock) (d : SlotData E) (name : Option Name) (p : ℕ) (s : LoaderState E W)
      → Left fuel name p s
      → Ends (deserialize_level_async r fuel clock d name s)
  unfolding deserialize_level_async
  level_async-Ends zero clock d name p s (all, distinct, at, enough) =
      absurd (omega (arith, At-range s.world.streaming_levels name p at, enough))
  level_async-Ends (suc fuel) clock d name p s (all, distinct, at, enough) =
      level_async_with-Ends _ clock d name p (find_level_record d name) s all distinct at
        (λ l t same found. level_async-Ends fuel clock d (some l.package_name) (suc p) t (
          Same-IsLoaded _ _ same all,
          Same-DistinctPackages _ _ same distinct,
          At-behind t.world.streaming_levels p l found,
          omega (arith, enough, Same-length _ _ same),
        ))

  Ends-some : (o : Outcome E W) → Ends o → (end : LoaderState E W × Option Bool) × (o ≡ some end)
  Ends-some none h = absurd h
  Ends-some (some end) h = (end, refl)

  -- If all streaming levels are loaded and no two have one package, then DeserializeLevelASync, which
  -- calls itself for the next level, returns, from the persistent level and from every streaming level of
  -- the world, whatever the records of the slot and the clock: its calls of itself come to an end after the last level.
  pub deserialize_level_async-ends :
      (clock : Clock) (d : SlotData E) (name : Option Name) (p : ℕ) (s : LoaderState E W)
      → Each IsLoaded s.world.streaming_levels
      → DistinctPackages s.world.streaming_levels
      → At s.world.streaming_levels name p
      → (end : LoaderState E W × Option Bool) × (deserialize_level_async r
            (fuel_of r s)
            clock
            d
            name
            s
          ≡ some end)
  deserialize_level_async-ends clock d name p s all distinct at =
      Ends-some _ (level_async-Ends (fuel_of r s) clock d name p s (all, distinct, at, omega arith))
