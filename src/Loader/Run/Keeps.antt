-- ===== src/Loader/Run/Keeps.antt =====
-- What the steps of deserializing leave alone.
use save_extension.Base.{
  ℕ, zero, suc, ◌≡◌, refl, ◌∙◌, Bool, true, false, Option, none, some, List, string_eq, subst,
}
use save_extension.Name.{Name}
use save_extension.Engine.{Engine}
use save_extension.World.{Actor, Level, StreamingLevel, World}
use save_extension.SlotData.{LevelRecord, SlotData, clean_records, find_level_record}
use save_extension.Loader.Frames.{Frames, start_frames}
use save_extension.Loader.State.{
  Clock, Cursor, LoadRun, LoaderState, actors_of, deserialize_world, set_actors,
}
use save_extension.Loader.Deserialize.{
  Outcome, after_frames, async_loop, async_loop_with, deserialize_level_async, deserialize_prepared,
  finished_deserializing, frames_of, fuel_of, level_async_with, next_level, next_loaded,
}

module _ {E : Engine} {W : Type 0} (r : LoadRun E W) where
  -- What becomes of the data of the slot: they stay while deserializing goes on, and where it succeeds
  -- the manager has them, without the records of the persistent level.
  abbrev pub Slot : SlotData E → LoaderState E W → LoaderState E W → Option Bool → Type 0
  Slot d s t none = t.slot_data ≡ s.slot_data
  Slot d s t (some false) = Unit
  Slot d s t (some true) = t.current_data ≡ some (clean_records true d)

  -- What deserializing leaves alone; it succeeds with the data of the slot.
  abbrev pub Keeps : SlotData E → LoaderState E W → LoaderState E W → Option Bool → Type 0
  Keeps d s t ended =
      (t.new_info ≡ s.new_info)
      × (t.current_info ≡ s.current_info)
      × (t.world.map_name ≡ s.world.map_name)
      × (t.load_state ≡ s.load_state)
      × Slot d s t ended

  -- A call that does not crash has this result.
  abbrev pub Gives : (LoaderState E W → Option Bool → Type 0) → Outcome E W → Type 0
  Gives P none = Unit
  Gives P (some (t, ended)) = P t ended

  pub Gives-some :
      (P : LoaderState E W → Option Bool → Type 0) (o : Outcome E W) (t : LoaderState E W)
      (ended : Option Bool)
      → Gives P o
      → o ≡ some (t, ended)
      → P t ended
  Gives-some P o t ended g e = subst (Gives P) e g

  pub map-set_actors :
      (actors : List (Option (Actor E))) (w : World E) (name : Option Name)
      → (set_actors actors w name).map_name ≡ w.map_name
  unfolding set_actors
  map-set_actors actors w none = refl
  map-set_actors actors w (some name) = refl

  abbrev pub Further : Type 0
  Further = Name → LoaderState E W → Outcome E W

  abbrev pub FurtherKeeps : SlotData E → Further → Type 0
  FurtherKeeps d further = (name : Name) (t : LoaderState E W) → Gives (Keeps d t) (further name t)

  -- What keeps the info and the map in between is left out.
  kept_before :
      (d : SlotData E) (s t u : LoaderState E W) (ended : Option Bool)
      → t.slot_data ≡ s.slot_data
      → Slot d t u ended
      → Slot d s u ended
  kept_before d s t u none same g = g ∙ same
  kept_before d s t u (some false) same g = tt
  kept_before d s t u (some true) same g = g

  pub from_before :
      (d : SlotData E) (s t : LoaderState E W) (o : Outcome E W)
      → t.new_info ≡ s.new_info
      → t.current_info ≡ s.current_info
      → t.world.map_name ≡ s.world.map_name
      → t.load_state ≡ s.load_state
      → t.slot_data ≡ s.slot_data
      → Gives (Keeps d t) o
      → Gives (Keeps d s) o
  from_before d s t none a b c k l g = tt
  from_before d s t (some (u, ended)) a b c k l (e, f, h, m, slot) =
      (e ∙ a, f ∙ b, h ∙ c, m ∙ k, kept_before d s t u ended l slot)

  pub finished-Keeps :
      (d : SlotData E) (s : LoaderState E W) → Gives (Keeps d s) (finished_deserializing r d s)
  unfolding finished_deserializing
  finished-Keeps d s = (refl, refl, refl, refl, refl)

  pub next_loaded-Keeps :
      (further : Further) (d : SlotData E) (name : Name) (level : Option (Level E))
      (s : LoaderState E W)
      → FurtherKeeps d further
      → Gives (Keeps d s) (next_loaded r further d name level s)
  unfolding next_loaded finished_deserializing
  next_loaded-Keeps further d name none s keep = (refl, refl, refl, refl, refl)
  next_loaded-Keeps further d name (some level) s keep = keep name s

  pub next_level-Keeps :
      (further : Further) (d : SlotData E) (found : Option (Option (StreamingLevel E)))
      (s : LoaderState E W)
      → FurtherKeeps d further
      → Gives (Keeps d s) (next_level r further d found s)
  unfolding next_level
  next_level-Keeps further d none s keep = tt
  next_level-Keeps further d (some none) s keep = finished-Keeps d s
  next_level-Keeps further d (some (some l)) s keep =
      next_loaded-Keeps further d l.package_name l.loaded_level s keep

  pub after_frames-Keeps :
      (further : Further) (d : SlotData E) (done : Bool) (name : Option Name) (s : LoaderState E W)
      → FurtherKeeps d further
      → Gives (Keeps d s) (after_frames r further d done name s)
  unfolding after_frames
  after_frames-Keeps further d false name s keep = (refl, refl, refl, refl, refl)
  after_frames-Keeps further d true name s keep = next_level-Keeps further d _ s keep

  pub async_loop_with-Keeps :
      (further : Further) (clock : Clock) (d : SlotData E) (c : Cursor)
      (found : Option (LevelRecord E)) (s : LoaderState E W)
      → FurtherKeeps d further
      → Gives (Keeps d s) (async_loop_with r further clock d c found s)
  unfolding async_loop_with
  async_loop_with-Keeps further clock d c none s keep = (refl, refl, refl, refl, refl)
  async_loop_with-Keeps further clock d c (some level_record) s keep =
      let frames = frames_of r clock d level_record c s.world in
      let s1 : LoaderState E W = record s {
        world = set_actors frames.level_actors s.world c.level;
        cursor = some (record c { actor_index = frames.actor_index });
      } in
      from_before d s s1 _ refl refl (map-set_actors frames.level_actors s.world c.level) refl refl
        (after_frames-Keeps further d frames.is_done c.level s1 keep)

  pub async_loop-Keeps :
      (further : Further) (clock : Clock) (d : SlotData E) (c : Cursor) (s : LoaderState E W)
      → FurtherKeeps d further
      → Gives (Keeps d s) (async_loop r further clock d c s)
  unfolding async_loop
  async_loop-Keeps further clock d c s keep =
      async_loop_with-Keeps further clock d c (find_level_record d c.level) s keep

  pub level_async_with-Keeps :
      (further : Further) (clock : Clock) (d : SlotData E) (name : Option Name)
      (found : Option (LevelRecord E)) (s : LoaderState E W)
      → FurtherKeeps d further
      → Gives (Keeps d s) (level_async_with r further clock d name found s)
  unfolding level_async_with
  level_async_with-Keeps further clock d name none s keep = (refl, refl, refl, refl, tt)
  level_async_with-Keeps further clock d name (some level_record) s keep =
      let begun : Frames E = start_frames (record { actors = actors_of s.world name }) in
      let c : Cursor = record {
        level = name;
        level_actors = begun.current_actors;
        actor_index = 0;
      } in
      let s1 : LoaderState E W = record s { cursor = some c } in
      from_before d s s1 _ refl refl refl refl refl (async_loop-Keeps further clock d c s1 keep)

  pub level_async-Keeps :
      (fuel : ℕ) (clock : Clock) (d : SlotData E) (name : Option Name) (s : LoaderState E W)
      → Gives (Keeps d s) (deserialize_level_async r fuel clock d name s)
  unfolding deserialize_level_async
  level_async-Keeps zero clock d name s = tt
  level_async-Keeps (suc fuel) clock d name s =
      level_async_with-Keeps (λ l. deserialize_level_async r fuel clock d (some l)) clock d name
        (find_level_record d name) s (λ l t. level_async-Keeps fuel clock d (some l) t)

  pub prepared-Keeps :
      (split : Bool) (clock : Clock) (d : SlotData E) (w : World E) (s : LoaderState E W)
      → w.map_name ≡ s.world.map_name
      → Gives
          (Keeps d (record s { slot_data = some d }))
          (deserialize_prepared r split clock (some (d, w)) s)
  unfolding deserialize_prepared finished_deserializing deserialize_world
  prepared-Keeps true clock d w s same =
      let s1 : LoaderState E W = record s { world = w; slot_data = some d } in
      from_before d (record s { slot_data = some d }) s1 _ refl refl same refl refl
        (level_async-Keeps (fuel_of r s) clock d none s1)
  prepared-Keeps false clock d w s same = (refl, refl, same, refl, refl)
