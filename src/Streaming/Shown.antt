-- ===== src/Streaming/Shown.antt =====
-- A level that is hidden and shown again, and a level that is loaded over frames.
use save_extension.Base.{
  ℕ, max, ◌≡◌, refl, ap, ap₂, ◌∙◌, Bool, true, false, Option, some, List, [], ◌∷◌, map, arith,
  Bool-cases, inl, inr, if◌then◌else◌,
}
use mathlib.Core.Option.{map as map_option}
use save_extension.Name.{Name}
use save_extension.Archive.{Each}
use save_extension.ClassFilter.{Reflection}
use save_extension.Preset.{Preset, is_frame_split_load}
use save_extension.LevelFilter.{bake_filter}
use save_extension.Engine.{Engine}
use save_extension.World.{Level, GameInstance}
use save_extension.Records.{ActorRecord}
use save_extension.SlotData.{
  LevelRecord, SlotData, bake_level, clean_level, get_level_filter, find_level_record,
  update_level_record,
}
use save_extension.Actors.{SerializeTask, dump_data}
use save_extension.Actors.Saved.{saved_actors}
use save_extension.Saver.{dump_all}
use save_extension.Saver.Schedule.{IsNew, any_stores, with_game, complete, run_scheduled_tasks_any}
use save_extension.Saver.Partition.{IsFresh}
use save_extension.Saver.Target.{
  same_record_self, find-update, records_for, with_actors, find-dump_all,
}
use save_extension.Saver.Levels.{general-update, fresh-records_for, clean_keeps, filter_of}
use save_extension.Saver.Whole.{sync_step, find-with_game, all-InRange}
use save_extension.Loader.{deserialize_level_sync}
use save_extension.Streaming.{
  bake_filter_of, save_level, LevelLoad, level_of, finish_level, load_baked, load_level,
}

module _ {E : Engine} where
  bake_keeps : (rf : Reflection) (r : LevelRecord E) → (bake_level rf r).name ≡ r.name
  unfolding bake_level
  bake_keeps rf r = elim (Bool-cases r.override_general_filter) [
    | inl own ↦ simp own refl
    | inr general ↦ simp general refl
  ]

  bake_actors : (rf : Reflection) (r : LevelRecord E) → (bake_level rf r).actors ≡ r.actors
  unfolding bake_level
  bake_actors rf r = elim (Bool-cases r.override_general_filter) [
    | inl own ↦ simp own refl
    | inr general ↦ simp general refl
  ]

  own_filter :
      (rf : Reflection) (d d' : SlotData E) (r : LevelRecord E)
      → r.override_general_filter ≡ true
      → get_level_filter d' (bake_level rf r) ≡ bake_filter rf (get_level_filter d r)
  unfolding get_level_filter bake_level
  own_filter rf d d' r own = simp own refl

  general_filter :
      (rf : Reflection) (d : SlotData E) (r : LevelRecord E)
      → r.override_general_filter ≡ false
      → get_level_filter
          (record d { general_level_filter = bake_filter rf d.general_level_filter })
          r
        ≡ bake_filter rf (get_level_filter d r)
  unfolding get_level_filter
  general_filter rf d r general = simp general refl

  -- the record of a level after its filter is baked
  Baked : Reflection → SlotData E → Name → LevelRecord E → SlotData E → Type 0
  Baked rf d name r d' =
      (r' : LevelRecord E) × (find_level_record d' (some name) ≡ some r')
      × (get_level_filter d' r' ≡ bake_filter rf (get_level_filter d r))
      × (r'.actors ≡ r.actors)

  if_cases :
      (P : SlotData E → Type 0) (b : Bool) (x y : SlotData E)
      → (b ≡ true → P x)
      → (b ≡ false → P y)
      → P (if b then x else y)
  if_cases P true x y h k = h refl
  if_cases P false x y h k = k refl

  bake_filter_of_lem :
      (rf : Reflection) (d : SlotData E) (name : Name) (r : LevelRecord E)
      → find_level_record d (some name) ≡ some r
      → Baked rf d name r (bake_filter_of rf d name r)
  unfolding Baked bake_filter_of find_level_record
  bake_filter_of_lem rf d name r found =
      if_cases (Baked rf d name r) r.override_general_filter _ _
        (λ own. (
          bake_level rf r,
          find-update (bake_level rf) d (some name) (some name) (bake_keeps rf)
              ∙ rw (same_record_self (some name), found) refl,
          own_filter rf d _ r own,
          bake_actors rf r,
        ))
        (λ general. (r, found, general_filter rf d r general, refl))

  fresh-IsNew :
      (s : Option Name) (ts : List (SerializeTask E)) → Each (IsFresh s) ts → Each IsNew ts
  fresh-IsNew s [] h = tt
  fresh-IsNew s (t ∷ ts) (h, hs) = (h.0, fresh-IsNew s ts hs)

  general-dump_all :
      (ts : List (SerializeTask E)) (d : SlotData E)
      → (dump_all ts d).general_level_filter ≡ d.general_level_filter
  unfolding dump_all dump_data
  general-dump_all [] d = refl
  general-dump_all (t ∷ ts) d =
      general-dump_all ts (dump_data t d) ∙ general-update _ d t.level_record

  general-with_game :
      (game : Option (GameInstance E)) (b : Bool) (d : SlotData E)
      → (with_game game b d).general_level_filter ≡ d.general_level_filter
  general-with_game game true d = refl
  general-with_game game false d = refl

  same_filter :
      (d : SlotData E) (xs : List (ActorRecord E)) (r : LevelRecord E)
      → get_level_filter d (with_actors xs (clean_level r)) ≡ get_level_filter d r
  unfolding get_level_filter clean_level
  same_filter d xs r = refl

  only_new :
      (xs : List (ActorRecord E)) (r : LevelRecord E) → (with_actors xs (clean_level r)).actors ≡ xs
  unfolding clean_level
  only_new xs r = refl

  -- the record of a level that was saved
  Saved : Reflection → SlotData E → Name → LevelRecord E → Level E → SlotData E → Type 0
  Saved rf d name r level d' =
      let filter = bake_filter rf (get_level_filter d r) in
      (r' : LevelRecord E) × (find_level_record d' (some name) ≡ some r')
      × (get_level_filter d' r' ≡ filter)
      × (r'.actors ≡ saved_actors filter level.actors)

  save_level-Saved :
      (rf : Reflection) (mt : Bool) (workers : ℕ) (order : List ℕ) (game : Option (GameInstance E))
      (d : SlotData E) (name : Name) (r : LevelRecord E) (level : Level E)
      → find_level_record d (some name) ≡ some r
      → (d' : SlotData E) × (save_level rf mt workers order game (some d) name (some level)
          ≡ some (some d', true))
        × Saved rf d name r level d'
  unfolding save_level Saved Baked
  save_level-Saved rf mt workers order game d name r level found =
      let d1 = bake_filter_of rf d name r in
      let (r1, found1, filter1, _) = bake_filter_of_lem rf d name r found in
      let (new, does, fresh, made) =
        sync_step mt level (max 1 workers) (some name) d1 [] r1 (omega arith) found1 in
      let dc = update_level_record clean_level d1 (some name) in
      let run =
        run_scheduled_tasks_any game mt order new dc
          (all-InRange new (fresh-IsNew (some name) new fresh)) in
      let d' = dump_all (map complete new) (with_game game (any_stores new) dc) in
      let xs = saved_actors (bake_filter rf (get_level_filter d r)) level.actors in
      let clean : find_level_record dc (some name) ≡ some (clean_level r1) =
        find-update clean_level d1 (some name) (some name) clean_keeps
        ∙ rw (same_record_self (some name), found1) refl in
      let recs : records_for (some name) new ≡ xs =
        fresh-records_for (some name) (some name) new fresh
        ∙ rw (same_record_self (some name))
            (made ∙ ap (λ f. saved_actors f level.actors) filter1) in
      let finds : find_level_record d' (some name) ≡ some (with_actors xs (clean_level r1)) =
        find-dump_all new (with_game game (any_stores new) dc) (some name)
          (fresh-IsNew (some name) new fresh)
        ∙ ap (map_option (with_actors (records_for (some name) new)))
            (find-with_game game (any_stores new) dc (some name) ∙ clean)
        ∙ ap (λ (ys : List (ActorRecord E)). some (with_actors ys (clean_level r1))) recs in
      let general : d'.general_level_filter ≡ d1.general_level_filter =
        general-dump_all (map complete new) (with_game game (any_stores new) dc)
        ∙ general-with_game game (any_stores new) dc
        ∙ general-update clean_level d1 (some name) in
      (
        d',
        rw found (rw does (rw run refl)),
        (
          with_actors xs (clean_level r1),
          finds,
          filter_of d1 d' (with_actors xs (clean_level r1)) general
              ∙ same_filter d1 xs r1
              ∙ filter1,
          only_new xs r1,
        ),
      )

  load_step :
      (rf : Reflection) (preset : Preset) (over : ℕ → Bool) (d : SlotData E) (name : Name)
      (r : LevelRecord E) (s : LevelLoad E)
      → is_frame_split_load preset ≡ false
      → find_level_record d (some name) ≡ some r
      → let t = load_level rf preset over name true (record s { slot_data = some d }) in
        (t.ended ≡ some true)
        × (level_of t
            ≡ deserialize_level_sync (bake_filter rf (get_level_filter d r)) r.actors (level_of s))
  unfolding load_level load_baked finish_level Baked
  load_step rf preset over d name r s at_once found =
      let (r', found', filter, actors) = bake_filter_of_lem rf d name r found in
      rw found (
        rw found' (
          rw at_once (
            refl,
            ap₂ (λ f (xs : List (ActorRecord E)). deserialize_level_sync f xs (level_of s)) filter
                actors,
          )))

  -- For a slot with a record of a streaming level that is loaded, and a preset that does not split loads
  -- over frames: when the level is hidden, the level saver succeeds, whatever the threads. When the level is
  -- shown again, the level loader succeeds, and its actors are then those of DeserializeLevelSync with
  -- the records of the actors that the filter of the level saved, in their order.
  pub load_level-save_level :
      (rf : Reflection) (preset : Preset) (over : ℕ → Bool) (mt : Bool) (workers : ℕ)
      (order : List ℕ) (game : Option (GameInstance E)) (d : SlotData E) (name : Name)
      (r : LevelRecord E) (level : Level E) (s : LevelLoad E)
      → is_frame_split_load preset ≡ false
      → find_level_record d (some name) ≡ some r
      → let filter = bake_filter rf (get_level_filter d r) in
        (d' : SlotData E) × (save_level rf mt workers order game (some d) name (some level)
          ≡ some (some d', true))
        × let t = load_level rf preset over name true (record s { slot_data = some d' }) in
          (t.ended ≡ some true)
          × (level_of t
              ≡ deserialize_level_sync
                  (bake_filter rf filter)
                  (saved_actors filter level.actors)
                  (level_of s))
  unfolding Saved
  load_level-save_level rf preset over mt workers order game d name r level s at_once found =
      let (d', saves, (r', found', filter, actors)) =
        save_level-Saved rf mt workers order game d name r level found in
      let (ended, loaded) = load_step rf preset over d' name r' s at_once found' in
      (
        d',
        saves,
        (
          ended,
          loaded
              ∙ ap₂
                  (λ f (xs : List (ActorRecord E)).
                    deserialize_level_sync (bake_filter rf f) xs (level_of s))
                  filter actors,
        ),
      )
