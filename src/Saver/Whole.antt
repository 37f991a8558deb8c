-- ===== src/Saver/Whole.antt =====
-- SerializeWorld as a whole.
use save_extension.Base.{
  ℕ, ◌<◌, ◌≡◌, refl, sym, ap, ◌∙◌, Bool, true, false, Option, none, some, List, [], ◌∷◌, ◌++◌,
  append-nil, arith, Bool-cases, Option-cases, inl, inr,
}
use mathlib.Core.Option.{map as map_option}
use mathlib.Core.List.{flat_map}
use save_extension.Name.{Name}
use save_extension.Archive.{Each}
use save_extension.ClassFilter.{Reflection}
use save_extension.Engine.{Engine}
use save_extension.World.{Level, StreamingLevel, World, GameInstance}
use save_extension.SlotData.{
  LevelRecord, SlotData, empty_level, bake_level, clean_level, get_level_filter, find_level_record,
  update_level_record,
}
use save_extension.Actors.{SerializeTask}
use save_extension.Actors.Saved.{saved_actors}
use save_extension.Saver.{
  assigned_tasks, serialize_level_sync, serialize_levels, prepare_all_levels, serialize_world,
  tasks_per_level,
}
use save_extension.Saver.Schedule.{
  InRange, records_of, IsNew, any_stores, with_game, run_scheduled_tasks_any,
}
use save_extension.Saver.Partition.{IsFresh, split_actors_lem}
use save_extension.Saver.Target.{
  same_record, same_record_comm, same_record_self, with_none, find-update, records_for, with_actors,
  find-dump_all,
}
use save_extension.Saver.Prepare.{or_else, prepare_all_levels_lem}
use save_extension.Saver.Levels.{
  saved_level, loaded, level_at, Distinct, HasRecords, Collected, collect, new_records,
  general-update, filter_of, filter-clean_level, clean_keeps,
}

or_there : {A : Type 0} (o : Option A) (a : A) → (r : A) × (or_else o (some a) ≡ some r)
or_there none a = (a, refl)
or_there (some b) a = (b, refl)

module _ {E : Engine} where
  -- What SerializeLevelSync adds for a level.
  pub sync_step :
      (mt : Bool) (level : Level E) (assigned : ℕ) (s : Option Name) (d : SlotData E)
      (ts : List (SerializeTask E)) (r : LevelRecord E)
      → 0 < assigned
      → find_level_record d s ≡ some r
      → (new : List (SerializeTask E)) × (serialize_level_sync mt level assigned s (d, ts)
          ≡ some (update_level_record clean_level d s, ts ++ new))
        × Each (IsFresh s) new
        × (flat_map records_of new ≡ saved_actors (get_level_filter d r) level.actors)
  unfolding serialize_level_sync
  sync_step mt level assigned s d ts r h found =
      let positive : 0 < assigned_tasks mt assigned = ground arith in
      let d1 = update_level_record clean_level d s in
      let (made, fresh, _) =
        split_actors_lem level.actors (assigned_tasks mt assigned) d.store_game_instance s d1
          (clean_level r) positive in
      let same_filter : get_level_filter d1 (clean_level r) ≡ get_level_filter d r =
        filter_of d d1 (clean_level r) (general-update clean_level d s) ∙ filter-clean_level d r in
      (_, rw found refl, fresh, made ∙ ap (λ f. saved_actors f level.actors) same_filter)

  -- Writing one level leaves the other levels their records.
  records_left :
      (s : Option Name) (d : SlotData E) (ls : List (Option Name × Level E))
      → level_at ls s ≡ none
      → HasRecords d ls
      → HasRecords (update_level_record clean_level d s) ls
  unfolding level_at
  records_left s d [] only h = tt
  records_left s d ((t, l) ∷ ls) only ((r, found), h) = elim (Bool-cases (same_record t s)) [
    | inl same ↦ cc (rw same at only)
    | inr other ↦ (
      (r, find-update clean_level d s t clean_keeps ∙ rw (same_record_comm s t, other) found),
      records_left s d ls (rw other at only) h,
    )
  ]

  only_streaming : (ls : List (StreamingLevel E)) → level_at (loaded ls) none ≡ none
  unfolding level_at loaded
  only_streaming [] = refl
  only_streaming (l ∷ ls) = elim (Option-cases l.loaded_level) [
    | inl unloaded ↦ simp unloaded (only_streaming ls)
    | inr (level, is_loaded) ↦ simp is_loaded (only_streaming ls)
  ]

  levels_lem :
      (mt : Bool) (assigned : ℕ) (ls : List (StreamingLevel E)) (d : SlotData E)
      (ts : List (SerializeTask E))
      → 0 < assigned
      → Distinct (loaded ls)
      → HasRecords d (loaded ls)
      → (d' : SlotData E) × (ts' : List (SerializeTask E)) × (serialize_levels mt assigned ls
            (d, ts)
          ≡ some (d', ts'))
        × Collected (loaded ls) d ts d' ts'
  unfolding serialize_levels loaded level_at
  levels_lem mt assigned [] d ts h _ _ =
      (d, ts, refl, ((λ t. (refl, sym (append-nil _))), refl, λ new. new))
  levels_lem mt assigned (l ∷ ls) d ts h distinct known = elim (Option-cases l.loaded_level) [
    | inl unloaded ↦
        simp unloaded
          (levels_lem mt assigned ls d ts h (simp unloaded at distinct) (simp unloaded at known))
    | inr (level, is_loaded) ↦
        let (only, distinct') = simp is_loaded at distinct in
        let ((r, found), known') = simp is_loaded at known in
        let (new, e, fresh, made) =
          sync_step mt level assigned (some l.package_name) d ts r h found in
        let (d', ts', e', rest) =
          levels_lem mt assigned ls (update_level_record clean_level d (some l.package_name))
            (ts ++ new) h distinct'
            (records_left (some l.package_name) d (loaded ls) only known') in
        simp is_loaded (
          d',
          ts',
          rw e e',
          collect (some l.package_name) level (loaded ls) d r ts new d' ts' only found fresh made
              rest,
        )
  ]

  -- Every level that is in a list has a record, if every name that the list knows has one.
  all_records :
      (d : SlotData E) (ls : List (Option Name × Level E))
      → ((t : Option Name) (l : Level E)
          → level_at ls t ≡ some l
          → (r : LevelRecord E) × (find_level_record d t ≡ some r))
      → HasRecords d ls
  unfolding level_at
  all_records d [] h = tt
  all_records d ((t, l) ∷ ls) h = (
    h t l (rw (same_record_self t) refl),
    all_records d ls (λ u l' e. elim (Bool-cases (same_record t u)) [
      | inl same ↦ h u l (rw same refl)
      | inr other ↦ h u l' (rw other e)
    ]),
  )

  -- After PrepareAllLevels every level that is loaded has a record.
  prepared_records :
      (rf : Reflection) (ls : List (StreamingLevel E)) (d : SlotData E) (current : Level E)
      → HasRecords (prepare_all_levels rf ls d) ((none, current) ∷ loaded ls)
  unfolding level_at find_level_record
  prepared_records rf ls d current =
      all_records (prepare_all_levels rf ls d) ((none, current) ∷ loaded ls) known
    where
      known :
          (t : Option Name) (l : Level E)
          → level_at ((none, current) ∷ loaded ls) t ≡ some l
          → (r : LevelRecord E) × (find_level_record (prepare_all_levels rf ls d) t ≡ some r)
      known none l e = (_, prepare_all_levels_lem rf ls d none)
      known (some name) l e =
          let (r, made) =
            or_there (map_option (bake_level rf) (find_level_record d (some name)))
              (empty_level name) in
          (r, prepare_all_levels_lem rf ls d (some name) ∙ rw e made)

  pub find-with_game :
      (game : Option (GameInstance E)) (b : Bool) (d : SlotData E) (t : Option Name)
      → find_level_record (with_game game b d) t ≡ find_level_record d t
  unfolding find_level_record
  find-with_game game true d none = refl
  find-with_game game true d (some a) = refl
  find-with_game game false d t = refl

  pub all-InRange : (ts : List (SerializeTask E)) → Each IsNew ts → Each InRange ts
  all-InRange [] h = tt
  all-InRange (t ∷ ts) ((_, _, _, range), hs) = (range, all-InRange ts hs)

  -- The record of a level after its tasks are dumped.
  dumped :
      (p d' : SlotData E) (ls : List (Option Name × Level E)) (ts' : List (SerializeTask E))
      (t : Option Name)
      → Collected ls p [] d' ts'
      → map_option (with_actors (records_for t ts')) (find_level_record d' t)
        ≡ elim (level_at ls t) [
          | none ↦ find_level_record p t
          | some level ↦ map_option (λ r. saved_level p r level) (find_level_record p t)
        ]
  unfolding new_records saved_level records_for clean_level
  dumped p d' ls ts' t (each, _, _) =
      let (finds, records) = each t in
      elim (Option-cases (level_at ls t)) [
        | inl absent ↦ rw (absent, finds, records, absent) (with_none _)
        | inr (level, present) ↦ elim (Option-cases (find_level_record p t)) [
          | inl missing ↦ rw (present, finds, present, missing) refl
          | inr (r, found) ↦ rw (present, finds, records, present, new_records, found) refl
        ]
      ]

  -- With authority, and if no two loaded streaming levels have one name, SerializeWorld succeeds for every
  -- number of threads and every order in which they do the tasks. It leaves in the record of every loaded
  -- level the records of the actors that the level's filter saves, in their order, and no level script; the
  -- records of all other levels are those that PrepareAllLevels left.
  pub serialize_world_lem :
      (rf : Reflection) (multithreaded : Bool) (workers : ℕ) (order : List ℕ) (w : World E)
      (d : SlotData E)
      → w.has_authority ≡ true
      → Distinct (loaded w.streaming_levels)
      → let p = prepare_all_levels rf w.streaming_levels d in
        (d' : SlotData E) × (serialize_world rf multithreaded workers order w d ≡ some d')
        × ((t : Option Name)
            → find_level_record d' t
              ≡ elim (level_at ((none, w.current_level) ∷ loaded w.streaming_levels) t) [
                | none ↦ find_level_record p t
                | some level ↦ map_option (λ r. saved_level p r level) (find_level_record p t)
              ])
  unfolding serialize_world
  serialize_world_lem rf mt workers order w d authority distinct =
      let ls = w.streaming_levels in
      let p = prepare_all_levels rf ls d in
      let assigned = tasks_per_level workers w in
      let positive : 0 < assigned = omega arith in
      let ((r, found), known) = prepared_records rf ls d w.current_level in
      let (new, e, fresh, made) =
        sync_step mt w.current_level assigned none p [] r positive found in
      let (dc, ts, e', rest) =
        levels_lem mt assigned ls (update_level_record clean_level p none) new positive distinct
          (records_left none p (loaded ls) (only_streaming ls) known) in
      let all =
        collect none w.current_level (loaded ls) p r [] new dc ts (only_streaming ls) found fresh
          made rest in
      let in_range : Each InRange ts = all-InRange ts (all.2 tt) in
      (
        _,
        simp (authority)
            (rw (e, e') (run_scheduled_tasks_any w.game_instance mt order ts dc in_range)),
        λ t.
            find-dump_all ts _ t (all.2 tt)
            ∙ ap (map_option (with_actors (records_for t ts)))
                (find-with_game w.game_instance (any_stores ts) dc t)
            ∙ dumped p dc ((none, w.current_level) ∷ loaded ls) ts t all,
      )
