-- ===== src/Loader/Run/Phases.antt =====
-- What holds of a load in each of its states.
use save_extension.Base.{
  ◌≡◌, refl, sym, ap, ◌∙◌, Bool, true, false, Option, none, some, ◌==◌, string_eq, inl, inr,
  Bool-cases, ◌⊎◌, subst,
}
use save_extension.Base.Int.{ℤ}
use save_extension.Base.Sets.{eq_true}
use save_extension.Preset.{is_mt_files_load, is_frame_split_load}
use save_extension.Engine.{Engine}
use save_extension.World.{World}
use save_extension.SlotData.{SlotData, bake_all_filters}
use save_extension.Infos.{load_info}
use save_extension.SlotInfo.{SlotInfo}
use save_extension.Loader.Prepare.{prepare_loaded_levels}
use save_extension.Loader.State.{
  Clock, LoadRun, LoadState, LoadTask, LoaderState, before_deserialize, deserializing,
  get_loaded_data, is_data_loaded, loaded, loading_map, no_task, not_started, restoring_actors,
  running, waiting_for_data,
}
use save_extension.Loader.Deserialize.{Outcome, deserialize_prepared}
use save_extension.Loader.Run.{
  start_deserialization, start_from, start_in_map, start_loading_data, start_with, when_loaded,
}
use save_extension.Base.{Option-cases}
use save_extension.SlotData.{clean_records}
use save_extension.Loader.Run.Outline.{outline, Prepares, prepare_loaded_levels-Prepares}
use save_extension.Loader.Run.Keeps.{Keeps, Gives, prepared-Keeps}
use save_extension.Loader.Run.Source.{
  InfoIn, DataIn, TaskOf, Reads, load_info-InfoIn, start_load_task-Reads,
}

module _ {E : Engine} {W : Type 0} (r : LoadRun E W) where
  -- The manager has the info and the data that it had.
  abbrev pub Untouched : LoaderState E W → LoaderState E W → Type 0
  Untouched s0 s = (s.current_info ≡ s0.current_info) × (s.current_data ≡ s0.current_data)

  -- Before the records are applied: what was loaded is in the file.
  abbrev pub Before : LoaderState E W → LoaderState E W → Type 0
  Before s0 s = Untouched s0 s × (s.disk ≡ s0.disk) × TaskOf r s0.disk s.load_task

  -- The world is the map of the info, unless another map was opened.
  abbrev pub AtMap : Bool → World E → SlotInfo → Type 0
  AtMap moved w info = (moved ≡ true) ⊎ (w.map_name ≡ info.map)

  -- The new info is the one in the file.
  abbrev pub Found : LoaderState E W → LoaderState E W → Type 0
  Found s0 s = (info : SlotInfo) × (s.new_info ≡ some info) × InfoIn r s0.disk info

  abbrev pub InMap : LoaderState E W → Bool → LoaderState E W → Type 0
  InMap s0 moved s =
      (info : SlotInfo) × (s.new_info ≡ some info)
      × InfoIn r s0.disk info
      × AtMap moved s.world info

  -- The records are applied: the manager's info is the one in the file, with the date of the load.
  abbrev pub Applied : LoaderState E W → Bool → LoaderState E W → Type 0
  Applied s0 moved s =
      (info : SlotInfo) × (date : ℤ) × InfoIn r s0.disk info
      × (s.new_info ≡ some (record info { load_date = date }))
      × (s.current_info ≡ some (record info { load_date = date }))
      × AtMap moved s.world info

  -- Slot data that are those in the file, with their filters baked, but for the records of actors
  abbrev pub FromFile : LoaderState E W → SlotData E → Type 0
  FromFile s0 d =
      (d0 : SlotData E) × DataIn r s0.disk d0
      × (outline d ≡ outline (bake_all_filters r.reflection d0))

  abbrev pub Going : LoaderState E W → LoaderState E W → Type 0
  Going s0 s = (d : SlotData E) × (s.slot_data ≡ some d) × FromFile s0 d

  -- The manager's data are those of the file, without the records of the persistent level.
  abbrev pub Finished : LoaderState E W → LoaderState E W → Type 0
  Finished s0 s = (d : SlotData E) × (s.current_data ≡ some (clean_records true d)) × FromFile s0 d

  abbrev pub Phase : LoaderState E W → Bool → LoaderState E W → LoadState → Type 0
  Phase s0 moved s not_started = Before s0 s
  Phase s0 moved s loading_map = Before s0 s × Found s0 s
  Phase s0 moved s waiting_for_data = Before s0 s × InMap s0 moved s
  Phase s0 moved s restoring_actors = ⊥
  Phase s0 moved s deserializing = Applied s0 moved s × Going s0 s

  -- what holds of a load that goes on, that has failed and that has succeeded
  abbrev pub Safe : LoaderState E W → Bool → LoaderState E W → Option Bool → Type 0
  Safe s0 moved s none = Phase s0 moved s s.load_state
  Safe s0 moved s (some false) = Untouched s0 s ⊎ Applied s0 moved s
  Safe s0 moved s (some true) = Applied s0 moved s × Finished s0 s

  at_same :
      (moved : Bool) (w w' : World E) (info : SlotInfo)
      → w'.map_name ≡ w.map_name
      → AtMap moved w info
      → AtMap moved w' info
  at_same moved w w' info same (inl m) = inl m
  at_same moved w w' info same (inr e) = inr (same ∙ e)

  -- Deserializing keeps what holds, and succeeds with the data.
  pub Applied-Safe :
      (s0 : LoaderState E W) (moved : Bool) (s : LoaderState E W) (o : Outcome E W) (d : SlotData E)
      → s.load_state ≡ deserializing
      → Applied s0 moved s
      → s.slot_data ≡ some d
      → FromFile s0 d
      → Gives r (Keeps r d s) o
      → Gives r (Safe s0 moved) o
  Applied-Safe s0 moved s none d h a own from g = tt
  Applied-Safe s0 moved s (some (t, none)) d h (info, date, is, new, current, map) own from
        (c, e, f, g, slot) =
      subst (Phase s0 moved t) (sym (g ∙ h)) (
        (info, date, is, c ∙ new, e ∙ current, at_same moved s.world t.world info f map),
        (d, slot ∙ own, from),
      )
  Applied-Safe s0 moved s (some (t, some false)) d h (info, date, is, new, current, map) own from
        (c, e, f, g, slot) =
      inr (info, date, is, c ∙ new, e ∙ current, at_same moved s.world t.world info f map)
  Applied-Safe s0 moved s (some (t, some true)) d h (info, date, is, new, current, map) own from
        (c, e, f, g, slot) =
      (
        (info, date, is, c ∙ new, e ∙ current, at_same moved s.world t.world info f map),
        (d, slot, from),
      )

  pub start_with-Safe :
      (s0 : LoaderState E W) (moved : Bool) (s : LoaderState E W) (now : ℤ) (clock : Clock)
      (info : SlotInfo) (task : LoadTask E)
      → Untouched s0 s
      → InfoIn r s0.disk info
      → AtMap moved s.world info
      → TaskOf r s0.disk task
      → Gives r (Safe s0 moved) (start_with r now clock (some info) (get_loaded_data task) s)
  unfolding start_with before_deserialize get_loaded_data
  start_with-Safe s0 moved s now clock info no_task same is map own = inl same
  start_with-Safe s0 moved s now clock info running same is map own = inl same
  start_with-Safe s0 moved s now clock info (loaded none) same is map own = inl same
  start_with-Safe s0 moved s now clock info (loaded (some d0)) same is map own =
      let dated = record info { load_date = now } in
      let d = bake_all_filters r.reflection d0 in
      let w = before_deserialize d s.world in
      let s1 : LoaderState E W = record s {
        load_state = deserializing;
        new_info = some dated;
        current_info = some dated;
        slot_data = some d;
        world = w;
      } in
      let prepares = prepare_loaded_levels-Prepares r.spawner w d in
      elim (Option-cases (prepare_loaded_levels r.spawner w d)) [
        | inl crash ↦ rw (crash, deserialize_prepared) tt
        | inr ((d1, w1), does) ↦
            let kept : Prepares r.spawner w d (some (d1, w1)) =
              subst (Prepares r.spawner w d) does prepares in
            let s2 : LoaderState E W = record s1 { slot_data = some d1 } in
            subst
              (λ (o : Option (SlotData E × World E)).
                Gives r (Safe s0 moved)
                  (deserialize_prepared r (is_frame_split_load r.preset) clock o s1))
              (sym does)
              (Applied-Safe s0 moved s2 _ d1 refl (info, now, is, refl, refl, map) refl
                (d0, own, kept.1)
                (prepared-Keeps r (is_frame_split_load r.preset) clock d1 w1 s1 kept.0))
      ]

  pub when_loaded-Safe :
      (s0 : LoaderState E W) (moved : Bool) (s : LoaderState E W) (now : ℤ) (clock : Clock)
      (is_loaded : Bool)
      → Before s0 s
      → InMap s0 moved s
      → Gives r (Safe s0 moved) (when_loaded r is_loaded now clock s)
  unfolding when_loaded start_deserialization
  when_loaded-Safe s0 moved s now clock false same map = (same, map)
  when_loaded-Safe s0 moved s now clock true (same, disk, own) (info, new, is, map) =
      subst
        (λ (i : Option SlotInfo).
          Gives r (Safe s0 moved) (start_with r now clock i (get_loaded_data s.load_task) s))
        (sym new) (start_with-Safe s0 moved s now clock info s.load_task same is map own)

  pub Reads-Before : (s0 s t : LoaderState E W) → Reads r s (some t) → Before s0 s → Before s0 t
  Reads-Before s0 s t (a, b, c, e, f, disk, d, own) ((i, j), same, had) = (
    (c ∙ i, e ∙ j),
    disk ∙ same,
    subst (λ (w : W). TaskOf r w t.load_task) same
        (own (subst (λ (w : W). TaskOf r w s.load_task) (sym same) had)),
  )

  pub start_in_map-Safe :
      (s0 : LoaderState E W) (moved : Bool) (s : LoaderState E W) (info : SlotInfo) (now : ℤ)
      (clock : Clock) (same_map : Bool) (read_data : Option (LoaderState E W))
      → Before s0 s
      → s.new_info ≡ some info
      → InfoIn r s0.disk info
      → (same_map ≡ true → s.world.map_name ≡ info.map)
      → Reads r s read_data
      → Gives r (Safe s0 moved) (start_in_map r same_map info now clock read_data)
  unfolding start_in_map
  start_in_map-Safe s0 moved s info now clock same_map none same new is map reads = tt
  start_in_map-Safe s0 moved s info now clock false (some t) same new is map reads =
      elim (Bool-cases (r.map_exists info.map)) [
        | inl there ↦ rw (there, Safe) (Reads-Before s0 s t reads same, (info, reads.1 ∙ new, is))
        | inr missing ↦ rw (missing, Safe) (inl (Reads-Before s0 s t reads same).0)
      ]
  start_in_map-Safe s0 moved s info now clock true (some t) same new is map reads =
      when_loaded-Safe s0 moved t now clock (is_data_loaded t.load_task)
        (Reads-Before s0 s t reads same)
        (info, reads.1 ∙ new, is, inr (ap (λ (w : World E). w.map_name) reads.4 ∙ map refl))

  pub start_from-Safe :
      (s0 : LoaderState E W) (moved : Bool) (s : LoaderState E W) (now : ℤ) (clock : Clock)
      (found : Option (Option SlotInfo))
      → Before s0 s
      → load_info r.manager r.format r.objects r.info_of r.sort r.slot_name s0.disk ≡ found
      → Gives r (Safe s0 moved) (start_from r now clock found s)
  unfolding start_from start_loading_data
  start_from-Safe s0 moved s now clock none same h = tt
  start_from-Safe s0 moved s now clock (some none) same h = inl same.0
  start_from-Safe s0 moved s now clock (some (some info)) same h =
      let s1 : LoaderState E W = record s { new_info = some info } in
      start_in_map-Safe s0 moved s1 info now clock (s.world.map_name == info.map) _ same refl
        (load_info-InfoIn r info s0.disk h) (λ e. eq_true s.world.map_name info.map e)
        (start_load_task-Reads r (is_mt_files_load r.preset) s1)
