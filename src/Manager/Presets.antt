-- ===== src/Manager/Presets.antt =====
-- The preset of a task is the active one for as long as the task is listed.
use save_extension.Base.{
  ℕ, ◌≡◌, refl, sym, false≢true, ◌∙◌, Bool, true, false, not, ◌||◌, Option, none, some, List, [],
  ◌∷◌, nat_eq, arith, if◌then◌else◌, Bool-cases, inl, inr, subst,
}
use save_extension.Base.Sets.{contains}
use save_extension.Name.{Name, is_none}
use save_extension.Archive.{◌>>=◌}
use save_extension.Preset.{Preset}
use save_extension.Engine.{Engine}
use save_extension.Tasks.{finish_if, start, fuel_of, tick}
use save_extension.Tasks.Kept.{
  After, After-from, unchanged, first_of-After, finish_if-After, start-After, tick-After,
}
use save_extension.Manager.{
  is_loader, Managed, Services, Manager, has_tasks, set_active_preset, try_instantiate_info, launch,
  can_load_or_save, loader, level_saver, level_loader,
}
use save_extension.Manager.Slots.{
  save_slot, load_slot, serialize_streaming_level, deserialize_streaming_level,
  update_level_streamings, is_slot_saved, loader_in_map, on_map_load_finished,
}
use save_extension.Manager.Active.{
  Stays, Leaves, keeping, AllOfPreset, stays-AllOfPreset, Gives, After-Gives, Gives-some, GivesBoth,
  GivesBoth-some, GivesBoth-map, launch-Gives, instantiated-AllOfPreset,
}
use save_extension.Manager.Classes.{Play, Machine, leave, with_classes}

module _ {E : Engine} {W G : Type 0} (v : Services E W G) where
  -- A call of the manager, or of the engine on it
  pub data Step (m n : Manager v) : Type 0 where
    saves :
        (name : Name) (over shot : Bool) (r : Bool)
        → save_slot v name over shot m ≡ some (r, n)
        → Step m n
    loads : (name : Name) (r : Bool) → load_slot v name m ≡ some (r, n) → Step m n
    level_hides :
        (name : Name) (removed : Bool)
        → serialize_streaming_level v name removed m ≡ some n
        → Step m n
    level_shows : (name : Name) → deserialize_streaming_level v name m ≡ some n → Step m n
    sets_preset : (class : Option ℕ) → (set_active_preset v class m).1 ≡ n → Step m n
    asks_info :
        (forced : Bool) → record m { state = try_instantiate_info v forced m.state } ≡ n → Step m n
    ticks : tick v.behaviour m ≡ some n → Step m n
    opens_map : on_map_load_finished v m ≡ some n → Step m n
    -- what is not of the manager goes on: the world, the disk, the work of other threads
    goes_on : (game : G) → record m { state = record m.state { game = game } } ≡ n → Step m n

  pub data Reach (m : Manager v) : Manager v → Type 0 where
    here : Reach m m
    onward : {n o : Manager v} → Reach m n → Step n o → Reach m o

  save_slot-Gives :
      (h : Leaves v) (name : Name) (over shot : Bool) (m : Manager v)
      → AllOfPreset v m
      → GivesBoth v (save_slot v name over shot m)
  unfolding save_slot
  save_slot-Gives h name over shot m all = elim (Bool-cases (can_load_or_save v m.state)) [
    | inr cannot ↦ rw cannot all
    | inl can ↦ elim (Bool-cases (is_none name)) [
      | inl unnamed ↦ rw (can, unnamed) all
      | inr named ↦ rw (can, named) (launch-Gives v h _ m all)
    ]
  ]

  load_slot-Gives :
      (h : Leaves v) (name : Name) (m : Manager v)
      → AllOfPreset v m
      → GivesBoth v (load_slot v name m)
  unfolding load_slot
  load_slot-Gives h name m all =
      elim (Bool-cases (not (can_load_or_save v m.state) || not (is_slot_saved v name m.state))) [
        | inl refused ↦ rw refused all
        | inr goes ↦ rw goes (
            launch-Gives v h (loader name)
              (record m { state = try_instantiate_info v false m.state })
              (instantiated-AllOfPreset v false m all))
      ]

  hidden-Gives :
      (h : Leaves v) (name : Name) (removed : Bool) (m : Manager v)
      → AllOfPreset v m
      → Gives v (serialize_streaming_level v name removed m)
  unfolding serialize_streaming_level
  hidden-Gives h name true m all = all
  hidden-Gives h name false m all =
      GivesBoth-map v (launch v (level_saver name) m) (launch-Gives v h (level_saver name) m all)

  no_tasks : (m : Manager v) → m.tasks ≡ [] → AllOfPreset v m
  unfolding contains
  no_tasks m empty u listed =
      let none_listed : contains m.tasks u ≡ false = rw empty refl in
      absurd (false≢true (sym none_listed ∙ listed))

  has_tasks-none : (m : Manager v) → has_tasks v m ≡ false → m.tasks ≡ []
  unfolding has_tasks
  has_tasks-none m h = none_in m.tasks h
    where
      none_in : (ts : List ℕ) → elim ts [ [] ↦ false | _ ∷ _ ↦ true ] ≡ false → ts ≡ []
      none_in [] e = refl
      none_in (t ∷ ts) e = absurd (ground arith)

  either :
      (c : Bool) (p q : Option Preset × Manager v)
      → AllOfPreset v p.1
      → AllOfPreset v q.1
      → AllOfPreset v (if c then p else q).1
  either true p q a b = a
  either false p q a b = b

  set_preset-AllOfPreset :
      (class : Option ℕ) (m : Manager v)
      → AllOfPreset v m
      → AllOfPreset v (set_active_preset v class m).1
  unfolding set_active_preset
  set_preset-AllOfPreset none m all = all
  set_preset-AllOfPreset (some class) m all = elim (Bool-cases (has_tasks v m)) [
    | inl busy ↦ rw busy all
    | inr idle ↦
        let empty = has_tasks-none m idle in
        rw idle (
          either _ (none, m)
            (
              some (v.new_preset class),
              record m { state = record m.state { active_preset = some (v.new_preset class) } },
            )
            all
            (no_tasks
              (record m { state = record m.state { active_preset = some (v.new_preset class) } })
              empty))
  ]

  updated : (s : Managed E G) → Stays v s (update_level_streamings v s)
  unfolding update_level_streamings
  updated s = elim (Bool-cases (v.has_world s.game)) [
    | inl there ↦ rw there (refl, refl)
    | inr missing ↦ rw missing (refl, refl)
  ]

  updated-Gives :
      (o : Option (Manager v))
      → Gives v o
      → Gives v (o >>= λ m1. some (record m1 { state = update_level_streamings v m1.state }))
  updated-Gives none g = tt
  updated-Gives (some m1) g =
      stays-AllOfPreset v m1 (record m1 { state = update_level_streamings v m1.state })
        (updated m1.state) (λ u listed. listed) g

  in_map-After :
      (h : Leaves v) (t : ℕ) (m : Manager v)
      → After v.behaviour (keeping v h) m (loader_in_map v t m)
  unfolding loader_in_map
  in_map-After h t m =
      elim (Bool-cases
        (elim (m.state.prepared t) as (λ x. Bool) [ none ↦ false | some p ↦ is_loader p.kind ])) [
          | inr other ↦ rw other (unchanged v.behaviour (keeping v h) m)
          | inl loads_map ↦
              let n : Manager v = record m { state = (v.on_map_loaded t m.state).0 } in
              let go = start v.behaviour (fuel_of v.behaviour m) in
              rw loads_map (
                After-from v.behaviour (keeping v h) m n
                  (finish_if v.behaviour go t (v.on_map_loaded t m.state).1 n) (h.on_maps t m.state)
                  (λ u listed. listed)
                  (finish_if-After v.behaviour (keeping v h) go t (v.on_map_loaded t m.state).1 n
                    (start-After v.behaviour (keeping v h) (fuel_of v.behaviour m))))
        ]

  map-Gives : (h : Leaves v) (m : Manager v) → AllOfPreset v m → Gives v (on_map_load_finished v m)
  unfolding on_map_load_finished
  map-Gives h m all = updated-Gives _ (
      After-Gives v h m _ all (
        first_of-After v.behaviour (keeping v h) (loader_in_map v) m m.tasks
          (λ t. in_map-After h t m)))

  shown-Gives :
      (h : Leaves v) (name : Name) (m : Manager v)
      → AllOfPreset v m
      → Gives v (deserialize_streaming_level v name m)
  unfolding deserialize_streaming_level
  shown-Gives h name m all =
      GivesBoth-map v (launch v (level_loader name) m) (launch-Gives v h (level_loader name) m all)

  Step-AllOfPreset : (h : Leaves v) (m n : Manager v) → AllOfPreset v m → Step m n → AllOfPreset v n
  Step-AllOfPreset h m n all (saves name over shot r e) =
      GivesBoth-some v _ r n (save_slot-Gives h name over shot m all) e
  Step-AllOfPreset h m n all (loads name r e) =
      GivesBoth-some v _ r n (load_slot-Gives h name m all) e
  Step-AllOfPreset h m n all (level_hides name removed e) =
      Gives-some v _ n (hidden-Gives h name removed m all) e
  Step-AllOfPreset h m n all (level_shows name e) = Gives-some v _ n (shown-Gives h name m all) e
  Step-AllOfPreset h m n all (sets_preset class e) =
      subst (AllOfPreset v) e (set_preset-AllOfPreset class m all)
  Step-AllOfPreset h m n all (asks_info forced e) =
      subst (AllOfPreset v) e (instantiated-AllOfPreset v forced m all)
  Step-AllOfPreset h m n all (ticks e) =
      Gives-some v _ n
        (After-Gives v h m (tick v.behaviour m) all (tick-After v.behaviour (keeping v h) m)) e
  Step-AllOfPreset h m n all (opens_map e) = Gives-some v _ n (map-Gives h m all) e
  Step-AllOfPreset h m n all (goes_on game e) = subst (AllOfPreset v) e (
      stays-AllOfPreset v m (record m { state = record m.state { game = game } }) (refl, refl)
        (λ u listed. listed) all)

  -- for tasks that leave the active preset and what tasks are made with
  Reach-AllOfPreset : (m n : Manager v) → Leaves v → m.tasks ≡ [] → Reach m n → AllOfPreset v n
  Reach-AllOfPreset m _ h empty here = no_tasks m empty
  Reach-AllOfPreset m o h empty (onward {n = n} way step) =
      Step-AllOfPreset h n o (Reach-AllOfPreset m n h empty way) step

module _ {E : Engine} {W : Type 0} (k : Machine E W) (v : Services E W (Play E W)) where
  classes-Leaves : Leaves (with_classes k v)
  unfolding with_classes leave
  classes-Leaves = record {
    on_starts = λ t s. (refl, refl);
    on_ticks = λ t s. (refl, refl);
    on_finishes = λ t success s. (refl, refl);
    on_maps = λ t s. (refl, refl);
  }

  -- Savers, loaders, level savers and level loaders, whatever the engine, the clock and the settings are, with
  -- listeners that call nothing of the manager. Whatever calls of the manager (saving, loading, levels that hide and
  -- show, another preset, a forced new info, ticks, opened maps) follow each other from a manager without
  -- tasks, while the world, the disk and the tasks' own fields may change in between: every task
  -- that is listed was prepared with the preset that is active.
  pub presets_kept :
      (m n : Manager (with_classes k v))
      → m.tasks ≡ []
      → Reach (with_classes k v) m n
      → AllOfPreset (with_classes k v) n
  presets_kept m n empty way = Reach-AllOfPreset (with_classes k v) m n classes-Leaves empty way
