-- ===== src/Loader/Run/Outline.antt =====
-- What PrepareAllLevels leaves of the slot data and of the world.
use save_extension.Base.{
  ◌≡◌, refl, ap, ◌∙◌, Option, none, some, List, [], ◌∷◌, ◌==◌, string_eq, map, Bool-cases,
  Option-cases, inl, inr,
}
use save_extension.Name.{Name}
use save_extension.Engine.{Engine}
use save_extension.World.{Level, StreamingLevel, World}
use save_extension.Records.{ActorRecord}
use save_extension.SlotData.{
  LevelRecord, SlotData, get_level_filter, find_level_record, update_sub_level, update_level_record,
}
use save_extension.Loader.Prepare.{
  Spawner, prepare_level, prepare_recorded_level, prepare_streaming_levels, prepare_loaded_levels,
}

module _ {E : Engine} where
  abbrev without_records : LevelRecord E → LevelRecord E
  without_records r = record r { actors = [] }

  -- the slot data without the records of actors
  unfoldable pub outline : SlotData E → SlotData E
  outline d = record d {
    main_level = without_records d.main_level;
    sub_levels = map without_records d.sub_levels;
  }

  replaced_in :
      (actors : List (ActorRecord E)) (rs : List (LevelRecord E)) (name : Name)
      → map without_records (update_sub_level (λ r. record r { actors = actors }) rs name)
        ≡ map without_records rs
  unfolding update_sub_level
  replaced_in actors [] name = refl
  replaced_in actors (r ∷ rs) name = elim (Bool-cases (r.name == name)) [
    | inl same ↦ rw same refl
    | inr other ↦ rw other (ap (λ xs. without_records r ∷ xs) (replaced_in actors rs name))
  ]

  outline-update_level_record :
      (actors : List (ActorRecord E)) (d : SlotData E) (name : Option Name)
      → outline (update_level_record (λ r. record r { actors = actors }) d name) ≡ outline d
  unfolding outline update_level_record
  outline-update_level_record actors d none = refl
  outline-update_level_record actors d (some name) =
      ap (λ rs. record d { main_level = without_records d.main_level; sub_levels = rs })
        (replaced_in actors d.sub_levels name)

module _ {E : Engine} (sp : Spawner E) where
  abbrev SameOutline : {A : Type 0} → SlotData E → Option (SlotData E × A) → Type 0
  SameOutline d none = Unit
  SameOutline d (some (d', a)) = outline d' ≡ outline d

  level-SameOutline :
      (name : Option Name) (level : Level E) (d : SlotData E)
      → SameOutline d (prepare_recorded_level sp name level d)
  unfolding prepare_recorded_level
  level-SameOutline name level d = elim (Option-cases (find_level_record d name)) [
    | inl unknown ↦ rw (unknown, SameOutline) refl
    | inr (r, found) ↦
        elim (Option-cases (prepare_level sp (get_level_filter d r) r.actors level.actors)) [
          | inl crash ↦ rw (found, SameOutline) (rw crash tt)
          | inr ((records, actors), does) ↦
              rw (found, SameOutline) (rw does (outline-update_level_record records d name))
        ]
  ]

  streaming-SameOutline :
      (ls : List (StreamingLevel E)) (d : SlotData E)
      → SameOutline d (prepare_streaming_levels sp ls d)
  unfolding prepare_streaming_levels
  streaming-SameOutline [] d = refl
  streaming-SameOutline (l ∷ ls) d = elim (Option-cases l.loaded_level) [
    | inl absent ↦
        let rest = streaming-SameOutline ls d in
        elim (Option-cases (prepare_streaming_levels sp ls d)) [
          | inl crash ↦ rw (absent, SameOutline) (rw crash tt)
          | inr ((d'', ls'), does) ↦ rw (absent, SameOutline) (rw does (rw does at rest))
        ]
    | inr (level, loaded) ↦
        let first = level-SameOutline (some l.package_name) level d in
        elim (Option-cases (prepare_recorded_level sp (some l.package_name) level d)) [
          | inl crash ↦ rw (loaded, SameOutline) (rw crash tt)
          | inr ((d', level'), does) ↦
              let rest = streaming-SameOutline ls d' in
              elim (Option-cases (prepare_streaming_levels sp ls d')) [
                | inl crash ↦ rw (loaded, SameOutline) (rw does (rw crash tt))
                | inr ((d'', ls'), does') ↦
                    let one : outline d' ≡ outline d = rw does at first in
                    let two : outline d'' ≡ outline d' = rw does' at rest in
                    rw (loaded, SameOutline) (rw does (rw does' (two ∙ one)))
              ]
        ]
  ]

  -- the outline of the slot data, and the name of the map
  abbrev pub Prepares : World E → SlotData E → Option (SlotData E × World E) → Type 0
  Prepares w d none = Unit
  Prepares w d (some (d', w')) = (w'.map_name ≡ w.map_name) × (outline d' ≡ outline d)

  pub prepare_loaded_levels-Prepares :
      (w : World E) (d : SlotData E) → Prepares w d (prepare_loaded_levels sp w d)
  unfolding prepare_loaded_levels
  prepare_loaded_levels-Prepares w d =
      let main = level-SameOutline none w.current_level d in
      elim (Option-cases (prepare_recorded_level sp none w.current_level d)) [
        | inl crash ↦ rw crash tt
        | inr ((d1, level), first) ↦
            let rest = streaming-SameOutline w.streaming_levels d1 in
            elim (Option-cases (prepare_streaming_levels sp w.streaming_levels d1)) [
              | inl crash ↦ rw first (rw crash tt)
              | inr ((d2, levels), second) ↦
                  let one : outline d1 ≡ outline d = rw first at main in
                  let two : outline d2 ≡ outline d1 = rw second at rest in
                  rw first (rw second (refl, two ∙ one))
            ]
      ]
