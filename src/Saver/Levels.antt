-- ===== src/Saver/Levels.antt =====
-- What SerializeWorld leaves in the record of every level.
use save_extension.Base.{
  ◌≡◌, refl, ap, ap₂, subst, ◌∙◌, false, Option, none, some, List, [], ◌∷◌, ◌++◌, append-nil, arith,
  Bool-cases, Option-cases, inl, inr, if◌then◌else◌, string_eq,
}
use mathlib.Core.Option.{map as map_option}
use mathlib.Core.List.{flat_map}
use save_extension.Name.{Name}
use save_extension.Archive.{Each}
use save_extension.Engine.{Engine}
use save_extension.World.{Level, StreamingLevel}
use save_extension.Records.{ActorRecord}
use save_extension.SlotData.{
  LevelRecord, SlotData, clean_level, get_level_filter, find_level_record, update_level_record,
}
use save_extension.Actors.{SerializeTask}
use save_extension.Actors.Saved.{saved_actors}
use save_extension.Saver.Schedule.{records_of, IsNew}
use save_extension.Saver.Partition.{IsFresh}
use save_extension.Saver.Target.{
  same_record, same_record_eq, same_record_self, find-update, records_for, records_for-append,
}

module _ {E : Engine} where
  -- The record of a level after its actors are saved.
  unfoldable pub saved_level : SlotData E → LevelRecord E → Level E → LevelRecord E
  saved_level d r level = record (clean_level r) {
    actors = saved_actors (get_level_filter d r) level.actors;
  }

  -- The levels that are loaded, by the names of their records.
  unfoldable pub loaded : List (StreamingLevel E) → List (Option Name × Level E)
  loaded [] = []
  loaded (l ∷ ls) =
      let rest = loaded ls in
      elim l.loaded_level [ none ↦ rest | some level ↦ (some l.package_name, level) ∷ rest ]

  unfoldable pub level_at : List (Option Name × Level E) → Option Name → Option (Level E)
  level_at [] target = none
  level_at ((name, level) ∷ ls) target =
      let rest = level_at ls target in if same_record name target then some level else rest

  -- No two levels have one name.
  abbrev pub Distinct : List (Option Name × Level E) → Type 0
  Distinct [] = Unit
  Distinct ((name, level) ∷ ls) = (level_at ls name ≡ none) × Distinct ls

  -- Every level has a record.
  abbrev pub HasRecords : SlotData E → List (Option Name × Level E) → Type 0
  HasRecords d ls =
      Each (λ (l : Option Name × Level E). (r : LevelRecord E) × (find_level_record d l.0 ≡ some r))
        ls

  pub fresh-records_for :
      (target other : Option Name) (ts : List (SerializeTask E))
      → Each (IsFresh target) ts
      → records_for other ts ≡ (if same_record target other then flat_map records_of ts else [])
  unfolding records_for flat_map
  fresh-records_for target other [] h = ground arith
  fresh-records_for target other (t ∷ ts) ((new, e), hs) =
      elim (Bool-cases (same_record target other)) [
        | inl same ↦ rw (e, same, fresh-records_for target other ts hs, same) refl
        | inr differs ↦ rw (e, differs, fresh-records_for target other ts hs, differs) refl
      ]

  pub general-update :
      (f : LevelRecord E → LevelRecord E) (d : SlotData E) (s : Option Name)
      → (update_level_record f d s).general_level_filter ≡ d.general_level_filter
  unfolding update_level_record
  general-update f d none = refl
  general-update f d (some a) = refl

  pub filter_of :
      (d d' : SlotData E) (r : LevelRecord E)
      → d'.general_level_filter ≡ d.general_level_filter
      → get_level_filter d' r ≡ get_level_filter d r
  unfolding get_level_filter
  filter_of d d' r e = elim (Bool-cases r.override_general_filter) [
    | inl own ↦ simp own
    | inr general ↦ simp general e
  ]

  pub filter-clean_level :
      (d : SlotData E) (r : LevelRecord E)
      → get_level_filter d (clean_level r) ≡ get_level_filter d r
  unfolding get_level_filter clean_level
  filter-clean_level d r = refl

  -- The records that a level's actors are to have.
  unfoldable pub new_records : SlotData E → Option Name → Level E → List (ActorRecord E)
  new_records d t level = elim (find_level_record d t) [
    | none ↦ []
    | some r ↦ saved_actors (get_level_filter d r) level.actors
  ]

  new_records_same :
      (d d' : SlotData E) (t : Option Name) (level : Level E)
      → find_level_record d' t ≡ find_level_record d t
      → d'.general_level_filter ≡ d.general_level_filter
      → new_records d' t level ≡ new_records d t level
  unfolding new_records
  new_records_same d d' t level e g = elim (Option-cases (find_level_record d t)) [
    | inl missing ↦ rw (e, new_records, missing) refl
    | inr (r, found) ↦ rw (e, new_records, found, filter_of d d' r g) refl
  ]

  -- What the levels of a list have done to the slot data and to the tasks.
  abbrev pub Collected :
      List (Option Name × Level E)
      → SlotData E
      → List (SerializeTask E)
      → SlotData E
      → List (SerializeTask E)
      → Type 0
  Collected ls d ts d' ts' =
      ((t : Option Name)
        → (find_level_record d' t ≡ elim (level_at ls t) [
          | none ↦ find_level_record d t
          | some _ ↦ map_option clean_level (find_level_record d t)
        ])
          × (records_for t ts'
              ≡ records_for t ts
                ++ elim (level_at ls t) [ none ↦ [] | some l ↦ new_records d t l ]))
      × (d'.general_level_filter ≡ d.general_level_filter)
      × (Each IsNew ts → Each IsNew ts')

  all-IsNew :
      (target : Option Name) (ts : List (SerializeTask E))
      → Each (IsFresh target) ts
      → Each IsNew ts
  all-IsNew target [] h = tt
  all-IsNew target (t ∷ ts) ((new, _), hs) = (new, all-IsNew target ts hs)

  both-IsNew :
      (ts us : List (SerializeTask E)) → Each IsNew ts → Each IsNew us → Each IsNew (ts ++ us)
  both-IsNew [] us h k = k
  both-IsNew (t ∷ ts) us (h, hs) k = (h, both-IsNew ts us hs k)

  pub clean_keeps : (r : LevelRecord E) → (clean_level r).name ≡ r.name
  unfolding clean_level
  clean_keeps r = refl

  module _ (s : Option Name) (l : Level E) (ls : List (Option Name × Level E)) (d : SlotData E)
      (r : LevelRecord E) (ts new : List (SerializeTask E)) (d' : SlotData E)
      (ts' : List (SerializeTask E)) (only : level_at ls s ≡ none)
      (found : find_level_record d s ≡ some r) (fresh : Each (IsFresh s) new)
      (made : flat_map records_of new ≡ saved_actors (get_level_filter d r) l.actors)
      (rest : Collected ls (update_level_record clean_level d s) (ts ++ new) d' ts') where
    collected_here :
        (find_level_record d' s ≡ map_option clean_level (find_level_record d s))
        × (records_for s ts' ≡ records_for s ts ++ new_records d s l)
    unfolding new_records
    collected_here =
        let self = same_record_self s in
        (
          (rw only at ((rest.0 s).0)) ∙ find-update clean_level d s s clean_keeps ∙ rw self refl,
          (rw only at ((rest.0 s).1))
              ∙ append-nil _
              ∙ records_for-append s ts new
              ∙ ap (λ xs. records_for s ts ++ xs)
                  (fresh-records_for s s new fresh ∙ rw (self, new_records, found) made),
        )

    collected_else :
        (t : Option Name)
        → same_record s t ≡ false
        → (find_level_record d' t ≡ elim (level_at ls t) [
          | none ↦ find_level_record d t
          | some _ ↦ map_option clean_level (find_level_record d t)
        ])
          × (records_for t ts'
              ≡ records_for t ts
                ++ elim (level_at ls t) [ none ↦ [] | some l' ↦ new_records d t l' ])
    collected_else t other =
        let d1 = update_level_record clean_level d s in
        let same_find : find_level_record d1 t ≡ find_level_record d t =
          find-update clean_level d s t clean_keeps ∙ rw other refl in
        let same_records : records_for t (ts ++ new) ≡ records_for t ts =
          records_for-append t ts new
          ∙ ap (λ xs. records_for t ts ++ xs) (fresh-records_for s t new fresh ∙ rw other refl)
          ∙ append-nil _ in
        let (finds, records) = rest.0 t in
        elim (Option-cases (level_at ls t)) [
          | inl absent ↦ rw absent (
            (rw absent at finds) ∙ same_find,
            (rw absent at records) ∙ ap (λ xs. xs ++ []) same_records,
          )
          | inr (l', present) ↦ rw present (
            (rw present at finds) ∙ ap (map_option clean_level) same_find,
            (rw present at records)
                ∙ ap₂ (λ xs ys. xs ++ ys) same_records
                    (new_records_same d d1 t l' same_find (general-update clean_level d s)),
          )
        ]

    -- One level, and then the others.
    pub collect : Collected ((s, l) ∷ ls) d ts d' ts'
    unfolding level_at
    collect = (
      λ t. elim (Bool-cases (same_record s t)) [
        | inl same ↦ rw same (
            subst
              (λ u.
                (find_level_record d' u ≡ map_option clean_level (find_level_record d u))
                × (records_for u ts' ≡ records_for u ts ++ new_records d u l))
              (same_record_eq s t same) collected_here)
        | inr other ↦ rw other (collected_else t other)
      ],
      rest.1 ∙ general-update clean_level d s,
      λ h. rest.2 (both-IsNew ts new h (all-IsNew s new fresh)),
    )
