-- ===== src/Loader/Prepare/Respawned.antt =====
-- The actors that RespawnActors makes, and PrepareLevel as a whole.
use save_extension.Base.{
  ℕ, zero, suc, ◌+◌, ◌<◌, ◌≡◌, refl, sym, ◌∙◌, true, false, ◌&&◌, ◌||◌, Option, none, some, List,
  [], ◌∷◌, ◌++◌, length, get_elem?, if◌then◌else◌, arith, ◌==◌, nat_eq, string_eq, Bool-cases, inl,
  inr, ◌⊎◌, some_eq, subst, leb, ltb, map,
}
use save_extension.Base.Sets.{eq_self, eq_true}
use save_extension.Name.{Name, name_none}
use save_extension.Archive.{Each}
use save_extension.LevelFilter.{LevelFilter}
use save_extension.Engine.{Engine}
use save_extension.World.{Actor}
use save_extension.Records.{ActorRecord, is_record_of}
use save_extension.Loader.Prepare.{
  Spawner, prepare_actors, rename_at, respawn_actors, places_from, prepare_level,
}
use save_extension.Loader.Prepare.Matched.{
  count, has_actor, Recorded, CanDestroy, Once, taken, shrinks, prepare_actors-Recorded,
}

module _ {E : Engine} where
  abbrev renamed : Name → ActorRecord E → ActorRecord E
  renamed name r = record r { object = record r.object { name = name } }

  -- a record without its name
  abbrev pub unnamed : ActorRecord E → ActorRecord E
  unnamed r = renamed name_none r

  get-rename_at :
      (i : ℕ) (name : Name) (records : List (ActorRecord E)) (r : ActorRecord E)
      → get_elem? records i ≡ some r
      → get_elem? (rename_at i name records) i ≡ some (renamed name r)
  unfolding rename_at
  get-rename_at i name [] r h = absurd (ground arith)
  get-rename_at zero name (x ∷ xs) r h = rw (some_eq h) refl
  get-rename_at (suc i) name (x ∷ xs) r h = get-rename_at i name xs r h

  get-rename_at_ne :
      (i : ℕ) (name : Name) (records : List (ActorRecord E)) (j : ℕ)
      → i == j ≡ false
      → get_elem? (rename_at i name records) j ≡ get_elem? records j
  unfolding rename_at
  get-rename_at_ne i name [] j h = refl
  get-rename_at_ne zero name (x ∷ xs) zero h = absurd (ground arith)
  get-rename_at_ne zero name (x ∷ xs) (suc j) h = refl
  get-rename_at_ne (suc i) name (x ∷ xs) zero h = refl
  get-rename_at_ne (suc i) name (x ∷ xs) (suc j) h = get-rename_at_ne i name xs j (ground arith)

  unnamed-rename_at :
      (i : ℕ) (name : Name) (records : List (ActorRecord E))
      → map unnamed (rename_at i name records) ≡ map unnamed records
  unfolding rename_at
  unnamed-rename_at i name [] = refl
  unnamed-rename_at zero name (r ∷ rs) = refl
  unnamed-rename_at (suc i) name (r ∷ rs) = rw (unnamed-rename_at i name rs) refl

  -- the places of the records, each once
  count-places :
      (i : ℕ) (records : List (ActorRecord E)) (j : ℕ)
      → count (places_from i records) j ≡ (if leb i j && ltb j (i + length records) then 1 else 0)
  unfolding places_from count
  count-places i [] j = ground arith
  count-places i (r ∷ rs) j = ground (arith, count-places (suc i) rs j)

  in_range :
      (records : List (ActorRecord E)) (j : ℕ) (r : ActorRecord E)
      → get_elem? records j ≡ some r
      → j < length records
  in_range [] j r h = absurd (ground arith)
  in_range (x ∷ xs) zero r h = omega arith
  in_range (x ∷ xs) (suc j) r h = omega (arith, in_range xs j r h)

  there_is :
      (records : List (ActorRecord E)) (j : ℕ)
      → j < length records
      → (r : ActorRecord E) × (get_elem? records j ≡ some r)
  there_is [] j h = absurd (omega arith)
  there_is (x ∷ xs) zero h = (x, refl)
  there_is (x ∷ xs) (suc j) h = there_is xs j (omega arith)

  length-rename_at :
      (i : ℕ) (name : Name) (records : List (ActorRecord E))
      → length (rename_at i name records) ≡ length records
  unfolding rename_at
  length-rename_at i name [] = refl
  length-rename_at zero name (r ∷ rs) = refl
  length-rename_at (suc i) name (r ∷ rs) = omega (arith, length-rename_at i name rs)

module _ {E : Engine} (sp : Spawner E) (filter : LevelFilter) where
  -- The world spawns an actor for the record, whatever else is in the level.
  abbrev pub CanSpawn : ActorRecord E → Type 0
  CanSpawn r =
      (actors : List (Option (Actor E))) (name : Name)
      → (a : Actor E) × (sp.spawn actors name r.class r.transform ≡ some a)

  CanSpawn-rename_at :
      (i : ℕ) (name : Name) (records : List (ActorRecord E))
      → Each CanSpawn records
      → Each CanSpawn (rename_at i name records)
  unfolding rename_at
  CanSpawn-rename_at i name [] h = tt
  CanSpawn-rename_at zero name (x ∷ xs) h = h
  CanSpawn-rename_at (suc i) name (x ∷ xs) h = (h.0, CanSpawn-rename_at i name xs h.1)

  get-CanSpawn :
      (records : List (ActorRecord E)) (i : ℕ) (r : ActorRecord E)
      → Each CanSpawn records
      → get_elem? records i ≡ some r
      → CanSpawn r
  get-CanSpawn [] i r h at = absurd (ground arith)
  get-CanSpawn (x ∷ xs) zero r h at = rw (← some_eq at) h.0
  get-CanSpawn (x ∷ xs) (suc i) r h at = get-CanSpawn xs i r h.1 at

  has_actor-append :
      (actors : List (Option (Actor E))) (a : Actor E) (r : ActorRecord E)
      → has_actor sp filter (actors ++ some a ∷ []) r
        ≡ (has_actor sp filter actors r || is_record_of r.object a.name a.class)
  unfolding has_actor
  has_actor-append [] a r = ground arith
  has_actor-append (none ∷ actors) a r = has_actor-append actors a r
  has_actor-append (some b ∷ actors) a r = ground (arith, has_actor-append actors a r)

  -- A record is to be spawned, or has an actor.
  abbrev Covered : List (ActorRecord E) → List ℕ → List (Option (Actor E)) → Type 0
  Covered records places actors =
      (j : ℕ) (r : ActorRecord E)
      → get_elem? records j ≡ some r
      → (0 < count places j) ⊎ (has_actor sp filter actors r ≡ true)

  renamed_matches :
      (r : ActorRecord E) (a : Actor E)
      → r.class ≡ some a.class
      → is_record_of (renamed a.name r).object a.name a.class ≡ true
  unfolding is_record_of
  renamed_matches r a e = rw e (rw (eq_self a.name, eq_self a.class) refl)

  -- Spawning an actor for the first place keeps what holds of the records and of the actors.
  spawned-Covered :
      (records : List (ActorRecord E)) (i : ℕ) (places : List ℕ) (actors : List (Option (Actor E)))
      (r : ActorRecord E) (a : Actor E)
      → get_elem? records i ≡ some r
      → r.class ≡ some a.class
      → Covered records (i ∷ places) actors
      → Covered (rename_at i a.name records) places (actors ++ some a ∷ [])
  unfolding count
  spawned-Covered records i places actors r a at class covered j r' at' =
      elim (Bool-cases (i == j)) [
        | inl same ↦
            let there : get_elem? (rename_at i a.name records) i ≡ some r' =
              subst (λ k. get_elem? (rename_at i a.name records) k ≡ some r')
                (sym (eq_true i j same)) at' in
            let e : renamed a.name r ≡ r' =
              some_eq (sym (get-rename_at i a.name records r at) ∙ there) in
            inr (
              rw (has_actor-append actors a r') (
                ground (
                  arith,
                  subst (λ x. is_record_of x.object a.name a.class ≡ true) e
                      (renamed_matches r a class),
                )))
        | inr other ↦ elim (covered j r' (sym (get-rename_at_ne i a.name records j other) ∙ at')) [
          | inl waits ↦ inl (ground arith)
          | inr there ↦ inr (rw (has_actor-append actors a r') (rw there refl))
        ]
      ]

  spawned-Recorded :
      (records : List (ActorRecord E)) (i : ℕ) (places : List ℕ) (rest : List (Option (Actor E)))
      (name : Name)
      → Each (Recorded sp filter records (i ∷ places)) rest
      → Each (Recorded sp filter (rename_at i name records) places) rest
  unfolding count
  spawned-Recorded records i places [] name h = tt
  spawned-Recorded records i places (none ∷ rest) name h =
      (tt, spawned-Recorded records i places rest name h.1)
  spawned-Recorded records i places (some b ∷ rest) name h = (
    λ saved.
        let (j, r, at, matches, none_left) = h.0 saved in
        let other : i == j ≡ false = ground arith in
        (j, r, get-rename_at_ne i name records j other ∙ at, matches, ground arith),
    spawned-Recorded records i places rest name h.1,
  )

  Each-append :
      (records : List (ActorRecord E)) (places : List ℕ) (actors : List (Option (Actor E)))
      (a : Actor E)
      → Each (Recorded sp filter records places) actors
      → Recorded sp filter records places (some a)
      → Each (Recorded sp filter records places) (actors ++ some a ∷ [])
  Each-append records places [] a h k = (k, tt)
  Each-append records places (b ∷ actors) a h k = (h.0, Each-append records places actors a h.1 k)

  respawn_actors_lem :
      (places : List ℕ) (records : List (ActorRecord E)) (actors : List (Option (Actor E)))
      → Once sp filter places
      → ((j : ℕ) → 0 < count places j → j < length records)
      → Each CanSpawn records
      → Covered records places actors
      → Each (Recorded sp filter records places) actors
      → (records' : List (ActorRecord E)) × (actors' : List (Option (Actor E))) × (respawn_actors sp
            places records actors
          ≡ some (records', actors'))
        × (map unnamed records' ≡ map unnamed records)
        × Covered records' [] actors'
        × Each (Recorded sp filter records' []) actors'
  unfolding respawn_actors count
  respawn_actors_lem [] records actors once inside can covered recorded =
      (records, actors, refl, refl, covered, recorded)
  respawn_actors_lem (i ∷ places) records actors once inside can covered recorded =
      let (r, at) = there_is records i (inside i (ground (arith, eq_self i))) in
      let (a, spawned) = get-CanSpawn records i r can at actors r.name in
      let class : r.class ≡ some a.class =
        sp.class-spawn actors r.name r.class r.transform a spawned in
      let records1 = rename_at i a.name records in
      let new : Recorded sp filter records1 places (some a) = λ saved. (
        i,
        renamed a.name r,
        get-rename_at i a.name records r at,
        renamed_matches r a class,
        ground (arith, once i, eq_self i),
      ) in
      let (records', actors', does, kept, covered', recorded') =
        respawn_actors_lem places records1 (actors ++ some a ∷ []) (λ j. ground (arith, once j))
          (λ j listed. rw (length-rename_at i a.name records) (inside j (ground arith)))
          (CanSpawn-rename_at i a.name records can)
          (spawned-Covered records i places actors r a at class covered)
          (Each-append records1 places actors a
            (spawned-Recorded records i places actors a.name recorded) new) in
      (
        records',
        actors',
        rw at (rw spawned does),
        kept ∙ unnamed-rename_at i a.name records,
        covered',
        recorded',
      )

  -- Before anything is spawned, a record is to be spawned or has an actor.
  prepared-Covered :
      (records : List (ActorRecord E)) (actors : List (Option (Actor E)))
      → let (left, rest) = prepare_actors sp filter records (places_from 0 records) actors in
        Covered records left rest
  prepared-Covered records actors j r at =
      let places = places_from 0 records in
      let left = (prepare_actors sp filter records places actors).0 in
      elim (Bool-cases (count left j == 0)) [
        | inl gone ↦ inr (
            taken sp filter records places actors j r at
              (ground (arith, count-places 0 records j, in_range records j r at)) (ground arith))
        | inr listed ↦ inl (ground arith)
      ]

  -- PrepareLevel succeeds where the world can destroy actors and spawn one for each record. It changes
  -- no record but for its name. Afterwards every record has an actor in the level, of its name and class,
  -- and every actor of a class that is saved has a record.
  pub prepare_level-Matched :
      (records : List (ActorRecord E)) (actors : List (Option (Actor E)))
      → CanDestroy sp filter
      → Each CanSpawn records
      → (records' : List (ActorRecord E)) × (actors' : List (Option (Actor E))) × (prepare_level sp
            filter records actors
          ≡ some (records', actors'))
        × (map unnamed records' ≡ map unnamed records)
        × ((j : ℕ) (r : ActorRecord E)
            → get_elem? records' j ≡ some r
            → has_actor sp filter actors' r ≡ true)
        × Each (Recorded sp filter records' []) actors'
  unfolding prepare_level
  prepare_level-Matched records actors destroy spawn =
      let places = places_from 0 records in
      let counts = λ (j : ℕ). count-places 0 records j in
      let shorter = λ (j : ℕ). shrinks sp filter records places actors j in
      let (records', actors', does, kept, covered, recorded) =
        respawn_actors_lem (prepare_actors sp filter records places actors).0 records
          (prepare_actors sp filter records places actors).1
          (λ j. ground (arith, counts j, shorter j))
          (λ j listed. ground (arith, counts j, shorter j)) spawn (prepared-Covered records actors)
          (prepare_actors-Recorded sp filter records places actors destroy
            (λ j. ground (arith, counts j))) in
      (
        records',
        actors',
        does,
        kept,
        λ j r at. elim (covered j r at) [
          | inl listed ↦ absurd (unfold count in omega arith)
          | inr there ↦ there
        ],
        recorded,
      )
