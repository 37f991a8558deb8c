-- ===== src/Loader/Prepare/Matched.antt =====
-- After PrepareLevel the records of a level and its actors belong together.
use save_extension.Base.{
  ℕ, zero, suc, ◌+◌, ◌≤◌, ◌<◌, ◌≡◌, refl, sym, ◌∙◌, Bool, true, false, ◌||◌, Option, none, some,
  List, [], ◌∷◌, get_elem?, if◌then◌else◌, arith, ◌==◌, nat_eq, Bool-cases, Option-cases, inl, inr,
  ◌⊎◌, false≢true, some_eq,
}
use save_extension.Base.Sets.{eq_self, eq_true}
use save_extension.Archive.{Each}
use save_extension.LevelFilter.{LevelFilter, should_save_actor}
use save_extension.Engine.{Engine}
use save_extension.World.{Actor}
use save_extension.Records.{ActorRecord, is_record_of}
use save_extension.Loader.Prepare.{
  put_second, last_first, remove_at_swap, index_of_by_predicate, Spawner, record_matches,
  remove_single_record_ptr_swap, destroy_unrecorded, prepare_actors,
}

-- how often a number stands in a list
unfoldable pub count : List ℕ → ℕ → ℕ
count [] j = 0
count (x ∷ xs) j = (if x == j then 1 else 0) + count xs j

count-put_second : (x : ℕ) (xs : List ℕ) (j : ℕ) → count (put_second x xs) j ≡ count (x ∷ xs) j
unfolding put_second count
count-put_second x [] j = refl
count-put_second x (y ∷ ys) j = omega arith

count-last_first : (x : ℕ) (xs : List ℕ) (j : ℕ) → count (last_first x xs) j ≡ count (x ∷ xs) j
unfolding last_first count
count-last_first x [] j = refl
count-last_first x (y ∷ ys) j =
    omega (arith, count-put_second x (last_first y ys) j, count-last_first y ys j)

count-remove_at_swap :
    (i : ℕ) (xs : List ℕ) (x j : ℕ)
    → get_elem? xs i ≡ some x
    → count xs j ≡ (if x == j then 1 else 0) + count (remove_at_swap i xs) j
unfolding remove_at_swap count
count-remove_at_swap i [] x j h = ground arith
count-remove_at_swap zero (y ∷ []) x j h = ground arith
count-remove_at_swap zero (y ∷ z ∷ zs) x j h = ground (arith, count-last_first z zs j)
count-remove_at_swap (suc i) (y ∷ ys) x j h = ground (arith, count-remove_at_swap i ys x j h)

-- The element at the index that is found passes the test.
index_lem :
    {A : Type 0} (test : A → Bool) (xs : List A) (i : ℕ)
    → index_of_by_predicate test xs ≡ some i
    → (x : A) × (get_elem? xs i ≡ some x) × (test x ≡ true)
unfolding index_of_by_predicate
index_lem test [] i h = absurd (ground arith)
index_lem test (x ∷ xs) i h = elim (Bool-cases (test x)) [
  | inl here ↦ (x, ground arith, here)
  | inr other ↦ elim (Option-cases (index_of_by_predicate test xs)) [
    | inl missing ↦ absurd (ground arith)
    | inr (k, found) ↦
        let (y, at, passes) = index_lem test xs k found in
        let e : suc k ≡ i = ground arith in (y, rw (← e) at, passes)
  ]
]

module _ {E : Engine} (sp : Spawner E) (filter : LevelFilter) where
  -- an actor of the level has this record
  unfoldable pub has_actor : List (Option (Actor E)) → ActorRecord E → Bool
  has_actor [] r = false
  has_actor (none ∷ actors) r = has_actor actors r
  has_actor (some a ∷ actors) r = is_record_of r.object a.name a.class || has_actor actors r

  -- What RemoveSingleRecordPtrSwap finds is the place of a record of the actor.
  found_lem :
      (records : List (ActorRecord E)) (to_spawn : List ℕ) (a : Actor E)
      → (remove_single_record_ptr_swap records to_spawn a ≡ (false, to_spawn))
        ⊎ ((left : List ℕ) × (i : ℕ) × (r : ActorRecord E) × (remove_single_record_ptr_swap records
                to_spawn a
              ≡ (true, left))
            × (get_elem? records i ≡ some r)
            × (is_record_of r.object a.name a.class ≡ true)
            × ((j : ℕ) → count to_spawn j ≡ (if i == j then 1 else 0) + count left j))
  unfolding remove_single_record_ptr_swap record_matches
  found_lem records to_spawn a =
      elim (Option-cases (index_of_by_predicate (record_matches records a) to_spawn)) [
        | inl missing ↦ inl (rw (missing, remove_single_record_ptr_swap) refl)
        | inr (k, found) ↦
            let (i, at, matches) = index_lem (record_matches records a) to_spawn k found in
            elim (Option-cases (get_elem? records i)) [
              | inl out ↦ absurd (ground arith)
              | inr (r, there) ↦ inr (
                remove_at_swap k to_spawn,
                i,
                r,
                rw (found, remove_single_record_ptr_swap) refl,
                there,
                ground arith,
                λ j. count-remove_at_swap k to_spawn i j at,
              )
            ]
      ]

  -- An actor of a class that is saved has a record, and that record is not to be spawned.
  abbrev pub Recorded : List (ActorRecord E) → List ℕ → Option (Actor E) → Type 0
  Recorded records to_spawn none = Unit
  Recorded records to_spawn (some a) =
      should_save_actor filter a.class ≡ true
      → (j : ℕ) × (r : ActorRecord E) × (get_elem? records j ≡ some r)
        × (is_record_of r.object a.name a.class ≡ true)
        × (count to_spawn j ≡ 0)

  -- Every actor that is there can be destroyed.
  abbrev pub CanDestroy : Type 0
  CanDestroy = (a : Actor E) → sp.destroys a ≡ true

  -- no place is listed twice
  abbrev pub Once : List ℕ → Type 0
  Once places = (j : ℕ) → count places j ≤ 1

  pub shrinks :
      (records : List (ActorRecord E)) (to_spawn : List ℕ) (actors : List (Option (Actor E)))
      (j : ℕ)
      → count (prepare_actors sp filter records to_spawn actors).0 j ≤ count to_spawn j
  unfolding prepare_actors
  shrinks records to_spawn [] j = omega arith
  shrinks records to_spawn (none ∷ actors) j = shrinks records to_spawn actors j
  shrinks records to_spawn (some a ∷ actors) j = elim (found_lem records to_spawn a) [
    | inl missing ↦ rw (missing, prepare_actors) (shrinks records to_spawn actors j)
    | inr (left, i, r, found, there, matches, counts) ↦
        rw (found, prepare_actors) (omega (arith, counts j, shrinks records left actors j))
  ]

  pub has_actor_behind :
      (entry : Option (Actor E)) (actors : List (Option (Actor E))) (r : ActorRecord E)
      → has_actor actors r ≡ true
      → has_actor (entry ∷ actors) r ≡ true
  unfolding has_actor
  has_actor_behind none actors r h = h
  has_actor_behind (some a) actors r h = ground arith

  -- An actor whose record was found is kept.
  kept : (a : Actor E) → destroy_unrecorded sp filter true a ≡ some a
  unfolding destroy_unrecorded
  kept a = ground arith

  -- A record that is no longer to be spawned has an actor.
  pub taken :
      (records : List (ActorRecord E)) (to_spawn : List ℕ) (actors : List (Option (Actor E)))
      (j : ℕ) (r : ActorRecord E)
      → get_elem? records j ≡ some r
      → 0 < count to_spawn j
      → count (prepare_actors sp filter records to_spawn actors).0 j ≡ 0
      → has_actor (prepare_actors sp filter records to_spawn actors).1 r ≡ true
  unfolding prepare_actors has_actor
  taken records to_spawn [] j r at listed gone = absurd (omega arith)
  taken records to_spawn (none ∷ actors) j r at listed gone =
      taken records to_spawn actors j r at listed gone
  taken records to_spawn (some a ∷ actors) j r at listed gone =
      elim (found_lem records to_spawn a) [
        | inl missing ↦
            rw (missing, prepare_actors)
              (has_actor_behind (destroy_unrecorded sp filter false a) _ r (
                taken records to_spawn actors j r at listed (rw (missing, prepare_actors) at gone)))
        | inr (left, i, r', found, there, matches, counts) ↦
            rw (found, prepare_actors, kept a)
              (elim (Bool-cases (i == j)) [
                | inl same ↦
                    let e : r' ≡ r = some_eq (sym there ∙ rw (eq_true i j same) at) in
                    rw (rw e at matches) refl
                | inr other ↦
                    has_actor_behind (some a) (prepare_actors sp filter records left actors).1 r (
                      taken records left actors j r at (ground (arith, counts j))
                        (rw (found, prepare_actors) at gone))
              ])
      ]

  step_end :
      (records : List (ActorRecord E)) (to_spawn : List ℕ)
      → prepare_actors sp filter records to_spawn [] ≡ (to_spawn, [])
  unfolding prepare_actors
  step_end records to_spawn = refl

  step_none :
      (records : List (ActorRecord E)) (to_spawn : List ℕ) (actors : List (Option (Actor E)))
      → let (left, rest) = prepare_actors sp filter records to_spawn actors in
        prepare_actors sp filter records to_spawn (none ∷ actors) ≡ (left, none ∷ rest)
  unfolding prepare_actors
  step_none records to_spawn actors = refl

  step_missing :
      (records : List (ActorRecord E)) (to_spawn : List ℕ) (a : Actor E)
      (actors : List (Option (Actor E)))
      → remove_single_record_ptr_swap records to_spawn a ≡ (false, to_spawn)
      → let (left, rest) = prepare_actors sp filter records to_spawn actors in
        prepare_actors sp filter records to_spawn (some a ∷ actors)
        ≡ (left, destroy_unrecorded sp filter false a ∷ rest)
  unfolding prepare_actors
  step_missing records to_spawn a actors missing = rw (missing, prepare_actors) refl

  step_found :
      (records : List (ActorRecord E)) (to_spawn left : List ℕ) (a : Actor E)
      (actors : List (Option (Actor E)))
      → remove_single_record_ptr_swap records to_spawn a ≡ (true, left)
      → let (left', rest) = prepare_actors sp filter records left actors in
        prepare_actors sp filter records to_spawn (some a ∷ actors) ≡ (left', some a ∷ rest)
  unfolding prepare_actors
  step_found records to_spawn left a actors found = rw (found, prepare_actors, kept a) refl

  -- An actor without a record is destroyed, or is of no class that is saved.
  destroyed-Recorded :
      (records : List (ActorRecord E)) (left : List ℕ) (a : Actor E)
      → CanDestroy
      → Recorded records left (destroy_unrecorded sp filter false a)
  unfolding destroy_unrecorded
  destroyed-Recorded records left a can = elim (Bool-cases (should_save_actor filter a.class)) [
    | inl saved ↦ rw (saved, can a) tt
    | inr other ↦ rw other (λ saved. absurd (false≢true (sym other ∙ saved)))
  ]

  -- Every actor that stays has a record, if it is of a class that is saved.
  pub prepare_actors-Recorded :
      (records : List (ActorRecord E)) (to_spawn : List ℕ) (actors : List (Option (Actor E)))
      → CanDestroy
      → Once to_spawn
      → let (left, rest) = prepare_actors sp filter records to_spawn actors in
        Each (Recorded records left) rest
  prepare_actors-Recorded records to_spawn [] can once = rw (step_end records to_spawn) tt
  prepare_actors-Recorded records to_spawn (none ∷ actors) can once =
      rw (step_none records to_spawn actors)
        (tt, prepare_actors-Recorded records to_spawn actors can once)
  prepare_actors-Recorded records to_spawn (some a ∷ actors) can once =
      elim (found_lem records to_spawn a) [
        | inl missing ↦ rw (step_missing records to_spawn a actors missing) (
          destroyed-Recorded records _ a can,
          prepare_actors-Recorded records to_spawn actors can once,
        )
        | inr (left, i, r, found, there, matches, counts) ↦
            rw (step_found records to_spawn left a actors found) (
              λ saved. (
                i,
                r,
                there,
                matches,
                ground (arith, counts i, once i, eq_self i, shrinks records left actors i),
              ),
              prepare_actors-Recorded records left actors can
                  (λ j. omega (arith, counts j, once j)),
            )
      ]
