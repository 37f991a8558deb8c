-- ===== src/Loader/Prepare.antt =====
-- USlotDataTask_Loader (Source/SaveExtension/Private/Serialization/SlotDataTask_Loader.cpp): PrepareLevel,
-- which brings the actors of a level in line with its records, RespawnActors and PrepareAllLevels.
pub mod Matched
pub mod Respawned
use save_extension.Base.{
  ℕ, zero, suc, ◌≡◌, Bool, true, false, not, ◌&&◌, Option, none, some, List, [], ◌∷◌, ◌++◌, length,
  get_elem?, if◌then◌else◌,
}
use save_extension.Name.{Name}
use save_extension.Archive.{◌>>=◌}
use save_extension.LevelFilter.{LevelFilter, should_save_actor}
use save_extension.Engine.{Engine}
use save_extension.World.{Actor, Level, StreamingLevel, World}
use save_extension.Records.{ActorRecord, is_record_of}
use save_extension.SlotData.{
  LevelRecord, SlotData, get_level_filter, find_level_record, update_level_record,
}

module _ {A : Type 0} where
  -- IndexOfByPredicate
  unfoldable pub index_of_by_predicate : (A → Bool) → List A → Option ℕ
  index_of_by_predicate test [] = none
  index_of_by_predicate test (x ∷ xs) =
      let rest = index_of_by_predicate test xs in
      if test x then some 0 else elim rest [ none ↦ none | some i ↦ some (suc i) ]

  -- RemoveAtSwap of one element: the last one takes its place.
  unfoldable pub put_second : A → List A → List A
  put_second x [] = x ∷ []
  put_second x (z ∷ zs) = z ∷ x ∷ zs

  unfoldable pub last_first : A → List A → List A
  unfolding put_second
  last_first x [] = x ∷ []
  last_first x (y ∷ ys) = put_second x (last_first y ys)

  unfoldable pub remove_at_swap : ℕ → List A → List A
  unfolding last_first
  remove_at_swap i [] = []
  remove_at_swap zero (x ∷ []) = []
  remove_at_swap zero (x ∷ y ∷ ys) = last_first y ys
  remove_at_swap (suc i) (x ∷ xs) = x ∷ remove_at_swap i xs

-- What is relied on of the engine's world. SpawnActor takes the actors of the level, a requested name,
-- a class and a transform; its actor, if any, has that class, and stands last in the level.
pub record Spawner (E : Engine) : Type 0 where
  pub spawn : List (Option (Actor E)) → Name → Option ℕ → E.Transform → Option (Actor E)
  pub class-spawn :
      (actors : List (Option (Actor E))) (name : Name) (class : Option ℕ) (t : E.Transform)
      (a : Actor E)
      → spawn actors name class t ≡ some a
      → class ≡ some a.class
  -- whether AActor::Destroy destroys an actor, which leaves a null entry
  pub destroys : Actor E → Bool

module _ {E : Engine} where
  -- A pointer to a record is its place in the level record.
  unfoldable pub record_matches : List (ActorRecord E) → Actor E → ℕ → Bool
  record_matches records a i = elim (get_elem? records i) [
    | none ↦ false
    | some r ↦ is_record_of r.object a.name a.class
  ]

  -- RemoveSingleRecordPtrSwap: whether it found a record of the actor, and the records that are left
  unfoldable pub remove_single_record_ptr_swap :
      List (ActorRecord E) → List ℕ → Actor E → Bool × List ℕ
  unfolding record_matches
  remove_single_record_ptr_swap records to_spawn a =
      elim (index_of_by_predicate (record_matches records a) to_spawn) [
        | none ↦ (false, to_spawn)
        | some i ↦ (true, remove_at_swap i to_spawn)
      ]

  -- A write of a record's name through a pointer
  unfoldable pub rename_at : ℕ → Name → List (ActorRecord E) → List (ActorRecord E)
  rename_at i name [] = []
  rename_at zero name (r ∷ rs) = record r { object = record r.object { name = name } } ∷ rs
  rename_at (suc i) name (r ∷ rs) = r ∷ rename_at i name rs

  -- the pointers to all records
  unfoldable pub places_from : ℕ → List (ActorRecord E) → List ℕ
  places_from i [] = []
  places_from i (r ∷ rs) = i ∷ places_from (suc i) rs

module _ {E : Engine} (sp : Spawner E) where
  -- The entry of an actor after the loop has seen it
  unfoldable pub destroy_unrecorded : LevelFilter → Bool → Actor E → Option (Actor E)
  destroy_unrecorded filter found a =
      if should_save_actor filter a.class && not found && sp.destroys a then none else some a

  -- The loop of PrepareLevel over the actors of the level
  unfoldable pub prepare_actors :
      LevelFilter
      → List (ActorRecord E)
      → List ℕ
      → List (Option (Actor E))
      → List ℕ × List (Option (Actor E))
  prepare_actors filter records to_spawn [] = (to_spawn, [])
  prepare_actors filter records to_spawn (none ∷ actors) =
      let (left, rest) = prepare_actors filter records to_spawn actors in (left, none ∷ rest)
  prepare_actors filter records to_spawn (some a ∷ actors) =
      let (found, to_spawn') = remove_single_record_ptr_swap records to_spawn a in
      let (left, rest) = prepare_actors filter records to_spawn' actors in
      (left, destroy_unrecorded filter found a ∷ rest)

  -- RespawnActors; `none` is a spawn that gives no actor, whose name is asked for all the same.
  unfoldable pub respawn_actors :
      List ℕ
      → List (ActorRecord E)
      → List (Option (Actor E))
      → Option (List (ActorRecord E) × List (Option (Actor E)))
  unfolding rename_at
  respawn_actors [] records actors = some (records, actors)
  respawn_actors (i ∷ places) records actors = do
    r ← get_elem? records i
    a ← sp.spawn actors r.name r.class r.transform
    respawn_actors places (rename_at i a.name records) (actors ++ some a ∷ [])

  -- PrepareLevel
  unfoldable pub prepare_level :
      LevelFilter
      → List (ActorRecord E)
      → List (Option (Actor E))
      → Option (List (ActorRecord E) × List (Option (Actor E)))
  unfolding prepare_actors places_from
  prepare_level filter records actors =
      let (left, kept) = prepare_actors filter records (places_from 0 records) actors in
      respawn_actors left records kept

  -- PrepareLevel of a level of the world and its record in the slot data, if there is one
  unfoldable pub prepare_recorded_level :
      Option Name → Level E → SlotData E → Option (SlotData E × Level E)
  unfolding prepare_level
  prepare_recorded_level name level d = elim (find_level_record d name) [
    | none ↦ some (d, level)
    | some r ↦ do
      (records, actors) ← prepare_level (get_level_filter d r) r.actors level.actors
      some (
        update_level_record (λ old. record old { actors = records }) d name,
        record { actors = actors },
      )
  ]

  -- PrepareAllLevels: its loop over the streaming levels, and the whole
  unfoldable pub prepare_streaming_levels :
      List (StreamingLevel E) → SlotData E → Option (SlotData E × List (StreamingLevel E))
  prepare_streaming_levels [] d = some (d, [])
  prepare_streaming_levels (l ∷ ls) d = do
    (d', l') ← elim l.loaded_level [
      | none ↦ some (d, l)
      | some level ↦ do
        (d', level') ← prepare_recorded_level (some l.package_name) level d
        some (d', record l { loaded_level = some level' })
    ]
    (d'', ls') ← prepare_streaming_levels ls d'
    some (d'', l' ∷ ls')

  unfoldable pub prepare_loaded_levels : World E → SlotData E → Option (SlotData E × World E)
  unfolding prepare_streaming_levels
  prepare_loaded_levels w d = do
    (d', main) ← prepare_recorded_level none w.current_level d
    (d'', levels) ← prepare_streaming_levels w.streaming_levels d'
    some (d'', record w { current_level = main; streaming_levels = levels })
