-- ===== src/Actors/Saved.antt =====
-- The records that a task makes are those of the saved actors of its part of the level.
use save_extension.Base.{
  ℕ, zero, suc, ◌+◌, ◌≤◌, ◌≡◌, refl, Option, none, some, List, [], ◌∷◌, ◌++◌, append_assoc,
  append-nil, ap, ◌∙◌, arith, length, take, drop, get_elem?, if◌then◌else◌, Bool-cases, inl, inr,
}
use save_extension.LevelFilter.{LevelFilter, should_save_actor}
use save_extension.Engine.{Engine}
use save_extension.World.{Actor}
use save_extension.Records.{ActorRecord}
use save_extension.Actors.{serialize_actor, serialize_from}

module _ {E : Engine} where
  -- The records of the actors that a filter saves, in the order of the actors.
  unfoldable pub saved_actors : LevelFilter → List (Option (Actor E)) → List (ActorRecord E)
  saved_actors filter [] = []
  saved_actors filter (none ∷ actors) = saved_actors filter actors
  saved_actors filter (some a ∷ actors) =
      let rest = saved_actors filter actors in
      if should_save_actor filter a.class then (serialize_actor filter a ∷ rest) else rest

  pub saved_actors-append :
      (f : LevelFilter) (xs ys : List (Option (Actor E)))
      → saved_actors f (xs ++ ys) ≡ saved_actors f xs ++ saved_actors f ys
  unfolding saved_actors
  saved_actors-append f [] ys = refl
  saved_actors-append f (none ∷ xs) ys = saved_actors-append f xs ys
  saved_actors-append f (some a ∷ xs) ys = elim (Bool-cases (should_save_actor f a.class)) [
    | inl saved ↦ rw (saved, saved_actors-append f xs ys)
    | inr skipped ↦ rw (skipped, saved_actors-append f xs ys)
  ]

  drop_elem :
      (actors : List (Option (Actor E))) (i : ℕ)
      → suc i ≤ length actors
      → (entry : Option (Actor E)) × (get_elem? actors i ≡ some entry)
        × (drop i actors ≡ entry ∷ drop (suc i) actors)
  drop_elem [] i h = absurd (omega arith)
  drop_elem (x ∷ xs) zero h = (x, refl, refl)
  drop_elem (x ∷ xs) (suc i) h = drop_elem xs i (omega arith)

  one_entry :
      (f : LevelFilter) (actors front : List (Option (Actor E))) (i num : ℕ)
      (records : List (ActorRecord E)) (entry : Option (Actor E))
      → ((rs : List (ActorRecord E))
          → serialize_from f actors (suc i) num rs ≡ some (rs ++ saved_actors f front))
      → get_elem? actors i ≡ some entry
      → serialize_from f actors i (suc num) records
        ≡ some (records ++ saved_actors f (entry ∷ front))
  unfolding serialize_from saved_actors
  one_entry f actors front i num records none ih e = rw e (ih records)
  one_entry f actors front i num records (some a) ih e =
      elim (Bool-cases (should_save_actor f a.class)) [
        | inl saved ↦ rw (e, saved) (ih _ ∙ ap some (append_assoc records _ _))
        | inr skipped ↦ rw (e, skipped) (ih records)
      ]

  pub serialize_from_lem :
      (f : LevelFilter) (actors : List (Option (Actor E))) (i num : ℕ)
      (records : List (ActorRecord E))
      → i + num ≤ length actors
      → serialize_from f actors i num records
        ≡ some (records ++ saved_actors f (take num (drop i actors)))
  unfolding serialize_from saved_actors
  serialize_from_lem f actors i zero records h = rw (append-nil records) refl
  serialize_from_lem f actors i (suc num) records h =
      let (entry, found, front) = drop_elem actors i (omega (arith, h)) in
      rw front (
        one_entry f actors (take num (drop (suc i) actors)) i num records entry
          (λ rs. serialize_from_lem f actors (suc i) num rs (omega (arith, h))) found)
