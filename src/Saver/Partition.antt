-- ===== src/Saver/Partition.antt =====
-- How the actors of a level are split between tasks.
use save_extension.Base.{
  ℕ, zero, suc, ◌+◌, ◌-◌, ◌*◌, ◌≤◌, ◌<◌, ◌≡◌, refl, sym, ap, ◌∙◌, Bool, false, ◌&&◌, Option, List,
  [], ◌∷◌, arith, length, take, drop, Bool-cases, inl, inr, leb, ltb, min, ltb→lt, leb→le, drop_all,
  take-append-drop,
}
use mathlib.Core.List.{flat_map}
use native.Mathlib.Nat.{
  mul-le-mul_left, lt-mul-div-succ, lt_of_mul-lt-mul_right, suc-mul, one-mul, zero-mul,
}
use save_extension.Name.{Name}
use save_extension.Archive.{Each}
use save_extension.Engine.{Engine}
use save_extension.World.{Actor}
use save_extension.Records.{is_valid_record, unset_actor}
use save_extension.SlotData.{SlotData, LevelRecord, get_level_filter}
use save_extension.Actors.{SerializeTask}
use save_extension.Actors.Saved.{saved_actors, saved_actors-append}
use save_extension.Saver.{split_actors, num_per_task, ceil_div}
use save_extension.Saver.Schedule.{IsNew, records_of, any_stores}

enough_tasks : (n a L per : ℕ) → 0 < a → ceil_div n a ≤ per → 0 < per → L * per < n + per → L ≤ a
enough_tasks n a L per h c p e =
    let covered : n ≤ a * per =
      omega (arith, h, mul-le-mul_left a c, lt-mul-div-succ (n + a - 1) h) in
    lt_succ (lt_of_mul-lt-mul_right per (omega (arith, e, covered)))
  where
    lt_succ : L < a + 1 → L ≤ a
    lt_succ k = omega arith

next_task :
    (L n index per : ℕ)
    → 0 < per
    → index < n
    → L * per < (n - (index + min (n - index) per)) + per
    → suc L * per < (n - index) + per
next_task L n index per positive more h = elim (Bool-cases (leb per (n - index))) [
  | inl full ↦ omega (arith, suc-mul L per, leb→le per (n - index) full)
  | inr last ↦
      let short : n - index < per = ground arith in
      let one : L < 1 = lt_of_mul-lt-mul_right per (omega (arith, one-mul per)) in
      let empty : L * per ≡ 0 =
        ap (λ k. k * per) (let e : L ≡ 0 = omega arith in e) ∙ zero-mul per in
      omega (arith, suc-mul L per, empty)
]

module _ {A : Type 0} where
  drop_further : (i k : ℕ) (xs : List A) → drop k (drop i xs) ≡ drop (i + k) xs
  drop_further zero k xs = ap (λ n. drop n xs) (omega arith)
  drop_further (suc i) k [] =
      drop_all k [] (omega arith) ∙ sym (drop_all (suc i + k) [] (omega arith))
  drop_further (suc i) k (x ∷ xs) =
      let next : suc i + k ≡ suc (i + k) = omega arith in
      drop_further i k xs ∙ ap (λ n. drop n (x ∷ xs)) (sym next)

module _ {E : Engine} where
  -- A new task that makes records for a level.
  abbrev pub IsFresh : Option Name → SerializeTask E → Type 0
  IsFresh target t = IsNew t × (t.level_record ≡ target)

  module _ (actors : List (Option (Actor E))) (per : ℕ) (positive : 0 < per) (stores : Bool)
      (target : Option Name) (d : SlotData E) (r : LevelRecord E) where
    split_actors-IsFresh :
        (fuel index : ℕ)
        → Each (IsFresh target) (split_actors fuel actors per index stores target d r)
    unfolding split_actors is_valid_record unset_actor
    split_actors-IsFresh zero index = tt
    split_actors-IsFresh (suc fuel) index = elim (Bool-cases (ltb index (length actors))) [
      | inl more ↦ rw more (((refl, refl, refl, ground arith), refl), split_actors-IsFresh fuel _)
      | inr end ↦ rw end tt
    ]

    split_records :
        (fuel index : ℕ)
        → length actors ≤ index + fuel
        → flat_map records_of (split_actors fuel actors per index stores target d r)
          ≡ saved_actors (get_level_filter d r) (drop index actors)
    unfolding split_actors flat_map saved_actors
    split_records zero index h = rw (drop_all index actors (omega (arith, h))) refl
    split_records (suc fuel) index h = elim (Bool-cases (ltb index (length actors))) [
      | inl more ↦
          let num = min (length actors - index) per in
          let f = get_level_filter d r in
          rw
            (
              more,
              split_records fuel (index + num) (ground (arith, positive)),
              sym (drop_further index num actors),
              sym (
                  saved_actors-append f (take num (drop index actors))
                    (drop num (drop index actors))),
              take-append-drop num (drop index actors),
            )
            refl
      | inr end ↦ rw (end, drop_all index actors (ground arith)) refl
    ]

    split_count :
        (fuel index : ℕ)
        → length (split_actors fuel actors per index stores target d r) * per
          < (length actors - index) + per
    unfolding split_actors
    split_count zero index = omega (arith, positive)
    split_count (suc fuel) index = elim (Bool-cases (ltb index (length actors))) [
      | inl more ↦ rw more (
          next_task _ (length actors) index per positive (ltb→lt _ _ more)
            (split_count fuel (index + min (length actors - index) per)))
      | inr end ↦ rw end (omega (arith, positive))
    ]

    -- Only the task that begins with the first actor stores the game instance.
    split_later :
        (fuel index : ℕ)
        → 0 < index
        → any_stores (split_actors fuel actors per index stores target d r) ≡ false
    unfolding split_actors any_stores
    split_later zero index h = refl
    split_later (suc fuel) index h = elim (Bool-cases (ltb index (length actors))) [
      | inl more ↦ rw more (
          ground
            (arith, h, split_later fuel (index + min (length actors - index) per) (ground arith)))
      | inr end ↦ rw end refl
    ]

    -- The first task of a level stores the game instance, if the slot does and the level has an actor.
    split_first :
        (fuel : ℕ)
        → length actors ≤ fuel
        → any_stores (split_actors fuel actors per 0 stores target d r)
          ≡ (ltb 0 (length actors) && stores)
    unfolding split_actors any_stores
    split_first zero h = ground (arith, h)
    split_first (suc fuel) h = elim (Bool-cases (ltb 0 (length actors))) [
      | inl more ↦ rw more (
          ground
            (arith, split_later fuel (0 + min (length actors - 0) per) (ground (arith, positive))))
      | inr end ↦ rw end refl
    ]

  -- SerializeLevelSync splits the actors of a level into tasks that lie in the level and that together
  -- make the records of its saved actors, each once and in their order; and there are no more of them than
  -- were assigned, if any were.
  pub split_actors_lem :
      (actors : List (Option (Actor E))) (assigned : ℕ) (stores : Bool) (target : Option Name)
      (d : SlotData E) (r : LevelRecord E)
      → 0 < assigned
      → let tasks =
          split_actors
            (length actors)
            actors
            (num_per_task (length actors) assigned)
            0
            stores
            target
            d
            r in
        (flat_map records_of tasks ≡ saved_actors (get_level_filter d r) actors)
        × Each (IsFresh target) tasks
        × (length tasks ≤ assigned)
  split_actors_lem actors assigned stores target d r h =
      let per = num_per_task (length actors) assigned in
      let positive : 0 < per = omega arith in
      (
        split_records actors per positive stores target d r (length actors) 0 (omega arith),
        split_actors-IsFresh actors per positive stores target d r (length actors) 0,
        enough_tasks (length actors) assigned _ per h (omega arith) positive
            (omega (arith, split_count actors per positive stores target d r (length actors) 0)),
      )
