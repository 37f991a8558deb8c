-- ===== src/Loader/Frames/InOneGo.antt =====
-- A frame that has the time to load a level loads it as the loop in one go does.
use save_extension.Base.{
  ℕ, zero, suc, ◌-◌, ◌≡◌, refl, sym, ap, ap₂, ◌∙◌, Bool, true, false, ◌&&◌, Option, none, some,
  List, [], ◌∷◌, ◌++◌, append_assoc, arith, length, length-append, length-drop, get_elem?, map,
  drop, if◌then◌else◌, Bool-cases, inl, inr,
}
use save_extension.LevelFilter.{LevelFilter, should_save_actor}
use save_extension.Engine.{Engine}
use save_extension.World.{Actor, Level}
use save_extension.Records.{ActorRecord}
use save_extension.Loader.{deserialize_level_actor, deserialize_entry, deserialize_level_sync}
use save_extension.Loader.Frames.{
  Frames, valid_from, update_at, actor_at, async_rounds, deserialize_async_loop, start_frames,
}

front_of :
    {A : Type 0} (xs ys : List A) (i : ℕ) (x : A)
    → drop i xs ≡ x ∷ ys
    → (get_elem? xs i ≡ some x) × (drop (suc i) xs ≡ ys)
front_of [] ys zero x h = absurd (ground arith)
front_of [] ys (suc i) x h = absurd (ground arith)
front_of (z ∷ zs) ys zero x h = (ap (λ l. get_elem? l 0) h, ap (λ l. drop 1 l) h)
front_of (z ∷ zs) ys (suc i) x h = front_of zs ys i x h

pub left_of :
    {A : Type 0} (xs : List A) (i : ℕ) (x : A)
    → get_elem? xs i ≡ some x
    → length xs - i ≡ suc (length xs - suc i)
left_of [] i x h = absurd (ground arith)
left_of (y ∷ xs) zero x h = omega arith
left_of (y ∷ xs) (suc i) x h = omega (arith, left_of xs i x h)

one_more : {A : Type 0} (xs : List A) (x : A) → suc (length xs) ≡ length (xs ++ x ∷ [])
one_more xs x = omega (arith, length-append xs (x ∷ []))

module _ {E : Engine} where
  at_end :
      (done xs : List (Option (Actor E))) (entry : Option (Actor E))
      → actor_at (done ++ entry ∷ xs) (length done) ≡ entry
  at_end [] xs entry = refl
  at_end (d ∷ done) xs entry = at_end done xs entry

  update_end :
      (f : Actor E → Actor E) (done xs : List (Option (Actor E))) (a : Actor E)
      → update_at f (length done) (done ++ some a ∷ xs) ≡ done ++ some (f a) ∷ xs
  unfolding update_at
  update_end f [] xs a = refl
  update_end f (d ∷ done) xs a = ap (λ ys. d ∷ ys) (update_end f done xs a)

  module _ (filter : LevelFilter) (records : List (ActorRecord E)) (over : ℕ → Bool)
      (in_time : (k : ℕ) → over k ≡ false) where
    abbrev frames : List (Option (Actor E)) → List ℕ → ℕ → Frames E
    frames actors current index = record {
      level_actors = actors;
      current_actors = current;
      actor_index = index;
      is_done = false;
    }

    -- What an entry becomes, by the two tests on its actor
    entry_by :
        (a : Actor E) (v w : Bool)
        → a.is_valid ≡ v
        → should_save_actor filter a.class ≡ w
        → deserialize_entry filter records (some a)
          ≡ some (if v && w then deserialize_level_actor filter records a else a)
    entry_by a v w hv hw =
        ap₂ (λ x y. some (if x && y then deserialize_level_actor filter records a else a)) hv hw

    -- One round of the loop, on an actor of the copy
    round :
        (k left : ℕ) (done xs : List (Option (Actor E))) (a : Actor E) (current : List ℕ)
        (index : ℕ)
        → get_elem? current index ≡ some (length done)
        → a.is_valid ≡ true
        → (k' : ℕ) × (async_rounds filter records over k
              (suc left)
              (frames (done ++ some a ∷ xs) current index)
            ≡ async_rounds filter records over k' left (
                frames
                  (done ++ deserialize_entry filter records (some a) ∷ xs)
                  current
                  (suc index)))
    unfolding async_rounds
    round k left done xs a current index at valid =
        elim (Bool-cases (should_save_actor filter a.class)) [
          | inl saved ↦ (
            suc k,
            rw
                (
                  entry_by a true true valid saved,
                  at,
                  async_rounds,
                  at_end done xs (some a),
                  ap₂ (λ x y. x && y) valid saved,
                  in_time k,
                  update_end (deserialize_level_actor filter records) done xs a,
                )
                refl,
          )
          | inr skipped ↦ (
            k,
            rw
                (
                  entry_by a true false valid skipped,
                  at,
                  async_rounds,
                  at_end done xs (some a),
                  ap₂ (λ x y. x && y) valid skipped,
                )
                refl,
          )
        ]

    round_end :
        (k : ℕ) (s : Frames E)
        → async_rounds filter records over k 0 s ≡ record s { is_done = true }
    unfolding async_rounds
    round_end k s = refl

    rounds :
        (k left : ℕ) (done xs actors : List (Option (Actor E))) (current : List ℕ) (index : ℕ)
        → actors ≡ done ++ xs
        → drop index current ≡ valid_from (length done) xs
        → length current - index ≡ left
        → let s = async_rounds filter records over k left (frames actors current index) in
          (s.level_actors ≡ done ++ map (deserialize_entry filter records) xs) × (s.is_done ≡ true)
    unfolding valid_from
    rounds k left done [] actors current index e copy count =
        let none_left : left ≡ 0 =
          omega (arith, count, length-drop index current, ap length copy) in
        rw (none_left, round_end k (frames actors current index)) (e, refl)
    rounds k left done (none ∷ xs) actors current index e copy count =
        let (loaded, ended) =
          rounds k left (done ++ none ∷ []) xs actors current index
            (e ∙ sym (append_assoc done _ _))
            (copy ∙ ap (λ n. valid_from n xs) (one_more done none)) count in
        (loaded ∙ append_assoc done _ _, ended)
    rounds k left done (some a ∷ xs) actors current index e copy count =
        elim (Bool-cases a.is_valid) [
          | inl valid ↦
              let (at, behind) = front_of current _ index (length done) (rw valid at copy) in
              let entry = deserialize_entry filter records (some a) in
              let left' = length current - suc index in
              let counted : left ≡ suc left' = sym count ∙ left_of current index (length done) at in
              let (k', step) = round k left' done xs a current index at valid in
              let (loaded, ended) =
                rounds k' left' (done ++ entry ∷ []) xs (done ++ entry ∷ xs) current (suc index)
                  (sym (append_assoc done _ _))
                  (behind ∙ ap (λ n. valid_from n xs) (one_more done entry)) refl in
              rw (e, counted, step) (loaded ∙ append_assoc done _ _, ended)
          | inr invalid ↦
              let (loaded, ended) =
                rounds k left (done ++ some a ∷ []) xs actors current index
                  (e ∙ sym (append_assoc done _ _))
                  ((rw invalid at copy) ∙ ap (λ n. valid_from n xs) (one_more done (some a)))
                  count in
              (
                loaded
                    ∙ append_assoc done _ _
                    ∙ ap (λ x. done ++ x ∷ map (deserialize_entry filter records) xs)
                        (sym (entry_by a false _ invalid refl)),
                ended,
              )
        ]

    -- If no frame runs out of time, DeserializeASyncLoop loads a level as DeserializeLevelSync does, in its
    -- first frame, and then its loop has ended.
    pub deserialize_async_loop-sync :
        (level : Level E)
        → let s = deserialize_async_loop filter records over (start_frames level) in
          (s.level_actors ≡ (deserialize_level_sync filter records level).actors)
          × (s.is_done ≡ true)
    unfolding deserialize_async_loop start_frames deserialize_level_sync
    deserialize_async_loop-sync level = rounds 0 _ [] level.actors level.actors _ 0 refl refl refl
