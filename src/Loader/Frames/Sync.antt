-- ===== src/Loader/Frames/Sync.antt =====
-- The frames of the loader against its loop in one go.
use save_extension.Base.{
  ℕ, zero, suc, ◌≡◌, refl, ap, ◌∙◌, Bool, true, false, ◌&&◌, Option, none, some, List, [], ◌∷◌,
  get_elem?, Bool-cases, Option-cases, ◌⊎◌, inl, inr, ◌==◌, nat_eq,
}
use save_extension.LevelFilter.{LevelFilter}
use save_extension.Engine.{Engine}
use save_extension.World.{Actor}
use save_extension.Archive.{Each}
use save_extension.Records.{ActorRecord, is_valid_record}
use save_extension.Loader.{find_actor_record, deserialize_actor, deserialize_level_actor}
use save_extension.Loader.Frames.InOneGo.{left_of}
use save_extension.Loader.Frames.{
  Frames, update_at, actor_at, is_loadable, async_rounds, deserialize_async_loop, tick_frame,
  tick_frames,
}

module _ {E : Engine} (filter : LevelFilter) (records : List (ActorRecord E)) where
  abbrev loads : Actor E → Actor E
  loads = deserialize_level_actor filter records

  loads_cases :
      (a : Actor E)
      → (loads a ≡ a) ⊎ ((r : ActorRecord E) × (loads a ≡ deserialize_actor filter r a))
  unfolding deserialize_level_actor
  loads_cases a = elim (Option-cases (find_actor_record records a)) [
    | inl absent ↦ inl (rw (absent, deserialize_level_actor) refl)
    | inr (r, found) ↦
        elim (Bool-cases
          (is_valid_record r.object && elim r.class [ none ↦ false | some c ↦ c == a.class ])) [
            | inl used ↦ inr (r, rw (found, deserialize_level_actor, used) refl)
            | inr unused ↦ inl (rw (found, deserialize_level_actor, unused) refl)
          ]
  ]

  -- An actor that is loaded stays valid, and of its class.
  loads_keeps : (a : Actor E) → is_loadable filter (some (loads a)) ≡ is_loadable filter (some a)
  unfolding deserialize_actor
  loads_keeps a = elim (loads_cases a) [
    | inl e ↦ ap (λ x. is_loadable filter (some x)) e
    | inr (r, e) ↦ ap (λ x. is_loadable filter (some x)) e
  ]

  loadable_after :
      (actors : List (Option (Actor E))) (place : ℕ)
      → is_loadable filter (actor_at (update_at loads place actors) place)
        ≡ is_loadable filter (actor_at actors place)
  unfolding update_at
  loadable_after [] place = refl
  loadable_after (none ∷ actors) zero = refl
  loadable_after (some a ∷ actors) zero = loads_keeps a
  loadable_after (entry ∷ actors) (suc place) = loadable_after actors place

  one_round :
      (over : ℕ → Bool) (k left : ℕ) (s : Frames E) (place : ℕ)
      → over k ≡ true
      → get_elem? s.current_actors s.actor_index ≡ some place
      → is_loadable filter (actor_at s.level_actors place) ≡ true
      → async_rounds filter records over k (suc left) s
        ≡ record s { level_actors = update_at loads place s.level_actors }
  unfolding async_rounds
  one_round over k left s place h at loadable = rw (at, async_rounds, loadable, h) refl

  one_frame :
      (over : ℕ → Bool) (s : Frames E) (place : ℕ)
      → over 0 ≡ true
      → s.is_done ≡ false
      → get_elem? s.current_actors s.actor_index ≡ some place
      → is_loadable filter (actor_at s.level_actors place) ≡ true
      → tick_frame filter records over s
        ≡ record s { level_actors = update_at loads place s.level_actors }
  unfolding tick_frame deserialize_async_loop
  one_frame over s place h going at loadable = simp (
    going,
    left_of s.current_actors s.actor_index place at,
    one_round over 0 _ s place h at loadable,
  )

  -- If the actor that is next is to be loaded, and its loading uses up the time of every frame, then the
  -- loader never comes past this actor, however many frames there are, and it never ends: the loop returns
  -- before it counts the actor.
  pub tick_frames_stuck :
      (frames : List (ℕ → Bool)) (s : Frames E) (place : ℕ)
      → Each (λ (over : ℕ → Bool). over 0 ≡ true) frames
      → s.is_done ≡ false
      → get_elem? s.current_actors s.actor_index ≡ some place
      → is_loadable filter (actor_at s.level_actors place) ≡ true
      → ((tick_frames filter records frames s).is_done ≡ false)
        × ((tick_frames filter records frames s).actor_index ≡ s.actor_index)
  unfolding tick_frames
  tick_frames_stuck [] s place h going at loadable = (going, refl)
  tick_frames_stuck (over ∷ frames) s place (h, hs) going at loadable =
      rw (one_frame over s place h going at loadable, tick_frames)
        (tick_frames_stuck frames (record s { level_actors = update_at loads place s.level_actors })
          place hs going at (loadable_after s.level_actors place ∙ loadable))
