-- ===== src/Loader/Run/Places.antt =====
-- The streaming levels of a world while their actors change, and the place of a level among them.
use save_extension.Base.{
  ℕ, zero, suc, ◌<◌, ◌≡◌, refl, sym, ap, ◌∙◌, true, Option, none, some, List, [], ◌∷◌, length,
  get_elem?, arith, ◌==◌, string_eq, Bool-cases, inl, inr, some_eq,
}
use mathlib.Core.Option.{map as map_option}
use save_extension.Name.{Name}
use save_extension.Archive.{Each}
use save_extension.Engine.{Engine}
use save_extension.World.{Actor, Level, StreamingLevel, World}
use save_extension.Loader.Frames.{index_of, find_next_async_level}
use save_extension.Loader.Frames.Levels.{DistinctPackages, IsLoaded, find_next_async_level_lem}
use save_extension.Loader.State.{set_actors, set_streaming_actors}

module _ {E : Engine} where
  -- the same levels, with other actors
  unfoldable pub Same : List (StreamingLevel E) → List (StreamingLevel E) → Type 0
  Same [] [] = Unit
  Same [] (m ∷ ms) = ⊥
  Same (l ∷ ls) [] = ⊥
  Same (l ∷ ls) (m ∷ ms) =
      (m.package_name ≡ l.package_name) × (IsLoaded l → IsLoaded m) × Same ls ms

  Same-refl : (ls : List (StreamingLevel E)) → Same ls ls
  unfolding Same
  Same-refl [] = tt
  Same-refl (l ∷ ls) = (refl, λ h. h, Same-refl ls)

  set_streaming_actors-Same :
      (actors : List (Option (Actor E))) (ls : List (StreamingLevel E)) (name : Name)
      → Same ls (set_streaming_actors actors ls name)
  unfolding Same set_streaming_actors
  set_streaming_actors-Same actors [] name = tt
  set_streaming_actors-Same actors (l ∷ ls) name = elim (Bool-cases (l.package_name == name)) [
    | inl here ↦
        let fresh : Level E = record { actors = actors } in
        rw here (refl, λ h. (fresh, ap (map_option (λ (x : Level E). fresh)) h.1), Same-refl ls)
    | inr other ↦ rw other (refl, λ h. h, set_streaming_actors-Same actors ls name)
  ]

  pub set_actors-Same :
      (actors : List (Option (Actor E))) (w : World E) (name : Option Name)
      → Same w.streaming_levels (set_actors actors w name).streaming_levels
  unfolding set_actors
  set_actors-Same actors w none = Same-refl w.streaming_levels
  set_actors-Same actors w (some name) = set_streaming_actors-Same actors w.streaming_levels name

  Same-index_of :
      (ls ms : List (StreamingLevel E)) (name : Name)
      → Same ls ms
      → index_of ms name ≡ index_of ls name
  unfolding Same index_of
  Same-index_of [] [] name h = refl
  Same-index_of [] (m ∷ ms) name h = absurd h
  Same-index_of (l ∷ ls) [] name h = absurd h
  Same-index_of (l ∷ ls) (m ∷ ms) name (named, _, h) = rw (named, Same-index_of ls ms name h) refl

  pub Same-IsLoaded :
      (ls ms : List (StreamingLevel E)) → Same ls ms → Each IsLoaded ls → Each IsLoaded ms
  unfolding Same
  Same-IsLoaded [] [] h all = tt
  Same-IsLoaded [] (m ∷ ms) h all = absurd h
  Same-IsLoaded (l ∷ ls) [] h all = absurd h
  Same-IsLoaded (l ∷ ls) (m ∷ ms) (_, loads, h) (loaded, all) =
      (loads loaded, Same-IsLoaded ls ms h all)

  pub Same-DistinctPackages :
      (ls ms : List (StreamingLevel E)) → Same ls ms → DistinctPackages ls → DistinctPackages ms
  unfolding Same
  Same-DistinctPackages [] [] h d = tt
  Same-DistinctPackages [] (m ∷ ms) h d = absurd h
  Same-DistinctPackages (l ∷ ls) [] h d = absurd h
  Same-DistinctPackages (l ∷ ls) (m ∷ ms) (named, _, h) (other, d) = (
    ap (index_of ms) named ∙ Same-index_of ls ms l.package_name h ∙ other,
    Same-DistinctPackages ls ms h d,
  )

  pub Same-length : (ls ms : List (StreamingLevel E)) → Same ls ms → length ms ≡ length ls
  unfolding Same
  Same-length [] [] h = refl
  Same-length [] (m ∷ ms) h = absurd h
  Same-length (l ∷ ls) [] h = absurd h
  Same-length (l ∷ ls) (m ∷ ms) (_, _, h) = omega (arith, Same-length ls ms h)

  Same-at :
      (ls ms : List (StreamingLevel E)) (i : ℕ) (l : StreamingLevel E)
      → Same ls ms
      → get_elem? ls i ≡ some l
      → (m : StreamingLevel E) × (get_elem? ms i ≡ some m) × (m.package_name ≡ l.package_name)
  unfolding Same
  Same-at [] ms i l h at = absurd (ground arith)
  Same-at (k ∷ ls) [] i l h at = absurd h
  Same-at (k ∷ ls) (m ∷ ms) zero l (named, _, h) at =
      (m, refl, named ∙ ap (λ (x : StreamingLevel E). x.package_name) (some_eq at))
  Same-at (k ∷ ls) (m ∷ ms) (suc i) l (_, _, h) at = Same-at ls ms i l h at

  in_range :
      (ls : List (StreamingLevel E)) (i : ℕ) (l : StreamingLevel E)
      → get_elem? ls i ≡ some l
      → i < length ls
  in_range [] i l at = absurd (ground arith)
  in_range (k ∷ ls) zero l at = omega arith
  in_range (k ∷ ls) (suc i) l at = omega (arith, in_range ls i l at)

  -- how many streaming levels come before the one behind the current level
  unfoldable pub At : List (StreamingLevel E) → Option Name → ℕ → Type 0
  At ls none p = p ≡ 0
  At ls (some name) p =
      (i : ℕ) × (l : StreamingLevel E) × (get_elem? ls i ≡ some l)
      × (l.package_name ≡ name)
      × (p ≡ suc i)

  pub At-Same :
      (ls ms : List (StreamingLevel E)) (name : Option Name) (p : ℕ)
      → Same ls ms
      → At ls name p
      → At ms name p
  unfolding At
  At-Same ls ms none p h at = at
  At-Same ls ms (some name) p h (i, l, at, named, is) =
      let (m, at', named') = Same-at ls ms i l h at in (i, m, at', named' ∙ named, is)

  pub At-next :
      (ls : List (StreamingLevel E)) (name : Option Name) (p : ℕ)
      → Each IsLoaded ls
      → DistinctPackages ls
      → At ls name p
      → find_next_async_level (suc (length ls)) ls true name ≡ some (get_elem? ls p)
  unfolding At
  At-next ls none p all d at =
      (find_next_async_level_lem (length ls) ls all d).0
      ∙ ap (λ (q : ℕ). some (get_elem? ls q)) (sym at)
  At-next ls (some name) p all d (i, l, at, named, is) =
      ap (λ (n : Name). find_next_async_level (suc (length ls)) ls true (some n)) (sym named)
      ∙ (find_next_async_level_lem (length ls) ls all d).1 i l at
      ∙ ap (λ (q : ℕ). some (get_elem? ls q)) (sym is)

  pub At-behind :
      (ls : List (StreamingLevel E)) (p : ℕ) (l : StreamingLevel E)
      → get_elem? ls p ≡ some l
      → At ls (some l.package_name) (suc p)
  unfolding At
  At-behind ls p l at = (p, l, at, refl, refl)

  pub At-range :
      (ls : List (StreamingLevel E)) (name : Option Name) (p : ℕ)
      → At ls name p
      → p < suc (length ls)
  unfolding At
  At-range ls none p at = omega arith
  At-range ls (some name) p (i, l, at, named, is) = omega (arith, in_range ls i l at)
