-- ===== src/Loader/Frames/Levels.antt =====
-- Which level FindNextAsyncLevel finds.
use save_extension.Base.{
  ℕ, zero, suc, ◌≡◌, refl, sym, ap, subst, ◌∙◌, true, Option, none, some, List, [], ◌∷◌, arith,
  get_elem?, Bool-cases, Option-cases, inl, inr, ◌==◌, string_eq,
}
use save_extension.Base.Sets.{eq_true, eq_self}
use save_extension.Name.{Name}
use save_extension.Archive.{Each}
use save_extension.Engine.{Engine}
use save_extension.World.{Level, StreamingLevel}
use save_extension.Loader.Frames.{index_of, next_of, find_next_async_level}

module _ {E : Engine} where
  -- If the level behind the current one is not loaded, FindNextAsyncLevel calls itself with nothing changed:
  -- no number of calls is enough, so it never returns.
  pub find_next_async_level_stuck :
      (fuel : ℕ) (levels : List (StreamingLevel E)) (name : Name) (l : StreamingLevel E)
      → next_of levels name ≡ some l
      → l.loaded_level ≡ none
      → find_next_async_level fuel levels true (some name) ≡ none
  unfolding find_next_async_level
  find_next_async_level_stuck zero levels name l found unloaded = refl
  find_next_async_level_stuck (suc fuel) levels name l found unloaded =
      rw (found, find_next_async_level, unloaded)
        (find_next_async_level_stuck fuel levels name l found unloaded)

  -- No two streaming levels have one package.
  abbrev pub DistinctPackages : List (StreamingLevel E) → Type 0
  DistinctPackages [] = Unit
  DistinctPackages (l ∷ ls) = (index_of ls l.package_name ≡ none) × DistinctPackages ls

  abbrev pub IsLoaded : StreamingLevel E → Type 0
  IsLoaded l = (level : Level E) × (l.loaded_level ≡ some level)

  the_elem : {x y : StreamingLevel E} → some x ≡ some y → x ≡ y
  the_elem {x} e = ap (λ (o : Option (StreamingLevel E)). elim o [ none ↦ x | some z ↦ z ]) e

  index_of-elem :
      (ls : List (StreamingLevel E)) (i : ℕ) (l : StreamingLevel E)
      → DistinctPackages ls
      → get_elem? ls i ≡ some l
      → index_of ls l.package_name ≡ some i
  unfolding index_of
  index_of-elem [] i l d h = absurd (ground arith)
  index_of-elem (x ∷ ls) zero l d h =
      let same : (x.package_name == l.package_name) ≡ true =
        sym (ap (λ (y : StreamingLevel E). x.package_name == y.package_name) (the_elem h))
        ∙ eq_self x.package_name in
      rw same refl
  index_of-elem (x ∷ ls) (suc i) l (other, d) h =
      let found = index_of-elem ls i l d h in
      elim (Bool-cases (x.package_name == l.package_name)) [
        | inl same ↦
            cc (other, found, ap (index_of ls) (eq_true x.package_name l.package_name same))
        | inr differs ↦ rw (differs, found) refl
      ]

  next_of-elem :
      (ls : List (StreamingLevel E)) (i : ℕ) (l : StreamingLevel E)
      → DistinctPackages ls
      → get_elem? ls i ≡ some l
      → next_of ls l.package_name ≡ get_elem? ls (suc i)
  unfolding next_of
  next_of-elem ls i l d h = rw (index_of-elem ls i l d h, next_of) refl

  elem-Each :
      (P : StreamingLevel E → Type 0) (ls : List (StreamingLevel E)) (i : ℕ) (l : StreamingLevel E)
      → Each P ls
      → get_elem? ls i ≡ some l
      → P l
  elem-Each P [] i l h e = absurd (ground arith)
  elem-Each P (x ∷ ls) zero l (h, _) e = subst P (the_elem e) h
  elem-Each P (x ∷ ls) (suc i) l (_, h) e = elem-Each P ls i l h e

  -- If all streaming levels are loaded and no two have one package, FindNextAsyncLevel comes to each of them
  -- in turn: from the persistent level to the first, from each to the one behind it, and from the last to
  -- none. It returns without calling itself.
  pub find_next_async_level_lem :
      (fuel : ℕ) (levels : List (StreamingLevel E))
      → Each IsLoaded levels
      → DistinctPackages levels
      → (find_next_async_level (suc fuel) levels true none ≡ some (get_elem? levels 0))
        × ((i : ℕ) (l : StreamingLevel E)
            → get_elem? levels i ≡ some l
            → find_next_async_level (suc fuel) levels true (some l.package_name)
              ≡ some (get_elem? levels (suc i)))
  unfolding find_next_async_level
  find_next_async_level_lem fuel levels all distinct = (
    refl,
    λ i l at.
        let found : next_of levels l.package_name ≡ get_elem? levels (suc i) =
          next_of-elem levels i l distinct at in
        elim (Option-cases (get_elem? levels (suc i))) [
          | inl last ↦ rw (found, find_next_async_level, last) refl
          | inr (next, behind) ↦
              let (level, loaded) = elem-Each IsLoaded levels (suc i) next all behind in
              rw (found, find_next_async_level, behind)
                (ap
                  (λ (o : Option (Level E)). elim o [
                    | none ↦ find_next_async_level fuel levels true (some l.package_name)
                    | some _ ↦ some (some next)
                  ])
                  loaded)
        ],
  )
