-- ===== src/Saver/Prepare.antt =====
-- PrepareAllLevels: which records there are before a save.
use save_extension.Base.{
  ◌≡◌, refl, sym, ap, ◌∙◌, true, false, Option, none, some, List, [], ◌∷◌, ◌++◌, Bool-cases,
  Option-cases, inl, inr, if◌then◌else◌, ◌==◌, string_eq,
}
use mathlib.Core.Option.{map as map_option}
use save_extension.Base.Sets.{eq_true}
use save_extension.Name.{Name}
use save_extension.ClassFilter.{Reflection}
use save_extension.Engine.{Engine}
use save_extension.World.{Level, StreamingLevel}
use save_extension.SlotData.{
  LevelRecord, SlotData, empty_level, bake_level, bake_levels, bake_all_filters, find_sub_level,
  find_level_record,
}
use save_extension.Saver.{has_record, add_unique, add_records, prepare_all_levels}
use save_extension.Saver.Levels.{loaded, level_at}

-- The first that is there
abbrev pub or_else {ℓ} : {A : Type ℓ} → Option A → Option A → Option A
or_else none other = other
or_else (some a) other = some a

or_none : {A : Type 0} (o : Option A) → or_else o none ≡ o
or_none none = refl
or_none (some a) = refl

or_some :
    {A : Type 0} (o : Option A) (a : A) (p : Option A)
    → or_else (or_else o (some a)) p ≡ or_else o (some a)
or_some none a p = refl
or_some (some b) a p = refl

module _ {E : Engine} where
  bake_keeps : (rf : Reflection) (r : LevelRecord E) → (bake_level rf r).name ≡ r.name
  unfolding bake_level
  bake_keeps rf r = elim (Bool-cases r.override_general_filter) [
    | inl own ↦ simp own
    | inr general ↦ simp general
  ]

  has_record-find :
      (rs : List (LevelRecord E)) (name : Name)
      → has_record rs name ≡ elim (find_sub_level rs name) [ none ↦ false | some _ ↦ true ]
  unfolding has_record find_sub_level
  has_record-find [] name = refl
  has_record-find (r ∷ rs) name = elim (Bool-cases (r.name == name)) [
    | inl here ↦ simp here
    | inr further ↦ simp further (has_record-find rs name)
  ]

  find-append :
      (rs qs : List (LevelRecord E)) (name : Name)
      → find_sub_level (rs ++ qs) name ≡ or_else (find_sub_level rs name) (find_sub_level qs name)
  unfolding find_sub_level
  find-append [] qs name = refl
  find-append (r ∷ rs) qs name = elim (Bool-cases (r.name == name)) [
    | inl here ↦ simp here
    | inr further ↦ simp further (find-append rs qs name)
  ]

  find-add_unique :
      (rs : List (LevelRecord E)) (a b : Name)
      → find_sub_level (add_unique rs a) b
        ≡ or_else (find_sub_level rs b) (if a == b then some (empty_level a) else none)
  unfolding find_sub_level
  find-add_unique rs a b = elim (Option-cases (find_sub_level rs a)) [
    | inl absent ↦ rw (has_record-find rs a, absent) (find-append rs (empty_level a ∷ []) b)
    | inr (r, present) ↦
        rw (has_record-find rs a, present)
          (elim (Bool-cases (a == b)) [
            | inl same ↦
                let found : find_sub_level rs b ≡ some r =
                  ap (λ n. find_sub_level rs n) (sym (eq_true a b same)) ∙ present in
                rw (found) refl
            | inr other ↦ rw other (sym (or_none (find_sub_level rs b)))
          ])
  ]

  find-bake_levels :
      (rf : Reflection) (rs : List (LevelRecord E)) (name : Name)
      → find_sub_level (bake_levels rf rs) name
        ≡ map_option (bake_level rf) (find_sub_level rs name)
  unfolding find_sub_level bake_levels
  find-bake_levels rf [] name = refl
  find-bake_levels rf (r ∷ rs) name = elim (Bool-cases (r.name == name)) [
    | inl here ↦ simp (bake_keeps rf r, here)
    | inr further ↦ simp (bake_keeps rf r, further) (find-bake_levels rf rs name)
  ]

  abbrev pub new_level : Name → Option (Level E) → Option (LevelRecord E)
  new_level name level = map_option (λ _. empty_level name) level

  find-add_records :
      (rs : List (LevelRecord E)) (ls : List (StreamingLevel E)) (name : Name)
      → find_sub_level (add_records rs ls) name
        ≡ or_else (find_sub_level rs name) (new_level name (level_at (loaded ls) (some name)))
  unfolding add_records level_at loaded
  find-add_records rs [] name = sym (or_none (find_sub_level rs name))
  find-add_records rs (l ∷ ls) name = elim (Option-cases l.loaded_level) [
    | inl unloaded ↦ simp unloaded (find-add_records rs ls name)
    | inr (level, is_loaded) ↦ simp is_loaded (
        find-add_records (add_unique rs l.package_name) ls name
        ∙ rw (find-add_unique rs l.package_name name) (elim (Bool-cases (l.package_name == name)) [
          | inl same ↦ rw same (
              or_some (find_sub_level rs name) _ _
              ∙ ap (λ (n : Name). or_else (find_sub_level rs name) (some (empty_level n)))
                  (eq_true l.package_name name same))
          | inr other ↦ rw (other, or_none (find_sub_level rs name)) refl
        ]))
  ]

  -- PrepareAllLevels keeps the record of every level, with its own filter baked if it has one, and adds an
  -- empty record for every loaded streaming level that has none.
  pub prepare_all_levels_lem :
      (rf : Reflection) (ls : List (StreamingLevel E)) (d : SlotData E) (target : Option Name)
      → find_level_record (prepare_all_levels rf ls d) target
        ≡ or_else (map_option (bake_level rf) (find_level_record d target)) (elim target [
          | none ↦ none
          | some name ↦ new_level name (level_at (loaded ls) (some name))
        ])
  unfolding prepare_all_levels bake_all_filters find_level_record
  prepare_all_levels_lem rf ls d none = refl
  prepare_all_levels_lem rf ls d (some name) =
      find-add_records (bake_levels rf d.sub_levels) ls name
      ∙ rw (find-bake_levels rf d.sub_levels name) refl
