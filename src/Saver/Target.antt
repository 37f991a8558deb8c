-- ===== src/Saver/Target.antt =====
-- The records of the levels: found, written and dumped into by the names of their levels.
use save_extension.Base.{
  ◌≡◌, refl, sym, ap, ◌∙◌, Bool, true, false, Option, none, some, List, [], ◌∷◌, ◌++◌, append_assoc,
  append-nil, arith, map, Bool-cases, inl, inr, if◌then◌else◌, ◌==◌, string_eq, eq_iff,
}
use mathlib.Core.Option.{map as map_option}
use save_extension.Base.Sets.{eq_self, eq_true}
use save_extension.Name.{Name}
use save_extension.Archive.{Each}
use save_extension.Engine.{Engine}
use save_extension.Records.{ActorRecord}
use save_extension.SlotData.{
  LevelRecord, SlotData, find_sub_level, find_level_record, update_sub_level, update_level_record,
}
use save_extension.Actors.{SerializeTask, dump_data}
use save_extension.Saver.{dump_all}
use save_extension.Saver.Schedule.{records_of, complete, IsNew}

-- Two names of level records, where `none` is the main level.
abbrev pub same_record : Option Name → Option Name → Bool
same_record none none = true
same_record none (some b) = false
same_record (some a) none = false
same_record (some a) (some b) = a == b

pub same_record_eq : (s t : Option Name) → same_record s t ≡ true → s ≡ t
same_record_eq none none h = refl
same_record_eq none (some b) h = absurd (ground arith)
same_record_eq (some a) none h = absurd (ground arith)
same_record_eq (some a) (some b) h = ap some (eq_true a b h)

pub same_record_self : (s : Option Name) → same_record s s ≡ true
same_record_self none = refl
same_record_self (some a) = eq_self a

pub same_record_comm : (s t : Option Name) → same_record s t ≡ same_record t s
same_record_comm none none = refl
same_record_comm none (some b) = refl
same_record_comm (some a) none = refl
same_record_comm (some a) (some b) = ground (arith, eq_iff a b, eq_iff b a)

module _ {E : Engine} where
  abbrev pub KeepsName : (LevelRecord E → LevelRecord E) → Type 0
  KeepsName f = (r : LevelRecord E) → (f r).name ≡ r.name

  sub_level-update :
      (f : LevelRecord E → LevelRecord E) (rs : List (LevelRecord E)) (a b : Name)
      → KeepsName f
      → find_sub_level (update_sub_level f rs a) b
        ≡ (if a == b then map_option f (find_sub_level rs b) else find_sub_level rs b)
  unfolding find_sub_level update_sub_level
  sub_level-update f [] a b keeps = ground arith
  sub_level-update f (r ∷ rs) a b keeps = elim (Bool-cases (r.name == a)) [
    | inl here ↦
        let same_test : ((f r).name == b) ≡ (a == b) =
          ap (λ (n : Name). n == b) (keeps r ∙ eq_true r.name a here) in
        let old_test : (r.name == b) ≡ (a == b) =
          ap (λ (n : Name). n == b) (eq_true r.name a here) in
        elim (Bool-cases (a == b)) [
          | inl wanted ↦ rw (here, same_test, old_test, wanted) refl
          | inr other ↦ rw (here, same_test, old_test, other) refl
        ]
    | inr not_here ↦ elim (Bool-cases (r.name == b)) [
      | inl wanted ↦
          let other : (a == b) ≡ false =
            ground (
              arith,
              not_here,
              ap (λ n. n == a) (eq_true r.name b wanted),
              eq_iff a b,
              eq_iff b a,
            ) in
          rw (not_here, wanted, other) refl
      | inr skipped ↦ rw (not_here, skipped) (sub_level-update f rs a b keeps)
    ]
  ]

  -- FindLevelRecord after a write through a record that it found
  pub find-update :
      (f : LevelRecord E → LevelRecord E) (d : SlotData E) (s t : Option Name)
      → KeepsName f
      → find_level_record (update_level_record f d s) t
        ≡ (if same_record s t then map_option f (find_level_record d t) else find_level_record d t)
  unfolding find_level_record update_level_record
  find-update f d none none keeps = refl
  find-update f d none (some b) keeps = refl
  find-update f d (some a) none keeps = refl
  find-update f d (some a) (some b) keeps = sub_level-update f d.sub_levels a b keeps

  -- The records that tasks make for one level, in the order of the tasks
  unfoldable pub records_for : Option Name → List (SerializeTask E) → List (ActorRecord E)
  records_for target [] = []
  records_for target (t ∷ ts) =
      let rest = records_for target ts in
      if same_record t.level_record target then (records_of t ++ rest) else rest

  pub records_for-append :
      (target : Option Name) (ts us : List (SerializeTask E))
      → records_for target (ts ++ us) ≡ records_for target ts ++ records_for target us
  unfolding records_for
  records_for-append target [] us = refl
  records_for-append target (t ∷ ts) us = elim (Bool-cases (same_record t.level_record target)) [
    | inl same ↦ rw (same, records_for-append target ts us) (sym (append_assoc (records_of t) _ _))
    | inr other ↦ rw (other, records_for-append target ts us) refl
  ]

  abbrev pub with_actors : List (ActorRecord E) → LevelRecord E → LevelRecord E
  with_actors actors r = record r { actors = r.actors ++ actors }

  find-dump_data :
      (t : SerializeTask E) (d : SlotData E) (target : Option Name)
      → IsNew t
      → find_level_record (dump_data (complete t) d) target ≡ (
          if same_record t.level_record target
          then map_option (with_actors (records_of t)) (find_level_record d target)
          else find_level_record d target)
  unfolding dump_data
  find-dump_data t d target (pending, empty, script, range) =
      simp (pending, empty, script)
        (find-update (with_actors (records_of t)) d t.level_record target (λ r. refl))

  pub with_none : (o : Option (LevelRecord E)) → map_option (with_actors []) o ≡ o
  with_none none = refl
  with_none (some r) =
      ap (λ (xs : List (ActorRecord E)). some (record r { actors = xs })) (append-nil r.actors)

  with_both :
      (xs ys : List (ActorRecord E)) (o : Option (LevelRecord E))
      → map_option (with_actors ys) (map_option (with_actors xs) o)
        ≡ map_option (with_actors (xs ++ ys)) o
  with_both xs ys none = refl
  with_both xs ys (some r) =
      ap (λ (zs : List (ActorRecord E)). some (record r { actors = zs }))
        (append_assoc r.actors xs ys)

  -- A level's record after all tasks are dumped: the records of the level's tasks are appended.
  pub find-dump_all :
      (ts : List (SerializeTask E)) (d : SlotData E) (target : Option Name)
      → Each IsNew ts
      → find_level_record (dump_all (map complete ts) d) target
        ≡ map_option (with_actors (records_for target ts)) (find_level_record d target)
  unfolding dump_all records_for
  find-dump_all [] d target h = sym (with_none _)
  find-dump_all (t ∷ ts) d target (h, hs) =
      find-dump_all ts (dump_data (complete t) d) target hs
      ∙ elim (Bool-cases (same_record t.level_record target)) [
        | inl same ↦
            rw (find-dump_data t d target h, same)
              (with_both (records_of t) (records_for target ts) _)
        | inr other ↦ rw (find-dump_data t d target h, other) refl
      ]
