-- ===== src/Disk/Delete.antt =====
-- Deleting one slot, and all slots.
use save_extension.Base.{
  ℕ, ◌≡◌, ◌≢◌, refl, sym, ap, ◌∙◌, Bool, true, false, Option, none, some, String, List, [], ◌∷◌,
  ◌++◌, append-nil, append_assoc, ◌==◌, string_eq, Bool-cases, Option-cases, inl, inr,
  if◌then◌else◌, false≢true,
}
use mathlib.Core.List.{flat_map}
use save_extension.Base.Sets.{contains, eq_self, eq_true}
use save_extension.Name.{Name}
use save_extension.Disk.{
  FileManager, get_slot_path, delete_file, does_file_exist, delete_each, delete_slots,
  find_slot_file_names, get_save_folder, visit, visit_all,
}
use save_extension.Disk.Paths.{get_slot_path_injective}

module _ {W : Type 0} (fm : FileManager W) where
  -- Every file that is there can be deleted.
  abbrev pub CanDelete : Type 0
  CanDelete = (p : String) (w : W) → fm.contents p w ≢ none → fm.deletes p w ≡ true

  pub gone : (p : String) (w : W) → CanDelete → fm.contents p (fm.delete p w) ≡ none
  gone p w can = elim (Bool-cases (fm.deletes p w)) [
    | inl did ↦ fm.contents-delete p w did
    | inr did_not ↦ elim (Option-cases (fm.contents p w)) [
      | inl missing ↦ rw (fm.delete_fails p w did_not) missing
      | inr (bytes, there) ↦ cc (did_not, can p w (λ missing. cc (there, missing)))
    ]
  ]

  pub slot_kept :
      (name other : String) (w : W)
      → name ≢ other
      → fm.contents (get_slot_path fm.saved_dir other) (delete_file fm name w).1
        ≡ fm.contents (get_slot_path fm.saved_dir other) w
  unfolding delete_file
  slot_kept name other w ne =
      fm.contents-delete_ne _ _ w (λ e. ne (get_slot_path_injective fm.saved_dir name other e))

  exists-contents :
      (name : String) (w w' : W)
      → fm.contents (get_slot_path fm.saved_dir name) w'
        ≡ fm.contents (get_slot_path fm.saved_dir name) w
      → does_file_exist fm name w' ≡ does_file_exist fm name w
  unfolding does_file_exist
  exists-contents name w w' e =
      ap (λ (o : Option (List ℕ)). elim o [ none ↦ false | some _ ↦ true ]) e

  missing-exists :
      (name : String) (w : W)
      → fm.contents (get_slot_path fm.saved_dir name) w ≡ none
      → does_file_exist fm name w ≡ false
  unfolding does_file_exist
  missing-exists name w e = rw (e, does_file_exist)

  slot_gone :
      (name : String) (w : W)
      → CanDelete
      → fm.contents (get_slot_path fm.saved_dir name) (delete_file fm name w).1 ≡ none
  unfolding delete_file
  slot_gone name w can = gone (get_slot_path fm.saved_dir name) w can

  -- Deleting every file of a list of names.
  delete_each_lem :
      (names : List String) (name : String) (w : W)
      → CanDelete
      → (fm.contents (get_slot_path fm.saved_dir name) w ≡ none
          → fm.contents (get_slot_path fm.saved_dir name) (delete_each fm names w) ≡ none)
        × (contains names name ≡ true
            → fm.contents (get_slot_path fm.saved_dir name) (delete_each fm names w) ≡ none)
        × (contains names name ≡ false
            → fm.contents (get_slot_path fm.saved_dir name) (delete_each fm names w)
              ≡ fm.contents (get_slot_path fm.saved_dir name) w)
  unfolding delete_each contains
  delete_each_lem [] name w can = (λ h. h, λ h. absurd (false≢true h), λ _. refl)
  delete_each_lem (n ∷ names) name w can =
      let (still, found, kept) = delete_each_lem names name (delete_file fm n w).1 can in
      elim (Bool-cases (n == name)) [
        | inl same ↦
            let now : fm.contents (get_slot_path fm.saved_dir name) (delete_file fm n w).1 ≡ none =
              rw (eq_true n name same) (slot_gone name w can) in
            (λ _. still now, λ _. still now, λ h. cc (rw same at h))
        | inr other ↦
            let same_file =
              slot_kept n name w
                (λ e. cc (other, ap (λ (x : String). x == name) e, eq_self name)) in
            (
              λ h. still (same_file ∙ h),
              λ h. found (rw other at h),
              λ h. kept (rw other at h) ∙ same_file,
            )
      ]

  -- The task that deletes all slots, on a disk on which every file can be deleted, succeeds; it leaves
  -- none of the slots that FindSlotFileNames finds, and every other file of a slot as it was.
  delete_slots_all :
      (name : String) (w : W)
      → CanDelete
      → ((delete_slots fm "" w).0 ≡ true)
        × (does_file_exist fm name (delete_slots fm "" w).1 ≡ (
            if contains (find_slot_file_names fm w) name then false else does_file_exist fm name w))
  unfolding delete_slots
  delete_slots_all name w can =
      let (_, found, kept) = delete_each_lem (find_slot_file_names fm w) name w can in
      (
        refl,
        elim (Bool-cases (contains (find_slot_file_names fm w) name)) [
          | inl listed ↦ rw listed (missing-exists name _ (found listed))
          | inr unlisted ↦ rw unlisted (exists-contents name w _ (kept unlisted))
        ],
      )

  -- The name that a directory entry adds to the slots, if any.
  abbrev pub slot_of : String × Bool → List String
  slot_of (path, true) = []
  slot_of (path, false) =
      let (folder, filename, extension) = fm.split path in
      if extension == "sav" then filename ∷ [] else []

  visit_all_lem :
      (found : List String) (es : List (String × Bool))
      → visit_all fm found es ≡ found ++ flat_map slot_of es
  unfolding visit_all visit flat_map
  visit_all_lem found [] = sym (append-nil found)
  visit_all_lem found ((path, true) ∷ es) = visit_all_lem found es
  visit_all_lem found ((path, false) ∷ es) = elim (Bool-cases ((fm.split path).2 == "sav")) [
    | inl save ↦
        rw save (visit_all_lem (found ++ (fm.split path).1 ∷ []) es ∙ append_assoc found _ _)
    | inr other ↦ rw other (visit_all_lem found es)
  ]

  -- FindSlotFileNames lists, in the order of the folder, the names of the files of the save folder whose
  -- extension is `sav`.
  find_slot_file_names-entries :
      (w : W)
      → find_slot_file_names fm w ≡ flat_map slot_of (fm.entries (get_save_folder fm.saved_dir) w)
  unfolding find_slot_file_names
  find_slot_file_names-entries w = visit_all_lem [] _
