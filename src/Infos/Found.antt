-- ===== src/Infos/Found.antt =====
-- The infos that are found.
use save_extension.Base.{
  ℕ, suc, ◌≡◌, refl, sym, ap, ◌∙◌, true, false, Option, none, some, String, List, [], ◌∷◌, map,
  length, leb, arith, inl, inr, Option-cases, false≢true, some_eq,
}
use mathlib.Core.Option.{map as map_option}
use mathlib.Core.List.{Perm, IsChain}
use mathlib.Core.List.Perm
use save_extension.Name.{Name, is_none}
use save_extension.Archive.{Bytes}
use save_extension.Files.{FileFormat, SaveFile, new_file, read}
use save_extension.Disk.{
  FileManager, Objects, get_slot_path, find_slot_file_names, create_and_deserialize_info,
  create_and_deserialize_data, load_file,
}
use save_extension.SlotInfo.{SlotInfo}
use save_extension.Infos.{
  NoOlder, DateSort, all_there, load_slot_files, sort_slots, do_load_infos, after_load_infos,
  load_info, load_all_slot_infos_sync, info_in,
}

all_there-map : {A : Type 0} (xs : List A) → all_there (map some xs) ≡ some xs
unfolding all_there
all_there-map [] = refl
all_there-map (x ∷ xs) = rw (all_there-map xs) refl

many : (n : ℕ) → leb (suc (suc n)) 1 ≡ false
many n = ground arith

module _ {W : Type 0} (fm : FileManager W) (F : FileFormat) (O : Objects)
    (info_of : O.Obj → SlotInfo) where
  -- The file of each slot holds the info beside its name.
  abbrev pub Hold : List (String × SlotInfo) → W → Type 0
  Hold [] w = Unit
  Hold ((name, info) ∷ slots) w =
      ((o d : Option O.Obj) × (load_file fm F O name none none false w ≡ some (true, o, d))
        × (map_option info_of o ≡ some info))
      × Hold slots w

  abbrev pub names : List (String × SlotInfo) → List String
  names = map (λ s. s.0)

  abbrev pub infos : List (String × SlotInfo) → List SlotInfo
  infos = map (λ s. s.1)

  -- what a load that succeeds has read
  load_step :
      (name : String) (w : W) (o d : Option O.Obj)
      → load_file fm F O name none none false w ≡ some (true, o, d)
      → (bytes : Bytes) × (file : SaveFile F) × (fm.contents (get_slot_path fm.saved_dir name) w
          ≡ some bytes)
        × (read F (new_file F) bytes true ≡ some file)
        × (create_and_deserialize_info O file ≡ o)
  unfolding load_file
  load_step name w o d h = elim (Option-cases (fm.contents (get_slot_path fm.saved_dir name) w)) [
    | inl missing ↦
        let e : some (false, none, none) ≡ some (true, o, d) =
          sym (rw (missing, load_file) refl) ∙ h in
        absurd (false≢true (ap (λ p. p.0) (some_eq e)))
    | inr (bytes, there) ↦ elim (Option-cases (read F (new_file F) bytes true)) [
      | inl unread ↦
          let e : none ≡ some (true, o, d) = sym (rw (there, load_file) (rw unread refl)) ∙ h in
          absurd (ground arith)
      | inr (file, was_read) ↦
          let e : some
                (true, create_and_deserialize_info O file, create_and_deserialize_data O file)
              ≡ some (true, o, d) =
            sym (rw (there, load_file) (rw was_read refl)) ∙ h in
          (bytes, file, there, was_read, ap (λ p. p.1) (some_eq e))
    ]
  ]

  load_slot_files_lem :
      (slots : List (String × SlotInfo)) (w : W)
      → Hold slots w
      → (files : List (SaveFile F)) × (load_slot_files fm F O info_of (names slots) w ≡ some files)
        × (map (info_in fm F O info_of) files ≡ map some (infos slots))
  unfolding load_slot_files
  load_slot_files_lem [] w h = ([], refl, refl)
  load_slot_files_lem ((name, info) ∷ slots) w ((o, d, loads, is_info), rest) =
      let (files, does, holds) = load_slot_files_lem slots w rest in
      let (bytes, file, there, was_read, gives) = load_step name w o d loads in
      (
        file ∷ files,
        rw does (rw there (rw was_read refl)),
        rw (gives, holds) (ap (λ x. x ∷ map some (infos slots)) is_info),
      )

  sort_slots_lem :
      (ds : DateSort) (xs : List SlotInfo)
      → (ys : List SlotInfo) × (sort_slots fm F O info_of ds (map some xs) ≡ some (map some ys))
        × Perm ys xs
        × IsChain NoOlder ys
  unfolding sort_slots
  sort_slots_lem ds [] = ([], refl, Perm.refl [], IsChain.nil)
  sort_slots_lem ds (x ∷ []) = (x ∷ [], refl, Perm.refl (x ∷ []), IsChain.singleton x)
  sort_slots_lem ds (x ∷ y ∷ xs) = (
    ds.sort (x ∷ y ∷ xs),
    rw (all_there-map (x ∷ y ∷ xs), many (length (map (λ (z : SlotInfo). some z) xs))) refl,
    ds.sort-perm _,
    ds.sort-chain _,
  )

  -- If the files that are found are those of slots that each hold an info, then loading all infos
  -- delivers exactly those infos: in some order with no info before a more recent one if sorting by date
  -- is asked for, and in the order of the files if not.
  pub load_all_slot_infos_sync-Hold :
      (ds : DateSort) (slots : List (String × SlotInfo)) (w : W)
      → find_slot_file_names fm w ≡ names slots
      → Hold slots w
      → ((loaded : List SlotInfo) × (load_all_slot_infos_sync fm F O info_of ds true w
            ≡ some loaded)
          × Perm loaded (infos slots)
          × IsChain NoOlder loaded)
        × (load_all_slot_infos_sync fm F O info_of ds false w ≡ some (infos slots))
  unfolding load_all_slot_infos_sync do_load_infos after_load_infos
  load_all_slot_infos_sync-Hold ds slots w found hold =
      let (files, does, holds) = load_slot_files_lem slots w hold in
      let (sorted, sorts, permuted, chain) = sort_slots_lem ds (infos slots) in
      (
        (sorted, rw found (rw does (rw holds (rw sorts (all_there-map sorted)))), permuted, chain),
        rw found (rw does (rw holds (all_there-map (infos slots)))),
      )

  -- Where the file of a slot can be loaded, the info that LoadInfo gives for its name is the one that the
  -- file holds; where there is no file, it gives none.
  pub load_info_lem :
      (ds : DateSort) (name : Name) (w : W)
      → is_none name ≡ false
      → ((o d : Option O.Obj)
          → load_file fm F O name none none false w ≡ some (true, o, d)
          → load_info fm F O info_of ds name w ≡ some (map_option info_of o))
        × (fm.contents (get_slot_path fm.saved_dir name) w ≡ none
            → load_info fm F O info_of ds name w ≡ some none)
  unfolding load_info do_load_infos load_slot_files
  load_info_lem ds name w named = (
    λ o d loads.
        let (bytes, file, there, was_read, gives) = load_step name w o d loads in
        rw named (rw there (rw was_read (ap (λ x. some (map_option info_of x)) gives))),
    λ missing. rw named (rw missing refl),
  )
