-- ===== src/Examples/Infos.antt =====
-- An insertion sort by date, and the infos of a disk with one slot.
use mathlib.Core.Option.{map as map_option}
use mathlib.Core.List.{Perm, IsChain}
use mathlib.Core.List.Perm
use save_extension.Base.{
  ◌≡◌, refl, true, false, Option, some, none, String, List, [], ◌∷◌, if◌then◌else◌, Bool-cases, inl,
  inr, arith,
}
use save_extension.Base.Int.{pos, ltb_ℤ}
use save_extension.SlotInfo.{SlotInfo, make_info}
use save_extension.Files.{read, write}
use save_extension.Disk.{
  find_slot_file_names, load_file, get_slot_path, save_file, get_save_folder, serialize_data,
  serialize_info, create_and_deserialize_info, create_and_deserialize_data, deserialize_object,
}
use save_extension.Infos.{NoOlder, DateSort, load_info, load_all_slot_infos_sync}
use save_extension.Infos.Found.{load_all_slot_infos_sync-Hold, load_info_lem, Hold, infos}
use save_extension.Examples.Engines.{format}
use save_extension.Examples.Disks.{files, things, Thing}
use save_extension.Examples.Files.{saved_disk}

unfoldable insert : SlotInfo → List SlotInfo → List SlotInfo
insert x [] = x ∷ []
insert x (y ∷ ys) =
    let rest = insert x ys in if ltb_ℤ x.save_date y.save_date then (y ∷ rest) else (x ∷ y ∷ ys)

unfoldable pub insertion_sort : List SlotInfo → List SlotInfo
unfolding insert
insertion_sort [] = []
insertion_sort (x ∷ xs) = insert x (insertion_sort xs)

insert-Perm : (x : SlotInfo) (ys : List SlotInfo) → Perm (insert x ys) (x ∷ ys)
unfolding insert
insert-Perm x [] = Perm.refl (x ∷ [])
insert-Perm x (y ∷ ys) = elim (Bool-cases (ltb_ℤ x.save_date y.save_date)) [
  | inl older ↦ rw older (Perm.trans (Perm.cons y (insert-Perm x ys)) (Perm.swap x y ys))
  | inr newer ↦ rw newer (Perm.refl (x ∷ y ∷ ys))
]

pub insertion_sort-Perm : (xs : List SlotInfo) → Perm (insertion_sort xs) xs
unfolding insertion_sort
insertion_sort-Perm [] = Perm.refl []
insertion_sort-Perm (x ∷ xs) =
    Perm.trans (insert-Perm x (insertion_sort xs)) (Perm.cons x (insertion_sort-Perm xs))

no_older : (x y : SlotInfo) → ltb_ℤ x.save_date y.save_date ≡ true → NoOlder y x
no_older x y older = ground arith

cons-insert :
    (a x : SlotInfo) (ys : List SlotInfo)
    → NoOlder a x
    → IsChain NoOlder (a ∷ ys)
    → IsChain NoOlder (a ∷ insert x ys)
unfolding insert
cons-insert a x [] above c = IsChain.cons-cons above (IsChain.singleton x)
cons-insert a x (y ∷ ys) above (IsChain.cons-cons h c) =
    elim (Bool-cases (ltb_ℤ x.save_date y.save_date)) [
      | inl older ↦ rw older (IsChain.cons-cons h (cons-insert y x ys (no_older x y older) c))
      | inr newer ↦ rw newer (IsChain.cons-cons above (IsChain.cons-cons newer c))
    ]

insert-IsChain :
    (x : SlotInfo) (ys : List SlotInfo) → IsChain NoOlder ys → IsChain NoOlder (insert x ys)
unfolding insert
insert-IsChain x [] c = IsChain.singleton x
insert-IsChain x (y ∷ ys) c = elim (Bool-cases (ltb_ℤ x.save_date y.save_date)) [
  | inl older ↦ rw older (cons-insert y x ys (no_older x y older) c)
  | inr newer ↦ rw newer (IsChain.cons-cons newer c)
]

pub insertion_sort-IsChain : (xs : List SlotInfo) → IsChain NoOlder (insertion_sort xs)
unfolding insertion_sort
insertion_sort-IsChain [] = IsChain.nil
insertion_sort-IsChain (x ∷ xs) = insert-IsChain x (insertion_sort xs) (insertion_sort-IsChain xs)

abbrev pub date_sort : DateSort
date_sort = record {
  sort = insertion_sort;
  sort-perm = insertion_sort-Perm;
  sort-chain = insertion_sort-IsChain;
}

abbrev pub info_of : Thing → SlotInfo
info_of o = record (make_info (pos 100)) { played_time = pos o.1 }

abbrev slots : List (String × SlotInfo)
slots = ("one", info_of (1, 4)) ∷ []

slots_found : find_slot_file_names files saved_disk ≡ "one" ∷ []
unfolding find_slot_file_names
slots_found = refl

one_loads :
    load_file files format things "one" none none false saved_disk ≡ some (true, some (1, 4), none)
unfolding load_file save_file get_slot_path get_save_folder read write serialize_data serialize_info
    create_and_deserialize_info create_and_deserialize_data deserialize_object
one_loads = refl

slots-Hold : Hold files format things info_of slots saved_disk
slots-Hold = ((some (1, 4), none, one_loads, refl), tt)

all_infos_example :
    ((loaded : List SlotInfo) × (load_all_slot_infos_sync files format things info_of date_sort true
          saved_disk
        ≡ some loaded)
      × Perm loaded (infos files format things info_of slots)
      × IsChain NoOlder loaded)
    × (load_all_slot_infos_sync files format things info_of date_sort false saved_disk
        ≡ some (infos files format things info_of slots))
all_infos_example =
    load_all_slot_infos_sync-Hold files format things info_of date_sort slots saved_disk slots_found
      slots-Hold

load_info_example :
    ((o d : Option Thing)
      → load_file files format things "one" none none false saved_disk ≡ some (true, o, d)
      → load_info files format things info_of date_sort "one" saved_disk
        ≡ some (map_option info_of o))
    × (files.contents (get_slot_path files.saved_dir "one") saved_disk ≡ none
        → load_info files format things info_of date_sort "one" saved_disk ≡ some none)
load_info_example = load_info_lem files format things info_of date_sort "one" saved_disk refl
