-- ===== src/Infos.antt =====
-- FLoadSlotInfosTask (Source/SaveExtension/Public/Multithreading/LoadSlotInfosTask.h and
-- Private/Multithreading/LoadSlotInfosTask.cpp), which loads the infos of one slot or of all slots.
pub mod Found
use save_extension.Base.{
  ℕ, ◌≡◌, Bool, true, false, not, ◌&&◌, Option, none, some, String, List, [], ◌∷◌, length, leb, map,
  if◌then◌else◌,
}
use mathlib.Core.Option.{map as map_option}
use mathlib.Core.List.{Perm, IsChain}
use save_extension.Base.Int.{ℤ, ltb_ℤ}
use save_extension.Name.{Name, is_none, name_none}
use save_extension.Archive.{◌>>=◌}
use save_extension.Files.{FileFormat, SaveFile, new_file, read}
use save_extension.Disk.{
  FileManager, Objects, get_slot_path, find_slot_file_names, create_and_deserialize_info,
}
use save_extension.SlotInfo.{SlotInfo}

-- no older than
abbrev pub NoOlder : SlotInfo → SlotInfo → Type 0
NoOlder a b = ltb_ℤ a.save_date b.save_date ≡ false

-- TArray::Sort with the order of the task: A.SaveDate > B.SaveDate
pub record DateSort : Type 0 where
  pub sort : List SlotInfo → List SlotInfo
  pub sort-perm : (infos : List SlotInfo) → Perm (sort infos) infos
  pub sort-chain : (infos : List SlotInfo) → IsChain NoOlder (sort infos)

-- FLoadSlotInfosTask; a slot name that is set, and the infos that are loaded, which may be null
pub record LoadSlotInfosTask : Type 0 where
  pub sort_by_recent : Bool
  pub slot_name : Name
  pub loaded_slots : List (Option SlotInfo)

-- its constructors
abbrev pub all_infos : Bool → LoadSlotInfosTask
all_infos sort_by_recent = record {
  sort_by_recent = sort_by_recent;
  slot_name = name_none;
  loaded_slots = [];
}

abbrev pub one_info : Name → LoadSlotInfosTask
one_info name = record { sort_by_recent = false; slot_name = name; loaded_slots = [] }

-- The objects behind pointers that are all used; `none` is a null pointer.
unfoldable pub all_there : {A : Type 0} → List (Option A) → Option (List A)
all_there [] = some []
all_there (none ∷ os) = none
all_there (some a ∷ os) = do rest ← all_there os; some (a ∷ rest)

module _ {W : Type 0} (fm : FileManager W) (F : FileFormat) (O : Objects)
    (info_of : O.Obj → SlotInfo) where
  -- The loop of DoWork over the file names; a file that cannot be opened is left out.
  unfoldable pub load_slot_files : List String → W → Option (List (SaveFile F))
  load_slot_files [] w = some []
  load_slot_files (name ∷ names) w = do
    files ← load_slot_files names w
    elim (fm.contents (get_slot_path fm.saved_dir name) w) [
      | none ↦ some files
      | some bytes ↦ do file ← read F (new_file F) bytes true; some (file ∷ files)
    ]

  -- CreateAndDeserializeInfo of a file
  abbrev pub info_in : SaveFile F → Option SlotInfo
  info_in file = map_option info_of (create_and_deserialize_info O file)

  -- The comparison of the sort reads both infos.
  unfoldable pub sort_slots : DateSort → List (Option SlotInfo) → Option (List (Option SlotInfo))
  unfolding all_there
  sort_slots ds infos =
      if leb (length infos) 1
      then some infos
      else do there ← all_there infos; some (map some (ds.sort there))

  -- DoWork; the manager is there.
  unfoldable pub do_load_infos : DateSort → LoadSlotInfosTask → W → Option LoadSlotInfosTask
  unfolding load_slot_files sort_slots
  do_load_infos ds t w = do
    let single = not (is_none t.slot_name)
    files ← load_slot_files (if single then t.slot_name ∷ [] else find_slot_file_names fm w) w
    slots ←
        (if not single && t.sort_by_recent
          then sort_slots ds (map info_in files)
          else some (map info_in files))
    some (record t { loaded_slots = slots })

  -- AfterFinish, with what it passes to the delegate; it writes a flag of every info.
  unfoldable pub after_load_infos : LoadSlotInfosTask → Option (List SlotInfo)
  unfolding all_there
  after_load_infos t = all_there t.loaded_slots

  -- USaveManager::LoadInfo, whose AfterFinish runs in a later tick
  unfoldable pub load_info : DateSort → Name → W → Option (Option SlotInfo)
  unfolding do_load_infos
  load_info ds name w = if is_none name then some none else do
    t ← do_load_infos ds (one_info name) w
    some (elim t.loaded_slots [ [] ↦ none | info ∷ _ ↦ info ])

  -- USaveManager::LoadAllSlotInfosSync, with what its delegate gets
  unfoldable pub load_all_slot_infos_sync : DateSort → Bool → W → Option (List SlotInfo)
  unfolding do_load_infos after_load_infos
  load_all_slot_infos_sync ds sort_by_recent w = do
    t ← do_load_infos ds (all_infos sort_by_recent) w
    after_load_infos t
