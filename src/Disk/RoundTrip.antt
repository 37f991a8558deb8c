-- ===== src/Disk/RoundTrip.antt =====
-- Saving a slot and loading it.
use save_extension.Base.{
  ◌≡◌, ◌≢◌, refl, ap, ap₂, Bool, true, false, not, Option, none, some, String, [], arith, ◌==◌,
  string_eq, nat_eq, if◌then◌else◌, eq_iff, leb, length,
}
use save_extension.Files.{FileFormat, SaveFile, new_file, read, write}
use save_extension.Files.Format.{read-write, read_back}
use save_extension.Disk.{
  FileManager, Objects, get_slot_path, deserialize_object, find_or_load, serialize_info,
  serialize_data, create_and_deserialize_info, create_and_deserialize_data, save_file, load_file,
}
use save_extension.Disk.Paths.{get_slot_path_injective}

class_path_named : (O : Objects) (o : O.Obj) → (O.class_path o == "") ≡ false
class_path_named O o = ground (arith, eq_iff (O.class_path o) "", O.class_path_text o)

module _ (O : Objects) where
  -- Without bytes there is no object.
  nothing : (class_name : String) → deserialize_object O none class_name [] ≡ none
  unfolding deserialize_object
  nothing class_name = ground arith

  -- An object comes back from its class and its bytes, if no object is given to fill.
  pub deserialize-write_object :
      (o : O.Obj)
      → deserialize_object O none (O.class_path o) (O.write_object o) ≡ some (O.stored o)
  unfolding deserialize_object
  deserialize-write_object o =
      simp (class_path_named O o, filled, find_or_load, O.find-class_path o)
        (ap some (O.read-write_object o _ (O.class-new (O.class_of o))))
    where
      filled : leb (length (O.write_object o)) 0 ≡ false
      filled = ground (arith, O.write_some o)

module _ {W : Type 0} (fm : FileManager W) (F : FileFormat) (O : Objects) where
  abbrev saved : O.Obj → O.Obj → SaveFile F
  saved info d = serialize_data O (serialize_info O (new_file F) info) d

  -- A save that succeeds has written the file, and nothing else succeeds.
  save_file-wrote :
      (name : String) (info d : O.Obj) (compression : Bool) (w w' : W)
      → save_file fm F O name (some info) (some d) compression w ≡ (true, w')
      → let path = get_slot_path fm.saved_dir name in
        let bytes = write F (saved info d) compression in
        (name ≢ "") × (fm.has_error path bytes w ≡ false) × (w' ≡ fm.store path bytes w)
  unfolding save_file
  save_file-wrote name info d c w w' h =
      let path = get_slot_path fm.saved_dir name in
      let bytes = write F (saved info d) c in
      (ground (arith, eq_iff name ""), ground arith, ground arith)

  read-saved :
      (info d : O.Obj) (compression skip_data : Bool)
      → read F (new_file F) (write F (saved info d) compression) skip_data
        ≡ some (read_back F (saved info d) compression skip_data)
  unfolding serialize_data serialize_info new_file
  read-saved info d c skip = read-write F (saved info d) (new_file F) c skip refl (omega arith)

  info-saved :
      (info d : O.Obj) (compression skip_data : Bool)
      → O.is_info info ≡ true
      → create_and_deserialize_info {F = F} O (read_back F (saved info d) compression skip_data)
        ≡ some (O.stored info)
  unfolding create_and_deserialize_info read_back serialize_data serialize_info
  info-saved info d c skip i = simp (deserialize-write_object O info, O.is_info-stored info, i)

  -- The data are there exactly if they were not skipped.
  data-saved :
      (info d : O.Obj) (compression skip_data : Bool)
      → O.is_data d ≡ true
      → create_and_deserialize_data {F = F} O (read_back F (saved info d) compression skip_data)
        ≡ (if skip_data then none else some (O.stored d))
  unfolding create_and_deserialize_data read_back serialize_data serialize_info
  data-saved info d c true i = simp (nothing O (O.class_path d))
  data-saved info d c false i =
      simp (class_path_named O d, deserialize-write_object O d, O.is_data-stored d, i)

  load_file-wrote :
      (name : String) (info d : O.Obj) (compression load_data : Bool) (w : W)
      (info0 d0 : Option O.Obj)
      → O.is_info info ≡ true
      → O.is_data d ≡ true
      → fm.contents (get_slot_path fm.saved_dir name) w ≡ some (write F (saved info d) compression)
      → load_file fm F O name info0 d0 load_data w
        ≡ some (true, some (O.stored info), (if not load_data then none else some (O.stored d)))
  unfolding load_file
  load_file-wrote name info d c load_data w info0 d0 i k h =
      rw (h, load_file, read-saved info d c (not load_data))
        (ap₂ (λ (x y : Option O.Obj). some (true, x, y)) (info-saved info d c (not load_data) i)
          (data-saved info d c (not load_data) k))

  -- After a save of a slot that succeeds, loading the slot succeeds and gives the info and, if the data are
  -- asked for, the data that were saved, without their transient properties; and every other slot reads
  -- as it did before.
  pub load_file-save_file :
      (name : String) (info d : O.Obj) (compression load_data : Bool) (w w' : W)
      (info0 d0 : Option O.Obj)
      → O.is_info info ≡ true
      → O.is_data d ≡ true
      → save_file fm F O name (some info) (some d) compression w ≡ (true, w')
      → (load_file fm F O name info0 d0 load_data w'
          ≡ some (true, some (O.stored info), (if not load_data then none else some (O.stored d))))
        × ((other : String)
            → name ≢ other
            → load_file fm F O other info0 d0 load_data w'
              ≡ load_file fm F O other info0 d0 load_data w)
  unfolding load_file
  load_file-save_file name info d c load_data w w' info0 d0 i k h =
      let (_, fine, e) = save_file-wrote name info d c w w' h in
      (
        load_file-wrote name info d c load_data w' info0 d0 i k
            (rw e (fm.contents-store _ _ w fine)),
        λ other ne. rw (
          e,
          fm.contents-store_ne _ (get_slot_path fm.saved_dir other) (write F (saved info d) c) w
              (λ same. ne (get_slot_path_injective fm.saved_dir name other same)),
          load_file,
        ),
      )
