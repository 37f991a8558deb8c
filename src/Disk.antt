-- ===== src/Disk.antt =====
-- The files of slots: FFileAdapter (Source/SaveExtension/Private/FileAdapter.cpp), FSlotHelpers
-- (Private/Misc/SlotHelpers.cpp) and the file tasks of Private/Multithreading.
pub mod Paths
pub mod RoundTrip
pub mod Delete
use Prim.Native.String.{◌++◌ as append_text}
use save_extension.Base.{
  ℕ, ◌≡◌, ◌≢◌, ◌<◌, Bool, true, false, not, ◌&&◌, ◌||◌, Option, none, some, String, List, [], ◌∷◌,
  ◌++◌, ◌==◌, string_eq, nat_eq, if◌then◌else◌, leb, length,
}
use save_extension.Name.{Name, is_none}
use save_extension.Archive.{Bytes, ◌>>=◌}
use save_extension.Files.{FileFormat, SaveFile, new_file, read, write}

-- IFileManager and the platform's directory iteration, on a disk `W`.
pub record FileManager (W : Type 0) : Type 0 where
  -- FPaths::ProjectSavedDir, with its slash
  pub saved_dir : String
  -- what a reader reads; null if there is no file. FileSize is negative for the same files.
  pub contents : String → W → Option Bytes
  -- if CreateFileWriter gives a writer
  pub can_create : String → W → Bool
  -- the disk after a writer has written and closed, and if the writer has an error
  pub store : String → Bytes → W → W
  pub has_error : String → Bytes → W → Bool
  pub contents-store :
      (p : String) (bytes : Bytes) (w : W)
      → has_error p bytes w ≡ false
      → contents p (store p bytes w) ≡ some bytes
  pub contents-store_ne :
      (p q : String) (bytes : Bytes) (w : W) → p ≢ q → contents q (store p bytes w) ≡ contents q w
  -- Delete with bRequireExists, and what it returns
  pub delete : String → W → W
  pub deletes : String → W → Bool
  pub contents-delete : (p : String) (w : W) → deletes p w ≡ true → contents p (delete p w) ≡ none
  pub delete_fails : (p : String) (w : W) → deletes p w ≡ false → delete p w ≡ w
  pub contents-delete_ne : (p q : String) (w : W) → p ≢ q → contents q (delete p w) ≡ contents q w
  -- IterateDirectory: the paths in a folder, and which of them are directories
  pub entries : String → W → List (String × Bool)
  -- FPaths::Split into folder, file name and extension
  pub split : String → String × String × String

-- UObjects as the files hold them: their class by its path, and their serialized properties.
pub record Objects : Type 1 where
  pub Obj : Type 0
  pub class_of : Obj → ℕ
  pub class_path : Obj → String
  pub class_path_text : (o : Obj) → class_path o ≢ ""
  -- FindObject and LoadObject of a class
  pub find_class : String → Option ℕ
  pub load_class : String → Option ℕ
  pub find-class_path : (o : Obj) → find_class (class_path o) ≡ some (class_of o)
  -- NewObject
  pub new_object : ℕ → Obj
  pub class-new : (c : ℕ) → class_of (new_object c) ≡ c
  -- Serialize over an FObjectAndNameAsStringProxyArchive; the transient properties are not written.
  pub write_object : Obj → Bytes
  pub write_some : (o : Obj) → 0 < length (write_object o)
  pub read_object : Bytes → Obj → Obj
  pub stored : Obj → Obj
  pub read-write_object :
      (o n : Obj) → class_of n ≡ class_of o → read_object (write_object o) n ≡ stored o
  -- Cast to USlotInfo and to USlotData
  pub is_info : Obj → Bool
  pub is_data : Obj → Bool
  pub is_info-stored : (o : Obj) → is_info (stored o) ≡ is_info o
  pub is_data-stored : (o : Obj) → is_data (stored o) ≡ is_data o

-- GetSaveFolder, GetSlotPath and GetThumbnailPath. The folder ends in a slash, so `/` adds none.
unfoldable pub get_save_folder : String → String
get_save_folder saved_dir = append_text saved_dir "SaveGames/"

unfoldable pub get_slot_path : String → String → String
get_slot_path saved_dir name = append_text (get_save_folder saved_dir) (append_text name ".sav")

unfoldable pub get_thumbnail_path : String → String → String
get_thumbnail_path saved_dir name =
    append_text (get_save_folder saved_dir) (append_text name ".png")

module _ (O : Objects) where
  find_or_load : String → Option ℕ
  find_or_load class_name = elim (O.find_class class_name) [
    | none ↦ O.load_class class_name
    | some c ↦ some c
  ]

  -- DeserializeObject
  unfoldable pub deserialize_object : Option O.Obj → String → Bytes → Option O.Obj
  unfolding find_or_load
  deserialize_object object class_name bytes =
      if class_name == "" || leb (length bytes) 0 then object else elim (find_or_load class_name) [
        | none ↦ object
        | some c ↦ elim object [
          | none ↦ some (O.read_object bytes (O.new_object c))
          | some o ↦ if O.class_of o == c then some (O.read_object bytes o) else some o
        ]
      ]

  abbrev pub cast : (O.Obj → Bool) → Option O.Obj → Option O.Obj
  cast test none = none
  cast test (some o) = if test o then some o else none

module _ {F : FileFormat} (O : Objects) where
  -- SerializeInfo and SerializeData
  unfoldable pub serialize_info : SaveFile F → O.Obj → SaveFile F
  serialize_info f info = record f {
    info_bytes = O.write_object info;
    info_class = O.class_path info;
  }

  unfoldable pub serialize_data : SaveFile F → O.Obj → SaveFile F
  serialize_data f d = record f { data_bytes = O.write_object d; data_class = O.class_path d }

  -- CreateAndDeserializeInfo and CreateAndDeserializeData
  unfoldable pub create_and_deserialize_info : SaveFile F → Option O.Obj
  create_and_deserialize_info f =
      cast O O.is_info (deserialize_object O none f.info_class f.info_bytes)

  unfoldable pub create_and_deserialize_data : SaveFile F → Option O.Obj
  create_and_deserialize_data f =
      cast O O.is_data (deserialize_object O none f.data_class f.data_bytes)

module _ {W : Type 0} (fm : FileManager W) where
  -- DeleteFile, which says if it did, and DoesFileExist
  unfoldable pub delete_file : String → W → Bool × W
  delete_file name w = let p = get_slot_path fm.saved_dir name in (fm.deletes p w, fm.delete p w)

  unfoldable pub does_file_exist : String → W → Bool
  does_file_exist name w = elim (fm.contents (get_slot_path fm.saved_dir name) w) [
    | none ↦ false
    | some _ ↦ true
  ]

  -- FindSlotFileNames, with FFindSlotVisitor::Visit for each entry
  pub visit : List String → String × Bool → List String
  visit found (path, true) = found
  visit found (path, false) =
      let (folder, filename, extension) = fm.split path in
      if extension == "sav" then (found ++ filename ∷ []) else found

  pub visit_all : List String → List (String × Bool) → List String
  visit_all found [] = found
  visit_all found (e ∷ es) = visit_all (visit found e) es

  unfoldable pub find_slot_file_names : W → List String
  unfolding visit_all visit
  find_slot_file_names w = visit_all [] (fm.entries (get_save_folder fm.saved_dir) w)

  pub delete_each : List String → W → W
  delete_each [] w = w
  delete_each (name ∷ names) w = delete_each names (delete_file name w).1

  -- FDeleteSlotsTask: its constructor with a slot name, and DoWork with the name that it kept
  abbrev pub specific_slot_name : Name → String
  specific_slot_name name = if is_none name then "" else name

  unfoldable pub delete_slots : String → W → Bool × W
  unfolding delete_each
  delete_slots specific w =
      if specific == ""
      then (true, delete_each (find_slot_file_names w) w)
      else (let (slot_deleted, w1) = delete_file specific w in
          let screenshot = get_thumbnail_path fm.saved_dir specific in
          (slot_deleted || fm.deletes screenshot w1, fm.delete screenshot w1))

  -- USaveManager::DeleteSlot(FName), which runs the task at once
  unfoldable pub delete_slot : Name → W → Bool × W
  delete_slot name w = if is_none name then (false, w) else delete_slots (specific_slot_name name) w

module _ {W : Type 0} (fm : FileManager W) (F : FileFormat) (O : Objects) where
  -- SaveFile
  unfoldable pub save_file : String → Option O.Obj → Option O.Obj → Bool → W → Bool × W
  save_file name none slot_data compression w = (false, w)
  save_file name (some info) none compression w = (false, w)
  save_file name (some info) (some d) compression w =
      let path = get_slot_path fm.saved_dir name in
      let bytes = write F (serialize_data O (serialize_info O (new_file F) info) d) compression in
      if name == ""
      then (false, w)
      else if fm.can_create path w
      then (not (fm.has_error path bytes w), fm.store path bytes w)
      else (false, w)

  -- LoadFile, with the pointers that it is given; `none` is a file that ends too early.
  unfoldable pub load_file :
      String → Option O.Obj → Option O.Obj → Bool → W → Option (Bool × Option O.Obj × Option O.Obj)
  load_file name info slot_data load_data w =
      elim (fm.contents (get_slot_path fm.saved_dir name) w) [
        | none ↦ some (false, info, slot_data)
        | some bytes ↦ do
          file ← read F (new_file F) bytes (not load_data)
          some (true, create_and_deserialize_info O file, create_and_deserialize_data O file)
      ]
