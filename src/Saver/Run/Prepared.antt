-- ===== src/Saver/Run/Prepared.antt =====
-- What the start of a save does to the info and to the files before the world is serialized.
use save_extension.Base.{
  ◌≡◌, ◌≢◌, refl, sym, ◌∙◌, Bool, true, false, not, ◌||◌, Option, some, String, arith, ◌==◌,
  string_eq, if◌then◌else◌, Bool-cases, inl, inr, eq_iff,
}
use save_extension.Base.Int.{ℤ, pos, ltb_ℤ}
use save_extension.Name.{Name, is_none}
use save_extension.Archive.{Bytes}
use save_extension.Files.{FileFormat}
use save_extension.Disk.{
  FileManager, Objects, does_file_exist, save_file, load_file, get_slot_path, get_thumbnail_path,
}
use save_extension.Disk.Paths.{thumbnail-ne-slot}
use save_extension.Disk.Delete.{slot_kept}
use save_extension.SlotInfo.{SlotInfo, capture_thumbnail, set_thumbnail_path}
use save_extension.SlotInfo.Thumbnail.{path_set}
use save_extension.Saver.Run.{SaveRequest, Frame, update_times, prepare_slot, prepare_info}

times-named :
    (different : Bool) (now time : ℤ) (i : SlotInfo)
    → (update_times different now time i).file_name ≡ i.file_name
unfolding update_times
times-named different now time i = elim (Bool-cases (ltb_ℤ (pos 0) i.load_date)) [
  | inl loaded ↦ simp loaded
  | inr never ↦ simp never
]

path-named : (path : String) (i : SlotInfo) → (set_thumbnail_path path i).file_name ≡ i.file_name
unfolding set_thumbnail_path
path-named path i = elim (Bool-cases (i.thumbnail_path == path)) [
  | inl same ↦ simp same
  | inr new ↦ simp new
]

module _ {W : Type 0} (fm : FileManager W) where
  -- Every file can be written.
  abbrev pub Writable : Type 0
  Writable =
      ((p : String) (w : W) → fm.can_create p w ≡ true)
      × ((p : String) (bytes : Bytes) (w : W) → fm.has_error p bytes w ≡ false)

  pub save_file-succeeds :
      (F : FileFormat) (O : Objects) (name : String) (info d : O.Obj) (compression : Bool) (w : W)
      → Writable
      → name ≢ ""
      → save_file fm F O name (some info) (some d) compression w
        ≡ (true, (save_file fm F O name (some info) (some d) compression w).1)
  unfolding save_file
  save_file-succeeds F O name info d c w (can, fine) filled =
      let path = get_slot_path fm.saved_dir name in
      let named : (name == "") ≡ false = ground (arith, eq_iff name "") in
      simp (named, can path w, fine path _ w)

  pub load_file-contents :
      (F : FileFormat) (O : Objects) (name : String) (info d : Option O.Obj) (load_data : Bool)
      (w w' : W)
      → fm.contents (get_slot_path fm.saved_dir name) w'
        ≡ fm.contents (get_slot_path fm.saved_dir name) w
      → load_file fm F O name info d load_data w' ≡ load_file fm F O name info d load_data w
  unfolding load_file
  load_file-contents F O name info d load_data w w' e = rw (e, load_file) refl

  pub prepare_slot-keeps :
      (q : SaveRequest) (other : String) (w : W)
      → q.slot_name ≢ other
      → fm.contents (get_slot_path fm.saved_dir other) (prepare_slot fm q w).1
        ≡ fm.contents (get_slot_path fm.saved_dir other) w
  unfolding prepare_slot
  prepare_slot-keeps q other w ne = elim (Bool-cases q.override_slot) [
    | inr refuses ↦ simp refuses
    | inl overrides ↦ elim (Bool-cases (does_file_exist fm q.slot_name w)) [
      | inr missing ↦ simp (overrides, missing)
      | inl there ↦ simp (overrides, there, slot_kept fm q.slot_name other w ne)
    ]
  ]

  erase-keeps :
      (other : String) (i : SlotInfo) (name : Name) (erases : Bool) (w : W)
      → i.thumbnail_path ≡ get_thumbnail_path fm.saved_dir name
      → fm.contents
          (get_slot_path fm.saved_dir other)
          (if erases then fm.delete i.thumbnail_path w else w)
        ≡ fm.contents (get_slot_path fm.saved_dir other) w
  erase-keeps other i name false w e = refl
  erase-keeps other i name true w e =
      fm.contents-delete_ne _ _ w (λ same. thumbnail-ne-slot fm.saved_dir other name (sym e ∙ same))

  capture_thumbnail-keeps :
      (has_viewport : Bool) (i : SlotInfo) (other : String) (w : W)
      → fm.contents (get_slot_path fm.saved_dir other) (capture_thumbnail fm has_viewport w i).2
        ≡ fm.contents (get_slot_path fm.saved_dir other) w
  unfolding capture_thumbnail
  capture_thumbnail-keeps has_viewport i other w =
      elim (Bool-cases (not has_viewport || is_none i.file_name)) [
        | inl none_taken ↦ simp none_taken
        | inr taken ↦ rw taken (
            erase-keeps other (set_thumbnail_path (get_thumbnail_path fm.saved_dir i.file_name) i)
              i.file_name _ w (path_set _ i))
      ]

  pub prepare_info-keeps :
      (q : SaveRequest) (f : Frame) (map_name : Name) (time : ℤ) (i : SlotInfo) (other : String)
      (w : W)
      → fm.contents (get_slot_path fm.saved_dir other) (prepare_info fm q f map_name time i w).1
        ≡ fm.contents (get_slot_path fm.saved_dir other) w
  unfolding prepare_info
  prepare_info-keeps q f map_name time i other w = elim (Bool-cases q.save_thumbnail) [
    | inr no_thumbnail ↦ simp no_thumbnail
    | inl thumbnail ↦ simp (thumbnail, capture_thumbnail-keeps f.has_viewport _ other w)
  ]

  capture_thumbnail-named :
      (has_viewport : Bool) (i : SlotInfo) (w : W)
      → (capture_thumbnail fm has_viewport w i).1.file_name ≡ i.file_name
  unfolding capture_thumbnail
  capture_thumbnail-named has_viewport i w =
      elim (Bool-cases (not has_viewport || is_none i.file_name)) [
        | inl none_taken ↦ simp none_taken
        | inr taken ↦ rw taken (path-named _ i)
      ]

  shown :
      (q : SaveRequest) (f : Frame) (w : W) (i : SlotInfo)
      → let (captured, i', w') =
          (if q.save_thumbnail then capture_thumbnail fm f.has_viewport w i else (false, i, w)) in
        i'.file_name ≡ i.file_name
  shown q f w i = elim (Bool-cases q.save_thumbnail) [
    | inl thumbnail ↦ rw thumbnail (capture_thumbnail-named f.has_viewport i w)
    | inr no_thumbnail ↦ simp no_thumbnail
  ]

  -- The name and the map that the info gets.
  pub prepare_info-named :
      (q : SaveRequest) (f : Frame) (map_name : Name) (time : ℤ) (i : SlotInfo) (w : W)
      → ((prepare_info fm q f map_name time i w).0.file_name ≡ q.slot_name)
        × ((prepare_info fm q f map_name time i w).0.map ≡ map_name)
  unfolding prepare_info
  prepare_info-named q f map_name time i w =
      (times-named _ f.now time _ ∙ shown q f w (record i { file_name = q.slot_name }), refl)
