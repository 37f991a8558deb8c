-- ===== src/Examples/Files.antt =====
-- Save files and the files of slots at concrete inputs.
use save_extension.Base.{
  ◌≡◌, ◌≢◌, refl, true, false, none, some, String, [], ◌∷◌, if◌then◌else◌, arith, ◌==◌, string_eq,
}
use save_extension.Base.Int.{pos}
use save_extension.Files.{SaveFile, new_file, empty, is_empty, write, read}
use save_extension.Files.Format.{read_back, read-write, is_empty-empty}
use save_extension.Disk.{get_slot_path, get_thumbnail_path, save_file, load_file}
use save_extension.Disk.RoundTrip.{load_file-save_file}
use save_extension.SlotInfo.{SlotInfo, make_info, get_thumbnail, capture_thumbnail}
use save_extension.SlotInfo.Thumbnail.{get_thumbnail-capture_thumbnail}
use save_extension.Examples.Engines.{format, unmark}
use save_extension.Examples.Disks.{Disk, empty_disk, put_file, files, files-CanDelete, things}

abbrev pub one_name : String
one_name = "one"

abbrev a_file : SaveFile format
a_file = record (new_file format) {
  info_class = "Info";
  info_bytes = 4 ∷ [];
  data_class = "Data";
  data_bytes = 5 ∷ 6 ∷ [];
}

read-write_example :
    read format (new_file format) (write format a_file true) false
    ≡ some (read_back format a_file true false)
unfolding new_file
read-write_example = read-write format a_file (new_file format) true false refl (omega arith)

is_empty_example : is_empty format (empty format a_file) ≡ false
is_empty_example = is_empty-empty format a_file

abbrev pub saved_disk : Disk
saved_disk = (save_file files format things "one" (some (1, 4)) (some (2, 5)) true empty_disk).1

saves :
    save_file files format things "one" (some (1, 4)) (some (2, 5)) true empty_disk
    ≡ (true, saved_disk)
unfolding save_file
saves = refl

load_example :
    (load_file files format things "one" none none true saved_disk
      ≡ some (true, some (1, 4), some (2, 5)))
    × ((other : String)
        → "one" ≢ other
        → load_file files format things other none none true saved_disk
          ≡ load_file files format things other none none true empty_disk)
load_example =
    load_file-save_file files format things "one" (1, 4) (2, 5) true true empty_disk saved_disk none
      none refl refl saves

-- A disk with the file of one slot.
abbrev one_slot : Disk
one_slot = put_file (get_slot_path "Saved/" "one") (1 ∷ []) empty_disk

abbrev an_info : SlotInfo
an_info = record (make_info (pos 100)) {
  file_name = "one";
  thumbnail_path = "Saved/SaveGames/one.png";
  cached_thumbnail = some (7 ∷ []);
}

thumbnail_example :
    let (captured, i', w') = capture_thumbnail files true one_slot an_info in
    (captured ≡ true)
    × ((get_thumbnail files unmark w' i').0 ≡ (
        if an_info.thumbnail_path == get_thumbnail_path files.saved_dir an_info.file_name
        then an_info.cached_thumbnail
        else none))
thumbnail_example =
    get_thumbnail-capture_thumbnail files unmark an_info one_slot files-CanDelete refl
