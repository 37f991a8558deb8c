-- ===== src/SlotInfo.antt =====
-- Source/SaveExtension/Public/SlotInfo.h, Private/SlotInfo.cpp: what is known of a slot without its
-- data, and its thumbnail.
pub mod Thumbnail
use save_extension.Base.{
  ℕ, ◌≡◌, Bool, true, false, not, ◌&&◌, ◌||◌, Option, none, some, String, ◌==◌, string_eq,
  if◌then◌else◌,
}
use save_extension.Base.Int.{ℤ, pos}
use save_extension.Name.{Name, name_none, is_none}
use save_extension.Archive.{Bytes}
use save_extension.Disk.{FileManager, get_thumbnail_path}

-- USlotInfo; dates and time spans in ticks, a texture as the bytes of its image. FText is a text.
pub record SlotInfo : Type 0 where
  pub file_name : Name
  pub display_name : String
  pub played_time : ℤ
  pub slot_played_time : ℤ
  pub save_date : ℤ
  pub load_date : ℤ
  pub map : Name
  pub thumbnail_path : String
  pub cached_thumbnail : Option Bytes

-- USlotInfo(), which takes the current time. FDateTime() is tick 0.
unfoldable pub make_info : ℤ → SlotInfo
make_info now = record {
  file_name = name_none;
  display_name = "";
  played_time = pos 0;
  slot_played_time = pos 0;
  save_date = now;
  load_date = pos 0;
  map = name_none;
  thumbnail_path = "";
  cached_thumbnail = none;
}

-- _SetThumbnailPath
unfoldable pub set_thumbnail_path : String → SlotInfo → SlotInfo
set_thumbnail_path path i =
    if i.thumbnail_path == path
    then i
    else record i { thumbnail_path = path; cached_thumbnail = none }

module _ {W : Type 0} (fm : FileManager W) where
  -- GetThumbnail, with the info that it leaves; `decode` is the image module, which may fail. GEngine is
  -- there while a game runs.
  unfoldable pub get_thumbnail : (Bytes → Option Bytes) → W → SlotInfo → Option Bytes × SlotInfo
  get_thumbnail decode w i = if i.thumbnail_path == "" then (none, i) else elim i.cached_thumbnail [
    | some texture ↦ (some texture, i)
    | none ↦
        let texture : Option Bytes = elim (fm.contents i.thumbnail_path w) [
          | none ↦ none
          | some raw ↦ decode raw
        ] in
        (texture, record i { cached_thumbnail = texture })
  ]

  -- CaptureThumbnail, which asks the viewport, if there is one, for a screenshot; what it returns, the
  -- info and the disk. The engine writes the screenshot in a later frame.
  unfoldable pub capture_thumbnail : Bool → W → SlotInfo → Bool × SlotInfo × W
  capture_thumbnail has_viewport w i =
      if not has_viewport || is_none i.file_name
      then (false, i, w)
      else (let i' = set_thumbnail_path (get_thumbnail_path fm.saved_dir i.file_name) i in
          let exists : Bool = elim (fm.contents i'.thumbnail_path w) [
            | none ↦ false
            | some _ ↦ true
          ] in
          (
            true,
            i',
            if not (i'.thumbnail_path == "") && exists then fm.delete i'.thumbnail_path w else w,
          ))
