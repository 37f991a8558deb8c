-- ===== src/SlotInfo/Thumbnail.antt =====
-- Which image a thumbnail shows after a capture.
use save_extension.Base.{
  ◌≡◌, ◌≢◌, refl, sym, ◌∙◌, Bool, true, false, not, ◌&&◌, Option, none, some, String, ◌==◌,
  string_eq, if◌then◌else◌, arith, eq_iff, Bool-cases, Option-cases, inl, inr,
}
use save_extension.Base.Sets.{eq_true}
use save_extension.Name.{is_none}
use save_extension.Archive.{Bytes}
use save_extension.Disk.{FileManager, get_thumbnail_path}
use save_extension.Disk.Paths.{get_thumbnail_path_filled}
use save_extension.Disk.Delete.{CanDelete, gone}
use save_extension.SlotInfo.{SlotInfo, set_thumbnail_path, get_thumbnail, capture_thumbnail}

text_filled : (t : String) → t ≢ "" → (t == "") ≡ false
text_filled t filled = ground (arith, eq_iff t "")

pub path_set : (path : String) (i : SlotInfo) → (set_thumbnail_path path i).thumbnail_path ≡ path
unfolding set_thumbnail_path
path_set path i = elim (Bool-cases (i.thumbnail_path == path)) [
  | inl same ↦ simp same (eq_true i.thumbnail_path path same)
  | inr new ↦ simp new
]

cache_set :
    (path : String) (i : SlotInfo)
    → (set_thumbnail_path path i).cached_thumbnail
      ≡ (if i.thumbnail_path == path then i.cached_thumbnail else none)
unfolding set_thumbnail_path
cache_set path i = elim (Bool-cases (i.thumbnail_path == path)) [
  | inl same ↦ simp same
  | inr new ↦ simp new
]

module _ {W : Type 0} (fm : FileManager W) where
  -- Whatever the disk was, the file is not there afterwards.
  erased :
      (path : String) (w : W)
      → CanDelete fm
      → path ≢ ""
      → fm.contents path (
          let exists : Bool = elim (fm.contents path w) [ none ↦ false | some _ ↦ true ] in
          if not (path == "") && exists then fm.delete path w else w)
        ≡ none
  erased path w can filled = elim (Option-cases (fm.contents path w)) [
    | inl missing ↦ simp (missing, text_filled path filled)
    | inr (bytes, there) ↦ simp (there, text_filled path filled, gone fm path w can)
  ]

  shown :
      (decode : Bytes → Option Bytes) (i : SlotInfo) (w : W)
      → i.thumbnail_path ≢ ""
      → fm.contents i.thumbnail_path w ≡ none
      → (get_thumbnail fm decode w i).0 ≡ i.cached_thumbnail
  unfolding get_thumbnail
  shown decode i w filled missing = elim (Option-cases i.cached_thumbnail) [
    | inl empty ↦ simp (text_filled _ filled, empty, missing)
    | inr (texture, cached) ↦ simp (text_filled _ filled, cached)
  ]

  -- Where there is a viewport and the slot has a name, a capture succeeds; until the screenshot is
  -- written, the info shows no image if the thumbnail of the slot has another path than the one that it
  -- had. If it is the same path, the info goes on showing the image that it had loaded before.
  pub get_thumbnail-capture_thumbnail :
      (decode : Bytes → Option Bytes) (i : SlotInfo) (w : W)
      → CanDelete fm
      → is_none i.file_name ≡ false
      → let (captured, i', w') = capture_thumbnail fm true w i in
        (captured ≡ true)
        × ((get_thumbnail fm decode w' i').0 ≡ (
            if i.thumbnail_path == get_thumbnail_path fm.saved_dir i.file_name
            then i.cached_thumbnail
            else none))
  unfolding capture_thumbnail
  get_thumbnail-capture_thumbnail decode i w can named =
      let path = get_thumbnail_path fm.saved_dir i.file_name in
      let i' = set_thumbnail_path path i in
      let filled : i'.thumbnail_path ≢ "" =
        λ e. get_thumbnail_path_filled fm.saved_dir i.file_name (sym (path_set path i) ∙ e) in
      rw named
        (refl, shown decode i' _ filled (erased i'.thumbnail_path w can filled) ∙ cache_set path i)
