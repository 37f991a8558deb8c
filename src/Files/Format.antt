-- ===== src/Files/Format.antt =====
-- Reading back what was written.
use save_extension.Base.{
  ◌≡◌, refl, Bool, true, false, ◌||◌, some, [], ◌++◌, append-nil, arith, ◌==◌, string_eq,
  if◌then◌else◌, Bool-cases, inl, inr, sym, ap, ◌∙◌,
}
use save_extension.Base.Int.{ℤ, leb_ℤ, ◌≤ℤ◌}
use save_extension.Archive.{Bytes}
use save_extension.Files.{
  FileFormat, SaveFile, new_file, empty, is_empty, write, read, put_data, get_custom, unpack,
  get_data, get_tagged, file_type_tag, initial_version, added_custom_versions, equal_ℤ,
}

module _ (F : FileFormat) where
  -- What is left of a file that was written and read: all of it, but the data and whether they were
  -- compressed only if they were not skipped and there are any.
  unfoldable pub read_back : SaveFile F → Bool → Bool → SaveFile F
  read_back f compressed skip_data = record f {
    is_data_compressed = if skip_data || f.data_class == "" then false else compressed;
    data_bytes = if skip_data || f.data_class == "" then [] else f.data_bytes;
  }

  get-put_end : (a : Bytes) → F.bytes.get (F.bytes.put a) ≡ some (a, [])
  get-put_end a = ap F.bytes.get (sym (append-nil (F.bytes.put a))) ∙ F.bytes.get-put a []

  unpack-compress :
      (compressed : Bool) (bytes : Bytes)
      → unpack F compressed (if compressed then F.compress bytes else bytes) ≡ bytes
  unfolding unpack
  unpack-compress true bytes = rw (F.decompress-compress bytes, unpack)
  unpack-compress false bytes = refl

  get_data-put_data :
      (f g0 : SaveFile F) (skip : Bool)
      → let g = record g0 { data_class = f.data_class } in
        get_data F skip g (put_data F f)
        ≡ some (record g {
          is_data_compressed =
              if skip || f.data_class == "" then g0.is_data_compressed else f.is_data_compressed;
          data_bytes = if skip || f.data_class == "" then g0.data_bytes else f.data_bytes;
        })
  unfolding get_data put_data
  get_data-put_data f g0 true = refl
  get_data-put_data f g0 false = elim (Bool-cases (f.data_class == "")) [
    | inl no_data ↦ simp no_data
    | inr some_data ↦ simp (some_data, F.bool.get-put, get-put_end, unpack-compress)
  ]

  -- A file with the tag and a version that has the custom versions, written with or without compression
  -- and read with or without the data, is the file that was written, except that data which were skipped
  -- or which have no class are empty and count as not compressed.
  pub read-write :
      (f f0 : SaveFile F) (compress_data skip_data : Bool)
      → f.type_tag ≡ file_type_tag
      → added_custom_versions ≤ℤ f.version
      → read F f0 (write F f compress_data) skip_data ≡ some (read_back f compress_data skip_data)
  unfolding read write get_tagged get_custom read_back new_file
  read-write f f0 c s tag ver =
      simp
        (
          F.int32.get-put,
          tag,
          ver_test,
          F.package_codec.get-put,
          F.engine_codec.get-put,
          (F.custom f.custom_format).get-put,
          F.string.get-put,
          F.bytes.get-put,
        )
        (get_data-put_data (record f { is_data_compressed = c })
          (record f { type_tag = file_type_tag; is_data_compressed = false; data_bytes = [] }) s)
    where
      ver_test : leb_ℤ added_custom_versions f.version ≡ true
      ver_test = ground arith

  -- A file that begins with another tag is read as a file of the first version with nothing in it: so
  -- reading succeeds, with the tag that was found.
  read_untagged :
      (f0 : SaveFile F) (tag : ℤ) (rest : Bytes) (skip_data : Bool)
      → equal_ℤ tag file_type_tag ≡ false
      → read F f0 (F.int32.put tag ++ rest) skip_data
        ≡ some (record (new_file F) { type_tag = tag; version = initial_version })
  unfolding read
  read_untagged f0 tag rest s other = simp (F.int32.get-put, other)

  -- IsEmpty is never true of a file that Empty has just emptied.
  pub is_empty-empty : (f : SaveFile F) → is_empty F (empty F f) ≡ false
  unfolding is_empty empty
  is_empty-empty f = ground arith
