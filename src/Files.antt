-- ===== src/Files.antt =====
-- Source/SaveExtension/Public/FileAdapter.h and Private/FileAdapter.cpp: the format of a save file,
-- and the files of slots.
pub mod Format
use save_extension.Base.{
  ℕ, ◌≡◌, ◌≢◌, Bool, true, false, not, ◌&&◌, ◌||◌, Option, none, some, String, List, [], ◌∷◌, ◌++◌,
  ◌==◌, string_eq, nat_eq, if◌then◌else◌, leb, length,
}
use save_extension.Base.Int.{ℤ, pos, pos_part, neg_part, leb_ℤ}
use save_extension.Archive.{Bytes, Codec, ◌>>=◌}

-- The parts of the format that the engine writes: the versions, and compressed bytes.
pub record FileFormat : Type 1 where
  pub PackageVersion : Type 0
  pub EngineVersion : Type 0
  pub CustomVersions : Type 0
  -- GPackageFileUEVersion, FEngineVersion::Current(), FCurrentCustomVersions::GetAll() and
  -- ECustomVersionSerializationFormat::Latest
  pub package_version : PackageVersion
  pub engine_version : EngineVersion
  pub custom_versions : CustomVersions
  pub latest_custom_format : ℤ
  pub int32 : Codec ℤ
  pub package_codec : Codec PackageVersion
  pub engine_codec : Codec EngineVersion
  -- FCustomVersionContainer::Serialize in a format
  pub custom : ℤ → Codec CustomVersions
  pub string : Codec String
  pub bytes : Codec Bytes
  pub bool : Codec Bool
  -- FArchiveSaveCompressedProxy and FArchiveLoadCompressedProxy with zlib; `none` is its error
  pub compress : Bytes → Bytes
  pub decompress : Bytes → Option Bytes
  pub decompress-compress : (bytes : Bytes) → decompress (compress bytes) ≡ some bytes

-- SE_SAVEGAME_FILE_TYPE_TAG, and FSaveGameFileVersion
abbrev pub file_type_tag : ℤ
file_type_tag = pos 1

abbrev pub initial_version : ℤ
initial_version = pos 1

abbrev pub added_custom_versions : ℤ
added_custom_versions = pos 2

abbrev pub latest_version : ℤ
latest_version = pos 2

abbrev pub equal_ℤ : ℤ → ℤ → Bool
equal_ℤ a b = leb_ℤ a b && leb_ℤ b a

-- FSaveFile
pub record SaveFile (F : FileFormat) : Type 0 where
  pub type_tag : ℤ
  pub version : ℤ
  pub package_version : F.PackageVersion
  pub engine_version : F.EngineVersion
  pub custom_format : ℤ
  pub custom_versions : F.CustomVersions
  pub info_class : String
  pub info_bytes : Bytes
  pub data_class : String
  pub is_data_compressed : Bool
  pub data_bytes : Bytes

module _ (F : FileFormat) where
  -- FSaveFile()
  unfoldable pub new_file : SaveFile F
  new_file = record {
    type_tag = file_type_tag;
    version = latest_version;
    package_version = F.package_version;
    engine_version = F.engine_version;
    custom_format = F.latest_custom_format;
    custom_versions = F.custom_versions;
    info_class = "";
    info_bytes = [];
    data_class = "";
    is_data_compressed = false;
    data_bytes = [];
  }

  -- Empty and IsEmpty
  unfoldable pub empty : SaveFile F → SaveFile F
  unfolding new_file
  empty f = new_file

  unfoldable pub is_empty : SaveFile F → Bool
  is_empty f = equal_ℤ f.type_tag (pos 0)

  pub put_data : SaveFile F → Bytes
  put_data f =
      if f.data_class == ""
      then []
      else (F.bool.put f.is_data_compressed
          ++ F.bytes.put (if f.is_data_compressed then F.compress f.data_bytes else f.data_bytes))

  -- Write: what the writer has written, of a file that remembers if it is compressed
  unfoldable pub write : SaveFile F → Bool → Bytes
  unfolding put_data
  write f0 compress_data =
      let f = record f0 { is_data_compressed = compress_data } in
      F.int32.put f.type_tag
      ++ (F.int32.put f.version
          ++ (F.package_codec.put f.package_version
              ++ (F.engine_codec.put f.engine_version
                  ++ (F.int32.put f.custom_format
                      ++ ((F.custom f.custom_format).put f.custom_versions
                          ++ (F.string.put f.info_class
                              ++ (F.bytes.put f.info_bytes
                                  ++ (F.string.put f.data_class ++ put_data f))))))))

  -- the version part of the header that older files lack
  pub get_custom : SaveFile F → Bytes → Option (SaveFile F × Bytes)
  get_custom f r0 =
      if leb_ℤ added_custom_versions f.version
      then (do
        (format, r1) ← F.int32.get r0
        (versions, r2) ← (F.custom format).get r1
        some (record f { custom_format = format; custom_versions = versions }, r2))
      else some (f, r0)

  -- bytes that do not decompress leave the data empty
  pub unpack : Bool → Bytes → Bytes
  unpack false bytes = bytes
  unpack true bytes = elim (F.decompress bytes) [ none ↦ [] | some unpacked ↦ unpacked ]

  pub get_data : Bool → SaveFile F → Bytes → Option (SaveFile F)
  unfolding unpack
  get_data skip_data f r0 = if skip_data || f.data_class == "" then some f else (do
    (compressed, r1) ← F.bool.get r0
    (bytes, _) ← F.bytes.get r1
    some (record f { is_data_compressed = compressed; data_bytes = unpack compressed bytes }))

  pub get_tagged : Bool → Bytes → Option (SaveFile F)
  unfolding get_custom get_data
  get_tagged skip_data r0 = do
    (version', r1) ← F.int32.get r0
    (package', r2) ← F.package_codec.get r1
    (engine', r3) ← F.engine_codec.get r2
    (f, r4) ←
        get_custom
          (record new_file {
            version = version';
            package_version = package';
            engine_version = engine';
          })
          r3
    (info_class', r5) ← F.string.get r4
    (info_bytes', r6) ← F.bytes.get r5
    (data_class', r7) ← F.string.get r6
    get_data skip_data
        (record f { info_class = info_class'; info_bytes = info_bytes'; data_class = data_class' })
        r7

  -- Read, into any file; `none` is an archive that ends too early.
  unfoldable pub read : SaveFile F → Bytes → Bool → Option (SaveFile F)
  unfolding get_tagged new_file
  read f0 bytes skip_data = do
    (tag, r0) ← F.int32.get bytes
    (if equal_ℤ tag file_type_tag
        then get_tagged skip_data r0
        else some (record new_file { type_tag = tag; version = initial_version }))
