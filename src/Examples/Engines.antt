-- ===== src/Examples/Engines.antt =====
-- An engine whose transforms, vectors, seconds and properties are numbers, its archives, and a file format.
use save_extension.Base.{
  ℕ, ◌≡◌, refl, ap, Bool, false, Option, none, some, List, [], ◌∷◌, ◌++◌, ◌==◌, nat_eq, String,
}
use save_extension.Base.Int.{pos}
use save_extension.Archive.{Bytes, Codec}
use save_extension.ClassFilter.{ClassFilter}
use save_extension.LevelFilter.{LevelFilter}
use save_extension.Engine.{Engine, Archives}
use save_extension.SlotData.{SlotArchives}
use save_extension.Files.{FileFormat}
use save_extension.Examples.Codecs.{
  nat_codec, bool_codec, int_codec, text_codec, list_codec, option_codec, pair_codec,
}

abbrev pub read_number : Bytes → ℕ → ℕ
read_number [] old = old
read_number (n ∷ _) old = n

abbrev pub numbers : Engine
numbers = record {
  Transform = ℕ;
  identity = 0;
  Vector = ℕ;
  zero_vector = 0;
  is_nearly_zero = λ v. v == 0;
  zero_is_nearly_zero = refl;
  Props = ℕ;
  write_props = λ p. p ∷ [];
  read_props = read_number;
  read_props-write_props = λ p q. refl;
  Seconds = ℕ;
  from_seconds = λ s. pos s;
  actor_class = 1;
  component_class = 3;
  is_scene = λ c. c == 3;
  is_primitive = λ c. false;
}

abbrev pub archives : Archives numbers
archives = record {
  name = text_codec;
  class = option_codec nat_codec;
  bytes = list_codec nat_codec;
  names = list_codec text_codec;
  bit = bool_codec;
  bool = bool_codec;
  count = nat_codec;
  transform = nat_codec;
  vector = nat_codec;
}

-- A filter is written without its baked classes.
abbrev unbaked : ClassFilter → ClassFilter
unbaked f = record f { baked_allowed_classes = [] }

abbrev paths : Codec (List String)
paths = list_codec text_codec

-- A class filter as its parts, and the archive of the parts
abbrev Parts : Type 0
Parts = ℕ × (List String × List String)

abbrev parts_codec : Codec Parts
parts_codec = pair_codec nat_codec (pair_codec paths paths)

abbrev parts : ClassFilter → Parts
parts f = (f.base_class, (f.allowed_classes, f.ignored_classes))

abbrev of_parts : Parts → ClassFilter
of_parts (base, (allowed, ignored)) = record {
  base_class = base;
  allowed_classes = allowed;
  ignored_classes = ignored;
  baked_allowed_classes = [];
}

abbrev filter_codec : Codec (Parts × (Parts × (Bool × (Parts × Parts))))
filter_codec =
    pair_codec parts_codec
      (pair_codec parts_codec (pair_codec bool_codec (pair_codec parts_codec parts_codec)))

abbrev filter_parts : LevelFilter → Parts × (Parts × (Bool × (Parts × Parts)))
filter_parts f = (
  parts f.actor_filter,
  (
    parts f.load_actor_filter,
    (f.store_components, (parts f.component_filter, parts f.load_component_filter)),
  ),
)

abbrev filter_read :
    Option ((Parts × (Parts × (Bool × (Parts × Parts)))) × Bytes) → Option (LevelFilter × Bytes)
filter_read none = none
filter_read (some ((actor, (load_actor, (stores, (component, load_component)))), rest)) = some (
  record {
    actor_filter = of_parts actor;
    load_actor_filter = of_parts load_actor;
    store_components = stores;
    component_filter = of_parts component;
    load_component_filter = of_parts load_component;
  },
  rest,
)

abbrev pub unbaked_filter : LevelFilter → LevelFilter
unbaked_filter f = record {
  actor_filter = unbaked f.actor_filter;
  load_actor_filter = unbaked f.load_actor_filter;
  store_components = f.store_components;
  component_filter = unbaked f.component_filter;
  load_component_filter = unbaked f.load_component_filter;
}

abbrev pub put_filter : LevelFilter → Bytes
put_filter f = filter_codec.put (filter_parts f)

abbrev pub get_filter : Bytes → Option (LevelFilter × Bytes)
get_filter bytes = filter_read (filter_codec.get bytes)

pub filter_back :
    (f : LevelFilter) (rest : Bytes)
    → get_filter (put_filter f ++ rest) ≡ some (unbaked_filter f, rest)
filter_back f rest = ap filter_read (filter_codec.get-put (filter_parts f) rest)

abbrev pub slot_archives : SlotArchives numbers
slot_archives = record {
  records = archives;
  put_filter = put_filter;
  get_filter = get_filter;
  stored_filter = unbaked_filter;
  get_filter-put_filter = filter_back;
  base = pair_codec text_codec nat_codec;
}

abbrev pub unmark : Bytes → Option Bytes
unmark [] = none
unmark (_ ∷ bytes) = some bytes

abbrev pub format : FileFormat
format = record {
  PackageVersion = ℕ;
  EngineVersion = ℕ;
  CustomVersions = List ℕ;
  package_version = 522;
  engine_version = 5;
  custom_versions = 1 ∷ [];
  latest_custom_format = pos 3;
  int32 = int_codec;
  package_codec = nat_codec;
  engine_codec = nat_codec;
  custom = λ f. list_codec nat_codec;
  string = text_codec;
  bytes = list_codec nat_codec;
  bool = bool_codec;
  compress = λ bytes. 120 ∷ bytes;
  decompress = unmark;
  decompress-compress = λ bytes. refl;
}
