-- ===== src/Examples/References.antt =====
-- Objects that are numbers, of which only those below 3 are in memory.
use save_extension.Base.{
  ℕ, ◌≡◌, refl, true, some, none, Option, inr, [], ◌∷◌, ◌++◌, ltb, if◌then◌else◌,
}
use save_extension.References.{
  ObjectPaths, put_reference, get_reference, get_reference-put_reference,
}
use save_extension.Examples.Classes.{letters, class_named, class_named-letters}
use save_extension.Examples.Codecs.{text_codec}
use save_extension.Examples.Disks.{letters_filled}

abbrev in_memory : Option ℕ → Option ℕ
in_memory none = none
in_memory (some n) = if ltb n 3 then some n else none

abbrev objects : ObjectPaths
objects = record {
  Obj = ℕ;
  path_name = letters;
  path_name-filled = letters_filled;
  find_object = λ path. in_memory (class_named path);
  load_object = class_named;
  text = text_codec;
}

reference_example :
    get_reference objects true (put_reference objects (some 5) ++ 1 ∷ []) ≡ some (some 5, 1 ∷ [])
reference_example =
    get_reference-put_reference objects true (some 5) (1 ∷ [])
      (inr (refl, refl, class_named-letters 5))
