-- ===== src/References.antt =====
-- FSEArchive (Source/SaveExtension/Public/Serialization/SEArchive.h, Private/Serialization/SEArchive.cpp): an object
-- reference is written as the path of the object.
use save_extension.Base.{
  ◌≡◌, ◌≢◌, refl, ap, Bool, true, false, Option, none, some, String, ◌++◌, ◌==◌, string_eq,
  if◌then◌else◌, ◌⊎◌, inl, inr, eq_iff, arith,
}
use save_extension.Archive.{Bytes, Codec, ◌>>=◌}

-- What is relied on of the engine: the path of an object, which is not empty, finding an object in
-- memory by its path, and loading it
pub record ObjectPaths : Type 1 where
  pub Obj : Type 0
  pub path_name : Obj → String
  pub path_name-filled : (o : Obj) → path_name o ≢ ""
  pub find_object : String → Option Obj
  pub load_object : String → Option Obj
  -- the archive of a text
  pub text : Codec String

module _ (p : ObjectPaths) where
  -- operator<< of an object, while saving
  unfoldable pub put_reference : Option p.Obj → Bytes
  put_reference none = p.text.put ""
  put_reference (some o) = p.text.put (p.path_name o)

  -- the object that is found, or else loaded if that is wanted
  unfoldable pub look_up : Bool → String → Option p.Obj
  look_up load_if_find_fails path = elim (p.find_object path) [
    | some o ↦ some o
    | none ↦ if load_if_find_fails then p.load_object path else none
  ]

  -- operator<< of an object, while loading
  unfoldable pub get_reference : Bool → Bytes → Option (Option p.Obj × Bytes)
  unfolding look_up
  get_reference load_if_find_fails bytes = do
    (path, rest) ← p.text.get bytes
    some (if path == "" then none else look_up load_if_find_fails path, rest)

  -- An object can be reached if its path finds it, or if nothing is found there, loading is wanted
  -- and loads it. A null pointer can.
  abbrev pub CanReach : Bool → Option p.Obj → Type 0
  CanReach load none = Unit
  CanReach load (some o) =
      (p.find_object (p.path_name o) ≡ some o)
      ⊎ ((p.find_object (p.path_name o) ≡ none)
          × (load ≡ true)
          × (p.load_object (p.path_name o) ≡ some o))

  look_up-CanReach :
      (load : Bool) (o : p.Obj) → CanReach load (some o) → look_up load (p.path_name o) ≡ some o
  unfolding look_up
  look_up-CanReach load o (inl found) = rw (found, look_up) refl
  look_up-CanReach load o (inr (missing, wanted, loaded)) =
      rw (missing, wanted, look_up, loaded) refl

  -- A reference that is written is read back, and what follows it is left: a null pointer, and an
  -- object that is in memory, or that is not there and can be loaded, if the archive loads what it
  -- does not find.
  pub get_reference-put_reference :
      (load : Bool) (o : Option p.Obj) (rest : Bytes)
      → CanReach load o
      → get_reference load (put_reference o ++ rest) ≡ some (o, rest)
  unfolding get_reference put_reference
  get_reference-put_reference load none rest h = rw (p.text.get-put "" rest) refl
  get_reference-put_reference load (some o) rest h =
      let filled : (p.path_name o == "") ≡ false =
        ground (arith, p.path_name-filled o, eq_iff (p.path_name o) "") in
      rw (p.text.get-put (p.path_name o) rest)
        (rw filled (ap (λ (x : Option p.Obj). some (x, rest)) (look_up-CanReach load o h)))
