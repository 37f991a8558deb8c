-- ===== src/Records/Object.antt =====
-- Saving and loading the records of objects and components.
use save_extension.Base.{
  ℕ, ◌≡◌, true, Option, none, some, List, ◌++◌, append_assoc, Bool-cases, inl, inr,
}
use save_extension.Name.{Name, is_none}
use save_extension.Archive.{Bytes}
use save_extension.Engine.{Engine, Archives}
use save_extension.Records.{
  ObjectRecord, empty_object, ComponentRecord, put_object, get_object, get_class, put_component,
  get_component,
}

-- A record without a name has no class: so is every record that is made from an object.
abbrev pub IsWritable : ObjectRecord → Type 0
IsWritable r = is_none r.name ≡ true → r.class ≡ none

-- Without a class only the name is kept.
abbrev pub stored_object : ObjectRecord → ObjectRecord
stored_object r = elim r.class [ none ↦ record empty_object { name = r.name } | some _ ↦ r ]

abbrev pub object : Name → Option ℕ → Bytes → List Name → ObjectRecord
object n c d t = record { name = n; class = c; data_bytes = d; tags = t }

module _ {E : Engine} (ar : Archives E) where
  pub get_object-put_parts :
      (n : Name) (c : Option ℕ) (d : Bytes) (t : List Name) (rest : Bytes)
      → (is_none n ≡ true → c ≡ none)
      → get_object ar (put_object ar (object n c d t) ++ rest)
        ≡ some (stored_object (object n c d t), rest)
  unfolding get_object put_object
  get_object-put_parts n none d t rest w = elim (Bool-cases (is_none n)) [
    | inl unnamed ↦ simp (append_assoc, ar.name.get-put, unnamed, get_class)
    | inr named ↦ simp (append_assoc, ar.name.get-put, named, ar.class.get-put)
  ]
  get_object-put_parts n (some c) d t rest w = elim (Bool-cases (is_none n)) [
    | inl unnamed ↦ cc (w unnamed)
    | inr named ↦
        simp (
          append_assoc, ar.name.get-put, named, ar.class.get-put, ar.bytes.get-put,
          ar.names.get-put,
        )
  ]

  pub get_object-put_object :
      (r : ObjectRecord) (rest : Bytes)
      → IsWritable r
      → get_object ar (put_object ar r ++ rest) ≡ some (stored_object r, rest)
  get_object-put_object r rest w = get_object-put_parts r.name r.class r.data_bytes r.tags rest w

  -- Without a class the transform is not kept either.
  abbrev pub stored_component : ComponentRecord E → ComponentRecord E
  stored_component r = elim r.class [
    | none ↦ record { object = stored_object r.object; transform = E.identity }
    | some _ ↦ r
  ]

  get_component-put_parts :
      (n : Name) (c : Option ℕ) (d : Bytes) (t : List Name) (x : E.Transform) (rest : Bytes)
      → (is_none n ≡ true → c ≡ none)
      → let r : ComponentRecord E = record { object = object n c d t; transform = x } in
        get_component ar (put_component ar r ++ rest) ≡ some (stored_component r, rest)
  unfolding get_component put_component
  get_component-put_parts n none d t x rest w =
      simp (append_assoc, get_object-put_parts n none d t _ w)
  get_component-put_parts n (some c) d t x rest w =
      simp (append_assoc, get_object-put_parts n (some c) d t _ w, ar.transform.get-put)

  pub get_component-put_component :
      (r : ComponentRecord E) (rest : Bytes)
      → IsWritable r.object
      → get_component ar (put_component ar r ++ rest) ≡ some (stored_component r, rest)
  get_component-put_component r rest w =
      get_component-put_parts r.name r.class r.data_bytes r.tags r.transform rest w
