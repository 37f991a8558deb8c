-- ===== src/Loader/Actors.antt =====
-- An actor that was saved, and the actor that is loaded from its record.
use save_extension.Base.{
  ◌≡◌, refl, sym, ap, ◌∙◌, true, not, ◌&&◌, Option, none, some, List, [], ◌∷◌, arith, map,
  Bool-cases, Option-cases, inl, inr, if◌then◌else◌, ◌==◌, string_eq, nat_eq,
}
use mathlib.Core.Option.{map as map_option}
use save_extension.Base.Sets.{eq_true}
use save_extension.Name.{Name}
use save_extension.LevelFilter.{
  LevelFilter, should_save_component, component_stores_transform, stores_tags,
}
use save_extension.Engine.{Engine}
use save_extension.World.{Component, Root}
use save_extension.Records.{is_record_of}
use save_extension.Actors.{save_tags, serialize_component, serialize_components}
use save_extension.Loader.{find_component_record, restore_component, deserialize_component}

-- The tags in the record of an actor.
abbrev pub saved_tags : List Name → List Name
saved_tags tags = if stores_tags tags then tags else save_tags tags

module _ {E : Engine} where
  -- The velocities of a root: those of the physics of a movable primitive, and of any other movable root
  -- the one of the component. A root that cannot move has none.
  unfoldable pub linear_of : Option (Root E) → E.Vector
  linear_of none = E.zero_vector
  linear_of (some a) =
      if not a.is_movable
      then E.zero_vector
      else if a.is_primitive
      then a.physics_linear_velocity
      else a.component_velocity

  unfoldable pub angular_of : Option (Root E) → E.Vector
  angular_of none = E.zero_vector
  angular_of (some a) =
      if a.is_movable && a.is_primitive then a.physics_angular_velocity else E.zero_vector

  -- A root that moves like another one
  unfoldable pub moving_like : Option (Root E) → Option (Root E) → Option (Root E)
  unfolding linear_of angular_of
  moving_like saved none = none
  moving_like saved (some b) = some (
      if b.is_primitive
      then record b {
        physics_linear_velocity = linear_of saved;
        physics_angular_velocity = angular_of saved;
      }
      else record b { component_velocity = linear_of saved })

  -- The component that was saved under the name and the class of a component: the first.
  unfoldable pub saved_as : LevelFilter → List (Component E) → Component E → Option (Component E)
  saved_as f [] c = none
  saved_as f (s ∷ cs) c =
      let rest = saved_as f cs c in
      if should_save_component f s.is_valid s.class && s.name == c.name && s.class == c.class
      then some s
      else rest

  find-serialize_components :
      (f : LevelFilter) (cs : List (Component E)) (c : Component E)
      → find_component_record (serialize_components f cs) c
        ≡ map_option serialize_component (saved_as f cs c)
  unfolding find_component_record serialize_components saved_as serialize_component is_record_of
  find-serialize_components f [] c = refl
  find-serialize_components f (s ∷ cs) c =
      elim (Bool-cases (should_save_component f s.is_valid s.class)) [
        | inl saved ↦ elim (Bool-cases (s.name == c.name && s.class == c.class)) [
          | inl same ↦ rw (saved, same) refl
          | inr other ↦ rw (saved, other) (find-serialize_components f cs c)
        ]
        | inr skipped ↦ rw skipped (find-serialize_components f cs c)
      ]

  saved_as-class :
      (f : LevelFilter) (cs : List (Component E)) (c s : Component E)
      → saved_as f cs c ≡ some s
      → s.class ≡ c.class
  unfolding saved_as
  saved_as-class f [] c s h = absurd (ground arith)
  saved_as-class f (x ∷ cs) c s h =
      elim (Bool-cases
        (should_save_component f x.is_valid x.class && x.name == c.name && x.class == c.class)) [
          | inl found ↦
              let same : (x.class == c.class) ≡ true = ground (arith, found) in
              let e : some x ≡ some s = rw found at h in
              ap (λ (o : Option (Component E)). elim o [ none ↦ 0 | some y ↦ y.class ]) (sym e)
              ∙ eq_true x.class c.class same
          | inr further ↦ saved_as-class f cs c s (rw further at h)
        ]

  -- A component that the filter saves gets back what was saved of the first component with its name and
  -- class: the relative transform, if it is a movable scene component with the tag SaveTransform (the
  -- identity, if the saved one was not); the tags, unless its own tags forbid it (none, if those of the
  -- saved one forbade it); and the properties, unless it is a primitive. Any other component is left.
  pub deserialize-serialize_components :
      (f : LevelFilter) (cs : List (Component E)) (c : Component E)
      → deserialize_component f (serialize_components f cs) c ≡ (
          if should_save_component f c.is_valid c.class
          then elim (saved_as f cs c) [
            | none ↦ c
            | some s ↦ record c {
              relative_transform =
                  if component_stores_transform (E.is_scene c.class) c.component_tags
                    && c.is_movable
                  then (if component_stores_transform (E.is_scene s.class) s.component_tags
                        && s.is_movable
                      then s.relative_transform
                      else E.identity)
                  else c.relative_transform;
              component_tags =
                  if stores_tags c.component_tags
                  then (if stores_tags s.component_tags then s.component_tags else [])
                  else c.component_tags;
              props = if E.is_primitive c.class then c.props else s.props;
            }
          ]
          else c)
  unfolding deserialize_component restore_component serialize_component
  deserialize-serialize_components f cs c =
      elim (Bool-cases (should_save_component f c.is_valid c.class)) [
        | inl wanted ↦
            rw (wanted, find-serialize_components f cs c)
              (elim (Option-cases (saved_as f cs c)) [
                | inl absent ↦ rw absent refl
                | inr (s, found) ↦ rw found (elim (Bool-cases (E.is_primitive c.class)) [
                  | inl primitive ↦ rw primitive refl
                  | inr plain ↦
                      rw
                        (
                          ap E.is_primitive (saved_as-class f cs c s found),
                          plain,
                          E.read_props-write_props s.props c.props,
                        )
                        refl
                ])
              ])
        | inr unwanted ↦ rw unwanted refl
      ]
