-- ===== src/Records/Actor.antt =====
-- Saving and loading the record of an actor.
use save_extension.Base.{
  ℕ, ◌≡◌, Option, none, some, List, ◌++◌, append_assoc, Bool-cases, inl, inr, if◌then◌else◌, map,
}
use save_extension.Archive.{Bytes, Each, get_array, put_array, get_array-put_array}
use save_extension.Engine.{Engine, Archives}
use save_extension.Records.{
  ComponentRecord, ActorRecord, put_component, get_component, put_actor, get_actor, put_actor_body,
  get_actor_body, get_velocities, is_moving, unset_actor,
}
use save_extension.Records.Object.{
  IsWritable, stored_object, get_object-put_parts, stored_component, get_component-put_component,
}

module _ {E : Engine} (ar : Archives E) where
  abbrev pub IsWritableActor : ActorRecord E → Type 0
  IsWritableActor r =
      IsWritable r.object
      × Each (λ (c : ComponentRecord E). IsWritable c.object) r.component_records

  -- What a record is after it was saved and loaded.
  unfoldable pub stored_actor : ActorRecord E → ActorRecord E
  stored_actor r = elim r.class [
    | none ↦ unset_actor (stored_object r.object)
    | some _ ↦ record r {
      linear_velocity = if is_moving ar r then r.linear_velocity else E.zero_vector;
      angular_velocity = if is_moving ar r then r.angular_velocity else E.zero_vector;
      component_records = map (stored_component ar) r.component_records;
    }
  ]

  components :
      (xs : List (ComponentRecord E)) (rest : Bytes)
      → Each (λ (c : ComponentRecord E). IsWritable c.object) xs
      → get_array (get_component ar) ar.count (put_array (put_component ar) ar.count xs ++ rest)
        ≡ some (map (stored_component ar) xs, rest)
  components xs rest w =
      get_array-put_array ar.count (put_component ar) (get_component ar) (stored_component ar)
        (λ c. IsWritable c.object) (get_component-put_component ar) xs rest w

  actor_body :
      (r : ActorRecord E) (rest : Bytes)
      → IsWritableActor r
      → get_actor_body ar r.object (put_actor_body ar r ++ rest)
        ≡ some (
          record r {
            linear_velocity = if is_moving ar r then r.linear_velocity else E.zero_vector;
            angular_velocity = if is_moving ar r then r.angular_velocity else E.zero_vector;
            component_records = map (stored_component ar) r.component_records;
          },
          rest,
        )
  unfolding get_actor_body put_actor_body get_velocities
  actor_body r rest w = elim (Bool-cases (is_moving ar r)) [
    | inl moving ↦ simp (
      append_assoc,
      ar.bit.get-put,
      ar.transform.get-put,
      ar.bool.get-put,
      ar.vector.get-put,
      moving,
      get_velocities,
      components r.component_records rest w.1,
    )
    | inr still ↦ simp (
      append_assoc,
      ar.bit.get-put,
      ar.transform.get-put,
      ar.bool.get-put,
      still,
      get_velocities,
      components r.component_records rest w.1,
    )
  ]

  get_actor-put_class :
      (r : ActorRecord E) (c : Option ℕ) (rest : Bytes)
      → IsWritableActor (record r { object = record r.object { class = c } })
      → let r' = record r { object = record r.object { class = c } } in
        get_actor ar (put_actor ar r' ++ rest) ≡ some (stored_actor r', rest)
  unfolding get_actor put_actor stored_actor
  get_actor-put_class r none rest w =
      simp (append_assoc, get_object-put_parts ar r.name none r.data_bytes r.tags _ w.0)
  get_actor-put_class r (some c) rest w =
      simp (append_assoc, get_object-put_parts ar r.name (some c) r.data_bytes r.tags _ w.0)
        (simp append_assoc at
          (actor_body (record r { object = record r.object { class = some c } }) rest w))

  -- What is loaded from a saved actor record is that record, and the archive goes on right behind it:
  -- with a class, every part of it, but the velocities are zero if both were nearly zero, and a component
  -- without a class keeps its name only; without a class, its name only. A record and its components
  -- that have no name must have no class.
  pub get_actor-put_actor :
      (r : ActorRecord E) (rest : Bytes)
      → IsWritableActor r
      → get_actor ar (put_actor ar r ++ rest) ≡ some (stored_actor r, rest)
  get_actor-put_actor r rest w = get_actor-put_class r r.class rest w
