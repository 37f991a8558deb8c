-- ===== src/Records.antt =====
-- Source/SaveExtension/Public/Serialization/Records.h, Private/Serialization/Records.cpp: the records
-- of objects, components and actors, and their archive format.
pub mod Object
pub mod Actor
use save_extension.Base.{
  ℕ, ◌≡◌, Bool, true, false, not, ◌&&◌, ◌||◌, Option, none, some, List, [], ◌∷◌, ◌++◌, ◌==◌,
  string_eq, nat_eq, if◌then◌else◌, ltb, length,
}
use save_extension.Name.{Name, name_none, is_none}
use save_extension.Archive.{Bytes, Codec, ◌>>=◌, put_array, get_array}
use save_extension.Engine.{Engine, Archives}

-- FObjectRecord, with the name of FBaseRecord
pub record ObjectRecord : Type 0 where
  pub name : Name
  pub class : Option ℕ
  pub data_bytes : Bytes
  pub tags : List Name

-- FObjectRecord()
abbrev pub empty_object : ObjectRecord
empty_object = record { name = name_none; class = none; data_bytes = []; tags = [] }

-- IsValid
unfoldable pub is_valid_record : ObjectRecord → Bool
is_valid_record r =
    not (is_none r.name)
    && elim r.class [ none ↦ false | some _ ↦ true ]
    && ltb 0 (length r.data_bytes)

-- operator== with an object that is not null
unfoldable pub is_record_of : ObjectRecord → Name → ℕ → Bool
is_record_of r name class = r.name == name && elim r.class [ none ↦ false | some c ↦ c == class ]

-- FComponentRecord
pub record ComponentRecord (E : Engine) : Type 0 where
  pub object : ObjectRecord
  pub open object use *
  pub transform : E.Transform

-- FActorRecord
pub record ActorRecord (E : Engine) : Type 0 where
  pub object : ObjectRecord
  pub open object use *
  pub hidden_in_game : Bool
  pub is_procedural : Bool
  pub transform : E.Transform
  pub linear_velocity : E.Vector
  pub angular_velocity : E.Vector
  pub component_records : List (ComponentRecord E)

-- FActorRecord() with the object part read; the two bits, which the constructor leaves unset, are
-- read as false.
unfoldable pub unset_actor : {E : Engine} → ObjectRecord → ActorRecord E
unset_actor {E} o = record {
  object = o;
  hidden_in_game = false;
  is_procedural = false;
  transform = E.identity;
  linear_velocity = E.zero_vector;
  angular_velocity = E.zero_vector;
  component_records = [];
}

module _ {E : Engine} (ar : Archives E) where
  -- FObjectRecord::Serialize, saving and loading
  unfoldable pub put_object : ObjectRecord → Bytes
  put_object r =
      ar.name.put r.name
      ++ ((if is_none r.name then [] else ar.class.put r.class)
          ++ elim r.class [ none ↦ [] | some _ ↦ ar.bytes.put r.data_bytes ++ ar.names.put r.tags ])

  -- Data and Tags, which follow a class that is not null
  get_body : ObjectRecord → Bytes → Option (ObjectRecord × Bytes)
  get_body r rest = elim r.class [
    | none ↦ some (r, rest)
    | some _ ↦ do
      (data', behind) ← ar.bytes.get rest
      (tags', behind') ← ar.names.get behind
      some (record r { data_bytes = data'; tags = tags' }, behind')
  ]

  -- The class, which follows a name that is not None
  get_class : Name → Bytes → Option (Option ℕ × Bytes)
  get_class name rest = if is_none name then some (none, rest) else ar.class.get rest

  unfoldable pub get_object : Bytes → Option (ObjectRecord × Bytes)
  unfolding get_body get_class
  get_object bytes = do
    (name', behind) ← ar.name.get bytes
    (class', rest) ← get_class name' behind
    get_body (record empty_object { name = name'; class = class' }) rest

  -- FComponentRecord::Serialize
  unfoldable pub put_component : ComponentRecord E → Bytes
  put_component r =
      put_object r.object ++ elim r.class [ none ↦ [] | some _ ↦ ar.transform.put r.transform ]

  get_component_body : ObjectRecord → Bytes → Option (ComponentRecord E × Bytes)
  get_component_body o rest = elim o.class [
    | none ↦ some (record { object = o; transform = E.identity }, rest)
    | some _ ↦ do
      (t, behind) ← ar.transform.get rest
      some (record { object = o; transform = t }, behind)
  ]

  unfoldable pub get_component : Bytes → Option (ComponentRecord E × Bytes)
  unfolding get_component_body
  get_component bytes = do (o, rest) ← get_object bytes; get_component_body o rest

  -- FActorRecord::Serialize
  unfoldable pub is_moving : ActorRecord E → Bool
  is_moving r =
      not (E.is_nearly_zero r.linear_velocity) || not (E.is_nearly_zero r.angular_velocity)

  put_actor_body : ActorRecord E → Bytes
  unfolding is_moving
  put_actor_body r =
      ar.bit.put r.hidden_in_game
      ++ (ar.bit.put r.is_procedural
          ++ (ar.transform.put r.transform
              ++ (ar.bool.put (is_moving r)
                  ++ ((if is_moving r
                        then ar.vector.put r.linear_velocity ++ ar.vector.put r.angular_velocity
                        else [])
                      ++ put_array put_component ar.count r.component_records))))

  unfoldable pub put_actor : ActorRecord E → Bytes
  unfolding put_actor_body
  put_actor r = put_object r.object ++ elim r.class [ none ↦ [] | some _ ↦ put_actor_body r ]

  get_velocities : Bool → Bytes → Option (E.Vector × E.Vector × Bytes)
  get_velocities false rest = some (E.zero_vector, E.zero_vector, rest)
  get_velocities true rest = do
    (linear, behind) ← ar.vector.get rest
    (angular, behind') ← ar.vector.get behind
    some (linear, angular, behind')

  get_actor_body : ObjectRecord → Bytes → Option (ActorRecord E × Bytes)
  get_actor_body o r0 = do
    (hidden, r1) ← ar.bit.get r0
    (procedural, r2) ← ar.bit.get r1
    (t, r3) ← ar.transform.get r2
    (moving, r4) ← ar.bool.get r3
    (linear, angular, r5) ← get_velocities moving r4
    (components, r6) ← get_array get_component ar.count r5
    some (
      record {
        object = o;
        hidden_in_game = hidden;
        is_procedural = procedural;
        transform = t;
        linear_velocity = linear;
        angular_velocity = angular;
        component_records = components;
      },
      r6,
    )

  unfoldable pub get_actor : Bytes → Option (ActorRecord E × Bytes)
  unfolding get_actor_body get_velocities
  get_actor bytes = do
    (o, rest) ← get_object bytes
    elim o.class [ none ↦ some (unset_actor o, rest) | some _ ↦ get_actor_body o rest ]
