-- ===== src/Engine.antt =====
-- What the plugin relies on of the engine's objects: their spatial data and their SaveGame
-- properties, which are written and read by `Object->Serialize` over an FSEArchive.
use save_extension.Base.{ℕ, ◌≡◌, Bool, true, Option, List}
use save_extension.Base.Int.{ℤ}
use save_extension.Name.{Name}
use save_extension.Archive.{Bytes, Codec}

pub record Engine : Type 1 where
  -- FTransform and FVector
  pub Transform : Type 0
  pub identity : Transform
  pub Vector : Type 0
  pub zero_vector : Vector
  pub is_nearly_zero : Vector → Bool
  pub zero_is_nearly_zero : is_nearly_zero zero_vector ≡ true
  -- the SaveGame properties of an object
  pub Props : Type 0
  pub write_props : Props → Bytes
  pub read_props : Bytes → Props → Props
  pub read_props-write_props : (p q : Props) → read_props (write_props p) q ≡ p
  -- the float that counts the seconds of a world, and FTimespan::FromSeconds in ticks
  pub Seconds : Type 0
  pub from_seconds : Seconds → ℤ
  -- AActor::StaticClass and UActorComponent::StaticClass
  pub actor_class : ℕ
  pub component_class : ℕ
  -- UClass::IsChildOf for USceneComponent and for UPrimitiveComponent
  pub is_scene : ℕ → Bool
  pub is_primitive : ℕ → Bool

-- `Ar << x` at the primitive types of the records. A class is written by its path.
pub record Archives (E : Engine) : Type 0 where
  pub name : Codec Name
  pub class : Codec (Option ℕ)
  pub bytes : Codec Bytes
  pub names : Codec (List Name)
  pub bit : Codec Bool
  pub bool : Codec Bool
  pub count : Codec ℕ
  pub transform : Codec E.Transform
  pub vector : Codec E.Vector
