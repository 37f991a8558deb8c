-- ===== src/World.antt =====
-- The part of an engine world that the saver reads and the loader writes: its levels, their actors,
-- and the actors' root and components. Only fields; the operations on them are the plugin's.
use save_extension.Base.{ℕ, Bool, Option, List}
use save_extension.Name.{Name}
use save_extension.Engine.{Engine}

module _ (E : Engine) where
  -- UActorComponent; the mobility and the transform are those of a USceneComponent
  pub record Component : Type 0 where
    pub name : Name
    pub class : ℕ
    pub is_valid : Bool
    pub component_tags : List Name
    pub is_movable : Bool
    pub relative_transform : E.Transform
    pub props : E.Props

  -- the USceneComponent that is the root of an actor, and whether it is a UPrimitiveComponent
  pub record Root : Type 0 where
    pub is_movable : Bool
    pub is_primitive : Bool
    pub physics_linear_velocity : E.Vector
    pub physics_angular_velocity : E.Vector
    pub component_velocity : E.Vector

  -- AActor; `was_loaded` is HasAnyFlags(RF_WasLoaded | RF_LoadCompleted)
  pub record Actor : Type 0 where
    pub name : Name
    pub class : ℕ
    pub is_valid : Bool
    pub is_hidden : Bool
    pub was_loaded : Bool
    pub tags : List Name
    pub is_root_component_movable : Bool
    pub transform : E.Transform
    pub root : Option Root
    pub components : List Component
    pub props : E.Props

  -- ULevel: the array of its actors has null entries.
  pub record Level : Type 0 where
    pub actors : List (Option Actor)

  -- ULevelStreaming: GetWorldAssetPackageFName, and the level if it is loaded
  pub record StreamingLevel : Type 0 where
    pub package_name : Name
    pub loaded_level : Option Level

  -- UGameInstance
  pub record GameInstance : Type 0 where
    pub name : Name
    pub class : ℕ
    pub props : E.Props

  -- UWorld; `map_name` is what GetWorldName returns
  pub record World : Type 0 where
    pub map_name : Name
    pub time_seconds : E.Seconds
    pub has_authority : Bool
    pub current_level : Level
    pub streaming_levels : List StreamingLevel
    pub game_instance : Option GameInstance
