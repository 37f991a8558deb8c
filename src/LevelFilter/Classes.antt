-- ===== src/LevelFilter/Classes.antt =====
-- Which classes the filter of a preset saves and loads.
use save_extension.Base.{ℕ, ◌≡◌, ◌↔◌, true, if◌then◌else◌}
use save_extension.ClassFilter.{Reflection}
use save_extension.ClassFilter.Bake.{Allows, is_class_allowed-bake}
use save_extension.Preset.{Preset, get_actor_filter, get_component_filter}
use save_extension.LevelFilter.{
  to_filter, bake_filter, should_save_actor, should_load_actor, should_save_component,
  should_load_component,
}

-- With the baked filter of a preset, what is saved is decided by the load filters of the preset where
-- bUseLoadActorFilter is set, for the actors and for the valid components alike, and by the plain filters
-- where it is not; what would be loaded is decided by the plain filters in every case.
pub to_filter-classes :
    (r : Reflection) (p : Preset) (c : ℕ)
    → let f = bake_filter r (to_filter p) in
      ((should_save_actor f c ≡ true)
        ↔ Allows r (if p.use_load_actor_filter then p.load_actor_filter else p.actor_filter) c)
      × ((should_save_component f true c ≡ true)
          ↔ Allows r
              (if p.use_load_actor_filter then p.load_component_filter else p.component_filter)
              c)
      × ((should_load_actor f c ≡ true) ↔ Allows r p.actor_filter c)
      × ((should_load_component f true c ≡ true) ↔ Allows r p.component_filter c)
unfolding to_filter bake_filter should_save_actor should_load_actor should_save_component
    should_load_component get_actor_filter get_component_filter
to_filter-classes r p c = (
  is_class_allowed-bake r _ c,
  is_class_allowed-bake r _ c,
  is_class_allowed-bake r _ c,
  is_class_allowed-bake r _ c,
)
