-- ===== src/Loader/Run/Steps.antt =====
-- What each step of a load keeps.
use save_extension.Base.{
  arith, ◌≡◌, refl, sym, ◌∙◌, Bool, true, false, Option, none, some, ◌==◌, string_eq, inl, inr,
  some_eq, subst,
}
use save_extension.Base.Int.{ℤ}
use save_extension.Base.Sets.{eq_true}
use save_extension.Engine.{Engine}
use save_extension.World.{World}
use save_extension.SlotData.{SlotData}
use save_extension.SlotInfo.{SlotInfo}
use save_extension.Loader.State.{
  Clock, Cursor, LoadRun, LoadState, LoaderState, deserializing, is_data_loaded, loading_map,
  not_started, restoring_actors, waiting_for_data,
}
use save_extension.Loader.Deserialize.{deserialize_level_async, fuel_of}
use save_extension.Loader.Run.{in_new_map, map_loaded, tick_deserializing, tick_in}
use save_extension.Loader.Run.Keeps.{Gives, async_loop-Keeps, level_async-Keeps}
use save_extension.Loader.Run.Source.{InfoIn, Reads}
use save_extension.Loader.Run.{enter_world, opened_in}
use save_extension.Loader.Run.Phases.{
  Before, FromFile, AtMap, Found, Applied, Going, Phase, Safe, Applied-Safe, when_loaded-Safe,
  Reads-Before,
}

-- The load has found its map: it waits for its data there, or deserializes.
unfoldable pub in_its_map : LoadState → Bool
in_its_map not_started = false
in_its_map loading_map = false
in_its_map waiting_for_data = true
in_its_map restoring_actors = false
in_its_map deserializing = true

module _ {E : Engine} {W : Type 0} (r : LoadRun E W) where
  tick_deserializing-Safe :
      (s0 : LoaderState E W) (moved : Bool) (s : LoaderState E W) (clock : Clock)
      (c : Option Cursor) (found : Option (SlotData E))
      → s.load_state ≡ deserializing
      → s.slot_data ≡ found
      → Applied r s0 moved s
      → Going r s0 s
      → Gives r (Safe r s0 moved) (tick_deserializing r clock c found s)
  unfolding tick_deserializing
  tick_deserializing-Safe s0 moved s clock none found h is a g =
      subst (Phase r s0 moved s) (sym h) (a, g)
  tick_deserializing-Safe s0 moved s clock (some c) none h is a g = tt
  tick_deserializing-Safe s0 moved s clock (some c) (some d) h is a (d', own, from) =
      Applied-Safe r s0 moved s _ d h a is (subst (FromFile r s0) (some_eq (sym own ∙ is)) from) (
        async_loop-Keeps r (λ l. deserialize_level_async r (fuel_of r s) clock d (some l)) clock d c
          s (λ l t. level_async-Keeps r (fuel_of r s) clock d (some l) t))

  pub tick_in-Safe :
      (s0 : LoaderState E W) (moved : Bool) (s : LoaderState E W) (ls : LoadState) (now : ℤ)
      (clock : Clock)
      → s.load_state ≡ ls
      → Phase r s0 moved s ls
      → Gives r (Safe r s0 moved) (tick_in r ls now clock s)
  unfolding tick_in
  tick_in-Safe s0 moved s not_started now clock h p = subst (Phase r s0 moved s) (sym h) p
  tick_in-Safe s0 moved s loading_map now clock h p = subst (Phase r s0 moved s) (sym h) p
  tick_in-Safe s0 moved s waiting_for_data now clock h (same, map) =
      when_loaded-Safe r s0 moved s now clock (is_data_loaded s.load_task) same map
  tick_in-Safe s0 moved s restoring_actors now clock h p = absurd p
  tick_in-Safe s0 moved s deserializing now clock h (a, g) =
      tick_deserializing-Safe s0 moved s clock s.cursor s.slot_data h refl a g

  in_new_map-Safe :
      (s0 : LoaderState E W) (moved : Bool) (s : LoaderState E W) (info : SlotInfo) (now : ℤ)
      (clock : Clock) (same_map : Bool)
      → s.load_state ≡ loading_map
      → Before r s0 s
      → s.new_info ≡ some info
      → InfoIn r s0.disk info
      → (same_map ≡ true → s.world.map_name ≡ info.map)
      → Gives r (Safe r s0 moved) (in_new_map r same_map now clock s)
  unfolding in_new_map
  in_new_map-Safe s0 moved s info now clock true h same new is map =
      when_loaded-Safe r s0 moved s now clock (is_data_loaded s.load_task) same
        (info, new, is, inr (map refl))
  in_new_map-Safe s0 moved s info now clock false h same new is map =
      subst (Phase r s0 moved s) (sym h) (same, (info, new, is))

  map_loaded-Safe :
      (s0 : LoaderState E W) (moved : Bool) (s : LoaderState E W) (now : ℤ) (clock : Clock)
      → s.load_state ≡ loading_map
      → Before r s0 s
      → Found r s0 s
      → Gives r (Safe r s0 moved) (map_loaded r s.new_info now clock s)
  unfolding map_loaded
  map_loaded-Safe s0 moved s now clock h same (info, new, is) =
      subst (λ (i : Option SlotInfo). Gives r (Safe r s0 moved) (map_loaded r i now clock s))
        (sym new)
        (in_new_map-Safe s0 moved s info now clock (s.world.map_name == info.map) h same new is
          (λ e. eq_true s.world.map_name info.map e))

  -- A map is opened before the load is in its map.
  pub opened_in-Safe :
      (s0 : LoaderState E W) (moved : Bool) (s : LoaderState E W) (ls : LoadState) (now : ℤ)
      (clock : Clock) (w : World E)
      → s.load_state ≡ ls
      → in_its_map ls ≡ false
      → Phase r s0 moved s ls
      → Gives r (Safe r s0 moved) (opened_in r ls now clock (enter_world r w s))
  unfolding opened_in enter_world in_its_map
  opened_in-Safe s0 moved s not_started now clock w h out p =
      subst (Phase r s0 moved (enter_world r w s)) (sym h) p
  opened_in-Safe s0 moved s loading_map now clock w h out (same, found) =
      map_loaded-Safe s0 moved (enter_world r w s) now clock h same found
  opened_in-Safe s0 moved s waiting_for_data now clock w h out p = absurd (ground arith)
  opened_in-Safe s0 moved s restoring_actors now clock w h out p = absurd p
  opened_in-Safe s0 moved s deserializing now clock w h out p = absurd (ground arith)

  -- A map is opened while the load is in its map.
  pub left-Safe :
      (s0 : LoaderState E W) (moved : Bool) (s : LoaderState E W) (ls : LoadState) (now : ℤ)
      (clock : Clock) (w : World E)
      → s.load_state ≡ ls
      → in_its_map ls ≡ true
      → Phase r s0 moved s ls
      → Gives r (Safe r s0 true) (opened_in r ls now clock (enter_world r w s))
  unfolding opened_in enter_world in_its_map
  left-Safe s0 moved s not_started now clock w h in_it p = absurd (ground arith)
  left-Safe s0 moved s loading_map now clock w h in_it p = absurd (ground arith)
  left-Safe s0 moved s waiting_for_data now clock w h in_it (same, (info, new, is, map)) =
      subst (Phase r s0 true (enter_world r w s)) (sym h) (same, (info, new, is, inl refl))
  left-Safe s0 moved s restoring_actors now clock w h in_it p = absurd p
  left-Safe s0 moved s deserializing now clock w h in_it ((info, date, is, new, current, map), g) =
      subst (Phase r s0 true (enter_world r w s)) (sym h)
        ((info, date, is, new, current, inl refl), g)

  -- Reading the file changes no phase.
  pub Reads-Phase :
      (s0 : LoaderState E W) (moved : Bool) (s t : LoaderState E W) (ls : LoadState)
      → Reads r s (some t)
      → Phase r s0 moved s ls
      → Phase r s0 moved t ls
  Reads-Phase s0 moved s t not_started reads p = Reads-Before r s0 s t reads p
  Reads-Phase s0 moved s t loading_map reads (p, (info, new, is)) =
      (Reads-Before r s0 s t reads p, (info, reads.1 ∙ new, is))
  Reads-Phase s0 moved s t waiting_for_data reads (p, (info, new, is, map)) = (
    Reads-Before r s0 s t reads p,
    (info, reads.1 ∙ new, is, subst (λ (w : World E). AtMap r moved w info) (sym reads.4) map),
  )
  Reads-Phase s0 moved s t restoring_actors reads p = absurd p
  Reads-Phase s0 moved s t deserializing (a, b, c, e, f, disk, slot, own)
        ((info, date, is, new, current, map), (d, is_d, from)) =
      (
        (
          info,
          date,
          is,
          b ∙ new,
          c ∙ current,
          subst (λ (w : World E). AtMap r moved w info) (sym f) map,
        ),
        (d, slot ∙ is_d, from),
      )
