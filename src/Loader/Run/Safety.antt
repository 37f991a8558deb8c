-- ===== src/Loader/Run/Safety.antt =====
-- What holds of a load in every state that it can reach.
use save_extension.Base.{◌≡◌, Bool, true, false, Option, none, some, string_eq}
use save_extension.Base.Int.{ℤ}
use save_extension.Engine.{Engine}
use save_extension.World.{World}
use save_extension.Loader.State.{Clock, LoadRun, LoaderState, not_started}
use save_extension.Loader.Run.{complete_load_task, on_map_loaded, on_start, on_tick}
use save_extension.Loader.Run.Steps.{in_its_map}

module _ {E : Engine} {W : Type 0} (r : LoadRun E W) where
  -- One step of a load: it starts, ticks, its file task runs, or a map is opened before it is in its own.
  -- It takes no step after Finish.
  pub data Step (s : LoaderState E W) : LoaderState E W → Option Bool → Type 0 where
    starts :
        (now : ℤ) (clock : Clock) {t : LoaderState E W} {ended : Option Bool}
        → s.load_state ≡ not_started
        → on_start r now clock s ≡ some (t, ended)
        → Step s t ended
    ticks :
        (now : ℤ) (clock : Clock) {t : LoaderState E W} {ended : Option Bool}
        → on_tick r now clock s ≡ some (t, ended)
        → Step s t ended
    file_read : {t : LoaderState E W} → complete_load_task r s ≡ some t → Step s t none
    map_opened :
        (now : ℤ) (clock : Clock) (w : World E) {t : LoaderState E W} {ended : Option Bool}
        → in_its_map s.load_state ≡ false
        → on_map_loaded r now clock (some w) s ≡ some (t, ended)
        → Step s t ended

  -- What is reached, and whether a map was opened while the load was in its own
  pub data Reach (s : LoaderState E W) : LoaderState E W → Option Bool → Bool → Type 0 where
    here : Reach s s none false
    onward :
        {t u : LoaderState E W} {ended : Option Bool} {moved : Bool}
        → Reach s t none moved
        → Step t u ended
        → Reach s u ended moved
    leaves :
        (now : ℤ) (clock : Clock) (w : World E) {t u : LoaderState E W} {ended : Option Bool}
        {moved : Bool}
        → Reach s t none moved
        → in_its_map t.load_state ≡ true
        → on_map_loaded r now clock (some w) t ≡ some (u, ended)
        → Reach s u ended true
