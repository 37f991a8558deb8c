-- ===== src/Examples/Lifetimes.antt =====
-- The life of one component while the game is saved and loaded.
use save_extension.Base.{◌≡◌, refl, true, false, none, List, [], ◌∷◌, ◌++◌, if◌then◌else◌}
use save_extension.Base.Sets.{contains}
use save_extension.Events.{save_began, save_finished, load_finished, Objects, started, finished}
use save_extension.Events.Lifetimes.{Moment, happens, joins, quits, heard, life, life_lem}
use save_extension.Examples.Prepared.{saved_filter}

abbrev components : Objects
components = record { exists = λ i. true; is_native = λ i. true }

abbrev meanwhile : List Moment
meanwhile =
    happens (save_began saved_filter) none
    ∷ joins 5
    ∷ happens (save_finished saved_filter false) none
    ∷ quits 5
    ∷ happens (load_finished saved_filter true) none
    ∷ []

abbrev afterwards : List Moment
afterwards = happens (save_began saved_filter) none ∷ []

life_example :
    life components 4 1 (9 ∷ []) false meanwhile true afterwards
    ≡ (if false then [] else started ∷ [])
      ++ heard 1 meanwhile
      ++ (if true then [] else finished ∷ [])
unfolding contains
life_example =
    life_lem components 4 1 (9 ∷ []) false meanwhile true afterwards refl refl (refl, tt) refl
      (tt, (refl, (tt, (refl, (tt, tt))))) (tt, tt)
