-- ===== src/Examples/Prepared.antt =====
-- Levels that are brought in line with their records.
use save_extension.Base.{
  ℕ, ◌≡◌, refl, ap, true, Option, none, some, List, [], ◌∷◌, map, get_elem?, arith, nat_eq,
}
use mathlib.Core.Option.{map as map_option}
use save_extension.Name.{Name}
use save_extension.Archive.{Each}
use save_extension.LevelFilter.{LevelFilter, bake_filter}
use save_extension.World.{Actor}
use save_extension.Records.{ActorRecord}
use save_extension.Loader.Prepare.{Spawner, prepare_level}
use save_extension.Loader.Prepare.Matched.{has_actor, Recorded}
use save_extension.Loader.Prepare.Respawned.{prepare_level-Matched, unnamed}
use save_extension.Examples.Classes.{classes}
use save_extension.Examples.Engines.{numbers}
use save_extension.Examples.Slots.{level_filter, an_actor}
use save_extension.Examples.Saves.{hero, actors}

abbrev spawn_hero : List (Option (Actor numbers)) → Name → Option ℕ → ℕ → Option (Actor numbers)
spawn_hero before name none t = none
spawn_hero before name (some class) t =
    some (record hero { name = name; class = class; transform = t })

pub hero_class :
    (before : List (Option (Actor numbers))) (name : Name) (class : Option ℕ) (t : ℕ)
    (a : Actor numbers)
    → spawn_hero before name class t ≡ some a
    → class ≡ some a.class
hero_class before name none t a e = absurd (ground arith)
hero_class before name (some c) t a e = ap (map_option (λ (b : Actor numbers). b.class)) e

abbrev pub spawner : Spawner numbers
spawner = record { spawn = spawn_hero; class-spawn = hero_class; destroys = λ a. true }

abbrev pub saved_filter : LevelFilter
saved_filter = bake_filter classes level_filter

abbrev records : List (ActorRecord numbers)
records = an_actor ∷ record an_actor { object = record an_actor.object { name = "gone" } } ∷ []

prepare_level_example :
    (records' : List (ActorRecord numbers)) × (actors' : List (Option (Actor numbers)))
    × (prepare_level spawner saved_filter records actors ≡ some (records', actors'))
    × (map unnamed records' ≡ map unnamed records)
    × ((j : ℕ) (r : ActorRecord numbers)
        → get_elem? records' j ≡ some r
        → has_actor spawner saved_filter actors' r ≡ true)
    × Each (Recorded spawner saved_filter records' []) actors'
prepare_level_example =
    prepare_level-Matched spawner saved_filter records actors (λ a. refl)
      ((λ before name. (_, refl)), ((λ before name. (_, refl)), tt))
