-- ===== src/Manager/Classes.antt =====
-- The task classes as tasks of the manager: USlotDataTask_Saver, USlotDataTask_Loader, USlotDataTask_LevelSaver and
-- USlotDataTask_LevelLoader (Source/SaveExtension/Private/Serialization), with the fields of the manager that they
-- read and write. The slot data of a level task are the current data of the manager that it was made with; that
-- they are replaced while it waits in the list is left out.
use save_extension.Base.{
  ℕ, Bool, true, false, Option, none, some, List, [], ◌∷◌, ◌==◌, nat_eq, string_eq, if◌then◌else◌,
}
use save_extension.Base.Int.{ℤ}
use save_extension.Name.{Name}
use save_extension.Archive.{Bytes}
use save_extension.ClassFilter.{Reflection}
use save_extension.Preset.{Preset, is_mt_serialization_save}
use save_extension.Engine.{Engine}
use save_extension.World.{Level, StreamingLevel, World}
use save_extension.SlotInfo.{SlotInfo}
use save_extension.SlotData.{SlotData}
use save_extension.Saver.Run.{SaveRequest, SaveRun, SaveState, Frame}
use save_extension.Saver.Run as SaverRun
use save_extension.Loader.State.{
  Clock, Cursor, LoadRun, LoadState, LoadTask, LoaderState, not_started, no_task, set_actors,
}
use save_extension.Loader.Deserialize.{Outcome}
use save_extension.Loader.Run as LoaderRun
use save_extension.Streaming.{LevelLoad, save_level, load_level}
use save_extension.Manager.{
  saver, loader, level_saver, level_loader, Prepared, Managed, Services, try_instantiate_info,
}

-- The fields of a task: those of a loader, and SaveTask of a saver
pub record Own (E : Engine) : Type 0 where
  pub load_state : LoadState
  pub new_info : Option SlotInfo
  pub slot_data : Option (SlotData E)
  pub load_task : LoadTask E
  pub cursor : Option Cursor
  pub save_task : Option Bool

abbrev pub new_own : {E : Engine} → Own E
new_own = record {
  load_state = not_started;
  new_info = none;
  slot_data = none;
  load_task = no_task;
  cursor = none;
  save_task = none;
}

-- The world, the disk and the tasks
pub record Play (E : Engine) (W : Type 0) : Type 0 where
  pub world : World E
  pub disk : W
  pub own : ℕ → Own E

-- What the methods of the tasks run with: the engine, and the clock and the threads at the time of a call
pub record Machine (E : Engine) (W : Type 0) : Type 1 where
  pub saves : Preset → SaveRequest → SaveRun E W
  pub loads : Preset → Name → LoadRun E W
  pub reflection : Reflection
  pub decode : Bytes → Option Bytes
  pub frame : Play E W → Frame
  pub now : Play E W → ℤ
  pub clock : Play E W → Clock

-- What a method of a task leaves of all that it can write, and what it passes to Finish
pub record Left (E : Engine) (W : Type 0) : Type 0 where
  pub current_info : Option SlotInfo
  pub current_data : Option (SlotData E)
  pub play : Play E W
  pub ended : Option Bool

module _ {E : Engine} {W : Type 0} (k : Machine E W) (v : Services E W (Play E W)) where
  abbrev Fields : Type 0
  Fields = Managed E (Play E W)

  -- A method that does nothing, and one that crashes, after which nothing is said
  abbrev as_it_is : Fields → Left E W
  as_it_is s = record {
    current_info = s.current_info;
    current_data = s.current_data;
    play = s.game;
    ended = none;
  }

  unfoldable set_own : ℕ → Own E → Play E W → Play E W
  set_own t o p = record p { own = λ u. if t == u then o else p.own u }

  -- A saver works on the manager's info and data.
  unfoldable after_save : ℕ → Fields → Option (SaveState E W × Option Bool) → Left E W
  unfolding set_own
  after_save t s none = as_it_is s
  after_save t s (some (after, ended)) = record {
    current_info = some after.info;
    current_data = some after.slot_data;
    play = record (set_own t (record (s.game.own t) { save_task = after.save_task }) s.game) {
      disk = after.disk;
    };
    ended = ended;
  }

  unfoldable with_save_state :
      ℕ → Fields → (SaveState E W → Option (SaveState E W × Option Bool)) → Left E W
  unfolding after_save
  with_save_state t s method = elim s.current_info [
    | none ↦ as_it_is s
    | some info ↦ elim s.current_data [
      | none ↦ as_it_is s
      | some d ↦ after_save t s (
          method (record {
            info = info;
            slot_data = d;
            disk = s.game.disk;
            save_task = (s.game.own t).save_task;
          }))
    ]
  ]

  -- A loader has its own info and data, and applies them to the manager.
  unfoldable after_load : ℕ → Fields → Outcome E W → Left E W
  unfolding set_own
  after_load t s none = as_it_is s
  after_load t s (some (after, ended)) = record {
    current_info = after.current_info;
    current_data = after.current_data;
    play =
        record (set_own t
          (record (s.game.own t) {
            load_state = after.load_state;
            new_info = after.new_info;
            slot_data = after.slot_data;
            load_task = after.load_task;
            cursor = after.cursor;
          })
          s.game) { world = after.world; disk = after.disk };
    ended = ended;
  }

  unfoldable load_state_of : ℕ → Fields → LoaderState E W
  load_state_of t s = record {
    load_state = (s.game.own t).load_state;
    new_info = (s.game.own t).new_info;
    slot_data = (s.game.own t).slot_data;
    load_task = (s.game.own t).load_task;
    cursor = (s.game.own t).cursor;
    current_info = s.current_info;
    current_data = s.current_data;
    world = s.game.world;
    disk = s.game.disk;
  }

  -- OnStart, Tick and OnFinish of a saver; OnStart begins with TryInstantiateInfo.
  unfoldable start_saver : SaveRequest → Preset → ℕ → Fields → Left E W
  unfolding with_save_state
  start_saver q preset t s =
      with_save_state t (try_instantiate_info v false s)
        (SaverRun.on_start (k.saves preset q) k.reflection (k.frame s.game) s.game.world)

  unfoldable tick_saver : SaveRequest → Preset → ℕ → Fields → Left E W
  unfolding with_save_state
  tick_saver q preset t s =
      with_save_state t s (λ st. some (SaverRun.on_tick (k.saves preset q) k.decode st))

  unfoldable finish_saver : SaveRequest → Preset → Bool → ℕ → Fields → Left E W
  unfolding with_save_state
  finish_saver q preset success t s =
      with_save_state t s (λ st. some (SaverRun.on_finish (k.saves preset q) success st, none))

  -- OnStart, Tick and OnMapLoaded of a loader
  unfoldable start_loader : Name → Preset → ℕ → Fields → Left E W
  unfolding after_load load_state_of
  start_loader name preset t s =
      after_load t s (
        LoaderRun.on_start (k.loads preset name) (k.now s.game) (k.clock s.game)
          (load_state_of t s))

  unfoldable tick_loader : Name → Preset → ℕ → Fields → Left E W
  unfolding after_load load_state_of
  tick_loader name preset t s =
      after_load t s (
        LoaderRun.on_tick (k.loads preset name) (k.now s.game) (k.clock s.game) (load_state_of t s))

  unfoldable map_loader : World E → Name → Preset → ℕ → Fields → Left E W
  unfolding after_load load_state_of
  map_loader opened name preset t s = after_load t s (
      LoaderRun.on_map_loaded (k.loads preset name) (k.now s.game) (k.clock s.game) (some opened)
        (load_state_of t s))

  -- the level of a streaming level, if it is loaded
  unfoldable loaded_level_of : List (StreamingLevel E) → Name → Option (Level E)
  loaded_level_of [] name = none
  loaded_level_of (l ∷ ls) name =
      let rest = loaded_level_of ls name in if l.package_name == name then l.loaded_level else rest

  -- OnStart of a level saver, whose slot data are the manager's
  unfoldable start_level_saver : Name → Preset → Fields → Left E W
  unfolding loaded_level_of
  start_level_saver name preset s =
      elim (save_level k.reflection (is_mt_serialization_save preset) (k.frame s.game).workers
        (k.frame s.game).order s.game.world.game_instance s.current_data name
        (loaded_level_of s.game.world.streaming_levels name)) [
          | none ↦ as_it_is s
          | some (d, success) ↦ record (as_it_is s) { current_data = d; ended = some success }
        ]

  -- OnStart of a level loader, whose slot data are the manager's, and what it leaves of the level
  unfoldable level_load_of : Option (Level E) → Fields → LevelLoad E
  level_load_of level s = record {
    load_state = not_started;
    slot_data = s.current_data;
    current_data = s.current_data;
    frames = record {
      level_actors = elim level [ none ↦ [] | some l ↦ l.actors ];
      current_actors = [];
      actor_index = 0;
      is_done = false;
    };
    ended = none;
  }

  unfoldable after_level_load : Name → Fields → LevelLoad E → Left E W
  after_level_load name s after = record (as_it_is s) {
    current_data = after.slot_data;
    play = record s.game { world = set_actors after.frames.level_actors s.game.world (some name) };
    ended = after.ended;
  }

  unfoldable start_level_loader : Name → Preset → Fields → Left E W
  unfolding loaded_level_of level_load_of after_level_load
  start_level_loader name preset s =
      let level = loaded_level_of s.game.world.streaming_levels name in
      after_level_load name s (
        load_level k.reflection preset (k.clock s.game (some name)) name
          (elim level [ none ↦ false | some _ ↦ true ]) (level_load_of level s))

  -- OnStart, Tick, OnFinish and OnMapLoaded of a task by its class. A level saver has ended in OnStart; Tick
  -- and OnMapLoaded of a level loader do nothing, since none of its methods sets its LoadState.
  unfoldable start_kind : ℕ → Fields → Option (Prepared E) → Left E W
  unfolding start_saver start_loader start_level_saver start_level_loader
  start_kind t s none = as_it_is s
  start_kind t s (some made) = elim made.kind [
    | saver q ↦ start_saver q made.preset t s
    | loader name ↦ start_loader name made.preset t s
    | level_saver name ↦ start_level_saver name made.preset s
    | level_loader name ↦ start_level_loader name made.preset s
  ]

  unfoldable tick_kind : ℕ → Fields → Option (Prepared E) → Left E W
  unfolding tick_saver tick_loader
  tick_kind t s none = as_it_is s
  tick_kind t s (some made) = elim made.kind [
    | saver q ↦ tick_saver q made.preset t s
    | loader name ↦ tick_loader name made.preset t s
    | level_saver name ↦ as_it_is s
    | level_loader name ↦ as_it_is s
  ]

  unfoldable finish_kind : Bool → ℕ → Fields → Option (Prepared E) → Left E W
  unfolding finish_saver
  finish_kind success t s none = as_it_is s
  finish_kind success t s (some made) = elim made.kind [
    | saver q ↦ finish_saver q made.preset success t s
    | loader name ↦ as_it_is s
    | level_saver name ↦ as_it_is s
    | level_loader name ↦ as_it_is s
  ]

  unfoldable map_kind : ℕ → Fields → Option (Prepared E) → Left E W
  unfolding map_loader
  map_kind t s none = as_it_is s
  map_kind t s (some made) = elim made.kind [
    | saver q ↦ as_it_is s
    | loader name ↦ map_loader s.game.world name made.preset t s
    | level_saver name ↦ as_it_is s
    | level_loader name ↦ as_it_is s
  ]

  unfoldable pub leave : Fields → Left E W → Fields
  leave s left = record s {
    current_info = left.current_info;
    current_data = left.current_data;
    game = left.play;
  }

  -- The manager with the task classes of the program
  unfoldable pub with_classes : Services E W (Play E W)
  unfolding start_kind tick_kind finish_kind map_kind leave
  with_classes = record v {
    behaviour = record {
      on_start = λ t s. let left = start_kind t s (s.prepared t) in (leave s left, left.ended);
      on_tick = λ t s. let left = tick_kind t s (s.prepared t) in (leave s left, left.ended);
      on_finish = λ t success s. leave s (finish_kind success t s (s.prepared t));
    };
    on_map_loaded = λ t s. let left = map_kind t s (s.prepared t) in (leave s left, left.ended);
  }
