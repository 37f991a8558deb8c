-- ===== src/Examples/Managers.antt =====
-- A manager whose tasks wait for a tick, and end then.
use save_extension.Base.{refl, true, false, none, some, [], ◌∷◌, arith}
use save_extension.Base.Int.{pos}
use save_extension.Base.Sets.{contains}
use save_extension.SlotInfo.{make_info}
use save_extension.Tasks.{Behaviour}
use save_extension.Tasks.History.{Inv}
use save_extension.Manager.{Managed, Services, Manager}
use save_extension.Examples.Engines.{numbers}
use save_extension.Examples.Disks.{Disk, files}
use save_extension.Examples.Files.{saved_disk}
use save_extension.Examples.Filters.{preset}
use save_extension.Examples.Slots.{slot}

abbrev waits_once : Behaviour (Managed numbers Disk)
waits_once = record {
  on_start = λ t s. (s, none);
  on_tick = λ t s. (s, some true);
  on_finish = λ t r s. s;
}

abbrev pub services : Services numbers Disk Disk
services = record {
  files = files;
  disk = λ w. w;
  game_mode = λ w. some true;
  has_world = λ w. true;
  streaming_levels = λ w. "Cave" ∷ [];
  default_preset = preset;
  new_preset = λ c. record preset { class = c };
  new_info = λ c. make_info (pos 0);
  new_data = λ c. slot;
  from_int = λ n. "1";
  settings_preset = none;
  preset_class = 7;
  behaviour = waits_once;
  on_map_loaded = λ t s. (s, none);
}

abbrev pub fresh : Manager services
fresh = record {
  tasks = [];
  running = λ t. false;
  finished = λ t. false;
  succeeded = λ t. false;
  next = 0;
  state = record {
    active_preset = none;
    current_info = none;
    current_data = none;
    notifiers = [];
    prepared = λ t. none;
    game = saved_disk;
  };
}

pub fresh-Inv : Inv fresh
unfolding contains
fresh-Inv = record {
  distinct = tt;
  active = tt;
  account = λ u. ground arith;
  unstarted = λ u h. (refl, refl);
}
