-- ===== src/Examples/Presets.antt =====
-- A manager that loads a slot of another map with the task classes of the program.
use save_extension.Base.{◌≡◌, refl, true, false, none, some, [], ◌∷◌}
use save_extension.Base.Int.{pos}
use save_extension.Disk.{
  does_file_exist, save_file, get_slot_path, get_save_folder, serialize_data, serialize_info,
  create_and_deserialize_info, deserialize_object,
}
use save_extension.Tasks.History.{submit}
use save_extension.Loader.Run.{on_start}
use save_extension.Infos.{load_info}
use save_extension.Files.{read, write}
use save_extension.Preset.{is_mt_files_load}
use save_extension.Base.Sets.{contains}
use save_extension.SlotInfo.{make_info}
use save_extension.Tasks.{start, is_succeeded, is_scheduled}
use save_extension.Manager.{Services, Manager, can_load_or_save, try_instantiate_info, launch}
use save_extension.Manager.Classes.{Play, Machine, new_own, leave, with_classes}
use save_extension.Manager.Slots.{load_slot}
use save_extension.Manager.Active.{AllOfPreset}
use save_extension.Manager.Presets.{here, onward, loads, presets_kept}
use save_extension.Examples.Classes.{classes}
use save_extension.Examples.Engines.{numbers}
use save_extension.Examples.Disks.{Disk, files}
use save_extension.Examples.Files.{saved_disk}
use save_extension.Examples.Filters.{preset}
use save_extension.Examples.Slots.{slot}
use save_extension.Examples.Runs.{run, frame}
use save_extension.Examples.Loadings.{load, menu, clock}

abbrev machine : Machine numbers Disk
machine = record {
  saves = λ p q. record run { preset = p; request = q };
  loads = λ p name. record load { preset = p; slot_name = name };
  reflection = classes;
  decode = λ b. none;
  frame = λ g. frame;
  now = λ g. pos 200;
  clock = λ g. clock;
}

abbrev settings : Services numbers Disk (Play numbers Disk)
settings = record {
  files = files;
  disk = λ g. g.disk;
  game_mode = λ g. none;
  has_world = λ g. true;
  streaming_levels = λ g. "Cave" ∷ [];
  default_preset = preset;
  new_preset = λ c. record preset { class = c };
  new_info = λ c. make_info (pos 0);
  new_data = λ c. slot;
  from_int = λ n. "1";
  settings_preset = none;
  preset_class = 7;
  behaviour = record {
    on_start = λ t s. (s, none);
    on_tick = λ t s. (s, none);
    on_finish = λ t r s. s;
  };
  on_map_loaded = λ t s. (s, none);
}

abbrev in_menu : Manager (with_classes machine settings)
in_menu = record {
  tasks = [];
  running = λ t. false;
  finished = λ t. false;
  succeeded = λ t. false;
  next = 0;
  state = record {
    active_preset = none;
    current_info = none;
    current_data = none;
    notifiers = [];
    prepared = λ t. none;
    game = record { world = menu; disk = saved_disk; own = λ t. new_own };
  };
}

abbrev loading :
    (n : Manager (with_classes machine settings)) × (load_slot
        (with_classes machine settings)
        "one"
        in_menu
      ≡ some (true, n))
unfolding load_slot can_load_or_save launch start is_succeeded is_scheduled with_classes leave
    try_instantiate_info does_file_exist save_file get_slot_path get_save_folder serialize_data
    serialize_info create_and_deserialize_info deserialize_object submit on_start load_info read
    write is_mt_files_load contains
loading = (_, refl)

presets_example : AllOfPreset (with_classes machine settings) loading.0
presets_example =
    presets_kept machine settings in_menu loading.0 refl (onward here (loads "one" true loading.1))
