-- ===== src/Examples/Runs.antt =====
-- Saves from their start to the file.
use save_extension.Base.{
  false≢true, ◌≡◌, ◌≢◌, refl, Bool, true, false, not, ◌||◌, Option, none, some, String, [], ◌∷◌,
  length, arith, eq_iff,
}
use save_extension.Base.Int.{pos, pos_part}
use save_extension.Preset.{is_mt_serialization_save}
use save_extension.SlotData.{SlotData}
use save_extension.SlotInfo.{SlotInfo, make_info}
use save_extension.Disk.{does_file_exist, load_file}
use save_extension.Saver.{serialize_world}
use save_extension.Saver.Whole.{serialize_world_lem}
use save_extension.Saver.Run.{
  Frame, SaveState, SaveRun, update_times, prepare_data, complete_save_task, on_start, on_tick,
}
use save_extension.Saver.Run.Times.{Ordered, update_times-Ordered}
use save_extension.Saver.Run.Stored.{on_start-Stored}
use save_extension.Saver.Run.Waits.{on_tick-waits}
use save_extension.Examples.Classes.{classes}
use save_extension.Examples.Engines.{numbers, format, unmark}
use save_extension.Examples.Disks.{Disk, empty_disk, files, things}
use save_extension.Examples.Filters.{preset}
use save_extension.Examples.Slots.{slot}
use save_extension.Examples.Saves.{island, island-Distinct}

abbrev played : SlotInfo
played = record (make_info (pos 100)) {
  file_name = "one";
  played_time = pos 50;
  slot_played_time = pos 20;
  load_date = pos 60;
}

times_example : Ordered (update_times true (pos 90) (pos 75) played)
times_example =
    update_times-Ordered true (pos 90) (pos 75) played (omega arith) (omega arith)
      (omega arith, omega arith)

abbrev pub run : SaveRun numbers Disk
run = record {
  manager = files;
  format = format;
  objects = things;
  info_object = λ i. (1, pos_part i.played_time);
  data_object = λ d. (2, length d.sub_levels);
  preset = preset;
  request = record { slot_name = "one"; override_slot = false; save_thumbnail = true };
}

abbrev pub frame : Frame
frame = record { now = pos 90; has_viewport = false; workers = 3; order = 2 ∷ 0 ∷ 1 ∷ [] }

abbrev before : SaveState numbers Disk
before = record { info = played; slot_data = slot; disk = empty_disk; save_task = none }

abbrev island_saved :
    (d : SlotData numbers) × (serialize_world classes true 3
        (2 ∷ 0 ∷ 1 ∷ [])
        island
        (prepare_data preset island slot)
      ≡ some d)
island_saved =
    let saved =
      serialize_world_lem classes true 3 (2 ∷ 0 ∷ 1 ∷ []) island (prepare_data preset island slot)
        refl island-Distinct in
    (saved.0, saved.1)

one_filled : run.request.slot_name ≢ ""
one_filled e = absurd (false≢true ((eq_iff "one" "").1 e))

save_example :
    let saves = false || not (does_file_exist files "one" empty_disk) in
    let loads = load_file files format things in
    (saves ≡ false → on_start run classes frame island before ≡ some (before, some false))
    × (saves ≡ true
        → (started : SaveState numbers Disk × Option Bool) × (on_start run classes frame island
              before
            ≡ some started)
          × let t = complete_save_task run started.0 in
            (t.info.file_name ≡ "one")
            × (t.info.map ≡ "Island")
            × (loads "one" none none true t.disk
                ≡ some (
                  true,
                  some (1, pos_part t.info.played_time),
                  some (2, length island_saved.0.sub_levels),
                ))
            × ((other : String)
                → "one" ≢ other
                → loads other none none true t.disk ≡ loads other none none true empty_disk))
unfolding is_mt_serialization_save
save_example =
    on_start-Stored run classes frame island before island_saved.0 true island_saved.1 one_filled
      (λ p w. refl, λ p bytes w. refl) (λ i. refl) (λ d. refl)

one_missing : (false || not (does_file_exist files "one" empty_disk)) ≡ true
unfolding does_file_exist
one_missing = refl

wait_example :
    (started : SaveState numbers Disk × Option Bool) × (on_start run classes frame island before
      ≡ some started)
    × (started.1 ≡ none)
    × let t = complete_save_task run started.0 in
      (t.save_task ≡ some true) × (on_tick run unmark t ≡ (t, none))
unfolding is_mt_serialization_save make_info
wait_example =
    on_tick-waits run classes frame island before island_saved.0 unmark one_missing island_saved.1
      refl refl refl
