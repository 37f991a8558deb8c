-- ===== src/Saver/Run.antt =====
-- USlotDataTask_Saver (Source/SaveExtension/Public/Serialization/SlotDataTask_Saver.h,
-- Private/Serialization/SlotDataTask_Saver.cpp): OnStart, Tick, OnFinish and SaveFile, and
-- FSaveFileTask (Public/Multithreading/SaveFileTask.h).
pub mod Times
pub mod Prepared
pub mod Stored
pub mod Waits
use save_extension.Base.{
  ℕ, Bool, true, false, not, Option, none, some, List, ◌==◌, string_eq, if◌then◌else◌,
}
use save_extension.Base.Int.{ℤ, pos, ltb_ℤ, ◌+ℤ◌, ◌-ℤ◌}
use save_extension.Name.{Name}
use save_extension.Archive.{Bytes, ◌>>=◌}
use save_extension.ClassFilter.{Reflection}
use save_extension.Preset.{Preset, is_mt_files_save, is_mt_serialization_save}
use save_extension.LevelFilter.{to_filter}
use save_extension.Engine.{Engine}
use save_extension.World.{World}
use save_extension.Files.{FileFormat}
use save_extension.Disk.{FileManager, Objects, does_file_exist, delete_file, save_file}
use save_extension.SlotData.{SlotData, clean_records}
use save_extension.SlotInfo.{SlotInfo, get_thumbnail, capture_thumbnail}
use save_extension.Saver.{serialize_world}

-- Setup, without the size of the thumbnail
pub record SaveRequest : Type 0 where
  pub slot_name : Name
  pub override_slot : Bool
  pub save_thumbnail : Bool

-- Where a save begins: the clock, the viewport, the threads and the order in which they work.
pub record Frame : Type 0 where
  pub now : ℤ
  pub has_viewport : Bool
  pub workers : ℕ
  pub order : List ℕ

-- The time stats of OnStart
unfoldable pub update_times : Bool → ℤ → ℤ → SlotInfo → SlotInfo
update_times slot_was_different now world_time i =
    if ltb_ℤ (pos 0) i.load_date
    then (let session_time = now -ℤ i.load_date in
        record i {
          save_date = now;
          played_time = i.played_time +ℤ session_time;
          slot_played_time =
              if slot_was_different then session_time else (i.slot_played_time +ℤ session_time);
        })
    else record i { save_date = now; played_time = world_time; slot_played_time = world_time }

module _ {W : Type 0} (fm : FileManager W) where
  -- OnStart on overriding: whether to save, and the disk
  unfoldable pub prepare_slot : SaveRequest → W → Bool × W
  prepare_slot q w =
      let file_exists = does_file_exist fm q.slot_name w in
      if q.override_slot
      then (true, if file_exists then (delete_file fm q.slot_name w).1 else w)
      else (not file_exists, w)

  -- OnStart on the slot's info, and the disk
  unfoldable pub prepare_info : SaveRequest → Frame → Name → ℤ → SlotInfo → W → SlotInfo × W
  prepare_info q f map_name world_time i w =
      let named = record i { file_name = q.slot_name } in
      let (captured, shown, w') =
        (if q.save_thumbnail
          then capture_thumbnail fm f.has_viewport w named
          else (false, named, w)) in
      (
        record (update_times (not (i.file_name == q.slot_name)) f.now world_time shown) {
          map = map_name;
        },
        w',
      )

module _ {E : Engine} where
  -- OnStart on the slot's data, whose map is assigned to itself
  unfoldable pub prepare_data : Preset → World E → SlotData E → SlotData E
  prepare_data p w d = record (clean_records true d) {
    time_seconds = w.time_seconds;
    store_game_instance = p.store_game_instance;
    general_level_filter = to_filter p;
  }

-- The manager's current info and data, which TryInstantiateInfo has made if there were none, the disk,
-- and SaveTask: whether it is done, if there is one.
pub record SaveState (E : Engine) (W : Type 0) : Type 0 where
  pub info : SlotInfo
  pub slot_data : SlotData E
  pub disk : W
  pub save_task : Option Bool

-- A save that runs: what it calls, and the objects that an info and a data are.
pub record SaveRun (E : Engine) (W : Type 0) : Type 1 where
  pub manager : FileManager W
  pub format : FileFormat
  pub objects : Objects
  pub info_object : SlotInfo → objects.Obj
  pub data_object : SlotData E → objects.Obj
  pub preset : Preset
  pub request : SaveRequest

module _ {E : Engine} {W : Type 0} (r : SaveRun E W) where
  -- FSaveFileTask::DoWork
  unfoldable pub do_save_task : SaveState E W → SaveState E W
  do_save_task s = record s {
    disk =
        (save_file r.manager r.format r.objects r.request.slot_name (some (r.info_object s.info))
          (some (r.data_object s.slot_data)) r.preset.use_compression s.disk).1;
    save_task = some true;
  }

  -- The thread that takes a task in the background
  unfoldable pub complete_save_task : SaveState E W → SaveState E W
  unfolding do_save_task
  complete_save_task s = elim s.save_task [
    | none ↦ s
    | some done ↦ if done then s else do_save_task s
  ]

  -- SaveFile, with what it passes to Finish
  unfoldable pub save_slot_file : SaveState E W → SaveState E W × Option Bool
  unfolding do_save_task
  save_slot_file s =
      let queued = record s { save_task = some false } in
      if is_mt_files_save r.preset
      then (queued, none)
      else (do_save_task queued, if r.request.save_thumbnail then none else some true)

  -- OnStart, with what it passes to Finish; `none` is a failed check of SerializeWorld.
  unfoldable pub on_start :
      Reflection → Frame → World E → SaveState E W → Option (SaveState E W × Option Bool)
  unfolding save_slot_file
  on_start rf f w s =
      let (saves, disk1) = prepare_slot r.manager r.request s.disk in
      let (info1, disk2) =
        prepare_info r.manager r.request f w.map_name (E.from_seconds w.time_seconds) s.info
          disk1 in
      if not saves then some (record s { disk = disk1 }, some false) else do
        d ←
            serialize_world rf (is_mt_serialization_save r.preset) f.workers f.order w
              (prepare_data r.preset w s.slot_data)
        some (save_slot_file (record s { info = info1; slot_data = d; disk = disk2 }))

  -- Tick, with what it passes to Finish
  unfoldable pub on_tick : (Bytes → Option Bytes) → SaveState E W → SaveState E W × Option Bool
  on_tick decode s = elim s.save_task [
    | none ↦ (s, none)
    | some done ↦
        if done
        then if r.request.save_thumbnail
          then (let (thumbnail, info') = get_thumbnail r.manager decode s.disk s.info in
              (record s { info = info' }, elim thumbnail [ none ↦ none | some _ ↦ some true ]))
          else (s, some true)
        else (s, none)
  ]

  -- OnFinish
  unfoldable pub on_finish : Bool → SaveState E W → SaveState E W
  on_finish success s =
      if success then record s { slot_data = clean_records true s.slot_data } else s
