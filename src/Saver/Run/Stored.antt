-- ===== src/Saver/Run/Stored.antt =====
-- What a save leaves on the disk.
use save_extension.Base.{
  ◌≡◌, ◌≢◌, refl, ◌∙◌, Bool, true, false, not, ◌||◌, Option, none, some, String, arith, string_eq,
  if◌then◌else◌, Bool-cases, inl, inr,
}
use save_extension.ClassFilter.{Reflection}
use save_extension.Preset.{is_mt_files_save, is_mt_serialization_save}
use save_extension.Engine.{Engine}
use save_extension.World.{World}
use save_extension.Disk.{does_file_exist, load_file, get_slot_path}
use save_extension.Disk.RoundTrip.{load_file-save_file}
use save_extension.SlotData.{SlotData}
use save_extension.SlotInfo.{SlotInfo}
use save_extension.Saver.{serialize_world}
use save_extension.Saver.Run.{
  Frame, SaveState, SaveRun, prepare_slot, prepare_info, prepare_data, do_save_task,
  complete_save_task, save_slot_file, on_start,
}
use save_extension.Saver.Run.Prepared.{
  Writable, save_file-succeeds, load_file-contents, prepare_slot-keeps, prepare_info-keeps,
  prepare_info-named,
}

module _ {E : Engine} {W : Type 0} (r : SaveRun E W) where
  -- In the background or at once, the file is written once.
  pub complete_save_task-save_slot_file :
      (s : SaveState E W)
      → complete_save_task r (save_slot_file r s).0
        ≡ do_save_task r (record s { save_task = some false })
  unfolding save_slot_file complete_save_task do_save_task
  complete_save_task-save_slot_file s = elim (Bool-cases (is_mt_files_save r.preset)) [
    | inl background ↦ simp background
    | inr at_once ↦ simp at_once
  ]

  -- the condition to save
  abbrev pub saves : SaveState E W → Bool
  saves s = r.request.override_slot || not (does_file_exist r.manager r.request.slot_name s.disk)

  slot-saves : (s : SaveState E W) → (prepare_slot r.manager r.request s.disk).0 ≡ saves s
  unfolding prepare_slot
  slot-saves s = elim (Bool-cases r.request.override_slot) [
    | inl overrides ↦ simp overrides
    | inr refuses ↦ simp refuses
  ]

  slot-refused :
      (s : SaveState E W) → saves s ≡ false → (prepare_slot r.manager r.request s.disk).1 ≡ s.disk
  unfolding prepare_slot
  slot-refused s kept = elim (Bool-cases r.request.override_slot) [
    | inl overrides ↦ ground arith
    | inr refuses ↦ simp refuses
  ]

  -- what OnStart has of the info and of the disk before it serializes the world
  abbrev pub prepared : Frame → World E → SaveState E W → SlotInfo × W
  prepared f w s =
      prepare_info r.manager r.request f w.map_name (E.from_seconds w.time_seconds) s.info
        (prepare_slot r.manager r.request s.disk).1

  abbrev pub serialized : Frame → World E → SaveState E W → SlotData E → SaveState E W
  serialized f w s d = record s {
    info = (prepared f w s).0;
    slot_data = d;
    disk = (prepared f w s).1;
  }

  pub on_start-saves :
      (rf : Reflection) (f : Frame) (w : World E) (s : SaveState E W) (d : SlotData E)
      → saves s ≡ true
      → serialize_world rf
          (is_mt_serialization_save r.preset)
          f.workers
          f.order
          w
          (prepare_data r.preset w s.slot_data)
        ≡ some d
      → on_start r rf f w s ≡ some (save_slot_file r (serialized f w s d))
  unfolding on_start
  on_start-saves rf f w s d may world = rw (slot-saves s ∙ may) (rw world refl)

  on_start-refuses :
      (rf : Reflection) (f : Frame) (w : World E) (s : SaveState E W)
      → saves s ≡ false
      → on_start r rf f w s ≡ some (s, some false)
  unfolding on_start
  on_start-refuses rf f w s may_not = rw (slot-saves s ∙ may_not) (rw (slot-refused s may_not) refl)

  -- The disk before the file is written has the same slots, except the one that is saved.
  prepared-keeps :
      (f : Frame) (w : World E) (s : SaveState E W) (other : String)
      → r.request.slot_name ≢ other
      → r.manager.contents (get_slot_path r.manager.saved_dir other) (prepared f w s).1
        ≡ r.manager.contents (get_slot_path r.manager.saved_dir other) s.disk
  prepared-keeps f w s other ne =
      prepare_info-keeps r.manager r.request f w.map_name _ s.info other _
      ∙ prepare_slot-keeps r.manager r.request other s.disk ne

  abbrev loads : String → Bool → W → Option (Bool × Option r.objects.Obj × Option r.objects.Obj)
  loads name load_data = load_file r.manager r.format r.objects name none none load_data

  done-Stored :
      (t : SaveState E W) (load_data : Bool)
      → r.request.slot_name ≢ ""
      → Writable r.manager
      → ((i : SlotInfo) → r.objects.is_info (r.info_object i) ≡ true)
      → ((d : SlotData E) → r.objects.is_data (r.data_object d) ≡ true)
      → (loads r.request.slot_name load_data (do_save_task r t).disk
          ≡ some (
            true,
            some (r.objects.stored (r.info_object t.info)),
            if not load_data then none else some (r.objects.stored (r.data_object t.slot_data)),
          ))
        × ((other : String)
            → r.request.slot_name ≢ other
            → loads other load_data (do_save_task r t).disk ≡ loads other load_data t.disk)
  unfolding do_save_task
  done-Stored t load_data filled writable infos datas =
      load_file-save_file r.manager r.format r.objects r.request.slot_name (r.info_object t.info)
        (r.data_object t.slot_data) r.preset.use_compression load_data t.disk _ none none
        (infos t.info) (datas t.slot_data)
        (save_file-succeeds r.manager r.format r.objects r.request.slot_name (r.info_object t.info)
          (r.data_object t.slot_data) r.preset.use_compression t.disk writable filled)

  -- A save that may not override a slot that exists fails and leaves the info, the data and the disk
  -- as they were. Every other save whose world can be serialized starts and, once its file task has
  -- run, at once or in the background, loading the slot gives its info, with the slot's name and the
  -- world's map, and the records of the world, without their transient properties; the other slots load
  -- as before. The slot has a name and files can be written.
  pub on_start-Stored :
      (rf : Reflection) (f : Frame) (w : World E) (s : SaveState E W) (d : SlotData E)
      (load_data : Bool)
      → serialize_world rf
          (is_mt_serialization_save r.preset)
          f.workers
          f.order
          w
          (prepare_data r.preset w s.slot_data)
        ≡ some d
      → r.request.slot_name ≢ ""
      → Writable r.manager
      → ((i : SlotInfo) → r.objects.is_info (r.info_object i) ≡ true)
      → ((d' : SlotData E) → r.objects.is_data (r.data_object d') ≡ true)
      → let saves =
          r.request.override_slot || not (does_file_exist r.manager r.request.slot_name s.disk) in
        let loads = load_file r.manager r.format r.objects in
        (saves ≡ false → on_start r rf f w s ≡ some (s, some false))
        × (saves ≡ true
            → (started : SaveState E W × Option Bool) × (on_start r rf f w s ≡ some started)
              × let t = complete_save_task r started.0 in
                (t.info.file_name ≡ r.request.slot_name)
                × (t.info.map ≡ w.map_name)
                × (loads r.request.slot_name none none load_data t.disk
                    ≡ some (
                      true,
                      some (r.objects.stored (r.info_object t.info)),
                      if not load_data then none else some (r.objects.stored (r.data_object d)),
                    ))
                × ((other : String)
                    → r.request.slot_name ≢ other
                    → loads other none none load_data t.disk
                      ≡ loads other none none load_data s.disk))
  unfolding do_save_task
  on_start-Stored rf f w s d load_data world filled writable infos datas =
      let t = serialized f w s d in
      let queued = record t { save_task = some false } in
      let same = complete_save_task-save_slot_file t in
      let stored = done-Stored queued load_data filled writable infos datas in
      let named =
        prepare_info-named r.manager r.request f w.map_name (E.from_seconds w.time_seconds) s.info
          (prepare_slot r.manager r.request s.disk).1 in
      (
        on_start-refuses rf f w s,
        λ may. (
          save_slot_file r t,
          on_start-saves rf f w s d may world,
          rw same (
            named.0,
            named.1,
            stored.0,
            λ other ne.
                stored.1 other ne
                ∙ load_file-contents r.manager r.format r.objects other none none load_data s.disk
                    t.disk (prepared-keeps f w s other ne),
          ),
        ),
      )
