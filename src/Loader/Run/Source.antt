-- ===== src/Loader/Run/Source.antt =====
-- What a load reads of the file of its slot.
use save_extension.Base.{
  ◌≡◌, refl, Bool, true, false, Option, none, some, arith, Bool-cases, Option-cases, inl, inr,
  some_eq,
}
use mathlib.Core.Option.{map as map_option}
use save_extension.Name.{is_none}
use save_extension.Engine.{Engine}
use save_extension.Files.{new_file, read}
use save_extension.SlotData.{SlotData}
use save_extension.SlotInfo.{SlotInfo}
use save_extension.Disk.{
  get_slot_path, load_file, create_and_deserialize_info, create_and_deserialize_data,
}
use save_extension.Infos.{load_info, do_load_infos, load_slot_files}
use save_extension.Loader.State.{LoadRun, LoadTask, LoaderState, no_task, running, loaded}
use save_extension.Loader.Run.{do_load_task, load_bytes, loaded_from, start_load_task, complete_in}

module _ {E : Engine} {W : Type 0} (r : LoadRun E W) where
  -- The file of the slot on a disk holds this info, and these data.
  abbrev pub InfoIn : W → SlotInfo → Type 0
  InfoIn w info =
      (o d : Option r.objects.Obj) × (load_file r.manager r.format r.objects r.slot_name none none
          false w
        ≡ some (true, o, d))
      × (map_option r.info_of o ≡ some info)

  abbrev pub DataIn : W → SlotData E → Type 0
  DataIn w stored =
      (o d : Option r.objects.Obj) × (load_file r.manager r.format r.objects r.slot_name none none
          true w
        ≡ some (true, o, d))
      × (map_option r.data_of d ≡ some stored)

  -- What a task has loaded is in the file.
  abbrev pub TaskOf : W → LoadTask E → Type 0
  TaskOf w no_task = Unit
  TaskOf w running = Unit
  TaskOf w (loaded none) = Unit
  TaskOf w (loaded (some stored)) = DataIn w stored

  pub load_info-InfoIn :
      (info : SlotInfo) (w : W)
      → load_info r.manager r.format r.objects r.info_of r.sort r.slot_name w ≡ some (some info)
      → InfoIn w info
  unfolding load_info do_load_infos load_slot_files load_file
  load_info-InfoIn info w h = elim (Bool-cases (is_none r.slot_name)) [
    | inl unnamed ↦
        let e : some none ≡ some (some info) = rw unnamed at h in absurd (ground (arith, some_eq e))
    | inr named ↦
        elim (Option-cases (r.manager.contents (get_slot_path r.manager.saved_dir r.slot_name) w)) [
          | inl missing ↦
              let e : some none ≡ some (some info) = rw (named, missing) at h in
              absurd (ground (arith, some_eq e))
          | inr (bytes, there) ↦
              elim (Option-cases (read r.format (new_file r.format) bytes true)) [
                | inl unread ↦
                    let e : none ≡ some (some info) = rw (named, there, unread) at h in
                    absurd (ground arith)
                | inr (file, was_read) ↦ (
                  create_and_deserialize_info r.objects file,
                  create_and_deserialize_data r.objects file,
                  rw (there, load_file) (rw was_read refl),
                  some_eq (rw (named, there, was_read) at h),
                )
              ]
        ]
  ]

  -- Loading the data changes nothing but the task, which then has the data of the file.
  abbrev pub Reads : LoaderState E W → Option (LoaderState E W) → Type 0
  Reads s none = Unit
  Reads s (some t) =
      (t.load_state ≡ s.load_state)
      × (t.new_info ≡ s.new_info)
      × (t.current_info ≡ s.current_info)
      × (t.current_data ≡ s.current_data)
      × (t.world ≡ s.world)
      × (t.disk ≡ s.disk)
      × (t.slot_data ≡ s.slot_data)
      × (TaskOf s.disk s.load_task → TaskOf s.disk t.load_task)

  loaded-TaskOf :
      (w : W) (o d : Option r.objects.Obj) (stored : Option (SlotData E))
      → load_file r.manager r.format r.objects r.slot_name none none true w ≡ some (true, o, d)
      → map_option r.data_of d ≡ stored
      → TaskOf w (loaded stored)
  loaded-TaskOf w o d none loads same = tt
  loaded-TaskOf w o d (some stored) loads same = (o, d, loads, same)

  pub do_load_task-Reads : (s : LoaderState E W) → Reads s (do_load_task r s)
  unfolding do_load_task load_bytes loaded_from load_file
  do_load_task-Reads s =
      elim (Option-cases
        (r.manager.contents (get_slot_path r.manager.saved_dir r.slot_name) s.disk)) [
          | inl missing ↦ rw (missing, Reads) (refl, refl, refl, refl, refl, refl, refl, λ own. tt)
          | inr (bytes, there) ↦
              elim (Option-cases (read r.format (new_file r.format) bytes false)) [
                | inl unread ↦ rw (there, Reads) (rw (unread, Reads) tt)
                | inr (file, was_read) ↦
                    let task =
                      loaded-TaskOf s.disk (create_and_deserialize_info r.objects file)
                        (create_and_deserialize_data r.objects file) _
                        (rw (there, load_file) (rw was_read refl)) refl in
                    rw (there, Reads)
                      (rw (was_read, Reads) (refl, refl, refl, refl, refl, refl, refl, λ own. task))
              ]
        ]

  pub start_load_task-Reads :
      (background : Bool) (s : LoaderState E W) → Reads s (start_load_task r background s)
  unfolding start_load_task
  start_load_task-Reads true s = (refl, refl, refl, refl, refl, refl, refl, λ own. tt)
  start_load_task-Reads false s = do_load_task-Reads s

  pub complete_in-Reads : (t : LoadTask E) (s : LoaderState E W) → Reads s (complete_in r t s)
  unfolding complete_in
  complete_in-Reads no_task s = (refl, refl, refl, refl, refl, refl, refl, λ own. own)
  complete_in-Reads running s = do_load_task-Reads s
  complete_in-Reads (loaded d) s = (refl, refl, refl, refl, refl, refl, refl, λ own. own)
