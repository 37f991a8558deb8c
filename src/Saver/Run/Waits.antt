-- ===== src/Saver/Run/Waits.antt =====
-- A save that waits for its thumbnail.
use save_extension.Base.{
  ◌≡◌, refl, ◌∙◌, Bool, true, false, not, ◌||◌, Option, none, some, ◌==◌, string_eq, Bool-cases,
  inl, inr, eq_iff,
}
use save_extension.Base.Int.{ℤ, pos, ltb_ℤ}
use save_extension.Name.{Name}
use save_extension.Archive.{Bytes}
use save_extension.ClassFilter.{Reflection}
use save_extension.Preset.{is_mt_files_save, is_mt_serialization_save}
use save_extension.Engine.{Engine}
use save_extension.World.{World}
use save_extension.Disk.{FileManager, does_file_exist}
use save_extension.SlotData.{SlotData}
use save_extension.SlotInfo.{SlotInfo, capture_thumbnail, get_thumbnail}
use save_extension.Saver.{serialize_world}
use save_extension.Saver.Run.{
  SaveRequest, Frame, SaveState, SaveRun, update_times, prepare_info, prepare_data, do_save_task,
  complete_save_task, save_slot_file, on_start, on_tick,
}
use save_extension.Saver.Run.Stored.{on_start-saves, serialized, complete_save_task-save_slot_file}

times-path :
    (different : Bool) (now time : ℤ) (i : SlotInfo)
    → (update_times different now time i).thumbnail_path ≡ i.thumbnail_path
unfolding update_times
times-path different now time i = elim (Bool-cases (ltb_ℤ (pos 0) i.load_date)) [
  | inl loaded ↦ simp loaded
  | inr never ↦ simp never
]

module _ {W : Type 0} (fm : FileManager W) where
  -- Without a viewport no thumbnail is named.
  info-path :
      (q : SaveRequest) (f : Frame) (map_name : Name) (time : ℤ) (i : SlotInfo) (w : W)
      → f.has_viewport ≡ false
      → (prepare_info fm q f map_name time i w).0.thumbnail_path ≡ i.thumbnail_path
  unfolding prepare_info capture_thumbnail
  info-path q f map_name time i w blind = elim (Bool-cases q.save_thumbnail) [
    | inl thumbnail ↦ times-path _ f.now time _ ∙ simp (thumbnail, blind)
    | inr no_thumbnail ↦ times-path _ f.now time _ ∙ simp no_thumbnail
  ]

  no_thumbnail :
      (decode : Bytes → Option Bytes) (w : W) (i : SlotInfo)
      → i.thumbnail_path ≡ ""
      → get_thumbnail fm decode w i ≡ (none, i)
  unfolding get_thumbnail
  no_thumbnail decode w i e =
      let empty : (i.thumbnail_path == "") ≡ true = (eq_iff i.thumbnail_path "").1 e in simp empty

module _ {E : Engine} {W : Type 0} (r : SaveRun E W) where
  waits :
      (decode : Bytes → Option Bytes) (t : SaveState E W)
      → r.request.save_thumbnail ≡ true
      → t.info.thumbnail_path ≡ ""
      → on_tick r decode (do_save_task r t) ≡ (do_save_task r t, none)
  unfolding on_tick do_save_task
  waits decode t thumbnail e = rw thumbnail (rw (no_thumbnail r.manager decode _ t.info e) refl)

  not_yet : (t : SaveState E W) → r.request.save_thumbnail ≡ true → (save_slot_file r t).1 ≡ none
  unfolding save_slot_file
  not_yet t thumbnail = elim (Bool-cases (is_mt_files_save r.preset)) [
    | inl background ↦ simp background
    | inr at_once ↦ simp (at_once, thumbnail)
  ]

  -- A save with a thumbnail that starts where there is no viewport, on an info without a thumbnail,
  -- never finishes: it does not finish when it starts, and every tick after its file was written
  -- leaves everything as it was and does not finish it either.
  pub on_tick-waits :
      (rf : Reflection) (f : Frame) (w : World E) (s : SaveState E W) (d : SlotData E)
      (decode : Bytes → Option Bytes)
      → (r.request.override_slot || not (does_file_exist r.manager r.request.slot_name s.disk))
        ≡ true
      → serialize_world rf
          (is_mt_serialization_save r.preset)
          f.workers
          f.order
          w
          (prepare_data r.preset w s.slot_data)
        ≡ some d
      → r.request.save_thumbnail ≡ true
      → f.has_viewport ≡ false
      → s.info.thumbnail_path ≡ ""
      → (started : SaveState E W × Option Bool) × (on_start r rf f w s ≡ some started)
        × (started.1 ≡ none)
        × let t = complete_save_task r started.0 in
          (t.save_task ≡ some true) × (on_tick r decode t ≡ (t, none))
  unfolding save_slot_file do_save_task
  on_tick-waits rf f w s d decode may world thumbnail blind e =
      let t = serialized r f w s d in
      let path = info-path r.manager r.request f w.map_name _ s.info _ blind ∙ e in
      (
        save_slot_file r t,
        on_start-saves r rf f w s d may world,
        not_yet t thumbnail,
        rw (complete_save_task-save_slot_file r t)
            (refl, waits decode (record t { save_task = some false }) thumbnail path),
      )
