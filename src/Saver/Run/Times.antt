-- ===== src/Saver/Run/Times.antt =====
-- The played times of a slot over several saves.
use save_extension.Base.{true, false, Bool, Bool-cases, inl, inr, arith}
use save_extension.Base.Int.{ℤ, pos, ltb_ℤ, ◌-ℤ◌, ◌≤ℤ◌, +ℤ_parts, -ℤ_parts}
use save_extension.SlotInfo.{SlotInfo}
use save_extension.Saver.Run.{update_times}

-- What stays true of the times of an info.
abbrev pub Ordered : SlotInfo → Type 0
Ordered i = (i.slot_played_time ≤ℤ i.played_time) × (pos 0 ≤ℤ i.played_time)

-- A save keeps the time played on a slot within the time played at all, and that one from being
-- negative, if the clock has not gone back behind the time of the last load and the world's seconds
-- are not negative.
pub update_times-Ordered :
    (slot_was_different : Bool) (now world_time : ℤ) (i : SlotInfo)
    → i.load_date ≤ℤ now
    → pos 0 ≤ℤ world_time
    → Ordered i
    → Ordered (update_times slot_was_different now world_time i)
unfolding update_times
update_times-Ordered true now world_time i later started (within, counted) =
    elim (Bool-cases (ltb_ℤ (pos 0) i.load_date)) [
      | inr never_loaded ↦ rw never_loaded (omega arith, started)
      | inl loaded ↦
          let session : pos 0 ≤ℤ (now -ℤ i.load_date) = omega (arith, -ℤ_parts now i.load_date) in
          rw loaded (
            omega (arith, session, +ℤ_parts i.played_time (now -ℤ i.load_date)),
            omega (arith, session, +ℤ_parts i.played_time (now -ℤ i.load_date)),
          )
    ]
update_times-Ordered false now world_time i later started (within, counted) =
    elim (Bool-cases (ltb_ℤ (pos 0) i.load_date)) [
      | inr never_loaded ↦ rw never_loaded (omega arith, started)
      | inl loaded ↦
          let session : pos 0 ≤ℤ (now -ℤ i.load_date) = omega (arith, -ℤ_parts now i.load_date) in
          rw loaded (
            omega (
              arith,
              session,
              +ℤ_parts i.played_time (now -ℤ i.load_date),
              +ℤ_parts i.slot_played_time (now -ℤ i.load_date),
            ),
            omega (arith, session, +ℤ_parts i.played_time (now -ℤ i.load_date)),
          )
    ]
