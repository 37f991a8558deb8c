-- ===== src/Preset/Slots.antt =====
-- Slot ids.
use save_extension.Base.{◌≡◌, ◌↔◌, arith, true}
use save_extension.Base.Int.{ℤ, pos, ◌≤ℤ◌, ◌<ℤ◌}
use save_extension.Preset.{Preset, is_valid_id}

-- An id is valid exactly if it is not negative and lies below the number of slots, which is MaxSlots
-- where that is positive and 16384 where it is not; so 0 is always valid.
pub is_valid_id_iff :
    (p : Preset) (id : ℤ)
    → ((is_valid_id p id ≡ true) ↔ (
        (pos 0 ≤ℤ id)
        × ((pos 0 <ℤ p.max_slots → id <ℤ p.max_slots) × (p.max_slots ≤ℤ pos 0 → id <ℤ pos 16384))))
      × (is_valid_id p (pos 0) ≡ true)
unfolding is_valid_id
is_valid_id_iff p id = ((λ h. ground arith, λ h. ground arith), ground arith)
