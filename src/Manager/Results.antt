-- ===== src/Manager/Results.antt =====
-- What saving and loading return.
use save_extension.Disk.{does_file_exist}
use save_extension.Base.{
  Option-cases, none, true, arith, ℕ, ◌≡◌, refl, ap, Bool, false, not, ◌&&◌, Option, some, List,
  nat_eq, if◌then◌else◌, Bool-cases, inl, inr,
}
use save_extension.Name.{Name, is_none}
use save_extension.Engine.{Engine}
use save_extension.Tasks.History.{Inv}
use save_extension.Tasks.Submitted.{outcome, Submitted, submit-Submitted}
use save_extension.Manager.{
  TaskKind, Managed, Services, Manager, saver, loader, can_load_or_save, try_instantiate_info,
  prepare, launch,
}
use save_extension.Manager.Slots.{save_slot, load_slot, is_slot_saved}

module _ {E : Engine} {W G : Type 0} (v : Services E W G) where
  -- A call that returns, with this result, list of tasks and state, and leaves the list in order
  unfoldable pub Returns : Bool × (List ℕ × Managed E G) → Option (Bool × Manager v) → Type 0
  Returns (r, (ts, s)) call =
      (n : Manager v) × (call ≡ some (r, n)) × Inv n × (n.tasks ≡ ts) × (n.state ≡ s)

  launch-Returns :
      (kind : TaskKind) (m : Manager v)
      → Inv m
      → Returns (outcome v.behaviour (prepare v kind) m) (launch v kind m)
  unfolding Returns Submitted launch
  launch-Returns kind m inv =
      let (n, does, inv', result, tasks, state) =
        submit-Submitted v.behaviour (prepare v kind) m inv in
      (n, rw does (ap (λ (r : Bool). some (r, n)) result), inv', tasks, state)

  refused : (m : Manager v) → Inv m → Returns (false, (m.tasks, m.state)) (some (false, m))
  unfolding Returns
  refused m inv = (m, refl, inv, refl, refl)

  instantiated-Inv : (s : Managed E G) (m : Manager v) → Inv m → Inv (record m { state = s })
  instantiated-Inv s m inv = record {
    distinct = inv.distinct;
    active = inv.active;
    account = inv.account;
    unstarted = inv.unstarted;
  }

  -- The game has a world, and its game mode, if there is one, has authority.
  unfoldable pub is_permitted : Managed E G → Bool
  is_permitted s =
      v.has_world s.game && elim (v.game_mode s.game) [ none ↦ true | some authority ↦ authority ]

  can_load_or_save_lem : (s : Managed E G) → can_load_or_save v s ≡ is_permitted s
  unfolding can_load_or_save is_permitted
  can_load_or_save_lem s = elim (Option-cases (v.game_mode s.game)) [
    | inl no_mode ↦ rw no_mode (ground arith)
    | inr (true, authority) ↦ rw authority (ground arith)
    | inr (false, client) ↦ rw client (ground arith)
  ]

  -- what SaveSlot and LoadSlot promise
  unfoldable pub expected_save : Name → Bool → Bool → Manager v → Bool × (List ℕ × Managed E G)
  expected_save name over shot m =
      if is_permitted m.state && not (is_none name)
      then outcome v.behaviour
          (prepare v
            (saver (record { slot_name = name; override_slot = over; save_thumbnail = shot })))
          m
      else (false, (m.tasks, m.state))

  unfoldable pub expected_load : Name → Manager v → Bool × (List ℕ × Managed E G)
  expected_load name m =
      if is_permitted m.state && does_file_exist v.files name (v.disk m.state.game)
      then outcome v.behaviour (prepare v (loader name))
          (record m { state = try_instantiate_info v false m.state })
      else (false, (m.tasks, m.state))

  save_slot-Returns :
      (name : Name) (over shot : Bool) (m : Manager v)
      → Inv m
      → Returns (expected_save name over shot m) (save_slot v name over shot m)
  unfolding expected_save save_slot
  save_slot-Returns name over shot m inv = elim (Bool-cases (is_permitted m.state)) [
    | inr cannot ↦ rw (can_load_or_save_lem m.state, cannot) (refused m inv)
    | inl can ↦ elim (Bool-cases (is_none name)) [
      | inl unnamed ↦ rw (can_load_or_save_lem m.state, can, unnamed) (refused m inv)
      | inr named ↦ rw (can_load_or_save_lem m.state, can, named) (launch-Returns _ m inv)
    ]
  ]

  load_slot-Returns :
      (name : Name) (m : Manager v) → Inv m → Returns (expected_load name m) (load_slot v name m)
  unfolding expected_load load_slot is_slot_saved
  load_slot-Returns name m inv = elim (Bool-cases (is_permitted m.state)) [
    | inr cannot ↦ rw (can_load_or_save_lem m.state, cannot) (refused m inv)
    | inl can ↦ elim (Bool-cases (does_file_exist v.files name (v.disk m.state.game))) [
      | inr unsaved ↦ rw (can_load_or_save_lem m.state, can, unsaved) (refused m inv)
      | inl saved ↦
          rw (can_load_or_save_lem m.state, can, saved)
            (launch-Returns (loader name)
              (record m { state = try_instantiate_info v false m.state })
              (instantiated-Inv (try_instantiate_info v false m.state) m inv))
    ]
  ]

  pub slots-Returns :
      (name : Name) (over shot : Bool) (m : Manager v)
      → Inv m
      → Returns (expected_save name over shot m) (save_slot v name over shot m)
        × Returns (expected_load name m) (load_slot v name m)
  slots-Returns name over shot m inv =
      (save_slot-Returns name over shot m inv, load_slot-Returns name m inv)
