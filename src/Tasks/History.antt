-- ===== src/Tasks/History.antt =====
-- What holds of the task list after any calls of the manager.
use save_extension.Base.{
  ℕ, ◌≤◌, ◌≡◌, refl, ◌∙◌, Bool, true, false, not, ◌&&◌, Option, none, some, List, [], ◌∷◌, arith,
  ◌==◌, nat_eq, Bool-cases, Option-cases, inl, inr, ltb,
}
use save_extension.Base.Sets.{contains, eq_self, eq_true}
use save_extension.Tasks.{Behaviour, TaskList, set_flag, start, create_task, tick, fuel_of}
use save_extension.Tasks.Queue.{Distinct, serve, finished_by, started_by, Idle, Active, Idle-tail}

module _ {S : Type 0} (b : Behaviour S) where
  pub serve-Distinct : (ts : List ℕ) (s : S) → Distinct ts → Distinct (serve b ts s).left
  unfolding serve
  serve-Distinct [] s d = tt
  serve-Distinct (t ∷ ts) s d = elim (Option-cases (b.on_start t s).1) [
    | inl waits ↦ rw (waits, serve) d
    | inr (r, ends) ↦ rw (ends, serve) (serve-Distinct ts _ d.1)
  ]

  pub serve-Active :
      (ts : List ℕ) (s : S) (running : ℕ → Bool)
      → Distinct ts
      → Idle running ts
      → Active (started_by (serve b ts s).done (serve b ts s).left running) (serve b ts s).left
  unfolding serve
  serve-Active [] s running d i = tt
  serve-Active (t ∷ ts) s running d i = elim (Option-cases (b.on_start t s).1) [
    | inl waits ↦ rw (waits, serve) (ground (arith, eq_self t), Idle-tail running t ts d.0 i)
    | inr (r, ends) ↦
        rw (ends, serve)
          (serve-Active ts _ (set_flag running t true) d.1 (Idle-tail running t ts d.0 i))
  ]

  -- Who leaves the list has finished, who stays has not, and no other task changes.
  pub serve-account :
      (ts : List ℕ) (s : S) (finished : ℕ → Bool) (u : ℕ)
      → Distinct ts
      → (contains ts u ≡ true → finished u ≡ false)
      → let v = serve b ts s in
        (contains v.left u ≡ (contains ts u && not (finished_by v.done finished u)))
        × (contains ts u ≡ false → finished_by v.done finished u ≡ finished u)
  unfolding serve contains
  serve-account [] s finished u d h = (refl, λ _. refl)
  serve-account (t ∷ ts) s finished u d h = elim (Option-cases (b.on_start t s).1) [
    | inl waits ↦ rw (waits, serve) (ground arith, λ _. refl)
    | inr (r, ends) ↦
        let (in_left, off) =
          serve-account ts (b.on_finish t r (b.on_start t s).0) finished u d.1
            (λ k. h (ground arith)) in
        rw (ends, serve)
          (elim (Bool-cases (t == u)) [
            | inl same ↦
                let absent : contains ts u ≡ false = rw (← eq_true t u same) d.0 in
                (ground arith, λ k. cc (rw same at k))
            | inr other ↦ (ground arith, λ k. rw other (off (rw other at k)))
          ])
  ]

  pub serve-running :
      (ts : List ℕ) (s : S) (running : ℕ → Bool) (u : ℕ)
      → contains ts u ≡ false
      → started_by (serve b ts s).done (serve b ts s).left running u ≡ running u
  unfolding serve contains
  serve-running [] s running u h = refl
  serve-running (t ∷ ts) s running u h = elim (Option-cases (b.on_start t s).1) [
    | inl waits ↦ rw (waits, serve) (ground arith)
    | inr (r, ends) ↦
        rw (ends, serve)
          (serve-running ts _ (set_flag running t true) u (ground arith) ∙ ground arith)
  ]

-- Every call that the manager makes on its list: a new task, which `setup` prepares, and a tick.
pub data Call (S : Type 0) : Type 0 where
  submits : (ℕ → S → S) → Call S
  ticks : Call S

module _ {S : Type 0} (b : Behaviour S) where
  -- CreateTask, Setup and Start, as SaveSlot, LoadSlot and the level streaming write them
  unfoldable pub submit : (ℕ → S → S) → TaskList S → Option (TaskList S)
  unfolding create_task
  submit setup m =
      let (t, m1) = create_task b m in
      let m2 = record m1 { state = setup t m.state } in start b (fuel_of b m2) t m2

  unfoldable pub call : Call S → TaskList S → Option (TaskList S)
  call (submits setup) m = submit setup m
  call ticks m = tick b m

  unfoldable pub run : List (Call S) → TaskList S → Option (TaskList S)
  run [] m = some m
  run (c ∷ cs) m = elim (call c m) [ none ↦ none | some m' ↦ run cs m' ]

-- The list as it must be between two calls.
pub record Inv {S : Type 0} (m : TaskList S) : Type 0 where
  pub distinct : Distinct m.tasks
  pub active : Active m.running m.tasks
  pub account : (u : ℕ) → contains m.tasks u ≡ (ltb u m.next && not (m.finished u))
  pub unstarted : (u : ℕ) → m.next ≤ u → (m.running u ≡ false) × (m.finished u ≡ false)
