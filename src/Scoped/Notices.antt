-- ===== src/Scoped/Notices.antt =====
-- Which tasks are notified.
use save_extension.Base.{
  ℕ, zero, suc, ◌+◌, ◌≤◌, ◌≡◌, refl, ap, ◌∙◌, Bool, true, false, List, [], ◌∷◌, ◌++◌, length, ◌==◌,
  nat_eq, if◌then◌else◌, arith, Bool-cases, inl, inr,
}
use save_extension.Archive.{Each}
use save_extension.Loader.Prepare.{remove_at_swap}
use save_extension.Scoped.Swap.{total, total-remove_at_swap, Each-remove_at_swap, length-total}
use save_extension.Scoped.{
  AsyncTasks, Holder, try_notify_finish, tick_holder, cancel_holder, tick_tasks, cancel_each,
}

module _ {S : Type 0} {a : AsyncTasks S} where
  -- how often a task is in a list
  abbrev pub occurs : ℕ → List (Holder a) → ℕ
  occurs j = total (λ h. if h.address == j then 1 else 0)

  -- the notices of the tasks in a list, one after the other
  unfoldable pub replay : List (Holder a) → S → S
  replay [] s = s
  replay (h ∷ hs) s = replay hs (a.broadcast h.on_finished h.task s)

  abbrev pub Unnotified : Holder a → Type 0
  Unnotified h = h.notified ≡ false

  abbrev pub Done : Holder a → Type 0
  Done h = a.is_done h.task ≡ true

  -- neither started nor done
  abbrev pub Idle : Holder a → Type 0
  Idle h = (a.is_idle h.task ≡ true) × (a.is_done h.task ≡ false)

  abbrev pub Pending : Holder a → Type 0
  Pending h = (h.notified ≡ false) × (a.is_done h.task ≡ false)

  pub replay-append :
      (ns ms : List (Holder a)) (s : S) → replay (ns ++ ms) s ≡ replay ms (replay ns s)
  unfolding replay
  replay-append [] ms s = refl
  replay-append (n ∷ ns) ms s = replay-append ns ms (a.broadcast n.on_finished n.task s)

  tick_ended :
      (h : Holder a) (s : S)
      → Unnotified h
      → Done h
      → tick_holder h s ≡ ((record h { notified = true }, a.broadcast h.on_finished h.task s), true)
  unfolding tick_holder try_notify_finish
  tick_ended h s new done = rw (done, new) refl

  tick_running :
      (h : Holder a) (s : S) → a.is_done h.task ≡ false → tick_holder h s ≡ ((h, s), false)
  unfolding tick_holder
  tick_running h s running = rw running refl

  -- RemoveAllSwap after the predicate of the first task
  abbrev after_first : ℕ → List (Holder a) → (Holder a × S) × Bool → List (Holder a) × S
  after_first fuel hs ((h, s), finished) = elim finished [
    | true ↦ tick_tasks fuel (remove_at_swap 0 (h ∷ hs)) s
    | false ↦ (h ∷ (tick_tasks fuel hs s).0, (tick_tasks fuel hs s).1)
  ]

  tick_first :
      (fuel : ℕ) (h : Holder a) (hs : List (Holder a)) (s : S)
      → tick_tasks (suc fuel) (h ∷ hs) s ≡ after_first fuel hs (tick_holder h s)
  unfolding tick_tasks
  tick_first fuel h hs s = refl

  step_ended :
      (fuel : ℕ) (h : Holder a) (hs : List (Holder a)) (s : S)
      → Unnotified h
      → Done h
      → tick_tasks (suc fuel) (h ∷ hs) s
        ≡ tick_tasks fuel
            (remove_at_swap 0 (record h { notified = true } ∷ hs))
            (a.broadcast h.on_finished h.task s)
  step_ended fuel h hs s new done =
      tick_first fuel h hs s ∙ ap (after_first fuel hs) (tick_ended h s new done)

  step_running :
      (fuel : ℕ) (h : Holder a) (hs : List (Holder a)) (s : S)
      → a.is_done h.task ≡ false
      → tick_tasks (suc fuel) (h ∷ hs) s ≡ (h ∷ (tick_tasks fuel hs s).0, (tick_tasks fuel hs s).1)
  step_running fuel h hs s running =
      tick_first fuel h hs s ∙ ap (after_first fuel hs) (tick_running h s running)

  occurs_step :
      (j : ℕ) (h : Holder a) (hs : List (Holder a))
      → occurs j (h ∷ hs) ≡ occurs j (h ∷ []) + occurs j hs
  unfolding total
  occurs_step j h hs = omega arith

  occurs_ended :
      (j : ℕ) (t : a.Task) (h : Holder a) (hs : List (Holder a))
      → occurs j (record h { task = t } ∷ hs) ≡ occurs j (h ∷ []) + occurs j hs
  unfolding total
  occurs_ended j t h hs = omega arith

  -- A tick notifies the tasks that are done, each once, and leaves the others.
  unfoldable pub Ticked : List (Holder a) → S → List (Holder a) × S → Type 0
  Ticked hs s (left, t) =
      (notices : List (Holder a)) × (t ≡ replay notices s)
      × Each Done notices
      × Each Pending left
      × ((j : ℕ) → occurs j notices + occurs j left ≡ occurs j hs)

  pub tick_tasks_lem :
      (fuel : ℕ) (hs : List (Holder a)) (s : S)
      → length hs ≤ fuel
      → Each Unnotified hs
      → Ticked hs s (tick_tasks fuel hs s)
  unfolding Ticked replay
  tick_tasks_lem zero [] s enough fresh =
      unfold tick_tasks in ([], refl, tt, tt, λ j. unfold total in omega arith)
  tick_tasks_lem zero (h ∷ hs) s enough fresh = absurd (omega arith)
  tick_tasks_lem (suc fuel) [] s enough fresh =
      unfold tick_tasks in ([], refl, tt, tt, λ j. unfold total in omega arith)
  tick_tasks_lem (suc fuel) (h ∷ hs) s enough (new, fresh) = elim (Bool-cases (a.is_done h.task)) [
    | inl done ↦
        let left : List (Holder a) = remove_at_swap 0 (record h { notified = true } ∷ hs) in
        let weight = λ (j : ℕ).
          total-remove_at_swap (λ (k : Holder a). if k.address == j then 1 else 0)
            (record h { notified = true }) hs in
        let fits : length left ≤ fuel = omega (
          arith,
          length-total left,
          length-total hs,
          total-remove_at_swap (λ (k : Holder a). 1) (record h { notified = true }) hs,
        ) in
        let (notices, told, all_done, pending, counts) =
          tick_tasks_lem fuel left (a.broadcast h.on_finished h.task s) fits
            (Each-remove_at_swap Unnotified (record h { notified = true }) hs fresh) in
        rw (step_ended fuel h hs s new done) (
          h ∷ notices,
          told,
          (done, all_done),
          pending,
          λ j. omega (arith, counts j, weight j, occurs_step j h notices, occurs_step j h hs),
        )
    | inr running ↦
        let (notices, told, all_done, pending, counts) =
          tick_tasks_lem fuel hs s (omega arith) fresh in
        let left = (tick_tasks fuel hs s).0 in
        rw (step_running fuel h hs s running) (
          notices,
          told,
          all_done,
          ((new, running), pending),
          λ j. omega (arith, counts j, occurs_step j h left, occurs_step j h hs),
        )
  ]

  cancel_busy :
      (h : Holder a) (s : S)
      → Unnotified h
      → a.is_idle h.task ≡ false
      → (cancel_holder h s).1 ≡ a.broadcast h.on_finished (a.ensure_completion h.task) s
  unfolding cancel_holder try_notify_finish
  cancel_busy h s new busy = rw (busy, new) refl

  cancel_ended :
      (h : Holder a) (s : S)
      → Unnotified h
      → a.is_idle h.task ≡ true
      → Done h
      → (cancel_holder h s).1 ≡ a.broadcast h.on_finished h.task s
  unfolding cancel_holder try_notify_finish
  cancel_ended h s new waits done = rw (waits, done, new) refl

  cancel_unstarted : (h : Holder a) (s : S) → Idle h → (cancel_holder h s).1 ≡ s
  unfolding cancel_holder
  cancel_unstarted h s (waits, unstarted) = rw (waits, unstarted) refl

  -- CancelAll notifies every task that was started or is done, once.
  unfoldable pub Cancelled : List (Holder a) → S → S → Type 0
  Cancelled hs s t =
      (notices dropped : List (Holder a)) × (t ≡ replay notices s)
      × Each Done notices
      × Each Idle dropped
      × ((j : ℕ) → occurs j notices + occurs j dropped ≡ occurs j hs)

  pub cancel_each_lem :
      (hs : List (Holder a)) (s : S) → Each Unnotified hs → Cancelled hs s (cancel_each hs s)
  unfolding Cancelled replay cancel_each
  cancel_each_lem [] s fresh = ([], [], refl, tt, tt, λ j. unfold total in omega arith)
  cancel_each_lem (h ∷ hs) s (new, fresh) =
      let (notices, dropped, told, all_done, idle, counts) =
        cancel_each_lem hs (cancel_holder h s).1 fresh in
      elim (Bool-cases (a.is_idle h.task)) [
        | inr busy ↦
            let ended : Holder a = record h { task = a.ensure_completion h.task } in
            (
              ended ∷ notices,
              dropped,
              told ∙ ap (replay notices) (cancel_busy h s new busy),
              (a.is_done-ensure_completion h.task, all_done),
              idle,
              λ j. omega (
                arith,
                counts j,
                occurs_ended j (a.ensure_completion h.task) h notices,
                occurs_step j h hs,
              ),
            )
        | inl waits ↦ elim (Bool-cases (a.is_done h.task)) [
          | inl done ↦ (
            h ∷ notices,
            dropped,
            told ∙ ap (replay notices) (cancel_ended h s new waits done),
            (done, all_done),
            idle,
            λ j. omega (arith, counts j, occurs_step j h notices, occurs_step j h hs),
          )
          | inr unstarted ↦ (
            notices,
            h ∷ dropped,
            told ∙ ap (replay notices) (cancel_unstarted h s (waits, unstarted)),
            all_done,
            ((waits, unstarted), idle),
            λ j. omega (arith, counts j, occurs_step j h dropped, occurs_step j h hs),
          )
        ]
      ]
