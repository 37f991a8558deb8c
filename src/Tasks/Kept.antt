-- ===== src/Tasks/Kept.antt =====
-- What the task classes keep of the state is kept by the task list, which lists no task but those it is given.
use save_extension.Base.{
  ℕ, zero, suc, ◌≡◌, Bool, true, Option, none, some, List, [], ◌∷◌, ◌++◌, arith, nat_eq, Bool-cases,
  inl, inr,
}
use save_extension.Base.Sets.{contains, remove, contains-remove}
use save_extension.Tasks.{
  Behaviour, TaskList, set_flag, should_start, start_first, mark_finished, finish_by, finish_if,
  start, create_task, fuel_of, tick_first, tick,
}
use save_extension.Tasks.History.{submit}

-- Every task of the first list is in the second.
abbrev pub Within : List ℕ → List ℕ → Type 0
Within ts us = (u : ℕ) → contains ts u ≡ true → contains us u ≡ true

-- Something is kept from one state to the next.
pub record Keeping (S : Type 0) (b : Behaviour S) : Type 1 where
  pub Kept : S → S → Type 0
  pub same : (s : S) → Kept s s
  pub further : (s t u : S) → Kept s t → Kept t u → Kept s u
  pub starting : (t : ℕ) (s : S) → Kept s (b.on_start t s).0
  pub ticking : (t : ℕ) (s : S) → Kept s (b.on_tick t s).0
  pub finishing : (t : ℕ) (r : Bool) (s : S) → Kept s (b.on_finish t r s)

module _ {S : Type 0} (b : Behaviour S) (k : Keeping S b) where
  abbrev pub After : TaskList S → Option (TaskList S) → Type 0
  After m none = Unit
  After m (some m') = k.Kept m.state m'.state × Within m'.tasks m.tasks

  pub After-from :
      (m n : TaskList S) (o : Option (TaskList S))
      → k.Kept m.state n.state
      → Within n.tasks m.tasks
      → After n o
      → After m o
  After-from m n none h w a = tt
  After-from m n (some m') h w (kept, within) =
      (k.further m.state n.state m'.state h kept, λ u listed. w u (within u listed))

  pub unchanged : (m : TaskList S) → After m (some m)
  unchanged m = (k.same m.state, λ u listed. listed)

  pub first_of-After :
      (go : ℕ → TaskList S → Option (TaskList S)) (m : TaskList S) (ts : List ℕ)
      → ((t : ℕ) → After m (go t m))
      → After m (elim ts [ [] ↦ some m | t ∷ _ ↦ go t m ])
  first_of-After go m [] h = unchanged m
  first_of-After go m (t ∷ ts) h = h t

  start_first-After :
      (go : ℕ → TaskList S → Option (TaskList S)) (m : TaskList S)
      → ((t : ℕ) (n : TaskList S) → After n (go t n))
      → After m (start_first b go m)
  unfolding start_first
  start_first-After go m h = first_of-After go m m.tasks (λ t. h t m)

  marked-After :
      (t : ℕ) (r : Bool) (m : TaskList S) (o : Option (TaskList S))
      → After m o
      → After m (elim o [ none ↦ none | some m' ↦ some (mark_finished b t r m') ])
  unfolding mark_finished
  marked-After t r m none a = tt
  marked-After t r m (some m') a = a

  removed : (ts : List ℕ) (t : ℕ) → Within (remove ts t) ts
  removed ts t u listed = ground (arith, contains-remove ts t u)

  finish_by-After :
      (go : ℕ → TaskList S → Option (TaskList S)) (t : ℕ) (r : Bool) (m : TaskList S)
      → ((t : ℕ) (n : TaskList S) → After n (go t n))
      → After m (finish_by b go t r m)
  unfolding finish_by
  finish_by-After go t r m h = elim (Bool-cases (m.running t)) [
    | inr idle ↦ rw idle (unchanged m)
    | inl runs ↦
        let n : TaskList S = record m {
          state = b.on_finish t r m.state;
          tasks = remove m.tasks t;
        } in
        rw runs (
          marked-After t r m (start_first b go n) (
            After-from m n (start_first b go n) (k.finishing t r m.state) (removed m.tasks t)
              (start_first-After go n h)))
  ]

  pub finish_if-After :
      (go : ℕ → TaskList S → Option (TaskList S)) (t : ℕ) (result : Option Bool) (m : TaskList S)
      → ((t : ℕ) (n : TaskList S) → After n (go t n))
      → After m (finish_if b go t result m)
  unfolding finish_if
  finish_if-After go t none m h = unchanged m
  finish_if-After go t (some r) m h = finish_by-After go t r m h

  pub start-After : (fuel t : ℕ) (m : TaskList S) → After m (start b fuel t m)
  unfolding start
  start-After zero t m = tt
  start-After (suc fuel) t m = elim (Bool-cases (should_start b t m)) [
    | inr stays ↦ rw stays (unchanged m)
    | inl starts ↦
        let n : TaskList S = record m {
          running = set_flag m.running t true;
          state = (b.on_start t m.state).0;
        } in
        rw starts (
          After-from m n (finish_if b (start b fuel) t (b.on_start t m.state).1 n)
            (k.starting t m.state) (λ u listed. listed)
            (finish_if-After (start b fuel) t (b.on_start t m.state).1 n (start-After fuel)))
  ]

  -- a tick of the list
  tick_first-After : (t : ℕ) (m : TaskList S) → After m (tick_first b t m)
  unfolding tick_first
  tick_first-After t m = elim (Bool-cases (m.running t)) [
    | inr idle ↦ rw idle (unchanged m)
    | inl runs ↦
        let n : TaskList S = record m { state = (b.on_tick t m.state).0 } in
        let go = start b (fuel_of b m) in
        rw runs (
          After-from m n (finish_if b go t (b.on_tick t m.state).1 n) (k.ticking t m.state)
            (λ u listed. listed)
            (finish_if-After go t (b.on_tick t m.state).1 n (start-After (fuel_of b m))))
  ]

  pub tick-After : (m : TaskList S) → After m (tick b m)
  unfolding tick
  tick-After m = first_of-After (tick_first b) m m.tasks (λ t. tick_first-After t m)

  -- a new task
  pub submit-After :
      (setup : ℕ → S → S) (m : TaskList S)
      → After
          (record m { state = setup m.next m.state; tasks = m.tasks ++ m.next ∷ [] })
          (submit b setup m)
  unfolding submit create_task
  submit-After setup m =
      let n : TaskList S = record m {
        tasks = m.tasks ++ m.next ∷ [];
        next = suc m.next;
        state = setup m.next m.state;
      } in
      start-After (fuel_of b n) m.next n
