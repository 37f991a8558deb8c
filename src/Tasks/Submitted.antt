-- ===== src/Tasks/Submitted.antt =====
-- What becomes of a task that is submitted.
use save_extension.Base.{
  ℕ, suc, ◌≡◌, refl, sym, ap, ap₂, ◌∙◌, Bool, true, false, ◌||◌, Option, none, some, List, [], ◌∷◌,
  ◌++◌, length, nat_eq, arith, Option-cases, inl, inr, some_eq, subst,
}
use save_extension.Base.Sets.{contains, contains-append, eq_self}
use save_extension.Tasks.{Behaviour, TaskList, start, create_task, is_scheduled, is_succeeded}
use save_extension.Tasks.Queue.{Served, serve, after_serving, start_first-serve}
use save_extension.Tasks.History.{submit, Inv}
use save_extension.Tasks.Invariant.{submit-Inv, List-cases, start_later, start-start_first}

module _ {S : Type 0} (b : Behaviour S) where
  -- What becomes of a task that is submitted: whether it is in the list or has succeeded, the list, and
  -- the state. It waits behind the tasks of the list; in an empty list it starts.
  unfoldable outcome_in : List ℕ → Option Bool → (ℕ → S → S) → TaskList S → Bool × (List ℕ × S)
  outcome_in (t ∷ ts) result setup m = (true, (m.tasks ++ m.next ∷ [], setup m.next m.state))
  outcome_in [] none setup m = (true, (m.next ∷ [], (b.on_start m.next (setup m.next m.state)).0))
  outcome_in [] (some r) setup m =
      (r, ([], b.on_finish m.next r (b.on_start m.next (setup m.next m.state)).0))

  unfoldable pub outcome : (ℕ → S → S) → TaskList S → Bool × (List ℕ × S)
  unfolding outcome_in
  outcome setup m = outcome_in m.tasks (b.on_start m.next (setup m.next m.state)).1 setup m

  -- the result that SaveSlot and LoadSlot make of it
  abbrev pub result_of : ℕ → TaskList S → Bool
  result_of t n = is_succeeded b t n || is_scheduled b t n

  unfoldable pub Submitted : (ℕ → S → S) → TaskList S → Bool × (List ℕ × S) → Type 0
  Submitted setup m (r, (ts, s)) =
      (n : TaskList S) × (submit b setup m ≡ some n)
      × Inv n
      × (result_of m.next n ≡ r)
      × (n.tasks ≡ ts)
      × (n.state ≡ s)

  submit_later :
      (setup : ℕ → S → S) (m : TaskList S) (t : ℕ) (ts : List ℕ)
      → m.tasks ≡ t ∷ ts
      → Inv m
      → submit b setup m
        ≡ some (record m {
          tasks = m.tasks ++ m.next ∷ [];
          next = suc m.next;
          state = setup m.next m.state;
        })
  unfolding submit create_task contains
  submit_later setup m t ts e v =
      start_later b
        (record m {
          tasks = m.tasks ++ m.next ∷ [];
          next = suc m.next;
          state = setup m.next m.state;
        })
        m.next t _ (ts ++ m.next ∷ []) (rw e)
        (ground (arith, v.account t, ap (λ (l : List ℕ). contains l t) e, eq_self t))

  submit_first :
      (setup : ℕ → S → S) (m : TaskList S)
      → m.tasks ≡ []
      → Inv m
      → let s = setup m.next m.state in
        let n : TaskList S = record m { tasks = m.next ∷ []; next = suc m.next; state = s } in
        submit b setup m ≡ some (after_serving n (serve b (m.next ∷ []) s))
  unfolding submit create_task contains
  submit_first setup m e v =
      let s = setup m.next m.state in
      let n : TaskList S = record m { tasks = m.next ∷ []; next = suc m.next; state = s } in
      let unstarted : m.running m.next ≡ false = (v.unstarted m.next (omega arith)).0 in
      let starts : submit b setup m ≡ start b 2 m.next n =
        ap
          (λ (ts : List ℕ).
            start b (suc (length ts)) m.next
              (record m { tasks = ts; next = suc m.next; state = s }))
          (ap (λ (ts : List ℕ). ts ++ m.next ∷ []) e) in
      starts
      ∙ sym (start-start_first b (start b 2) n m.next [] refl)
      ∙ start_first-serve b (m.next ∷ []) n 2 refl (refl, tt) (λ u k. ground (arith, unstarted, k))
          (omega arith)

  submitted-Inv : (setup : ℕ → S → S) (m n : TaskList S) → Inv m → submit b setup m ≡ some n → Inv n
  submitted-Inv setup m n v e =
      let (n', does, inv) = submit-Inv b setup m v in subst Inv (some_eq (sym does ∙ e)) inv

  serve_waiting :
      (t : ℕ) (s : S)
      → (b.on_start t s).1 ≡ none
      → serve b (t ∷ []) s ≡ record { left = t ∷ []; state = (b.on_start t s).0; done = [] }
  unfolding serve
  serve_waiting t s waits = rw (waits, serve) refl

  serve_ended :
      (t : ℕ) (s : S) (r : Bool)
      → (b.on_start t s).1 ≡ some r
      → serve b (t ∷ []) s
        ≡ record { left = []; state = b.on_finish t r (b.on_start t s).0; done = (t, r) ∷ [] }
  unfolding serve
  serve_ended t s r ends = rw (ends, serve) refl

  -- the list once it is served, if it holds only the new task
  abbrev alone : (ℕ → S → S) → TaskList S → Served S → TaskList S
  alone setup m =
      after_serving
        (record m { tasks = m.next ∷ []; next = suc m.next; state = setup m.next m.state })

  first_lem :
      (setup : ℕ → S → S) (m : TaskList S) (served : Served S)
      → m.tasks ≡ []
      → Inv m
      → serve b (m.next ∷ []) (setup m.next m.state) ≡ served
      → (submit b setup m ≡ some (alone setup m served)) × Inv (alone setup m served)
  first_lem setup m served e v is =
      let does = submit_first setup m e v ∙ ap (λ (u : Served S). some (alone setup m u)) is in
      (does, submitted-Inv setup m (alone setup m served) v does)

  outcome_later :
      (setup : ℕ → S → S) (m : TaskList S) (t : ℕ) (ts : List ℕ)
      → m.tasks ≡ t ∷ ts
      → outcome setup m ≡ (true, (m.tasks ++ m.next ∷ [], setup m.next m.state))
  unfolding outcome
  outcome_later setup m t ts e =
      ap (λ (us : List ℕ). outcome_in us (b.on_start m.next (setup m.next m.state)).1 setup m) e

  outcome_waiting :
      (setup : ℕ → S → S) (m : TaskList S)
      → m.tasks ≡ []
      → (b.on_start m.next (setup m.next m.state)).1 ≡ none
      → outcome setup m ≡ (true, (m.next ∷ [], (b.on_start m.next (setup m.next m.state)).0))
  unfolding outcome
  outcome_waiting setup m e waits =
      ap₂ (λ (us : List ℕ) (o : Option Bool). outcome_in us o setup m) e waits

  outcome_ended :
      (setup : ℕ → S → S) (m : TaskList S) (r : Bool)
      → m.tasks ≡ []
      → (b.on_start m.next (setup m.next m.state)).1 ≡ some r
      → outcome setup m
        ≡ (r, ([], b.on_finish m.next r (b.on_start m.next (setup m.next m.state)).0))
  unfolding outcome
  outcome_ended setup m r e ends =
      ap₂ (λ (us : List ℕ) (o : Option Bool). outcome_in us o setup m) e ends

  -- What a new task comes to, in a list that is in order
  pub submit-Submitted :
      (setup : ℕ → S → S) (m : TaskList S) → Inv m → Submitted setup m (outcome setup m)
  unfolding Submitted is_scheduled is_succeeded contains
  submit-Submitted setup m v = elim (List-cases m.tasks) [
    | inr (t, ts, e) ↦
        let does = submit_later setup m t ts e v in
        subst (Submitted setup m) (sym (outcome_later setup m t ts e)) (
          _,
          does,
          submitted-Inv setup m _ v does,
          ground (arith, contains-append m.tasks (m.next ∷ []) m.next, eq_self m.next),
          refl,
          refl,
        )
    | inl e ↦ elim (Option-cases (b.on_start m.next (setup m.next m.state)).1) [
      | inl waits ↦
          let (does, inv) = first_lem setup m _ e v (serve_waiting _ _ waits) in
          subst (Submitted setup m) (sym (outcome_waiting setup m e waits))
            (_, does, inv, ground (arith, eq_self m.next), refl, refl)
      | inr (r, ends) ↦
          let (does, inv) = first_lem setup m _ e v (serve_ended _ _ r ends) in
          subst (Submitted setup m) (sym (outcome_ended setup m r e ends))
            (_, does, inv, ground (arith, eq_self m.next), refl, refl)
    ]
  ]
