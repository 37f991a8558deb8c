-- ===== src/Tasks/Invariant.antt =====
-- The task list never stalls, loses no task and starts none twice, whatever the manager calls.
use save_extension.Base.{
  ℕ, suc, ◌≤◌, ◌≡◌, refl, sym, ap, ◌∙◌, Bool, true, false, not, ◌&&◌, ◌||◌, Option, none, some,
  List, [], ◌∷◌, ◌++◌, arith, length, ◌==◌, nat_eq, Bool-cases, inl, inr, ltb, ◌⊎◌,
}
use save_extension.Base.Sets.{contains, eq_self, eq_true, contains-append}
use save_extension.Tasks.{
  Behaviour, TaskList, should_start, start_first, finish_by, finish_if, start, create_task, tick,
  tick_first, fuel_of, is_scheduled,
}
use save_extension.Tasks.Queue.{
  Distinct, serve, finished_by, after_serving, Idle, Active, start_first-serve, finish_by-serve,
}
use save_extension.Tasks.History.{
  serve-Distinct, serve-Active, serve-account, serve-running, Call, submits, ticks, submit, call,
  run, Inv,
}

pub Distinct-snoc :
    (ts : List ℕ) (t : ℕ) → Distinct ts → contains ts t ≡ false → Distinct (ts ++ t ∷ [])
unfolding contains
Distinct-snoc [] t d h = (refl, tt)
Distinct-snoc (u ∷ ts) t d h =
    (ground (arith, contains-append ts (t ∷ []) u, d.0), Distinct-snoc ts t d.1 (ground arith))

Active-snoc :
    {running : ℕ → Bool} (ts : List ℕ) (h t : ℕ)
    → Active running (h ∷ ts)
    → running t ≡ false
    → Active running (h ∷ ts ++ t ∷ [])
unfolding contains
Active-snoc ts h t a f = (a.0, λ u k. ground (arith, contains-append ts (t ∷ []) u, a.1 u, f))

pub List-cases : (ts : List ℕ) → (ts ≡ []) ⊎ ((t : ℕ) × (us : List ℕ) × (ts ≡ t ∷ us))
List-cases [] = inl refl
List-cases (t ∷ ts) = inr (t, ts, refl)

module _ {S : Type 0} (b : Behaviour S) where
  pub start-start_first :
      (k : ℕ → TaskList S → Option (TaskList S)) (m : TaskList S) (t : ℕ) (ts : List ℕ)
      → m.tasks ≡ t ∷ ts
      → start_first b k m ≡ k t m
  unfolding start_first
  start-start_first k m t ts e = λ i. elim (e i) [ [] ↦ some m | h ∷ _ ↦ k h m ]

  -- Serving a list of which no task has started gives a list in order.
  pub served-Inv :
      (m : TaskList S)
      → Distinct m.tasks
      → Idle m.running m.tasks
      → ((u : ℕ) → contains m.tasks u ≡ (ltb u m.next && not (m.finished u)))
      → ((u : ℕ) → m.next ≤ u → (m.running u ≡ false) × (m.finished u ≡ false))
      → Inv (after_serving m (serve b m.tasks m.state))
  served-Inv m d i acc un = record {
    distinct = serve-Distinct b m.tasks m.state d;
    active = serve-Active b m.tasks m.state m.running d i;
    account = λ u.
        ground (
          arith,
          acc u,
          serve-account b m.tasks m.state m.finished u d (λ k. ground (arith, acc u)),
        );
    unstarted = λ u h.
        let absent : contains m.tasks u ≡ false = ground (arith, acc u) in
        (
          serve-running b m.tasks m.state m.running u absent ∙ (un u h).0,
          (serve-account b m.tasks m.state m.finished u d (λ k. cc (absent, k))).1 absent
              ∙ (un u h).1,
        );
  }

  -- A task that is not the first of the list does not start.
  pub start_later :
      (m : TaskList S) (t h fuel : ℕ) (ts : List ℕ)
      → m.tasks ≡ h ∷ ts
      → (h == t) ≡ false
      → start b (suc fuel) t m ≡ some m
  unfolding start should_start
  start_later m t h fuel ts e ne = rw (later, start)
    where
      later : should_start b t m ≡ false
      later = rw e (ground (arith, ne))

  -- A new task keeps the list in order: it starts, and what it lets start, or it waits at the end.
  pub submit-Inv :
      (setup : ℕ → S → S) (m : TaskList S)
      → Inv m
      → (m' : TaskList S) × (submit b setup m ≡ some m') × Inv m'
  unfolding submit create_task contains
  submit-Inv setup m v = elim (List-cases m.tasks) [
    | inl empty ↦
        let idle : Idle m.running (m.tasks ++ m.next ∷ []) = λ u k.
          ground (arith, unstarted, ap (λ (l : List ℕ). contains (l ++ m.next ∷ []) u) empty) in
        (
          after_serving m2 (serve b m2.tasks m2.state),
          sym (start-start_first _ m2 m.next [] (rw empty))
              ∙ start_first-serve b m2.tasks m2 (fuel_of b m2) refl distinct idle (omega arith),
          served-Inv m2 distinct idle account fresh,
        )
    | inr (h, ts, e) ↦ (
      m2,
      start_later m2 m.next h _ (ts ++ m.next ∷ []) (rw e)
          (ground (arith, v.account h, ap (λ (l : List ℕ). contains l h) e, eq_self h)),
      record {
        distinct = distinct;
        active = rw e (Active-snoc ts h m.next (rw e at v.active) unstarted);
        account = account;
        unstarted = fresh;
      },
    )
  ]
    where
      m2 : TaskList S
      m2 = record m {
        tasks = m.tasks ++ m.next ∷ [];
        next = suc m.next;
        state = setup m.next m.state;
      }

      unstarted : m.running m.next ≡ false
      unstarted = (v.unstarted m.next (omega arith)).0

      unfinished : m.finished m.next ≡ false
      unfinished = (v.unstarted m.next (omega arith)).1

      distinct : Distinct (m.tasks ++ m.next ∷ [])
      distinct = Distinct-snoc m.tasks m.next v.distinct (ground (arith, v.account m.next))

      account :
          (u : ℕ) → contains (m.tasks ++ m.next ∷ []) u ≡ (ltb u (suc m.next) && not (m.finished u))
      account u = ground (arith, contains-append m.tasks (m.next ∷ []) u, v.account u, unfinished)

      fresh : (u : ℕ) → suc m.next ≤ u → (m.running u ≡ false) × (m.finished u ≡ false)
      fresh u h = v.unstarted u (omega arith)

  -- Finish of the first task keeps the list in order: the next one starts, and what that lets start.
  finish-Inv :
      (m : TaskList S) (t : ℕ) (ts : List ℕ) (r : Bool)
      → m.tasks ≡ t ∷ ts
      → Inv m
      → (m' : TaskList S) × (finish_by b (start b (fuel_of b m)) t r m ≡ some m')
        × Inv m'
        × (is_scheduled b t m' ≡ false)
        × (m'.finished t ≡ true)
        × (m'.succeeded t ≡ r)
  unfolding contains is_scheduled
  finish-Inv m t ts r e v = (
    _,
    finish_by-serve b ts t m (fuel_of b m) r e d.0 a.0 (λ m' e' r'.
        start_first-serve b ts m' (fuel_of b m) e' d.1
          (λ u k. ap (λ (f : ℕ → Bool). f u) r' ∙ a.1 u k)
          (omega (arith, ap (λ (l : List ℕ). length l) e))),
    record {
      distinct = serve-Distinct b ts s d.1;
      active = serve-Active b ts s m.running d.1 a.1;
      account = λ u. elim (Bool-cases (t == u)) [
        | inl same ↦ ground (arith, (left_account u).0, ap (contains ts) (eq_true t u same), d.0)
        | inr other ↦ elim (Bool-cases (contains ts u)) [
          | inl behind ↦ ground (arith, (left_account u).0, listed u)
          | inr absent ↦ ground (arith, (left_account u).0, (left_account u).1 absent, listed u)
        ]
      ];
      unstarted = λ u h.
          let absent : contains ts u ≡ false = ground (arith, listed u) in
          (
            serve-running b ts s m.running u absent ∙ (v.unstarted u h).0,
            ground (arith, listed u, (left_account u).1 absent, (v.unstarted u h).1),
          );
    },
    ground (arith, (left_account t).0, d.0),
    ground (arith, eq_self t),
    ground (arith, eq_self t),
  )
    where
      s : S
      s = b.on_finish t r m.state

      d : Distinct (t ∷ ts)
      d = rw e at v.distinct

      a : Active m.running (t ∷ ts)
      a = rw e at v.active

      listed : (u : ℕ) → (t == u || contains ts u) ≡ (ltb u m.next && not (m.finished u))
      listed u = ap (λ (l : List ℕ). contains l u) (sym e) ∙ v.account u

      left_account :
          (u : ℕ)
          → (contains (serve b ts s).left u
              ≡ (contains ts u && not (finished_by (serve b ts s).done m.finished u)))
            × (contains ts u ≡ false → finished_by (serve b ts s).done m.finished u ≡ m.finished u)
      left_account u = serve-account b ts s m.finished u d.1 (λ k. ground (arith, listed u))

  -- What a method does that may call Finish keeps the list in order.
  finish_if-Inv :
      (m : TaskList S) (t : ℕ) (ts : List ℕ) (result : Option Bool)
      → m.tasks ≡ t ∷ ts
      → Inv m
      → (m' : TaskList S) × (finish_if b (start b (fuel_of b m)) t result m ≡ some m') × Inv m'
  unfolding finish_if
  finish_if-Inv m t ts none e v = (m, refl, v)
  finish_if-Inv m t ts (some r) e v =
      let (m', runs, v', _, _, _) = finish-Inv m t ts r e v in (m', runs, v')

  tick_first-Inv :
      (m : TaskList S) (t : ℕ) (ts : List ℕ)
      → m.tasks ≡ t ∷ ts
      → Inv m
      → (m' : TaskList S) × (tick_first b t m ≡ some m') × Inv m'
  unfolding tick_first
  tick_first-Inv m t ts e v =
      let a : Active m.running (t ∷ ts) = rw e at v.active in
      let (m', runs, v') =
        finish_if-Inv (record m { state = (b.on_tick t m.state).0 }) t ts (b.on_tick t m.state).1 e
          (record {
            distinct = v.distinct;
            active = v.active;
            account = v.account;
            unstarted = v.unstarted;
          }) in
      (m', rw a.0 runs, v')

  pub tick-Inv : (m : TaskList S) → Inv m → (m' : TaskList S) × (tick b m ≡ some m') × Inv m'
  unfolding tick
  tick-Inv m v = elim (List-cases m.tasks) [
    | inl empty ↦ (m, (λ i. elim (empty i) [ [] ↦ some m | t ∷ _ ↦ tick_first b t m ]), v)
    | inr (t, ts, e) ↦
        let (m', runs, v') = tick_first-Inv m t ts e v in
        (m', (λ i. elim (e i) [ [] ↦ some m | t ∷ _ ↦ tick_first b t m ]) ∙ runs, v')
  ]

  call-Inv :
      (c : Call S) (m : TaskList S) → Inv m → (m' : TaskList S) × (call b c m ≡ some m') × Inv m'
  unfolding call
  call-Inv (submits setup) m v = submit-Inv setup m v
  call-Inv ticks m v = tick-Inv m v

  -- From a list in order, any sequence of new tasks and ticks runs through, with the fuel that the list
  -- gives, and leaves a list in order: the first task runs and no other has started, no task is in the
  -- list twice, and the tasks in the list are exactly those that were created and have not finished.
  pub run-Inv :
      (cs : List (Call S)) (m : TaskList S)
      → Inv m
      → (m' : TaskList S) × (run b cs m ≡ some m') × Inv m'
  unfolding run
  run-Inv [] m v = (m, refl, v)
  run-Inv (c ∷ cs) m v =
      let (m1, e, v1) = call-Inv c m v in
      let (m2, e2, v2) = run-Inv cs m1 v1 in (m2, rw (e, run) e2, v2)
