-- ===== src/Scoped/History.antt =====
-- Every task of a list is notified once.
use save_extension.Base.{
  ℕ, ◌+◌, ◌≡◌, refl, sym, ap, ◌∙◌, false, List, [], ◌∷◌, ◌++◌, length, ◌==◌, nat_eq, if◌then◌else◌,
  ltb, arith, Bool-cases, inl, inr,
}
use save_extension.Archive.{Each}
use save_extension.Scoped.Swap.{total, total-append, Each-append}
use save_extension.Scoped.{
  AsyncTasks, Holder, ScopedTasks, create_holder, update_holder, listen, run_task, tick_tasks,
  tick_all, cancel_all,
}
use save_extension.Scoped.Notices.{
  occurs, replay, Unnotified, Done, Idle, Pending, replay-append, Ticked, Cancelled, tick_tasks_lem,
  cancel_each_lem,
}

module _ {S : Type 0} (a : AsyncTasks S) where
  occurs_none : (j : ℕ) → occurs {a = a} j [] ≡ 0
  unfolding total
  occurs_none j = refl

  none_begun :
      (j : ℕ)
      → occurs {a = a} j [] + occurs {a = a} j [] + occurs {a = a} j [] ≡ (if ltb j 0 then 1 else 0)
  none_begun j = ground (arith, occurs_none j)

  begun : (s0 : S) → s0 ≡ replay {a = a} [] s0
  unfolding replay
  begun s0 = refl

module _ {S : Type 0} {a : AsyncTasks S} where
  -- A list of tasks that was made and used by its operations
  pub data Run (s0 : S) : ScopedTasks a → Type 0 where
    begins : Run s0 (record { tasks = []; next_address = 0; state = s0 })
    creates : (t : a.Task) {l : ScopedTasks a} → Run s0 l → Run s0 (create_holder t l).1
    listens :
        (k : ℕ) (delegate : a.Task → S → S) {l : ScopedTasks a}
        → Run s0 l
        → Run s0 (listen k delegate l)
    runs : (k : ℕ) (f : a.Task → a.Task) {l : ScopedTasks a} → Run s0 l → Run s0 (run_task k f l)
    ticks : {l : ScopedTasks a} → Run s0 l → Run s0 (tick_all l)
    cancels : {l : ScopedTasks a} → Run s0 l → Run s0 (cancel_all l)

  abbrev pub Account : S → ScopedTasks a → List (Holder a) → List (Holder a) → Type 0
  Account s0 l notices dropped =
      (l.state ≡ replay notices s0)
      × Each Done notices
      × Each Idle dropped
      × Each Unnotified l.tasks
      × ((j : ℕ)
          → occurs j notices + occurs j dropped + occurs j l.tasks
            ≡ (if ltb j l.next_address then 1 else 0))

  occurs_one : (j : ℕ) (h : Holder a) → occurs j (h ∷ []) ≡ (if h.address == j then 1 else 0)
  unfolding total
  occurs_one j h = omega arith

  occurs-update_holder :
      (j k : ℕ) (f : Holder a → Holder a) (hs : List (Holder a))
      → ((h : Holder a) → (f h).address ≡ h.address)
      → occurs j (update_holder k f hs) ≡ occurs j hs
  unfolding update_holder total
  occurs-update_holder j k f [] same = refl
  occurs-update_holder j k f (h ∷ hs) same =
      ground (arith, same h, occurs-update_holder j k f hs same)

  Unnotified-update_holder :
      (k : ℕ) (f : Holder a → Holder a) (hs : List (Holder a))
      → ((h : Holder a) → (f h).notified ≡ h.notified)
      → Each Unnotified hs
      → Each Unnotified (update_holder k f hs)
  unfolding update_holder
  Unnotified-update_holder k f [] same fresh = tt
  Unnotified-update_holder k f (h ∷ hs) same (new, fresh) = elim (Bool-cases (h.address == k)) [
    | inl here ↦ rw here (same h ∙ new, fresh)
    | inr other ↦ rw other (new, Unnotified-update_holder k f hs same fresh)
  ]

  Pending-Unnotified : (hs : List (Holder a)) → Each Pending hs → Each Unnotified hs
  Pending-Unnotified [] h = tt
  Pending-Unnotified (x ∷ xs) (h, hs) = (h.0, Pending-Unnotified xs hs)

  created-Account :
      (s0 : S) (t : a.Task) (l : ScopedTasks a) (notices dropped : List (Holder a))
      → Account s0 l notices dropped
      → Account s0 (create_holder t l).1 notices dropped
  unfolding create_holder
  created-Account s0 t l notices dropped (told, done, idle, fresh, counts) =
      let new : Holder a = record {
        address = l.next_address;
        task = t;
        notified = false;
        on_finished = a.no_listeners;
      } in
      (
        told,
        done,
        idle,
        Each-append Unnotified l.tasks (new ∷ []) fresh (refl, tt),
        λ j. ground (
          arith,
          counts j,
          total-append (λ (h : Holder a). if h.address == j then 1 else 0) l.tasks (new ∷ []),
          occurs_one j new,
        ),
      )

  updated-Account :
      (s0 : S) (k : ℕ) (f : Holder a → Holder a) (l : ScopedTasks a)
      (notices dropped : List (Holder a))
      → ((h : Holder a) → (f h).address ≡ h.address)
      → ((h : Holder a) → (f h).notified ≡ h.notified)
      → Account s0 l notices dropped
      → Account s0 (record l { tasks = update_holder k f l.tasks }) notices dropped
  updated-Account s0 k f l notices dropped same kept (told, done, idle, fresh, counts) = (
    told,
    done,
    idle,
    Unnotified-update_holder k f l.tasks kept fresh,
    λ j. omega (arith, counts j, occurs-update_holder j k f l.tasks same),
  )

  ticked-Account :
      (s0 : S) (l : ScopedTasks a) (notices dropped : List (Holder a))
      → Account s0 l notices dropped
      → (more : List (Holder a)) × Account s0 (tick_all l) (notices ++ more) dropped
  unfolding tick_all Ticked
  ticked-Account s0 l notices dropped (told, done, idle, fresh, counts) =
      let (more, tells, all_done, pending, ticked) =
        tick_tasks_lem (length l.tasks) l.tasks l.state (omega arith) fresh in
      (
        more,
        (
          tells ∙ ap (replay more) told ∙ sym (replay-append notices more s0),
          Each-append Done notices more done all_done,
          idle,
          Pending-Unnotified (tick_tasks (length l.tasks) l.tasks l.state).0 pending,
          λ j. omega (
            arith,
            counts j,
            ticked j,
            total-append (λ (h : Holder a). if h.address == j then 1 else 0) notices more,
          ),
        ),
      )

  cancelled-Account :
      (s0 : S) (l : ScopedTasks a) (notices dropped : List (Holder a))
      → Account s0 l notices dropped
      → (more left : List (Holder a)) × Account s0
          (cancel_all l)
          (notices ++ more)
          (dropped ++ left)
  unfolding cancel_all Cancelled
  cancelled-Account s0 l notices dropped (told, done, idle, fresh, counts) =
      let (more, left, tells, all_done, all_idle, cancelled) =
        cancel_each_lem l.tasks l.state fresh in
      (
        more,
        left,
        (
          tells ∙ ap (replay more) told ∙ sym (replay-append notices more s0),
          Each-append Done notices more done all_done,
          Each-append Idle dropped left idle all_idle,
          tt,
          λ j. omega (
            arith,
            counts j,
            cancelled j,
            occurs_none a j,
            total-append (λ (h : Holder a). if h.address == j then 1 else 0) notices more,
            total-append (λ (h : Holder a). if h.address == j then 1 else 0) dropped left,
          ),
        ),
      )

  -- Whatever calls of its operations follow each other on a list of tasks, if no listener uses the list
  -- itself: what its listeners have done is what they do in a sequence
  -- of notices of tasks that are done. Of the tasks that were created, each one is in that sequence, once, and no longer in
  -- the list; or it is in the list and was not notified; or CancelAll dropped it before it was started.
  pub Run-Account :
      (s0 : S) (l : ScopedTasks a)
      → Run s0 l
      → (notices dropped : List (Holder a)) × Account s0 l notices dropped
  unfolding listen run_task
  Run-Account s0 _ begins = ([], [], (begun a s0, tt, tt, tt, λ j. none_begun a j))
  Run-Account s0 _ (creates t {l = l} way) =
      let (notices, dropped, acc) = Run-Account s0 l way in
      (notices, dropped, created-Account s0 t l notices dropped acc)
  Run-Account s0 _ (listens k delegate {l = l} way) =
      let (notices, dropped, acc) = Run-Account s0 l way in
      (
        notices,
        dropped,
        updated-Account s0 k (λ h. record h { on_finished = a.add_lambda delegate h.on_finished }) l
            notices dropped (λ h. refl) (λ h. refl) acc,
      )
  Run-Account s0 _ (runs k f {l = l} way) =
      let (notices, dropped, acc) = Run-Account s0 l way in
      (
        notices,
        dropped,
        updated-Account s0 k (λ h. record h { task = f h.task }) l notices dropped (λ h. refl)
            (λ h. refl) acc,
      )
  Run-Account s0 _ (ticks {l = l} way) =
      let (notices, dropped, acc) = Run-Account s0 l way in
      let (more, acc') = ticked-Account s0 l notices dropped acc in (notices ++ more, dropped, acc')
  Run-Account s0 _ (cancels {l = l} way) =
      let (notices, dropped, acc) = Run-Account s0 l way in
      let (more, left, acc') = cancelled-Account s0 l notices dropped acc in
      (notices ++ more, dropped ++ left, acc')
