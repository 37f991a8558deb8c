-- ===== src/Saver/Schedule.antt =====
-- The tasks of a save come to the same result in whatever order the threads do them.
use save_extension.Base.{
  ℕ, zero, suc, ◌+◌, ◌≤◌, ◌≡◌, refl, ap, ◌∙◌, Bool, true, false, not, ◌&&◌, ◌||◌, Option, none,
  some, List, [], ◌∷◌, ◌++◌, arith, length, take, drop, map, Bool-cases, inl, inr, if◌then◌else◌,
}
use save_extension.Archive.{Each}
use save_extension.Engine.{Engine}
use save_extension.World.{GameInstance}
use save_extension.SlotData.{SlotData}
use save_extension.Records.{is_valid_record, ObjectRecord, ActorRecord}
use save_extension.Actors.{SerializeTask, do_work, serialize_game_instance}
use save_extension.Actors.Saved.{saved_actors, serialize_from_lem}
use save_extension.Saver.{
  start_task, start_nth, start_tasks, ensure_completion, dump_all, run_scheduled_tasks,
  starting_order,
}

-- A record of the game instance that was made twice is made once.
game_again :
    {E : Engine} (game : Option (GameInstance E)) (r : ObjectRecord)
    → serialize_game_instance game (serialize_game_instance game r) ≡ serialize_game_instance game r
unfolding serialize_game_instance
game_again none r = refl
game_again (some g) r = refl

module _ {E : Engine} where
  -- The actors of a task are in the level.
  abbrev pub InRange : SerializeTask E → Type 0
  InRange t = t.start_index + t.num ≤ length t.level_actors

  -- The task has not run, and it holds no level script.
  abbrev pub IsNew : SerializeTask E → Type 0
  IsNew t =
      (t.is_done ≡ false)
      × (t.actor_records ≡ [])
      × (is_valid_record t.level_script_record.object ≡ false)
      × InRange t

  abbrev pub records_of : SerializeTask E → List (ActorRecord E)
  records_of t = saved_actors t.filter (take t.num (drop t.start_index t.level_actors))

  -- A task once its work is done.
  abbrev pub complete : SerializeTask E → SerializeTask E
  complete t =
      if t.is_done
      then t
      else record t { actor_records = t.actor_records ++ records_of t; is_done = true }

  abbrev stores : SerializeTask E → Bool
  stores t = not t.is_done && t.store_game_instance

  -- If a task that is still to do stores the game instance.
  unfoldable pub any_stores : List (SerializeTask E) → Bool
  any_stores [] = false
  any_stores (t ∷ ts) = stores t || any_stores ts

  module _ (game : Option (GameInstance E)) where
    abbrev pub with_game : Bool → SlotData E → SlotData E
    with_game b d =
        if b then record d { game_instance = serialize_game_instance game d.game_instance } else d

    game_twice : (a b : Bool) (d : SlotData E) → with_game b (with_game a d) ≡ with_game (a || b) d
    game_twice true true d =
        ap (λ (r : ObjectRecord). record d { game_instance = r }) (game_again game d.game_instance)
    game_twice true false d = refl
    game_twice false b d = refl

    start_task_lem :
        (t : SerializeTask E) (d : SlotData E)
        → InRange t
        → start_task game d t ≡ some (with_game (stores t) d, complete t)
    unfolding do_work
    start_task_lem t d h = elim (Bool-cases t.is_done) [
      | inl done ↦ simp done
      | inr pending ↦ simp (
        pending,
        serialize_from_lem t.filter t.level_actors t.start_index t.num t.actor_records h,
      )
    ]

    complete-InRange : (t : SerializeTask E) → InRange t → InRange (complete t)
    complete-InRange t h = elim (Bool-cases t.is_done) [
      | inl done ↦ simp done h
      | inr pending ↦ simp pending h
    ]

    complete_again : (t : SerializeTask E) → complete (complete t) ≡ complete t
    complete_again t = elim (Bool-cases t.is_done) [
      | inl done ↦ simp done
      | inr pending ↦ simp pending
    ]

    stores-complete : (t : SerializeTask E) → stores (complete t) ≡ false
    stores-complete t = elim (Bool-cases t.is_done) [
      | inl done ↦ simp done
      | inr pending ↦ simp pending
    ]

    -- What is left to do after some tasks were started: some of the tasks have done their work, and if
    -- one of these stores the game instance, its record is there.
    abbrev Progress :
        SlotData E → List (SerializeTask E) → Option (SlotData E × List (SerializeTask E)) → Type 0
    Progress d ts result =
        (b : Bool) × (ts' : List (SerializeTask E)) × (result ≡ some (with_game b d, ts'))
        × ((b || any_stores ts') ≡ any_stores ts)
        × (map complete ts' ≡ map complete ts)
        × Each InRange ts'

    start_nth_lem :
        (i : ℕ) (d : SlotData E) (ts : List (SerializeTask E))
        → Each InRange ts
        → Progress d ts (start_nth game i d ts)
    unfolding start_nth any_stores
    start_nth_lem i d [] h = (false, [], refl, refl, refl, tt)
    start_nth_lem zero d (t ∷ ts) (h, hs) = (
      stores t,
      complete t ∷ ts,
      rw (start_task_lem t d h) refl,
      rw (stores-complete t) refl,
      rw (complete_again t) refl,
      (complete-InRange t h, hs),
    )
    start_nth_lem (suc i) d (t ∷ ts) (h, hs) =
        let (b, ts', e, s, c, r) = start_nth_lem i d ts hs in
        (b, t ∷ ts', rw e refl, ground (arith, s), rw c refl, (h, r))

    start_tasks_lem :
        (order : List ℕ) (d : SlotData E) (ts : List (SerializeTask E))
        → Each InRange ts
        → Progress d ts (start_tasks game order d ts)
    unfolding start_tasks
    start_tasks_lem [] d ts h = (false, ts, refl, refl, refl, h)
    start_tasks_lem (i ∷ order) d ts h =
        let (b, ts', e, s, c, r) = start_nth_lem i d ts h in
        let (b', ts'', e', s', c', r') = start_tasks_lem order (with_game b d) ts' r in
        (
          b || b',
          ts'',
          rw e (e' ∙ ap (λ (x : SlotData E). some (x, ts'')) (game_twice b b' d)),
          ground (arith, s, s'),
          c' ∙ c,
          r',
        )

    ensure_completion_lem :
        (d : SlotData E) (ts : List (SerializeTask E))
        → Each InRange ts
        → ensure_completion game d ts ≡ some (with_game (any_stores ts) d, map complete ts)
    unfolding ensure_completion any_stores
    ensure_completion_lem d [] h = refl
    ensure_completion_lem d (t ∷ ts) (h, hs) =
        rw (start_task_lem t d h, ensure_completion_lem (with_game (stores t) d) ts hs)
          (ap (λ (x : SlotData E). some (x, complete t ∷ map complete ts))
            (game_twice (stores t) (any_stores ts) d))

    -- For tasks whose actors are in their levels, RunScheduledTasks comes to the same result in whatever
    -- order the threads do the tasks: the record of the game instance, if a task stores it, and the
    -- records of every task, dumped in the order of the tasks.
    pub run_scheduled_tasks_any :
        (multithreaded : Bool) (order : List ℕ) (ts : List (SerializeTask E)) (d : SlotData E)
        → Each InRange ts
        → run_scheduled_tasks game multithreaded order ts d
          ≡ some (dump_all (map complete ts) (with_game (any_stores ts) d))
    unfolding run_scheduled_tasks
    run_scheduled_tasks_any multithreaded order ts d h =
        let (b, ts', e, s, c, r) =
          start_tasks_lem (if multithreaded then order else starting_order (length ts)) d ts h in
        rw (e, ensure_completion_lem (with_game b d) ts' r, game_twice b (any_stores ts') d, s, c)
          refl
