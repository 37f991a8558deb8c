-- ===== src/Latent/Outcomes.antt =====
-- What the output of a node is triggered with.
use save_extension.Base.{
  ℕ, ◌≡◌, refl, sym, ap, ◌∙◌, Bool, true, false, Option, none, some, List, [], ◌∷◌, ◌++◌,
  append-nil,
}
use save_extension.Archive.{◌>>=◌, Each}
use save_extension.Name.{Name}
use save_extension.Engine.{Engine}
use save_extension.SlotInfo.{SlotInfo}
use save_extension.Tasks.History.{Inv}
use save_extension.Manager.{Services, Manager, Managed}
use save_extension.Manager.Slots.{save_slot, load_slot}
use save_extension.Manager.Results.{Returns, expected_save, expected_load, slots-Returns}
use save_extension.Latent.{
  continues, GameResult, going, failed, GameNode, on_game_finished, game_action, update_game_action,
  call_game_node, bp_game_node, bp_save_slot, bp_load_slot, Occasion, called, updated, delegated,
  game_occasion, flag_occasion, occasions,
}

-- not the call of the delegate
abbrev pub Quiet : {A : Type 0} → Occasion A → Type 0
Quiet called = Unit
Quiet updated = Unit
Quiet (delegated a) = ⊥

silent : {N R : Type 0} (o : Option (N × List R)) → (o >>= λ q. some (q.0, [] ++ q.1)) ≡ o
silent none = refl
silent (some (n, rs)) = refl

-- A node that calls and updates leave as it is
stays_lem :
    {A N R : Type 0} (f : Occasion A → N → Option (N × List R)) (n : N)
    (os rest : List (Occasion A))
    → f called n ≡ some (n, [])
    → f updated n ≡ some (n, [])
    → Each Quiet os
    → occasions f (os ++ rest) n ≡ occasions f rest n
unfolding occasions
stays_lem f n [] rest c u quiet = refl
stays_lem f n (called ∷ os) rest c u (_, quiet) =
    rw c (silent (occasions f (os ++ rest) n) ∙ stays_lem f n os rest c u quiet)
stays_lem f n (updated ∷ os) rest c u (_, quiet) =
    rw u (silent (occasions f (os ++ rest) n) ∙ stays_lem f n os rest c u quiet)
stays_lem f n (delegated a ∷ os) rest c u (never, quiet) = absurd never

silent_to_end :
    {A N R : Type 0} (f : Occasion A → N → Option (N × List R)) (n : N) (os : List (Occasion A))
    → f called n ≡ some (n, [])
    → f updated n ≡ some (n, [])
    → Each Quiet os
    → occasions f os n ≡ some (n, [])
unfolding occasions
silent_to_end f n os c u quiet =
    ap (λ xs. occasions f xs n) (sym (append-nil os)) ∙ stays_lem f n os [] c u quiet

calls_pass :
    {A N R : Type 0} (f : Occasion A → N → Option (N × List R)) (n : N)
    (os rest : List (Occasion A))
    → f called n ≡ some (n, [])
    → Each (λ o. o ≡ called) os
    → occasions f (os ++ rest) n ≡ occasions f rest n
unfolding occasions
calls_pass f n [] rest c calls = refl
calls_pass f n (o ∷ os) rest c (e, calls) =
    rw (e, c) (silent (occasions f (os ++ rest) n) ∙ calls_pass f n os rest c calls)

-- the result that a task gives to its node: Continue with the info of a slot, Failed with null
abbrev pub result_with : Option SlotInfo → GameResult
result_with info = elim info [ none ↦ failed | some _ ↦ continues ]

-- a node whose action goes on
abbrev waiting_node : GameNode
waiting_node = record { result = going; has_action = true }

at_end :
    (info : Option SlotInfo)
    → occasions game_occasion (delegated info ∷ updated ∷ []) waiting_node
      ≡ some (record { result = result_with info; has_action = false }, result_with info ∷ [])
unfolding occasions game_occasion on_game_finished update_game_action
at_end none = refl
at_end (some info) = refl

-- A node of SaveSlot or LoadSlot without an action is called, and its task starts and goes on. However
-- often it is called again and updated before the task ends: if it is updated next after the end, its output
-- is triggered once, with Continue if the delegate gets an info and with Failed if not. But if it is called
-- again between the end of the task and that update, its output is never triggered, whatever calls and updates follow.
pub game_node_lem :
    (result : GameResult) (info : Option SlotInfo)
    (before after : List (Occasion (Option SlotInfo)))
    → Each Quiet before
    → Each Quiet after
    → let node : GameNode = record { result = result; has_action = false } in
      (occasions game_occasion (called ∷ before ++ delegated info ∷ updated ∷ []) node
        ≡ some (record { result = result_with info; has_action = false }, result_with info ∷ []))
      × (occasions game_occasion (called ∷ before ++ delegated info ∷ called ∷ after) node
          ≡ some (record { result = going; has_action = true }, []))
unfolding occasions game_occasion call_game_node update_game_action game_action
game_node_lem result info before after quiet quiet' = (
  silent _ ∙ stays_lem game_occasion waiting_node before _ refl refl quiet ∙ at_end info,
  silent _
      ∙ stays_lem game_occasion waiting_node before _ refl refl quiet
      ∙ silent _
      ∙ silent _
      ∙ silent_to_end game_occasion waiting_node after refl refl quiet',
)

-- A node of LoadAllSlotInfos or DeleteAllSlots without an action is called. However often it is called again
-- and updated before the task ends, and called again after that: its output is triggered once, at the first
-- update after the end of the task, with what the task gives.
pub flag_node_lem :
    {A : Type 0} (given : Option A) (flag : Bool) (a : A) (before again : List (Occasion A))
    → Each Quiet before
    → Each (λ o. o ≡ called) again
    → occasions flag_occasion
        (called ∷ before ++ delegated a ∷ (again ++ updated ∷ updated ∷ []))
        (record { given = given; is_finished = flag; has_action = false })
      ≡ some (record { given = some a; is_finished = true; has_action = false }, some a ∷ [])
unfolding occasions flag_occasion
flag_node_lem given flag a before again quiet calls =
    silent _
    ∙ stays_lem flag_occasion (record { given = given; is_finished = false; has_action = true })
        before (delegated a ∷ (again ++ updated ∷ updated ∷ [])) refl refl quiet
    ∙ silent _
    ∙ calls_pass flag_occasion (record { given = some a; is_finished = true; has_action = true })
        again (updated ∷ updated ∷ []) refl calls

-- BPSaveSlot, with what it passes on, or BPLoadSlot
pub data NodeKind : Type 0 where
  saves : Bool → Bool → NodeKind
  loads : NodeKind

module _ {E : Engine} {W G : Type 0} (v : Services E W G) where
  -- a call that leaves the list in order, and a node that is triggered with Failed at the next update
  abbrev pub Refused : Option (GameNode × Manager v) → Type 0
  Refused call =
      (n : GameNode) × (m : Manager v) × (call ≡ some (n, m))
      × Inv m
      × (game_occasion updated n
          ≡ some (record { result = failed; has_action = false }, failed ∷ []))

  bp-Refused :
      (at_once : Option (Option SlotInfo)) (call : Manager v → Option (Bool × Manager v))
      (m : Manager v) (n : GameNode) (expected : Bool × (List ℕ × Managed E G))
      → v.has_world m.state.game ≡ true
      → n.has_action ≡ false
      → expected.0 ≡ false
      → Returns v expected (call m)
      → Refused (bp_game_node v at_once call m n)
  unfolding bp_game_node call_game_node game_action Returns game_occasion update_game_action
  bp-Refused at_once call m n (r, (ts, s)) world idle fails (m', e, inv, _, _) = (
    record { result = failed; has_action = true },
    m',
    rw (world, idle, e, fails) refl,
    inv,
    refl,
  )

  -- the node of a slot, by its method, and what SaveSlot or LoadSlot promises it
  unfoldable pub bp_node :
      NodeKind
      → Option (Option SlotInfo)
      → Name
      → Manager v
      → GameNode
      → Option (GameNode × Manager v)
  bp_node (saves over shot) at_once name m n = bp_save_slot v at_once name over shot m n
  bp_node loads at_once name m n = bp_load_slot v at_once name m n

  unfoldable pub promised : NodeKind → Name → Manager v → Bool
  promised (saves over shot) name m = (expected_save v name over shot m).0
  promised loads name m = (expected_load v name m).0

  -- With the list of tasks in order and a world, a node without an action calls SaveSlot or LoadSlot. Where
  -- that one returns false (with a game mode that has no authority; without a name, to save; without a file
  -- of the slot, to load; or if the task fails at once), the node has an action all the same, whose
  -- output is triggered with Failed at the next update.
  pub refused_nodes_lem :
      (kind : NodeKind) (at_once : Option (Option SlotInfo)) (name : Name) (m : Manager v)
      (n : GameNode)
      → Inv m
      → v.has_world m.state.game ≡ true
      → n.has_action ≡ false
      → promised kind name m ≡ false
      → Refused (bp_node kind at_once name m n)
  unfolding bp_node promised bp_save_slot bp_load_slot
  refused_nodes_lem (saves over shot) at_once name m n inv world idle fails =
      bp-Refused at_once (save_slot v name over shot) m n _ world idle fails
        (slots-Returns v name over shot m inv).0
  refused_nodes_lem loads at_once name m n inv world idle fails =
      bp-Refused at_once (load_slot v name) m n _ world idle fails
        (slots-Returns v name false false m inv).1
