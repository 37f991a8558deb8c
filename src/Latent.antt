-- ===== src/Latent.antt =====
-- The latent actions (Source/SaveExtension/Public/LatentActions, Private/LatentActions) and the methods of
-- USaveManager that make them (BPSaveSlot, BPLoadSlot, BPLoadAllSlotInfos and BPDeleteAllSlots in
-- Private/SaveManager.cpp). A node is a call of such a method in a blueprint, with the pins it writes to.
pub mod Outcomes
use save_extension.Base.{
  Bool, true, false, not, ◌&&◌, Option, none, some, List, [], ◌∷◌, ◌++◌, if◌then◌else◌,
}
use save_extension.Archive.{◌>>=◌}
use save_extension.Name.{Name}
use save_extension.Engine.{Engine}
use save_extension.SlotInfo.{SlotInfo}
use save_extension.Manager.{Services, Manager}
use save_extension.Manager.Slots.{save_slot, load_slot}

-- ESaveGameResult and ELoadGameResult; the first is Saving or Loading.
pub data GameResult : Type 0 where
  going continues failed : GameResult

-- What the node's Result refers to, and whether the latent manager has an action of the node
pub record GameNode : Type 0 where
  pub result : GameResult
  pub has_action : Bool

-- OnSaveFinished, OnLoadFinished
unfoldable pub on_game_finished : Option SlotInfo → GameResult
on_game_finished none = failed
on_game_finished (some info) = continues

-- The constructors of FSaveGameAction and FLoadGameAction, with what their delegate gets if the task ends
-- within SaveSlot or LoadSlot, and what that returns
unfoldable pub game_action : Option (Option SlotInfo) → Bool → GameResult → GameResult
unfolding on_game_finished
game_action at_once false result = failed
game_action none true result = result
game_action (some info) true result = on_game_finished info

-- UpdateOperation: whether the action ends and triggers the output
unfoldable pub update_game_action : GameResult → Bool
update_game_action going = false
update_game_action continues = true
update_game_action failed = true

-- BPSaveSlot and BPLoadSlot on the node, with or without a world
unfoldable pub call_game_node : Bool → Option (Option SlotInfo) → Bool → GameNode → GameNode
unfolding game_action
call_game_node false at_once did_start n = record n { result = failed }
call_game_node true at_once did_start n =
    if n.has_action
    then record n { result = going }
    else record { result = game_action at_once did_start going; has_action = true }

module _ {E : Engine} {W G : Type 0} (v : Services E W G) where
  -- The method, around SaveSlot or LoadSlot, which only a new action calls
  unfoldable pub bp_game_node :
      Option (Option SlotInfo)
      → (Manager v → Option (Bool × Manager v))
      → Manager v
      → GameNode
      → Option (GameNode × Manager v)
  unfolding call_game_node
  bp_game_node at_once call m n =
      let world = v.has_world m.state.game in
      if world && not n.has_action
      then (call m >>= λ p. some (call_game_node true at_once p.0 n, p.1))
      else some (call_game_node world at_once false n, m)

  unfoldable pub bp_save_slot :
      Option (Option SlotInfo)
      → Name
      → Bool
      → Bool
      → Manager v
      → GameNode
      → Option (GameNode × Manager v)
  unfolding bp_game_node
  bp_save_slot at_once name over shot m n = bp_game_node at_once (save_slot v name over shot) m n

  unfoldable pub bp_load_slot :
      Option (Option SlotInfo) → Name → Manager v → GameNode → Option (GameNode × Manager v)
  unfolding bp_game_node
  bp_load_slot at_once name m n = bp_game_node at_once (load_slot v name) m n

-- What happens to a node: it is called in a world, where a new action starts a task that goes on; the latent
-- manager updates its action; or the delegate of its action is called.
pub data Occasion (A : Type 0) : Type 0 where
  called updated : Occasion A
  delegated : A → Occasion A

-- What it leaves, with what the output of the node is triggered with; `none` if the delegate is called
-- after the action is deleted, since it points to the action.
unfoldable pub game_occasion :
    Occasion (Option SlotInfo) → GameNode → Option (GameNode × List GameResult)
unfolding call_game_node on_game_finished update_game_action
game_occasion called n = some (call_game_node true none true n, [])
game_occasion updated n =
    if n.has_action && update_game_action n.result
    then some (record n { has_action = false }, n.result ∷ [])
    else some (n, [])
game_occasion (delegated info) n =
    if n.has_action then some (record n { result = on_game_finished info }, []) else none

-- FLoadInfosAction, with SlotInfos, and FDeleteSlotsAction, which refers to nothing: bFinished
pub record FlagNode (A : Type 0) : Type 0 where
  pub given : Option A
  pub is_finished : Bool
  pub has_action : Bool

-- BPLoadAllSlotInfos, BPDeleteAllSlots in a world, UpdateOperation, and the delegates
unfoldable pub flag_occasion :
    {A : Type 0} → Occasion A → FlagNode A → Option (FlagNode A × List (Option A))
flag_occasion called n =
    if n.has_action
    then some (n, [])
    else some (record n { is_finished = false; has_action = true }, [])
flag_occasion updated n =
    if n.has_action && n.is_finished
    then some (record n { has_action = false }, n.given ∷ [])
    else some (n, [])
flag_occasion (delegated a) n =
    if n.has_action then some (record n { given = some a; is_finished = true }, []) else none

-- one after the other
unfoldable pub occasions :
    {A N R : Type 0}
    → (Occasion A → N → Option (N × List R))
    → List (Occasion A)
    → N
    → Option (N × List R)
occasions f [] n = some (n, [])
occasions f (o ∷ os) n = f o n >>= λ p. (occasions f os p.0 >>= λ q. some (q.0, p.1 ++ q.1))
