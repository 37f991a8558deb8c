-- ===== src/Events.antt =====
-- Who is told of saving and loading: the subscribed interfaces of USaveManager
-- (Source/SaveExtension/Public/SaveManager.h, Private/SaveManager.cpp), ISaveExtensionInterface
-- (Public/SaveExtensionInterface.h) and ULifetimeComponent (Public/LifetimeComponent.h, Private/LifetimeComponent.cpp).
pub mod Heard
pub mod Lifetimes
use save_extension.Base.{
  ℕ, Bool, true, false, not, Option, none, some, List, [], ◌∷◌, ◌++◌, ◌==◌, nat_eq, if◌then◌else◌,
}
use save_extension.Base.Sets.{add, remove}
use save_extension.LevelFilter.{LevelFilter, should_save_actor}
use save_extension.SlotInfo.{SlotInfo}

-- An event of a save or a load; the last argument is bError.
pub data Event : Type 0 where
  save_began : LevelFilter → Event
  save_finished : LevelFilter → Bool → Event
  load_began : LevelFilter → Event
  load_finished : LevelFilter → Bool → Event

-- A call that the manager makes: of the C++ event of an object, of its Blueprint event, or of the
-- delegates OnGameSaved and OnGameLoaded with the current info.
pub data Call : Type 0 where
  interface : ℕ → Event → Call
  receive : ℕ → Event → Call
  game_saved : Option SlotInfo → Call
  game_loaded : Option SlotInfo → Call

-- The objects: which ones exist, and which ones implement the interface in C++
pub record Objects : Type 0 where
  pub exists : ℕ → Bool
  pub is_native : ℕ → Bool

-- SubscribeForEvents and UnsubscribeFromEvents
unfoldable pub subscribe_for_events : ℕ → List ℕ → List ℕ
unfolding add
subscribe_for_events i subscribed = add subscribed i

unfoldable pub unsubscribe_from_events : ℕ → List ℕ → List ℕ
unfolding remove
unsubscribe_from_events i subscribed = remove subscribed i

module _ (o : Objects) where
  -- what the callback calls of one object
  unfoldable pub call_object : Event → ℕ → List Call
  call_object e i = (if o.is_native i then interface i e ∷ [] else []) ++ receive i e ∷ []

  -- IterateSubscribedInterfaces with that callback
  unfoldable pub iterate_subscribed_interfaces : Event → List ℕ → List Call
  unfolding call_object
  iterate_subscribed_interfaces e [] = []
  iterate_subscribed_interfaces e (i ∷ is) =
      let rest = iterate_subscribed_interfaces e is in
      if o.exists i then (call_object e i ++ rest) else rest

  -- OnSaveBegan, OnSaveFinished, OnLoadBegan and OnLoadFinished
  unfoldable pub notify : Event → Option SlotInfo → List ℕ → List Call
  unfolding iterate_subscribed_interfaces
  notify (save_began f) info subscribed = iterate_subscribed_interfaces (save_began f) subscribed
  notify (save_finished f error) info subscribed =
      iterate_subscribed_interfaces (save_finished f error) subscribed
      ++ (if not error then game_saved info ∷ [] else [])
  notify (load_began f) info subscribed = iterate_subscribed_interfaces (load_began f) subscribed
  notify (load_finished f error) info subscribed =
      iterate_subscribed_interfaces (load_finished f error) subscribed
      ++ (if not error then game_loaded info ∷ [] else [])

-- The delegates of a ULifetimeComponent
pub data Signal : Type 0 where
  started saved resumed finished : Signal

-- BeginPlay and EndPlay of a component, by whether the manager is loading: who is subscribed
-- afterwards, and what the component broadcasts
unfoldable pub begin_play : ℕ → Bool → List ℕ → List ℕ × List Signal
unfolding subscribe_for_events
begin_play c is_loading subscribed =
    (subscribe_for_events c subscribed, if not is_loading then started ∷ [] else [])

unfoldable pub end_play : ℕ → Bool → List ℕ → List ℕ × List Signal
unfolding unsubscribe_from_events
end_play c is_loading subscribed =
    (unsubscribe_from_events c subscribed, if not is_loading then finished ∷ [] else [])

-- What a component whose owner has this class broadcasts at an event: OnSaveBegan and OnLoadFinished
unfoldable pub on_event : ℕ → Event → List Signal
on_event owner (save_began f) = if should_save_actor f owner then saved ∷ [] else []
on_event owner (save_finished f error) = []
on_event owner (load_began f) = []
on_event owner (load_finished f error) = if should_save_actor f owner then resumed ∷ [] else []

-- the C++ events of a component among the calls of the manager
unfoldable pub on_call : ℕ → ℕ → Call → List Signal
unfolding on_event
on_call c owner (interface i e) = if i == c then on_event owner e else []
on_call c owner (receive i e) = []
on_call c owner (game_saved info) = []
on_call c owner (game_loaded info) = []

unfoldable pub on_calls : ℕ → ℕ → List Call → List Signal
unfolding on_call
on_calls c owner [] = []
on_calls c owner (call ∷ calls) = on_call c owner call ++ on_calls c owner calls
