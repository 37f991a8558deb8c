-- ===== src/Events/Lifetimes.antt =====
-- What a lifetime component broadcasts from BeginPlay to EndPlay and after.
use save_extension.Base.{
  ap, ℕ, ◌≡◌, refl, sym, ap₂, ◌∙◌, Bool, true, false, not, Option, List, [], ◌∷◌, ◌++◌, append-nil,
  ◌==◌, nat_eq, arith, if◌then◌else◌, Bool-cases, inl, inr,
}
use save_extension.Base.Sets.{contains, add, remove, contains-add, contains-remove, eq_self}
use save_extension.Archive.{Each}
use save_extension.SlotInfo.{SlotInfo}
use save_extension.Tasks.Queue.{Distinct}
use save_extension.Tasks.Invariant.{Distinct-snoc}
use save_extension.LevelFilter.{should_save_actor}
use save_extension.Events.{
  saved, resumed, save_began, save_finished, load_began, load_finished, Event, Objects,
  subscribe_for_events, unsubscribe_from_events, notify, Signal, started, finished, begin_play,
  end_play, on_event, on_calls,
}
use save_extension.Events.Heard.{notify_absent, notify_present}

-- What happens around a component: an event, or another object subscribes or unsubscribes.
pub data Moment : Type 0 where
  happens : Event → Option SlotInfo → Moment
  joins : ℕ → Moment
  quits : ℕ → Moment

-- The object is not this component.
abbrev pub IsOther : ℕ → Moment → Type 0
IsOther c (happens e info) = Unit
IsOther c (joins i) = (i == c) ≡ false
IsOther c (quits i) = (i == c) ≡ false

-- What a component should broadcast while it is subscribed: Saved for each save that begins, and Resume
-- for each load that ends, with an error or not, where the filter of the event saves its owner
unfoldable pub heard : ℕ → List Moment → List Signal
heard owner [] = []
heard owner (happens (save_began f) info ∷ ms) =
    if should_save_actor f owner then (saved ∷ heard owner ms) else heard owner ms
heard owner (happens (save_finished f error) info ∷ ms) = heard owner ms
heard owner (happens (load_began f) info ∷ ms) = heard owner ms
heard owner (happens (load_finished f error) info ∷ ms) =
    if should_save_actor f owner then (resumed ∷ heard owner ms) else heard owner ms
heard owner (joins i ∷ ms) = heard owner ms
heard owner (quits i ∷ ms) = heard owner ms

on_event_lem :
    (owner : ℕ) (e : Event) (info : Option SlotInfo) (ms : List Moment)
    → heard owner (happens e info ∷ ms) ≡ on_event owner e ++ heard owner ms
unfolding heard on_event
on_event_lem owner (save_began f) info ms = elim (Bool-cases (should_save_actor f owner)) [
  | inl wanted ↦ rw wanted refl
  | inr unwanted ↦ rw unwanted refl
]
on_event_lem owner (save_finished f error) info ms = refl
on_event_lem owner (load_began f) info ms = refl
on_event_lem owner (load_finished f error) info ms = elim (Bool-cases (should_save_actor f owner)) [
  | inl wanted ↦ rw wanted refl
  | inr unwanted ↦ rw unwanted refl
]

Distinct-remove : (ts : List ℕ) (t : ℕ) → Distinct ts → Distinct (remove ts t)
unfolding remove
Distinct-remove [] t d = tt
Distinct-remove (u ∷ ts) t (absent, d) = elim (Bool-cases (u == t)) [
  | inl same ↦ rw (same, remove) (Distinct-remove ts t d)
  | inr other ↦
      rw (other, remove) (ground (arith, contains-remove ts t u, absent), Distinct-remove ts t d)
]

Distinct-add : (ts : List ℕ) (t : ℕ) → Distinct ts → Distinct (add ts t)
unfolding add
Distinct-add ts t d = elim (Bool-cases (contains ts t)) [
  | inl there ↦ rw there d
  | inr absent ↦ rw absent (Distinct-snoc ts t d absent)
]

negated : (b : Bool) (x : Signal) → (if not b then x ∷ [] else []) ≡ (if b then [] else x ∷ [])
negated true x = refl
negated false x = refl

at_ends :
    (l l' : Bool) (xs : List Signal)
    → (if not l then started ∷ [] else []) ++ xs ++ (if not l' then finished ∷ [] else []) ++ []
      ≡ (if l then [] else started ∷ []) ++ xs ++ (if l' then [] else finished ∷ [])
at_ends l l' xs =
    append-nil
      ((if not l then started ∷ [] else []) ++ xs ++ (if not l' then finished ∷ [] else []))
    ∙ ap₂ (λ (ys zs : List Signal). ys ++ xs ++ zs) (negated l started) (negated l' finished)

module _ (o : Objects) (c owner : ℕ) where
  unfoldable pub moment : Moment → List ℕ → List ℕ × List Signal
  moment (happens e info) subscribed = (subscribed, on_calls c owner (notify o e info subscribed))
  moment (joins i) subscribed = (subscribe_for_events i subscribed, [])
  moment (quits i) subscribed = (unsubscribe_from_events i subscribed, [])

  unfoldable pub moments : List Moment → List ℕ → List ℕ × List Signal
  moments [] subscribed = (subscribed, [])
  moments (m ∷ ms) subscribed =
      let (subscribed', signals) = moment m subscribed in
      let (left, more) = moments ms subscribed' in (left, signals ++ more)

  -- BeginPlay, what happens until EndPlay, EndPlay, and what happens afterwards
  unfoldable pub life : List ℕ → Bool → List Moment → Bool → List Moment → List Signal
  life subscribed loading_first during loading_last after =
      let (s1, first) = begin_play c loading_first subscribed in
      let (s2, signals) = moments during s1 in
      let (s3, last) = end_play c loading_last s2 in
      first ++ signals ++ last ++ (moments after s3).1

  -- while the component is subscribed
  Subscribed : List ℕ → Type 0
  Subscribed is = Distinct is × (contains is c ≡ true)

  moment-Subscribed :
      (m : Moment) (is : List ℕ)
      → o.exists c ≡ true
      → o.is_native c ≡ true
      → IsOther c m
      → Subscribed is
      → Subscribed (moment m is).0 × ((moment m is).1 ≡ heard owner (m ∷ []))
  unfolding moment heard Subscribed subscribe_for_events unsubscribe_from_events
  moment-Subscribed (happens e info) is ex nat other (d, h) = (
    (d, h),
    notify_present o c owner e info is ex nat d h
        ∙ sym (append-nil (on_event owner e))
        ∙ sym (on_event_lem owner e info []),
  )
  moment-Subscribed (joins i) is ex nat other (d, h) =
      ((Distinct-add is i d, ground (arith, contains-add is i c)), refl)
  moment-Subscribed (quits i) is ex nat other (d, h) =
      ((Distinct-remove is i d, ground (arith, contains-remove is i c)), refl)

  heard-cons :
      (m : Moment) (ms : List Moment)
      → heard owner (m ∷ ms) ≡ heard owner (m ∷ []) ++ heard owner ms
  unfolding heard
  heard-cons (happens e info) ms =
      on_event_lem owner e info ms
      ∙ ap (λ xs. xs ++ heard owner ms)
          (sym (append-nil (on_event owner e)) ∙ sym (on_event_lem owner e info []))
  heard-cons (joins i) ms = refl
  heard-cons (quits i) ms = refl

  moments-Subscribed :
      (ms : List Moment) (is : List ℕ)
      → o.exists c ≡ true
      → o.is_native c ≡ true
      → Each (IsOther c) ms
      → Subscribed is
      → Subscribed (moments ms is).0 × ((moments ms is).1 ≡ heard owner ms)
  unfolding moments
  moments-Subscribed [] is ex nat others s = (s, unfold heard in refl)
  moments-Subscribed (m ∷ ms) is ex nat (other, others) s =
      let (s', signals) = moment-Subscribed m is ex nat other s in
      let (s'', more) = moments-Subscribed ms (moment m is).0 ex nat others s' in
      (s'', ap₂ ◌++◌ signals more ∙ sym (heard-cons m ms))

  moments_absent :
      (ms : List Moment) (is : List ℕ)
      → Each (IsOther c) ms
      → contains is c ≡ false
      → (moments ms is).1 ≡ []
  unfolding moments moment subscribe_for_events unsubscribe_from_events
  moments_absent [] is others h = refl
  moments_absent (happens e info ∷ ms) is (other, others) h =
      rw (notify_absent o c owner e info is h) (moments_absent ms is others h)
  moments_absent (joins i ∷ ms) is (other, others) h =
      moments_absent ms (add is i) others (ground (arith, contains-add is i c))
  moments_absent (quits i ∷ ms) is (other, others) h =
      moments_absent ms (remove is i) others (ground (arith, contains-remove is i c))

  -- A component that is not subscribed yet, from its BeginPlay to its EndPlay, while other objects
  -- subscribe and unsubscribe: it broadcasts Start, unless the manager is loading when it begins; then
  -- Saved for each save that begins and Resume for each load that ends, with an error or not, if
  -- the filter of the event saves its owner, in their order and once each; then Finish, unless the manager is loading when it ends;
  -- and nothing after that.
  pub life_lem :
      (subscribed : List ℕ) (loading_first : Bool) (during : List Moment) (loading_last : Bool)
      (after : List Moment)
      → o.exists c ≡ true
      → o.is_native c ≡ true
      → Distinct subscribed
      → contains subscribed c ≡ false
      → Each (IsOther c) during
      → Each (IsOther c) after
      → life subscribed loading_first during loading_last after
        ≡ (if loading_first then [] else started ∷ [])
          ++ heard owner during
          ++ (if loading_last then [] else finished ∷ [])
  unfolding life begin_play end_play subscribe_for_events unsubscribe_from_events Subscribed
  life_lem subscribed l during l' after ex nat d absent others others' =
      let (s, signals) =
        moments-Subscribed during (add subscribed c) ex nat others
          (Distinct-add subscribed c d, ground (arith, contains-add subscribed c c, eq_self c)) in
      let quiet =
        moments_absent after (remove (moments during (add subscribed c)).0 c) others'
          (ground (arith, contains-remove (moments during (add subscribed c)).0 c c, eq_self c)) in
      ap₂
        (λ (xs ys : List Signal).
          (if not l then started ∷ [] else [])
          ++ xs
          ++ (if not l' then finished ∷ [] else [])
          ++ ys)
        signals quiet
      ∙ at_ends l l' (heard owner during)
