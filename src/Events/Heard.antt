-- ===== src/Events/Heard.antt =====
-- What reaches a lifetime component of an event that the manager sends.
use save_extension.Base.{
  ℕ, ◌≡◌, refl, sym, ap, ◌∙◌, Bool, true, false, not, Option, List, [], ◌∷◌, ◌++◌, append_assoc,
  append-nil, ◌==◌, nat_eq, arith, if◌then◌else◌, Bool-cases, inl, inr,
}
use save_extension.Base.Sets.{contains, eq_true, eq_self}
use save_extension.SlotInfo.{SlotInfo}
use save_extension.Tasks.Queue.{Distinct}
use save_extension.Events.{
  Event, save_began, save_finished, load_began, load_finished, Call, game_saved, game_loaded,
  Objects, call_object, iterate_subscribed_interfaces, notify, on_event, on_call, on_calls,
}

module _ (o : Objects) (c owner : ℕ) where
  on_calls-append :
      (xs ys : List Call) → on_calls c owner (xs ++ ys) ≡ on_calls c owner xs ++ on_calls c owner ys
  unfolding on_calls
  on_calls-append [] ys = refl
  on_calls-append (x ∷ xs) ys = rw (on_calls-append xs ys, append_assoc) refl

  -- the calls of another object
  other_lem : (e : Event) (i : ℕ) → (i == c) ≡ false → on_calls c owner (call_object o e i) ≡ []
  unfolding call_object on_calls on_call
  other_lem e i other = elim (Bool-cases (o.is_native i)) [
    | inl native ↦ rw (native, other) refl
    | inr blueprint ↦ rw blueprint refl
  ]

  own_lem :
      (e : Event) → o.is_native c ≡ true → on_calls c owner (call_object o e c) ≡ on_event owner e
  unfolding call_object on_calls on_call
  own_lem e native = rw (native, eq_self c) (append-nil (on_event owner e))

  -- A component that is not subscribed hears nothing.
  absent_lem :
      (e : Event) (is : List ℕ)
      → contains is c ≡ false
      → on_calls c owner (iterate_subscribed_interfaces o e is) ≡ []
  unfolding iterate_subscribed_interfaces contains
  absent_lem e [] h = unfold on_calls in refl
  absent_lem e (i ∷ is) h =
      let other : (i == c) ≡ false = ground arith in
      let rest = absent_lem e is (ground arith) in
      elim (Bool-cases (o.exists i)) [
        | inl there ↦
            rw
              (
                there,
                on_calls-append (call_object o e i) (iterate_subscribed_interfaces o e is),
                other_lem e i other,
              )
              rest
        | inr gone ↦ rw gone rest
      ]

  present_lem :
      (e : Event) (is : List ℕ)
      → o.exists c ≡ true
      → o.is_native c ≡ true
      → Distinct is
      → contains is c ≡ true
      → on_calls c owner (iterate_subscribed_interfaces o e is) ≡ on_event owner e
  unfolding iterate_subscribed_interfaces contains
  present_lem e [] exists native d h = absurd (ground arith)
  present_lem e (i ∷ is) exists native (absent, d) h = elim (Bool-cases (i == c)) [
    | inl same ↦
        let is_own : i ≡ c = eq_true i c same in
        let there : o.exists i ≡ true = ap (λ (j : ℕ). o.exists j) is_own ∙ exists in
        let own : on_calls c owner (call_object o e i) ≡ on_event owner e =
          ap (λ (j : ℕ). on_calls c owner (call_object o e j)) is_own ∙ own_lem e native in
        let gone : contains is c ≡ false = ap (λ (j : ℕ). contains is j) (sym is_own) ∙ absent in
        rw
          (
            there,
            on_calls-append (call_object o e i) (iterate_subscribed_interfaces o e is),
            own,
            absent_lem e is gone,
          )
          (append-nil (on_event owner e))
    | inr other ↦
        let rest = present_lem e is exists native d (ground arith) in
        elim (Bool-cases (o.exists i)) [
          | inl there ↦
              rw
                (
                  there,
                  on_calls-append (call_object o e i) (iterate_subscribed_interfaces o e is),
                  other_lem e i other,
                )
                rest
          | inr gone ↦ rw gone rest
        ]
  ]

  -- the delegates of the manager, which no component listens to
  announced :
      (b : Bool) (call : Call)
      → on_call c owner call ≡ []
      → on_calls c owner (if b then call ∷ [] else []) ≡ []
  unfolding on_calls
  announced true call h = rw h refl
  announced false call h = refl

  pub notify_absent :
      (e : Event) (info : Option SlotInfo) (is : List ℕ)
      → contains is c ≡ false
      → on_calls c owner (notify o e info is) ≡ []
  unfolding notify on_call
  notify_absent (save_began f) info is h = absent_lem (save_began f) is h
  notify_absent (save_finished f error) info is h =
      rw
        (
          on_calls-append (iterate_subscribed_interfaces o (save_finished f error) is) _,
          absent_lem (save_finished f error) is h,
        )
        (announced (not error) (game_saved info) refl)
  notify_absent (load_began f) info is h = absent_lem (load_began f) is h
  notify_absent (load_finished f error) info is h =
      rw
        (
          on_calls-append (iterate_subscribed_interfaces o (load_finished f error) is) _,
          absent_lem (load_finished f error) is h,
        )
        (announced (not error) (game_loaded info) refl)

  pub notify_present :
      (e : Event) (info : Option SlotInfo) (is : List ℕ)
      → o.exists c ≡ true
      → o.is_native c ≡ true
      → Distinct is
      → contains is c ≡ true
      → on_calls c owner (notify o e info is) ≡ on_event owner e
  unfolding notify on_call
  notify_present (save_began f) info is ex nat d h = present_lem (save_began f) is ex nat d h
  notify_present (save_finished f error) info is ex nat d h =
      rw
        (
          on_calls-append (iterate_subscribed_interfaces o (save_finished f error) is) _,
          present_lem (save_finished f error) is ex nat d h,
          announced (not error) (game_saved info) refl,
        )
        (append-nil (on_event owner (save_finished f error)))
  notify_present (load_began f) info is ex nat d h = present_lem (load_began f) is ex nat d h
  notify_present (load_finished f error) info is ex nat d h =
      rw
        (
          on_calls-append (iterate_subscribed_interfaces o (load_finished f error) is) _,
          present_lem (load_finished f error) is ex nat d h,
          announced (not error) (game_loaded info) refl,
        )
        (append-nil (on_event owner (load_finished f error)))
