-- ===== src/Manager/Active.antt =====
-- The active preset stays as it is while tasks run, and a new task is prepared with it.
use mathlib.Core.Option.{map as map_option}
use save_extension.Base.{
  ℕ, ◌≡◌, refl, sym, ap, ◌∙◌, Bool, true, not, ◌&&◌, Option, none, some, [], ◌∷◌, ◌++◌, ◌==◌,
  nat_eq, arith, Bool-cases, inl, inr, some_eq, subst,
}
use save_extension.Base.Sets.{contains, contains-append}
use save_extension.Archive.{◌>>=◌}
use save_extension.Preset.{Preset}
use save_extension.Engine.{Engine}
use save_extension.Tasks.History.{submit}
use save_extension.Tasks.Kept.{Within, Keeping, After, submit-After}
use save_extension.Manager.{
  TaskKind, Prepared, Managed, Services, Manager, get_preset, try_instantiate_info, prepare, launch,
  is_in_slot,
}

module _ {E : Engine} {W G : Type 0} (v : Services E W G) where
  -- The active preset, and what the tasks were made with, stay.
  abbrev pub Stays : Managed E G → Managed E G → Type 0
  Stays s t = (t.active_preset ≡ s.active_preset) × (t.prepared ≡ s.prepared)

  -- No method of a task class sets the active preset, or prepares a task.
  pub record Leaves : Type 0 where
    pub on_starts : (t : ℕ) (s : Managed E G) → Stays s (v.behaviour.on_start t s).0
    pub on_ticks : (t : ℕ) (s : Managed E G) → Stays s (v.behaviour.on_tick t s).0
    pub on_finishes : (t : ℕ) (r : Bool) (s : Managed E G) → Stays s (v.behaviour.on_finish t r s)
    pub on_maps : (t : ℕ) (s : Managed E G) → Stays s (v.on_map_loaded t s).0

  abbrev pub keeping : Leaves → Keeping (Managed E G) v.behaviour
  keeping h = record {
    Kept = Stays;
    same = λ s. (refl, refl);
    further = λ s t u a b. (b.0 ∙ a.0, b.1 ∙ a.1);
    starting = h.on_starts;
    ticking = h.on_ticks;
    finishing = h.on_finishes;
  }

  -- Each listed task was prepared with the preset that is active.
  abbrev pub OfPreset : Preset → Option (Prepared E) → Type 0
  OfPreset p none = ⊥
  OfPreset p (some made) = made.preset ≡ p

  abbrev pub AllOfPreset : Manager v → Type 0
  AllOfPreset m =
      (u : ℕ) → contains m.tasks u ≡ true → OfPreset (get_preset v m.state) (m.state.prepared u)

  -- what is kept of the tasks that are listed
  pub stays-AllOfPreset :
      (m n : Manager v)
      → Stays m.state n.state
      → Within n.tasks m.tasks
      → AllOfPreset m
      → AllOfPreset n
  unfolding get_preset
  stays-AllOfPreset m n (active, made) within all u listed =
      subst (λ (p : ℕ → Option (Prepared E)). OfPreset (get_preset v n.state) (p u)) (sym made)
        (subst
          (λ (p : Option Preset).
            OfPreset (elim p [ none ↦ v.default_preset | some q ↦ q ]) (m.state.prepared u))
          (sym active) (all u (within u listed)))

  abbrev pub Gives : Option (Manager v) → Type 0
  Gives none = Unit
  Gives (some n) = AllOfPreset n

  pub After-Gives :
      (h : Leaves) (m : Manager v) (o : Option (Manager v))
      → AllOfPreset m
      → After v.behaviour (keeping h) m o
      → Gives o
  After-Gives h m none all a = tt
  After-Gives h m (some n) all (stays, within) = stays-AllOfPreset m n stays within all

  pub Gives-some : (o : Option (Manager v)) (n : Manager v) → Gives o → o ≡ some n → AllOfPreset n
  Gives-some none n g e = absurd (ground arith)
  Gives-some (some n') n g e = subst AllOfPreset (some_eq e) g

  -- A new task is prepared with the active preset.
  prepared-AllOfPreset :
      (kind : TaskKind) (m : Manager v)
      → AllOfPreset m
      → AllOfPreset
          (record m { state = prepare v kind m.next m.state; tasks = m.tasks ++ m.next ∷ [] })
  unfolding prepare get_preset contains
  prepared-AllOfPreset kind m all u listed = elim (Bool-cases (m.next == u)) [
    | inl same ↦ rw same refl
    | inr other ↦ rw other (all u (ground (arith, contains-append m.tasks (m.next ∷ []) u)))
  ]

  submit-Gives :
      (h : Leaves) (kind : TaskKind) (m : Manager v)
      → AllOfPreset m
      → Gives (submit v.behaviour (prepare v kind) m)
  submit-Gives h kind m all =
      let n : Manager v = record m {
        state = prepare v kind m.next m.state;
        tasks = m.tasks ++ m.next ∷ [];
      } in
      After-Gives h n (submit v.behaviour (prepare v kind) m) (prepared-AllOfPreset kind m all)
        (submit-After v.behaviour (keeping h) (prepare v kind) m)

  abbrev pub GivesBoth : Option (Bool × Manager v) → Type 0
  GivesBoth none = Unit
  GivesBoth (some (r, n)) = AllOfPreset n

  pub GivesBoth-some :
      (o : Option (Bool × Manager v)) (r : Bool) (n : Manager v)
      → GivesBoth o
      → o ≡ some (r, n)
      → AllOfPreset n
  GivesBoth-some none r n g e = absurd (ground arith)
  GivesBoth-some (some (r', n')) r n g e =
      subst AllOfPreset (ap (λ (p : Bool × Manager v). p.1) (some_eq e)) g

  pub GivesBoth-map :
      (o : Option (Bool × Manager v))
      → GivesBoth o
      → Gives (map_option (λ (p : Bool × Manager v). p.1) o)
  GivesBoth-map none g = tt
  GivesBoth-map (some (r, n)) g = g

  with_result :
      (f : Manager v → Bool) (o : Option (Manager v))
      → Gives o
      → GivesBoth (o >>= λ n. some (f n, n))
  with_result f none g = tt
  with_result f (some n) g = g

  pub launch-Gives :
      (h : Leaves) (kind : TaskKind) (m : Manager v) → AllOfPreset m → GivesBoth (launch v kind m)
  unfolding launch
  launch-Gives h kind m all =
      with_result _ (submit v.behaviour (prepare v kind) m) (submit-Gives h kind m all)

  instantiate-Stays : (forced : Bool) (s : Managed E G) → Stays s (try_instantiate_info v forced s)
  unfolding try_instantiate_info
  instantiate-Stays forced s = elim (Bool-cases (is_in_slot v s && not forced)) [
    | inl there ↦ rw there (refl, refl)
    | inr new ↦ rw new (refl, refl)
  ]

  pub instantiated-AllOfPreset :
      (forced : Bool) (m : Manager v)
      → AllOfPreset m
      → AllOfPreset (record m { state = try_instantiate_info v forced m.state })
  instantiated-AllOfPreset forced m all =
      stays-AllOfPreset m (record m { state = try_instantiate_info v forced m.state })
        (instantiate-Stays forced m.state) (λ u listed. listed) all
