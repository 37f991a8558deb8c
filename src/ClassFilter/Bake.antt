-- ===== src/ClassFilter/Bake.antt =====
-- What BakeAllowedClasses computes: the classes whose nearest listed parent is an allowed one.
use save_extension.Base.{
  ℕ, zero, suc, ◌<◌, String, ◌≡◌, refl, subst, ◌↔◌, ◌⊎◌, inl, inr, Bool, true, false, none, some,
  List, [], ◌∷◌, ◌++◌, arith, Bool-cases, Option-cases, ◌==◌, false≢true, if◌then◌else◌, leb,
  length, nat_eq, string_eq,
}
use save_extension.Base.Sets.{contains, add, contains-add, contains-append, eq_self, eq_true}
use save_extension.ClassFilter.{
  Derives, direct, further, Reflection, ClassFilter, first_pass, walk_parents, second_pass,
  bake_allowed_classes, is_class_allowed,
}

-- Going up from a class, itself included, an allowed class comes before any ignored one.
pub data Allows (r : Reflection) (f : ClassFilter) : ℕ → Type 0 where
  listed : {c : ℕ} → contains f.allowed_classes (r.path_of c) ≡ true → Allows r f c
  inherits :
      {c p : ℕ}
      → contains f.ignored_classes (r.path_of c) ≡ false
      → r.super c ≡ some p
      → Allows r f p
      → Allows r f c

module _ (r : Reflection) (f : ClassFilter) where
  -- Every baked class is one that the filter allows.
  abbrev Sound : List ℕ → Type 0
  Sound baked = (c : ℕ) → contains baked c ≡ true → Allows r f c

  -- Every class that the filter names is baked.
  abbrev Covers : List ℕ → Type 0
  Covers baked = (c : ℕ) → contains f.allowed_classes (r.path_of c) ≡ true → contains baked c ≡ true

  add-Sound : (baked : List ℕ) (b : ℕ) → Sound baked → Allows r f b → Sound (add baked b)
  add-Sound baked b s a c h = elim (Bool-cases (contains baked c)) [
    | inl old ↦ s c old
    | inr new ↦ subst (Allows r f) (eq_true b c (grind (arith, contains-add baked b c))) a
  ]

  walk_parents-none :
      (ignored : List String) (baked : List ℕ) (fuel : ℕ)
      → walk_parents r ignored baked fuel none ≡ false
  unfolding walk_parents
  walk_parents-none ignored baked zero = refl
  walk_parents-none ignored baked (suc fuel) = refl

  walk_parents-Allows :
      (baked : List ℕ) (fuel c : ℕ)
      → Sound baked
      → walk_parents r f.ignored_classes baked fuel (some c) ≡ true
      → Allows r f c
  unfolding walk_parents
  walk_parents-Allows baked zero c s h = absurd (false≢true h)
  walk_parents-Allows baked (suc fuel) c s h = elim (Bool-cases (contains baked c)) [
    | inl in_baked ↦ s c in_baked
    | inr out ↦ elim (Bool-cases (contains f.ignored_classes (r.path_of c))) [
      | inl ignored ↦ cc (rw (out, ignored, walk_parents) at h)
      | inr kept ↦ elim (Option-cases (r.super c)) [
        | inl root ↦ cc (
          walk_parents-none f.ignored_classes baked fuel,
          rw (out, kept, root, walk_parents) at h,
        )
        | inr (p, e) ↦
            inherits kept e
              (walk_parents-Allows baked fuel p s (rw (out, kept, e, walk_parents) at h))
      ]
    ]
  ]

  second_pass-Sound :
      (cs baked : List ℕ) → Sound baked → Sound (second_pass r f.ignored_classes cs baked)
  unfolding second_pass
  second_pass-Sound [] baked s = s
  second_pass-Sound (c ∷ cs) baked s =
      second_pass-Sound cs _
        (elim (Bool-cases (walk_parents r f.ignored_classes baked (suc (r.depth c)) (some c))) [
          | inl passes ↦ rw passes (add-Sound baked c s (walk_parents-Allows baked _ c s passes))
          | inr fails ↦ rw fails s
        ])

  -- The walk says yes, also on the fuel that the depth gives, and whatever else is baked by then.
  Allows-walk_parents :
      (baked : List ℕ) (fuel c : ℕ)
      → Covers baked
      → Allows r f c
      → r.depth c < fuel
      → walk_parents r f.ignored_classes baked fuel (some c) ≡ true
  unfolding walk_parents
  Allows-walk_parents baked zero c k a h = elim h [ ]
  Allows-walk_parents baked (suc fuel) c k (listed e) h = rw (k c e, walk_parents)
  Allows-walk_parents baked (suc fuel) c k (inherits {p = p} kept e a) h =
      elim (Bool-cases (contains baked c)) [
        | inl in_baked ↦ rw (in_baked, walk_parents)
        | inr out ↦
            rw (out, kept, e, walk_parents)
              (Allows-walk_parents baked fuel p k a (omega (arith, r.super-depth c p e)))
      ]

  -- What is baked stays baked.
  second_pass-grows :
      (cs baked : List ℕ) (c : ℕ)
      → contains baked c ≡ true
      → contains (second_pass r f.ignored_classes cs baked) c ≡ true
  unfolding second_pass
  second_pass-grows [] baked c h = h
  second_pass-grows (d ∷ cs) baked c h =
      second_pass-grows cs _ c
        (elim (Bool-cases (walk_parents r f.ignored_classes baked (suc (r.depth d)) (some d))) [
          | inl passes ↦ rw passes (ground (arith, contains-add baked d c))
          | inr fails ↦ rw fails h
        ])

  Covers-add :
      (baked : List ℕ) (b : Bool) (d : ℕ) → Covers baked → Covers (if b then add baked d else baked)
  Covers-add baked true d k c h = ground (arith, contains-add baked d c, k c h)
  Covers-add baked false d k c h = k c h

  second_pass-Allows :
      (cs baked : List ℕ) (c : ℕ)
      → Covers baked
      → Allows r f c
      → contains cs c ≡ true
      → contains (second_pass r f.ignored_classes cs baked) c ≡ true
  unfolding second_pass contains
  second_pass-Allows [] baked c k a h = absurd (false≢true h)
  second_pass-Allows (d ∷ cs) baked c k a h = elim (Bool-cases (d == c)) [
    | inl here ↦ second_pass-grows cs _ c (
        rw (eq_true d c here, Allows-walk_parents baked (suc (r.depth c)) c k a (omega arith))
          (ground (arith, contains-add baked c c, eq_self c)))
    | inr later ↦ second_pass-Allows cs _ c (Covers-add baked _ d k) a (rw later at h)
  ]

  -- The first pass, from any start: it adds the named classes and all that derive from them.
  first_pass-Sound :
      (ps : List String) (baked children : List ℕ)
      → ((p : String) → contains ps p ≡ true → contains f.allowed_classes p ≡ true)
      → Sound baked
      → Sound (first_pass r ps baked children).0
  unfolding first_pass contains
  first_pass-Sound [] baked children sub s = s
  first_pass-Sound (p ∷ ps) baked children sub s = elim (Option-cases (r.resolve p)) [
    | inl unloaded ↦
        rw (unloaded, first_pass)
          (first_pass-Sound ps baked children (λ q h. sub q (ground arith)) s)
    | inr (c, e) ↦
        rw (e, first_pass)
          (first_pass-Sound ps (add baked c) (children ++ r.derived c) (λ q h. sub q (ground arith))
            (add-Sound baked c s
              (listed (rw (r.path_of-resolve p c e) (sub p (ground (arith, eq_self p)))))))
  ]

  first_pass-grows :
      (ps : List String) (baked children : List ℕ) (c : ℕ)
      → (contains baked c ≡ true → contains (first_pass r ps baked children).0 c ≡ true)
        × (contains children c ≡ true → contains (first_pass r ps baked children).1 c ≡ true)
  unfolding first_pass
  first_pass-grows [] baked children c = (λ h. h, λ h. h)
  first_pass-grows (p ∷ ps) baked children c = elim (Option-cases (r.resolve p)) [
    | inl unloaded ↦ rw (unloaded, first_pass) (first_pass-grows ps baked children c)
    | inr (d, e) ↦
        rw (e, first_pass)
          (let (base, kids) = first_pass-grows ps (add baked d) (children ++ r.derived d) c in
            (
              λ h. base (ground (arith, contains-add baked d c)),
              λ h. kids (ground (arith, contains-append children (r.derived d) c)),
            ))
  ]

  first_pass-listed :
      (ps : List String) (baked children : List ℕ) (c : ℕ)
      → contains ps (r.path_of c) ≡ true
      → (contains (first_pass r ps baked children).0 c ≡ true)
        × ((d : ℕ) → Derives r.super c d → contains (first_pass r ps baked children).1 d ≡ true)
  unfolding first_pass contains
  first_pass-listed [] baked children c h = absurd (false≢true h)
  first_pass-listed (p ∷ ps) baked children c h = elim (Bool-cases (p == r.path_of c)) [
    | inl here ↦
        rw (eq_true p (r.path_of c) here, r.resolve-path_of c, first_pass)
          (
            (first_pass-grows ps _ _ c).0 (ground (arith, contains-add baked c c, eq_self c)),
            λ d a.
                (first_pass-grows ps _ _ d).1 (
                  ground
                    (arith, contains-append children (r.derived c) d, (r.derived-iff c d).1 a)),
          )
    | inr later ↦
        let rest = λ (b k : List ℕ). first_pass-listed ps b k c (rw later at h) in
        elim (Option-cases (r.resolve p)) [
          | inl unloaded ↦ rw (unloaded, first_pass) (rest baked children)
          | inr (d, e) ↦ rw (e, first_pass) (rest (add baked d) (children ++ r.derived d))
        ]
  ]

  -- A class that is allowed is named itself, or derives from one that is named.
  Allows-source :
      {c : ℕ}
      → Allows r f c
      → (a : ℕ) × (contains f.allowed_classes (r.path_of a) ≡ true)
        × ((a ≡ c) ⊎ Derives r.super a c)
  Allows-source {c} (listed e) = (c, e, inl refl)
  Allows-source {c} (inherits {p = p} kept e a) =
      let (s, named, way) = Allows-source a in
      (s, named, inr (elim way [ inl same ↦ direct (rw same e) | inr above ↦ further e above ]))

  bake_both :
      (c : ℕ)
      → let (baked, children) = first_pass r f.allowed_classes [] [] in
        (contains (second_pass r f.ignored_classes children baked) c ≡ true) ↔ Allows r f c
  unfolding contains
  bake_both c = (
    second_pass-Sound _ _
        (first_pass-Sound f.allowed_classes [] [] (λ p h. h) (λ d h. absurd (false≢true h))) c,
    λ a.
        let (s, named, way) = Allows-source a in
        elim way [
          | inl same ↦ second_pass-grows _ _ c (
              subst (λ d. contains (first_pass r f.allowed_classes [] []).0 d ≡ true) same
                (first_pass-listed f.allowed_classes [] [] s named).0)
          | inr above ↦
              second_pass-Allows _ _ c (λ d h. (first_pass-listed f.allowed_classes [] [] d h).0) a
                ((first_pass-listed f.allowed_classes [] [] s named).1 c above)
        ],
  )

List-cases : (ps : List String) → (ps ≡ []) ⊎ (leb (length ps) 0 ≡ false)
List-cases [] = inl refl
List-cases (p ∷ ps) = inr (ground arith)

-- After BakeAllowedClasses a class passes the filter exactly when, going up its parent classes from
-- the class itself, one that the filter allows comes before any that it ignores. The order of the
-- lists and of GetDerivedClasses does not count.
pub is_class_allowed-bake :
    (r : Reflection) (f : ClassFilter) (c : ℕ)
    → (is_class_allowed (bake_allowed_classes r f) c ≡ true) ↔ Allows r f c
unfolding is_class_allowed bake_allowed_classes contains
is_class_allowed-bake r f c = elim (List-cases f.allowed_classes) [
  | inl empty ↦ (
    λ h. absurd (false≢true (rw (empty, is_class_allowed) at h)),
    λ a. let (s, named, way) = Allows-source r f a in absurd (false≢true (rw empty at named)),
  )
  | inr some_named ↦ rw (some_named) (bake_both r f c)
]
