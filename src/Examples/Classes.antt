-- ===== src/Examples/Classes.antt =====
-- Four classes: an object (0), an actor (1) and a component (3) under it, and a pawn (2) under the actor.
use Prim.Native.String.{count, [] as no_text, ◌∷◌ as ◌∷text◌}
use Prim.Native.String.count
use Prim.Native.Char.{Char}
use save_extension.Base.{
  ℕ, zero, suc, ◌≡◌, refl, sym, ap, subst, some_eq, ◌∙◌, ◌<◌, true, Option, none, some, String,
  List, [], ◌∷◌, ◌==◌, string_eq, nat_eq, arith, if◌then◌else◌, Bool-cases, inl, inr,
}
use save_extension.Base.Sets.{contains, eq_true, eq_self}
use save_extension.ClassFilter.{Reflection, Derives, direct, further}

abbrev pub super : ℕ → Option ℕ
super zero = none
super (suc zero) = some 0
super (suc (suc zero)) = some 1
super (suc (suc (suc zero))) = some 0
super (suc (suc (suc (suc c)))) = none

abbrev pub depth : ℕ → ℕ
depth zero = 0
depth (suc zero) = 1
depth (suc (suc zero)) = 2
depth (suc (suc (suc zero))) = 1
depth (suc (suc (suc (suc c)))) = 0

abbrev pub derived : ℕ → List ℕ
derived zero = 1 ∷ 2 ∷ 3 ∷ []
derived (suc zero) = 2 ∷ []
derived (suc (suc c)) = []

-- The path of class n is a text of n + 1 letters.
abbrev pub letters : ℕ → String
letters zero = "c"
letters (suc n) = "c" ∷text letters n

abbrev pub class_named : String → Option ℕ
class_named no_text = none
class_named (c ∷text s) = if letters (count s) == c ∷text s then some (count s) else none

pub super-depth : (c p : ℕ) → super c ≡ some p → depth p < depth c
super-depth zero p h = absurd (ground arith)
super-depth (suc zero) p h = subst (λ q. depth q < 1) (some_eq h) (omega arith)
super-depth (suc (suc zero)) p h = subst (λ q. depth q < 2) (some_eq h) (omega arith)
super-depth (suc (suc (suc zero))) p h = subst (λ q. depth q < 1) (some_eq h) (omega arith)
super-depth (suc (suc (suc (suc c)))) p h = absurd (ground arith)

pub count-letters : (n : ℕ) → count (letters n) ≡ suc n
count-letters zero = refl
count-letters (suc n) = count.cons (let c : Char = "c" in c) (letters n) ∙ ap suc (count-letters n)

pub class_named-letters : (c : ℕ) → class_named (letters c) ≡ some c
class_named-letters zero = refl
class_named-letters (suc n) = rw (count-letters n, eq_self (letters (suc n))) refl

pub letters-class_named : (p : String) (c : ℕ) → class_named p ≡ some c → letters c ≡ p
letters-class_named no_text c h = absurd (ground arith)
letters-class_named (x ∷text s) c h = elim (Bool-cases (letters (count s) == x ∷text s)) [
  | inl same ↦
      sym (ap letters (some_eq (rw same at h))) ∙ eq_true (letters (count s)) (x ∷text s) same
  | inr other ↦ (let missing : none ≡ some c = rw other at h in absurd (ground arith))
]

below : (c d : ℕ) → super d ≡ some c → contains (derived c) d ≡ true
unfolding contains
below c zero h = absurd (ground arith)
below c (suc zero) h = subst (λ q. contains (derived q) 1 ≡ true) (some_eq h) refl
below c (suc (suc zero)) h = subst (λ q. contains (derived q) 2 ≡ true) (some_eq h) refl
below c (suc (suc (suc zero))) h = subst (λ q. contains (derived q) 3 ≡ true) (some_eq h) refl
below c (suc (suc (suc (suc d)))) h = absurd (ground arith)

-- Only the actor is under a class and above one.
not_root : (c : ℕ) → contains (derived c) 0 ≡ true → ⊥
unfolding contains
not_root zero h = ground arith
not_root (suc zero) h = ground arith
not_root (suc (suc c)) h = ground arith

further_below :
    (c d e : ℕ) → super d ≡ some e → contains (derived c) e ≡ true → contains (derived c) d ≡ true
unfolding contains
further_below c zero e s h = absurd (ground arith)
further_below c (suc zero) e s h =
    absurd (not_root c (subst (λ q. contains (derived c) q ≡ true) (sym (some_eq s)) h))
further_below c (suc (suc (suc zero))) e s h =
    absurd (not_root c (subst (λ q. contains (derived c) q ≡ true) (sym (some_eq s)) h))
further_below zero (suc (suc zero)) e s h = refl
further_below (suc zero) (suc (suc zero)) e s h = refl
further_below (suc (suc c)) (suc (suc zero)) e s h = absurd (ground arith)
further_below c (suc (suc (suc (suc d)))) e s h = absurd (ground arith)

pub derived_listed : (c d : ℕ) → Derives super c d → contains (derived c) d ≡ true
derived_listed c d (direct h) = below c d h
derived_listed c d (further {e = e} h k) = further_below c d e h (derived_listed c e k)

pub listed_derived : (c d : ℕ) → contains (derived c) d ≡ true → Derives super c d
unfolding contains
listed_derived zero zero h = absurd (ground arith)
listed_derived zero (suc zero) h = direct refl
listed_derived zero (suc (suc zero)) h = further refl (direct refl)
listed_derived zero (suc (suc (suc zero))) h = direct refl
listed_derived zero (suc (suc (suc (suc d)))) h = absurd (ground arith)
listed_derived (suc zero) zero h = absurd (ground arith)
listed_derived (suc zero) (suc zero) h = absurd (ground arith)
listed_derived (suc zero) (suc (suc zero)) h = direct refl
listed_derived (suc zero) (suc (suc (suc d))) h = absurd (ground arith)
listed_derived (suc (suc c)) d h = absurd (ground arith)

abbrev pub classes : Reflection
classes = record {
  super = super;
  depth = depth;
  super-depth = super-depth;
  path_of = letters;
  resolve = class_named;
  resolve-path_of = class_named-letters;
  path_of-resolve = letters-class_named;
  derived = derived;
  derived-iff = λ c d. (listed_derived c d, derived_listed c d);
}
