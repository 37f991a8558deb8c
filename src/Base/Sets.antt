-- ===== src/Base/Sets.antt =====
-- The engine's containers as lists without order of their own: `TSet` and `TArray::AddUnique`.
use mathlib.Core.Path.{◌≡◌, refl}
use mathlib.Core.Bool.{Bool, true, false, not, ◌&&◌, ◌||◌}
use mathlib.Core.List.{List, [], ◌∷◌, ◌++◌}
use native.Mathlib.Omega.{arith}
use save_extension.Base.Tests.{EqualTo, ◌==◌, if◌then◌else◌}

module _ {ℓ} {A : Type ℓ} ⦃e : EqualTo A⦄ where
  -- Contains
  unfoldable pub contains : List A → A → Bool
  contains [] a = false
  contains (x ∷ xs) a = x == a || contains xs a

  -- Add, AddUnique: an element that is present is not added again.
  unfoldable pub add : List A → A → List A
  add xs a = if contains xs a then xs else (xs ++ a ∷ [])

  -- Remove: no element that equals `a` is left.
  unfoldable pub remove : List A → A → List A
  remove [] a = []
  remove (x ∷ xs) a = let rest = remove xs a in if x == a then rest else (x ∷ rest)

  -- Append: every element of the second is added to the first.
  unfoldable pub append : List A → List A → List A
  append xs [] = xs
  append xs (y ∷ ys) = append (add xs y) ys

  pub remove_absent : (xs : List A) (a : A) → contains xs a ≡ false → remove xs a ≡ xs
  unfolding contains remove
  remove_absent [] a h = refl
  remove_absent (x ∷ xs) a h = ground (arith, remove_absent xs a)

  -- Remove, once for each element of the second.
  unfoldable pub remove_all : List A → List A → List A
  remove_all xs [] = xs
  remove_all xs (y ∷ ys) = remove_all (remove xs y) ys

  -- Difference: the elements of the first that the second lacks.
  unfoldable pub difference : List A → List A → List A
  difference [] ys = []
  difference (x ∷ xs) ys = let rest = difference xs ys in if contains ys x then rest else (x ∷ rest)

  pub eq_true : (a b : A) → a == b ≡ true → a ≡ b
  eq_true a b = (e.same_iff a b).0

  pub eq_self : (a : A) → (a == a) ≡ true
  eq_self a = (e.same_iff a a).1 refl

  pub contains-append :
      (xs ys : List A) (a : A) → contains (xs ++ ys) a ≡ (contains xs a || contains ys a)
  unfolding contains
  contains-append [] ys a = refl
  contains-append (x ∷ xs) ys a = ground (arith, contains-append xs ys a)

  pub contains-add : (xs : List A) (b a : A) → contains (add xs b) a ≡ (contains xs a || b == a)
  unfolding contains add
  contains-add xs b a = ground (arith, contains-append xs (b ∷ []) a, e.same_iff b a)

  pub contains-remove :
      (xs : List A) (b a : A) → contains (remove xs b) a ≡ (not (b == a) && contains xs a)
  unfolding contains remove
  contains-remove [] b a = ground arith
  contains-remove (x ∷ xs) b a =
      ground (arith, contains-remove xs b a, e.same_iff x b, e.same_iff x a, e.same_iff b a)

  pub contains-append_set :
      (xs ys : List A) (a : A) → contains (append xs ys) a ≡ (contains xs a || contains ys a)
  unfolding append contains
  contains-append_set xs [] a = ground arith
  contains-append_set xs (y ∷ ys) a =
      ground (arith, contains-append_set (add xs y) ys a, contains-add xs y a)

  pub contains-remove_all :
      (xs ys : List A) (a : A)
      → contains (remove_all xs ys) a ≡ (contains xs a && not (contains ys a))
  unfolding remove_all contains
  contains-remove_all xs [] a = ground arith
  contains-remove_all xs (y ∷ ys) a =
      ground (arith, contains-remove_all (remove xs y) ys a, contains-remove xs y a)
