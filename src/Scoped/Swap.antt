-- ===== src/Scoped/Swap.antt =====
-- What RemoveAtSwap does to a sum over a list and to a predicate on it.
use save_extension.Base.{ℕ, ◌+◌, ◌≡◌, refl, List, [], ◌∷◌, ◌++◌, length, arith}
use save_extension.Archive.{Each}
use save_extension.Loader.Prepare.{put_second, last_first, remove_at_swap}

module _ {A : Type 0} where
  -- the sum of a weight over a list
  unfoldable pub total : (A → ℕ) → List A → ℕ
  total w [] = 0
  total w (x ∷ xs) = w x + total w xs

  pub total-append : (w : A → ℕ) (xs ys : List A) → total w (xs ++ ys) ≡ total w xs + total w ys
  unfolding total
  total-append w [] ys = omega arith
  total-append w (x ∷ xs) ys = omega (arith, total-append w xs ys)

  total-put_second :
      (w : A → ℕ) (x : A) (xs : List A) → total w (put_second x xs) ≡ w x + total w xs
  unfolding total put_second
  total-put_second w x [] = refl
  total-put_second w x (y ∷ ys) = omega arith

  total-last_first :
      (w : A → ℕ) (x : A) (xs : List A) → total w (last_first x xs) ≡ w x + total w xs
  unfolding total last_first
  total-last_first w x [] = refl
  total-last_first w x (y ∷ ys) =
      omega (arith, total-put_second w x (last_first y ys), total-last_first w y ys)

  pub total-remove_at_swap :
      (w : A → ℕ) (x : A) (xs : List A) → total w (remove_at_swap 0 (x ∷ xs)) ≡ total w xs
  unfolding total remove_at_swap
  total-remove_at_swap w x [] = refl
  total-remove_at_swap w x (y ∷ ys) = total-last_first w y ys

  pub Each-append : (P : A → Type 0) (xs ys : List A) → Each P xs → Each P ys → Each P (xs ++ ys)
  Each-append P [] ys h k = k
  Each-append P (x ∷ xs) ys (h, hs) k = (h, Each-append P xs ys hs k)

  Each-put_second :
      (P : A → Type 0) (x : A) (xs : List A) → P x → Each P xs → Each P (put_second x xs)
  unfolding put_second
  Each-put_second P x [] h k = (h, tt)
  Each-put_second P x (y ∷ ys) h (k, ks) = (k, (h, ks))

  Each-last_first :
      (P : A → Type 0) (x : A) (xs : List A) → P x → Each P xs → Each P (last_first x xs)
  unfolding last_first
  Each-last_first P x [] h k = (h, tt)
  Each-last_first P x (y ∷ ys) h (k, ks) =
      Each-put_second P x (last_first y ys) h (Each-last_first P y ys k ks)

  pub Each-remove_at_swap :
      (P : A → Type 0) (x : A) (xs : List A) → Each P xs → Each P (remove_at_swap 0 (x ∷ xs))
  unfolding remove_at_swap
  Each-remove_at_swap P x [] h = tt
  Each-remove_at_swap P x (y ∷ ys) (h, hs) = Each-last_first P y ys h hs

  pub length-total : (xs : List A) → length xs ≡ total (λ x. 1) xs
  unfolding total
  length-total [] = refl
  length-total (x ∷ xs) = omega (arith, length-total xs)
