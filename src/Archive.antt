-- ===== src/Archive.antt =====
-- What the plugin relies on of the engine's archives: `Ar << x` for a primitive value. A memory
-- archive is its bytes; a reader gives what a writer wrote, and goes on behind it.
use save_extension.Base.{
  ℕ, zero, suc, ◌≡◌, refl, Option, none, some, List, [], ◌∷◌, ◌++◌, append_assoc, length, map,
}

abbrev pub Bytes : Type 0
Bytes = List ℕ

-- `Ar << x` while saving, and while loading; a reader that finds no value has an error.
pub record Codec (A : Type 0) : Type 0 where
  pub put : A → Bytes
  pub get : Bytes → Option (A × Bytes)
  pub get-put : (a : A) (rest : Bytes) → get (put a ++ rest) ≡ some (a, rest)

infixl 5 ◌>>=◌
abbrev pub ◌>>=◌ {ℓ κ} : {A : Type ℓ} {B : Type κ} → Option A → (A → Option B) → Option B
none >>= f = none
some a >>= f = f a

-- The operator of TArray, which the engine writes over that of the elements: the count, then each.
module _ {A : Type 0} (put : A → Bytes) where
  pub put_each : List A → Bytes
  put_each [] = []
  put_each (x ∷ xs) = put x ++ put_each xs

  unfoldable pub put_array : Codec ℕ → List A → Bytes
  put_array count xs = count.put (length xs) ++ put_each xs

module _ {A : Type 0} (get : Bytes → Option (A × Bytes)) where
  pub get_each : ℕ → Bytes → Option (List A × Bytes)
  get_each zero bytes = some ([], bytes)
  get_each (suc n) bytes = do
    (x, behind) ← get bytes
    (xs, rest) ← get_each n behind
    some (x ∷ xs, rest)

  unfoldable pub get_array : Codec ℕ → Bytes → Option (List A × Bytes)
  get_array count bytes = do (n, behind) ← count.get bytes; get_each n behind

-- `P` holds of every element.
abbrev pub Each : {A : Type 0} → (A → Type 0) → List A → Type 0
Each P [] = Unit
Each P (x ∷ xs) = P x × Each P xs

module _ {A : Type 0} (count : Codec ℕ) (put : A → Bytes) (get : Bytes → Option (A × Bytes))
    (stored : A → A) (P : A → Type 0)
    (get-put : (a : A) (rest : Bytes) → P a → get (put a ++ rest) ≡ some (stored a, rest)) where
  get_each-put_each :
      (xs : List A) (rest : Bytes)
      → Each P xs
      → get_each get (length xs) (put_each put xs ++ rest) ≡ some (map stored xs, rest)
  unfolding get_each put_each
  get_each-put_each [] rest h = refl
  get_each-put_each (x ∷ xs) rest h =
      rw (append_assoc, get-put x _ h.0, get_each-put_each xs rest h.1)

  pub get_array-put_array :
      (xs : List A) (rest : Bytes)
      → Each P xs
      → get_array get count (put_array put count xs ++ rest) ≡ some (map stored xs, rest)
  unfolding get_array put_array
  get_array-put_array xs rest h =
      rw (append_assoc, count.get-put (length xs)) (get_each-put_each xs rest h)
