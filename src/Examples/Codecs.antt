-- ===== src/Examples/Codecs.antt =====
-- Archives that are lists of numbers, to run the development on.
use Prim.Native.Nat.{compare, Ordering}
use Prim.Native.Char.{Char, char, code, IsLt}
use Prim.Native.String.{[] as no_text, ◌∷◌ as ◌∷text◌}
use save_extension.Base.{
  ℕ, zero, suc, ◌≡◌, refl, Bool, true, false, Option, none, some, String, List, [], ◌∷◌, ◌++◌,
  append_assoc, length,
}
use save_extension.Base.Int.{ℤ, pos, negsuc}
use save_extension.Archive.{Bytes, Codec, ◌>>=◌}

abbrev get_nat : Bytes → Option (ℕ × Bytes)
get_nat [] = none
get_nat (n ∷ rest) = some (n, rest)

abbrev pub nat_codec : Codec ℕ
nat_codec = record { put = λ n. n ∷ []; get = get_nat; get-put = λ n rest. refl }

abbrev put_bool : Bool → Bytes
put_bool true = 1 ∷ []
put_bool false = 0 ∷ []

abbrev get_bool : Bytes → Option (Bool × Bytes)
get_bool [] = none
get_bool (zero ∷ rest) = some (false, rest)
get_bool (suc _ ∷ rest) = some (true, rest)

pub bool_back : (b : Bool) (rest : Bytes) → get_bool (put_bool b ++ rest) ≡ some (b, rest)
bool_back true rest = refl
bool_back false rest = refl

abbrev pub bool_codec : Codec Bool
bool_codec = record { put = put_bool; get = get_bool; get-put = bool_back }

abbrev put_int : ℤ → Bytes
put_int (pos n) = 0 ∷ n ∷ []
put_int (negsuc n) = 1 ∷ n ∷ []

abbrev get_int : Bytes → Option (ℤ × Bytes)
get_int [] = none
get_int (s ∷ []) = none
get_int (zero ∷ n ∷ rest) = some (pos n, rest)
get_int (suc _ ∷ n ∷ rest) = some (negsuc n, rest)

pub int_back : (x : ℤ) (rest : Bytes) → get_int (put_int x ++ rest) ≡ some (x, rest)
int_back (pos n) rest = refl
int_back (negsuc n) rest = refl

abbrev pub int_codec : Codec ℤ
int_codec = record { put = put_int; get = get_int; get-put = int_back }

module _ {A : Type 0} (c : Codec A) where
  abbrev put_all : List A → Bytes
  put_all [] = []
  put_all (x ∷ xs) = c.put x ++ put_all xs

  abbrev get_all : ℕ → Bytes → Option (List A × Bytes)
  get_all zero bytes = some ([], bytes)
  get_all (suc n) bytes = do
    (x, behind) ← c.get bytes
    (xs, rest) ← get_all n behind
    some (x ∷ xs, rest)

  pub all_back :
      (xs : List A) (rest : Bytes) → get_all (length xs) (put_all xs ++ rest) ≡ some (xs, rest)
  all_back [] rest = refl
  all_back (x ∷ xs) rest =
      rw
        (
          append_assoc (c.put x) (put_all xs) rest,
          c.get-put x (put_all xs ++ rest),
          all_back xs rest,
        )
        refl

  abbrev put_list : List A → Bytes
  put_list xs = length xs ∷ put_all xs

  abbrev get_list : Bytes → Option (List A × Bytes)
  get_list [] = none
  get_list (n ∷ rest) = get_all n rest

  abbrev pub list_codec : Codec (List A)
  list_codec = record { put = put_list; get = get_list; get-put = all_back }

  abbrev put_option : Option A → Bytes
  put_option none = 0 ∷ []
  put_option (some x) = 1 ∷ c.put x

  abbrev get_option : Bytes → Option (Option A × Bytes)
  get_option [] = none
  get_option (zero ∷ rest) = some (none, rest)
  get_option (suc _ ∷ rest) = do (x, behind) ← c.get rest; some (some x, behind)

  pub option_back :
      (o : Option A) (rest : Bytes) → get_option (put_option o ++ rest) ≡ some (o, rest)
  option_back none rest = refl
  option_back (some x) rest = rw (c.get-put x rest) refl

  abbrev pub option_codec : Codec (Option A)
  option_codec = record { put = put_option; get = get_option; get-put = option_back }

module _ {A : Type 0} {B : Type 0} (c : Codec A) (d : Codec B) where
  abbrev put_pair : A × B → Bytes
  put_pair (a, b) = c.put a ++ d.put b

  abbrev get_pair : Bytes → Option ((A × B) × Bytes)
  get_pair bytes = do (a, behind) ← c.get bytes; (b, rest) ← d.get behind; some ((a, b), rest)

  pub pair_back : (p : A × B) (rest : Bytes) → get_pair (put_pair p ++ rest) ≡ some (p, rest)
  pair_back (a, b) rest =
      rw (append_assoc (c.put a) (d.put b) rest, c.get-put a (d.put b ++ rest), d.get-put b rest)
        refl

  abbrev pub pair_codec : Codec (A × B)
  pair_codec = record { put = put_pair; get = get_pair; get-put = pair_back }

-- Texts are written as the numbers of their characters. A number is a character's if it is a scalar
-- value, as these two tests say.
abbrev BothLess : Ordering → Ordering → Type 0
BothLess Ordering.lt o = IsLt o
BothLess Ordering.eq _ = ⊥
BothLess Ordering.gt _ = ⊥

abbrev IsCharCode : Ordering → Ordering → Ordering → Type 0
IsCharCode Ordering.lt _ _ = Unit
IsCharCode Ordering.eq o p = BothLess o p
IsCharCode Ordering.gt o p = BothLess o p

abbrev if_less : (o : Ordering) → Option (IsLt o)
if_less Ordering.lt = some tt
if_less Ordering.eq = none
if_less Ordering.gt = none

abbrev if_both : (o p : Ordering) → Option (BothLess o p)
if_both Ordering.lt p = if_less p
if_both Ordering.eq _ = none
if_both Ordering.gt _ = none

abbrev if_scalar : (o p q : Ordering) → Option (IsCharCode o p q)
if_scalar Ordering.lt _ _ = some tt
if_scalar Ordering.eq p q = if_both p q
if_scalar Ordering.gt p q = if_both p q

less_back : (o : Ordering) (x : IsLt o) → if_less o ≡ some x
less_back Ordering.lt x = refl
less_back Ordering.eq x = absurd x
less_back Ordering.gt x = absurd x

both_back : (o p : Ordering) (x : BothLess o p) → if_both o p ≡ some x
both_back Ordering.lt p x = less_back p x
both_back Ordering.eq p x = absurd x
both_back Ordering.gt p x = absurd x

scalar_back : (o p q : Ordering) (x : IsCharCode o p q) → if_scalar o p q ≡ some x
scalar_back Ordering.lt p q x = refl
scalar_back Ordering.eq p q x = both_back p q x
scalar_back Ordering.gt p q x = both_back p q x

abbrev of_code : ℕ → Option Char
of_code n = do
  p ← if_scalar (compare n 55296) (compare 57343 n) (compare n 1114112)
  some (char n p)

code_back : (c : Char) → of_code (code c) ≡ some c
code_back (char n p) =
    rw (scalar_back (compare n 55296) (compare 57343 n) (compare n 1114112) p) refl

abbrev codes : String → List ℕ
codes no_text = []
codes (c ∷text s) = code c ∷ codes s

abbrev get_text_of : ℕ → Bytes → Option (String × Bytes)
get_text_of zero bytes = some (no_text, bytes)
get_text_of (suc n) [] = none
get_text_of (suc n) (x ∷ bytes) = do
  c ← of_code x
  (s, rest) ← get_text_of n bytes
  some (c ∷text s, rest)

pub text_of_back :
    (s : String) (rest : Bytes) → get_text_of (length (codes s)) (codes s ++ rest) ≡ some (s, rest)
text_of_back no_text rest = refl
text_of_back (c ∷text s) rest = rw (code_back c, text_of_back s rest) refl

abbrev get_text : Bytes → Option (String × Bytes)
get_text [] = none
get_text (n ∷ rest) = get_text_of n rest

abbrev pub text_codec : Codec String
text_codec = record {
  put = λ s. length (codes s) ∷ codes s;
  get = get_text;
  get-put = text_of_back;
}
