-- ===== src/Examples/Disks.antt =====
-- A disk as a function from paths to the bytes of files, and objects that are a class and a number.
use Prim.Native.String.{count}
use save_extension.Base.{
  ℕ, ◌≡◌, ◌≢◌, refl, sym, ap, ◌∙◌, Bool, true, false, Option, none, some, String, List, [], ◌∷◌,
  ◌==◌, string_eq, nat_eq, if◌then◌else◌, arith, eq_iff, Bool-cases, Option-cases, inl, inr,
}
use save_extension.Base.Sets.{eq_self, eq_true}
use save_extension.Archive.{Bytes}
use save_extension.Disk.{FileManager, Objects}
use save_extension.Disk.Delete.{CanDelete}
use save_extension.Examples.Classes.{letters, class_named, class_named-letters, count-letters}

abbrev pub Disk : Type 0
Disk = String → Option Bytes

abbrev pub empty_disk : Disk
empty_disk p = none

abbrev pub put_file : String → Bytes → Disk → Disk
put_file p bytes w q = if p == q then some bytes else w q

abbrev pub drop_file : String → Disk → Disk
drop_file p w q = if p == q then none else w q

abbrev pub has_file : String → Disk → Bool
has_file p w = elim (w p) [ none ↦ false | some _ ↦ true ]

pub stored_here : (p : String) (bytes : Bytes) (w : Disk) → put_file p bytes w p ≡ some bytes
stored_here p bytes w = rw (eq_self p) refl

pub other_file : (p q : String) → p ≢ q → (p == q) ≡ false
other_file p q ne = ground (arith, eq_iff p q)

pub absent_dropped : (p : String) (w : Disk) (q : String) → w p ≡ none → drop_file p w q ≡ w q
absent_dropped p w q e = elim (Bool-cases (p == q)) [
  | inl same ↦ rw same (sym (ap w (sym (eq_true p q same)) ∙ e))
  | inr other ↦ rw other refl
]

pub missing : (p : String) (w : Disk) → has_file p w ≡ false → w p ≡ none
missing p w h = elim (Option-cases (w p)) [
  | inl e ↦ e
  | inr (bytes, e) ↦ absurd (let b : true ≡ false = rw (e, has_file) at h in ground arith)
]

-- Three files of the save folder, of which one is of a slot.
abbrev pub listing : List (String × Bool)
listing = ("one.sav", false) ∷ ("one.png", false) ∷ ("old", true) ∷ []

abbrev pub split_path : String → String × String × String
split_path p =
    if p == "one.sav"
    then ("", "one", "sav")
    else if p == "one.png"
    then ("", "one", "png")
    else ("", p, "")

abbrev pub files : FileManager Disk
files = record {
  saved_dir = "Saved/";
  contents = λ p w. w p;
  can_create = λ p w. true;
  store = put_file;
  has_error = λ p bytes w. false;
  contents-store = λ p bytes w _. stored_here p bytes w;
  contents-store_ne = λ p q bytes w ne. ap (λ b. if b then some bytes else w q) (other_file p q ne);
  delete = drop_file;
  deletes = has_file;
  contents-delete = λ p w _. ap (λ b. if b then none else w p) (eq_self p);
  delete_fails = λ p w h. λ i q. absent_dropped p w q (missing p w h) i;
  contents-delete_ne = λ p q w ne. ap (λ b. if b then none else w q) (other_file p q ne);
  entries = λ folder w. listing;
  split = split_path;
}

pub files-CanDelete : CanDelete files
files-CanDelete p w there = elim (Option-cases (w p)) [
  | inl e ↦ absurd (there e)
  | inr (bytes, e) ↦ rw (e, has_file) refl
]

abbrev pub Thing : Type 0
Thing = ℕ × ℕ

abbrev pub read_thing : Bytes → Thing → Thing
read_thing [] (c, old) = (c, old)
read_thing (n ∷ _) (c, old) = (c, n)

pub things_back : (o n : Thing) → n.0 ≡ o.0 → read_thing (o.1 ∷ []) n ≡ o
things_back (c, x) (d, y) e = ap (λ k. (k, x)) e

pub letters_filled : (n : ℕ) → letters n ≢ ""
letters_filled n e =
    let size : count (letters n) ≡ 0 = ap count e in absurd (omega (arith, size, count-letters n))

-- Class 1 is the info of a slot and class 2 its data.
abbrev pub things : Objects
things = record {
  Obj = Thing;
  class_of = λ o. o.0;
  class_path = λ o. letters o.0;
  class_path_text = λ o. letters_filled o.0;
  find_class = class_named;
  load_class = class_named;
  find-class_path = λ o. class_named-letters o.0;
  new_object = λ c. (c, 0);
  class-new = λ c. refl;
  write_object = λ o. o.1 ∷ [];
  write_some = λ o. omega arith;
  read_object = read_thing;
  stored = λ o. o;
  read-write_object = things_back;
  is_info = λ o. o.0 == 1;
  is_data = λ o. o.0 == 2;
  is_info-stored = λ o. refl;
  is_data-stored = λ o. refl;
}
