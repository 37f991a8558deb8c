-- ===== src/ClassFilter.antt =====
-- Source/SaveExtension/Public/Misc/ClassFilter.h and Private/Misc/ClassFilter.cpp: the filter that
-- decides by its class which actors and components are saved.
pub mod Bake
pub mod Merge
use save_extension.Base.{
  ℕ, zero, suc, ◌<◌, String, ◌≡◌, ◌↔◌, Bool, true, false, ◌&&◌, Option, none, some, List, [], ◌∷◌,
  ◌++◌, leb, length, if◌then◌else◌, nat_eq, string_eq,
}
use save_extension.Base.Sets.{contains, add, append, remove_all, difference}

-- `c` lies strictly above `d` in the class hierarchy.
pub data Derives (super : ℕ → Option ℕ) (c : ℕ) : ℕ → Type 0 where
  direct : {d : ℕ} → super d ≡ some c → Derives super c d
  further : {d e : ℕ} → super d ≡ some e → Derives super c e → Derives super c d

-- The engine's reflection, which the filter calls. A class is named by its address; a soft class
-- pointer is the path of a class.
pub record Reflection : Type 0 where
  -- GetSuperClass, null for the root
  pub super : ℕ → Option ℕ
  -- how many classes lie above a class: a chain of super classes ends
  pub depth : ℕ → ℕ
  pub super-depth : (c p : ℕ) → super c ≡ some p → depth p < depth c
  -- the soft pointer to a class, and TSoftClassPtr::Get, null where the class is not loaded
  pub path_of : ℕ → String
  pub resolve : String → Option ℕ
  pub resolve-path_of : (c : ℕ) → resolve (path_of c) ≡ some c
  pub path_of-resolve : (p : String) (c : ℕ) → resolve p ≡ some c → path_of c ≡ p
  -- GetDerivedClasses, which is recursive by default
  pub derived : ℕ → List ℕ
  pub derived-iff : (c d : ℕ) → (contains (derived c) d ≡ true) ↔ Derives super c d

-- FSEClassFilter
pub record ClassFilter : Type 0 where
  pub base_class : ℕ
  pub allowed_classes : List String
  pub ignored_classes : List String
  pub baked_allowed_classes : List ℕ

-- FSEClassFilter(UClass*)
unfoldable pub make_filter : ℕ → ClassFilter
make_filter base = record {
  base_class = base;
  allowed_classes = [];
  ignored_classes = [];
  baked_allowed_classes = [];
}

-- Merge
unfoldable pub merge : ClassFilter → ClassFilter → ClassFilter
merge f other = record f {
  allowed_classes =
      append (remove_all f.allowed_classes other.ignored_classes) other.allowed_classes;
  ignored_classes =
      append (remove_all f.ignored_classes other.allowed_classes) other.ignored_classes;
}

-- The first pass of BakeAllowedClasses: the allowed classes, and the classes derived from them.
first_pass : Reflection → List String → List ℕ → List ℕ → List ℕ × List ℕ
first_pass r [] baked children = (baked, children)
first_pass r (p ∷ ps) baked children = elim (r.resolve p) [
  | none ↦ first_pass r ps baked children
  | some c ↦ first_pass r ps (add baked c) (children ++ r.derived c)
]

-- The loop over the parent classes, with fuel. It says if an allowed parent comes first.
walk_parents : Reflection → List String → List ℕ → ℕ → Option ℕ → Bool
walk_parents r ignored baked zero parent = false
walk_parents r ignored baked (suc fuel) none = false
walk_parents r ignored baked (suc fuel) (some c) = elim (contains baked c) [
  | true ↦ true
  | false ↦ elim (contains ignored (r.path_of c)) [
    | true ↦ false
    | false ↦ walk_parents r ignored baked fuel (r.super c)
  ]
]

-- The second pass. A class at depth n has at most n parents, so the fuel is enough.
second_pass : Reflection → List String → List ℕ → List ℕ → List ℕ
second_pass r ignored [] baked = baked
second_pass r ignored (c ∷ cs) baked =
    second_pass r ignored cs
      (if walk_parents r ignored baked (suc (r.depth c)) (some c) then add baked c else baked)

-- BakeAllowedClasses
unfoldable pub bake_allowed_classes : Reflection → ClassFilter → ClassFilter
unfolding first_pass walk_parents second_pass
bake_allowed_classes r f =
    if leb (length f.allowed_classes) 0
    then record f { baked_allowed_classes = [] }
    else (let (baked, children) = first_pass r f.allowed_classes [] [] in
        record f { baked_allowed_classes = second_pass r f.ignored_classes children baked })

-- IsClassAllowed
unfoldable pub is_class_allowed : ClassFilter → ℕ → Bool
is_class_allowed f c = contains f.baked_allowed_classes c

-- operator==
unfoldable pub equals : ClassFilter → ClassFilter → Bool
equals f other =
    leb (length (difference f.allowed_classes other.allowed_classes)) 0
    && leb (length (difference f.ignored_classes other.ignored_classes)) 0
