-- ===== src/ClassFilter/Merge.antt =====
-- What Merge and operator== say of the sets of a filter.
use save_extension.Base.{
  ◌≡◌, ◌↔◌, true, false, not, ◌&&◌, ◌||◌, String, List, [], ◌∷◌, arith, Bool-cases, ◌==◌, length,
  leb, leb→le, string_eq, false≢true, inl, inr, if◌then◌else◌,
}
use save_extension.Base.Sets.{
  contains, difference, contains-append_set, contains-remove_all, eq_self, eq_true,
}
use save_extension.ClassFilter.{ClassFilter, merge, equals}

-- No class is both allowed and ignored.
abbrev pub IsConsistent : ClassFilter → Type 0
IsConsistent f =
    (p : String) → contains f.allowed_classes p ≡ true → contains f.ignored_classes p ≡ false

-- What a filter says of a path itself.
pub data Verdict : Type 0 where
  allowed ignored unlisted : Verdict

unfoldable pub verdict : ClassFilter → String → Verdict
verdict f p =
    if contains f.allowed_classes p
    then allowed
    else if contains f.ignored_classes p
    then ignored
    else unlisted

-- Merging a consistent filter into a consistent one gives a consistent one, which says of every class
-- what the other filter says, and where that is silent what the first one said.
pub merge-verdict :
    (f other : ClassFilter)
    → IsConsistent f
    → IsConsistent other
    → IsConsistent (merge f other)
      × ((p : String)
          → verdict (merge f other) p ≡ elim (verdict other p) [
            | allowed ↦ allowed
            | ignored ↦ ignored
            | unlisted ↦ verdict f p
          ])
unfolding merge verdict
merge-verdict f other c d =
    (λ p h. ground (arith, c p, d p, laws p), λ p. ground (arith, c p, d p, laws p))
  where
    laws :
        (p : String)
        → (contains (merge f other).allowed_classes p ≡ (
            (contains f.allowed_classes p && not (contains other.ignored_classes p))
            || contains other.allowed_classes p))
          × (contains (merge f other).ignored_classes p ≡ (
              (contains f.ignored_classes p && not (contains other.allowed_classes p))
              || contains other.ignored_classes p))
    laws p = (
      rw contains-append_set (rw contains-remove_all),
      rw contains-append_set (rw contains-remove_all),
    )

-- The elements of a difference.
difference-empty_iff :
    (xs ys : List String)
    → (leb (length (difference xs ys)) 0 ≡ true)
      ↔ ((p : String) → contains xs p ≡ true → contains ys p ≡ true)
unfolding difference contains
difference-empty_iff [] ys = (λ e p h. absurd (false≢true h), λ h. ground arith)
difference-empty_iff (x ∷ xs) ys = elim (Bool-cases (contains ys x)) [
  | inl in_ys ↦
      rw (in_ys, difference)
        (
          λ e p h. elim (Bool-cases (x == p)) [
            | inl same ↦ rw (← eq_true x p same) in_ys
            | inr other ↦ (difference-empty_iff xs ys).0 e p (rw other at h)
          ],
          λ h. (difference-empty_iff xs ys).1 (λ p e. h p (ground arith)),
        )
  | inr out ↦ (
    λ e p h. absurd (omega (arith, leb→le _ 0 (rw (out, difference) at e))),
    λ h. cc (out, h x (ground (arith, eq_self x))),
  )
]

-- operator== holds exactly when the other filter allows every class that this one allows, and ignores
-- every class that this one ignores.
pub equals_iff :
    (f other : ClassFilter)
    → (equals f other ≡ true) ↔ (
        ((p : String)
          → contains f.allowed_classes p ≡ true
          → contains other.allowed_classes p ≡ true)
        × ((p : String)
            → contains f.ignored_classes p ≡ true
            → contains other.ignored_classes p ≡ true))
unfolding equals
equals_iff f other = (
  λ e. (
    (difference-empty_iff f.allowed_classes other.allowed_classes).0 (ground arith),
    (difference-empty_iff f.ignored_classes other.ignored_classes).0 (ground arith),
  ),
  λ h. ground (
    arith,
    (difference-empty_iff f.allowed_classes other.allowed_classes).1 h.0,
    (difference-empty_iff f.ignored_classes other.ignored_classes).1 h.1,
  ),
)
