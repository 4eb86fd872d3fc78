-- ===== src/Common/Sorting.antt =====
-- Go's `sort.Slice`, a parameter: a function that rearranges a list, and what the package documents
-- of it. The test of two positions is one of the two elements.
pub mod Insertion
use spotalis.Common.{◌≡◌, Bool, true, false, List}
use mathlib.Core.List.{Perm, Pairwise}

pub record SortLibrary : Type 1 where
  pub slice : {A : Type 0} → (A → A → Bool) → List A → List A

-- The requirement on the test: a strict order whose incomparability is transitive.
pub record IsStrictWeakOrder {ℓ} {A : Type ℓ} (less : A → A → Bool) : Type ℓ where
  pub irreflexive : (a : A) → less a a ≡ false
  pub transitive : (a b c : A) → less a b ≡ true → less b c ≡ true → less a c ≡ true
  pub co_transitive : (a b c : A) → less a b ≡ false → less b c ≡ false → less a c ≡ false

-- No element is less than one that stands before it.
abbrev pub IsOrdered {ℓ} : {A : Type ℓ} → (A → A → Bool) → List A → Type ℓ
IsOrdered less = Pairwise (λ a b. less b a ≡ false)

pub record IsSorting (sort : SortLibrary) : Type 1 where
  pub slice-Perm : {A : Type 0} (less : A → A → Bool) (xs : List A) → Perm (sort.slice less xs) xs
  pub slice-IsOrdered :
      {A : Type 0} (less : A → A → Bool) (xs : List A)
      → IsStrictWeakOrder less
      → IsOrdered less (sort.slice less xs)
