-- ===== src/Common/Sorting/Insertion.antt =====
-- A sort that has what `sort.Slice` documents: by insertion.
use spotalis.Common.{
  ◌≡◌, inl, inr, Bool, true, false, List, [], ◌∷◌, if◌then◌else◌, Bool-cases, subst, sym,
}
use mathlib.Core.List.{Mem, Perm, Pairwise, Pairwise-singleton, eq-or-mem_of_mem-cons}
use mathlib.Core.List.Perm
use mathlib.Core.Logic.Or
use mathlib.Core.Bool.{Bool-set}
use spotalis.Common.Sorting.{SortLibrary, IsStrictWeakOrder, IsOrdered, IsSorting}

module _ {A : Type 0} (less : A → A → Bool) where
  place : A → List A → List A
  place x [] = x ∷ []
  place x (y ∷ ys) = let rest = place x ys in if less y x then y ∷ rest else x ∷ (y ∷ ys)

  unfoldable pub arrange : List A → List A
  unfolding place
  arrange [] = []
  arrange (x ∷ xs) = place x (arrange xs)

  place-Perm : (x : A) (ys : List A) → Perm (place x ys) (x ∷ ys)
  unfolding place
  place-Perm x [] = Perm.rfl
  place-Perm x (y ∷ ys) = elim (Bool-cases (less y x)) [
    | inl before ↦ rw before (Perm.trans (Perm.cons y (place-Perm x ys)) (Perm.swap x y ys))
    | inr behind ↦ rw behind Perm.rfl
  ]

  arrange-Perm : (xs : List A) → Perm (arrange xs) xs
  unfolding arrange
  arrange-Perm [] = Perm.rfl
  arrange-Perm (x ∷ xs) = Perm.trans (place-Perm x (arrange xs)) (Perm.cons x (arrange-Perm xs))

  module _ (order : IsStrictWeakOrder less) where
    -- What is not less than `a`, place in front of such a list.
    not_less :
        (a b : A) {l : List A}
        → less b a ≡ false
        → ((c : A) → Mem c l → less c a ≡ false)
        → (c : A) → Mem c (b ∷ l)
        → less c a ≡ false
    not_less a b h rest c m =
        Or.elim (Bool-set (less c a) false) (eq-or-mem_of_mem-cons m)
          (λ e. subst (λ z. less z a ≡ false) (sym e) h) (λ m'. rest c m')

    asymmetric : (a b : A) → less a b ≡ true → less b a ≡ false
    asymmetric a b h = elim (Bool-cases (less b a)) [
      | inl k ↦ cc (order.transitive a b a h k, order.irreflexive a)
      | inr k ↦ k
    ]

    place-IsOrdered : (x : A) {ys : List A} → IsOrdered less ys → IsOrdered less (place x ys)
    unfolding place
    place-IsOrdered x Pairwise.nil = Pairwise-singleton _ x
    place-IsOrdered x (Pairwise.cons {a = y} {l = ys} h s) = elim (Bool-cases (less y x)) [
      | inl before ↦ rw before (
          Pairwise.cons
            (λ c m. not_less y x (asymmetric y x before) h c ((Perm.mem_iff (place-Perm x ys)).0 m))
            (place-IsOrdered x s))
      | inr behind ↦ rw behind (
          Pairwise.cons (not_less x y behind (λ c m. order.co_transitive c y x (h c m) behind))
            (Pairwise.cons h s))
    ]

    arrange-IsOrdered : (xs : List A) → IsOrdered less (arrange xs)
    unfolding arrange
    arrange-IsOrdered [] = Pairwise.nil
    arrange-IsOrdered (x ∷ xs) = place-IsOrdered x (arrange-IsOrdered xs)

abbrev pub insertion : SortLibrary
unfolding arrange
insertion = record { slice = λ less xs. arrange less xs }

pub insertion-IsSorting : IsSorting insertion
unfolding arrange
insertion-IsSorting = record {
  slice-Perm = λ less xs. arrange-Perm less xs;
  slice-IsOrdered = λ less xs order. arrange-IsOrdered less order xs;
}
