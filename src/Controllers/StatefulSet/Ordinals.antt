-- ===== src/Controllers/StatefulSet/Ordinals.antt =====
-- The ordinals of the pods of a StatefulSet, in pkg/controllers/statefulset_controller.go.
use spotalis.Common.{
  ℕ, ◌≡◌, refl, true, false, some, List, [], ◌∷◌, ◌++◌, map, ℤ, pos, ◌≤ℤ◌, ltb_ℤ, ◌<◌, ◌^◌, length,
  arith, ap, sym, subst,
}
use mathlib.Core.List.{
  Mem, Perm, Pairwise, Mem-prop, mem-cons_self, eq-or-mem_of_mem-cons, exists_of_mem-map,
  mem-map_of_mem,
}
use mathlib.Core.List.Perm
use mathlib.Core.Logic.{∥∥₁_elim}
use mathlib.Core.Logic.Or
use mathlib.Core.Bool.{Bool-set}
use spotalis.Common.Text.{Text, has_prefix, skip}
use spotalis.Common.Strconv.{atoi, format_nat, format_int, parse_int-format_int}
use spotalis.Common.Sorting.{SortLibrary, IsStrictWeakOrder, IsOrdered, IsSorting}
use spotalis.Kube.{Pod}
use spotalis.Controllers.StatefulSet.{
  PodWithOrdinal, ordinal_or_last, extract_pod_ordinal, with_ordinal, less_of, sort_pods_by_ordinal,
}

has_prefix-append : (s t : Text) → has_prefix s (s ++ t) ≡ true
has_prefix-append [] t = refl
has_prefix-append (c ∷ s) t = ground (arith, has_prefix-append s t)

skip-append : (s t : Text) → skip (length s) (s ++ t) ≡ t
skip-append [] t = refl
skip-append (c ∷ s) t = skip-append s t

append_assoc : (s t u : Text) → (s ++ t) ++ u ≡ s ++ (t ++ u)
append_assoc [] t u = refl
append_assoc (c ∷ s) t u = ap (λ r. c ∷ r) (append_assoc s t u)

-- The ordinal of the pod that a StatefulSet names `<name>-<n>` is n, whatever the name of the
-- StatefulSet, as long as n fits an int.
pub extract-pod_name :
    (name : Text) (n : ℕ)
    → n < 2 ^ 63
    → extract_pod_ordinal (name ++ b'-' ∷ format_nat n) name ≡ some (pos n)
unfolding extract_pod_ordinal atoi format_int
extract-pod_name name n h =
    let prefix = name ++ b'-' ∷ [] in
    let split : name ++ b'-' ∷ format_nat n ≡ prefix ++ format_nat n =
      sym (append_assoc name (b'-' ∷ []) (format_nat n)) in
    rw (split, has_prefix-append prefix (format_nat n), skip-append prefix (format_nat n))
      (parse_int-format_int (2 ^ 63) (pos n) h (omega arith))

-- The ordinal by which a pod is sorted.
unfoldable pub ordinal_of : Text → Pod → ℤ
ordinal_of name p = ordinal_or_last (extract_pod_ordinal p.name name)

descending-IsStrictWeakOrder : IsStrictWeakOrder (less_of true)
descending-IsStrictWeakOrder = record {
  irreflexive = λ a. ground arith;
  transitive = λ a b c h k. ground arith;
  co_transitive = λ a b c h k. ground arith;
}

-- The head of the sorted pods.
pub record IsHighest (name : Text) (pods : List Pod) (p : Pod) : Type 0 where
  pub listed : Mem p pods
  pub highest : (q : Pod) → Mem q pods → ordinal_of name q ≤ℤ ordinal_of name p

head_of :
    (xs : List PodWithOrdinal) {p : Pod} {rest : List Pod}
    → map (λ x. x.pod) xs ≡ p ∷ rest
    → (y : PodWithOrdinal) × (ys : List PodWithOrdinal) × (xs ≡ y ∷ ys) × (y.pod ≡ p)
head_of [] h = cc h
head_of (y ∷ ys) h = (y, ys, refl, cc h)

-- Nothing of an ordered list is less than its head.
head_first :
    (y : PodWithOrdinal) {ys : List PodWithOrdinal}
    → IsOrdered (less_of true) (y ∷ ys)
    → (z : PodWithOrdinal) → Mem z (y ∷ ys)
    → less_of true z y ≡ false
head_first y (Pairwise.cons h s) z m =
    Or.elim (Bool-set (less_of true z y) false) (eq-or-mem_of_mem-cons m)
      (λ e. subst (λ w. less_of true w y ≡ false) (sym e) (ground arith)) (λ m'. h z m')

le_of_not-less : (m n : ℤ) → ltb_ℤ n m ≡ false → m ≤ℤ n
le_of_not-less m n h = ground arith

module _ (sort : SortLibrary) (sorting : IsSorting sort) (name : Text) where
  -- The pods, in pairs with their ordinals.
  slice-IsHighest :
      (pods : List Pod) (y : PodWithOrdinal) (ys : List PodWithOrdinal)
      → sort.slice (less_of true) (map (with_ordinal name) pods) ≡ y ∷ ys
      → IsHighest name pods y.pod
  unfolding with_ordinal ordinal_of
  slice-IsHighest pods y ys e = record { listed = listed; highest = highest }
    where
      perm : Perm (y ∷ ys) (map (with_ordinal name) pods)
      perm =
          subst (λ l. Perm l (map (with_ordinal name) pods)) e
            (sorting.slice-Perm (less_of true) (map (with_ordinal name) pods))

      origin : ∥ ((a : Pod) × Mem a pods × (with_ordinal name a ≡ y)) ∥₁
      origin = exists_of_mem-map ((Perm.mem_iff perm).0 mem-cons_self)

      listed : Mem y.pod pods
      listed = ∥∥₁_elim origin Mem-prop (λ (a, m, s). subst (λ x. Mem x pods) (ap (λ x. x.pod) s) m)

      behind : (q : Pod) → Mem q pods → less_of true (with_ordinal name q) y ≡ false
      behind q m =
          head_first y
            (subst (IsOrdered (less_of true)) e (
              sorting.slice-IsOrdered (less_of true) (map (with_ordinal name) pods)
                descending-IsStrictWeakOrder))
            (with_ordinal name q) ((Perm.mem_iff perm).1 (mem-map_of_mem (with_ordinal name) m))

      highest : (q : Pod) → Mem q pods → ordinal_of name q ≤ℤ ordinal_of name y.pod
      highest q m =
          let top = ordinal_of name y.pod in
          let asked = ordinal_of name q in
          le_of_not-less asked top (
            ∥∥₁_elim origin (Bool-set (ltb_ℤ top asked) false) (λ (a, _, s).
              subst (λ x. ltb_ℤ (ordinal_of name x.pod) asked ≡ false) s
                (subst (λ x. less_of true (with_ordinal name q) x ≡ false) (sym s) (behind q m))))

  pub sort-IsHighest :
      (pods : List Pod) {p : Pod} {rest : List Pod}
      → sort_pods_by_ordinal sort pods name true ≡ p ∷ rest
      → IsHighest name pods p
  unfolding sort_pods_by_ordinal
  sort-IsHighest [] h = cc h
  sort-IsHighest (q ∷ pods) h =
      let (y, ys, e, same) =
        head_of (sort.slice (less_of true) (map (with_ordinal name) (q ∷ pods))) h in
      subst (IsHighest name (q ∷ pods)) same (slice-IsHighest (q ∷ pods) y ys e)
