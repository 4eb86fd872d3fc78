-- ===== src/Annotations/Parser/Validity.antt =====
-- What a parsed configuration of internal/annotations/parser.go is good for.
use spotalis.Common.{
  ◌≡◌, ◌↔◌, refl, Bool, true, false, ◌||◌, Option, none, some, List, [], ◌∷◌, ◌++◌, ok, >>=-eq-ok,
  ℤ, pos, ltb_ℤ, ◌≤ℤ◌, arith, Bool-cases, inl, inr, Option-cases, subst,
}
use spotalis.Common.Text.{Text, codes, trim_suffix, to_lower, eq_text}
use spotalis.Common.Words.{wrap32, wrap32_id}
use spotalis.Common.Strconv.{atoi}
use spotalis.Kube.{StringMap, ObjectMeta}
use spotalis.Apis.Policy.{validate_replica_allocation_policy}
use spotalis.Apis.Policy.Allocation.{validate_none}
use spotalis.Apis.Configuration.{
  WorkloadConfiguration, allocation_policy, unset, set_min_on_demand, set_spot_percentage,
}
use spotalis.Annotations.Parser.{
  find, enabled_label, read_spot_percentage, read_min_on_demand, read_annotations, enabled_exactly,
  parse_workload_configuration, is_spotalis_enabled, validate_annotations, validate_spot_percentage,
  validate_min_on_demand, validated, spot_percentage_annotation, min_on_demand_annotation,
}

-- The bounds that the annotations are held to.
pub record IsBounded (w : WorkloadConfiguration) : Type 0 where
  pub spot_nonneg : pos 0 ≤ℤ w.spot_percentage
  pub spot_le : w.spot_percentage ≤ℤ pos 100
  pub min_nonneg : pos 0 ≤ℤ w.min_on_demand
  pub min_le : w.min_on_demand ≤ℤ pos 10000

read_spot-IsBounded :
    (o : Option Text) (u w : WorkloadConfiguration)
    → IsBounded u
    → read_spot_percentage o u ≡ ok w
    → IsBounded w
unfolding read_spot_percentage
read_spot-IsBounded none u w b h = ground arith
read_spot-IsBounded (some text) u w b h = elim (Option-cases (atoi (trim_suffix b'%' text))) [
  | inl e ↦ cc (h, e)
  | inr (v, e) ↦ ground (arith, wrap32_id v)
]

read_min-IsBounded :
    (o : Option Text) (u w : WorkloadConfiguration)
    → IsBounded u
    → read_min_on_demand o u ≡ ok w
    → IsBounded w
unfolding read_min_on_demand
read_min-IsBounded none u w b h = ground arith
read_min-IsBounded (some text) u w b h = elim (Option-cases (atoi text)) [
  | inl e ↦ cc (h, e)
  | inr (v, e) ↦ ground (arith, wrap32_id v)
]

unset-IsBounded : (b : Bool) → IsBounded (unset b)
unset-IsBounded b = omega arith

read_annotations-IsBounded :
    (o : Option StringMap) (w : WorkloadConfiguration) → read_annotations o ≡ ok w → IsBounded w
unfolding read_annotations
read_annotations-IsBounded none w h =
    let e : unset true ≡ w = cc h in subst IsBounded e (unset-IsBounded true)
read_annotations-IsBounded (some a) w h =
    let (u, p, q) =
      >>=-eq-ok (read_spot_percentage (a spot_percentage_annotation) (unset true)) _ h in
    read_min-IsBounded _ u w (read_spot-IsBounded _ (unset true) u (unset-IsBounded true) p) q

bounded_valid :
    (total : ℤ) (w : WorkloadConfiguration)
    → pos 0 ≤ℤ total
    → IsBounded w
    → validate_replica_allocation_policy total (allocation_policy w) ≡ none
unfolding allocation_policy
bounded_valid total w t b =
    (validate_none total (allocation_policy w)).1 (t, b.min_nonneg, b.spot_nonneg, b.spot_le)

-- Every configuration that is parsed lies within the bounds, so that the allocation accepts it for
-- every number of replicas that is not negative.
pub parse-IsBounded :
    (obj : ObjectMeta) (w : WorkloadConfiguration) (total : ℤ)
    → parse_workload_configuration obj ≡ ok w
    → pos 0 ≤ℤ total
    → IsBounded w × (validate_replica_allocation_policy total (allocation_policy w) ≡ none)
unfolding parse_workload_configuration
parse-IsBounded obj w total h t = (bounded, bounded_valid total w t bounded)
  where
    bounded : IsBounded w
    bounded = elim (Bool-cases (enabled_exactly (find enabled_label obj.labels))) [
      | inl on ↦ read_annotations-IsBounded obj.annotations w (rw on at h)
      | inr off ↦
          let e : unset false ≡ w = cc (rw off at h) in subst IsBounded e (unset-IsBounded false)
    ]

-- A field is valid exactly when it is read.
spot_valid_iff :
    (o : Option Text) (u : WorkloadConfiguration)
    → (validated validate_spot_percentage o ≡ [])
      ↔ ((w : WorkloadConfiguration) × (read_spot_percentage o u ≡ ok w))
unfolding validate_spot_percentage read_spot_percentage
spot_valid_iff none u = (λ e. (u, refl), λ p. refl)
spot_valid_iff (some text) u = elim (Option-cases (atoi (trim_suffix b'%' text))) [
  | inl e ↦ (λ v. cc (v, e), λ p. cc (p.1, e))
  | inr (z, e) ↦ elim (Bool-cases (ltb_ℤ z (pos 0) || ltb_ℤ (pos 100) z)) [
    | inl out ↦ (λ v. ground (arith, v, e, out), λ p. ground (arith, p.1, e, out))
    | inr within ↦ (
      λ v. (set_spot_percentage (wrap32 z) u, ground (arith, e, within)),
      λ p. ground (arith, e, within),
    )
  ]
]

min_valid_iff :
    (o : Option Text) (u : WorkloadConfiguration)
    → (validated validate_min_on_demand o ≡ [])
      ↔ ((w : WorkloadConfiguration) × (read_min_on_demand o u ≡ ok w))
unfolding validate_min_on_demand read_min_on_demand
min_valid_iff none u = (λ e. (u, refl), λ p. refl)
min_valid_iff (some text) u = elim (Option-cases (atoi text)) [
  | inl e ↦ (λ v. cc (v, e), λ p. cc (p.1, e))
  | inr (z, e) ↦ elim (Bool-cases (ltb_ℤ z (pos 0) || ltb_ℤ (pos 10000) z)) [
    | inl out ↦ (λ v. ground (arith, v, e, out), λ p. ground (arith, p.1, e, out))
    | inr within ↦ (
      λ v. (set_min_on_demand (wrap32 z) u, ground (arith, e, within)),
      λ p. ground (arith, e, within),
    )
  ]
]

append_nil_iff : {A : Type 0} (xs ys : List A) → (xs ++ ys ≡ []) ↔ ((xs ≡ []) × (ys ≡ []))
append_nil_iff [] ys = (λ e. (refl, e), λ p. p.1)
append_nil_iff (x ∷ xs) ys = (λ e. cc, λ p. cc (p.0))

read_valid_iff :
    (m : Option StringMap)
    → (validated validate_spot_percentage (find spot_percentage_annotation m)
          ++ validated validate_min_on_demand (find min_on_demand_annotation m)
        ≡ [])
      ↔ ((w : WorkloadConfiguration) × (read_annotations m ≡ ok w))
unfolding read_annotations
read_valid_iff none = (λ e. (unset true, refl), λ p. refl)
read_valid_iff (some a) = (forth, back)
  where
    forth :
        validated validate_spot_percentage (a spot_percentage_annotation)
            ++ validated validate_min_on_demand (a min_on_demand_annotation)
          ≡ []
        → (w : WorkloadConfiguration) × (read_annotations (some a) ≡ ok w)
    forth e =
        let both =
          (append_nil_iff (validated validate_spot_percentage (a spot_percentage_annotation))
              (validated validate_min_on_demand (a min_on_demand_annotation))).0
            e in
        let (u, p) = (spot_valid_iff (a spot_percentage_annotation) (unset true)).0 both.0 in
        let (w, q) = (min_valid_iff (a min_on_demand_annotation) u).0 both.1 in (w, rw p q)

    back :
        (w : WorkloadConfiguration) × (read_annotations (some a) ≡ ok w)
        → validated validate_spot_percentage (a spot_percentage_annotation)
            ++ validated validate_min_on_demand (a min_on_demand_annotation)
          ≡ []
    back (w, h) =
        let (u, p, q) =
          >>=-eq-ok (read_spot_percentage (a spot_percentage_annotation) (unset true)) _ h in
        (append_nil_iff (validated validate_spot_percentage (a spot_percentage_annotation))
            (validated validate_min_on_demand (a min_on_demand_annotation))).1
          (
            (spot_valid_iff (a spot_percentage_annotation) (unset true)).1 (u, p),
            (min_valid_iff (a min_on_demand_annotation) u).1 (w, q),
          )

-- An object whose label is exactly "true" has no validation error exactly when its configuration
-- can be parsed.
pub validate_annotations_iff :
    (obj : ObjectMeta)
    → find enabled_label obj.labels ≡ some (codes "true")
    → (validate_annotations obj ≡ [])
      ↔ ((w : WorkloadConfiguration) × (parse_workload_configuration obj ≡ ok w))
unfolding validate_annotations parse_workload_configuration
validate_annotations_iff obj h = rw h (read_valid_iff obj.annotations)

-- A label that is "true" up to the case of its letters, and not "true" itself, enables the object
-- for the controllers, and its configuration is parsed as a disabled one with no value set.
pub enabled_mismatch :
    (obj : ObjectMeta) (label : Text)
    → find enabled_label obj.labels ≡ some label
    → eq_text (to_lower label) (codes "true") ≡ true
    → eq_text label (codes "true") ≡ false
    → (is_spotalis_enabled obj ≡ true) × (parse_workload_configuration obj ≡ ok (unset false))
unfolding is_spotalis_enabled parse_workload_configuration
enabled_mismatch obj label h folded exact = (rw (h, folded), rw (h, exact))
