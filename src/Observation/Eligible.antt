-- ===== src/Observation/Eligible.antt =====
-- Which pods a snapshot of pkg/observation/workload.go offers for disruption.
use Prim.{tt}
use spotalis.Common.{
  String, Bool, true, false, none, some, List, [], ◌∷◌, map, filter, All, ok, >>=-eq-ok, subst, ℤ,
  pos, str_eq, ◌≡◌, refl, arith, Option-cases, Bool-cases, inl, inr, ◌≢◌,
}
use spotalis.Common.Time.{Time}
use spotalis.Kube.{Pod}
use spotalis.Apis.NodeType.{NodeType, NodeTypes}
use spotalis.Observation.{
  Workload, Snapshot, eligible_pods, actual_counts, count_pods, ready_pods, is_spot, is_on_demand,
  is_ready_lifecycle, is_gone,
}
use spotalis.Observation.Service.{
  Answers, observe, observed, lifecycle_for, capacity_for, is_terminal, is_deleting, first_ready,
  snapshot_of, classify, is_assigned, workload_pods, selector_for, no_types,
}

-- A pod that is ready on a node of a known type.
pub record IsEligible (types : NodeTypes) (kind : NodeType) (p : Pod) : Type 0 where
  pub assigned : str_eq p.node_name "" ≡ false
  pub not_terminal : is_terminal p ≡ false
  pub not_deleting : p.deletion_timestamp ≡ none
  pub is_ready : first_ready p.conditions ≡ true
  pub classified : types p.node_name ≡ some kind

ready-IsEligible :
    (types : NodeTypes) (p : Pod) (kind : NodeType)
    → kind ≢ NodeType.unknown
    → is_ready_lifecycle (lifecycle_for p) ≡ true
    → capacity_for types p ≡ kind
    → IsEligible types kind p
unfolding lifecycle_for capacity_for is_deleting is_ready_lifecycle
ready-IsEligible types p kind n r c = elim (Option-cases p.deletion_timestamp) [
  | inr (t, d) ↦ ground (arith, n, r, c, d)
  | inl d ↦ elim (Option-cases (types p.node_name)) [
    | inl u ↦ ground (arith, n, r, c, d, u)
    | inr (k, u) ↦ record {
      assigned = ground (arith, n, r, c, d, u);
      not_terminal = ground (arith, n, r, c, d, u);
      not_deleting = d;
      is_ready = ground (arith, n, r, c, d, u);
      classified = ground (arith, n, r, c, d, u);
    }
  ]
]

-- A test of the capacity that only one known type passes.
record Selects (is_type : NodeType → Bool) (kind : NodeType) : Type 0 where
  known : kind ≢ NodeType.unknown
  only : (t : NodeType) → is_type t ≡ true → t ≡ kind

only_spot : (t : NodeType) → is_spot t ≡ true → t ≡ NodeType.spot
unfolding is_spot
only_spot NodeType.spot h = refl
only_spot NodeType.on_demand h = cc h
only_spot NodeType.unknown h = cc h

only_on_demand : (t : NodeType) → is_on_demand t ≡ true → t ≡ NodeType.on_demand
unfolding is_on_demand
only_on_demand NodeType.on_demand h = refl
only_on_demand NodeType.spot h = cc h
only_on_demand NodeType.unknown h = cc h

spot_selects : Selects is_spot NodeType.spot
spot_selects = record { known = λ e. cc e; only = only_spot }

on_demand_selects : Selects is_on_demand NodeType.on_demand
on_demand_selects = record { known = λ e. cc e; only = only_on_demand }

ready_pods-IsEligible :
    (is_type : NodeType → Bool) (kind : NodeType) (types : NodeTypes)
    → Selects is_type kind
    → (pods : List Pod)
    → All (IsEligible types kind) (ready_pods is_type (map (observed types) pods))
unfolding ready_pods observed
ready_pods-IsEligible is_type kind types sel [] = tt
ready_pods-IsEligible is_type kind types sel (p ∷ ps) =
    let rest = ready_pods-IsEligible is_type kind types sel ps in
    elim (Bool-cases (is_ready_lifecycle (lifecycle_for p))) [
      | inr n ↦ rw n rest
      | inl r ↦ elim (Bool-cases (is_type (capacity_for types p))) [
        | inr n ↦ rw (r, n) rest
        | inl c ↦ rw (r, c) (ready-IsEligible types p kind sel.known r (sel.only _ c), rest)
      ]
    ]

observe-eq-ok :
    (a : Answers) (now : Time) (w : Workload) (s : Snapshot)
    → observe a now w ≡ ok s
    → (pods : List Pod) × (snapshot_of a now w pods ≡ s)
unfolding observe
observe-eq-ok a now w s h =
    let (selector, p, q) = >>=-eq-ok (selector_for a w) _ h in
    let (pods, p', q') = >>=-eq-ok (workload_pods a w selector) _ q in (pods, cc q')

names_of : List Pod → List String
names_of pods = map (λ p. p.node_name) (filter is_assigned pods)

Offers : Answers → Snapshot → Type 0
Offers a s =
    (names : List String) × All (IsEligible (classify a names).0 NodeType.spot) (eligible_pods s).0
    × All (IsEligible (classify a names).0 NodeType.on_demand) (eligible_pods s).1

snapshot-Offers :
    (a : Answers) (now : Time) (w : Workload) (pods : List Pod)
    → Offers a (snapshot_of a now w pods)
unfolding Offers names_of eligible_pods snapshot_of
snapshot-Offers a now w pods = (
  names_of pods,
  ready_pods-IsEligible is_spot NodeType.spot (classify a (names_of pods)).0 spot_selects pods,
  ready_pods-IsEligible is_on_demand NodeType.on_demand (classify a (names_of pods)).0
      on_demand_selects pods,
)

-- Every pod that a snapshot offers for disruption is ready, neither terminal nor being deleted, and
-- runs on a node that the classifier has put into that class.
pub eligible_pods-IsEligible :
    (a : Answers) (now : Time) (w : Workload) (s : Snapshot)
    → observe a now w ≡ ok s
    → (names : List String) × All
        (IsEligible (classify a names).0 NodeType.spot)
        (eligible_pods s).0
      × All (IsEligible (classify a names).0 NodeType.on_demand) (eligible_pods s).1
unfolding Offers
eligible_pods-IsEligible a now w s h =
    let (pods, e) = observe-eq-ok a now w s h in subst (Offers a) e (snapshot-Offers a now w pods)

no_types_unknown : (p : Pod) → capacity_for no_types p ≡ NodeType.unknown
unfolding capacity_for
no_types_unknown p = ground arith

nothing_ready :
    (is_type : NodeType → Bool)
    → is_type NodeType.unknown ≡ false
    → (pods : List Pod) → ready_pods is_type (map (observed no_types) pods) ≡ []
unfolding ready_pods observed
nothing_ready is_type n [] = refl
nothing_ready is_type n (p ∷ ps) =
    let rest = nothing_ready is_type n ps in
    elim (Bool-cases (is_ready_lifecycle (lifecycle_for p))) [
      | inr e ↦ rw e rest
      | inl e ↦ rw (e, no_types_unknown p, n) rest
    ]

nothing_counted : (pods : List Pod) (n : ℤ × ℤ) → count_pods (map (observed no_types) pods) n ≡ n
unfolding count_pods observed
nothing_counted [] n = refl
nothing_counted (p ∷ ps) n = elim (Bool-cases (is_gone (lifecycle_for p))) [
  | inl e ↦ rw (count_pods, e) (nothing_counted ps n)
  | inr e ↦ rw (count_pods, e, no_types_unknown p) (nothing_counted ps n)
]

Silent : Snapshot → Type 0
Silent s = (eligible_pods s ≡ ([], [])) × (actual_counts s ≡ (pos 0, pos 0))

failed_types :
    (a : Answers) (names : List String)
    → (classify a names).1 ≡ true
    → (classify a names).0 ≡ no_types
unfolding classify
failed_types a names h = ground arith

snapshot-Silent :
    (a : Answers) (now : Time) (w : Workload) (pods : List Pod)
    → (snapshot_of a now w pods).classification_failed ≡ true
    → Silent (snapshot_of a now w pods)
unfolding Silent snapshot_of eligible_pods actual_counts is_spot is_on_demand
snapshot-Silent a now w pods f =
    rw
      (
        failed_types a _ f,
        nothing_ready is_spot refl pods,
        nothing_ready is_on_demand refl pods,
        nothing_counted pods (pos 0, pos 0),
      )
      (refl, refl)

-- When the classifier has failed, a snapshot offers no pod for disruption and counts none.
pub failed_classification :
    (a : Answers) (now : Time) (w : Workload) (s : Snapshot)
    → observe a now w ≡ ok s
    → s.classification_failed ≡ true
    → (eligible_pods s ≡ ([], [])) × (actual_counts s ≡ (pos 0, pos 0))
unfolding Silent
failed_classification a now w s h f =
    let (pods, e) = observe-eq-ok a now w s h in
    subst (λ t. t.classification_failed ≡ true → Silent t) e (snapshot-Silent a now w pods) f
