-- ===== src/Controllers/StatefulSet.antt =====
-- pkg/controllers/statefulset_controller.go: the reconciliation of a StatefulSet, with the observer
-- that the operator sets. The guards are those of Reconciler.
pub mod Ordinals
pub mod Template
pub mod Reconcile
pub mod Safety
pub mod Updates
mod Examples
use spotalis.Common.{
  ℕ, String, Bool, true, false, not, ◌&&◌, ◌||◌, if◌then◌else◌, Option, none, some, List, [], ◌∷◌,
  ◌++◌, ℤ, pos, negsuc, ltb_ℤ, ◌==ℤ◌, ◌==◌, pos_part, neg_part, length, take, map, str_eq, ◌*◌, ◌+◌,
}
use Prim.Native.Nat.{min}
use spotalis.Common.Words.{wrap32, ◌-i32◌}
use spotalis.Common.Text.{Text, has_prefix, skip}
use spotalis.Common.Strconv.{atoi}
use spotalis.Common.Sorting.{SortLibrary}
use spotalis.Kube.{StringMap, ObjectMeta, Pod}
use spotalis.Apis.ReplicaState.{ReplicaState}
use spotalis.Observation.{Workload}
use spotalis.Controllers.Reconciler.{WorkloadType}

-- corev1.Toleration
pub record Toleration : Type 0 where
  pub key : String
  pub operator : String
  pub value : String
  pub effect : String

-- corev1.PodTemplateSpec, as far as the controller writes it.
pub record PodTemplate : Type 0 where
  pub annotations : Option StringMap
  pub tolerations : List Toleration

-- appsv1.StatefulSet
pub record StatefulSet : Type 0 where
  pub name : Text
  pub meta : ObjectMeta
  pub workload : Workload
  pub replicas : Option ℤ
  pub template : PodTemplate
  pub status_replicas : ℤ
  pub ready_replicas : ℤ
  pub current_replicas : ℤ
  pub updated_replicas : ℤ

unfoldable pub is_stateful_set_stable_and_ready : StatefulSet → Bool
is_stateful_set_stable_and_ready s = elim s.replicas [
  | none ↦ false
  | some n ↦
      not (n ==ℤ pos 0)
      && (s.ready_replicas ==ℤ n)
      && (s.current_replicas ==ℤ n)
      && (s.updated_replicas ==ℤ n)
]

abbrev pub stateful_sets : WorkloadType
stateful_sets = record {
  Object = StatefulSet;
  meta = λ s. s.meta;
  workload = λ s. s.workload;
  replicas = λ s. s.replicas;
  status_replicas = λ s. s.status_replicas;
  is_stable_and_ready = is_stateful_set_stable_and_ready;
}

-- The pods of one kind that exceed the desired number; a length is capped at the largest uint32.
unfoldable pub excess_pods : List Pod → ℤ → List Pod
excess_pods pods desired =
    let n = wrap32 (pos (min (length pods) 4294967295)) in
    if ltb_ℤ desired n then take (min (pos_part (n -i32 desired)) (pos_part n)) pods else []

unfoldable pub select_pods_for_deletion : List Pod → List Pod → ReplicaState → List Pod
unfolding excess_pods
select_pods_for_deletion spot_pods on_demand_pods s =
    excess_pods spot_pods s.desired_spot ++ excess_pods on_demand_pods s.desired_on_demand

-- The number behind `<name>-`; an error is `none`.
unfoldable pub extract_pod_ordinal : Text → Text → Option ℤ
extract_pod_ordinal pod_name stateful_set_name =
    let prefix = stateful_set_name ++ b'-' ∷ [] in
    if has_prefix prefix pod_name then atoi (skip (length prefix) pod_name) else none

pub record PodWithOrdinal : Type 0 where
  pub pod : Pod
  pub ordinal : ℤ

abbrev pub ordinal_or_last : Option ℤ → ℤ
ordinal_or_last none = negsuc 0
ordinal_or_last (some n) = n

unfoldable pub with_ordinal : Text → Pod → PodWithOrdinal
with_ordinal name p = record {
  pod = p;
  ordinal = ordinal_or_last (extract_pod_ordinal p.name name);
}

abbrev pub less_of : Bool → PodWithOrdinal → PodWithOrdinal → Bool
less_of descending a b = if descending then ltb_ℤ b.ordinal a.ordinal else ltb_ℤ a.ordinal b.ordinal

unfoldable pub sort_pods_by_ordinal : SortLibrary → List Pod → Text → Bool → List Pod
unfolding with_ordinal
sort_pods_by_ordinal sort [] name descending = []
sort_pods_by_ordinal sort (p ∷ pods) name descending =
    map (λ x. x.pod) (sort.slice (less_of descending) (map (with_ordinal name) (p ∷ pods)))
