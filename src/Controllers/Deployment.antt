-- ===== src/Controllers/Deployment.antt =====
-- pkg/controllers/deployment_controller.go: the reconciliation of a Deployment, with the observer
-- that the operator sets. The guards are those of Reconciler.
pub mod Reconcile
pub mod Safety
pub mod Cooldown
mod Examples
use spotalis.Common.{
  String, Bool, true, false, not, ◌&&◌, ◌||◌, if◌then◌else◌, Option, none, some, List, [], ◌∷◌,
  ◌++◌, Result, ok, err, ◌>>=◌, ℤ, pos, ltb_ℤ, ◌==ℤ◌, ◌==◌, ◌-ℤ◌, ◌*ℤ◌, ◌+ℤ◌, quot, pos_part,
  neg_part, length, take, str_eq,
}
use Prim.Native.Nat.{min, ◌*◌, ◌+◌}
use Prim.{Unit, tt}
use spotalis.Common.Words.{wrap32, wrap64, ◌+i32◌, ◌-i32◌}
use spotalis.Common.Text.{Text, eq_text}
use spotalis.Common.Time.{Time, second, minute, since}
use spotalis.Kube.{StringMap, ObjectMeta, ApiError, Pod, PodDisruptionBudget}
use spotalis.Apis.ReplicaState.{ReplicaState, calculate_desired_distribution}
use spotalis.Annotations.Parser.{AnnotationError, is_spotalis_enabled, parse_workload_configuration}
use spotalis.Annotations.DisruptionWindow.{
  CronLibrary, DisruptionWindow, WindowError, parse_disruption_window, is_within_window,
}
use spotalis.Observation.{Snapshot, Workload, actual_counts, eligible_pods}
use spotalis.Observation.Service.{Answers, ObserveError, observe}
use spotalis.Controllers.Eviction.{EvictionResult, PdbStatus, check_pdb_status, evict_pod}
use spotalis.Controllers.Reconciler.{WorkloadType}

-- appsv1.Deployment
pub record Deployment : Type 0 where
  pub meta : ObjectMeta
  pub workload : Workload
  pub replicas : Option ℤ
  pub status_replicas : ℤ
  pub ready_replicas : ℤ
  pub updated_replicas : ℤ
  pub available_replicas : ℤ
  pub unavailable_replicas : ℤ

unfoldable pub is_deployment_stable_and_ready : Deployment → Bool
is_deployment_stable_and_ready d = elim d.replicas [
  | none ↦ false
  | some n ↦
      not (n ==ℤ pos 0)
      && (d.ready_replicas ==ℤ n)
      && (d.updated_replicas ==ℤ n)
      && (d.available_replicas ==ℤ n)
      && (d.unavailable_replicas ==ℤ pos 0)
]

abbrev pub deployments : WorkloadType
deployments = record {
  Object = Deployment;
  meta = λ d. d.meta;
  workload = λ d. d.workload;
  replicas = λ d. d.replicas;
  status_replicas = λ d. d.status_replicas;
  is_stable_and_ready = is_deployment_stable_and_ready;
}

-- The pods of one kind that exceed the desired number; a list longer than an uint32 is left alone.
unfoldable pub excess_pods : List Pod → ℤ → List Pod
excess_pods pods desired =
    let n = wrap32 (pos (length pods)) in
    if ltb_ℤ (pos 4294967295) (pos (length pods)) || not (ltb_ℤ desired n)
    then []
    else take (min (pos_part (n -i32 desired)) (pos_part n)) pods

unfoldable pub select_pods_for_deletion : List Pod → List Pod → ReplicaState → List Pod
unfolding excess_pods
select_pods_for_deletion spot_pods on_demand_pods s =
    excess_pods spot_pods s.desired_spot ++ excess_pods on_demand_pods s.desired_on_demand
