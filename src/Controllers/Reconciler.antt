-- ===== src/Controllers/Reconciler.antt =====
-- What pkg/controllers/deployment_controller.go and pkg/controllers/statefulset_controller.go have in
-- common, word for word but for the type of the workload: the state of a reconciler, its timing and
-- its errors, and the guards of Reconcile. The answers of the API server are arguments, and so are
-- the readings of the clock. The early returns are errors of a chain that end it.
pub mod Guards
pub mod Prepared
pub mod Rebalancing
pub mod Evictions
pub mod Cooldown
pub mod Updates
pub mod Samples
use spotalis.Common.{
  String, Bool, true, false, not, ◌&&◌, ◌||◌, if◌then◌else◌, Option, none, some, List, [], ◌∷◌,
  ◌++◌, Result, ok, err, ◌>>=◌, ℤ, pos, ltb_ℤ, ◌==ℤ◌, ◌==◌, ◌-ℤ◌, ◌*ℤ◌, ◌+ℤ◌, quot, pos_part,
  neg_part, length, take, str_eq,
}
use Prim.Native.Nat.{min, ◌*◌, ◌+◌}
use Prim.{Unit, tt}
use spotalis.Common.Words.{wrap32, wrap64, ◌+i32◌, ◌-i32◌}
use spotalis.Common.Text.{Text, eq_text}
use spotalis.Common.Time.{Time, second, minute, since}
use spotalis.Kube.{StringMap, ObjectMeta, ApiError, Pod, PodDisruptionBudget}
use spotalis.Apis.ReplicaState.{ReplicaState, calculate_desired_distribution}
use spotalis.Annotations.Parser.{AnnotationError, is_spotalis_enabled, parse_workload_configuration}
use spotalis.Annotations.DisruptionWindow.{
  CronLibrary, DisruptionWindow, WindowError, parse_disruption_window, is_within_window,
}
use spotalis.Observation.{Snapshot, Workload, actual_counts, eligible_pods}
use spotalis.Observation.Service.{Answers, ObserveError, observe}
use spotalis.Controllers.Eviction.{EvictionResult, PdbStatus, check_pdb_status, evict_pod}

-- A type of workload, and what the code reads of its objects.
pub record WorkloadType : Type 1 where
  pub Object : Type 0
  pub meta : Object → ObjectMeta
  pub workload : Object → Workload
  pub replicas : Object → Option ℤ
  pub status_replicas : Object → ℤ
  pub is_stable_and_ready : Object → Bool

pub data ReconcileError : Type 0 where
  api_failed : ApiError → ReconcileError
  parse_failed : AnnotationError → ReconcileError
  observe_failed : ObserveError → ReconcileError
  window_failed : WindowError → ReconcileError

pub record ControllerError : Type 0 where
  pub error : ReconcileError
  pub timestamp : Time
  pub recovered : Bool

-- The settings and the state of the reconciler; durations are nanoseconds.
pub record WorkloadReconciler : Type 0 where
  pub reconcile_interval : ℤ
  pub cooldown_period : ℤ
  pub disruption_retry_interval : ℤ
  pub disruption_window_poll_interval : ℤ
  pub last_deletion_times : String → Option Time
  pub reconcile_count : ℤ
  pub error_count : ℤ
  pub last_error : Option ControllerError

unfoldable pub positive_or : ℤ → ℤ → ℤ
positive_or d default = if ltb_ℤ (pos 0) d then d else default

unfoldable pub get_cooldown_period : WorkloadReconciler → ℤ
unfolding positive_or
get_cooldown_period r = positive_or r.cooldown_period (pos (10 * second))

unfoldable pub get_disruption_retry_interval : WorkloadReconciler → ℤ
unfolding positive_or
get_disruption_retry_interval r = positive_or r.disruption_retry_interval (pos minute)

unfoldable pub get_disruption_window_poll_interval : WorkloadReconciler → ℤ
unfolding positive_or
get_disruption_window_poll_interval r =
    positive_or r.disruption_window_poll_interval (pos (10 * minute))

-- r.errorCount.Add(1) and setLastError
unfoldable pub record_error : Time → ReconcileError → WorkloadReconciler → WorkloadReconciler
record_error now e r = record r {
  error_count = wrap64 (r.error_count +ℤ pos 1);
  last_error = some (record { error = e; timestamp = now; recovered = false });
}

abbrev recover : Option ControllerError → Option ControllerError
recover none = none
recover (some e) = some (record e { recovered = true })

unfoldable pub mark_recovered : WorkloadReconciler → WorkloadReconciler
mark_recovered r = record r { last_error = recover r.last_error }

unfoldable pub needs_rebalancing : ReplicaState → Bool
needs_rebalancing s =
    if (s.current_spot +i32 s.current_on_demand) ==ℤ pos 0
    then false
    else not ((s.desired_spot -i32 s.current_spot) ==ℤ pos 0)
      || not ((s.desired_on_demand -i32 s.current_on_demand) ==ℤ pos 0)

-- What the calls of one reconciliation answer, and the times that are read in it. The pods are
-- listed twice, to be counted and to be categorized. A nil filter is `none`, and so is a global
-- configuration without a schedule.
pub record Environment (W : WorkloadType) : Type 0 where
  pub object : Result ApiError W.Object
  pub is_namespace_allowed : Option (String → Result ApiError Bool)
  pub counting : Answers
  pub categorizing : Answers
  pub namespace_labels : String → Result ApiError (Option StringMap)
  pub global_window : Option StringMap
  pub budgets : String → Result ApiError (List PodDisruptionBudget)
  pub evict : Pod → Option ApiError
  pub checked_at : Time
  pub deleted_at : Time

-- A return before the rebalancing.
pub record EarlyReturn : Type 0 where
  pub state : WorkloadReconciler
  pub requeue_after : ℤ
  pub error : Option ReconcileError

-- What the rebalancing leaves: the pods whose eviction it asked for, and the objects that it sent to
-- be updated.
pub record Rebalanced (W : WorkloadType) : Type 0 where
  pub state : WorkloadReconciler
  pub evictions : List Pod
  pub updates : List W.Object
  pub error : Option ReconcileError

-- A whole reconciliation.
pub record Outcome (W : WorkloadType) : Type 0 where
  pub state : WorkloadReconciler
  pub evictions : List Pod
  pub updates : List W.Object
  pub requeue_after : ℤ
  pub error : Option ReconcileError

abbrev pub skip : WorkloadReconciler → ℤ → EarlyReturn
skip r after = record { state = r; requeue_after = after; error = none }

abbrev pub fail : Time → WorkloadReconciler → ℤ → ReconcileError → EarlyReturn
fail now r after e = record { state = record_error now e r; requeue_after = after; error = some e }

abbrev pub or_empty : Option StringMap → StringMap
or_empty none = λ k. none
or_empty (some m) = m
