-- ===== src/Controllers/Manager.antt =====
-- pkg/controllers/manager.go: the manager of the two controllers. What it passes on to the
-- reconcilers unread (the client, the parser, the observer) is left out, and so are its metrics.
pub mod Status
pub mod Setup
mod Examples
use spotalis.Common.{
  String, Bool, true, false, not, ◌&&◌, if◌then◌else◌, Option, none, some, List, [], ℤ, pos, leb_ℤ,
  ◌*◌, str_eq,
}
use spotalis.Common.Time.{second, minute}
use spotalis.Controllers.Reconciler.{WorkloadReconciler, ControllerError, ReconcileError}

pub record WorkloadTiming : Type 0 where
  pub cooldown_period : ℤ
  pub disruption_retry_interval : ℤ
  pub disruption_window_poll_interval : ℤ

-- defaultWorkloadTimingConfig
unfoldable pub default_workload_timing : WorkloadTiming
default_workload_timing = record {
  cooldown_period = pos (10 * second);
  disruption_retry_interval = pos (1 * minute);
  disruption_window_poll_interval = pos (10 * minute);
}

abbrev positive_or_default : ℤ → ℤ → ℤ
positive_or_default d default = if leb_ℤ d (pos 0) then default else d

-- withDefaults
unfoldable pub with_defaults : WorkloadTiming → WorkloadTiming
unfolding default_workload_timing
with_defaults c = record {
  cooldown_period = positive_or_default c.cooldown_period default_workload_timing.cooldown_period;
  disruption_retry_interval =
      positive_or_default c.disruption_retry_interval
        default_workload_timing.disruption_retry_interval;
  disruption_window_poll_interval =
      positive_or_default c.disruption_window_poll_interval
        default_workload_timing.disruption_window_poll_interval;
}

pub record ManagerConfig : Type 0 where
  pub max_concurrent_reconciles : ℤ
  pub reconcile_timeout : ℤ
  pub reconcile_interval : ℤ
  pub workload_timing : WorkloadTiming
  pub watch_namespaces : List String
  pub ignore_namespaces : List String
  pub enable_deployments : Bool
  pub enable_stateful_sets : Bool
  pub enable_daemon_sets : Bool
  pub leader_election : Bool
  pub metrics_bind_address : String
  pub health_probe_bind_address : String
  pub cache_sync_timeout : ℤ
  pub graceful_shutdown_timeout : ℤ

-- DefaultManagerConfig
unfoldable pub default_manager_config : ManagerConfig
unfolding default_workload_timing
default_manager_config = record {
  max_concurrent_reconciles = pos 1;
  reconcile_timeout = pos (5 * minute);
  reconcile_interval = pos (5 * minute);
  workload_timing = default_workload_timing;
  watch_namespaces = [];
  ignore_namespaces = [];
  enable_deployments = true;
  enable_stateful_sets = true;
  enable_daemon_sets = false;
  leader_election = true;
  metrics_bind_address = ":8080";
  health_probe_bind_address = ":8081";
  cache_sync_timeout = pos (10 * minute);
  graceful_shutdown_timeout = pos (30 * second);
}

pub record ControllerManager : Type 0 where
  pub has_manager : Bool
  pub config : ManagerConfig
  pub deployment_controller : Option WorkloadReconciler
  pub stateful_set_controller : Option WorkloadReconciler
  pub started : Bool
  pub controllers_registered : String → Bool

-- NewControllerManager, with nil as `none`.
unfoldable pub new_controller_manager : Bool → Option ManagerConfig → ControllerManager
unfolding default_manager_config
new_controller_manager has_manager config = record {
  has_manager = has_manager;
  config = elim config [ none ↦ default_manager_config | some c ↦ c ];
  deployment_controller = none;
  stateful_set_controller = none;
  started = false;
  controllers_registered = λ k. false;
}

-- Which calls of controller-runtime fail.
pub record Failures : Type 0 where
  pub pod_index : Bool
  pub replica_set_index : Bool
  pub deployment_builder : Bool
  pub stateful_set_builder : Bool

-- A nil manager panics where its client is asked for.
pub data SetupError : Type 0 where
  index_pods index_replica_sets deployment_failed stateful_set_failed nil_manager : SetupError

-- registerObservationIndexes
unfoldable pub register_observation_indexes : Failures → ControllerManager → Option SetupError
register_observation_indexes failures m =
    if not m.has_manager
    then none
    else if failures.pod_index
    then some index_pods
    else if failures.replica_set_index
    then some index_replica_sets
    else none

-- The reconciler of setupDeploymentController and of setupStatefulSetController.
unfoldable pub new_reconciler : ManagerConfig → WorkloadReconciler
unfolding with_defaults
new_reconciler c =
    let timing = with_defaults c.workload_timing in
    record {
      reconcile_interval = c.reconcile_interval;
      cooldown_period = timing.cooldown_period;
      disruption_retry_interval = timing.disruption_retry_interval;
      disruption_window_poll_interval = timing.disruption_window_poll_interval;
      last_deletion_times = λ k. none;
      reconcile_count = pos 0;
      error_count = pos 0;
      last_error = none;
    }

unfoldable pub as_registered : String → ControllerManager → ControllerManager
as_registered name m = record m {
  controllers_registered = λ k. if str_eq k name then true else m.controllers_registered k;
}

-- setupDeploymentController
unfoldable pub setup_deployment_controller :
    Failures → ControllerManager → ControllerManager × Option SetupError
unfolding new_reconciler as_registered
setup_deployment_controller failures m =
    let set = record m { deployment_controller = some (new_reconciler m.config) } in
    if not m.has_manager
    then (m, some nil_manager)
    else if failures.deployment_builder
    then (set, some deployment_failed)
    else (as_registered "deployment" set, none)

-- setupStatefulSetController
unfoldable pub setup_stateful_set_controller :
    Failures → ControllerManager → ControllerManager × Option SetupError
unfolding new_reconciler as_registered
setup_stateful_set_controller failures m =
    let set = record m { stateful_set_controller = some (new_reconciler m.config) } in
    if not m.has_manager
    then (m, some nil_manager)
    else if failures.stateful_set_builder
    then (set, some stateful_set_failed)
    else (as_registered "statefulset" set, none)

-- A setup that is run when it is enabled.
unfoldable pub when_enabled :
    Bool
    → (ControllerManager → ControllerManager × Option SetupError)
    → ControllerManager
    → ControllerManager × Option SetupError
when_enabled enabled setup m = if enabled then setup m else (m, none)

-- SetupControllers
unfoldable pub setup_controllers :
    Failures → ControllerManager → ControllerManager × Option SetupError
unfolding register_observation_indexes setup_deployment_controller setup_stateful_set_controller
    when_enabled
setup_controllers failures m = elim (register_observation_indexes failures m) [
  | some e ↦ (m, some e)
  | none ↦
      let (n, e) =
        when_enabled m.config.enable_deployments (setup_deployment_controller failures) m in
      elim e [
        | some e ↦ (n, some e)
        | none ↦
            when_enabled m.config.enable_stateful_sets (setup_stateful_set_controller failures) n
      ]
]

-- SetStarted
unfoldable pub set_started : Bool → ControllerManager → ControllerManager
set_started started m = record m { started = started }
