-- ===== src/Controllers/Manager/Status.antt =====
-- pkg/controllers/manager.go: GetControllerStatus and ValidateConfiguration.
use spotalis.Common.{
  String, Bool, not, ◌&&◌, if◌then◌else◌, Option, none, some, ℤ, pos, leb_ℤ, str_eq,
}
use spotalis.Controllers.Reconciler.{WorkloadReconciler, ControllerError, ReconcileError}
use spotalis.Controllers.Manager.{ControllerManager}

pub record ControllerStatus : Type 0 where
  pub name : String
  pub enabled : Bool
  pub registered : Bool
  pub reconciles : ℤ
  pub last_error : Option ReconcileError

abbrev error_of : Option ControllerError → Option ReconcileError
error_of none = none
error_of (some e) = some e.error

abbrev controller_status :
    String → Bool → ControllerManager → Option WorkloadReconciler → Option ControllerStatus
controller_status name enabled m none = none
controller_status name enabled m (some r) = some (record {
  name = name;
  enabled = enabled;
  registered = m.controllers_registered name;
  reconciles = r.reconcile_count;
  last_error = error_of r.last_error;
})

-- GetControllerStatus
unfoldable pub get_controller_status : ControllerManager → String → Option ControllerStatus
get_controller_status m k =
    if str_eq k "deployment"
    then controller_status "deployment" m.config.enable_deployments m m.deployment_controller
    else if str_eq k "statefulset"
    then controller_status "statefulset" m.config.enable_stateful_sets m m.stateful_set_controller
    else none

pub data ManagerError : Type 0 where
  reconciles_not_positive timeout_not_positive interval_not_positive none_enabled : ManagerError

-- ValidateConfiguration
unfoldable pub validate_configuration : ControllerManager → Option ManagerError
validate_configuration m =
    if leb_ℤ m.config.max_concurrent_reconciles (pos 0)
    then some reconciles_not_positive
    else if leb_ℤ m.config.reconcile_timeout (pos 0)
    then some timeout_not_positive
    else if leb_ℤ m.config.reconcile_interval (pos 0)
    then some interval_not_positive
    else if not m.config.enable_deployments
        && not m.config.enable_stateful_sets
        && not m.config.enable_daemon_sets
    then some none_enabled
    else none
