-- ===== src/Controllers/Manager/Setup.antt =====
-- What SetupControllers leaves, as GetControllerStatus reports it.
use spotalis.Common.{
  ◌≡◌, String, Bool, true, false, if◌then◌else◌, Option, none, some, pos, str_eq, arith,
}
use spotalis.Controllers.Manager.{
  ManagerConfig, new_controller_manager, Failures, SetupError, deployment_failed,
  stateful_set_failed, register_observation_indexes, as_registered, setup_deployment_controller,
  setup_stateful_set_controller, when_enabled, setup_controllers,
}
use spotalis.Controllers.Manager.Status.{ControllerStatus, get_controller_status}

-- The status of a controller that has not reconciled, if it is made.
abbrev pub report : String → Bool → Bool → Option ControllerStatus
report name made completed =
    if made
    then some (record {
      name = name;
      enabled = true;
      registered = completed;
      reconciles = pos 0;
      last_error = none;
    })
    else none

-- The report after a setup: what was enabled, until the first failure.
abbrev pub reported : Bool → Bool → Option SetupError → String → Option ControllerStatus
reported deployments stateful_sets none k =
    if str_eq k "deployment"
    then report "deployment" deployments true
    else if str_eq k "statefulset"
    then report "statefulset" stateful_sets true
    else none
reported deployments stateful_sets (some deployment_failed) k =
    if str_eq k "deployment" then report "deployment" true false else none
reported deployments stateful_sets (some stateful_set_failed) k =
    if str_eq k "deployment"
    then report "deployment" deployments true
    else if str_eq k "statefulset"
    then report "statefulset" true false
    else none
reported deployments stateful_sets (some _) k = none

-- After SetupControllers on a new manager, a controller that is enabled is reported as registered, one
-- that is not is not reported; after a failure of a builder, that controller is reported as not
-- registered, and those behind it are not reported.
pub get_controller_status-setup_controllers :
    (failures : Failures) (c : ManagerConfig) (k : String)
    → get_controller_status (setup_controllers failures (new_controller_manager true (some c))).0 k
      ≡ reported c.enable_deployments c.enable_stateful_sets
          (setup_controllers failures (new_controller_manager true (some c))).1
          k
unfolding setup_controllers new_controller_manager register_observation_indexes
    setup_deployment_controller setup_stateful_set_controller when_enabled as_registered
    get_controller_status
get_controller_status-setup_controllers failures c k = ground arith
