-- ===== src/Controllers/Manager/Examples.antt =====
-- A setup whose second controller fails.
use spotalis.Common.{◌≡◌, refl, true, false, none, some}
use spotalis.Controllers.Manager.{
  default_manager_config, Failures, stateful_set_failed, new_controller_manager, setup_controllers,
  register_observation_indexes, setup_deployment_controller, setup_stateful_set_controller,
  when_enabled, as_registered,
}
use spotalis.Controllers.Manager.Status.{get_controller_status, validate_configuration}
use spotalis.Controllers.Manager.Setup.{reported, get_controller_status-setup_controllers}

abbrev second_fails : Failures
second_fails = record {
  pod_index = false;
  replica_set_index = false;
  deployment_builder = false;
  stateful_set_builder = true;
}

fails_second :
    (setup_controllers second_fails (new_controller_manager true (some default_manager_config))).1
    ≡ some stateful_set_failed
unfolding setup_controllers new_controller_manager register_observation_indexes
    setup_deployment_controller setup_stateful_set_controller when_enabled as_registered
    default_manager_config
fails_second = refl

default_accepted : validate_configuration (new_controller_manager true none) ≡ none
unfolding validate_configuration new_controller_manager default_manager_config
default_accepted = refl

get_controller_status-setup_controllers_example :
    get_controller_status
      (setup_controllers second_fails (new_controller_manager true (some default_manager_config))).0
      "statefulset"
    ≡ reported default_manager_config.enable_deployments default_manager_config.enable_stateful_sets
        (setup_controllers second_fails
          (new_controller_manager true (some default_manager_config))).1
        "statefulset"
get_controller_status-setup_controllers_example =
    get_controller_status-setup_controllers second_fails default_manager_config "statefulset"
