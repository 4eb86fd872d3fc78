-- ===== src/Config/Examples.antt =====
-- A configuration file that opens a window, under an environment that renames the namespace.
use spotalis.Common.{
  ◌≡◌, ◌↔◌, true, false, refl, String, if◌then◌else◌, Option, none, some, [], ok, err, str_eq, pos,
  ◌+◌, ◌*◌,
}
use Prim.{Unit, tt}
use spotalis.Common.Text.{Text, codes}
use spotalis.Common.Time.{second, minute}
use spotalis.Annotations.DisruptionWindow.{
  CronLibrary, DisruptionWindow, parse_disruption_window, parse_parts,
}
use spotalis.Config.{
  SpotalisConfig, DisruptionWindowConfig, file_unreadable, window_incomplete,
  reconciles_not_positive, default_config, validate, validate_window, validate_parts,
  validate_workload_timing, is_blank,
}
use spotalis.Config.Loader.{
  FileLibrary, Loader, new_loader, with_config_file, with_env_prefix, get_env, parse_bool,
  parse_int, text_from, bool_from, int_from, duration_from, leader_election_from_env,
  operator_from_env, timing_from_env, controllers_from_env, webhook_from_env,
  observability_from_env, load_from_env, load_from_file, validated, load,
}
use spotalis.Config.Soundness.{annotations_of, IsSound, load_iff, Read}
use spotalis.Config.Startup.{
  global_window_of, manager_config_of, resolve-load, registry_enables_none,
}
use spotalis.Controllers.Manager.{Failures, new_controller_manager, setup_controllers}
use spotalis.Controllers.Manager.Status.{
  get_controller_status, validate_configuration, ManagerError,
}
use spotalis.Controllers.Reconciler.{Environment, or_empty}
use spotalis.Controllers.Reconciler.Guards.{resolve_disruption_window}
use spotalis.Controllers.Reconciler.Samples.{on_spot, quiet}
use spotalis.Controllers.Deployment.{Deployment, deployments}
use spotalis.Observation.{WorkloadKind}

abbrev minutely : CronLibrary
minutely = record {
  Schedule = Unit {0};
  parse = λ s. some tt;
  next = λ s t. t + minute;
  parse_duration = λ s. some (pos (30 * second));
}

abbrev renamed : String → Text
renamed key = if str_eq key "APP_OPERATOR_NAMESPACE" then codes "shop" else []

abbrev opened : SpotalisConfig → SpotalisConfig
opened c = record c {
  operator = record (c.operator) {
    disruption_window = record { schedule = codes "* * * * *"; duration = codes "30s" };
  };
}

abbrev one_file : FileLibrary
one_file = record {
  Content = Unit {0};
  read_file = λ path. if str_eq path "spotalis.yaml" then some tt else none;
  unmarshal = λ content c. some (opened c);
}

abbrev with_file : Loader
with_file = with_env_prefix "APP" (with_config_file "spotalis.yaml" new_loader)

abbrev started : SpotalisConfig
started = record (opened default_config) {
  operator = record ((opened default_config).operator) { namespace = codes "shop" };
}

started_lem : load renamed minutely with_file one_file ≡ ok started
unfolding load new_loader with_config_file with_env_prefix get_env parse_bool parse_int text_from
    bool_from int_from duration_from leader_election_from_env operator_from_env timing_from_env
    controllers_from_env webhook_from_env observability_from_env load_from_env load_from_file
    validated default_config validate validate_window validate_parts validate_workload_timing
    is_blank
started_lem = refl

abbrev half_window : DisruptionWindowConfig
half_window = record { schedule = codes "* * * * *"; duration = [] }

half_window_refused : validate_window minutely half_window ≡ some window_incomplete
unfolding validate_window is_blank
half_window_refused = refl

abbrev idle : SpotalisConfig
idle = record default_config {
  controllers = record (default_config.controllers) { max_concurrent_reconciles = pos 0 };
}

idle_refused : validate minutely idle ≡ some reconciles_not_positive
unfolding validate default_config is_blank
idle_refused = refl

missing_file :
    load renamed minutely (with_config_file "none.yaml" new_loader) one_file ≡ err file_unreadable
unfolding load new_loader with_config_file load_from_file
missing_file = refl

load_iff_example :
    (load renamed minutely with_file one_file ≡ ok started)
    ↔ (Read minutely renamed with_file one_file started × IsSound minutely started)
load_iff_example = load_iff minutely renamed with_file one_file started

-- Validate accepts intervals that the documentation excludes.
abbrev without_intervals : SpotalisConfig
without_intervals = record default_config {
  operator = record (default_config.operator) {
    leader_election = record (default_config.operator.leader_election) { lease_duration = pos 0 };
  };
  controllers = record (default_config.controllers) { reconcile_interval = pos 0 };
}

without_intervals_accepted : validate minutely without_intervals ≡ none
unfolding validate default_config is_blank validate_window validate_workload_timing
without_intervals_accepted = refl

abbrev bare : Deployment
bare = record {
  meta = record { labels = none; annotations = none };
  workload = record {
    kind = WorkloadKind.deployment;
    namespace = "shop";
    uid = "uid-1";
    generation = pos 1;
    selector = some (record { match_labels = [] });
  };
  replicas = some (pos 2);
  status_replicas = pos 2;
  ready_replicas = pos 2;
  updated_replicas = pos 2;
  available_replicas = pos 2;
  unavailable_replicas = pos 0;
}

abbrev under_window : Environment deployments
under_window = record (quiet {W = deployments} bare (on_spot []) (100 * second)) {
  global_window = global_window_of started;
}

no_window : parse_disruption_window minutely (or_empty none) ≡ ok none
unfolding parse_disruption_window
no_window = refl

resolve-load_example :
    (w : Option (DisruptionWindow minutely)) × (resolve_disruption_window minutely "shop/web"
        under_window bare
      ≡ ok w)
resolve-load_example =
    resolve-load minutely renamed with_file one_file "shop/web" under_window bare started none none
      none started_lem refl no_window refl no_window

finds_global :
    resolve_disruption_window minutely "shop/web" under_window bare
    ≡ ok (some (record { schedule = tt; duration = pos (30 * second) }))
unfolding resolve_disruption_window parse_disruption_window parse_parts global_window_of
    annotations_of is_blank default_config
finds_global = refl

abbrev no_failure : Failures
no_failure = record {
  pod_index = false;
  replica_set_index = false;
  deployment_builder = false;
  stateful_set_builder = false;
}

registry_enables_none_example :
    ((e : ManagerError) × (validate_configuration
          (new_controller_manager true (some (manager_config_of started)))
        ≡ some e))
    × (get_controller_status
          (setup_controllers no_failure
            (new_controller_manager true (some (manager_config_of started)))).0
          "deployment"
        ≡ none)
registry_enables_none_example = registry_enables_none started no_failure "deployment"
