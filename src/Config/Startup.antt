-- ===== src/Config/Startup.antt =====
-- The configuration that the process starts with, in the reconcilers of pkg/controllers: the global
-- disruption window and the intervals.
use spotalis.Common.{
  ◌≡◌, refl, String, true, false, if◌then◌else◌, Option, none, some, [], pos, leb_ℤ, ok, arith,
  subst, sym, ◌∙◌, Bool-cases, inl, inr, Option-cases,
}
use spotalis.Common.Text.{Text}
use spotalis.Kube.{StringMap}
use spotalis.Annotations.DisruptionWindow.{CronLibrary, DisruptionWindow, parse_disruption_window}
use spotalis.Config.{SpotalisConfig, is_blank}
use spotalis.Config.Loader.{FileLibrary, Loader, load}
use spotalis.Config.Soundness.{annotations_of, accepted_parses, load-IsSound}
use spotalis.Controllers.Manager.{
  ManagerConfig, Failures, new_controller_manager, setup_controllers, when_enabled,
  register_observation_indexes,
}
use spotalis.Controllers.Manager.Status.{
  get_controller_status, validate_configuration, ManagerError, reconciles_not_positive,
  timeout_not_positive,
}
use spotalis.Controllers.Reconciler.{WorkloadType, Environment, or_empty}
use spotalis.Controllers.Reconciler.Guards.{resolve_disruption_window}

-- The third level of resolveDisruptionWindow.
unfoldable pub global_window_of : SpotalisConfig → Option StringMap
unfolding is_blank annotations_of
global_window_of c =
    if is_blank c.operator.disruption_window.schedule
    then none
    else some (annotations_of c.operator.disruption_window)

-- The configuration of the manager in RegisterControllers of pkg/di/registry.go; a field that is not
-- set is zero.
unfoldable pub manager_config_of : SpotalisConfig → ManagerConfig
manager_config_of c = record {
  max_concurrent_reconciles = c.controllers.max_concurrent_reconciles;
  reconcile_timeout = pos 0;
  reconcile_interval = c.controllers.reconcile_interval;
  workload_timing = record {
    cooldown_period = c.controllers.workload_timing.cooldown_period;
    disruption_retry_interval = c.controllers.workload_timing.disruption_retry_interval;
    disruption_window_poll_interval = c.controllers.workload_timing.disruption_window_poll_interval;
  };
  watch_namespaces = [];
  ignore_namespaces = [];
  enable_deployments = false;
  enable_stateful_sets = false;
  enable_daemon_sets = false;
  leader_election = false;
  metrics_bind_address = "";
  health_probe_bind_address = "";
  cache_sync_timeout = pos 0;
  graceful_shutdown_timeout = pos 0;
}

module _ {W : WorkloadType} (cron : CronLibrary) (key : String) (env : Environment W) where
  -- What is left of the resolution when the object's annotations and the namespace's labels parse.
  third_level :
      (d : W.Object) (a b : Option (DisruptionWindow cron)) (labels : Option StringMap)
      → parse_disruption_window cron (or_empty (W.meta d).annotations) ≡ ok a
      → env.namespace_labels (W.workload d).namespace ≡ ok labels
      → parse_disruption_window cron (or_empty labels) ≡ ok b
      → ((m : StringMap)
          → env.global_window ≡ some m
          → (w : Option (DisruptionWindow cron)) × (parse_disruption_window cron m ≡ ok w))
      → (w : Option (DisruptionWindow cron)) × (resolve_disruption_window cron key env d ≡ ok w)
  unfolding resolve_disruption_window
  third_level d (some a) b labels own read ns global =
      (some a, rw (resolve_disruption_window, own) refl)
  third_level d none (some b) labels own read ns global =
      (some b, rw (resolve_disruption_window, own, read, ns) refl)
  third_level d none none labels own read ns global = elim (Option-cases env.global_window) [
    | inl unset ↦ (none, rw (resolve_disruption_window, own, read, ns, unset) refl)
    | inr (m, set) ↦
        let (w, parses) = global m set in
        (w, rw (resolve_disruption_window, own, read, ns, set, parses) refl)
  ]

module _ (cron : CronLibrary) (getenv : String → Text) (l : Loader) (files : FileLibrary) where
  global_parses :
      (c : SpotalisConfig) (m : StringMap)
      → load getenv cron l files ≡ ok c
      → global_window_of c ≡ some m
      → (w : Option (DisruptionWindow cron)) × (parse_disruption_window cron m ≡ ok w)
  unfolding global_window_of
  global_parses c m h set =
      let sound = load-IsSound cron getenv l files c h in
      let (w, parses) = accepted_parses cron c.operator.disruption_window sound.window in
      let same : annotations_of c.operator.disruption_window ≡ m = ground arith in
      (w, subst (λ n. parse_disruption_window cron n ≡ ok w) same parses)

  -- "Should never happen - validated at startup": with the window of a configuration that Load
  -- returned, resolveDisruptionWindow fails only when the annotations of the object do not parse, the
  -- namespace cannot be read, or its labels do not parse.
  pub resolve-load :
      {W : WorkloadType} (key : String) (env : Environment W) (d : W.Object) (c : SpotalisConfig)
      → (a b : Option (DisruptionWindow cron)) (labels : Option StringMap)
      → load getenv cron l files ≡ ok c
      → env.global_window ≡ global_window_of c
      → parse_disruption_window cron (or_empty (W.meta d).annotations) ≡ ok a
      → env.namespace_labels (W.workload d).namespace ≡ ok labels
      → parse_disruption_window cron (or_empty labels) ≡ ok b
      → (w : Option (DisruptionWindow cron)) × (resolve_disruption_window cron key env d ≡ ok w)
  resolve-load key env d c a b labels h global own read ns =
      third_level cron key env d a b labels own read ns
        λ m set. global_parses c m h (sym global ∙ set)

-- The manager that the registry makes has no kind of controller enabled: its ValidateConfiguration
-- fails on every configuration, and its SetupControllers sets up no controller.
pub registry_enables_none :
    (c : SpotalisConfig) (failures : Failures) (k : String)
    → ((e : ManagerError) × (validate_configuration
            (new_controller_manager true (some (manager_config_of c)))
          ≡ some e))
      × (get_controller_status
            (setup_controllers failures
              (new_controller_manager true (some (manager_config_of c)))).0
            k
          ≡ none)
unfolding manager_config_of validate_configuration new_controller_manager setup_controllers
    when_enabled get_controller_status register_observation_indexes
registry_enables_none c failures k = (
  elim (Bool-cases (leb_ℤ c.controllers.max_concurrent_reconciles (pos 0))) [
    | inl few ↦ (reconciles_not_positive, rw few refl)
    | inr enough ↦ (timeout_not_positive, rw enough refl)
  ],
  ground arith,
)
