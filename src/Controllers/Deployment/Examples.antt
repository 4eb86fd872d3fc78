-- ===== src/Controllers/Deployment/Examples.antt =====
-- A Deployment of two replicas, both on spot nodes, that is to run on demand.
use spotalis.Common.{
  ◌≡◌, ◌⊎◌, refl, String, Bool, true, false, ◌<ℤ◌, if◌then◌else◌, Option, none, some, List, [], ◌∷◌,
  Result, ok, err, ℤ, pos, pos_part, neg_part, ◌+◌, ◌<◌, arith, str_eq, ◌*◌,
}
use spotalis.Common.Text.{codes}
use spotalis.Common.Time.{Time, second, minute, since}
use spotalis.Kube.{Pod}
use spotalis.Apis.ReplicaState.{ReplicaState}
use spotalis.Annotations.DisruptionWindow.{CronLibrary}
use spotalis.Observation.{Workload, WorkloadKind}
use spotalis.Observation.Service.{Answers}
use spotalis.Controllers.Deployment.{Deployment, deployments}
use spotalis.Controllers.Reconciler.{WorkloadReconciler, Environment, get_cooldown_period}
use spotalis.Controllers.Reconciler.Prepared.{IsPrepared}
use spotalis.Controllers.Reconciler.Samples.{no_cron, ready_pod, on_spot, quiet, fresh_reconciler}
use spotalis.Controllers.Deployment.Safety.{IsChosen, reconcile_evictions}
use spotalis.Controllers.Deployment.Cooldown.{cooldown_between}
use spotalis.Controllers.Deployment.Reconcile.{reconcile}

abbrev web_pods : List Pod
web_pods = ready_pod (codes "web") "node-1" ∷ ready_pod (codes "web") "node-2" ∷ []

abbrev web : Deployment
web = record {
  meta = record {
    labels = some (λ k. if str_eq k "spotalis.io/enabled" then some (codes "true") else none);
    annotations = none;
  };
  workload = record {
    kind = WorkloadKind.deployment;
    namespace = "shop";
    uid = "uid-1";
    generation = pos 1;
    selector = some (record { match_labels = [] });
  };
  replicas = some (pos 2);
  status_replicas = pos 2;
  ready_replicas = pos 2;
  updated_replicas = pos 2;
  available_replicas = pos 2;
  unavailable_replicas = pos 0;
}

abbrev at_time : Time → Environment deployments
at_time t = quiet web (on_spot web_pods) t

evicts_one :
    (reconcile no_cron "shop/web" (at_time (100 * second)) fresh_reconciler).evictions
    ≡ ready_pod (codes "web") "node-1" ∷ []
unfolding reconcile spotalis.Annotations.DisruptionWindow.add_time
    spotalis.Annotations.DisruptionWindow.is_within_window
    spotalis.Annotations.DisruptionWindow.parse_disruption_window
    spotalis.Annotations.DisruptionWindow.sub_duration
    spotalis.Annotations.Parser.is_spotalis_enabled
    spotalis.Annotations.Parser.parse_workload_configuration
    spotalis.Apis.Configuration.allocation_policy spotalis.Apis.Policy.allocate_replica_distribution
    spotalis.Apis.Policy.min_int32 spotalis.Apis.Policy.validate_replica_allocation_policy
    spotalis.Apis.ReplicaState.calculate_desired_distribution spotalis.Common.Strconv.atoi
    spotalis.Common.Strconv.parse_int spotalis.Common.Text.to_lower spotalis.Common.Text.trim_suffix
    spotalis.Common.Time.sub_time spotalis.Common.Words.wrap32 spotalis.Common.Words.wrap64
    spotalis.Common.quot spotalis.Common.◌*ℤ◌ spotalis.Common.◌+ℤ◌ spotalis.Common.◌-ℤ◌
    spotalis.Controllers.Reconciler.Guards.admit spotalis.Controllers.Reconciler.Guards.assess
    spotalis.Controllers.Reconciler.Guards.check_cooldown
    spotalis.Controllers.Reconciler.Guards.check_drift
    spotalis.Controllers.Reconciler.Guards.check_enabled
    spotalis.Controllers.Reconciler.Guards.check_namespace
    spotalis.Controllers.Reconciler.Guards.check_stable
    spotalis.Controllers.Reconciler.Guards.check_window
    spotalis.Controllers.Reconciler.Guards.current_state
    spotalis.Controllers.Reconciler.Guards.fetch
    spotalis.Controllers.Reconciler.Guards.observe_counts
    spotalis.Controllers.Reconciler.Guards.permit spotalis.Controllers.Reconciler.Guards.prepare
    spotalis.Controllers.Reconciler.Guards.read_configuration
    spotalis.Controllers.Reconciler.Guards.resolve_disruption_window
    spotalis.Controllers.Reconciler.Rebalancing.count_reconcile
    spotalis.Controllers.Deployment.Reconcile.execute_deployment_rebalancing
    spotalis.Controllers.Reconciler.Rebalancing.is_blocked
    spotalis.Controllers.Reconciler.Rebalancing.evict_first
    spotalis.Controllers.Reconciler.Rebalancing.reconcile_by
    spotalis.Controllers.Deployment.Reconcile.perform_pod_rebalancing
    spotalis.Controllers.Reconciler.Rebalancing.record_deletion
    spotalis.Controllers.Deployment.excess_pods spotalis.Controllers.Reconciler.get_cooldown_period
    spotalis.Controllers.Reconciler.get_disruption_retry_interval
    spotalis.Controllers.Reconciler.get_disruption_window_poll_interval
    spotalis.Controllers.Deployment.is_deployment_stable_and_ready
    spotalis.Controllers.Reconciler.mark_recovered spotalis.Controllers.Reconciler.needs_rebalancing
    spotalis.Controllers.Reconciler.positive_or spotalis.Controllers.Reconciler.record_error
    spotalis.Controllers.Deployment.select_pods_for_deletion
    spotalis.Controllers.Eviction.check_budgets spotalis.Controllers.Eviction.check_pdb_status
    spotalis.Controllers.Eviction.evict_pod spotalis.Controllers.Eviction.matches
    spotalis.Observation.actual_counts spotalis.Observation.Service.capacity_for
    spotalis.Observation.Service.classify spotalis.Observation.count_pods
    spotalis.Observation.eligible_pods spotalis.Observation.Service.first_ready
    spotalis.Observation.Service.intent_for spotalis.Observation.Service.is_assigned
    spotalis.Observation.Service.is_deleting spotalis.Observation.is_gone
    spotalis.Observation.is_on_demand spotalis.Observation.Service.is_pending
    spotalis.Observation.is_ready_lifecycle spotalis.Observation.is_spot
    spotalis.Observation.Service.is_terminal spotalis.Observation.Service.lifecycle_for
    spotalis.Observation.Service.observe spotalis.Observation.Service.observed
    spotalis.Observation.ready_pods spotalis.Observation.Service.selector_for
    spotalis.Observation.Service.snapshot_of spotalis.Observation.Service.workload_pods
evicts_one = refl

reconcile_evictions_example :
    ((reconcile no_cron "shop/web" (at_time (100 * second)) fresh_reconciler).evictions ≡ [])
    ⊎ ((p : Pod) × ((reconcile no_cron "shop/web"
            (at_time (100 * second))
            fresh_reconciler).evictions
          ≡ p ∷ [])
        × ((d : Deployment) × (desired : ReplicaState) × IsPrepared no_cron "shop/web"
              (at_time (100 * second))
              fresh_reconciler
              d
              desired
            × IsChosen no_cron "shop/web" (at_time (100 * second)) d desired p))
reconcile_evictions_example =
    reconcile_evictions no_cron "shop/web" (at_time (100 * second)) fresh_reconciler

cooldown_left : since (101 * second) (100 * second) <ℤ get_cooldown_period fresh_reconciler
unfolding get_cooldown_period spotalis.Common.Time.sub_time
cooldown_left = omega arith

cooldown_between_example :
    (reconcile no_cron "shop/web"
      (at_time (101 * second))
      (reconcile no_cron "shop/web" (at_time (100 * second)) fresh_reconciler).state).evictions
    ≡ []
cooldown_between_example =
    cooldown_between no_cron "shop/web" (at_time (100 * second)) (at_time (101 * second))
      fresh_reconciler (ready_pod (codes "web") "node-1") evicts_one refl cooldown_left
