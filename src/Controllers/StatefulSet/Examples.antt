-- ===== src/Controllers/StatefulSet/Examples.antt =====
-- A StatefulSet of two replicas, both on spot nodes, that is to run on demand.
use spotalis.Common.{
  ◌≡◌, ◌⊎◌, refl, true, if◌then◌else◌, ◌++◌, none, some, List, [], ◌∷◌, pos, ◌<◌, ◌^◌, arith,
  str_eq, ◌*◌,
}
use spotalis.Common.Text.{codes}
use spotalis.Common.Time.{Time, second}
use spotalis.Common.Strconv.{format_nat}
use spotalis.Common.Sorting.Insertion.{insertion, insertion-IsSorting}
use spotalis.Kube.{Pod}
use spotalis.Apis.ReplicaState.{ReplicaState}
use spotalis.Observation.{WorkloadKind}
use spotalis.Controllers.Reconciler.{Environment}
use spotalis.Controllers.Reconciler.Prepared.{IsPrepared}
use spotalis.Controllers.Reconciler.Updates.{IsAfterEviction}
use spotalis.Controllers.Reconciler.Samples.{no_cron, ready_pod, on_spot, quiet, fresh_reconciler}
use spotalis.Controllers.StatefulSet.{StatefulSet, PodTemplate, stateful_sets, extract_pod_ordinal}
use spotalis.Controllers.StatefulSet.Ordinals.{extract-pod_name}
use spotalis.Controllers.StatefulSet.Template.{rebalanced_object}
use spotalis.Controllers.StatefulSet.Reconcile.{Updating, reconcile}
use spotalis.Controllers.StatefulSet.Safety.{IsChosen, reconcile_highest}
use spotalis.Controllers.StatefulSet.Updates.{reconcile_updates}

abbrev db_pods : List Pod
db_pods = ready_pod (codes "db-0") "node-1" ∷ ready_pod (codes "db-1") "node-2" ∷ []

abbrev plain_template : PodTemplate
plain_template = record { annotations = none; tolerations = [] }

abbrev db : StatefulSet
db = record {
  name = codes "db";
  meta = record {
    labels = some (λ k. if str_eq k "spotalis.io/enabled" then some (codes "true") else none);
    annotations = none;
  };
  workload = record {
    kind = WorkloadKind.stateful_set;
    namespace = "shop";
    uid = "uid-2";
    generation = pos 1;
    selector = some (record { match_labels = [] });
  };
  replicas = some (pos 2);
  template = plain_template;
  status_replicas = pos 2;
  ready_replicas = pos 2;
  current_replicas = pos 2;
  updated_replicas = pos 2;
}

abbrev quiet_db : Environment stateful_sets
quiet_db = quiet db (on_spot db_pods) (100 * second)

abbrev accepting : Updating
accepting = record {
  sort = insertion;
  timestamp = codes "2025-01-01T00:00:00Z";
  update = λ s. none;
}

evicts_highest :
    (reconcile no_cron "shop/db" quiet_db accepting fresh_reconciler).evictions
    ≡ ready_pod (codes "db-1") "node-2" ∷ []
unfolding reconcile spotalis.Annotations.DisruptionWindow.add_time
    spotalis.Annotations.DisruptionWindow.is_within_window
    spotalis.Annotations.DisruptionWindow.parse_disruption_window
    spotalis.Annotations.DisruptionWindow.sub_duration
    spotalis.Annotations.Parser.is_spotalis_enabled
    spotalis.Annotations.Parser.parse_workload_configuration
    spotalis.Apis.Configuration.allocation_policy spotalis.Apis.Policy.allocate_replica_distribution
    spotalis.Apis.Policy.min_int32 spotalis.Apis.Policy.validate_replica_allocation_policy
    spotalis.Apis.ReplicaState.calculate_desired_distribution spotalis.Common.Strconv.atoi
    spotalis.Common.Strconv.parse_int spotalis.Common.Text.to_lower spotalis.Common.Text.trim_suffix
    spotalis.Common.Time.sub_time spotalis.Common.Words.wrap32 spotalis.Common.Words.wrap64
    spotalis.Common.quot spotalis.Common.◌*ℤ◌ spotalis.Common.◌+ℤ◌ spotalis.Common.◌-ℤ◌
    spotalis.Controllers.Reconciler.Guards.admit spotalis.Controllers.Reconciler.Guards.assess
    spotalis.Controllers.Reconciler.Guards.check_cooldown
    spotalis.Controllers.Reconciler.Guards.check_drift
    spotalis.Controllers.Reconciler.Guards.check_enabled
    spotalis.Controllers.Reconciler.Guards.check_namespace
    spotalis.Controllers.Reconciler.Guards.check_stable
    spotalis.Controllers.Reconciler.Guards.check_window
    spotalis.Controllers.Reconciler.Guards.current_state
    spotalis.Controllers.Reconciler.Guards.fetch
    spotalis.Controllers.Reconciler.Guards.observe_counts
    spotalis.Controllers.Reconciler.Guards.permit spotalis.Controllers.Reconciler.Guards.prepare
    spotalis.Controllers.Reconciler.Guards.read_configuration
    spotalis.Controllers.Reconciler.Guards.resolve_disruption_window
    spotalis.Controllers.Reconciler.Rebalancing.count_reconcile
    spotalis.Controllers.Reconciler.Rebalancing.is_blocked
    spotalis.Controllers.Reconciler.Rebalancing.evict_first
    spotalis.Controllers.Reconciler.Rebalancing.reconcile_by
    spotalis.Controllers.Reconciler.Rebalancing.record_deletion
    spotalis.Controllers.Reconciler.get_cooldown_period
    spotalis.Controllers.Reconciler.get_disruption_retry_interval
    spotalis.Controllers.Reconciler.get_disruption_window_poll_interval
    spotalis.Controllers.Reconciler.mark_recovered spotalis.Controllers.Reconciler.needs_rebalancing
    spotalis.Controllers.Reconciler.positive_or spotalis.Controllers.Reconciler.record_error
    spotalis.Controllers.Eviction.check_budgets spotalis.Controllers.Eviction.check_pdb_status
    spotalis.Controllers.Eviction.evict_pod spotalis.Controllers.Eviction.matches
    spotalis.Observation.actual_counts spotalis.Observation.Service.capacity_for
    spotalis.Observation.Service.classify spotalis.Observation.count_pods
    spotalis.Observation.eligible_pods spotalis.Observation.Service.first_ready
    spotalis.Observation.Service.intent_for spotalis.Observation.Service.is_assigned
    spotalis.Observation.Service.is_deleting spotalis.Observation.is_gone
    spotalis.Observation.is_on_demand spotalis.Observation.Service.is_pending
    spotalis.Observation.is_ready_lifecycle spotalis.Observation.is_spot
    spotalis.Observation.Service.is_terminal spotalis.Observation.Service.lifecycle_for
    spotalis.Observation.Service.observe spotalis.Observation.Service.observed
    spotalis.Observation.ready_pods spotalis.Observation.Service.selector_for
    spotalis.Observation.Service.snapshot_of spotalis.Observation.Service.workload_pods
    spotalis.Controllers.StatefulSet.excess_pods
    spotalis.Controllers.StatefulSet.select_pods_for_deletion
    spotalis.Controllers.StatefulSet.is_stateful_set_stable_and_ready
    spotalis.Controllers.StatefulSet.extract_pod_ordinal
    spotalis.Controllers.StatefulSet.with_ordinal
    spotalis.Controllers.StatefulSet.sort_pods_by_ordinal
    spotalis.Controllers.StatefulSet.Reconcile.update_stateful_set_for_rebalancing
    spotalis.Controllers.StatefulSet.Reconcile.execute_gradual_rebalancing
    spotalis.Controllers.StatefulSet.Reconcile.perform_pod_rebalancing
    spotalis.Common.Sorting.Insertion.arrange
evicts_highest = refl

reconcile_highest_example :
    ((reconcile no_cron "shop/db" quiet_db accepting fresh_reconciler).evictions ≡ [])
    ⊎ ((p : Pod) × ((reconcile no_cron "shop/db" quiet_db accepting fresh_reconciler).evictions
          ≡ p ∷ [])
        × ((sts : StatefulSet) × (desired : ReplicaState) × IsPrepared no_cron "shop/db" quiet_db
              fresh_reconciler sts desired
            × IsChosen no_cron "shop/db" quiet_db accepting insertion-IsSorting sts desired p))
reconcile_highest_example =
    reconcile_highest no_cron "shop/db" quiet_db accepting insertion-IsSorting fresh_reconciler

reconcile_updates_example :
    ((reconcile no_cron "shop/db" quiet_db accepting fresh_reconciler).updates ≡ [])
    ⊎ (IsAfterEviction no_cron "shop/db" quiet_db
          (reconcile no_cron "shop/db" quiet_db accepting fresh_reconciler).evictions
          (reconcile no_cron "shop/db" quiet_db accepting fresh_reconciler).state
        × ((sts : StatefulSet) × (desired : ReplicaState) × IsPrepared no_cron "shop/db" quiet_db
              fresh_reconciler sts desired
            × ((reconcile no_cron "shop/db" quiet_db accepting fresh_reconciler).updates
                ≡ rebalanced_object desired accepting.timestamp sts ∷ [])))
reconcile_updates_example = reconcile_updates no_cron "shop/db" quiet_db accepting fresh_reconciler

extract-pod_name_example :
    extract_pod_ordinal (codes "web-1" ++ b'-' ∷ format_nat 12) (codes "web-1") ≡ some (pos 12)
extract-pod_name_example = extract-pod_name (codes "web-1") 12 (omega arith)

abbrev one_spot : ReplicaState
one_spot = record {
  total_replicas = pos 2;
  current_on_demand = pos 0;
  current_spot = pos 2;
  desired_on_demand = pos 1;
  desired_spot = pos 1;
  last_reconciled = 0;
  pending_on_demand = pos 0;
  pending_spot = pos 0;
  failed_spot = pos 0;
}
