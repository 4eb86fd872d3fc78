-- ===== src/Controllers/StatefulSet/Reconcile.antt =====
-- Reconcile of pkg/controllers/statefulset_controller.go: the guards, the eviction of one pod, and
-- the update of the pod template.
use spotalis.Common.{String, true, Option, none, some, List, [], ◌∷◌, ok, err}
use spotalis.Common.Text.{Text}
use spotalis.Common.Sorting.{SortLibrary}
use spotalis.Kube.{ApiError, Pod}
use spotalis.Apis.ReplicaState.{ReplicaState}
use spotalis.Annotations.DisruptionWindow.{CronLibrary}
use spotalis.Observation.{eligible_pods}
use spotalis.Observation.Service.{observe}
use spotalis.Controllers.Reconciler.{
  WorkloadReconciler, Environment, Rebalanced, Outcome, ReconcileError, api_failed, observe_failed,
}
use spotalis.Controllers.Reconciler.Rebalancing.{evict_first, nothing_done, reconcile_by}
use spotalis.Controllers.StatefulSet.{
  StatefulSet, stateful_sets, select_pods_for_deletion, sort_pods_by_ordinal,
}
use spotalis.Controllers.StatefulSet.Template.{rebalanced_object}

-- What the update of a StatefulSet depends on: the sort, the time as RFC 3339 writes it, and the
-- answer of the API server.
pub record Updating : Type 1 where
  pub sort : SortLibrary
  pub timestamp : Text
  pub update : StatefulSet → Option ApiError

module _ (cron : CronLibrary) (key : String) (env : Environment stateful_sets) (up : Updating) where
  abbrev pub update_failure : Option ApiError → Option ReconcileError
  update_failure none = none
  update_failure (some e) = some (api_failed e)

  unfoldable pub update_stateful_set_for_rebalancing :
      StatefulSet → ReplicaState → List StatefulSet × Option ReconcileError
  unfolding rebalanced_object
  update_stateful_set_for_rebalancing sts desired =
      let changed = rebalanced_object desired up.timestamp sts in
      (changed ∷ [], update_failure (up.update changed))

  -- The pod with the highest ordinal; the StatefulSet is updated once it is evicted.
  unfoldable pub execute_gradual_rebalancing :
      WorkloadReconciler → StatefulSet → ReplicaState → List Pod → Rebalanced stateful_sets
  unfolding evict_first update_stateful_set_for_rebalancing sort_pods_by_ordinal
  execute_gradual_rebalancing r sts desired pods =
      evict_first cron key env (update_stateful_set_for_rebalancing sts desired) r
        (sort_pods_by_ordinal up.sort pods sts.name true)

  unfoldable pub perform_pod_rebalancing :
      WorkloadReconciler → StatefulSet → ReplicaState → Rebalanced stateful_sets
  unfolding execute_gradual_rebalancing
  perform_pod_rebalancing r sts desired =
      elim (observe env.categorizing env.checked_at sts.workload) [
        | err e ↦ nothing_done cron key env r (some (observe_failed e))
        | ok s ↦
            let (spot_pods, on_demand_pods) = eligible_pods s in
            execute_gradual_rebalancing r sts desired
              (select_pods_for_deletion spot_pods on_demand_pods desired)
      ]

  unfoldable pub reconcile : WorkloadReconciler → Outcome stateful_sets
  unfolding perform_pod_rebalancing reconcile_by
  reconcile r = reconcile_by cron key env perform_pod_rebalancing r
