-- ===== src/Controllers/StatefulSet/Updates.antt =====
-- When Reconcile of pkg/controllers/statefulset_controller.go updates the StatefulSet.
use spotalis.Common.{◌≡◌, ◌⊎◌, inl, inr, refl, String, true, [], ◌∷◌, Result-cases}
use spotalis.Apis.ReplicaState.{ReplicaState}
use spotalis.Annotations.DisruptionWindow.{CronLibrary}
use spotalis.Observation.{eligible_pods}
use spotalis.Observation.Service.{observe}
use spotalis.Controllers.Reconciler.{WorkloadReconciler, Environment}
use spotalis.Controllers.Reconciler.Prepared.{IsPrepared}
use spotalis.Controllers.Reconciler.Updates.{
  IsAfterEviction, Sends, evict_first-Sends, reconcile_by-Sends,
}
use spotalis.Controllers.StatefulSet.{
  StatefulSet, stateful_sets, select_pods_for_deletion, sort_pods_by_ordinal,
}
use spotalis.Controllers.StatefulSet.Template.{rebalanced_object}
use spotalis.Controllers.StatefulSet.Reconcile.{
  Updating, update_stateful_set_for_rebalancing, execute_gradual_rebalancing,
  perform_pod_rebalancing, reconcile,
}

module _ (cron : CronLibrary) (key : String) (env : Environment stateful_sets) (up : Updating) where
  perform-Sends :
      (r : WorkloadReconciler) (sts : StatefulSet) (desired : ReplicaState)
      → Sends cron key env
          (rebalanced_object desired up.timestamp sts ∷ [])
          (perform_pod_rebalancing cron key env up r sts desired)
  unfolding perform_pod_rebalancing execute_gradual_rebalancing update_stateful_set_for_rebalancing
  perform-Sends r sts desired =
      elim (Result-cases (observe env.categorizing env.checked_at sts.workload)) [
        | inr (e, q) ↦ inl (rw (perform_pod_rebalancing, q) refl)
        | inl (s, q) ↦
            rw (perform_pod_rebalancing, q)
              (evict_first-Sends cron key env
                (update_stateful_set_for_rebalancing cron key env up sts desired) r
                (sort_pods_by_ordinal up.sort
                  (select_pods_for_deletion (eligible_pods s).0 (eligible_pods s).1 desired)
                  sts.name true))
      ]

  -- A reconciliation updates no object, or else it sends one: the StatefulSet that it has read, with
  -- a distribution and the time in its pod template. The distribution is the one that the
  -- StatefulSet's own configuration gives to its replicas, from which the counted pods differ. An
  -- object is sent only past all the guards and after the eviction of one pod that has not failed,
  -- whose time is recorded for the cooldown, even when the update fails.
  pub reconcile_updates :
      (r : WorkloadReconciler)
      → ((reconcile cron key env up r).updates ≡ [])
        ⊎ (IsAfterEviction cron key env
              (reconcile cron key env up r).evictions
              (reconcile cron key env up r).state
            × ((sts : StatefulSet) × (desired : ReplicaState) × IsPrepared cron key env r sts
                  desired
                × ((reconcile cron key env up r).updates
                    ≡ rebalanced_object desired up.timestamp sts ∷ [])))
  unfolding reconcile
  reconcile_updates =
      reconcile_by-Sends cron key env (perform_pod_rebalancing cron key env up)
        (λ sts desired. rebalanced_object desired up.timestamp sts ∷ []) perform-Sends
