-- ===== src/Controllers/StatefulSet/Safety.antt =====
-- When Reconcile of pkg/controllers/statefulset_controller.go asks for an eviction, and when for an
-- update.
use spotalis.Common.{◌≡◌, ◌⊎◌, inl, inr, refl, String, false, [], ◌∷◌, ok, Result-cases}
use spotalis.Kube.{Pod}
use spotalis.Apis.ReplicaState.{ReplicaState}
use spotalis.Annotations.DisruptionWindow.{CronLibrary}
use spotalis.Observation.{Snapshot, eligible_pods}
use spotalis.Observation.Service.{observe}
use spotalis.Common.Sorting.{IsSorting}
use spotalis.Controllers.Reconciler.{WorkloadReconciler, Environment}
use spotalis.Controllers.Reconciler.Evictions.{Evicts, evict_first-Evicts, reconcile_by-Evicts}
use spotalis.Controllers.Reconciler.Prepared.{IsPrepared}
use spotalis.Controllers.Reconciler.Rebalancing.{is_blocked}
use spotalis.Controllers.StatefulSet.{StatefulSet, stateful_sets, select_pods_for_deletion}
use spotalis.Controllers.StatefulSet.Ordinals.{IsHighest, sort-IsHighest}
use spotalis.Controllers.StatefulSet.Reconcile.{
  Updating, execute_gradual_rebalancing, perform_pod_rebalancing, reconcile,
}

module _ (cron : CronLibrary) (key : String) (env : Environment stateful_sets) (up : Updating)
    (sorting : IsSorting up.sort) where
  -- The pod has the highest ordinal of those to be deleted, and no budget is known to block it.
  pub record IsChosen (sts : StatefulSet) (desired : ReplicaState) (p : Pod) : Type 0 where
    pub snapshot : Snapshot
    pub observed : observe env.categorizing env.checked_at sts.workload ≡ ok snapshot
    pub highest :
        IsHighest sts.name
          (select_pods_for_deletion (eligible_pods snapshot).0 (eligible_pods snapshot).1 desired)
          p
    pub not_blocked : is_blocked cron key env p ≡ false

  pub perform-Evicts :
      (r : WorkloadReconciler) (sts : StatefulSet) (desired : ReplicaState)
      → Evicts cron key env
          (perform_pod_rebalancing cron key env up r sts desired).evictions
          (IsChosen sts desired)
  unfolding perform_pod_rebalancing execute_gradual_rebalancing
  perform-Evicts r sts desired =
      elim (Result-cases (observe env.categorizing env.checked_at sts.workload)) [
        | inr (e, q) ↦ inl (rw (perform_pod_rebalancing, q) refl)
        | inl (s, q) ↦
            let selected =
              select_pods_for_deletion (eligible_pods s).0 (eligible_pods s).1 desired in
            elim (evict_first-Evicts cron key env _ r _) [
              | inl none_evicted ↦ inl (rw (perform_pod_rebalancing, q) none_evicted)
              | inr (p, one, (rest, first, n)) ↦ inr (
                p,
                rw (perform_pod_rebalancing, q) one,
                record {
                  snapshot = s;
                  observed = q;
                  highest = sort-IsHighest up.sort sorting sts.name selected first;
                  not_blocked = n;
                },
              )
            ]
      ]

  -- A reconciliation asks for the eviction of at most one pod. It does so only for a StatefulSet
  -- that is enabled, in an allowed namespace, stable, past its cooldown and within its disruption
  -- window, and whose counted pods differ from the distribution that its own configuration gives to
  -- its replicas; and only for a pod of the highest ordinal among those to be deleted for this
  -- distribution that a fresh listing shows, unless a budget is known to block it. The function
  -- that stands for sort.Slice has to do what the package documents.
  pub reconcile_highest :
      (r : WorkloadReconciler)
      → ((reconcile cron key env up r).evictions ≡ [])
        ⊎ ((p : Pod) × ((reconcile cron key env up r).evictions ≡ p ∷ [])
            × ((sts : StatefulSet) × (desired : ReplicaState) × IsPrepared cron key env r sts
                  desired
                × IsChosen sts desired p))
  unfolding reconcile
  reconcile_highest =
      reconcile_by-Evicts cron key env (perform_pod_rebalancing cron key env up) IsChosen
        perform-Evicts
