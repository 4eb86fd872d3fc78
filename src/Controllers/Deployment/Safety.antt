-- ===== src/Controllers/Deployment/Safety.antt =====
-- When Reconcile of pkg/controllers/deployment_controller.go asks for an eviction.
use spotalis.Common.{◌≡◌, ◌⊎◌, inl, inr, refl, String, false, none, List, [], ◌∷◌, ok, Result-cases}
use spotalis.Kube.{Pod}
use spotalis.Apis.ReplicaState.{ReplicaState}
use spotalis.Annotations.DisruptionWindow.{CronLibrary}
use spotalis.Observation.{Snapshot, eligible_pods}
use spotalis.Observation.Service.{observe}
use spotalis.Controllers.Deployment.{Deployment, select_pods_for_deletion, deployments}
use spotalis.Controllers.Deployment.Reconcile.{
  execute_deployment_rebalancing, perform_pod_rebalancing, reconcile,
}
use spotalis.Controllers.Reconciler.{WorkloadReconciler, Environment}
use spotalis.Controllers.Reconciler.Evictions.{Evicts, evict_first-Evicts, reconcile_by-Evicts}
use spotalis.Controllers.Reconciler.Prepared.{IsPrepared}
use spotalis.Controllers.Reconciler.Rebalancing.{is_blocked}

module _ (cron : CronLibrary) (key : String) (env : Environment deployments) where
  -- The pod is the first of those to be deleted, and no budget is known to block it.
  pub record IsChosen (d : Deployment) (desired : ReplicaState) (p : Pod) : Type 0 where
    pub snapshot : Snapshot
    pub rest : List Pod
    pub observed : observe env.categorizing env.checked_at d.workload ≡ ok snapshot
    pub selected :
        select_pods_for_deletion (eligible_pods snapshot).0 (eligible_pods snapshot).1 desired
        ≡ p ∷ rest
    pub not_blocked : is_blocked cron key env p ≡ false

  pub perform-Evicts :
      (r : WorkloadReconciler) (d : Deployment) (desired : ReplicaState)
      → Evicts cron key env
          (perform_pod_rebalancing cron key env r d desired).evictions
          (IsChosen d desired)
  unfolding perform_pod_rebalancing execute_deployment_rebalancing
  perform-Evicts r d desired =
      elim (Result-cases (observe env.categorizing env.checked_at d.workload)) [
        | inr (e, q) ↦ inl (rw (perform_pod_rebalancing, q) refl)
        | inl (s, q) ↦
            elim (evict_first-Evicts cron key env ([], none) r
              (select_pods_for_deletion (eligible_pods s).0 (eligible_pods s).1 desired)) [
                | inl none_evicted ↦ inl (rw (perform_pod_rebalancing, q) none_evicted)
                | inr (p, one, (rest, selected, n)) ↦ inr (
                  p,
                  rw (perform_pod_rebalancing, q) one,
                  record {
                    snapshot = s;
                    rest = rest;
                    observed = q;
                    selected = selected;
                    not_blocked = n;
                  },
                )
              ]
      ]

  -- A reconciliation asks for the eviction of at most one pod. It does so only for a deployment
  -- that is enabled, in an allowed namespace, stable, past its cooldown and within its disruption
  -- window, and whose counted pods differ from the distribution that its own configuration gives to
  -- its replicas; and only for the first of the pods to be deleted for this distribution that a
  -- fresh listing shows, unless a budget is known to block it.
  pub reconcile_evictions :
      (r : WorkloadReconciler)
      → ((reconcile cron key env r).evictions ≡ [])
        ⊎ ((p : Pod) × ((reconcile cron key env r).evictions ≡ p ∷ [])
            × ((d : Deployment) × (desired : ReplicaState) × IsPrepared cron key env r d desired
                × IsChosen d desired p))
  unfolding reconcile
  reconcile_evictions =
      reconcile_by-Evicts cron key env (perform_pod_rebalancing cron key env) IsChosen
        perform-Evicts
