-- ===== src/Controllers/Deployment/Cooldown.antt =====
-- The cooldown of pkg/controllers/deployment_controller.go between two reconciliations.
use spotalis.Common.{◌≡◌, inl, inr, String, ◌<ℤ◌, none, [], ◌∷◌, Result-cases}
use spotalis.Common.Time.{since}
use spotalis.Kube.{Pod}
use spotalis.Annotations.DisruptionWindow.{CronLibrary}
use spotalis.Observation.{eligible_pods}
use spotalis.Observation.Service.{observe}
use spotalis.Controllers.Deployment.{select_pods_for_deletion, deployments}
use spotalis.Controllers.Deployment.Reconcile.{
  execute_deployment_rebalancing, perform_pod_rebalancing, reconcile,
}
use spotalis.Controllers.Deployment.Safety.{IsChosen, perform-Evicts}
use spotalis.Controllers.Reconciler.{WorkloadReconciler, Environment, get_cooldown_period}
use spotalis.Controllers.Reconciler.Cooldown.{
  Records, evict_first-IsRecorded, reconcile_by-reconcile_by,
}

perform-Records :
    (cron : CronLibrary) (key : String) (env : Environment deployments) (p : Pod)
    → env.evict p ≡ none
    → Records cron key env p (perform_pod_rebalancing cron key env)
unfolding perform_pod_rebalancing execute_deployment_rebalancing
perform-Records cron key env p accepted r d desired h =
    elim (Result-cases (observe env.categorizing env.checked_at d.workload)) [
      | inr (e, q) ↦ cc (rw (perform_pod_rebalancing, q) at h)
      | inl (s, q) ↦
          rw (perform_pod_rebalancing, q)
            (evict_first-IsRecorded cron key env p accepted ([], none) r
              (select_pods_for_deletion (eligible_pods s).0 (eligible_pods s).1 desired)
              (rw (perform_pod_rebalancing, q) at h))
    ]

-- After a reconciliation whose eviction the API server has accepted, the next one on the same
-- deployment asks for no eviction while less than the cooldown has passed since, whatever the
-- cluster answers then.
pub cooldown_between :
    (cron : CronLibrary) (key : String) (first second : Environment deployments)
    (r : WorkloadReconciler) (p : Pod)
    → (reconcile cron key first r).evictions ≡ p ∷ []
    → first.evict p ≡ none
    → since second.checked_at first.deleted_at <ℤ get_cooldown_period r
    → (reconcile cron key second (reconcile cron key first r).state).evictions ≡ []
unfolding reconcile
cooldown_between cron key first second r p h accepted lt =
    reconcile_by-reconcile_by cron key first second (perform_pod_rebalancing cron key first)
      (perform_pod_rebalancing cron key second)
      (IsChosen cron key second, perform-Evicts cron key second) r p
      (perform-Records cron key first p accepted) h accepted lt
