-- ===== src/Controllers/Deployment/Reconcile.antt =====
-- Reconcile of pkg/controllers/deployment_controller.go: the guards, and the rebalancing of one pod.
use spotalis.Common.{String, none, some, List, [], ok, err}
use spotalis.Kube.{Pod}
use spotalis.Apis.ReplicaState.{ReplicaState}
use spotalis.Annotations.DisruptionWindow.{CronLibrary}
use spotalis.Observation.{eligible_pods}
use spotalis.Observation.Service.{observe}
use spotalis.Controllers.Reconciler.{
  Rebalanced, observe_failed, WorkloadReconciler, Environment, Outcome,
}
use spotalis.Controllers.Deployment.{Deployment, select_pods_for_deletion, deployments}
use spotalis.Controllers.Reconciler.Rebalancing.{evict_first, nothing_done, reconcile_by}

module _ (cron : CronLibrary) (key : String) (env : Environment deployments) where
  unfoldable pub execute_deployment_rebalancing :
      WorkloadReconciler → List Pod → Rebalanced deployments
  unfolding evict_first
  execute_deployment_rebalancing r pods = evict_first cron key env ([], none) r pods

  unfoldable pub perform_pod_rebalancing :
      WorkloadReconciler → Deployment → ReplicaState → Rebalanced deployments
  unfolding execute_deployment_rebalancing
  perform_pod_rebalancing r d desired = elim (observe env.categorizing env.checked_at d.workload) [
    | err e ↦ nothing_done cron key env r (some (observe_failed e))
    | ok s ↦
        let (spot_pods, on_demand_pods) = eligible_pods s in
        execute_deployment_rebalancing r (select_pods_for_deletion spot_pods on_demand_pods desired)
  ]

  unfoldable pub reconcile : WorkloadReconciler → Outcome deployments
  unfolding perform_pod_rebalancing reconcile_by
  reconcile r = reconcile_by cron key env perform_pod_rebalancing r
