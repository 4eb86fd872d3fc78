-- ===== src/Controllers/Reconciler/Rebalancing.antt =====
-- The eviction of one pod, in executeDeploymentRebalancing of pkg/controllers/deployment_controller.go
-- and in executeGradualRebalancing of pkg/controllers/statefulset_controller.go, and what Reconcile
-- makes of the rebalancing.
use spotalis.Common.{
  String, Bool, false, not, if◌then◌else◌, Option, none, some, List, [], ◌∷◌, Result, ok, err, pos,
  ◌+ℤ◌, quot, str_eq,
}
use spotalis.Common.Words.{wrap64}
use spotalis.Kube.{ApiError, Pod}
use spotalis.Apis.ReplicaState.{ReplicaState}
use spotalis.Annotations.DisruptionWindow.{CronLibrary}
use spotalis.Controllers.Eviction.{EvictionResult, PdbStatus, check_pdb_status, evict_pod}
use spotalis.Controllers.Reconciler.{
  WorkloadType, Rebalanced, ReconcileError, api_failed, WorkloadReconciler, Environment,
  EarlyReturn, Outcome, record_error, mark_recovered,
}
use spotalis.Controllers.Reconciler.Guards.{prepare}

module _ {W : WorkloadType} (cron : CronLibrary) (key : String) (env : Environment W) where
  abbrev pub blocks : Result ApiError PdbStatus → Bool
  blocks (err e) = false
  blocks (ok status) = not status.can_disrupt

  -- The check before the eviction: a list of the budgets that fails does not block.
  unfoldable pub is_blocked : Pod → Bool
  is_blocked pod =
      blocks (check_pdb_status env.categorizing.as_selector (env.budgets pod.namespace) pod)

  -- The end of the cooldown counts from here.
  unfoldable pub record_deletion : WorkloadReconciler → WorkloadReconciler
  record_deletion r = record r {
    last_deletion_times =
        λ k. if str_eq k key then some env.deleted_at else r.last_deletion_times k;
  }

  -- What follows an eviction that has gone through: the objects that are updated, and the error.
  abbrev pub Sequel : Type 0
  Sequel = List W.Object × Option ReconcileError

  abbrev pub after_eviction :
      Sequel → WorkloadReconciler → Pod → EvictionResult × Option ApiError → Rebalanced W
  after_eviction sequel r pod (result, none) = record {
    state = record_deletion r;
    evictions = pod ∷ [];
    updates = sequel.0;
    error = sequel.1;
  }
  after_eviction sequel r pod (EvictionResult.pdb_blocked, some e) = record {
    state = r;
    evictions = pod ∷ [];
    updates = [];
    error = none;
  }
  after_eviction sequel r pod (_, some e) = record {
    state = r;
    evictions = pod ∷ [];
    updates = [];
    error = some (api_failed e);
  }

  abbrev pub nothing_done : WorkloadReconciler → Option ReconcileError → Rebalanced W
  nothing_done r e = record { state = r; evictions = []; updates = []; error = e }

  -- The first pod of the list, unless a budget blocks it.
  unfoldable pub evict_first : Sequel → WorkloadReconciler → List Pod → Rebalanced W
  unfolding is_blocked record_deletion
  evict_first sequel r [] = nothing_done r none
  evict_first sequel r (pod ∷ pods) =
      if is_blocked pod
      then nothing_done r none
      else after_eviction sequel r pod (evict_pod (env.evict pod))

  -- Soon again after a rebalancing, later after a failed one.
  abbrev pub finish : Rebalanced W → Outcome W
  finish b = elim b.error [
    | none ↦ record {
      state = mark_recovered b.state;
      evictions = b.evictions;
      updates = b.updates;
      requeue_after = quot b.state.reconcile_interval 2;
      error = none;
    }
    | some e ↦ record {
      state = record_error env.checked_at e b.state;
      evictions = b.evictions;
      updates = b.updates;
      requeue_after = b.state.reconcile_interval;
      error = some e;
    }
  ]

  -- r.reconcileCount.Add(1)
  unfoldable pub count_reconcile : WorkloadReconciler → WorkloadReconciler
  count_reconcile r = record r { reconcile_count = wrap64 (r.reconcile_count +ℤ pos 1) }

  -- The pods that are to be deleted are listed and selected by performPodRebalancing.
  module _ (perform : WorkloadReconciler → W.Object → ReplicaState → Rebalanced W) where
    abbrev pub conclude :
        WorkloadReconciler → Result EarlyReturn (W.Object × ReplicaState) → Outcome W
    conclude r (err e) = record {
      state = e.state;
      evictions = [];
      updates = [];
      requeue_after = e.requeue_after;
      error = e.error;
    }
    conclude r (ok (d, desired)) = finish (perform r d desired)

    unfoldable pub reconcile_by : WorkloadReconciler → Outcome W
    unfolding prepare
    reconcile_by r =
        let counted = count_reconcile r in conclude counted (prepare cron key env counted)
