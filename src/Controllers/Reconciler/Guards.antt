-- ===== src/Controllers/Reconciler/Guards.antt =====
-- The guards of Reconcile in pkg/controllers/deployment_controller.go, one after another; those of
-- pkg/controllers/statefulset_controller.go are the same.
use spotalis.Common.{
  String, Bool, if◌then◌else◌, Option, none, some, Result, ok, err, ◌>>=◌, ℤ, pos, ltb_ℤ, ◌-ℤ◌,
  ◌*ℤ◌, str_eq,
}
use Prim.{Unit, tt}
use spotalis.Common.Words.{wrap64}
use spotalis.Common.Time.{since}
use spotalis.Kube.{ApiError}
use spotalis.Apis.ReplicaState.{ReplicaState, calculate_desired_distribution}
use spotalis.Apis.Configuration.{WorkloadConfiguration}
use spotalis.Annotations.Parser.{is_spotalis_enabled, parse_workload_configuration}
use spotalis.Annotations.DisruptionWindow.{
  CronLibrary, DisruptionWindow, parse_disruption_window, is_within_window,
}
use spotalis.Observation.{Snapshot, actual_counts}
use spotalis.Observation.Service.{observe}
use spotalis.Controllers.Reconciler.{
  WorkloadType, ReconcileError, api_failed, parse_failed, observe_failed, window_failed,
  WorkloadReconciler, Environment, EarlyReturn, skip, fail, or_empty, get_cooldown_period,
  get_disruption_retry_interval, get_disruption_window_poll_interval, record_error, mark_recovered,
  needs_rebalancing,
}

module _ {W : WorkloadType} (cron : CronLibrary) (key : String) (env : Environment W) where
  -- The deployment; one that is gone is also forgotten.
  unfoldable pub fetch : WorkloadReconciler → Result EarlyReturn W.Object
  fetch r = elim env.object [
    | ok d ↦ ok d
    | err e ↦ elim e [
      | ApiError.not_found ↦ err (
          skip
            (record r {
              last_deletion_times = λ k. if str_eq k key then none else r.last_deletion_times k;
            })
            (pos 0))
      | other ↦ err (fail env.checked_at r (pos 0) (api_failed other))
    ]
  ]

  unfoldable pub check_enabled : WorkloadReconciler → W.Object → Result EarlyReturn (Unit {0})
  check_enabled r d = if is_spotalis_enabled (W.meta d) then ok tt else err (skip r (pos 0))

  abbrev pub allowed_or_return :
      WorkloadReconciler → Result ApiError Bool → Result EarlyReturn (Unit {0})
  allowed_or_return r (err e) = err (fail env.checked_at r (pos 0) (api_failed e))
  allowed_or_return r (ok allowed) = if allowed then ok tt else err (skip r (pos 0))

  unfoldable pub check_namespace : WorkloadReconciler → W.Object → Result EarlyReturn (Unit {0})
  check_namespace r d = elim env.is_namespace_allowed [
    | none ↦ ok tt
    | some f ↦ allowed_or_return r (f (W.workload d).namespace)
  ]

  -- The rest of the cooldown after the last deletion is waited for.
  unfoldable pub check_cooldown : WorkloadReconciler → Result EarlyReturn (Unit {0})
  check_cooldown r = elim (r.last_deletion_times key) [
    | none ↦ ok tt
    | some t ↦
        let elapsed = since env.checked_at t in
        if ltb_ℤ elapsed (get_cooldown_period r)
        then err (skip r (wrap64 (get_cooldown_period r -ℤ elapsed)))
        else ok tt
  ]

  unfoldable pub check_stable : WorkloadReconciler → W.Object → Result EarlyReturn (Unit {0})
  check_stable r d =
      if W.is_stable_and_ready d
      then ok tt
      else err (skip r (wrap64 (pos 2 *ℤ r.reconcile_interval)))

  unfoldable pub read_configuration :
      WorkloadReconciler → W.Object → Result EarlyReturn WorkloadConfiguration
  read_configuration r d = elim (parse_workload_configuration (W.meta d)) [
    | ok c ↦ ok c
    | err e ↦ err (fail env.checked_at r r.reconcile_interval (parse_failed e))
  ]

  -- calculateCurrentReplicaState, of which the counts and the time are used.
  unfoldable pub observe_counts : WorkloadReconciler → W.Object → Result EarlyReturn Snapshot
  observe_counts r d = elim (observe env.counting env.checked_at (W.workload d)) [
    | ok s ↦ ok s
    | err e ↦ err (fail env.checked_at r r.reconcile_interval (observe_failed e))
  ]

  abbrev total_of : W.Object → ℤ
  total_of d = elim (W.replicas d) [ none ↦ (W.status_replicas d) | some n ↦ n ]

  unfoldable pub current_state : W.Object → Snapshot → ReplicaState
  current_state d s = record {
    total_replicas = total_of d;
    current_on_demand = (actual_counts s).1;
    current_spot = (actual_counts s).0;
    desired_on_demand = pos 0;
    desired_spot = pos 0;
    last_reconciled = s.observed_at;
    pending_on_demand = pos 0;
    pending_spot = pos 0;
    failed_spot = pos 0;
  }

  -- No drift: the longer interval.
  unfoldable pub check_drift : WorkloadReconciler → ReplicaState → Result EarlyReturn (Unit {0})
  check_drift r s =
      if needs_rebalancing s
      then ok tt
      else err (skip (mark_recovered r) (wrap64 (r.reconcile_interval *ℤ pos 2)))

  -- The first of the three levels that has a window, or none.
  unfoldable pub resolve_disruption_window :
      W.Object → Result ReconcileError (Option (DisruptionWindow cron))
  resolve_disruption_window d =
      elim (parse_disruption_window cron (or_empty (W.meta d).annotations)) [
        | err e ↦ err (window_failed e)
        | ok (some w) ↦ ok (some w)
        | ok none ↦ elim (env.namespace_labels (W.workload d).namespace) [
          | err e ↦ err (api_failed e)
          | ok labels ↦ elim (parse_disruption_window cron (or_empty labels)) [
            | err e ↦ err (window_failed e)
            | ok (some w) ↦ ok (some w)
            | ok none ↦ elim env.global_window [
              | none ↦ ok none
              | some m ↦ elim (parse_disruption_window cron m) [
                | err e ↦ err (window_failed e)
                | ok w ↦ ok w
              ]
            ]
          ]
        ]
      ]

  -- A window that cannot be resolved is recorded as an error, and not returned as one.
  unfoldable pub check_window : WorkloadReconciler → W.Object → Result EarlyReturn (Unit {0})
  check_window r d = elim (resolve_disruption_window d) [
    | err e ↦ err (skip (record_error env.checked_at e r) (get_disruption_retry_interval r))
    | ok w ↦
        if is_within_window cron w env.checked_at
        then ok tt
        else err (skip r (get_disruption_window_poll_interval r))
  ]

  -- May the deployment be looked at now.
  unfoldable pub admit : WorkloadReconciler → W.Object → Result EarlyReturn (Unit {0})
  unfolding check_enabled check_namespace check_cooldown check_stable
  admit r d = do
    _ ← check_enabled r d
    _ ← check_namespace r d
    _ ← check_cooldown r
    check_stable r d

  -- May the desired state be worked towards now.
  unfoldable pub permit :
      WorkloadReconciler → W.Object → ReplicaState → Result EarlyReturn (Unit {0})
  unfolding check_drift check_window
  permit r d desired = do _ ← check_drift r desired; check_window r d

  -- The desired state.
  unfoldable pub assess : WorkloadReconciler → W.Object → Result EarlyReturn ReplicaState
  unfolding read_configuration observe_counts current_state permit
  assess r d = do
    config ← read_configuration r d
    s ← observe_counts r d
    let desired = calculate_desired_distribution (current_state d s) config
    _ ← permit r d desired
    ok desired

  -- All that comes before the rebalancing.
  unfoldable pub prepare : WorkloadReconciler → Result EarlyReturn (W.Object × ReplicaState)
  unfolding fetch admit assess
  prepare r = do d ← fetch r; _ ← admit r d; desired ← assess r d; ok (d, desired)
