-- ===== src/Controllers/Reconciler/Prepared.antt =====
-- What holds once the guards of Reconcile in pkg/controllers have passed, for any type of workload.
use spotalis.Common.{
  pos, ap, ◌≡◌, inl, inr, refl, String, Bool, true, ◌≤ℤ◌, Option, none, some, Result, ok, err,
  >>=-eq-ok, ◌>>=◌, subst, sym, Result-cases, Bool-cases, arith,
}
use Prim.{Unit, tt}
use spotalis.Common.Time.{Time, since}
use spotalis.Kube.{ApiError}
use spotalis.Apis.ReplicaState.{ReplicaState, calculate_desired_distribution}
use spotalis.Apis.Configuration.{WorkloadConfiguration}
use spotalis.Annotations.Parser.{is_spotalis_enabled, parse_workload_configuration}
use spotalis.Observation.{Snapshot, is_spot, is_on_demand}
use spotalis.Observation.Counts.{number, actual_counts_lem}
use spotalis.Common.Words.{wrap32}
use spotalis.Observation.Service.{observe}
use spotalis.Annotations.DisruptionWindow.{CronLibrary, DisruptionWindow, is_within_window}
use spotalis.Controllers.Reconciler.{
  WorkloadType, WorkloadReconciler, Environment, EarlyReturn, get_cooldown_period,
  needs_rebalancing,
}
use spotalis.Controllers.Reconciler.Guards.{
  fetch, check_enabled, check_namespace, check_cooldown, check_stable, read_configuration,
  observe_counts, check_drift, resolve_disruption_window, check_window, prepare, admit, permit,
  assess, current_state,
}

module _ {W : WorkloadType} (cron : CronLibrary) (key : String) (env : Environment W) where
  -- The desired state is the distribution that the workload's own configuration gives to its
  -- replicas, with the numbers, in 32 bits, of the pods on spot and on on-demand nodes that an
  -- observation lists and that are not gone.
  pub record IsAssessed (d : W.Object) (desired : ReplicaState) : Type 0 where
    pub configuration : WorkloadConfiguration
    pub listing : Snapshot
    pub state : ReplicaState
    pub configured : parse_workload_configuration (W.meta d) ≡ ok configuration
    pub counted : observe env.counting env.checked_at (W.workload d) ≡ ok listing
    pub replicas :
        state.total_replicas ≡ elim (W.replicas d) [ none ↦ W.status_replicas d | some n ↦ n ]
    pub on_spot : state.current_spot ≡ wrap32 (pos (number is_spot listing.pods))
    pub on_demand : state.current_on_demand ≡ wrap32 (pos (number is_on_demand listing.pods))
    pub distributed : desired ≡ calculate_desired_distribution state configuration

  -- The guards that hold once the state has been prepared.
  pub record IsPrepared (r : WorkloadReconciler) (d : W.Object) (desired : ReplicaState)
      : Type 0 where
    pub fetched : env.object ≡ ok d
    pub enabled : is_spotalis_enabled (W.meta d) ≡ true
    pub allowed :
        (f : String → Result ApiError Bool)
        → env.is_namespace_allowed ≡ some f
        → f (W.workload d).namespace ≡ ok true
    pub cooled :
        (t : Time)
        → r.last_deletion_times key ≡ some t
        → get_cooldown_period r ≤ℤ since env.checked_at t
    pub stable : W.is_stable_and_ready d ≡ true
    pub assessed : IsAssessed d desired
    pub drift : needs_rebalancing desired ≡ true
    pub window :
        (w : Option (DisruptionWindow cron)) × (resolve_disruption_window cron key env d ≡ ok w)
        × (is_within_window cron w env.checked_at ≡ true)

  fetch_lem :
      (r : WorkloadReconciler) (d : W.Object) → fetch cron key env r ≡ ok d → env.object ≡ ok d
  unfolding fetch
  fetch_lem r d h = ground arith

  enabled_lem :
      (r : WorkloadReconciler) (d : W.Object)
      → check_enabled cron key env r d ≡ ok tt
      → is_spotalis_enabled (W.meta d) ≡ true
  unfolding check_enabled
  enabled_lem r d h = ground arith

  stable_lem :
      (r : WorkloadReconciler) (d : W.Object)
      → check_stable cron key env r d ≡ ok tt
      → W.is_stable_and_ready d ≡ true
  unfolding check_stable
  stable_lem r d h = ground arith

  drift_lem :
      (r : WorkloadReconciler) (s : ReplicaState)
      → check_drift cron key env r s ≡ ok tt
      → needs_rebalancing s ≡ true
  unfolding check_drift
  drift_lem r d h = ground arith

  cooldown_lem :
      (r : WorkloadReconciler) (t : Time)
      → check_cooldown cron key env r ≡ ok tt
      → r.last_deletion_times key ≡ some t
      → get_cooldown_period r ≤ℤ since env.checked_at t
  unfolding check_cooldown
  cooldown_lem r t h e = ground (arith, rw (check_cooldown, e) at h)

  namespace_lem :
      (r : WorkloadReconciler) (d : W.Object) (f : String → Result ApiError Bool)
      → check_namespace cron key env r d ≡ ok tt
      → env.is_namespace_allowed ≡ some f
      → f (W.workload d).namespace ≡ ok true
  unfolding check_namespace
  namespace_lem r d f h e = ground (arith, rw (check_namespace, e) at h)

  window_lem :
      (r : WorkloadReconciler) (d : W.Object)
      → check_window cron key env r d ≡ ok tt
      → (w : Option (DisruptionWindow cron)) × (resolve_disruption_window cron key env d ≡ ok w)
        × (is_within_window cron w env.checked_at ≡ true)
  unfolding check_window
  window_lem r d h = elim (Result-cases (resolve_disruption_window cron key env d)) [
    | inr (e, q) ↦ cc (rw (check_window, q) at h)
    | inl (w, q) ↦ elim (Bool-cases (is_within_window cron w env.checked_at)) [
      | inl p ↦ (w, q, p)
      | inr n ↦ cc (rw (check_window, q, n) at h)
    ]
  ]

  -- A guard that passes, and what follows it.
  guard_passes :
      {A : Type 0} (m : Result EarlyReturn (Unit {0})) (n : Result EarlyReturn A) {a : A}
      → (m >>= λ _. n) ≡ ok a
      → (m ≡ ok tt) × (n ≡ ok a)
  guard_passes (ok u) n h = (refl, h)
  guard_passes (err e) n h = cc

  admitted :
      (r : WorkloadReconciler) (d : W.Object)
      → admit cron key env r d ≡ ok tt
      → (check_enabled cron key env r d ≡ ok tt)
        × (check_namespace cron key env r d ≡ ok tt)
        × (check_cooldown cron key env r ≡ ok tt)
        × (check_stable cron key env r d ≡ ok tt)
  unfolding admit
  admitted r d h =
      let (a, h1) = guard_passes (check_enabled cron key env r d) _ h in
      let (b, h2) = guard_passes (check_namespace cron key env r d) _ h1 in
      let (c, e) = guard_passes (check_cooldown cron key env r) _ h2 in (a, b, c, e)

  configured_lem :
      (r : WorkloadReconciler) (d : W.Object) (c : WorkloadConfiguration)
      → read_configuration cron key env r d ≡ ok c
      → parse_workload_configuration (W.meta d) ≡ ok c
  unfolding read_configuration
  configured_lem r d c h = ground arith

  counted_lem :
      (r : WorkloadReconciler) (d : W.Object) (s : Snapshot)
      → observe_counts cron key env r d ≡ ok s
      → observe env.counting env.checked_at (W.workload d) ≡ ok s
  unfolding observe_counts
  counted_lem r d s h = ground arith

  permitted :
      (r : WorkloadReconciler) (d : W.Object) (desired : ReplicaState)
      → assess cron key env r d ≡ ok desired
      → (check_drift cron key env r desired ≡ ok tt)
        × (check_window cron key env r d ≡ ok tt)
        × IsAssessed d desired
  unfolding assess permit current_state
  permitted r d desired h =
      let (config, e, h1) = >>=-eq-ok (read_configuration cron key env r d) _ h in
      let (s, f, h2) = >>=-eq-ok (observe_counts cron key env r d) _ h1 in
      let next = calculate_desired_distribution (current_state cron key env d s) config in
      let (p, same) = guard_passes (permit cron key env r d next) _ h2 in
      let (drift, window) = guard_passes (check_drift cron key env r next) _ p in
      let eq : next ≡ desired = cc same in
      (
        subst (λ x. check_drift cron key env r x ≡ ok tt) eq drift,
        window,
        record {
          configuration = config;
          listing = s;
          state = current_state cron key env d s;
          configured = configured_lem r d config e;
          counted = counted_lem r d s f;
          replicas = refl;
          on_spot = ap (λ n. n.0) (actual_counts_lem s);
          on_demand = ap (λ n. n.1) (actual_counts_lem s);
          distributed = sym eq;
        },
      )

  pub prepare-IsPrepared :
      (r : WorkloadReconciler) (d : W.Object) (desired : ReplicaState)
      → prepare cron key env r ≡ ok (d, desired)
      → IsPrepared r d desired
  unfolding prepare
  prepare-IsPrepared r d desired h =
      let (d', found, h1) = >>=-eq-ok (fetch cron key env r) _ h in
      let (a, h2) = guard_passes (admit cron key env r d') _ h1 in
      let (next, known, same) = >>=-eq-ok (assess cron key env r d') _ h2 in
      let same_d : d' ≡ d = cc same in
      let same_s : next ≡ desired = cc same in
      subst (λ x. IsPrepared r x desired) same_d
        (subst (λ x. IsPrepared r d' x) same_s (both d' next found a known))
    where
      both :
          (d : W.Object) (s : ReplicaState)
          → fetch cron key env r ≡ ok d
          → admit cron key env r d ≡ ok tt
          → assess cron key env r d ≡ ok s
          → IsPrepared r d s
      both d s found a known =
          let (enabled, namespace, cooldown, stable) = admitted r d a in
          let (drift, window, assessed) = permitted r d s known in
          record {
            fetched = fetch_lem r d found;
            enabled = enabled_lem r d enabled;
            allowed = λ f e. namespace_lem r d f namespace e;
            cooled = λ t e. cooldown_lem r t cooldown e;
            stable = stable_lem r d stable;
            assessed = assessed;
            drift = drift_lem r s drift;
            window = window_lem r d window;
          }
