-- ===== src/Controllers/Reconciler/Updates.antt =====
-- What Reconcile of pkg/controllers sends to be updated: only what follows an eviction that has gone
-- through.
use spotalis.Common.{
  ◌≡◌, ◌⊎◌, inl, inr, refl, String, none, some, List, [], ◌∷◌, Result-cases, Option-cases,
  Bool-cases, ◌∙◌, eq_refl, ap, arith,
}
use spotalis.Kube.{Pod}
use spotalis.Apis.ReplicaState.{ReplicaState}
use spotalis.Annotations.DisruptionWindow.{CronLibrary}
use spotalis.Controllers.Eviction.{evict_pod}
use spotalis.Controllers.Reconciler.{
  WorkloadType, WorkloadReconciler, Environment, Rebalanced, mark_recovered, record_error,
}
use spotalis.Controllers.Reconciler.Guards.{prepare}
use spotalis.Controllers.Reconciler.Prepared.{IsPrepared, prepare-IsPrepared}
use spotalis.Controllers.Reconciler.Evictions.{counted}
use spotalis.Controllers.Reconciler.Rebalancing.{
  Sequel, is_blocked, after_eviction, evict_first, finish, count_reconcile, reconcile_by,
  record_deletion,
}

module _ {W : WorkloadType} (cron : CronLibrary) (key : String) (env : Environment W) where
  -- One pod is evicted, without an error, and its deletion is recorded.
  pub record IsAfterEviction (evictions : List Pod) (state : WorkloadReconciler) : Type 0 where
    pub pod : Pod
    pub one : evictions ≡ pod ∷ []
    pub gone : (evict_pod (env.evict pod)).1 ≡ none
    pub recorded : state.last_deletion_times key ≡ some env.deleted_at

  -- Nothing is updated, or the objects are, after an eviction.
  abbrev pub Sends : List W.Object → Rebalanced W → Type 0
  Sends objects b = (b.updates ≡ []) ⊎ (IsAfterEviction b.evictions b.state × (b.updates ≡ objects))

  after_eviction-Sends :
      (sequel : Sequel cron key env) (r : WorkloadReconciler) (p : Pod)
      → Sends sequel.0 (after_eviction cron key env sequel r p (evict_pod (env.evict p)))
  unfolding record_deletion
  after_eviction-Sends sequel r p = elim (Option-cases (evict_pod (env.evict p)).1) [
    | inl e ↦ inr (
      record { pod = p; one = rw e refl; gone = e; recorded = rw (e, eq_refl key) refl },
      rw e refl,
    )
    | inr (x, e) ↦ inl (ground arith)
  ]

  pub evict_first-Sends :
      (sequel : Sequel cron key env) (r : WorkloadReconciler) (pods : List Pod)
      → Sends sequel.0 (evict_first cron key env sequel r pods)
  unfolding evict_first
  evict_first-Sends sequel r [] = inl refl
  evict_first-Sends sequel r (p ∷ pods) = elim (Bool-cases (is_blocked cron key env p)) [
    | inl b ↦ inl (rw b refl)
    | inr n ↦ rw n (after_eviction-Sends sequel r p)
  ]

  -- What the end of Reconcile keeps of the rebalancing.
  finish_parts :
      (b : Rebalanced W)
      → let o = finish cron key env b in
        (o.evictions ≡ b.evictions)
        × (o.updates ≡ b.updates)
        × (o.state.last_deletion_times ≡ b.state.last_deletion_times)
  unfolding mark_recovered record_error
  finish_parts b = elim (Option-cases b.error) [
    | inl e ↦ rw e (refl, refl, refl)
    | inr (x, e) ↦ rw e (refl, refl, refl)
  ]

  -- A reconciliation sends what the rebalancing of the prepared state sends.
  pub reconcile_by-Sends :
      (perform : WorkloadReconciler → W.Object → ReplicaState → Rebalanced W)
      (objects : W.Object → ReplicaState → List W.Object)
      → ((r : WorkloadReconciler) (d : W.Object) (s : ReplicaState)
          → Sends (objects d s) (perform r d s))
      → (r : WorkloadReconciler)
      → let o = reconcile_by cron key env perform r in
        (o.updates ≡ [])
        ⊎ (IsAfterEviction o.evictions o.state
            × ((d : W.Object) × (s : ReplicaState) × IsPrepared cron key env r d s
                × (o.updates ≡ objects d s)))
  unfolding reconcile_by
  reconcile_by-Sends perform objects h r = elim (Result-cases (prepare cron key env counting)) [
    | inr (e, q) ↦ inl (rw (reconcile_by, q) refl)
    | inl ((d, s), q) ↦
        let (evicted, updated, times) = finish_parts (perform counting d s) in
        elim (h counting d s) [
          | inl none_sent ↦ inl (rw (reconcile_by, q) (updated ∙ none_sent))
          | inr (after, sent) ↦ inr (
            record {
              pod = after.pod;
              one = rw (reconcile_by, q) (evicted ∙ after.one);
              gone = after.gone;
              recorded = rw (reconcile_by, q) (ap (λ f. f key) times ∙ after.recorded);
            },
            (
              d,
              s,
              counted cron key env r d s (prepare-IsPrepared cron key env counting d s q),
              rw (reconcile_by, q) (updated ∙ sent),
            ),
          )
        ]
  ]
    where
      counting : WorkloadReconciler
      counting = count_reconcile cron key env r
