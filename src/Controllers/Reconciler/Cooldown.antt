-- ===== src/Controllers/Reconciler/Cooldown.antt =====
-- The cooldown of pkg/controllers between two reconciliations, for any type of workload.
use spotalis.Common.{
  ◌≡◌, inl, inr, refl, String, ◌<ℤ◌, none, some, List, [], ◌∷◌, Result-cases, Bool-cases,
  Option-cases, arith, ◌∙◌, eq_refl, sym, subst,
}
use spotalis.Common.Time.{Time, since}
use spotalis.Kube.{Pod}
use spotalis.Apis.ReplicaState.{ReplicaState}
use spotalis.Annotations.DisruptionWindow.{CronLibrary}
use spotalis.Controllers.Eviction.{evict_pod}
use spotalis.Controllers.Reconciler.{
  WorkloadType, WorkloadReconciler, Environment, Rebalanced, get_cooldown_period, mark_recovered,
  record_error,
}
use spotalis.Controllers.Reconciler.Guards.{prepare}
use spotalis.Controllers.Reconciler.Evictions.{
  Evicts, one_eviction, finish_evictions, reconcile_by-Evicts,
}
use spotalis.Controllers.Reconciler.Rebalancing.{
  Sequel, is_blocked, after_eviction, evict_first, finish, count_reconcile, reconcile_by,
  record_deletion,
}

module _ {W : WorkloadType} (cron : CronLibrary) (key : String) (env : Environment W) where
  abbrev pub Perform : Type 0
  Perform = WorkloadReconciler → W.Object → ReplicaState → Rebalanced W

  -- At most one pod.
  abbrev pub IsSparing : Perform → Type 1
  IsSparing perform =
      (P : W.Object → ReplicaState → Pod → Type 0) × ((r : WorkloadReconciler) (d : W.Object)
          (s : ReplicaState)
        → Evicts cron key env (perform r d s).evictions (P d s))

  pub cooling :
      (perform : Perform) (sparing : IsSparing perform) (r : WorkloadReconciler) (t : Time)
      → r.last_deletion_times key ≡ some t
      → since env.checked_at t <ℤ get_cooldown_period r
      → (reconcile_by cron key env perform r).evictions ≡ []
  cooling perform (P, h) r t e lt = elim (reconcile_by-Evicts cron key env perform P h r) [
    | inl none_evicted ↦ none_evicted
    | inr (p, one, (d, desired, prepared, chosen)) ↦
        let le = prepared.cooled t e in absurd (omega arith)
  ]

  -- The deletion is recorded, and the cooldown is as long as it was.
  abbrev pub IsRecorded : WorkloadReconciler → WorkloadReconciler → Type 0
  IsRecorded r s =
      (s.last_deletion_times key ≡ some env.deleted_at)
      × (get_cooldown_period s ≡ get_cooldown_period r)

  -- An eviction of the pod is recorded.
  abbrev pub Records : Pod → Perform → Type 0
  Records p perform =
      (r : WorkloadReconciler) (d : W.Object) (s : ReplicaState)
      → (perform r d s).evictions ≡ p ∷ []
      → IsRecorded r (perform r d s).state

  accepted-IsRecorded :
      (sequel : Sequel cron key env) (r : WorkloadReconciler) (p : Pod)
      → env.evict p ≡ none
      → IsRecorded r (after_eviction cron key env sequel r p (evict_pod (env.evict p))).state
  unfolding evict_pod record_deletion get_cooldown_period
  accepted-IsRecorded sequel r p e = rw (evict_pod, e, eq_refl key) (refl, refl)

  finish-IsRecorded :
      (r : WorkloadReconciler) (b : Rebalanced W)
      → IsRecorded r b.state
      → IsRecorded r (finish cron key env b).state
  unfolding mark_recovered record_error get_cooldown_period
  finish-IsRecorded r b h = elim (Option-cases b.error) [ inl e ↦ rw e h | inr (x, e) ↦ rw e h ]

  module _ (p : Pod) (accepted : env.evict p ≡ none) where
    pub evict_first-IsRecorded :
        (sequel : Sequel cron key env) (r : WorkloadReconciler) (pods : List Pod)
        → (evict_first cron key env sequel r pods).evictions ≡ p ∷ []
        → IsRecorded r (evict_first cron key env sequel r pods).state
    unfolding evict_first
    evict_first-IsRecorded sequel r [] h = cc h
    evict_first-IsRecorded sequel r (q ∷ pods) h = elim (Bool-cases (is_blocked cron key env q)) [
      | inl b ↦ cc h
      | inr n ↦
          let h' = rw (evict_first, n) at h in
          let same : p ≡ q = cc (h', one_eviction cron key env sequel r q) in
          rw n (accepted-IsRecorded sequel r q (subst (λ x. env.evict x ≡ none) same accepted))
    ]

    reconcile_by-IsRecorded :
        (perform : Perform)
        → Records p perform
        → (r : WorkloadReconciler) → (reconcile_by cron key env perform r).evictions ≡ p ∷ []
        → IsRecorded r (reconcile_by cron key env perform r).state
    unfolding reconcile_by count_reconcile get_cooldown_period
    reconcile_by-IsRecorded perform records r h =
        elim (Result-cases (prepare cron key env counting)) [
          | inr (e, q) ↦ cc (rw (reconcile_by, q) at h)
          | inl ((d, desired), q) ↦
              let b = perform counting d desired in
              rw (reconcile_by, q)
                (finish-IsRecorded counting b (
                  records counting d desired
                    (sym (finish_evictions cron key env b) ∙ (rw (reconcile_by, q) at h))))
        ]
      where
        counting : WorkloadReconciler
        counting = count_reconcile cron key env r

module _ {W : WorkloadType} (cron : CronLibrary) (key : String) (first second : Environment W) where
  pub reconcile_by-reconcile_by :
      (perform1 : Perform cron key first) (perform2 : Perform cron key second)
      → IsSparing cron key second perform2
      → (r : WorkloadReconciler) (p : Pod) → Records cron key first p perform1
      → (reconcile_by cron key first perform1 r).evictions ≡ p ∷ []
      → first.evict p ≡ none
      → since second.checked_at first.deleted_at <ℤ get_cooldown_period r
      → (reconcile_by cron key second perform2
          (reconcile_by cron key first perform1 r).state).evictions
        ≡ []
  reconcile_by-reconcile_by perform1 perform2 sparing r p records h accepted lt =
      let (recorded, same) =
        reconcile_by-IsRecorded cron key first p accepted perform1 records r h in
      cooling cron key second perform2 sparing (reconcile_by cron key first perform1 r).state
        first.deleted_at recorded
        (subst (λ c. since second.checked_at first.deleted_at <ℤ c) (sym same) lt)
