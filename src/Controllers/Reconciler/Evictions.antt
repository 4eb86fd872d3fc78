-- ===== src/Controllers/Reconciler/Evictions.antt =====
-- What Reconcile of pkg/controllers evicts: at most one pod, past all the guards.
use spotalis.Common.{
  ◌≡◌, ◌⊎◌, inl, inr, refl, String, false, List, [], ◌∷◌, Result-cases, Bool-cases, arith, ◌∙◌,
}
use spotalis.Kube.{Pod}
use spotalis.Apis.ReplicaState.{ReplicaState}
use spotalis.Annotations.DisruptionWindow.{CronLibrary}
use spotalis.Controllers.Eviction.{evict_pod}
use spotalis.Controllers.Reconciler.{
  WorkloadType, WorkloadReconciler, Environment, Rebalanced, get_cooldown_period,
}
use spotalis.Controllers.Reconciler.Guards.{prepare}
use spotalis.Controllers.Reconciler.Prepared.{IsPrepared, prepare-IsPrepared}
use spotalis.Controllers.Reconciler.Rebalancing.{
  Sequel, is_blocked, after_eviction, evict_first, finish, count_reconcile, reconcile_by,
}

module _ {W : WorkloadType} (cron : CronLibrary) (key : String) (env : Environment W) where
  -- No pod, or one for which the predicate holds.
  abbrev pub Evicts : List Pod → (Pod → Type 0) → Type 0
  Evicts evictions P = (evictions ≡ []) ⊎ ((p : Pod) × (evictions ≡ p ∷ []) × P p)

  pub one_eviction :
      (sequel : Sequel cron key env) (r : WorkloadReconciler) (p : Pod)
      → (after_eviction cron key env sequel r p (evict_pod (env.evict p))).evictions ≡ p ∷ []
  unfolding evict_pod
  one_eviction sequel r p = ground arith

  pub evict_first-Evicts :
      (sequel : Sequel cron key env) (r : WorkloadReconciler) (pods : List Pod)
      → Evicts
          (evict_first cron key env sequel r pods).evictions
          (λ p. (rest : List Pod) × (pods ≡ p ∷ rest) × (is_blocked cron key env p ≡ false))
  unfolding evict_first
  evict_first-Evicts sequel r [] = inl refl
  evict_first-Evicts sequel r (p ∷ pods) = elim (Bool-cases (is_blocked cron key env p)) [
    | inl b ↦ rw b (inl refl)
    | inr n ↦ inr (p, rw n (one_eviction sequel r p), (pods, refl, n))
  ]

  pub finish_evictions : (b : Rebalanced W) → (finish cron key env b).evictions ≡ b.evictions
  finish_evictions b = ground arith

  -- The counter is in none of the guards.
  pub counted :
      (r : WorkloadReconciler) (d : W.Object) (s : ReplicaState)
      → IsPrepared cron key env (count_reconcile cron key env r) d s
      → IsPrepared cron key env r d s
  unfolding count_reconcile get_cooldown_period
  counted r d s p = record {
    fetched = p.fetched;
    enabled = p.enabled;
    allowed = p.allowed;
    cooled = p.cooled;
    stable = p.stable;
    assessed = p.assessed;
    drift = p.drift;
    window = p.window;
  }

  -- What holds of the evictions of the rebalancing holds of those of the reconciliation, which come
  -- past all the guards.
  pub reconcile_by-Evicts :
      (perform : WorkloadReconciler → W.Object → ReplicaState → Rebalanced W)
      (P : W.Object → ReplicaState → Pod → Type 0)
      → ((r : WorkloadReconciler) (d : W.Object) (s : ReplicaState)
          → Evicts (perform r d s).evictions (P d s))
      → (r : WorkloadReconciler)
      → Evicts
          (reconcile_by cron key env perform r).evictions
          (λ p. (d : W.Object) × (s : ReplicaState) × IsPrepared cron key env r d s × P d s p)
  unfolding reconcile_by
  reconcile_by-Evicts perform P h r = elim (Result-cases (prepare cron key env counting)) [
    | inr (e, q) ↦ inl (rw (reconcile_by, q) refl)
    | inl ((d, s), q) ↦
        let kept = finish_evictions (perform counting d s) in
        elim (h counting d s) [
          | inl none_evicted ↦ inl (rw (reconcile_by, q) (kept ∙ none_evicted))
          | inr (p, one, chosen) ↦ inr (
            p,
            rw (reconcile_by, q) (kept ∙ one),
            (d, s, counted r d s (prepare-IsPrepared cron key env counting d s q), chosen),
          )
        ]
  ]
    where
      counting : WorkloadReconciler
      counting = count_reconcile cron key env r
