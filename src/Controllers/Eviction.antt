-- ===== src/Controllers/Eviction.antt =====
-- pkg/controllers/eviction.go: evictions, and the disruption budgets that block them. The answer of
-- the API server is an argument, and so is metav1.LabelSelectorAsSelector, whose error is `none`.
pub mod Budgets
mod Examples
use spotalis.Common.{
  String, Bool, true, false, not, if◌then◌else◌, Option, none, some, List, [], ◌∷◌, Result, ok, err,
  ℤ, pos, ltb_ℤ, pos_part, neg_part,
}
use spotalis.Kube.{ApiError, LabelSelector, Pod, PodDisruptionBudget, StringMap}

pub data EvictionResult : Type 0 where
  evicted pdb_blocked already_gone eviction_error : EvictionResult

-- The outcome of the call, and the error that is passed on. The answer is that of the eviction
-- subresource, where a nil error is `none`.
unfoldable pub evict_pod : Option ApiError → EvictionResult × Option ApiError
evict_pod none = (evicted, none)
evict_pod (some ApiError.not_found) = (already_gone, none)
evict_pod (some ApiError.too_many_requests) = (pdb_blocked, some ApiError.too_many_requests)
evict_pod (some ApiError.other_error) = (eviction_error, some ApiError.other_error)

pub data CanEvictError : Type 0 where
  pod_not_found dry_run_failed : CanEvictError

-- The answer is that of a dry run.
unfoldable pub can_evict : Option ApiError → Result CanEvictError Bool
can_evict none = ok true
can_evict (some ApiError.not_found) = err pod_not_found
can_evict (some ApiError.too_many_requests) = ok false
can_evict (some ApiError.other_error) = err dry_run_failed

-- The reason for the log is left out.
pub record PdbStatus : Type 0 where
  pub has_pdb : Bool
  pub pdb_name : String
  pub disruptions_allowed : ℤ
  pub current_healthy : ℤ
  pub desired_healthy : ℤ
  pub expected_pods : ℤ
  pub can_disrupt : Bool

abbrev pub no_pdb : PdbStatus
no_pdb = record {
  has_pdb = false;
  pdb_name = "";
  disruptions_allowed = pos 0;
  current_healthy = pos 0;
  desired_healthy = pos 0;
  expected_pods = pos 0;
  can_disrupt = true;
}

abbrev pub status_of : PodDisruptionBudget → PdbStatus
status_of pdb = record {
  has_pdb = true;
  pdb_name = pdb.name;
  disruptions_allowed = pdb.disruptions_allowed;
  current_healthy = pdb.current_healthy;
  desired_healthy = pdb.desired_healthy;
  expected_pods = pdb.expected_pods;
  can_disrupt = not (ltb_ℤ pdb.disruptions_allowed (pos 1));
}

module _ (as_selector : LabelSelector → Option (StringMap → Bool)) where
  -- The three reasons to skip a budget: no selector, a malformed one, one that does not match.
  unfoldable pub matches : Pod → PodDisruptionBudget → Bool
  matches pod pdb = elim pdb.selector [
    | none ↦ false
    | some s ↦ elim (as_selector s) [ none ↦ false | some f ↦ f pod.labels ]
  ]

  -- The loop over the budgets, which the first that matches ends.
  unfoldable pub check_budgets : Pod → List PodDisruptionBudget → PdbStatus
  unfolding matches
  check_budgets pod [] = no_pdb
  check_budgets pod (pdb ∷ pdbs) =
      let rest = check_budgets pod pdbs in if matches pod pdb then status_of pdb else rest

  -- The answer is the list of the budgets in the namespace of the pod.
  unfoldable pub check_pdb_status :
      Result ApiError (List PodDisruptionBudget) → Pod → Result ApiError PdbStatus
  unfolding check_budgets
  check_pdb_status (err e) pod = err e
  check_pdb_status (ok pdbs) pod = ok (check_budgets pod pdbs)
