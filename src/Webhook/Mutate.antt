-- ===== src/Webhook/Mutate.antt =====
-- The admission of a pod in pkg/webhook/mutate.go, with the observer that the operator sets: the
-- capacity type is determined and reserved, and the pod is patched.
pub mod Admission
pub mod Interleaving
mod Examples
use Prim.Native.String.{◌++◌ as str_append}
use spotalis.Common.{
  String, Bool, true, false, not, ◌&&◌, ◌||◌, if◌then◌else◌, Option, none, some, List, [], ◌∷◌,
  Result, ok, err, ◌>>=◌, ℤ, pos, ltb_ℤ,
}
use spotalis.Common.Time.{Time}
use spotalis.Apis.Policy.{PolicyError, ReplicaAllocation, allocate_replica_distribution}
use spotalis.Apis.Configuration.{WorkloadConfiguration, allocation_policy}
use spotalis.Observation.{Snapshot, is_fresh, actual_counts}
use spotalis.Observation.Service.{Answers, ObserveError, observe}
use spotalis.Webhook.AdmissionState.{
  CapacityType, spot, on_demand, AdmissionStateTracker, Observed, default_pod_list_max_age,
  update_pod_list_metadata, select_and_reserve,
}
use spotalis.Webhook.Placement.{
  NodeClassifierConfig, PodSpec, PatchOp, get_capacity_type_label_config, node_selector_patches,
}
use spotalis.Webhook.Owners.{
  OwnerReference, Cluster, OwnerError, WorkloadObject, workload_for_pod,
  get_workload_config_for_pod,
}

-- The pod of the admission request.
pub record AdmittedPod : Type 0 where
  pub namespace : String
  pub owners : List OwnerReference
  pub spec : PodSpec

-- What the calls of one admission answer, and the times that are read in it.
pub record Request : Type 0 where
  pub cluster : Cluster
  pub answers : Answers
  pub observed_at : Time
  pub fresh_at : Time
  pub updated_at : Time
  pub selected_at : Time

pub data MutateError : Type 0 where
  owner_failed : OwnerError → MutateError
  observe_failed : ObserveError → MutateError
  allocation_failed : PolicyError → MutateError

-- The default of an omitted replicas field.
abbrev pub desired_replicas : Option ℤ → ℤ
desired_replicas none = pos 1
desired_replicas (some n) = n

-- What is known before the tracker is asked: that the observation cannot be relied on, or the key,
-- the generation, and the counts with their targets.
pub data Target : Type 0 where
  unreliable : Target
  target : String → ℤ → Observed → Target

abbrev pub lift_error {ℓ κ} :
    {E : Type ℓ} {A : Type κ} → (E → MutateError) → Result E A → Result MutateError A
lift_error f (ok a) = ok a
lift_error f (err e) = err (f e)

unfoldable pub workload_key_for_uid : String → String
workload_key_for_uid uid = str_append "uid/" uid

unfoldable pub target_of : WorkloadObject → Snapshot → ReplicaAllocation → Target
unfolding workload_key_for_uid
target_of w s a = target (workload_key_for_uid s.workload_uid) w.workload.generation (record {
  observed_spot = (actual_counts s).0;
  observed_on_demand = (actual_counts s).1;
  target_spot = a.target_spot;
  target_on_demand = a.target_on_demand;
})

unfoldable pub target_for :
    Request → WorkloadConfiguration → WorkloadObject → Snapshot → Result MutateError Target
unfolding target_of
target_for q config w s =
    if not (is_fresh (some s) q.fresh_at default_pod_list_max_age) || s.classification_failed
    then ok unreliable
    else do
      a ←
          lift_error allocation_failed
            (allocate_replica_distribution (desired_replicas w.replicas) (allocation_policy config))
      ok (target_of w s a)

unfoldable pub find_target :
    Request → AdmittedPod → WorkloadConfiguration → Result MutateError Target
unfolding target_for
find_target q pod config = do
  w ← lift_error owner_failed (workload_for_pod q.cluster pod.namespace pod.owners)
  s ← lift_error observe_failed (observe q.answers q.observed_at w.workload)
  target_for q config w s

-- Without a tracker the counts alone decide.
abbrev pub choose_untracked : Observed → CapacityType
choose_untracked o =
    if ltb_ℤ o.observed_on_demand o.target_on_demand
    then on_demand
    else if ltb_ℤ o.observed_spot o.target_spot
    then spot
    else on_demand

-- The observer leaves the resource version of the list of pods empty.
abbrev pub settle :
    Request → Target → Option AdmissionStateTracker → Option AdmissionStateTracker × CapacityType
settle q unreliable t = (t, on_demand)
settle q (target key g o) none = (none, choose_untracked o)
settle q (target key g o) (some t) =
    let (t', c) =
      select_and_reserve q.selected_at key g o (update_pod_list_metadata q.updated_at key "" g t) in
    (some t', c)

-- After an error the pod goes on demand, and nothing is reserved.
abbrev pub settle_or_on_demand :
    Request
    → Result MutateError Target
    → Option AdmissionStateTracker
    → Option AdmissionStateTracker × CapacityType
settle_or_on_demand q (err e) t = (t, on_demand)
settle_or_on_demand q (ok x) t = settle q x t

unfoldable pub determine_target_capacity_type :
    Request
    → AdmittedPod
    → WorkloadConfiguration
    → Option AdmissionStateTracker
    → Option AdmissionStateTracker × CapacityType
unfolding find_target
determine_target_capacity_type q pod config t = settle_or_on_demand q (find_target q pod config) t

unfoldable pub generate_node_selector_patches :
    Request
    → Option NodeClassifierConfig
    → AdmittedPod
    → WorkloadConfiguration
    → Option AdmissionStateTracker
    → Option AdmissionStateTracker × List PatchOp
unfolding determine_target_capacity_type
generate_node_selector_patches q labels pod config t =
    let (t', c) = determine_target_capacity_type q pod config t in
    (t', node_selector_patches (get_capacity_type_label_config labels) pod.spec c)

-- admission.Response: the pod is always allowed, with its patches, except that a request that cannot
-- be decoded is refused.
pub data Response : Type 0 where
  errored : Response
  allowed : List PatchOp → Response

abbrev pub patched :
    Option AdmissionStateTracker × List PatchOp → Option AdmissionStateTracker × Response
patched (t, ps) = (t, allowed ps)

-- The pod is `none` where it cannot be decoded. The patches are written as JSON by a library.
unfoldable pub mutate_pod :
    Request
    → Option NodeClassifierConfig
    → Option AdmittedPod
    → Option AdmissionStateTracker
    → Option AdmissionStateTracker × Response
unfolding generate_node_selector_patches
mutate_pod q labels none t = (t, errored)
mutate_pod q labels (some pod) t =
    elim (get_workload_config_for_pod q.cluster pod.namespace pod.owners) [
      | none ↦ (t, allowed [])
      | some config ↦ patched (generate_node_selector_patches q labels pod config t)
    ]

-- A request for another kind of object is allowed as it is.
unfoldable pub handle :
    Request
    → Option NodeClassifierConfig
    → Bool
    → Option AdmittedPod
    → Option AdmissionStateTracker
    → Option AdmissionStateTracker × Response
unfolding mutate_pod
handle q labels is_pod pod t = if is_pod then mutate_pod q labels pod t else (t, allowed [])
