-- ===== src/Webhook/Mutate/Admission.antt =====
-- What the admission of a pod in pkg/webhook/mutate.go reserves, and how the pod is patched.
use spotalis.Common.{
  String, ◌≡◌, refl, false, Option, some, List, ok, err, ℤ, str_eq, inl, inr, ap, ◌∙◌, ◌⊎◌,
}
use spotalis.Apis.Configuration.{WorkloadConfiguration}
use spotalis.Webhook.AdmissionState.{
  CapacityType, on_demand, AdmissionStateTracker, Observed, get_pending_counts, select_and_reserve,
  update_pod_list_metadata,
}
use spotalis.Webhook.AdmissionState.Laws.{
  choose, add_one, get-reserve, get-reserve_other, select_and_reserve_lem,
}
use spotalis.Webhook.AdmissionState.Freshness.{get-update}
use spotalis.Webhook.Placement.{
  NodeClassifierConfig, PatchOp, get_capacity_type_label_config, get_pod_capacity_type,
  node_selector_patches,
}
use spotalis.Webhook.Placement.ReadBack.{apply_patches, get_pod_capacity_type-patched}
use spotalis.Webhook.Owners.{get_workload_config_for_pod}
use spotalis.Webhook.Mutate.{
  Request, AdmittedPod, MutateError, unreliable, target, allowed, find_target,
  determine_target_capacity_type, generate_node_selector_patches, mutate_pod,
}

module _ (q : Request) (labels : Option NodeClassifierConfig) (pod : AdmittedPod)
    (config : WorkloadConfiguration)
    (managed : get_workload_config_for_pod q.cluster pod.namespace pod.owners ≡ some config)
    (distinct : let c = get_capacity_type_label_config labels in
      str_eq c.on_demand_value c.spot_value ≡ false) where
  -- The pod is allowed with patches, after which it counts as the capacity type.
  pub record IsPlaced (t t' : Option AdmissionStateTracker) (c : CapacityType) : Type 0 where
    pub patches : List PatchOp
    pub response : mutate_pod q labels (some pod) t ≡ (t', allowed patches)
    pub read_back :
        get_pod_capacity_type
          (get_capacity_type_label_config labels)
          (apply_patches patches pod.spec)
        ≡ c

  determined-IsPlaced :
      (t t' : Option AdmissionStateTracker) (c : CapacityType)
      → determine_target_capacity_type q pod config t ≡ (t', c)
      → IsPlaced t t' c
  unfolding mutate_pod generate_node_selector_patches
  determined-IsPlaced t t' c e =
      let lc = get_capacity_type_label_config labels in
      record {
        patches = node_selector_patches lc pod.spec c;
        response = rw (mutate_pod, managed, e) refl;
        read_back = get_pod_capacity_type-patched lc pod.spec c distinct;
      }

  -- An admission that knows its target reserves one place of the capacity type that the pod is then
  -- patched for, the choice by the observed and the pending counts; the counts of every other
  -- workload stay. It supposes that the two values of the capacity label differ.
  pub reserved-IsPlaced :
      (t : AdmissionStateTracker) (key : String) (g : ℤ) (o : Observed)
      → find_target q pod config ≡ ok (target key g o)
      → let c = choose o (get_pending_counts t key g) in
        (t' : AdmissionStateTracker) × IsPlaced (some t) (some t') c
        × (get_pending_counts t' key g ≡ add_one c (get_pending_counts t key g))
        × ((j : String) (g' : ℤ)
            → str_eq j key ≡ false
            → get_pending_counts t' j g' ≡ get_pending_counts t j g')
  unfolding determine_target_capacity_type
  reserved-IsPlaced t key g o found = (
    (select_and_reserve q.selected_at key g o updated).0,
    determined-IsPlaced (some t) _ _ (
        rw (
          determine_target_capacity_type,
          found,
          select_and_reserve_lem q.selected_at key g updated o,
          same,
        )),
    get-reserve q.selected_at key g updated o ∙ ap (λ n. add_one (choose o n) n) same,
    λ j g' h.
        get-reserve_other q.selected_at key g updated j g' o h
        ∙ get-update q.updated_at key g t "" j g',
  )
    where
      updated : AdmissionStateTracker
      updated = update_pod_list_metadata q.updated_at key "" g t

      same : get_pending_counts updated key g ≡ get_pending_counts t key g
      same = get-update q.updated_at key g t "" key g

  -- If the target cannot be found, or the observation is stale or its classification has failed, the
  -- pod is patched for an on-demand node and nothing is reserved.
  pub unknown-IsPlaced :
      (t : Option AdmissionStateTracker)
      → ((e : MutateError) × (find_target q pod config ≡ err e))
        ⊎ (find_target q pod config ≡ ok unreliable)
      → IsPlaced t t on_demand
  unfolding determine_target_capacity_type
  unknown-IsPlaced t (inl (e, failed)) =
      determined-IsPlaced t t on_demand (rw (determine_target_capacity_type, failed) refl)
  unknown-IsPlaced t (inr stale) =
      determined-IsPlaced t t on_demand (rw (determine_target_capacity_type, stale) refl)
