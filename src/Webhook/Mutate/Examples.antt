-- ===== src/Webhook/Mutate/Examples.antt =====
-- Admissions of pods of a StatefulSet of ten replicas, seven of them on spot nodes, while two pods
-- run on spot nodes.
use spotalis.Common.{
  ◌≡◌, refl, String, true, false, none, some, List, [], ◌∷◌, ok, err, ℤ, pos, if◌then◌else◌, str_eq,
  ◌*◌, All, inr, ◌⊎◌, Option, arith,
}
use Prim.{tt}
use spotalis.Common.Text.{codes}
use spotalis.Common.Time.{Time, second}
use spotalis.Kube.{ApiError}
use spotalis.Apis.Configuration.{WorkloadConfiguration}
use spotalis.Observation.{WorkloadKind}
use spotalis.Controllers.Reconciler.Samples.{ready_pod, on_spot}
use spotalis.Webhook.AdmissionState.{
  AdmissionStateTracker, Observed, get_pending_counts, new_admission_state_tracker,
}
use spotalis.Webhook.AdmissionState.Laws.{choose, add_one}
use spotalis.Webhook.Owners.{
  WorkloadObject, Cluster, OwnerKind, OwnerReference, get_workload_config_for_pod, get_failed,
}
use spotalis.Webhook.Placement.{get_capacity_type_label_config}
use spotalis.Webhook.Mutate.{
  AdmittedPod, Request, MutateError, Target, owner_failed, target, unreliable, find_target,
}
use spotalis.Webhook.Mutate.Admission.{IsPlaced, reserved-IsPlaced}
use spotalis.Webhook.Mutate.Interleaving.{
  LockedStep, metadata, selection, run, IsOf, interleaved_burst,
}

abbrev db_object : WorkloadObject
db_object = record {
  meta = record {
    labels = some (λ k. if str_eq k "spotalis.io/enabled" then some (codes "true") else none);
    annotations =
        some (λ k. if str_eq k "spotalis.io/spot-percentage" then some (codes "70") else none);
  };
  workload = record {
    kind = WorkloadKind.stateful_set;
    namespace = "shop";
    uid = "uid-2";
    generation = pos 1;
    selector = some (record { match_labels = [] });
  };
  replicas = some (pos 10);
}

abbrev new_pod : AdmittedPod
new_pod = record {
  namespace = "shop";
  owners =
      record { kind = OwnerKind.stateful_set; name = "db"; uid = "uid-2"; controller = some true }
      ∷ [];
  spec = record { node_selector = none; node_affinity = none };
}

abbrev request : Request
request = record {
  cluster = record {
    get_replica_set = λ ns name. err ApiError.not_found;
    get_deployment = λ ns name. err ApiError.not_found;
    get_stateful_set = λ ns name. ok db_object;
  };
  answers = on_spot (ready_pod (codes "db-0") "node-1" ∷ ready_pod (codes "db-1") "node-2" ∷ []);
  observed_at = 100 * second;
  fresh_at = 100 * second;
  updated_at = 100 * second;
  selected_at = 100 * second;
}

abbrev two_of_seven : Observed
two_of_seven = record {
  observed_spot = pos 2;
  observed_on_demand = pos 0;
  target_spot = pos 7;
  target_on_demand = pos 3;
}

abbrev seventy : WorkloadConfiguration
seventy = record {
  enabled = true;
  min_on_demand = pos 0;
  spot_percentage = pos 70;
  policy = record { min_on_demand = none; spot_percentage = some (pos 70) };
}

managed : get_workload_config_for_pod request.cluster "shop" new_pod.owners ≡ some seventy
unfolding get_workload_config_for_pod spotalis.Webhook.Owners.get_config_from_workload
    spotalis.Annotations.Parser.parse_workload_configuration
    spotalis.Annotations.Parser.has_spotalis_annotations spotalis.Common.Strconv.atoi
    spotalis.Common.Strconv.parse_int spotalis.Common.Text.trim_suffix spotalis.Common.Words.wrap32
managed = refl

found : find_target request new_pod seventy ≡ ok (target "uid/uid-2" (pos 1) two_of_seven)
unfolding find_target spotalis.Annotations.Parser.is_spotalis_enabled
    spotalis.Annotations.Parser.parse_workload_configuration
    spotalis.Apis.Configuration.allocation_policy spotalis.Apis.Policy.allocate_replica_distribution
    spotalis.Apis.Policy.min_int32 spotalis.Apis.Policy.validate_replica_allocation_policy
    spotalis.Apis.ReplicaState.calculate_desired_distribution spotalis.Common.Strconv.atoi
    spotalis.Common.Strconv.parse_int spotalis.Common.Text.to_lower spotalis.Common.Text.trim_suffix
    spotalis.Common.Time.sub_time spotalis.Common.Words.wrap32 spotalis.Common.Words.wrap64
    spotalis.Common.quot spotalis.Common.◌*ℤ◌ spotalis.Common.◌+ℤ◌ spotalis.Common.◌-ℤ◌
    spotalis.Observation.actual_counts spotalis.Observation.Service.capacity_for
    spotalis.Observation.Service.classify spotalis.Observation.count_pods
    spotalis.Observation.eligible_pods spotalis.Observation.Service.first_ready
    spotalis.Observation.Service.intent_for spotalis.Observation.Service.is_assigned
    spotalis.Observation.Service.is_deleting spotalis.Observation.is_gone
    spotalis.Observation.is_on_demand spotalis.Observation.Service.is_pending
    spotalis.Observation.is_ready_lifecycle spotalis.Observation.is_spot
    spotalis.Observation.Service.is_terminal spotalis.Observation.Service.lifecycle_for
    spotalis.Observation.Service.observe spotalis.Observation.Service.observed
    spotalis.Observation.ready_pods spotalis.Observation.Service.selector_for
    spotalis.Observation.Service.snapshot_of spotalis.Observation.Service.workload_pods
    spotalis.Common.Sorting.Insertion.arrange spotalis.Webhook.Owners.workload_for_pod
    spotalis.Webhook.Owners.controlling_deployment spotalis.Webhook.Mutate.target_for
    spotalis.Webhook.Mutate.target_of spotalis.Webhook.Mutate.workload_key_for_uid
    spotalis.Observation.is_fresh
found = refl

distinct_values :
    let c = get_capacity_type_label_config none in str_eq c.on_demand_value c.spot_value ≡ false
unfolding get_capacity_type_label_config
distinct_values = refl

abbrev empty : AdmissionStateTracker
empty = new_admission_state_tracker (pos 0)

reserved-IsPlaced_example :
    let c = choose two_of_seven (get_pending_counts empty "uid/uid-2" (pos 1)) in
    (t' : AdmissionStateTracker) × IsPlaced request none new_pod seventy managed distinct_values
      (some empty)
      (some t')
      c
    × (get_pending_counts t' "uid/uid-2" (pos 1)
        ≡ add_one c (get_pending_counts empty "uid/uid-2" (pos 1)))
    × ((j : String) (g' : ℤ)
        → str_eq j "uid/uid-2" ≡ false
        → get_pending_counts t' j g' ≡ get_pending_counts empty j g')
reserved-IsPlaced_example =
    reserved-IsPlaced request none new_pod seventy managed distinct_values empty "uid/uid-2" (pos 1)
      two_of_seven found

-- The observation is six seconds old, and five are too many.
abbrev late : Request
late = record request { fresh_at = 106 * second }

stale : find_target late new_pod seventy ≡ ok unreliable
unfolding find_target spotalis.Annotations.Parser.is_spotalis_enabled
    spotalis.Annotations.Parser.parse_workload_configuration
    spotalis.Apis.Configuration.allocation_policy spotalis.Apis.Policy.allocate_replica_distribution
    spotalis.Apis.Policy.min_int32 spotalis.Apis.Policy.validate_replica_allocation_policy
    spotalis.Apis.ReplicaState.calculate_desired_distribution spotalis.Common.Strconv.atoi
    spotalis.Common.Strconv.parse_int spotalis.Common.Text.to_lower spotalis.Common.Text.trim_suffix
    spotalis.Common.Time.sub_time spotalis.Common.Words.wrap32 spotalis.Common.Words.wrap64
    spotalis.Common.quot spotalis.Common.◌*ℤ◌ spotalis.Common.◌+ℤ◌ spotalis.Common.◌-ℤ◌
    spotalis.Observation.actual_counts spotalis.Observation.Service.capacity_for
    spotalis.Observation.Service.classify spotalis.Observation.count_pods
    spotalis.Observation.eligible_pods spotalis.Observation.Service.first_ready
    spotalis.Observation.Service.intent_for spotalis.Observation.Service.is_assigned
    spotalis.Observation.Service.is_deleting spotalis.Observation.is_gone
    spotalis.Observation.is_on_demand spotalis.Observation.Service.is_pending
    spotalis.Observation.is_ready_lifecycle spotalis.Observation.is_spot
    spotalis.Observation.Service.is_terminal spotalis.Observation.Service.lifecycle_for
    spotalis.Observation.Service.observe spotalis.Observation.Service.observed
    spotalis.Observation.ready_pods spotalis.Observation.Service.selector_for
    spotalis.Observation.Service.snapshot_of spotalis.Observation.Service.workload_pods
    spotalis.Common.Sorting.Insertion.arrange spotalis.Webhook.Owners.workload_for_pod
    spotalis.Webhook.Owners.controlling_deployment spotalis.Webhook.Mutate.target_for
    spotalis.Webhook.Mutate.target_of spotalis.Webhook.Mutate.workload_key_for_uid
    spotalis.Observation.is_fresh
stale = refl

-- The steps of two admissions of one workload, and those of an admission of another one between
-- them.
abbrev interleaved : List LockedStep
interleaved =
    metadata 1 "uid/uid-2" (pos 1)
    ∷ metadata 2 "uid/uid-2" (pos 1)
    ∷ selection 3 "uid/uid-2" (pos 1) two_of_seven
    ∷ metadata 4 "uid/uid-3" (pos 8)
    ∷ selection 5 "uid/uid-2" (pos 1) two_of_seven
    ∷ selection 6 "uid/uid-3" (pos 8) two_of_seven
    ∷ []

interleaved-IsOf : All (IsOf "uid/uid-2" (pos 1) two_of_seven) interleaved
interleaved-IsOf = (tt, (tt, (λ _. (refl, refl), (tt, (λ _. (refl, refl), (λ e. cc e, tt))))))

empty_counts : get_pending_counts empty "uid/uid-2" (pos 1) ≡ (pos 0, pos 0)
unfolding get_pending_counts new_admission_state_tracker
empty_counts = refl

interleaved_burst_example :
    get_pending_counts (run interleaved empty) "uid/uid-2" (pos 1) ≡ (pos 0, pos 2)
interleaved_burst_example =
    interleaved_burst interleaved "uid/uid-2" (pos 1) two_of_seven empty 0 0 interleaved-IsOf
      empty_counts (omega arith)
