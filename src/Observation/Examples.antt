-- ===== src/Observation/Examples.antt =====
-- A Deployment with a ready pod on a spot node and one that is being deleted.
use spotalis.Common.{
  String, ◌≡◌, refl, true, Option, none, some, List, [], ◌∷◌, Result, ok, err, pos, ◌+ℤ◌, All,
}
use spotalis.Common.Words.{wrap32}
use spotalis.Common.Time.{Time}
use spotalis.Kube.{Pod, PodPhase, ApiError}
use spotalis.Apis.NodeType.{NodeType, NodeTypes}
use spotalis.Observation.{Workload, WorkloadKind, eligible_pods, actual_counts}
use spotalis.Observation.Service.{Answers, observe, snapshot_of, classify}
use spotalis.Observation.Eligible.{IsEligible, eligible_pods-IsEligible}

abbrev pod_named : String → Option Time → Pod
pod_named node deletion = record {
  name = [];
  namespace = "shop";
  labels = λ k. none;
  node_name = node;
  deletion_timestamp = deletion;
  phase = PodPhase.running;
  conditions = record { is_ready_type = true; is_true = true } ∷ [];
  node_selector = λ k. none;
}

abbrev two_pods : List Pod
two_pods = pod_named "node-1" none ∷ pod_named "node-2" (some 5) ∷ []

abbrev cluster : Result ApiError NodeTypes → Answers
cluster types = record {
  replica_sets = λ ns uid. ok ("rs-1" ∷ []);
  owned_pods = λ ns uid. ok two_pods;
  as_selector = λ s. some (λ labels. true);
  classify_nodes_by_name = some (λ names. types);
}

abbrev all_spot : Answers
all_spot = cluster (ok (λ n. some NodeType.spot))

abbrev classifier_down : Answers
classifier_down = cluster (err ApiError.other_error)

abbrev shop : Workload
shop = record {
  kind = WorkloadKind.deployment;
  namespace = "shop";
  uid = "uid-1";
  generation = pos 1;
  selector = some (record { match_labels = [] });
}

-- The pod that is being deleted is neither offered nor counted.
offers_one :
    eligible_pods (snapshot_of all_spot 100 shop two_pods) ≡ (pod_named "node-1" none ∷ [], [])
unfolding eligible_pods snapshot_of
offers_one = refl

counts_one : actual_counts (snapshot_of all_spot 100 shop two_pods) ≡ (pos 1, pos 0)
unfolding actual_counts snapshot_of wrap32 ◌+ℤ◌
counts_one = refl

observed_shop :
    (a : Result ApiError NodeTypes)
    → observe (cluster a) 100 shop ≡ ok (snapshot_of (cluster a) 100 shop two_pods)
unfolding observe
observed_shop a = refl

eligible_pods-IsEligible_example :
    (names : List String) × All
      (IsEligible (classify all_spot names).0 NodeType.spot)
      (eligible_pods (snapshot_of all_spot 100 shop two_pods)).0
    × All
        (IsEligible (classify all_spot names).0 NodeType.on_demand)
        (eligible_pods (snapshot_of all_spot 100 shop two_pods)).1
eligible_pods-IsEligible_example =
    eligible_pods-IsEligible all_spot 100 shop (snapshot_of all_spot 100 shop two_pods)
      (observed_shop (ok (λ n. some NodeType.spot)))

is_down : (snapshot_of classifier_down 100 shop two_pods).classification_failed ≡ true
unfolding snapshot_of
is_down = refl
