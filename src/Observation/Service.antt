-- ===== src/Observation/Service.antt =====
-- The service of pkg/observation/workload.go: which pods belong to a workload, and what is observed
-- of them.
use spotalis.Common.{
  String, Bool, true, false, not, ◌&&◌, ◌||◌, if◌then◌else◌, Option, none, some, List, [], ◌∷◌,
  ◌++◌, map, filter, Result, ok, err, ◌>>=◌, str_eq,
}
use spotalis.Common.Text.{codes, eq_text}
use spotalis.Common.Time.{Time}
use spotalis.Kube.{StringMap, ApiError, LabelSelector, PodPhase, PodCondition, Pod}
use spotalis.Apis.NodeType.{NodeType, NodeTypes}
use spotalis.Observation.{
  Lifecycle, ObservedPod, PlacementIntent, Snapshot, Workload, deployment, stateful_set, terminal,
  terminating, pending_unscheduled, scheduled_not_ready, ready, intent_unknown, intent_spot,
  intent_on_demand,
}

-- The answers of the API server, through the indexes of the cache, and of the node classifier; a nil
-- classifier is `none`. `as_selector` is metav1.LabelSelectorAsSelector, an error is `none`.
pub record Answers : Type 0 where
  pub replica_sets : String → String → Result ApiError (List String)
  pub owned_pods : String → String → Result ApiError (List Pod)
  pub as_selector : LabelSelector → Option (StringMap → Bool)
  pub classify_nodes_by_name : Option (List String → Result ApiError NodeTypes)

pub data ObserveError : Type 0 where
  no_selector bad_selector : ObserveError
  list_failed : ApiError → ObserveError

unfoldable pub is_terminal : Pod → Bool
is_terminal pod = elim pod.phase [ PodPhase.succeeded ↦ true | PodPhase.failed ↦ true | _ ↦ false ]

abbrev pub is_some {ℓ} : {A : Type ℓ} → Option A → Bool
is_some none = false
is_some (some a) = true

unfoldable pub is_deleting : Pod → Bool
is_deleting pod = is_some pod.deletion_timestamp

-- The first condition of the type "Ready" decides.
unfoldable pub first_ready : List PodCondition → Bool
first_ready [] = false
first_ready (c ∷ cs) = if c.is_ready_type then c.is_true else first_ready cs

unfoldable pub is_pending : Pod → Bool
is_pending pod = elim pod.phase [ PodPhase.pending ↦ true | _ ↦ false ]

unfoldable pub lifecycle_for : Pod → Lifecycle
unfolding is_terminal is_deleting is_pending first_ready
lifecycle_for pod =
    if is_terminal pod
    then terminal
    else if is_deleting pod
    then terminating
    else if str_eq pod.node_name "" && is_pending pod
    then pending_unscheduled
    else if first_ready pod.conditions
    then ready
    else scheduled_not_ready

abbrev pub or_unknown : Option NodeType → NodeType
or_unknown none = NodeType.unknown
or_unknown (some t) = t

unfoldable pub capacity_for : NodeTypes → Pod → NodeType
unfolding is_terminal is_deleting
capacity_for types pod =
    if str_eq pod.node_name "" || is_deleting pod || is_terminal pod
    then NodeType.unknown
    else or_unknown (types pod.node_name)

unfoldable pub intent_for : Pod → PlacementIntent
intent_for pod = elim (pod.node_selector "karpenter.sh/capacity-type") [
  | none ↦ intent_unknown
  | some v ↦
      if eq_text v (codes "spot")
      then intent_spot
      else if eq_text v (codes "on-demand")
      then intent_on_demand
      else intent_unknown
]

matching_pods : (StringMap → Bool) → List Pod → List Pod
matching_pods selector pods = filter (λ p. selector p.labels) pods

abbrev lift_list {ℓ} : {A : Type ℓ} → Result ApiError A → Result ObserveError A
lift_list (ok a) = ok a
lift_list (err e) = err (list_failed e)

-- The pods of each replica set, one after another.
replica_set_pods :
    Answers → String → (StringMap → Bool) → List String → Result ObserveError (List Pod)
unfolding matching_pods
replica_set_pods a ns selector [] = ok []
replica_set_pods a ns selector (uid ∷ uids) =
    let rest = replica_set_pods a ns selector uids in
    do pods ← lift_list (a.owned_pods ns uid); more ← rest; ok (matching_pods selector pods ++ more)

unfoldable pub workload_pods :
    Answers → Workload → (StringMap → Bool) → Result ObserveError (List Pod)
unfolding replica_set_pods matching_pods
workload_pods a w selector = elim w.kind [
  | deployment ↦ do
    uids ← lift_list (a.replica_sets w.namespace w.uid)
    replica_set_pods a w.namespace selector uids
  | stateful_set ↦ do
    pods ← lift_list (a.owned_pods w.namespace w.uid)
    ok (matching_pods selector pods)
]

unfoldable pub selector_for : Answers → Workload → Result ObserveError (StringMap → Bool)
selector_for a w = elim w.selector [
  | none ↦ err no_selector
  | some s ↦ elim (a.as_selector s) [ none ↦ err bad_selector | some f ↦ ok f ]
]

-- The pods whose nodes are classified.
unfoldable pub is_assigned : Pod → Bool
unfolding is_terminal is_deleting
is_assigned pod = not (str_eq pod.node_name "") && not (is_deleting pod) && not (is_terminal pod)

abbrev pub no_types : NodeTypes
no_types name = none

-- The classifications, and whether the classifier failed.
abbrev pub types_or_none : Result ApiError NodeTypes → NodeTypes × Bool
types_or_none (ok types) = (types, false)
types_or_none (err e) = (no_types, true)

unfoldable pub classify : Answers → List String → NodeTypes × Bool
classify a names = elim a.classify_nodes_by_name [
  | none ↦ (no_types, false)
  | some f ↦ elim names [ [] ↦ (no_types, false) | n ∷ ns ↦ types_or_none (f (n ∷ ns)) ]
]

unfoldable pub observed : NodeTypes → Pod → ObservedPod
unfolding lifecycle_for capacity_for intent_for
observed types pod = record {
  pod = pod;
  lifecycle = lifecycle_for pod;
  capacity = capacity_for types pod;
  placement_intent = intent_for pod;
}

-- The classifier is called with the names of the assigned nodes, after the pods have been listed.
unfoldable pub snapshot_of : Answers → Time → Workload → List Pod → Snapshot
unfolding classify observed is_assigned
snapshot_of a now w pods =
    let (types, classify_err) = classify a (map (λ p. p.node_name) (filter is_assigned pods)) in
    record {
      workload_uid = w.uid;
      generation = w.generation;
      observed_at = now;
      pods = map (observed types) pods;
      classification_failed = classify_err;
    }

unfoldable pub observe : Answers → Time → Workload → Result ObserveError Snapshot
unfolding selector_for workload_pods snapshot_of
observe a now w = do
  selector ← selector_for a w
  pods ← workload_pods a w selector
  ok (snapshot_of a now w pods)
