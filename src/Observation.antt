-- ===== src/Observation.antt =====
-- pkg/observation/workload.go: snapshots of the pods of a workload, and what they are used for.
pub mod Service
pub mod Counts
pub mod Eligible
mod Examples
use spotalis.Common.{
  ℕ, String, Bool, true, false, not, ◌&&◌, ◌||◌, if◌then◌else◌, Option, none, some, List, [], ◌∷◌,
  ◌++◌, map, filter, Result, ok, err, ◌>>=◌, ℤ, pos, pos_part, neg_part, leb_ℤ, str_eq, ◌+ℤ◌,
}
use spotalis.Common.Text.{Text, codes, eq_text}
use spotalis.Common.Words.{◌+i32◌, wrap32}
use spotalis.Common.Time.{Time, is_zero, sub_time}
use spotalis.Kube.{StringMap, ApiError, LabelSelector, PodPhase, PodCondition, Pod}
use spotalis.Apis.NodeType
use spotalis.Apis.NodeType.{NodeType, NodeTypes}

pub data Lifecycle : Type 0 where
  terminal terminating pending_unscheduled scheduled_not_ready ready : Lifecycle

pub data PlacementIntent : Type 0 where
  intent_unknown intent_spot intent_on_demand : PlacementIntent

pub record ObservedPod : Type 0 where
  pub pod : Pod
  pub lifecycle : Lifecycle
  pub capacity : NodeType
  pub placement_intent : PlacementIntent

pub data WorkloadKind : Type 0 where
  deployment stateful_set : WorkloadKind

-- client.Object: an object of another type is not modelled.
pub record Workload : Type 0 where
  pub kind : WorkloadKind
  pub namespace : String
  pub uid : String
  pub generation : ℤ  -- int64
  pub selector : Option LabelSelector

-- The classification error is kept as the fact that there is one.
pub record Snapshot : Type 0 where
  pub workload_uid : String
  pub generation : ℤ
  pub observed_at : Time
  pub pods : List ObservedPod
  pub classification_failed : Bool

-- `now.Sub(s.ObservedAt) <= maxAge`; a nil snapshot is `none`.
unfoldable pub is_fresh : Option Snapshot → Time → ℤ → Bool
is_fresh none now max_age = false
is_fresh (some s) now max_age =
    not (is_zero s.observed_at) && leb_ℤ (sub_time now s.observed_at) max_age

unfoldable pub is_gone : Lifecycle → Bool
is_gone terminal = true
is_gone terminating = true
is_gone _ = false

abbrev pub count_capacity : NodeType → ℤ × ℤ → ℤ × ℤ
count_capacity NodeType.spot (s, d) = (s +i32 pos 1, d)
count_capacity NodeType.on_demand (s, d) = (s, d +i32 pos 1)
count_capacity NodeType.unknown (s, d) = (s, d)

-- The loop of ActualCounts, with the counts so far.
unfoldable pub count_pods : List ObservedPod → ℤ × ℤ → ℤ × ℤ
unfolding is_gone
count_pods [] n = n
count_pods (p ∷ ps) n =
    count_pods ps (if is_gone p.lifecycle then n else count_capacity p.capacity n)

-- The counts of spot and of on-demand pods.
unfoldable pub actual_counts : Snapshot → ℤ × ℤ
unfolding count_pods
actual_counts s = count_pods s.pods (pos 0, pos 0)

unfoldable pub is_ready_lifecycle : Lifecycle → Bool
is_ready_lifecycle ready = true
is_ready_lifecycle _ = false

unfoldable pub is_spot : NodeType → Bool
is_spot NodeType.spot = true
is_spot _ = false

unfoldable pub is_on_demand : NodeType → Bool
is_on_demand NodeType.on_demand = true
is_on_demand _ = false

-- The ready pods of a capacity, in order.
unfoldable pub ready_pods : (NodeType → Bool) → List ObservedPod → List Pod
unfolding is_ready_lifecycle
ready_pods is_type [] = []
ready_pods is_type (p ∷ ps) =
    let rest = ready_pods is_type ps in
    if is_ready_lifecycle p.lifecycle && is_type p.capacity then p.pod ∷ rest else rest

-- The spot and the on-demand pods that may be disrupted.
unfoldable pub eligible_pods : Snapshot → List Pod × List Pod
unfolding ready_pods is_spot is_on_demand
eligible_pods s = (ready_pods is_spot s.pods, ready_pods is_on_demand s.pods)
