-- ===== src/Apis/ReplicaState.antt =====
-- pkg/apis/replica_state.go: current and desired replica counts of a workload, and the next action
-- of the reconciliation. A method that mutates `*ReplicaState` returns the new record; the reading
-- of time.Now() is the argument `now`. The reference to the workload is not modelled.
pub mod Distribution
pub mod Actions
mod Examples
use spotalis.Common.{
  ℕ, Bool, true, not, ◌||◌, ◌&&◌, if◌then◌else◌, Result, ok, err, ℤ, pos, negsuc, pos_part,
  neg_part, ltb_ℤ, ◌==ℤ◌, ◌==◌, ◌+ℤ◌, ◌-ℤ◌, ◌*ℤ◌, sub_ℕ,
}
use spotalis.Common.Words.{wrap32, ◌+i32◌, ◌-i32◌}
use spotalis.Common.Time.{Time, is_zero, since, sub_time}
use spotalis.Apis.Policy.{ReplicaAllocation, PolicyError, allocate_replica_distribution}
use spotalis.Apis.Configuration.{WorkloadConfiguration, allocation_policy}

pub record ReplicaState : Type 0 where
  pub total_replicas : ℤ
  pub current_on_demand : ℤ
  pub current_spot : ℤ
  pub desired_on_demand : ℤ
  pub desired_spot : ℤ
  pub last_reconciled : Time
  pub pending_on_demand : ℤ
  pub pending_spot : ℤ
  pub failed_spot : ℤ

all_on_demand : ReplicaState → ReplicaState
all_on_demand r = record r { desired_on_demand = r.total_replicas; desired_spot = pos 0 }

apply_allocation : ReplicaState → Result PolicyError ReplicaAllocation → ReplicaState
unfolding all_on_demand
apply_allocation r (err e) = all_on_demand r
apply_allocation r (ok a) = record r {
  desired_on_demand = a.target_on_demand;
  desired_spot = a.target_spot;
}

unfoldable pub calculate_desired_distribution : ReplicaState → WorkloadConfiguration → ReplicaState
unfolding all_on_demand apply_allocation
calculate_desired_distribution r config =
    if not config.enabled
    then all_on_demand r
    else apply_allocation r
        (allocate_replica_distribution r.total_replicas (allocation_policy config))

unfoldable pub get_current_total : ReplicaState → ℤ
get_current_total r = r.current_on_demand +i32 r.current_spot

unfoldable pub get_desired_total : ReplicaState → ℤ
get_desired_total r = r.desired_on_demand +i32 r.desired_spot

unfoldable pub needs_reconciliation : ReplicaState → Bool
needs_reconciliation r =
    not (r.current_on_demand ==ℤ r.desired_on_demand) || not (r.current_spot ==ℤ r.desired_spot)

pub get_on_demand_drift : ReplicaState → ℤ
get_on_demand_drift r = r.current_on_demand -i32 r.desired_on_demand

pub get_spot_drift : ReplicaState → ℤ
get_spot_drift r = r.current_spot -i32 r.desired_spot

pub requires_scale_up : ReplicaState → Bool
unfolding get_current_total
requires_scale_up r = ltb_ℤ (get_current_total r) r.total_replicas

pub requires_scale_down : ReplicaState → Bool
unfolding get_current_total
requires_scale_down r = ltb_ℤ r.total_replicas (get_current_total r)

pub data ReplicaAction : Type 0 where
  no_action : ReplicaAction
  scale_up_on_demand scale_up_spot : ReplicaAction
  scale_down_on_demand scale_down_spot : ReplicaAction
  migrate_to_spot migrate_to_on_demand : ReplicaAction

-- The total is right and the distribution is not.
migration : ReplicaState → ReplicaAction
migration r =
    if ltb_ℤ r.desired_on_demand r.current_on_demand && ltb_ℤ r.current_spot r.desired_spot
    then migrate_to_spot
    else if ltb_ℤ r.desired_spot r.current_spot && ltb_ℤ r.current_on_demand r.desired_on_demand
    then migrate_to_on_demand
    else no_action

-- Too many replicas overall; the last branch falls through to the migration.
scale_down : ReplicaState → ReplicaAction
unfolding migration
scale_down r =
    if ltb_ℤ r.total_replicas (get_current_total r)
    then (if ltb_ℤ r.desired_spot r.current_spot
        then scale_down_spot
        else if ltb_ℤ r.desired_on_demand r.current_on_demand
        then scale_down_on_demand
        else migration r)
    else migration r

unfoldable pub get_next_action : ReplicaState → ReplicaAction
unfolding scale_down needs_reconciliation get_current_total
get_next_action r =
    if not (needs_reconciliation r)
    then no_action
    else if ltb_ℤ (get_current_total r) r.total_replicas
    then (if ltb_ℤ r.current_on_demand r.desired_on_demand
        then scale_up_on_demand
        else if ltb_ℤ r.current_spot r.desired_spot
        then scale_up_spot
        else scale_down r)
    else scale_down r

pub update_current_state : ReplicaState → ℤ → ℤ → ReplicaState
update_current_state r on_demand_count spot_count = record r {
  current_on_demand = on_demand_count;
  current_spot = spot_count;
}

pub mark_reconciled : Time → ReplicaState → ReplicaState
mark_reconciled now r = record r { last_reconciled = now }

pub get_reconciliation_age : Time → ReplicaState → ℤ
get_reconciliation_age now r =
    if is_zero r.last_reconciled then pos 0 else since now r.last_reconciled

pub is_stale : Time → ReplicaState → ℤ → Bool
unfolding get_reconciliation_age
is_stale now r max_age =
    if is_zero r.last_reconciled then true else ltb_ℤ max_age (get_reconciliation_age now r)
