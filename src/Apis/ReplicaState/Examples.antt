-- ===== src/Apis/ReplicaState/Examples.antt =====
-- The desired distribution and the next action at concrete states.
use spotalis.Common.{◌≡◌, ◌⊎◌, refl, true, false, none, arith, pos, ◌+ℤ◌}
use spotalis.Common.Words.{wrap32}
use spotalis.Apis.Configuration.{WorkloadConfiguration}
use spotalis.Apis.ReplicaState.{
  ReplicaState, migrate_to_spot, get_next_action, needs_reconciliation,
  calculate_desired_distribution, get_desired_total,
}
use spotalis.Apis.ReplicaState.Distribution.{IsActive, calculate_conserves}
use spotalis.Apis.ReplicaState.Actions.{distance, reconcile, reconcile_converges}

abbrev half_spot : WorkloadConfiguration
half_spot = record {
  enabled = true;
  min_on_demand = pos 1;
  spot_percentage = pos 50;
  policy = record { min_on_demand = none; spot_percentage = none };
}

-- Six replicas on demand of which three belong on spot nodes.
abbrev all_on_demand_six : ReplicaState
all_on_demand_six = record {
  total_replicas = pos 6;
  current_on_demand = pos 6;
  current_spot = pos 0;
  desired_on_demand = pos 3;
  desired_spot = pos 3;
  last_reconciled = 0;
  pending_on_demand = pos 0;
  pending_spot = pos 0;
  failed_spot = pos 0;
}

migrates : get_next_action all_on_demand_six ≡ migrate_to_spot
unfolding get_next_action wrap32 ◌+ℤ◌
migrates = refl

calculate_conserves_example :
    let r' = calculate_desired_distribution all_on_demand_six half_spot in
    (get_desired_total r' ≡ pos 6) × ((r'.desired_spot ≡ pos 0) ⊎ IsActive (pos 6) half_spot)
calculate_conserves_example = calculate_conserves all_on_demand_six half_spot (omega arith)

reconcile_converges_example :
    let r' = reconcile 6 all_on_demand_six in
    (needs_reconciliation r' ≡ false)
    × (r'.desired_on_demand ≡ pos 3)
    × (r'.desired_spot ≡ pos 3)
    × (r'.total_replicas ≡ pos 6)
unfolding distance
reconcile_converges_example = reconcile_converges 6 all_on_demand_six (omega arith) (omega arith)
