-- ===== src/Apis/Policy.antt =====
-- pkg/apis/policy.go: the resolved placement policy and the allocation of replicas.
pub mod Allocation
mod Examples
use spotalis.Common.{
  ℕ, ◌-◌, ◌^◌, Bool, ◌||◌, Option, none, some, ltb, if◌then◌else◌, Result, ok, err, ℤ, pos, negsuc,
  pos_part, neg_part, ltb_ℤ, ◌*ℤ◌, quot,
}
use spotalis.Common.Words.{wrap32, wrap64, ◌-i32◌}

pub record ReplicaAllocationPolicy : Type 0 where
  pub min_on_demand : ℤ  -- int32
  pub spot_percentage : ℤ  -- int32

-- A nil pointer is `none`: the field was omitted.
pub record WorkloadPolicy : Type 0 where
  pub min_on_demand : Option ℤ
  pub spot_percentage : Option ℤ

abbrev override : Option ℤ → ℤ → ℤ
override none d = d
override (some v) d = v

unfoldable pub resolve : WorkloadPolicy → ReplicaAllocationPolicy → ReplicaAllocationPolicy
resolve p defaults = record {
  min_on_demand = override p.min_on_demand defaults.min_on_demand;
  spot_percentage = override p.spot_percentage defaults.spot_percentage;
}

pub record ReplicaAllocation : Type 0 where
  pub total_replicas : ℤ
  pub effective_on_demand_floor : ℤ
  pub target_on_demand : ℤ
  pub target_spot : ℤ

-- The errors, with the number that the message shows.
pub data PolicyError : Type 0 where
  negative_total : ℤ → PolicyError
  negative_min_on_demand : ℤ → PolicyError
  percentage_out_of_range : ℤ → PolicyError
  spot_target_out_of_range : ℤ → PolicyError

-- A nil error is `none`.
unfoldable pub validate_replica_allocation_policy : ℤ → ReplicaAllocationPolicy → Option PolicyError
validate_replica_allocation_policy total policy =
    if ltb_ℤ total (pos 0)
    then some (negative_total total)
    else if ltb_ℤ policy.min_on_demand (pos 0)
    then some (negative_min_on_demand policy.min_on_demand)
    else if ltb_ℤ policy.spot_percentage (pos 0) || ltb_ℤ (pos 100) policy.spot_percentage
    then some (percentage_out_of_range policy.spot_percentage)
    else none

-- pkg/apis/replica_state.go
unfoldable pub min_int32 : ℤ → ℤ → ℤ
min_int32 a b = if ltb_ℤ a b then a else b

-- The body of the allocation once the inputs have been validated.
allocate_valid : ℤ → ReplicaAllocationPolicy → Result PolicyError ReplicaAllocation
unfolding min_int32
allocate_valid total policy =
    let floor = min_int32 policy.min_on_demand total in
    let percentage_target64 = quot (wrap64 (total *ℤ policy.spot_percentage)) 100 in
    if ltb_ℤ percentage_target64 (pos 0) || ltb_ℤ (pos (2 ^ 31 - 1)) percentage_target64
    then err (spot_target_out_of_range percentage_target64)
    else let target_spot = min_int32 (wrap32 percentage_target64) (total -i32 floor) in
      ok (record {
        total_replicas = total;
        effective_on_demand_floor = floor;
        target_on_demand = total -i32 target_spot;
        target_spot = target_spot;
      })

unfoldable pub allocate_replica_distribution :
    ℤ → ReplicaAllocationPolicy → Result PolicyError ReplicaAllocation
unfolding validate_replica_allocation_policy allocate_valid
allocate_replica_distribution total policy =
    elim (validate_replica_allocation_policy total policy) [
      | some e ↦ err e
      | none ↦ allocate_valid total policy
    ]
