-- ===== src/Apis/Policy/Examples.antt =====
-- The allocation at concrete inputs.
use spotalis.Common.{◌↔◌, ◌≤◌, ◌*◌, ◌+◌, ◌≡◌, refl, ok, pos, ◌≤ℤ◌, arith, quot, ◌*ℤ◌, ◌-ℤ◌}
use spotalis.Common.Words.{wrap32, wrap64}
use Prim.Native.Nat.{min}
use spotalis.Apis.Policy.{ReplicaAllocationPolicy, ReplicaAllocation, allocate_replica_distribution}
use spotalis.Apis.Policy.Allocation.{Promises, allocate_sound, allocate_greatest}

abbrev seventy : ReplicaAllocationPolicy
seventy = record { min_on_demand = pos 2; spot_percentage = pos 70 }

abbrev ten : ReplicaAllocation
ten = record {
  total_replicas = pos 10;
  effective_on_demand_floor = pos 2;
  target_on_demand = pos 3;
  target_spot = pos 7;
}

abbrev fifteen : ReplicaAllocation
fifteen = record {
  total_replicas = pos 15;
  effective_on_demand_floor = pos 2;
  target_on_demand = pos 5;
  target_spot = pos 10;
}

allocate_ten : allocate_replica_distribution (pos 10) seventy ≡ ok ten
unfolding allocate_replica_distribution quot wrap64 wrap32 ◌*ℤ◌ ◌-ℤ◌
allocate_ten = refl

allocate_fifteen : allocate_replica_distribution (pos 15) seventy ≡ ok fifteen
unfolding allocate_replica_distribution quot wrap64 wrap32 ◌*ℤ◌ ◌-ℤ◌
allocate_fifteen = refl

allocate_sound_example :
    (a : ReplicaAllocation) × (allocate_replica_distribution (pos 10) seventy ≡ ok a)
    × Promises (pos 10) seventy a
allocate_sound_example = allocate_sound (pos 10) seventy (omega arith)

allocate_greatest_example : (pos 6 ≤ℤ ten.target_spot) ↔ ((6 * 100 ≤ 10 * 70) × (6 + min 2 10 ≤ 10))
allocate_greatest_example = allocate_greatest (pos 10) seventy ten 6 (omega arith) allocate_ten
