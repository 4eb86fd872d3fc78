-- ===== src/Apis/ReplicaState/Distribution.antt =====
-- The desired distribution of pkg/apis/replica_state.go.
use spotalis.Common.{
  int_laws, Option-cases, ◌≡◌, refl, true, false, none, inl, inr, ◌⊎◌, Bool-cases, arith, ℤ, pos,
  ◌+ℤ◌,
}
use spotalis.Common.Words.{wrap32, IsI32, wrap32_id}
use spotalis.Apis.Policy.{validate_replica_allocation_policy, allocate_replica_distribution}
use spotalis.Apis.Policy.Allocation.{Accepts, allocate_sound, validate_none, allocate_err_iff}
use spotalis.Apis.Configuration.{WorkloadConfiguration, allocation_policy}
use spotalis.Apis.ReplicaState.{
  ReplicaState, all_on_demand, apply_allocation, calculate_desired_distribution, get_desired_total,
}

-- The configuration leads to an allocation.
abbrev pub IsActive : ℤ → WorkloadConfiguration → Type 0
IsActive total config = (config.enabled ≡ true) × Accepts total (allocation_policy config)

-- A policy with no validation error is accepted.
validate-Accepts :
    (total : ℤ) (config : WorkloadConfiguration)
    → IsI32 total
    → validate_replica_allocation_policy total (allocation_policy config) ≡ none
    → Accepts total (allocation_policy config)
validate-Accepts total config h v =
    let r = (validate_none total (allocation_policy config)).0 v in
    record {
      total_nonneg = r.0;
      total_i32 = h;
      floor_nonneg = r.1;
      percentage_nonneg = r.2;
      percentage_le = r.3;
    }

module _ (r : ReplicaState) (config : WorkloadConfiguration) (h : IsI32 r.total_replicas) where
  total_unchanged : r.total_replicas +ℤ pos 0 ≡ r.total_replicas
  total_unchanged = omega int_laws

  fallback_sum : wrap32 (r.total_replicas +ℤ pos 0) ≡ r.total_replicas
  fallback_sum = rw total_unchanged (wrap32_id _ h)

  calculate_on :
      config.enabled ≡ true
      → calculate_desired_distribution r config
        ≡ apply_allocation r
            (allocate_replica_distribution r.total_replicas (allocation_policy config))
  unfolding calculate_desired_distribution
  calculate_on on = ground arith

  calculate_off : config.enabled ≡ false → calculate_desired_distribution r config ≡ all_on_demand r
  unfolding calculate_desired_distribution
  calculate_off off = ground arith

  -- The calculated targets add up to the total, in 32 bits, whatever the configuration; and they
  -- are all on-demand unless the configuration is enabled with a policy that is accepted.
  pub calculate_conserves :
      let r' = calculate_desired_distribution r config in
      (get_desired_total r' ≡ r.total_replicas)
      × ((r'.desired_spot ≡ pos 0) ⊎ IsActive r.total_replicas config)
  unfolding get_desired_total all_on_demand apply_allocation
  calculate_conserves = elim (Bool-cases config.enabled) [
    | inl on ↦ rw (calculate_on on) (enabled_case on)
    | inr off ↦ rw (calculate_off off) (fallback_sum, inl refl)
  ]
    where
      enabled_case :
          config.enabled ≡ true
          → let r' =
              apply_allocation r
                (allocate_replica_distribution r.total_replicas (allocation_policy config)) in
            (wrap32 (r'.desired_on_demand +ℤ r'.desired_spot) ≡ r.total_replicas)
            × ((r'.desired_spot ≡ pos 0) ⊎ IsActive r.total_replicas config)
      enabled_case on =
          elim (Option-cases
            (validate_replica_allocation_policy r.total_replicas (allocation_policy config))) [
              | inl v ↦
                  let accepted = validate-Accepts r.total_replicas config h v in
                  let (a, ok_a, p) =
                    allocate_sound r.total_replicas (allocation_policy config) accepted in
                  rw ok_a (rw p.conserved (wrap32_id _ h), inr (on, accepted))
              | inr (e, v) ↦
                  rw ((allocate_err_iff r.total_replicas (allocation_policy config) e h).1 v)
                    (fallback_sum, inl refl)
            ]
