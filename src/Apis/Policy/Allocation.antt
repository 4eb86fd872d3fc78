-- ===== src/Apis/Policy/Allocation.antt =====
-- What AllocateReplicaDistribution of pkg/apis/policy.go promises.
use Prim.Native.Nat.{min}
use spotalis.Common.{
  ◌↔◌, Option-cases, inl, inr, sym, ◌+ℤ◌, ℕ, ◌+◌, ◌-◌, ◌*◌, ◌/◌, ◌^◌, ◌≤◌, ◌<◌, ◌≡◌, refl, none,
  some, arith, ok, err, ℤ, pos, negsuc, pos_part, ◌*ℤ◌, ◌-ℤ◌, quot, ◌≤ℤ◌,
}
use spotalis.Common.Words.{wrap32, wrap64, IsI32, wrap32_id, wrap64_id}
use spotalis.Apis.Policy.{
  ReplicaAllocationPolicy, ReplicaAllocation, PolicyError, validate_replica_allocation_policy,
  min_int32, allocate_replica_distribution,
}

-- The inputs that an allocation accepts, as numbers.
pub record Accepts (total : ℤ) (policy : ReplicaAllocationPolicy) : Type 0 where
  pub total_nonneg : pos 0 ≤ℤ total
  pub total_i32 : IsI32 total
  pub floor_nonneg : pos 0 ≤ℤ policy.min_on_demand
  pub percentage_nonneg : pos 0 ≤ℤ policy.spot_percentage
  pub percentage_le : policy.spot_percentage ≤ℤ pos 100

-- The share of the spot replicas before the floor is applied.
abbrev share : ℕ → ℕ → ℕ
share n p = n * p / 100

module _ (n p : ℕ) (h : n < 2 ^ 31) (k : p ≤ 100) where
  product_bound : n * p ≤ n * 100
  product_bound = grind arith

  -- The 64-bit product does not wrap, and the quotient fits 32 bits.
  product_exact : wrap64 (pos n *ℤ pos p) ≡ pos (n * p)
  unfolding ◌*ℤ◌
  product_exact = ground (arith, wrap64_id (pos n *ℤ pos p), product_bound)

  share-le : share n p ≤ n
  share-le = omega (arith, product_bound)

  sub_exact : (s : ℕ) → s ≤ n → wrap32 (pos n -ℤ pos s) ≡ pos (n - s)
  unfolding ◌-ℤ◌
  sub_exact s q = ground (arith, wrap32_id (pos n -ℤ pos s))

  share_exact : wrap32 (pos (share n p)) ≡ pos (share n p)
  share_exact = wrap32_id _ (omega (arith, share-le))

min_int32_pos : (a b : ℕ) → min_int32 (pos a) (pos b) ≡ pos (min a b)
unfolding min_int32
min_int32_pos a b = ground arith

-- The allocation of n replicas under the floor m and the percentage p.
abbrev expected : ℕ → ℕ → ℕ → ReplicaAllocation
expected n m p =
    let s = min (share n p) (n - min m n) in
    record {
      total_replicas = pos n;
      effective_on_demand_floor = pos (min m n);
      target_on_demand = pos (n - s);
      target_spot = pos s;
    }

abbrev policy_of : ℕ → ℕ → ReplicaAllocationPolicy
policy_of m p = record { min_on_demand = pos m; spot_percentage = pos p }

-- The whole calculation, on inputs in range.
allocate_pos :
    (n m p : ℕ)
    → n < 2 ^ 31
    → p ≤ 100
    → allocate_replica_distribution (pos n) (policy_of m p) ≡ ok (expected n m p)
unfolding allocate_replica_distribution quot
allocate_pos n m p h k = ground (
  arith,
  product_exact n p h k,
  share-le n p h k,
  share_exact n p h k,
  min_int32_pos m n,
  sub_exact n p h k (min m n),
  min_int32_pos (share n p) (n - min m n),
  sub_exact n p h k (min (share n p) (n - min m n)),
)

-- An accepted input is one of natural numbers.
pub record Numbers (total : ℤ) (policy : ReplicaAllocationPolicy) : Type 0 where
  n : ℕ
  m : ℕ
  p : ℕ
  total_lem : total ≡ pos n
  policy_lem : policy ≡ policy_of m p
  n-lt : n < 2 ^ 31
  p-le : p ≤ 100

Accepts-Numbers_parts :
    (t m p : ℤ)
    → Accepts t (record { min_on_demand = m; spot_percentage = p })
    → Numbers t (record { min_on_demand = m; spot_percentage = p })
Accepts-Numbers_parts (negsuc t) m p h = absurd (omega (arith, h.total_nonneg))
Accepts-Numbers_parts (pos n) (negsuc m) p h = absurd (omega (arith, h.floor_nonneg))
Accepts-Numbers_parts (pos n) (pos m) (negsuc p) h = absurd (omega (arith, h.percentage_nonneg))
Accepts-Numbers_parts (pos n) (pos m) (pos p) h = record {
  n = n;
  m = m;
  p = p;
  total_lem = refl;
  policy_lem = refl;
  n-lt = h.total_i32.0;
  p-le = omega (arith, h.percentage_le);
}

Accepts-Numbers :
    {total : ℤ} {policy : ReplicaAllocationPolicy} → Accepts total policy → Numbers total policy
Accepts-Numbers {total} {policy} h =
    Accepts-Numbers_parts total policy.min_on_demand policy.spot_percentage h

module _ {total : ℤ} {policy : ReplicaAllocationPolicy} (k : Numbers total policy) where
  allocate_numbers : allocate_replica_distribution total policy ≡ ok (expected k.n k.m k.p)
  allocate_numbers = rw (k.total_lem, k.policy_lem) (allocate_pos k.n k.m k.p k.n-lt k.p-le)

  result_numbers :
      (a : ReplicaAllocation)
      → allocate_replica_distribution total policy ≡ ok a
      → a ≡ expected k.n k.m k.p
  result_numbers a e = cc allocate_numbers

-- What an allocation says about its targets.
pub record Promises (total : ℤ) (policy : ReplicaAllocationPolicy) (a : ReplicaAllocation)
    : Type 0 where
  pub total_kept : a.total_replicas ≡ total
  pub conserved : a.target_on_demand +ℤ a.target_spot ≡ total
  pub spot_nonneg : pos 0 ≤ℤ a.target_spot
  pub floor_clamped : a.effective_on_demand_floor ≡ min_int32 policy.min_on_demand total
  pub floor_kept : a.effective_on_demand_floor ≤ℤ a.target_on_demand
  pub share_kept : a.target_spot *ℤ pos 100 ≤ℤ total *ℤ policy.spot_percentage

expected-Promises :
    (n m p : ℕ) → p ≤ 100 → n < 2 ^ 31 → Promises (pos n) (policy_of m p) (expected n m p)
unfolding ◌+ℤ◌ ◌*ℤ◌
expected-Promises n m p k h = record {
  total_kept = refl;
  conserved = ground arith;
  spot_nonneg = omega arith;
  floor_clamped = sym (min_int32_pos m n);
  floor_kept = omega arith;
  share_kept = ground arith;
}

-- Every accepted input gets an allocation: its two targets add up to the total, the on-demand
-- target is at least the floor (the minimum, cut off at the total), and the spot target is at
-- least zero and at most the given percentage of the total.
pub allocate_sound :
    (total : ℤ) (policy : ReplicaAllocationPolicy)
    → Accepts total policy
    → (a : ReplicaAllocation) × (allocate_replica_distribution total policy ≡ ok a)
      × Promises total policy a
allocate_sound total policy h =
    let k = Accepts-Numbers h in
    (
      expected k.n k.m k.p,
      allocate_numbers k,
      rw (k.total_lem, k.policy_lem) (expected-Promises k.n k.m k.p k.p-le k.n-lt),
    )

-- The spot target is the greatest number of spot replicas that keeps the percentage and leaves room
-- for the minimum, or for all replicas where they are fewer: the numbers up to the target are
-- exactly those that do.
pub allocate_greatest :
    (total : ℤ) (policy : ReplicaAllocationPolicy) (a : ReplicaAllocation) (s : ℕ)
    → Accepts total policy
    → allocate_replica_distribution total policy ≡ ok a
    → (pos s ≤ℤ a.target_spot) ↔ (
        (s * 100 ≤ pos_part total * pos_part policy.spot_percentage)
        × (s + min (pos_part policy.min_on_demand) (pos_part total) ≤ pos_part total))
allocate_greatest total policy a s h e =
    let k = Accepts-Numbers h in
    rw (k.total_lem, k.policy_lem) (greatest_pos k.n k.m k.p s (result_numbers k a e))
  where
    greatest_pos :
        (n m p : ℕ) (t : ℕ)
        → a ≡ expected n m p
        → (pos t ≤ℤ a.target_spot) ↔ ((t * 100 ≤ n * p) × (t + min m n ≤ n))
    greatest_pos n m p t z =
        rw z (λ le. (omega arith, omega arith), λ q. let (share, room) = q in omega arith)

-- More replicas, of which at most all can be spot replicas.
share_grows : (n d p : ℕ) → p ≤ 100 → (n + d) * p ≤ n * p + d * 100
share_grows n d p h = grind arith

share_mono : (n d p : ℕ) → n * p ≤ (n + d) * p
share_mono n d p = grind arith

targets_mono :
    (n n' m p : ℕ)
    → n ≤ n'
    → p ≤ 100
    → ((expected n m p).target_spot ≤ℤ (expected n' m p).target_spot)
      × ((expected n m p).target_on_demand ≤ℤ (expected n' m p).target_on_demand)
targets_mono n n' m p h k =
    let d = n' - n in
    let e : n' ≡ n + d = omega arith in
    rw e (
      omega (arith, share_grows n d p k, share_mono n d p),
      omega (arith, share_grows n d p k, share_mono n d p),
    )

-- Scaling a workload up under one policy lowers neither target.
pub allocate_monotone :
    (total total' : ℤ) (policy : ReplicaAllocationPolicy) (a a' : ReplicaAllocation)
    → Accepts total policy
    → Accepts total' policy
    → total ≤ℤ total'
    → allocate_replica_distribution total policy ≡ ok a
    → allocate_replica_distribution total' policy ≡ ok a'
    → (a.target_spot ≤ℤ a'.target_spot) × (a.target_on_demand ≤ℤ a'.target_on_demand)
allocate_monotone total total' policy a a' h h' le e e' =
    let k = Accepts-Numbers h in
    let k' = Accepts-Numbers h' in
    let same_m : k'.m ≡ k.m = cc (k.policy_lem, k'.policy_lem) in
    let same_p : k'.p ≡ k.p = cc (k.policy_lem, k'.policy_lem) in
    let r = result_numbers k a e in
    let r' : a' ≡ expected k'.n k.m k.p = rw (← same_m, ← same_p) (result_numbers k' a' e') in
    let q : pos k.n ≤ℤ pos k'.n = rw (k.total_lem, k'.total_lem) at le in
    rw (r, r') (targets_mono k.n k'.n k.m k.p (omega arith) k.p-le)

-- A validated input passes every test of the validation.
pub validate_none :
    (total : ℤ) (policy : ReplicaAllocationPolicy)
    → (validate_replica_allocation_policy total policy ≡ none) ↔ (
        (pos 0 ≤ℤ total)
        × (pos 0 ≤ℤ policy.min_on_demand)
        × (pos 0 ≤ℤ policy.spot_percentage)
        × (policy.spot_percentage ≤ℤ pos 100))
unfolding validate_replica_allocation_policy
validate_none total policy = (ground arith, ground arith)

-- For a 32-bit total, the allocation fails exactly with the errors of the validation: the check of
-- the converted percentage target never fails.
pub allocate_err_iff :
    (total : ℤ) (policy : ReplicaAllocationPolicy) (e : PolicyError)
    → IsI32 total
    → (allocate_replica_distribution total policy ≡ err e)
      ↔ (validate_replica_allocation_policy total policy ≡ some e)
unfolding allocate_replica_distribution
allocate_err_iff total policy e h =
    elim (Option-cases (validate_replica_allocation_policy total policy)) [
      | inl v ↦
          let (a, ok_a, _) = allocate_sound total policy (accepts v) in
          (λ f. cc (ok_a, f), λ f. cc (v, f))
      | inr (x, v) ↦ rw (v, allocate_replica_distribution) (λ f. cc f, λ f. cc f)
    ]
  where
    accepts : validate_replica_allocation_policy total policy ≡ none → Accepts total policy
    accepts v =
        let r = (validate_none total policy).0 v in
        record {
          total_nonneg = r.0;
          total_i32 = h;
          floor_nonneg = r.1;
          percentage_nonneg = r.2;
          percentage_le = r.3;
        }
