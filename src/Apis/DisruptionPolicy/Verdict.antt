-- ===== src/Apis/DisruptionPolicy/Verdict.antt =====
-- The verdict of a DisruptionPolicy against its count, its reason and its health.
use spotalis.Common.{
  ℕ, ◌+◌, ◌-◌, ◌<◌, ◌≤◌, ◌^◌, ◌≡◌, refl, true, false, if◌then◌else◌, Option, none, some, ℤ, pos,
  ◌+ℤ◌, ◌-ℤ◌, leb_ℤ, arith, ◌∙◌,
}
use Prim.{Unit}
use spotalis.Common.Time.{Time}
use spotalis.Common.Words.{wrap32_id, ◌-i32◌, ◌+i32◌}
use spotalis.Apis.DisruptionPolicy.{
  DisruptionPolicy, IntOrString, resolve_int_or_string, calculate_can_disrupt, record_disruption,
  is_within_disruption_window, ObjectReference, get_available_pods, at_min_available,
  at_max_unavailable, resolved,
}

-- A bound that is set is a number of pods, not negative.
abbrev pub IsBound : Option IntOrString → ℤ → Type 0
IsBound none total = Unit
IsBound (some bound) total = (n : ℕ) × (resolve_int_or_string bound total ≡ pos n) × (n < 2 ^ 31)

-- A policy with a budget, of int32 sizes, of which `disrupted` of `total` pods are disrupted, at a
-- time within its window.
pub record Sized (now : Time) (d : DisruptionPolicy) : Type 0 where
  pub total : ℕ
  pub disrupted : ℕ
  pub total_is : d.total_replicas ≡ pos total
  pub disrupted_is : d.currently_disrupted ≡ pos disrupted
  pub small : total < 2 ^ 31
  pub disrupted_le : disrupted ≤ total
  pub budget : ObjectReference
  pub has_budget : d.pdb_ref ≡ some budget
  pub min_bound : IsBound d.min_available d.total_replicas
  pub max_bound : IsBound d.max_unavailable d.total_replicas
  pub within : is_within_disruption_window now d ≡ true

-- The differences that the code forms do not wrap around.
pub minus32 : (a b : ℕ) → a < 2 ^ 31 → b < 2 ^ 31 → pos a -i32 pos b ≡ pos a -ℤ pos b
unfolding ◌-ℤ◌
minus32 a b h k = wrap32_id (pos a -ℤ pos b) (ground arith)

available : (a b : ℕ) → a < 2 ^ 31 → b ≤ a → pos a -i32 pos b ≡ pos (a - b)
unfolding ◌-ℤ◌
available a b h k = minus32 a b h (omega arith) ∙ (ground arith)

plus32 : (a : ℕ) → a + 1 < 2 ^ 31 → pos a +i32 pos 1 ≡ pos (a + 1)
unfolding ◌+ℤ◌
plus32 a h = wrap32_id (pos a +ℤ pos 1) (ground arith) ∙ (ground arith)

module _ (now : Time) (d : DisruptionPolicy) (s : Sized now d) (left : s.disrupted < s.total) where
  pub can_disrupt_lem : calculate_can_disrupt now d ≡ (
      if resolved d.min_available (pos s.total) (λ n. leb_ℤ (pos (s.total - s.disrupted)) n)
      then false
      else if resolved d.max_unavailable (pos s.total) (λ n. leb_ℤ n (pos s.disrupted))
      then false
      else true)
  unfolding calculate_can_disrupt at_min_available at_max_unavailable get_available_pods
  can_disrupt_lem =
      rw
        (
          s.within,
          s.has_budget,
          s.total_is,
          s.disrupted_is,
          available s.total s.disrupted s.small s.disrupted_le,
        )
        refl

  pub recorded : (record_disruption (pos 1) now d).currently_disrupted ≡ pos (s.disrupted + 1)
  unfolding record_disruption
  recorded = rw (s.disrupted_is, plus32 s.disrupted (omega (arith, s.small))) (ground arith)
