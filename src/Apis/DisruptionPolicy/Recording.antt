-- ===== src/Apis/DisruptionPolicy/Recording.antt =====
-- The calls that change a DisruptionPolicy keep its count and its verdict in step; the reasons that
-- it gives agree with the verdict.
use spotalis.Common.{
  ◌≡◌, ◌≢◌, refl, Bool, true, false, Option, none, some, List, [], ◌∷◌, ℤ, pos, ◌≤ℤ◌, arith,
}
use spotalis.Common.Time.{Time}
use spotalis.Apis.DisruptionPolicy.{
  DisruptionPolicy, ObjectReference, Budget, new_disruption_policy, can_disrupt_pod,
  record_disruption, update_total_replicas, reconsider, calculate_can_disrupt, DisruptionReason,
  allowed, no_pdb, min_available_violated, max_unavailable_reached, outside_window,
  too_many_disrupted, get_disruption_reason,
}

-- A call of a policy, and the time it is made.
pub data Call : Type 0 where
  asks : Time → Call
  records : ℤ → Time → Call
  resizes : ℤ → Time → Call

unfoldable pub make : Call → DisruptionPolicy → DisruptionPolicy
make (asks now) d = (can_disrupt_pod now d).0
make (records delta now) d = record_disruption delta now d
make (resizes total now) d = update_total_replicas total now d

unfoldable pub run : List Call → DisruptionPolicy → DisruptionPolicy
run [] d = d
run (call ∷ calls) d = run calls (make call d)

-- The verdict that is kept is that of the time of the last check, and the count is not negative.
pub record IsCurrent (d : DisruptionPolicy) : Type 0 where
  pub verdict : d.can_disrupt ≡ calculate_can_disrupt d.last_checked d
  pub counted : pos 0 ≤ℤ d.currently_disrupted

make-IsCurrent : (call : Call) (d : DisruptionPolicy) → IsCurrent d → IsCurrent (make call d)
unfolding make can_disrupt_pod record_disruption update_total_replicas reconsider
    calculate_can_disrupt
make-IsCurrent (asks now) d h = record { verdict = refl; counted = h.counted }
make-IsCurrent (records delta now) d h = record { verdict = refl; counted = ground arith }
make-IsCurrent (resizes total now) d h = record { verdict = refl; counted = h.counted }

new-IsCurrent :
    (now : Time) (workload : ObjectReference) (pdb : Option Budget) (total : ℤ)
    → IsCurrent (new_disruption_policy now workload pdb total)
unfolding new_disruption_policy calculate_can_disrupt
new-IsCurrent now workload none total = record { verdict = refl; counted = omega arith }
new-IsCurrent now workload (some budget) total = record { verdict = refl; counted = omega arith }

run_from-IsCurrent :
    (calls : List Call) (d : DisruptionPolicy) → IsCurrent d → IsCurrent (run calls d)
unfolding run
run_from-IsCurrent [] d h = h
run_from-IsCurrent (call ∷ calls) d h =
    run_from-IsCurrent calls (make call d) (make-IsCurrent call d h)

-- Along all calls on a new policy, the verdict that is kept is that of the last check, and the count
-- of the disrupted pods is not negative.
pub run-IsCurrent :
    (calls : List Call) (now : Time) (workload : ObjectReference) (pdb : Option Budget) (total : ℤ)
    → IsCurrent (run calls (new_disruption_policy now workload pdb total))
run-IsCurrent calls now workload pdb total =
    run_from-IsCurrent calls _ (new-IsCurrent now workload pdb total)

-- The reasons that let a disruption happen.
abbrev pub lets_disrupt : DisruptionReason → Bool
lets_disrupt allowed = true
lets_disrupt no_pdb = true
lets_disrupt min_available_violated = false
lets_disrupt max_unavailable_reached = false
lets_disrupt outside_window = false
lets_disrupt too_many_disrupted = false

-- The verdict is that of the reason, and the reason is never that too many pods are disrupted.
pub reason-verdict :
    (now : Time) (d : DisruptionPolicy)
    → (calculate_can_disrupt now d ≡ lets_disrupt (get_disruption_reason now d))
      × (get_disruption_reason now d ≢ too_many_disrupted)
unfolding calculate_can_disrupt get_disruption_reason
reason-verdict now d = ground arith
