-- ===== src/Apis/DisruptionPolicy/Examples.antt =====
-- The theorems on disruption policies at concrete inputs.
use spotalis.Common.{◌+ℤ◌, ◌-ℤ◌, quot, ◌-◌, ◌≡◌, refl, ltb, some, pos, arith}
use spotalis.Common.Words.{wrap32}
use spotalis.Apis.DisruptionPolicy.{
  DisruptionPolicy, ObjectReference, Budget, int_val, str_val, new_disruption_policy,
  record_disruption, calculate_can_disrupt, get_max_allowed_disruptions, budget_ref,
}
use spotalis.Apis.DisruptionPolicy.Verdict.{Sized}
use spotalis.Apis.DisruptionPolicy.Count.{record_many, record_many-count}

abbrev workload : ObjectReference
workload = record { api_version = "apps/v1"; kind = "Deployment"; name = "web"; namespace = "shop" }

-- Of ten pods, six stay available, and "30%" may be missing, which the code takes for five.
abbrev budget : Budget
budget = record {
  name = "web";
  namespace = "shop";
  min_available = some (int_val (pos 6));
  max_unavailable = some (str_val "30%");
}

abbrev policy : DisruptionPolicy
policy = new_disruption_policy 5 workload (some budget) (pos 10)

abbrev disrupted_once : DisruptionPolicy
disrupted_once = record_disruption (pos 1) 6 policy

disrupted_once-Sized : Sized 7 disrupted_once
unfolding new_disruption_policy record_disruption wrap32 ◌+ℤ◌ quot
disrupted_once-Sized = record {
  total = 10;
  disrupted = 1;
  total_is = refl;
  disrupted_is = refl;
  small = omega arith;
  disrupted_le = omega arith;
  budget = budget_ref budget;
  has_budget = refl;
  min_bound = (6, refl, omega arith);
  max_bound = (5, refl, omega arith);
  within = refl;
}

record_many-count_example :
    (get_max_allowed_disruptions (record_many 2 7 disrupted_once) ≡ pos (3 - 2))
    × (calculate_can_disrupt 7 (record_many 2 7 disrupted_once) ≡ ltb 2 3)
unfolding disrupted_once-Sized get_max_allowed_disruptions record_disruption new_disruption_policy
    wrap32 ◌-ℤ◌ ◌+ℤ◌ quot
record_many-count_example =
    record_many-count 2 7 disrupted_once disrupted_once-Sized 3 refl (omega arith) (omega arith)

-- Four pods may go, since six must stay.
policy_allows : get_max_allowed_disruptions policy ≡ pos 4
unfolding get_max_allowed_disruptions new_disruption_policy wrap32 ◌-ℤ◌ ◌+ℤ◌ quot
policy_allows = refl
