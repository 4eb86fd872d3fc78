-- ===== src/Apis/Configuration.antt =====
-- pkg/apis/configuration.go: the configuration of a workload, and its form as annotations. A map of
-- annotations is a function from the keys to the values, a nil map is `none`.
pub mod RoundTrip
mod Examples
use spotalis.Common.{
  ℕ, ◌^◌, String, Bool, true, false, not, ◌&&◌, ◌||◌, if◌then◌else◌, Option, none, some, List, [],
  ◌∷◌, ◌++◌, Result, ok, err, ◌>>=◌, ℤ, pos, neg_part, pos_part, ltb_ℤ, ◌==ℤ◌, str_eq,
}
use spotalis.Common.Text.{Text, trim_suffix}
use spotalis.Common.Strconv.{parse_int, format_int}
use spotalis.Kube.{StringMap}
use spotalis.Apis.Policy.{
  ReplicaAllocationPolicy, WorkloadPolicy, PolicyError, validate_replica_allocation_policy,
}

pub record WorkloadConfiguration : Type 0 where
  pub enabled : Bool
  pub min_on_demand : ℤ  -- int32
  pub spot_percentage : ℤ  -- int32
  pub policy : WorkloadPolicy

unfoldable pub allocation_policy : WorkloadConfiguration → ReplicaAllocationPolicy
allocation_policy w = record {
  min_on_demand = w.min_on_demand;
  spot_percentage = w.spot_percentage;
}

pub validate : WorkloadConfiguration → ℤ → Option PolicyError
validate w total =
    if not w.enabled then none else validate_replica_allocation_policy total (allocation_policy w)

pub is_spot_optimized : WorkloadConfiguration → Bool
is_spot_optimized w = ltb_ℤ (pos 50) w.spot_percentage

pub is_on_demand_only : WorkloadConfiguration → Bool
is_on_demand_only w = w.spot_percentage ==ℤ pos 0

pub data ConfigurationError : Type 0 where
  invalid_min_on_demand : ConfigurationError
  invalid_spot_percentage : ConfigurationError
  invalid_policy : PolicyError → ConfigurationError

-- `&WorkloadConfiguration{Enabled: enabled}`
abbrev pub unset : Bool → WorkloadConfiguration
unset enabled = record {
  enabled = enabled;
  min_on_demand = pos 0;
  spot_percentage = pos 0;
  policy = record { min_on_demand = none; spot_percentage = none };
}

abbrev pub set_min_on_demand : ℤ → WorkloadConfiguration → WorkloadConfiguration
set_min_on_demand v w = record w {
  min_on_demand = v;
  policy = record w.policy { min_on_demand = some v };
}

abbrev pub set_spot_percentage : ℤ → WorkloadConfiguration → WorkloadConfiguration
set_spot_percentage v w = record w {
  spot_percentage = v;
  policy = record w.policy { spot_percentage = some v };
}

read_min_on_demand :
    Option Text → WorkloadConfiguration → Result ConfigurationError WorkloadConfiguration
read_min_on_demand none w = ok w
read_min_on_demand (some text) w = elim (parse_int (2 ^ 31) text) [
  | none ↦ err invalid_min_on_demand
  | some v ↦ ok (set_min_on_demand v w)
]

read_spot_percentage :
    Option Text → WorkloadConfiguration → Result ConfigurationError WorkloadConfiguration
read_spot_percentage none w = ok w
read_spot_percentage (some text) w = elim (parse_int (2 ^ 31) (trim_suffix b'%' text)) [
  | none ↦ err invalid_spot_percentage
  | some v ↦ ok (set_spot_percentage v w)
]

check_policy : WorkloadConfiguration → Result ConfigurationError WorkloadConfiguration
check_policy w = elim (validate_replica_allocation_policy (pos 0) (allocation_policy w)) [
  | none ↦ ok w
  | some e ↦ err (invalid_policy e)
]

pub parse_from_annotations :
    Option StringMap → Bool → Result ConfigurationError WorkloadConfiguration
unfolding read_min_on_demand read_spot_percentage check_policy
parse_from_annotations annotations false = ok (unset false)
parse_from_annotations none true = ok (unset true)
parse_from_annotations (some a) true = do
  w ← read_min_on_demand (a "spotalis.io/min-on-demand") (unset true)
  w' ← read_spot_percentage (a "spotalis.io/spot-percentage") w
  check_policy w'

abbrev is_given : Option ℤ → Bool
is_given none = false
is_given (some v) = true

-- The map that is built: a key that is not written is missing.
pub to_annotations : WorkloadConfiguration → StringMap
to_annotations w key =
    let omitted =
      not (is_given w.policy.min_on_demand) && not (is_given w.policy.spot_percentage) in
    if not w.enabled
    then none
    else if str_eq key "spotalis.io/min-on-demand" && (is_given w.policy.min_on_demand || omitted)
    then some (format_int w.min_on_demand)
    else if str_eq key "spotalis.io/spot-percentage"
        && (is_given w.policy.spot_percentage || omitted)
    then some (format_int w.spot_percentage ++ b'%' ∷ [])
    else none
