-- ===== src/Apis/Configuration/Examples.antt =====
-- A configuration at concrete annotations.
use Prim.{tt}
use spotalis.Common.{◌≡◌, arith, refl, true, if◌then◌else◌, none, some, ok, pos, str_eq}
use spotalis.Common.Text.{codes, trim_suffix}
use spotalis.Common.Strconv.{parse_int}
use spotalis.Kube.{StringMap}
use spotalis.Apis.Policy.{validate_replica_allocation_policy}
use spotalis.Apis.Configuration.{
  WorkloadConfiguration, allocation_policy, parse_from_annotations, to_annotations,
}
use spotalis.Apis.Configuration.RoundTrip.{IsWritable, read_back, parse-to_annotations}

-- Only the percentage is given.
abbrev seventy_percent : StringMap
seventy_percent key = if str_eq key "spotalis.io/spot-percentage" then some (codes "70%") else none

abbrev seventy : WorkloadConfiguration
seventy = record {
  enabled = true;
  min_on_demand = pos 0;
  spot_percentage = pos 70;
  policy = record { min_on_demand = none; spot_percentage = some (pos 70) };
}

parse_seventy : parse_from_annotations (some seventy_percent) true ≡ ok seventy
unfolding parse_from_annotations parse_int trim_suffix validate_replica_allocation_policy
    allocation_policy
parse_seventy = refl

-- Both fields of the policy are omitted, as in a configuration that was not read from annotations.
abbrev legacy : WorkloadConfiguration
legacy = record {
  enabled = true;
  min_on_demand = pos 2;
  spot_percentage = pos 70;
  policy = record { min_on_demand = none; spot_percentage = none };
}

legacy-IsWritable : IsWritable legacy
unfolding validate_replica_allocation_policy allocation_policy
legacy-IsWritable = record {
  is_enabled = refl;
  agree = tt;
  min_i32 = (omega arith, omega arith);
  spot_i32 = (omega arith, omega arith);
  valid = refl;
}

parse-to_annotations_example :
    parse_from_annotations (some (to_annotations legacy)) true ≡ ok (read_back legacy)
parse-to_annotations_example = parse-to_annotations legacy legacy-IsWritable
