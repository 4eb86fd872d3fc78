-- ===== src/Annotations/Parser/Examples.antt =====
-- The parser at concrete objects.
use spotalis.Common.{◌≡◌, ◌↔◌, refl, true, if◌then◌else◌, none, some, [], ok, pos, str_eq, arith}
use spotalis.Common.Text.{Text, codes, trim_suffix}
use spotalis.Common.Strconv.{atoi}
use spotalis.Common.Words.{wrap32}
use spotalis.Kube.{ObjectMeta}
use spotalis.Apis.Policy.{validate_replica_allocation_policy}
use spotalis.Apis.Configuration.{WorkloadConfiguration, allocation_policy}
use spotalis.Annotations.Parser.{
  enabled_label, spot_percentage_annotation, parse_workload_configuration, validate_annotations,
}
use spotalis.Annotations.Parser.Validity.{IsBounded, parse-IsBounded, validate_annotations_iff}

abbrev labelled : Text → ObjectMeta
labelled v = record {
  labels = some (λ k. if str_eq k enabled_label then some v else none);
  annotations =
      some (λ k. if str_eq k spot_percentage_annotation then some (codes "70%") else none);
}

abbrev seventy : WorkloadConfiguration
seventy = record {
  enabled = true;
  min_on_demand = pos 0;
  spot_percentage = pos 70;
  policy = record { min_on_demand = none; spot_percentage = some (pos 70) };
}

parse_seventy : parse_workload_configuration (labelled (codes "true")) ≡ ok seventy
unfolding parse_workload_configuration atoi trim_suffix wrap32
parse_seventy = refl

parse-IsBounded_example :
    IsBounded seventy
    × (validate_replica_allocation_policy (pos 5) (allocation_policy seventy) ≡ none)
parse-IsBounded_example =
    parse-IsBounded (labelled (codes "true")) seventy (pos 5) parse_seventy (omega arith)

validate_annotations_iff_example : (validate_annotations (labelled (codes "true")) ≡ []) ↔ (
    (w : WorkloadConfiguration) × (parse_workload_configuration (labelled (codes "true")) ≡ ok w))
validate_annotations_iff_example = validate_annotations_iff (labelled (codes "true")) refl
