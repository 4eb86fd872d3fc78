-- ===== src/Annotations/Parser.antt =====
-- internal/annotations/parser.go: the parser of Spotalis annotations. The methods have no state, so
-- they are functions of the object; a method that writes to the object returns it.
pub mod Validity
pub mod Values
mod Examples
use spotalis.Common.{
  ℕ, String, Bool, true, false, not, ◌&&◌, ◌||◌, if◌then◌else◌, Option, none, some, List, [], ◌∷◌,
  ◌++◌, Result, ok, err, ◌>>=◌, ℤ, pos, neg_part, pos_part, ltb, ltb_ℤ, str_eq,
}
use spotalis.Common.Text.{Text, codes, trim_suffix, to_lower, eq_text}
use spotalis.Common.Words.{wrap32}
use spotalis.Common.Strconv.{atoi}
use spotalis.Kube.{StringMap, ObjectMeta}
use spotalis.Apis.Configuration.{
  WorkloadConfiguration, unset, set_min_on_demand, set_spot_percentage,
}

abbrev pub enabled_label : String
enabled_label = "spotalis.io/enabled"

abbrev pub spot_percentage_annotation : String
spot_percentage_annotation = "spotalis.io/spot-percentage"

abbrev pub min_on_demand_annotation : String
min_on_demand_annotation = "spotalis.io/min-on-demand"

abbrev pub max_min_on_demand : ℕ
max_min_on_demand = 10000

pub data AnnotationError : Type 0 where
  spot_percentage_not_integer : AnnotationError
  spot_percentage_out_of_range : ℤ → AnnotationError
  min_on_demand_not_integer : AnnotationError
  min_on_demand_out_of_range : ℤ → AnnotationError

-- A lookup in a map that may be nil.
abbrev pub find : String → Option StringMap → Option Text
find key none = none
find key (some m) = m key

enabled_exactly : Option Text → Bool
enabled_exactly none = false
enabled_exactly (some v) = eq_text v (codes "true")

read_spot_percentage :
    Option Text → WorkloadConfiguration → Result AnnotationError WorkloadConfiguration
read_spot_percentage none w = ok w
read_spot_percentage (some text) w = elim (atoi (trim_suffix b'%' text)) [
  | none ↦ err spot_percentage_not_integer
  | some v ↦
      if ltb_ℤ v (pos 0) || ltb_ℤ (pos 100) v
      then err (spot_percentage_out_of_range v)
      else ok (set_spot_percentage (wrap32 v) w)
]

read_min_on_demand :
    Option Text → WorkloadConfiguration → Result AnnotationError WorkloadConfiguration
read_min_on_demand none w = ok w
read_min_on_demand (some text) w = elim (atoi text) [
  | none ↦ err min_on_demand_not_integer
  | some v ↦
      if ltb_ℤ v (pos 0) || ltb_ℤ (pos max_min_on_demand) v
      then err (min_on_demand_out_of_range v)
      else ok (set_min_on_demand (wrap32 v) w)
]

read_annotations : Option StringMap → Result AnnotationError WorkloadConfiguration
unfolding read_spot_percentage read_min_on_demand
read_annotations none = ok (unset true)
read_annotations (some a) = do
  w ← read_spot_percentage (a spot_percentage_annotation) (unset true)
  read_min_on_demand (a min_on_demand_annotation) w

unfoldable pub parse_workload_configuration :
    ObjectMeta → Result AnnotationError WorkloadConfiguration
unfolding enabled_exactly read_annotations
parse_workload_configuration obj =
    if enabled_exactly (find enabled_label obj.labels)
    then read_annotations obj.annotations
    else ok (unset false)

is_present : Option Text → Bool
is_present none = false
is_present (some v) = true

unfoldable pub has_spotalis_annotations : ObjectMeta → Bool
unfolding is_present
has_spotalis_annotations obj =
    is_present (find spot_percentage_annotation obj.annotations)
    || is_present (find min_on_demand_annotation obj.annotations)

enabled_folded : Option Text → Bool
enabled_folded none = false
enabled_folded (some v) = eq_text (to_lower v) (codes "true")

unfoldable pub is_spotalis_enabled : ObjectMeta → Bool
unfolding enabled_folded
is_spotalis_enabled obj = enabled_folded (find enabled_label obj.labels)

-- A missing value is the empty text and `false`.
abbrev with_flag : Option Text → Text × Bool
with_flag none = ([], false)
with_flag (some v) = (v, true)

pub get_annotation_value : ObjectMeta → String → Text × Bool
get_annotation_value obj key = with_flag (find key obj.annotations)

-- A nil map is replaced by an empty one.
pub set_annotation_value : String → Text → ObjectMeta → ObjectMeta
set_annotation_value key value obj = record obj {
  annotations = some (λ k. if str_eq k key then some value else find k obj.annotations);
}

pub remove_annotation : String → ObjectMeta → ObjectMeta
remove_annotation key obj = elim obj.annotations [
  | none ↦ obj
  | some m ↦ record obj { annotations = some (λ k. if str_eq k key then none else m k) }
]

validate_spot_percentage : Text → Option AnnotationError
validate_spot_percentage text = elim (atoi (trim_suffix b'%' text)) [
  | none ↦ some spot_percentage_not_integer
  | some v ↦
      if ltb_ℤ v (pos 0) || ltb_ℤ (pos 100) v then some (spot_percentage_out_of_range v) else none
]

validate_min_on_demand : Text → Option AnnotationError
validate_min_on_demand text = elim (atoi text) [
  | none ↦ some min_on_demand_not_integer
  | some v ↦
      if ltb_ℤ v (pos 0) || ltb_ℤ (pos max_min_on_demand) v
      then some (min_on_demand_out_of_range v)
      else none
]

abbrev validated : (Text → Option AnnotationError) → Option Text → List AnnotationError
validated check none = []
validated check (some v) = elim (check v) [ none ↦ [] | some e ↦ e ∷ [] ]

pub validate_annotations : ObjectMeta → List AnnotationError
unfolding validate_spot_percentage validate_min_on_demand
validate_annotations obj =
    validated validate_spot_percentage (find spot_percentage_annotation obj.annotations)
    ++ validated validate_min_on_demand (find min_on_demand_annotation obj.annotations)
