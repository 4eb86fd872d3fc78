-- ===== src/NodeClassifier.antt =====
-- internal/config/node_classifier.go: how the labels of a node tell its type, and the service that
-- remembers the types of the nodes. A map of the configuration is the list of its entries in the
-- order of the iteration; the type does not depend on that order.
pub mod Service
pub mod ByName
pub mod Labels
pub mod Coherence
pub mod Lookup
mod Examples
use spotalis.Common.{
  String, Bool, true, false, ◌&&◌, ◌||◌, if◌then◌else◌, Option, none, some, List, [], ◌∷◌, ℤ, pos,
  str_eq, ◌*◌,
}
use spotalis.Common.Text.{Text, codes, eq_text, has_prefix, to_lower}
use spotalis.Common.Time.{minute}
use spotalis.Kube.{StringMap, PodCondition}
use spotalis.Apis.NodeType.{NodeType}

-- corev1.Node
pub record Node : Type 0 where
  pub name : String
  pub labels : StringMap
  pub provider_id : Text
  pub conditions : List PodCondition

pub record ClassifierConfig : Type 0 where
  pub spot_labels : List (String × Text)
  pub on_demand_labels : List (String × Text)
  pub cache_refresh_interval : ℤ
  pub cloud_provider : String

unfoldable pub get_default_node_classifier_config : ClassifierConfig
get_default_node_classifier_config = record {
  spot_labels =
      ("karpenter.sh/capacity-type", codes "spot")
      ∷ ("eks.amazonaws.com/capacityType", codes "SPOT")
      ∷ ("node.kubernetes.io/instance-type", codes "*")
      ∷ ("cloud.google.com/gke-preemptible", codes "true")
      ∷ ("kubernetes.azure.com/scalesetpriority", codes "spot")
      ∷ [];
  on_demand_labels =
      ("karpenter.sh/capacity-type", codes "on-demand")
      ∷ ("eks.amazonaws.com/capacityType", codes "ON_DEMAND")
      ∷ ("kubernetes.azure.com/scalesetpriority", codes "regular")
      ∷ [];
  cache_refresh_interval = pos (5 * minute);
  cloud_provider = "auto";
}

-- Has the node the label, at the value or at any?
unfoldable pub has_label : StringMap → String × Text → Bool
has_label labels (key, expected) = elim (labels key) [
  | none ↦ false
  | some v ↦ eq_text expected (codes "*") || eq_text v expected
]

-- The loop over the labels of a type, which the first that the node has ends.
unfoldable pub has_any_label : StringMap → List (String × Text) → Bool
unfolding has_label
has_any_label labels [] = false
has_any_label labels (l ∷ ls) = has_label labels l || has_any_label labels ls

-- strings.Contains(s, sub)
unfoldable pub contains_text : Text → Text → Bool
contains_text [] sub = has_prefix sub []
contains_text (c ∷ s) sub = has_prefix sub (c ∷ s) || contains_text s sub

-- A label that tells the type by one of two values.
abbrev pub told_by : Text → Text → Option Text → Option NodeType
told_by spot on_demand none = none
told_by spot on_demand (some v) =
    if eq_text v spot
    then some NodeType.spot
    else if eq_text v on_demand
    then some NodeType.on_demand
    else none

abbrev pub or_else_type : Option NodeType → Option NodeType → Option NodeType
or_else_type none next = next
or_else_type (some t) next = some t

abbrev pub or_unknown_type : Option NodeType → NodeType
or_unknown_type none = NodeType.unknown
or_unknown_type (some t) = t

-- The labels of AWS are looked at only on a node that has an instance type.
unfoldable pub aws_type : StringMap → Option NodeType
unfolding contains_text
aws_type labels = elim (labels "node.kubernetes.io/instance-type") [
  | none ↦ none
  | some instance_type ↦
      or_else_type
        (told_by (codes "SPOT") (codes "ON_DEMAND") (labels "eks.amazonaws.com/capacityType"))
        (or_else_type
          (told_by (codes "spot") (codes "on-demand") (labels "karpenter.sh/capacity-type"))
          (if contains_text (to_lower instance_type) (codes "spot")
            then some NodeType.spot
            else none))
]

abbrev pub spot_if_present : Option Text → Option NodeType
spot_if_present none = none
spot_if_present (some v) = some NodeType.spot

unfoldable pub classify_by_cloud_provider : StringMap → NodeType
unfolding aws_type
classify_by_cloud_provider labels = or_unknown_type (
    or_else_type (aws_type labels) (
      or_else_type (spot_if_present (labels "cloud.google.com/gke-preemptible")) (
        told_by (codes "spot") (codes "regular") (labels "kubernetes.azure.com/scalesetpriority"))))

unfoldable pub classify_node : ClassifierConfig → Node → NodeType
unfolding has_any_label classify_by_cloud_provider
classify_node config node =
    if has_any_label node.labels config.spot_labels
    then NodeType.spot
    else if has_any_label node.labels config.on_demand_labels
    then NodeType.on_demand
    else classify_by_cloud_provider node.labels

-- The first condition of the type "Ready" decides.
abbrev pub first_ready_condition : List PodCondition → Bool
first_ready_condition [] = false
first_ready_condition (c ∷ cs) = if c.is_ready_type then c.is_true else first_ready_condition cs

unfoldable pub is_node_ready : Node → Bool
is_node_ready node = first_ready_condition node.conditions

abbrev pub is_present : Option Text → Bool
is_present none = false
is_present (some v) = true

-- DetectCloudProvider, of the first node that is listed.
unfoldable pub provider_of : Node → String
unfolding contains_text
provider_of node =
    let id = to_lower node.provider_id in
    if is_present (node.labels "eks.amazonaws.com/capacityType")
      || is_present (node.labels "karpenter.sh/capacity-type")
    then "aws"
    else if is_present (node.labels "cloud.google.com/gke-preemptible")
    then "gcp"
    else if is_present (node.labels "kubernetes.azure.com/scalesetpriority")
    then "azure"
    else if contains_text id (codes "aws")
    then "aws"
    else if contains_text id (codes "gce") || contains_text id (codes "gcp")
    then "gcp"
    else if contains_text id (codes "azure")
    then "azure"
    else "unknown"
