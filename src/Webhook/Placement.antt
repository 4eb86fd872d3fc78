-- ===== src/Webhook/Placement.antt =====
-- Node selectors and capacity types in pkg/webhook/mutate.go: which label places a pod, how a pod is
-- patched, and how the capacity type of a pod is read back. The Kubernetes types are records of the
-- fields that this code reads. A map of labels that is searched is a function; the map of which the
-- code takes the first entry is the list of its entries in the order of that iteration.
pub mod ReadBack
mod Examples
use spotalis.Common.{
  ℕ, String, Bool, true, false, ◌&&◌, if◌then◌else◌, Option, none, some, List, [], ◌∷◌, ℤ, pos,
  pos_part, neg_part, ltb, ltb_ℤ, str_eq,
}
use spotalis.Common.Text.{Text, codes}
use spotalis.Webhook.AdmissionState.{CapacityType, spot, on_demand, is_spot}
use spotalis.Webhook.JsonPointer.{json_pointer_escape}

-- metav1.LabelSelector, of which only the match labels are read.
pub record LabelSelector : Type 0 where
  pub match_labels : List (String × String)

pub record NodeClassifierConfig : Type 0 where
  pub spot_labels : List LabelSelector
  pub on_demand_labels : List LabelSelector

pub record LabelConfig : Type 0 where
  pub label_key : String
  pub spot_value : String
  pub on_demand_value : String

-- Karpenter's labels.
abbrev pub default_label_config : LabelConfig
default_label_config = record {
  label_key = "karpenter.sh/capacity-type";
  spot_value = "spot";
  on_demand_value = "on-demand";
}

-- The value of a key in a map given by its entries.
pub find_label : String → List (String × String) → Option String
find_label k [] = none
find_label k ((j, v) ∷ m) = if str_eq j k then some v else find_label k m

-- The key and the value for spot nodes are those of the first entry of the first selector.
take_spot : List LabelSelector → LabelConfig → LabelConfig
take_spot [] c = c
take_spot (s ∷ ss) c = elim s.match_labels [
  | [] ↦ c
  | kv ∷ rest ↦ record c { label_key = kv.0; spot_value = kv.1 }
]

take_on_demand : List LabelSelector → LabelConfig → LabelConfig
take_on_demand [] c = c
take_on_demand (s ∷ ss) c = elim (find_label c.label_key s.match_labels) [
  | none ↦ c
  | some v ↦ record c { on_demand_value = v }
]

-- A nil configuration is `none`.
unfoldable pub get_capacity_type_label_config : Option NodeClassifierConfig → LabelConfig
unfolding take_spot take_on_demand find_label
get_capacity_type_label_config none = default_label_config
get_capacity_type_label_config (some cfg) =
    take_on_demand cfg.on_demand_labels (take_spot cfg.spot_labels default_label_config)

-- corev1.NodeSelectorRequirement
pub record Requirement : Type 0 where
  pub key : String
  pub values : List String

-- corev1.PreferredSchedulingTerm
pub record Preference : Type 0 where
  pub weight : ℤ  -- int32
  pub match_expressions : List Requirement

-- corev1.NodeAffinity: the match expressions of the required terms, and the preferred terms.
pub record NodeAffinity : Type 0 where
  pub required : Option (List (List Requirement))
  pub preferred : Option (List Preference)

abbrev pub NodeSelector : Type 0
NodeSelector = String → Option String

-- What the code reads and changes of a pod's specification; a nil pointer or map is `none`.
pub record PodSpec : Type 0 where
  pub node_selector : Option NodeSelector
  pub node_affinity : Option NodeAffinity

capacity_of_value : LabelConfig → String → CapacityType
capacity_of_value c v = if str_eq v c.spot_value then spot else on_demand

-- The empty string is `none`.
pub get_capacity_type_from_node_selector : LabelConfig → PodSpec → Option CapacityType
unfolding capacity_of_value
get_capacity_type_from_node_selector c pod = elim pod.node_selector [
  | none ↦ none
  | some s ↦ elim (s c.label_key) [ none ↦ none | some v ↦ some (capacity_of_value c v) ]
]

-- The first expression on the label's key that has a value decides.
abbrev decide_expression : LabelConfig → Requirement → Option CapacityType
decide_expression c e =
    if str_eq e.key c.label_key
    then elim e.values [ [] ↦ none | v ∷ vs ↦ some (capacity_of_value c v) ]
    else none

abbrev or_else {ℓ} : {A : Type ℓ} → Option A → Option A → Option A
or_else none d = d
or_else (some a) d = some a

first_expression : LabelConfig → List Requirement → Option CapacityType
first_expression c [] = none
first_expression c (e ∷ es) = or_else (decide_expression c e) (first_expression c es)

first_term : LabelConfig → List (List Requirement) → Option CapacityType
first_term c [] = none
first_term c (t ∷ ts) = or_else (first_expression c t) (first_term c ts)

pub get_capacity_type_from_required_affinity : LabelConfig → NodeAffinity → Option CapacityType
unfolding first_term first_expression capacity_of_value
get_capacity_type_from_required_affinity c a = elim a.required [
  | none ↦ none
  | some terms ↦ first_term c terms
]

-- The loop over the expressions of a term of the weight w: the highest weight and the type so far.
abbrev note_expression :
    LabelConfig → ℤ → Requirement → ℤ × Option CapacityType → ℤ × Option CapacityType
note_expression c w e (highest, found) = elim (decide_expression c e) [
  | none ↦ (highest, found)
  | some t ↦ (w, some t)
]

scan_expressions :
    LabelConfig → ℤ → List Requirement → ℤ × Option CapacityType → ℤ × Option CapacityType
scan_expressions c w [] best = best
scan_expressions c w (e ∷ es) best = scan_expressions c w es (note_expression c w e best)

scan_terms : LabelConfig → List Preference → ℤ × Option CapacityType → ℤ × Option CapacityType
scan_terms c [] best = best
scan_terms c (t ∷ ts) best =
    scan_terms c ts
      (if ltb_ℤ best.0 t.weight then scan_expressions c t.weight t.match_expressions best else best)

pub get_capacity_type_from_preferred_affinity : LabelConfig → NodeAffinity → Option CapacityType
unfolding scan_terms scan_expressions capacity_of_value
get_capacity_type_from_preferred_affinity c a = elim a.preferred [
  | none ↦ none
  | some terms ↦ (scan_terms c terms (pos 0, none)).1
]

pub get_capacity_type_from_node_affinity : LabelConfig → PodSpec → Option CapacityType
get_capacity_type_from_node_affinity c pod = elim pod.node_affinity [
  | none ↦ none
  | some a ↦
      or_else (get_capacity_type_from_required_affinity c a)
        (get_capacity_type_from_preferred_affinity c a)
]

abbrev or_default {ℓ} : {A : Type ℓ} → Option A → A → A
or_default none d = d
or_default (some a) d = a

unfoldable pub get_pod_capacity_type : LabelConfig → PodSpec → CapacityType
unfolding get_capacity_type_from_node_selector get_capacity_type_from_node_affinity
get_pod_capacity_type c pod =
    or_default
      (or_else (get_capacity_type_from_node_selector c pod)
        (get_capacity_type_from_node_affinity c pod))
      on_demand

-- A patch operation of the webhook: a whole node selector with one entry, or one entry behind an
-- escaped path.
pub data PatchOp : Type 0 where
  add_node_selector : String → String → PatchOp
  add_node_selector_entry : Text → String → PatchOp

abbrev label_value : LabelConfig → CapacityType → String
label_value c spot = c.spot_value
label_value c on_demand = c.on_demand_value

-- generateNodeSelectorPatches, for the capacity type that has been determined.
pub node_selector_patches : LabelConfig → PodSpec → CapacityType → List PatchOp
node_selector_patches c pod capacity = elim pod.node_selector [
  | none ↦ add_node_selector c.label_key (label_value c capacity) ∷ []
  | some s ↦
      add_node_selector_entry (json_pointer_escape (codes c.label_key)) (label_value c capacity)
      ∷ []
]
