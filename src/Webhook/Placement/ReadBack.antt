-- ===== src/Webhook/Placement/ReadBack.antt =====
-- What a pod shows after the node selector patches of pkg/webhook/mutate.go have been applied.
use spotalis.Common.{
  String, ◌≡◌, refl, false, if◌then◌else◌, Option, none, some, List, [], ◌∷◌, str_eq, eq_refl, ap,
  ◌∙◌,
}
use spotalis.Common.Text.{codes, eq_text, eq_text_refl}
use spotalis.Webhook.AdmissionState.{CapacityType, spot, on_demand}
use spotalis.Webhook.JsonPointer.{json_pointer_unescape, unescape-escape}
use spotalis.Webhook.Placement.{
  LabelConfig, PodSpec, NodeSelector, NodeAffinity, NodeSelector, PatchOp, add_node_selector,
  add_node_selector_entry, label_value, node_selector_patches, get_pod_capacity_type,
  capacity_of_value,
}

-- The value of a key in a node selector that may be missing.
abbrev pub selected : PodSpec → String → Option String
selected pod k = elim pod.node_selector [ none ↦ none | some s ↦ s k ]

-- The documented effect of the operation `add` of a JSON patch: the whole node selector is set, or
-- the entry whose key is the unescaped last step of the path.
pub apply_patch : PatchOp → PodSpec → PodSpec
apply_patch (add_node_selector k v) pod = record pod {
  node_selector = some (λ j. if eq_text (codes j) (codes k) then some v else none);
}
apply_patch (add_node_selector_entry path v) pod = record pod {
  node_selector =
      some (λ j. if eq_text (codes j) (json_pointer_unescape path) then some v else selected pod j);
}

pub apply_patches : List PatchOp → PodSpec → PodSpec
unfolding apply_patch
apply_patches [] pod = pod
apply_patches (p ∷ ps) pod = apply_patches ps (apply_patch p pod)

abbrev pod_of : Option NodeSelector → Option NodeAffinity → PodSpec
pod_of s a = record { node_selector = s; node_affinity = a }

selected_cases :
    (c : LabelConfig) (s : Option NodeSelector) (a : Option NodeAffinity) (capacity : CapacityType)
    → (j : String)
    → selected (apply_patches (node_selector_patches c (pod_of s a) capacity) (pod_of s a)) j ≡ (
        if eq_text (codes j) (codes c.label_key)
        then some (label_value c capacity)
        else selected (pod_of s a) j)
unfolding apply_patches node_selector_patches
selected_cases c none a capacity j = refl
selected_cases c (some s) a capacity j = rw (unescape-escape (codes c.label_key))

-- A node selector that has the label's key decides.
read_selected :
    (c : LabelConfig) (s : Option NodeSelector) (a : Option NodeAffinity) (v : String)
    → selected (pod_of s a) c.label_key ≡ some v
    → get_pod_capacity_type c (pod_of s a) ≡ capacity_of_value c v
unfolding get_pod_capacity_type
read_selected c none a v h = cc
read_selected c (some s) a v h = rw h

capacity_of_label_value :
    (c : LabelConfig) (capacity : CapacityType)
    → str_eq c.on_demand_value c.spot_value ≡ false
    → capacity_of_value c (label_value c capacity) ≡ capacity
unfolding capacity_of_value
capacity_of_label_value c spot h = rw (eq_refl c.spot_value)
capacity_of_label_value c on_demand h = rw h

module _ (c : LabelConfig) (pod : PodSpec) (capacity : CapacityType) where
  -- After the patches the node selector has the label's key at the value of the capacity type, and
  -- every other key as before.
  pub selected-patched :
      (j : String)
      → selected (apply_patches (node_selector_patches c pod capacity) pod) j ≡ (
          if eq_text (codes j) (codes c.label_key)
          then some (label_value c capacity)
          else selected pod j)
  selected-patched j = selected_cases c pod.node_selector pod.node_affinity capacity j

  -- A patched pod is counted as the capacity type that it was patched for, if the two values of the
  -- label differ.
  pub get_pod_capacity_type-patched :
      str_eq c.on_demand_value c.spot_value ≡ false
      → get_pod_capacity_type c (apply_patches (node_selector_patches c pod capacity) pod)
        ≡ capacity
  get_pod_capacity_type-patched h =
      let patched = apply_patches (node_selector_patches c pod capacity) pod in
      read_selected c patched.node_selector patched.node_affinity (label_value c capacity) (
        selected-patched c.label_key
        ∙ ap (λ b. if b then some (label_value c capacity) else selected pod c.label_key)
            (eq_text_refl (codes c.label_key)))
      ∙ capacity_of_label_value c capacity h
