-- ===== src/NodeClassifier/Labels.antt =====
-- What the labels of a node tell in internal/config/node_classifier.go.
use spotalis.Common.{◌≡◌, refl, String, Bool, true, ◌||◌, some, List, ◌∙◌, arith}
use mathlib.Core.Bool.{Bool-set}
use mathlib.Core.List.{Perm, Permᴰ}
use mathlib.Core.Logic.{∥∥₁_elim}
use spotalis.Common.Text.{Text, codes}
use spotalis.Kube.{StringMap}
use spotalis.Apis.NodeType.{NodeType}
use spotalis.NodeClassifier.{
  Node, ClassifierConfig, get_default_node_classifier_config, has_label, has_any_label,
  classify_node,
}

or_swap : (x y z : Bool) → x || (y || z) ≡ y || (x || z)
or_swap x y z = ground arith

has_any_label-Permᴰ :
    (labels : StringMap) {l r : List (String × Text)}
    → Permᴰ l r
    → has_any_label labels l ≡ has_any_label labels r
unfolding has_any_label
has_any_label-Permᴰ labels Permᴰ.nil = refl
has_any_label-Permᴰ labels (Permᴰ.cons e d) =
    let rest = has_any_label-Permᴰ labels d in cc (e, rest)
has_any_label-Permᴰ labels (Permᴰ.swap {a} {b} {a'} {b'} {l} e f) =
    rw (e, f) (or_swap (has_label labels b') (has_label labels a') (has_any_label labels l))
has_any_label-Permᴰ labels (Permᴰ.trans d e) =
    has_any_label-Permᴰ labels d ∙ has_any_label-Permᴰ labels e

has_any_label-Perm :
    (labels : StringMap) {l r : List (String × Text)}
    → Perm l r
    → has_any_label labels l ≡ has_any_label labels r
has_any_label-Perm labels {l} {r} p =
    ∥∥₁_elim p (Bool-set (has_any_label labels l) (has_any_label labels r))
      (λ d. has_any_label-Permᴰ labels d)

-- The type of a node does not depend on the order in which the code comes to the labels of the two
-- maps of its configuration.
pub classify_node_order :
    (config other : ClassifierConfig) (node : Node)
    → Perm config.spot_labels other.spot_labels
    → Perm config.on_demand_labels other.on_demand_labels
    → classify_node config node ≡ classify_node other node
unfolding classify_node
classify_node_order config other node p q =
    rw (has_any_label-Perm node.labels p, has_any_label-Perm node.labels q) refl

-- The value "*" stands for any value.
has_star :
    (labels : StringMap) (key : String) (v : Text)
    → labels key ≡ some v
    → has_label labels (key, codes "*") ≡ true
unfolding has_label
has_star labels key v h = rw (has_label, h) refl

-- By the default configuration every node that has an instance type is a spot node, whatever its
-- other labels say.
pub default_spots_instance_type :
    (node : Node) (v : Text)
    → node.labels "node.kubernetes.io/instance-type" ≡ some v
    → classify_node get_default_node_classifier_config node ≡ NodeType.spot
unfolding classify_node has_any_label get_default_node_classifier_config
default_spots_instance_type node v h =
    let star = has_star node.labels "node.kubernetes.io/instance-type" v h in ground (arith, star)
