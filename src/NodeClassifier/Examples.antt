-- ===== src/NodeClassifier/Examples.antt =====
-- The node classifier at two nodes, one of which the cache does not have.
use spotalis.Common.{
  ◌≡◌, ◌⊎◌, refl, String, Bool, true, false, not, ◌&&◌, if◌then◌else◌, none, some, List, [], ◌∷◌,
  ok, err, str_eq, pos, ◌*◌, ℤ,
}
use spotalis.Common.Text.{codes}
use spotalis.Common.Time.{minute}
use spotalis.Kube.{ApiError}
use spotalis.Apis.NodeType.{NodeTypes}
use spotalis.NodeClassifier.{Node, ClassifierConfig}
use spotalis.NodeClassifier.Service.{NodeClient, NodeClassifierService, empty_cache}
use spotalis.NodeClassifier.ByName.{classify_nodes_by_name}
use spotalis.NodeClassifier.Coherence.{IsCoherent, empty_cache-IsCoherent, classify-IsCoherent}

abbrev node_of : String → String → Node
node_of name capacity = record {
  name = name;
  labels = λ k. if str_eq k "karpenter.sh/capacity-type" then some (codes capacity) else none;
  provider_id = [];
  conditions = [];
}

abbrev client : NodeClient
client = record {
  refreshed_at = 10 * minute;
  list = ok (node_of "node-1" "spot" ∷ []);
  get_node =
      λ k. if str_eq k "node-2" then ok (node_of "node-2" "on-demand") else err ApiError.not_found;
}

abbrev karpenter : ClassifierConfig
karpenter = record {
  spot_labels = ("karpenter.sh/capacity-type", codes "spot") ∷ ("spot", codes "*") ∷ [];
  on_demand_labels = ("karpenter.sh/capacity-type", codes "on-demand") ∷ [];
  cache_refresh_interval = pos (5 * minute);
  cloud_provider = "aws";
}

abbrev empty_service : NodeClassifierService
empty_service = record { config = karpenter; cache = empty_cache 0 }

abbrev asked : List String
asked = "node-1" ∷ "" ∷ "node-2" ∷ "node-3" ∷ []

abbrev after_lookup : NodeClassifierService × NodeTypes
unfolding classify_nodes_by_name
after_lookup = elim (classify_nodes_by_name (10 * minute) client asked empty_service) [
  | ok r ↦ r
  | err e ↦ (empty_service, λ k. none)
]

succeeded :
    classify_nodes_by_name (10 * minute) client asked empty_service
    ≡ ok (after_lookup.0, after_lookup.1)
unfolding classify_nodes_by_name spotalis.Common.Time.sub_time
succeeded = refl

classify-IsCoherent_example : IsCoherent after_lookup.0.cache
classify-IsCoherent_example =
    classify-IsCoherent (10 * minute) client asked empty_service after_lookup.0 after_lookup.1
      (empty_cache-IsCoherent 0) succeeded

-- The same labels in another order.
abbrev reordered : ClassifierConfig
reordered = record karpenter {
  spot_labels = ("spot", codes "*") ∷ ("karpenter.sh/capacity-type", codes "spot") ∷ [];
}
