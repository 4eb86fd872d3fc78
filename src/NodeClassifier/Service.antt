-- ===== src/NodeClassifier/Service.antt =====
-- NodeClassifierService of internal/config/node_classifier.go: the cache of the nodes and of their
-- types. The answers of the API server and the readings of the clock are arguments.
use spotalis.Common.{
  ℕ, String, if◌then◌else◌, Option, none, some, List, [], ◌∷◌, Result, ok, err, ◌>>=◌, ℤ, ltb_ℤ,
  str_eq, map, length, count, filter,
}
use spotalis.Common.Assoc.{Assoc, set, delete}
use spotalis.Common.Time.{Time, zero_time, since}
use spotalis.Kube.{ApiError}
use spotalis.Apis.NodeType.{NodeType}
use spotalis.NodeClassifier.{
  Node, ClassifierConfig, get_default_node_classifier_config, classify_node, is_node_ready,
  provider_of,
}

pub record NodeCache : Type 0 where
  pub spot_nodes : Assoc Node
  pub on_demand_nodes : Assoc Node
  pub node_types : Assoc NodeType
  pub last_refresh : Time

pub record NodeClassifierService : Type 0 where
  pub config : ClassifierConfig
  pub cache : NodeCache

abbrev pub empty_cache : Time → NodeCache
empty_cache t = record { spot_nodes = []; on_demand_nodes = []; node_types = []; last_refresh = t }

-- A nil configuration is `none`.
unfoldable pub new_node_classifier_service : Option ClassifierConfig → NodeClassifierService
new_node_classifier_service none = record {
  config = get_default_node_classifier_config;
  cache = empty_cache zero_time;
}
new_node_classifier_service (some c) = record { config = c; cache = empty_cache zero_time }

unfoldable pub store_node_classification : Node → NodeType → NodeCache → NodeCache
store_node_classification node t c = if str_eq node.name "" then c else record c {
  spot_nodes = elim t [
    | NodeType.spot ↦ set node.name node c.spot_nodes
    | _ ↦ delete node.name c.spot_nodes
  ];
  on_demand_nodes = elim t [
    | NodeType.on_demand ↦ set node.name node c.on_demand_nodes
    | _ ↦ delete node.name c.on_demand_nodes
  ];
  node_types = set node.name t c.node_types;
}

unfoldable pub store_all : ClassifierConfig → List Node → NodeCache → NodeCache
unfolding store_node_classification
store_all config [] c = c
store_all config (n ∷ ns) c =
    store_all config ns (store_node_classification n (classify_node config n) c)

-- What the API server answers: the list of all nodes, the time that is read after it, and the node of
-- a name.
pub record NodeClient : Type 0 where
  pub refreshed_at : Time
  pub list : Result ApiError (List Node)
  pub get_node : String → Result ApiError Node

abbrev pub refilled :
    Time
    → NodeClassifierService
    → Result ApiError (List Node)
    → Result ApiError NodeClassifierService
refilled refreshed_at s (err e) = err e
refilled refreshed_at s (ok nodes) = ok (record s {
  cache = record (store_all s.config nodes (empty_cache s.cache.last_refresh)) {
    last_refresh = refreshed_at;
  };
})

-- A cache that is fresh stays.
unfoldable pub refresh_cache :
    Time → NodeClient → NodeClassifierService → Result ApiError NodeClassifierService
unfolding store_all
refresh_cache now client s =
    if ltb_ℤ (since now s.cache.last_refresh) s.config.cache_refresh_interval
    then ok s
    else refilled client.refreshed_at s client.list

-- The nodes of a type, in the order of the map.
unfoldable pub nodes_of_type : NodeType → NodeCache → List Node
nodes_of_type NodeType.spot c = map (λ e. e.1) c.spot_nodes
nodes_of_type NodeType.on_demand c = map (λ e. e.1) c.on_demand_nodes
nodes_of_type NodeType.unknown c = []

unfoldable pub get_nodes_of_type :
    Time
    → NodeClient
    → NodeType
    → NodeClassifierService
    → Result ApiError (NodeClassifierService × List Node)
unfolding refresh_cache nodes_of_type
get_nodes_of_type now client t s = do
  s' ← refresh_cache now client s
  ok (s', nodes_of_type t s'.cache)

unfoldable pub get_node_count :
    Time
    → NodeClient
    → NodeType
    → NodeClassifierService
    → Result ApiError (NodeClassifierService × ℕ)
unfolding get_nodes_of_type
get_node_count now client t s = do
  (s', nodes) ← get_nodes_of_type now client t s
  ok (s', length nodes)

unfoldable pub get_ready_nodes_of_type :
    Time
    → NodeClient
    → NodeType
    → NodeClassifierService
    → Result ApiError (NodeClassifierService × List Node)
unfolding get_nodes_of_type
get_ready_nodes_of_type now client t s = do
  (s', nodes) ← get_nodes_of_type now client t s
  ok (s', filter is_node_ready nodes)

pub record NodeSummary : Type 0 where
  pub total_spot_nodes : ℕ
  pub total_on_demand_nodes : ℕ
  pub ready_spot_nodes : ℕ
  pub ready_on_demand_nodes : ℕ
  pub last_cache_refresh : Time
  pub cache_refresh_interval : ℤ
  pub cloud_provider : String

unfoldable pub summary_of : NodeClassifierService → NodeSummary
summary_of s = record {
  total_spot_nodes = length s.cache.spot_nodes;
  total_on_demand_nodes = length s.cache.on_demand_nodes;
  ready_spot_nodes = count (λ e. is_node_ready e.1) s.cache.spot_nodes;
  ready_on_demand_nodes = count (λ e. is_node_ready e.1) s.cache.on_demand_nodes;
  last_cache_refresh = s.cache.last_refresh;
  cache_refresh_interval = s.config.cache_refresh_interval;
  cloud_provider = s.config.cloud_provider;
}

unfoldable pub get_node_classification_summary :
    Time
    → NodeClient
    → NodeClassifierService
    → Result ApiError (NodeClassifierService × NodeSummary)
unfolding refresh_cache summary_of
get_node_classification_summary now client s = do
  s' ← refresh_cache now client s
  ok (s', summary_of s')

-- The next access refreshes the cache.
unfoldable pub update_config : ClassifierConfig → NodeClassifierService → NodeClassifierService
update_config config s = record {
  config = config;
  cache = record s.cache { last_refresh = zero_time };
}

-- The answer is that of a list of at most one node.
unfoldable pub detect_cloud_provider : Result ApiError (List Node) → Result ApiError String
unfolding provider_of
detect_cloud_provider (err e) = err e
detect_cloud_provider (ok []) = ok "unknown"
detect_cloud_provider (ok (n ∷ ns)) = ok (provider_of n)
