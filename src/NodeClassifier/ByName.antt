-- ===== src/NodeClassifier/ByName.antt =====
-- ClassifyNodesByName of internal/config/node_classifier.go: the types of the nodes of some names.
use spotalis.Common.{
  String, Bool, true, false, if◌then◌else◌, none, some, List, [], ◌∷◌, Result, ok, err, ◌>>=◌,
  str_eq,
}
use spotalis.Common.Assoc.{Assoc, get}
use spotalis.Common.Time.{Time}
use spotalis.Kube.{ApiError}
use spotalis.Apis.NodeType.{NodeType, NodeTypes}
use spotalis.NodeClassifier.{ClassifierConfig, classify_node, or_unknown_type}
use spotalis.NodeClassifier.Service.{
  NodeCache, NodeClassifierService, NodeClient, store_node_classification, refresh_cache,
}

-- Is the name in the list?
unfoldable pub is_named : String → List String → Bool
is_named k [] = false
is_named k (n ∷ ns) = let rest = is_named k ns in if str_eq k n then true else rest

-- The names without repetition and without the empty name.
unfoldable pub unique_names : List String → List String
unfolding is_named
unique_names [] = []
unique_names (n ∷ ns) =
    let rest = unique_names ns in
    if str_eq n "" then rest else if is_named n rest then rest else n ∷ rest

abbrev pub with_type : String → NodeType → NodeTypes → NodeTypes
with_type n t types = λ k. if str_eq k n then some t else types k

-- The types that the cache has, and the names that it does not have.
unfoldable pub from_cache : Assoc NodeType → List String → NodeTypes × List String
from_cache types [] = ((λ k. none), [])
from_cache types (n ∷ ns) =
    let rest = from_cache types ns in
    elim (get n types) [ some t ↦ (with_type n t rest.0, rest.1) | none ↦ (rest.0, n ∷ rest.1) ]

-- The nodes that are missing are asked for one after another; one that cannot be had is unknown.
unfoldable pub fetch_missing :
    NodeClient → ClassifierConfig → List String → NodeCache → NodeTypes → NodeCache × NodeTypes
unfolding store_node_classification
fetch_missing client config [] c types = (c, types)
fetch_missing client config (n ∷ ns) c types = elim (client.get_node n) [
  | err e ↦ fetch_missing client config ns c (with_type n NodeType.unknown types)
  | ok node ↦
      let t = classify_node config node in
      fetch_missing client config ns (store_node_classification node t c) (with_type n t types)
]

unfoldable pub fill_unknown : List String → NodeTypes → NodeTypes
fill_unknown [] types = types
fill_unknown (n ∷ ns) types = fill_unknown ns (with_type n (or_unknown_type (types n)) types)

-- The lookup of names in a cache that has been refreshed.
unfoldable pub look_up :
    NodeClient → List String → NodeClassifierService → NodeClassifierService × NodeTypes
unfolding from_cache fetch_missing fill_unknown
look_up client names s =
    let (types, missing) = from_cache s.cache.node_types names in
    let (c, found) = fetch_missing client s.config missing s.cache types in
    (record s { cache = c }, fill_unknown names found)

abbrev pub classify_unique :
    Time
    → NodeClient
    → List String
    → NodeClassifierService
    → Result ApiError (NodeClassifierService × NodeTypes)
classify_unique now client [] s = ok (s, λ k. none)
classify_unique now client (n ∷ ns) s = do
  s' ← refresh_cache now client s
  ok (look_up client (n ∷ ns) s')

unfoldable pub classify_nodes_by_name :
    Time
    → NodeClient
    → List String
    → NodeClassifierService
    → Result ApiError (NodeClassifierService × NodeTypes)
unfolding unique_names refresh_cache look_up
classify_nodes_by_name now client names s = classify_unique now client (unique_names names) s
