-- ===== src/NodeClassifier/Coherence.antt =====
-- The three maps of the cache of internal/config/node_classifier.go agree.
use spotalis.Common.{
  String, ◌≡◌, refl, Bool, true, false, Option, none, some, List, [], ◌∷◌, ok, >>=-eq-ok,
  Bool-cases, Result-cases, inl, inr, arith, sym, subst, ltb_ℤ,
}
use spotalis.Common.Assoc.{get, get-set, get-delete}
use spotalis.Common.Time.{Time, since}
use spotalis.Apis.NodeType.{NodeType, NodeTypes}
use spotalis.NodeClassifier.{Node, ClassifierConfig, classify_node}
use spotalis.NodeClassifier.Service.{
  NodeCache, NodeClassifierService, NodeClient, empty_cache, store_node_classification, store_all,
  refresh_cache,
}
use spotalis.NodeClassifier.ByName.{
  from_cache, fetch_missing, look_up, classify_unique, unique_names, classify_nodes_by_name,
  with_type,
}

abbrev pub is_there : Option Node → Bool
is_there none = false
is_there (some n) = true

abbrev pub is_spot_type : Option NodeType → Bool
is_spot_type (some NodeType.spot) = true
is_spot_type _ = false

abbrev pub is_on_demand_type : Option NodeType → Bool
is_on_demand_type (some NodeType.on_demand) = true
is_on_demand_type _ = false

-- A node is among the spot nodes exactly when its type is spot, and so for on demand.
abbrev pub IsCoherent : NodeCache → Type 0
IsCoherent c =
    (k : String)
    → (is_there (get k c.spot_nodes) ≡ is_spot_type (get k c.node_types))
      × (is_there (get k c.on_demand_nodes) ≡ is_on_demand_type (get k c.node_types))

pub empty_cache-IsCoherent : (t : Time) → IsCoherent (empty_cache t)
unfolding get
empty_cache-IsCoherent t k = (refl, refl)

store-IsCoherent :
    (node : Node) (t : NodeType) (c : NodeCache)
    → IsCoherent c
    → IsCoherent (store_node_classification node t c)
unfolding store_node_classification
store-IsCoherent node NodeType.spot c h k =
    let (a, b) = h k in
    let x = get-set k node.name node c.spot_nodes in
    let y = get-delete k node.name c.on_demand_nodes in
    let z = get-set k node.name NodeType.spot c.node_types in (ground arith, ground arith)
store-IsCoherent node NodeType.on_demand c h k =
    let (a, b) = h k in
    let x = get-delete k node.name c.spot_nodes in
    let y = get-set k node.name node c.on_demand_nodes in
    let z = get-set k node.name NodeType.on_demand c.node_types in (ground arith, ground arith)
store-IsCoherent node NodeType.unknown c h k =
    let (a, b) = h k in
    let x = get-delete k node.name c.spot_nodes in
    let y = get-delete k node.name c.on_demand_nodes in
    let z = get-set k node.name NodeType.unknown c.node_types in (ground arith, ground arith)

store_all-IsCoherent :
    (config : ClassifierConfig) (nodes : List Node) (c : NodeCache)
    → IsCoherent c
    → IsCoherent (store_all config nodes c)
unfolding store_all
store_all-IsCoherent config [] c h = h
store_all-IsCoherent config (n ∷ ns) c h =
    store_all-IsCoherent config ns _ (store-IsCoherent n (classify_node config n) c h)

refresh-IsCoherent :
    (now : Time) (client : NodeClient) (s s' : NodeClassifierService)
    → IsCoherent s.cache
    → refresh_cache now client s ≡ ok s'
    → IsCoherent s'.cache
unfolding refresh_cache
refresh-IsCoherent now client s s' h e =
    elim (Bool-cases (ltb_ℤ (since now s.cache.last_refresh) s.config.cache_refresh_interval)) [
      | inl fresh ↦
          let same : s ≡ s' = cc (rw (refresh_cache, fresh) at e) in
          subst (λ x. IsCoherent x.cache) same h
      | inr stale ↦ elim (Result-cases client.list) [
        | inr (x, q) ↦ cc (rw (refresh_cache, stale, q) at e)
        | inl (nodes, q) ↦
            let same : record s {
              cache = record (store_all s.config nodes (empty_cache s.cache.last_refresh)) {
                last_refresh = client.refreshed_at;
              };
            }
                ≡ s' =
              cc (rw (refresh_cache, stale, q) at e) in
            subst (λ x. IsCoherent x.cache) same
              (store_all-IsCoherent s.config nodes (empty_cache s.cache.last_refresh)
                (empty_cache-IsCoherent s.cache.last_refresh))
      ]
    ]

fetch_missing-IsCoherent :
    (client : NodeClient) (config : ClassifierConfig) (names : List String) (c : NodeCache)
    (types : NodeTypes)
    → IsCoherent c
    → IsCoherent (fetch_missing client config names c types).0
unfolding fetch_missing
fetch_missing-IsCoherent client config [] c types h = h
fetch_missing-IsCoherent client config (n ∷ ns) c types h =
    elim (Result-cases (client.get_node n)) [
      | inr (e, q) ↦
          let types' = with_type n NodeType.unknown types in
          let same : fetch_missing client config (n ∷ ns) c types
              ≡ fetch_missing client config ns c types' =
            rw (fetch_missing, q) refl in
          subst (λ x. IsCoherent x.0) (sym same)
            (fetch_missing-IsCoherent client config ns c types' h)
      | inl (node, q) ↦
          let t = classify_node config node in
          let c' = store_node_classification node t c in
          let types' = with_type n t types in
          let same : fetch_missing client config (n ∷ ns) c types
              ≡ fetch_missing client config ns c' types' =
            rw (fetch_missing, q) refl in
          subst (λ x. IsCoherent x.0) (sym same)
            (fetch_missing-IsCoherent client config ns c' types' (store-IsCoherent node t c h))
    ]

-- A lookup of nodes that succeeds leaves a cache in which a node is among the spot nodes exactly when
-- its type is spot, and among those on demand exactly when its type is on demand, if the cache was
-- like that before.
pub classify-IsCoherent :
    (now : Time) (client : NodeClient) (names : List String) (s s' : NodeClassifierService)
    (types : NodeTypes)
    → IsCoherent s.cache
    → classify_nodes_by_name now client names s ≡ ok (s', types)
    → IsCoherent s'.cache
unfolding classify_nodes_by_name look_up
classify-IsCoherent now client names s s' types h e = go (unique_names names) e
  where
    go : (ns : List String) → classify_unique now client ns s ≡ ok (s', types) → IsCoherent s'.cache
    go [] e = let same : s ≡ s' = cc e in subst (λ x. IsCoherent x.cache) same h
    go (n ∷ ns) e =
        let (fresh, q, e') = >>=-eq-ok (refresh_cache now client s) _ e in
        let found = from_cache fresh.cache.node_types (n ∷ ns) in
        let same : (look_up client (n ∷ ns) fresh).0 ≡ s' = cc e' in
        subst (λ x. IsCoherent x.cache) same
          (fetch_missing-IsCoherent client fresh.config found.1 fresh.cache found.0
            (refresh-IsCoherent now client s fresh h q))
