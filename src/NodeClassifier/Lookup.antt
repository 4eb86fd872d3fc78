-- ===== src/NodeClassifier/Lookup.antt =====
-- What ClassifyNodesByName of internal/config/node_classifier.go answers.
use spotalis.Common.{
  String, ◌≡◌, ◌⊎◌, refl, Bool, true, false, not, ◌&&◌, if◌then◌else◌, Option, none, some, List, [],
  ◌∷◌, Result, ok, err, >>=-eq-ok, str_eq, eq_iff, Bool-cases, Result-cases, Option-cases, inl, inr,
  arith, ap, sym, ◌∙◌,
}
use spotalis.Common.Assoc.{Assoc, get}
use spotalis.Common.Time.{Time}
use spotalis.Kube.{ApiError}
use spotalis.Apis.NodeType.{NodeType, NodeTypes}
use spotalis.NodeClassifier.{Node, ClassifierConfig, classify_node, or_unknown_type}
use spotalis.NodeClassifier.Service.{
  NodeCache, NodeClassifierService, NodeClient, store_node_classification, refresh_cache,
}
use spotalis.NodeClassifier.ByName.{
  is_named, unique_names, with_type, from_cache, fetch_missing, fill_unknown, look_up,
  classify_unique, classify_nodes_by_name,
}

-- The type of a node that is asked of the API server.
abbrev pub fetched_type : ClassifierConfig → Result ApiError Node → NodeType
fetched_type config (err e) = NodeType.unknown
fetched_type config (ok node) = classify_node config node

abbrev is_none : Option NodeType → Bool
is_none none = true
is_none (some t) = false

-- The type that is cached, or else that of the node that the API server has.
abbrev pub type_of : NodeClient → NodeClassifierService → String → NodeType
type_of client s k = elim (get k s.cache.node_types) [
  | some t ↦ t
  | none ↦ fetched_type s.config (client.get_node k)
]

-- A value that is set for one name, before or after it is known for a list of names.
merge :
    {A : Type 0} (b m : Bool) (a t x : A)
    → (b ≡ true → t ≡ a)
    → (if m then a else (if b then t else x)) ≡ (if (if b then true else m) then a else x)
merge true true a t x h = refl
merge true false a t x h = h refl
merge false true a t x h = refl
merge false false a t x h = refl

module _ (types : Assoc NodeType) where
  -- Both parts of what the cache has.
  from_cache_lem :
      (names : List String) (k : String)
      → ((from_cache types names).0 k ≡ (if is_named k names then get k types else none))
        × (is_named k (from_cache types names).1 ≡ is_named k names && is_none (get k types))
  unfolding from_cache is_named
  from_cache_lem [] k = (refl, refl)
  from_cache_lem (n ∷ ns) k =
      let (types_of, missing) = from_cache_lem ns k in
      elim (Bool-cases (str_eq k n)) [
        | inl same ↦
            let at_n : get k types ≡ get n types = ap (λ x. get x types) ((eq_iff k n).0 same) in
            elim (Option-cases (get n types)) [
              | inl e ↦
                  let gone : get k types ≡ none = at_n ∙ e in
                  (rw (from_cache, e) (ground arith), rw (from_cache, e) (ground arith))
              | inr (t, e) ↦
                  let there : get k types ≡ some t = at_n ∙ e in
                  (rw (from_cache, e) (ground arith), rw (from_cache, e) (ground arith))
            ]
        | inr other ↦ elim (Option-cases (get n types)) [
          | inl e ↦ (rw (from_cache, e) (ground arith), rw (from_cache, e) (ground arith))
          | inr (t, e) ↦ (rw (from_cache, e) (ground arith), rw (from_cache, e) (ground arith))
        ]
      ]

fetch_missing-types :
    (client : NodeClient) (config : ClassifierConfig) (names : List String) (c : NodeCache)
    (types : NodeTypes) (k : String)
    → (fetch_missing client config names c types).1 k
      ≡ (if is_named k names then some (fetched_type config (client.get_node k)) else types k)
unfolding fetch_missing is_named
fetch_missing-types client config [] c types k = refl
fetch_missing-types client config (n ∷ ns) c types k = elim (Result-cases (client.get_node n)) [
  | inr (e, q) ↦
      let types' = with_type n NodeType.unknown types in
      let step : fetch_missing client config (n ∷ ns) c types
          ≡ fetch_missing client config ns c types' =
        rw (fetch_missing, q) refl in
      ap (λ x. x.1 k) step
      ∙ fetch_missing-types client config ns c types' k
      ∙ merge (str_eq k n) (is_named k ns) (known k) (some NodeType.unknown) (types k)
          (λ same. sym (ap known ((eq_iff k n).0 same) ∙ ap (λ r. some (fetched_type config r)) q))
  | inl (node, q) ↦
      let t = classify_node config node in
      let c' = store_node_classification node t c in
      let types' = with_type n t types in
      let step : fetch_missing client config (n ∷ ns) c types
          ≡ fetch_missing client config ns c' types' =
        rw (fetch_missing, q) refl in
      ap (λ x. x.1 k) step
      ∙ fetch_missing-types client config ns c' types' k
      ∙ merge (str_eq k n) (is_named k ns) (known k) (some t) (types k)
          (λ same. sym (ap known ((eq_iff k n).0 same) ∙ ap (λ r. some (fetched_type config r)) q))
]
  where
    known : String → Option NodeType
    known x = some (fetched_type config (client.get_node x))

fill_unknown-types :
    (names : List String) (types : NodeTypes) (k : String)
    → fill_unknown names types k
      ≡ (if is_named k names then some (or_unknown_type (types k)) else types k)
unfolding fill_unknown is_named
fill_unknown-types [] types k = refl
fill_unknown-types (n ∷ ns) types k =
    let ih = fill_unknown-types ns (with_type n (or_unknown_type (types n)) types) k in
    elim (Bool-cases (str_eq k n)) [
      | inl same ↦ let at_n : types k ≡ types n = ap types ((eq_iff k n).0 same) in ground arith
      | inr other ↦ ground arith
    ]

unique_names-named :
    (names : List String) (k : String)
    → is_named k (unique_names names) ≡ is_named k names && not (str_eq k "")
unfolding unique_names is_named
unique_names-named [] k = refl
unique_names-named (n ∷ ns) k =
    let at_k = unique_names-named ns k in
    elim (Bool-cases (str_eq k n)) [
      | inl same ↦
          let e = (eq_iff k n).0 same in
          let named : is_named k (unique_names ns) ≡ is_named n (unique_names ns) =
            ap (λ x. is_named x (unique_names ns)) e in
          let unnamed : str_eq k "" ≡ str_eq n "" = ap (λ x. str_eq x "") e in ground arith
      | inr other ↦ ground arith
    ]

look_up_types :
    (client : NodeClient) (names : List String) (s : NodeClassifierService) (k : String)
    → (look_up client names s).1 k ≡ (if is_named k names then some (type_of client s k) else none)
unfolding look_up
look_up_types client names s k =
    let (cached, absent) = from_cache_lem s.cache.node_types names k in
    let found = from_cache s.cache.node_types names in
    let fetched = fetch_missing-types client s.config found.1 s.cache found.0 k in
    let filled =
      fill_unknown-types names (fetch_missing client s.config found.1 s.cache found.0).1 k in
    filled ∙ ground arith

-- A lookup of nodes by name that succeeds answers exactly for the names that are asked for and not
-- empty; the type of a node is the one in the refreshed cache, or else that of the node that the API
-- server has, and unknown if it has none.
pub classify_nodes_by_name_lem :
    (now : Time) (client : NodeClient) (names : List String) (s s' : NodeClassifierService)
    (types : NodeTypes)
    → classify_nodes_by_name now client names s ≡ ok (s', types)
    → (k : String)
    → (((is_named k names && not (str_eq k "")) ≡ false) × (types k ≡ none))
      ⊎ (((is_named k names && not (str_eq k "")) ≡ true)
          × ((fresh : NodeClassifierService) × (refresh_cache now client s ≡ ok fresh)
              × (types k ≡ some (type_of client fresh k))))
unfolding classify_nodes_by_name is_named
classify_nodes_by_name_lem now client names s s' types e k =
    go (unique_names names) (unique_names-named names k) e
  where
    go :
        (ns : List String)
        → is_named k ns ≡ is_named k names && not (str_eq k "")
        → classify_unique now client ns s ≡ ok (s', types)
        → (((is_named k names && not (str_eq k "")) ≡ false) × (types k ≡ none))
          ⊎ (((is_named k names && not (str_eq k "")) ≡ true)
              × ((fresh : NodeClassifierService) × (refresh_cache now client s ≡ ok fresh)
                  × (types k ≡ some (type_of client fresh k))))
    go [] named e =
        let nothing : NodeTypes = λ k. none in
        let none_found : nothing ≡ types = cc e in inl (sym named, sym (ap (λ f. f k) none_found))
    go (n ∷ ns) named e =
        let (fresh, q, e') = >>=-eq-ok (refresh_cache now client s) _ e in
        let found : (look_up client (n ∷ ns) fresh).1 ≡ types = cc e' in
        let answer : types k
            ≡ (if is_named k (n ∷ ns) then some (type_of client fresh k) else none) =
          sym (ap (λ f. f k) found) ∙ look_up_types client (n ∷ ns) fresh k in
        elim (Bool-cases (is_named k (n ∷ ns))) [
          | inl asked ↦ inr (sym named ∙ asked, (fresh, q, answer ∙ rw asked refl))
          | inr other ↦ inl (sym named ∙ other, answer ∙ rw other refl)
        ]
