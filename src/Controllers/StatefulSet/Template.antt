-- ===== src/Controllers/StatefulSet/Template.antt =====
-- What a rebalancing writes into the pod template of a StatefulSet, in
-- pkg/controllers/statefulset_controller.go.
use spotalis.Common.{
  ◌≡◌, refl, inl, inr, String, Bool, true, false, ◌||◌, if◌then◌else◌, some, List, [], ◌∷◌, ◌++◌,
  pos, ltb_ℤ, str_eq, eq_refl, arith, Bool-cases, All, subst, sym,
}
use Prim.{tt}
use mathlib.Core.Path.{ap₂, fun_ext}
use spotalis.Common.Text.{Text}
use spotalis.Common.Strconv.{format_int}
use spotalis.Kube.{StringMap}
use spotalis.Apis.ReplicaState.{ReplicaState}
use spotalis.Controllers.Reconciler.{or_empty}
use spotalis.Controllers.StatefulSet.{Toleration, PodTemplate, StatefulSet}

abbrev pub spot_tolerations : List Toleration
spot_tolerations =
    record { key = "spot"; operator = "Exists"; value = ""; effect = "NoSchedule" }
    ∷ record { key = "aws.amazon.com/spot"; operator = "Exists"; value = ""; effect = "NoSchedule" }
    ∷ []

-- The map of the keys that are there.
unfoldable pub existing_keys : List Toleration → String → Bool
existing_keys [] k = false
existing_keys (t ∷ ts) k = str_eq k t.key || existing_keys ts k

-- Adds those whose key is not there yet.
abbrev pub add_missing :
    List Toleration → List Toleration → (String → Bool) → List Toleration × (String → Bool)
add_missing [] ts keys = (ts, keys)
add_missing (t ∷ more) ts keys =
    let added = add_missing more (ts ++ t ∷ []) (λ k. if str_eq k t.key then true else keys k) in
    let kept = add_missing more ts keys in if keys t.key then kept else added

unfoldable pub add_spot_tolerations : List Toleration → List Toleration
unfolding existing_keys
add_spot_tolerations ts = (add_missing spot_tolerations ts (existing_keys ts)).0

abbrev pub set_annotation : String → Text → StringMap → StringMap
set_annotation key v m = λ k. if str_eq k key then some v else m k

unfoldable pub update_pod_template_for_node_placement : ReplicaState → PodTemplate → PodTemplate
unfolding add_spot_tolerations
update_pod_template_for_node_placement s t = record {
  tolerations =
      if ltb_ℤ (pos 0) s.desired_spot then add_spot_tolerations t.tolerations else t.tolerations;
  annotations = some (
      set_annotation "spotalis.io/desired-ondemand-replicas" (format_int s.desired_on_demand) (
        set_annotation "spotalis.io/desired-spot-replicas" (format_int s.desired_spot)
          (or_empty t.annotations)));
}

-- The object that updateStatefulSetForRebalancing sends; the timestamp makes it a rolling update.
unfoldable pub rebalanced_object : ReplicaState → Text → StatefulSet → StatefulSet
unfolding update_pod_template_for_node_placement
rebalanced_object s timestamp sts =
    let t = update_pod_template_for_node_placement s sts.template in
    record sts {
      template = record t {
        annotations =
            some
              (set_annotation "spotalis.io/rebalance-timestamp" timestamp (or_empty t.annotations));
      };
    }

existing_keys-append :
    (ts : List Toleration) (t : Toleration) (k : String)
    → existing_keys (ts ++ t ∷ []) k ≡ (if str_eq k t.key then true else existing_keys ts k)
unfolding existing_keys
existing_keys-append [] t k = ground arith
existing_keys-append (u ∷ ts) t k = ground (arith, existing_keys-append ts t k)

-- Every key that was there stays, and those that were asked for are there.
abbrev Known : List Toleration → (String → Bool) → List Toleration × (String → Bool) → Type 0
Known more keys (ts, _) =
    ((k : String) → keys k ≡ true → existing_keys ts k ≡ true)
    × All (λ t. existing_keys ts t.key ≡ true) more

add_missing-Known :
    (more ts : List Toleration) (keys : String → Bool)
    → ((k : String) → keys k ≡ existing_keys ts k)
    → Known more keys (add_missing more ts keys)
add_missing-Known [] ts keys h = (λ k e. cc (h k, e), tt)
add_missing-Known (t ∷ more) ts keys h = elim (Bool-cases (keys t.key)) [
  | inl there ↦
      let same : add_missing (t ∷ more) ts keys ≡ add_missing more ts keys = rw there refl in
      let (stay, all) = add_missing-Known more ts keys h in
      subst (Known (t ∷ more) keys) (sym same) (stay, (stay t.key there, all))
  | inr missing ↦
      let keys' = λ (k : String). if str_eq k t.key then true else keys k in
      let same : add_missing (t ∷ more) ts keys ≡ add_missing more (ts ++ t ∷ []) keys' =
        rw missing refl in
      let (stay, all) =
        add_missing-Known more (ts ++ t ∷ []) keys' (λ k. rw (existing_keys-append ts t k, h k)) in
      subst (Known (t ∷ more) keys) (sym same)
        (λ k e. stay k (ground (arith, e)), (stay t.key (rw (eq_refl t.key) refl), all))
]

add_missing-none :
    (more ts : List Toleration) (keys : String → Bool)
    → All (λ t. keys t.key ≡ true) more
    → (add_missing more ts keys).0 ≡ ts
add_missing-none [] ts keys h = refl
add_missing-none (t ∷ more) ts keys (there, all) = rw there (add_missing-none more ts keys all)

add_spot_tolerations_idempotent :
    (ts : List Toleration)
    → add_spot_tolerations (add_spot_tolerations ts) ≡ add_spot_tolerations ts
unfolding add_spot_tolerations
add_spot_tolerations_idempotent ts =
    add_missing-none spot_tolerations (add_spot_tolerations ts)
      (existing_keys (add_spot_tolerations ts))
      (add_missing-Known spot_tolerations ts (existing_keys ts) (λ k. refl)).1

set_annotation-set_annotation :
    (j k : String) (v w : Text) (m : StringMap)
    → set_annotation j v (set_annotation k w (set_annotation j v (set_annotation k w m)))
      ≡ set_annotation j v (set_annotation k w m)
set_annotation-set_annotation j k v w m = fun_ext (λ x. ground arith)

-- Writing the same distribution into a template once more changes nothing: no toleration is added
-- twice, and the annotations keep their values.
pub update_pod_template_idempotent :
    (s : ReplicaState) (t : PodTemplate)
    → update_pod_template_for_node_placement s (update_pod_template_for_node_placement s t)
      ≡ update_pod_template_for_node_placement s t
unfolding update_pod_template_for_node_placement
update_pod_template_idempotent s t =
    ap₂ (λ ts a. record { annotations = some a; tolerations = ts }) tolerations_kept
      (set_annotation-set_annotation "spotalis.io/desired-ondemand-replicas"
        "spotalis.io/desired-spot-replicas" (format_int s.desired_on_demand)
        (format_int s.desired_spot) (or_empty t.annotations))
  where
    tolerations_kept :
        (update_pod_template_for_node_placement s
          (update_pod_template_for_node_placement s t)).tolerations
        ≡ (update_pod_template_for_node_placement s t).tolerations
    tolerations_kept = elim (Bool-cases (ltb_ℤ (pos 0) s.desired_spot)) [
      | inl spot ↦ rw spot (add_spot_tolerations_idempotent t.tolerations)
      | inr none_wanted ↦ rw none_wanted refl
    ]
