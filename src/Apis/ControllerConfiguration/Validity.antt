-- ===== src/Apis/ControllerConfiguration/Validity.antt =====
-- What Validate accepts and leaves, and the getters that bound what they return.
use spotalis.Common.{
  ◌*◌, ◌≡◌, refl, String, Bool, true, false, if◌then◌else◌, Option, none, some, ℤ, pos, ltb_ℤ,
  leb_ℤ, ◌≤ℤ◌, ◌*ℤ◌, arith, str_eq, Bool-cases, inl, inr, subst, ◌∙◌,
}
use spotalis.Common.Time.{second}
use spotalis.Common.Words.{wrap64, wrap64_id}
use spotalis.Common.Assoc.{Assoc, get, set, get-set}
use spotalis.Apis.ControllerConfiguration.{
  ControllerConfiguration, NodeLabelConfig, validate, validate_leader_election,
  validate_node_labels, with_reconciles, get_effective_resync_period, gate, gates_or_empty,
  get_effective_workers, is_feature_enabled, enable_feature, disable_feature,
}

twice : (w : ℤ) → pos 1 ≤ℤ w → w ≤ℤ pos 50 → pos 1 ≤ℤ wrap64 (w *ℤ pos 2)
unfolding ◌*ℤ◌
twice w low high =
    let exact : wrap64 (w *ℤ pos 2) ≡ w *ℤ pos 2 = wrap64_id (w *ℤ pos 2) (ground arith) in
    rw exact (ground arith)

gate_unset :
    (k : String) (gates : Option (Assoc Bool)) → gate k (some (gates_or_empty gates)) ≡ gate k gates
unfolding gate gates_or_empty get
gate_unset k none = refl
gate_unset k (some gates) = refl

gate-set :
    (k feature : String) (enabled : Bool) (gates : Option (Assoc Bool))
    → gate k (some (set feature enabled (gates_or_empty gates)))
      ≡ (if str_eq k feature then enabled else gate k gates)
unfolding gate
gate-set k feature enabled gates = elim (Bool-cases (str_eq k feature)) [
  | inl same ↦ simp (gate, get-set, same) refl
  | inr other ↦ simp (gate, get-set, other) (gate_unset k gates)
]

-- The default interval, and the verdict on the labels, which it does not change.
labels_filled :
    (n : NodeLabelConfig)
    → (pos 1 ≤ℤ (validate_node_labels n).0.refresh_interval)
      × ((validate_node_labels (validate_node_labels n).0).1 ≡ (validate_node_labels n).1)
unfolding validate_node_labels
labels_filled n = ground arith

interval_kept : (n : NodeLabelConfig) → pos 1 ≤ℤ n.refresh_interval → (validate_node_labels n).0 ≡ n
unfolding validate_node_labels
interval_kept n h = ground arith

-- The tests, as orders.
ltb_false : (a b : ℤ) → ltb_ℤ a b ≡ false → b ≤ℤ a
ltb_false a b h = ground arith

ltb_of_le : (a b : ℤ) → b ≤ℤ a → ltb_ℤ a b ≡ false
ltb_of_le a b h = ground arith

leb_false : (a : ℤ) → leb_ℤ a (pos 0) ≡ false → pos 1 ≤ℤ a
leb_false a h = ground arith

leb_of_le : (a : ℤ) → pos 1 ≤ℤ a → leb_ℤ a (pos 0) ≡ false
leb_of_le a h = ground arith

module _ {Selector : Type 0} where
  -- The bounds that an accepted configuration keeps.
  pub record IsValid (c : ControllerConfiguration Selector) : Type 0 where
    pub resync : pos (5 * second) ≤ℤ c.resync_period
    pub workers_low : pos 1 ≤ℤ c.workers
    pub workers_high : c.workers ≤ℤ pos 50
    pub reconciles : pos 1 ≤ℤ c.max_concurrent_reconciles
    pub refresh : pos 1 ≤ℤ c.node_labels.refresh_interval
    pub election : validate_leader_election c.leader_election ≡ none
    pub labels : (validate_node_labels c.node_labels).1 ≡ none

  -- What an accepting call has passed, and what it leaves.
  accepted :
      (c d : ControllerConfiguration Selector)
      → validate c ≡ (d, none)
      → (ltb_ℤ c.resync_period (pos (5 * second)) ≡ false)
        × (leb_ℤ c.workers (pos 0) ≡ false)
        × (ltb_ℤ (pos 50) c.workers ≡ false)
        × (validate_leader_election (with_reconciles c).leader_election ≡ none)
        × ((validate_node_labels (with_reconciles c).node_labels).1 ≡ none)
        × (record (with_reconciles c) {
          node_labels = (validate_node_labels (with_reconciles c).node_labels).0;
        }
            ≡ d)
  unfolding validate
  accepted c d h = ground arith

  -- The default number of reconciles.
  reconciles_filled :
      (c : ControllerConfiguration Selector)
      → pos 1 ≤ℤ c.workers
      → c.workers ≤ℤ pos 50
      → pos 1 ≤ℤ (with_reconciles c).max_concurrent_reconciles
  unfolding with_reconciles
  reconciles_filled c low high = ground (arith, twice c.workers)

  reconciles_same :
      (c : ControllerConfiguration Selector)
      → ((with_reconciles c).resync_period ≡ c.resync_period)
        × ((with_reconciles c).workers ≡ c.workers)
        × ((with_reconciles c).leader_election ≡ c.leader_election)
        × ((with_reconciles c).node_labels ≡ c.node_labels)
  unfolding with_reconciles
  reconciles_same c = ground arith

  validate-IsValid : (c d : ControllerConfiguration Selector) → validate c ≡ (d, none) → IsValid d
  validate-IsValid c d h =
      let passed = accepted c d h in
      let low : pos 1 ≤ℤ c.workers = leb_false c.workers passed.1 in
      let high : c.workers ≤ℤ pos 50 = ltb_false (pos 50) c.workers passed.2 in
      let same = reconciles_same c in
      let labels = labels_filled (with_reconciles c).node_labels in
      subst IsValid passed.5 (record {
        resync = rw same.0 (ltb_false c.resync_period (pos (5 * second)) passed.0);
        workers_low = rw same.1 low;
        workers_high = rw same.1 high;
        reconciles = reconciles_filled c low high;
        refresh = labels.0;
        election = passed.3;
        labels = labels.1 ∙ passed.4;
      })

  no_default :
      (d : ControllerConfiguration Selector)
      → pos 1 ≤ℤ d.max_concurrent_reconciles
      → with_reconciles d ≡ d
  unfolding with_reconciles
  no_default d h = ground arith

  valid_kept : (d : ControllerConfiguration Selector) → IsValid d → validate d ≡ (d, none)
  unfolding validate
  valid_kept d h =
      let resync : ltb_ℤ d.resync_period (pos (5 * second)) ≡ false =
        ltb_of_le d.resync_period (pos (5 * second)) h.resync in
      let low : leb_ℤ d.workers (pos 0) ≡ false = leb_of_le d.workers h.workers_low in
      let high : ltb_ℤ (pos 50) d.workers ≡ false = ltb_of_le (pos 50) d.workers h.workers_high in
      let kept : (validate_node_labels d.node_labels).0 ≡ d.node_labels =
        interval_kept d.node_labels h.refresh in
      ground (arith, no_default d h.reconciles)

  -- An accepted configuration is valid as Validate leaves it, defaults filled in, and Validate accepts
  -- it again and leaves it as it is.
  pub validate-validate :
      (c d : ControllerConfiguration Selector)
      → validate c ≡ (d, none)
      → IsValid d × (validate d ≡ (d, none))
  validate-validate c d h = let valid = validate-IsValid c d h in (valid, valid_kept d valid)

  -- The getters stay within their bounds on every configuration.
  pub effective_bounds :
      (c : ControllerConfiguration Selector)
      → (pos 1 ≤ℤ get_effective_workers c)
        × (get_effective_workers c ≤ℤ pos 50)
        × (pos (5 * second) ≤ℤ get_effective_resync_period c)
  unfolding get_effective_workers get_effective_resync_period
  effective_bounds c = ground arith

  -- Setting a feature changes that feature and no other.
  pub enabled-set :
      (k feature : String) (c : ControllerConfiguration Selector)
      → (is_feature_enabled k (enable_feature feature c)
          ≡ (if str_eq k feature then true else is_feature_enabled k c))
        × (is_feature_enabled k (disable_feature feature c)
            ≡ (if str_eq k feature then false else is_feature_enabled k c))
  unfolding is_feature_enabled enable_feature disable_feature
  enabled-set k feature c =
      (gate-set k feature true c.feature_gates, gate-set k feature false c.feature_gates)
