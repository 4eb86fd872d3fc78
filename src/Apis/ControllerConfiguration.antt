-- ===== src/Apis/ControllerConfiguration.antt =====
-- pkg/apis/controller_config.go: the configuration of the controllers. Validate also writes: the
-- configuration that it leaves is a result, next to the error. The copy of a value is the value, so
-- that Clone has no counterpart. A selector of k8s.io/apimachinery is a parameter.
pub mod Validity
pub mod Examples
use spotalis.Common.{
  String, Bool, true, false, not, ◌&&◌, ◌||◌, if◌then◌else◌, Option, none, some, List, [], ◌∷◌, ℤ,
  pos, ltb_ℤ, leb_ℤ, ◌*◌, ◌*ℤ◌, str_eq,
}
use spotalis.Common.Time.{second, minute}
use spotalis.Common.Words.{wrap64}
use spotalis.Common.Assoc.{Assoc, get, set}

pub record LeaderElectionConfig : Type 0 where
  pub enabled : Bool
  pub lease_duration : ℤ
  pub renew_deadline : ℤ
  pub retry_period : ℤ
  pub namespace : String
  pub name : String

-- The maps of labels are lists of their entries; an empty map and a nil one are not told apart.
pub record NodeLabelConfig : Type 0 where
  pub spot_labels : Assoc String
  pub on_demand_labels : Assoc String
  pub refresh_interval : ℤ

pub data ConfigError : Type 0 where
  resync_too_short workers_not_positive too_many_workers : ConfigError
  lease_not_positive deadline_not_positive retry_not_positive : ConfigError
  deadline_not_before_lease retry_not_before_deadline : ConfigError
  no_lease_namespace no_lease_name no_labels : ConfigError

-- LeaderElectionConfig.Validate
unfoldable pub validate_leader_election : LeaderElectionConfig → Option ConfigError
validate_leader_election l =
    if not l.enabled
    then none
    else if leb_ℤ l.lease_duration (pos 0)
    then some lease_not_positive
    else if leb_ℤ l.renew_deadline (pos 0)
    then some deadline_not_positive
    else if leb_ℤ l.retry_period (pos 0)
    then some retry_not_positive
    else if leb_ℤ l.lease_duration l.renew_deadline
    then some deadline_not_before_lease
    else if leb_ℤ l.renew_deadline l.retry_period
    then some retry_not_before_deadline
    else if str_eq l.namespace ""
    then some no_lease_namespace
    else if str_eq l.name ""
    then some no_lease_name
    else none

-- `len(m) == 0`
is_empty {ℓ} : {A : Type ℓ} → List A → Bool
is_empty [] = true
is_empty (x ∷ xs) = false

-- NodeLabelConfig.Validate
unfoldable pub validate_node_labels : NodeLabelConfig → NodeLabelConfig × Option ConfigError
unfolding is_empty
validate_node_labels n =
    let refreshed =
      if leb_ℤ n.refresh_interval (pos 0)
      then record n { refresh_interval = pos (5 * minute) }
      else n in
    (
      refreshed,
      if is_empty n.spot_labels && is_empty n.on_demand_labels then some no_labels else none,
    )

-- metav1.LabelSelectorAsSelector: `none` for a selector that it refuses, else whether the selector
-- matches the labels of a namespace. `Selector` and `Labels` are its types.
pub record SelectorLibrary : Type 1 where
  pub Selector : Type 0
  pub Labels : Type 0
  pub as_selector : Selector → Option (Labels → Bool)

pub record ControllerConfiguration (Selector : Type 0) : Type 0 where
  pub resync_period : ℤ
  pub workers : ℤ
  pub namespace_selector : Option Selector
  pub leader_election : LeaderElectionConfig
  pub node_labels : NodeLabelConfig
  pub metrics_addr : String
  pub health_addr : String
  pub webhook_port : ℤ
  pub max_concurrent_reconciles : ℤ
  pub dry_run : Bool
  pub feature_gates : Option (Assoc Bool)

pub record ConfigSummary : Type 0 where
  pub resync_period : ℤ
  pub workers : ℤ
  pub max_concurrent_reconciles : ℤ
  pub leader_election_enabled : Bool
  pub dry_run : Bool
  pub has_namespace_selector : Bool
  pub metrics_addr : String
  pub health_addr : String
  pub webhook_port : ℤ

-- `m[feature]`; a nil map has no entry, and a missing entry is false.
unfoldable pub gate : String → Option (Assoc Bool) → Bool
gate feature none = false
gate feature (some gates) = elim (get feature gates) [ none ↦ false | some enabled ↦ enabled ]

-- `if c.FeatureGates == nil { c.FeatureGates = make(map[string]bool) }`
unfoldable pub gates_or_empty : Option (Assoc Bool) → Assoc Bool
gates_or_empty none = []
gates_or_empty (some gates) = gates

module _ {Selector : Type 0} where
  -- DefaultControllerConfiguration
  unfoldable pub default_controller_configuration : ControllerConfiguration Selector
  default_controller_configuration = record {
    resync_period = pos (30 * second);
    workers = pos 5;
    namespace_selector = none;
    leader_election = record {
      enabled = true;
      lease_duration = pos (15 * second);
      renew_deadline = pos (10 * second);
      retry_period = pos (2 * second);
      namespace = "kube-system";
      name = "spotalis-leader-election";
    };
    node_labels = record {
      spot_labels = ("karpenter.sh/capacity-type", "spot") ∷ [];
      on_demand_labels = ("karpenter.sh/capacity-type", "on-demand") ∷ [];
      refresh_interval = pos (5 * minute);
    };
    metrics_addr = ":8080";
    health_addr = ":8081";
    webhook_port = pos 9443;
    max_concurrent_reconciles = pos 10;
    dry_run = false;
    feature_gates = some [];
  }

  -- The default of MaxConcurrentReconciles, twice the number of workers.
  unfoldable pub with_reconciles :
      ControllerConfiguration Selector → ControllerConfiguration Selector
  with_reconciles c =
      if leb_ℤ c.max_concurrent_reconciles (pos 0)
      then record c { max_concurrent_reconciles = wrap64 (c.workers *ℤ pos 2) }
      else c

  -- ControllerConfiguration.Validate
  unfoldable pub validate :
      ControllerConfiguration Selector → ControllerConfiguration Selector × Option ConfigError
  unfolding with_reconciles validate_leader_election validate_node_labels
  validate c =
      if ltb_ℤ c.resync_period (pos (5 * second))
      then (c, some resync_too_short)
      else if leb_ℤ c.workers (pos 0)
      then (c, some workers_not_positive)
      else if ltb_ℤ (pos 50) c.workers
      then (c, some too_many_workers)
      else let filled = with_reconciles c in
        elim (validate_leader_election filled.leader_election) [
          | some error ↦ (filled, some error)
          | none ↦
              let labels = validate_node_labels filled.node_labels in
              (record filled { node_labels = labels.0 }, labels.1)
        ]

  -- IsFeatureEnabled
  unfoldable pub is_feature_enabled : String → ControllerConfiguration Selector → Bool
  unfolding gate
  is_feature_enabled feature c = gate feature c.feature_gates

  set_feature : Bool → String → ControllerConfiguration Selector → ControllerConfiguration Selector
  unfolding gates_or_empty
  set_feature enabled feature c = record c {
    feature_gates = some (set feature enabled (gates_or_empty c.feature_gates));
  }

  -- EnableFeature and DisableFeature
  unfoldable pub enable_feature :
      String → ControllerConfiguration Selector → ControllerConfiguration Selector
  unfolding set_feature
  enable_feature feature c = set_feature true feature c

  unfoldable pub disable_feature :
      String → ControllerConfiguration Selector → ControllerConfiguration Selector
  unfolding set_feature
  disable_feature feature c = set_feature false feature c

  -- GetEffectiveResyncPeriod
  unfoldable pub get_effective_resync_period : ControllerConfiguration Selector → ℤ
  get_effective_resync_period c =
      if ltb_ℤ c.resync_period (pos (5 * second)) then pos (5 * second) else c.resync_period

  -- GetEffectiveWorkers
  unfoldable pub get_effective_workers : ControllerConfiguration Selector → ℤ
  get_effective_workers c =
      if leb_ℤ c.workers (pos 0)
      then pos 5
      else if ltb_ℤ (pos 50) c.workers
      then pos 50
      else c.workers

  -- GetConfigSummary
  unfoldable pub get_config_summary : ControllerConfiguration Selector → ConfigSummary
  get_config_summary c = record {
    resync_period = c.resync_period;
    workers = c.workers;
    max_concurrent_reconciles = c.max_concurrent_reconciles;
    leader_election_enabled = c.leader_election.enabled;
    dry_run = c.dry_run;
    has_namespace_selector = elim c.namespace_selector [ none ↦ false | some _ ↦ true ];
    metrics_addr = c.metrics_addr;
    health_addr = c.health_addr;
    webhook_port = c.webhook_port;
  }

module _ (library : SelectorLibrary) where
  open library use {Selector, Labels, as_selector}

  -- ShouldMonitorNamespace, on the labels of the namespace.
  unfoldable pub should_monitor_namespace : Labels → ControllerConfiguration Selector → Bool
  should_monitor_namespace labels c = elim c.namespace_selector [
    | none ↦ true
    | some selector ↦ elim (as_selector selector) [ none ↦ false | some matches ↦ matches labels ]
  ]

  -- GetNamespaceSelector; labels.Everything() matches all labels, and `none` is an error.
  unfoldable pub get_namespace_selector : ControllerConfiguration Selector → Option (Labels → Bool)
  get_namespace_selector c = elim c.namespace_selector [
    | none ↦ some (λ labels. true)
    | some selector ↦ as_selector selector
  ]
