-- ===== src/Config.antt =====
-- pkg/config/consolidated.go: the configuration of the operator, its default and its validation. The
-- cron library and the parser of durations are those of Annotations.DisruptionWindow.
pub mod Loader
pub mod Soundness
pub mod Environment
pub mod Startup
pub mod Examples
use spotalis.Common.{
  String, Bool, true, false, not, ◌&&◌, ◌||◌, if◌then◌else◌, Option, none, some, List, [], ◌∷◌, ℤ,
  pos, leb_ℤ, ◌*◌,
}
use spotalis.Common.Text.{Text, codes}
use spotalis.Common.Time.{second, minute}
use spotalis.Webhook.Placement.{NodeClassifierConfig}
use spotalis.Annotations.DisruptionWindow.{CronLibrary}

pub record LeaderElectionConfig : Type 0 where
  pub enabled : Bool
  pub id : Text
  pub lease_duration : ℤ

pub record DisruptionWindowConfig : Type 0 where
  pub schedule : Text
  pub duration : Text

pub record OperatorConfig : Type 0 where
  pub namespace : Text
  pub read_only_mode : Bool
  pub leader_election : LeaderElectionConfig
  pub disruption_window : DisruptionWindowConfig

pub record WorkloadTimingConfig : Type 0 where
  pub cooldown_period : ℤ
  pub disruption_retry_interval : ℤ
  pub disruption_window_poll_interval : ℤ

pub record ControllerConfig : Type 0 where
  pub max_concurrent_reconciles : ℤ
  pub reconcile_interval : ℤ
  pub node_classifier : NodeClassifierConfig
  pub workload_timing : WorkloadTimingConfig

pub record WebhookConfig : Type 0 where
  pub enabled : Bool
  pub port : ℤ
  pub cert_dir : Text

pub record MetricsConfig : Type 0 where
  pub enabled : Bool
  pub bind_address : Text

pub record LoggingConfig : Type 0 where
  pub level : Text
  pub format : Text

pub record HealthConfig : Type 0 where
  pub enabled : Bool
  pub bind_address : Text

pub record ObservabilityConfig : Type 0 where
  pub metrics : MetricsConfig
  pub logging : LoggingConfig
  pub health : HealthConfig

pub record SpotalisConfig : Type 0 where
  pub operator : OperatorConfig
  pub controllers : ControllerConfig
  pub webhook : WebhookConfig
  pub observability : ObservabilityConfig

pub data ConfigError : Type 0 where
  window_incomplete invalid_schedule invalid_duration : ConfigError
  cooldown_not_positive retry_not_positive poll_not_positive : ConfigError
  empty_namespace reconciles_not_positive port_not_positive : ConfigError
  file_unreadable file_malformed : ConfigError

-- `s == ""`
unfoldable pub is_blank : Text → Bool
is_blank [] = true
is_blank (c ∷ s) = false

-- DefaultConfig
unfoldable pub default_config : SpotalisConfig
default_config = record {
  operator = record {
    namespace = codes "spotalis-system";
    read_only_mode = false;
    leader_election = record {
      enabled = true;
      id = codes "spotalis-controller-leader";
      lease_duration = pos (15 * second);
    };
    disruption_window = record { schedule = []; duration = [] };
  };
  controllers = record {
    max_concurrent_reconciles = pos 1;
    reconcile_interval = pos (5 * minute);
    node_classifier = record {
      spot_labels = record { match_labels = ("karpenter.sh/capacity-type", "spot") ∷ [] } ∷ [];
      on_demand_labels =
          record { match_labels = ("karpenter.sh/capacity-type", "on-demand") ∷ [] } ∷ [];
    };
    workload_timing = record {
      cooldown_period = pos (10 * second);
      disruption_retry_interval = pos (1 * minute);
      disruption_window_poll_interval = pos (10 * minute);
    };
  };
  webhook = record {
    enabled = true;
    port = pos 9443;
    cert_dir = codes "/tmp/k8s-webhook-server/serving-certs";
  };
  observability = record {
    metrics = record { enabled = true; bind_address = codes ":8080" };
    logging = record { level = codes "info"; format = codes "json" };
    health = record { enabled = true; bind_address = codes ":8081" };
  };
}

-- validateWorkloadTimingConfig; the name is only in the text of the error.
unfoldable pub validate_workload_timing : WorkloadTimingConfig → Option ConfigError
validate_workload_timing c =
    if leb_ℤ c.cooldown_period (pos 0)
    then some cooldown_not_positive
    else if leb_ℤ c.disruption_retry_interval (pos 0)
    then some retry_not_positive
    else if leb_ℤ c.disruption_window_poll_interval (pos 0)
    then some poll_not_positive
    else none

module _ (cron : CronLibrary) where
  -- The two parsers of DisruptionWindowConfig.Validate.
  unfoldable pub validate_parts : Text → Text → Option ConfigError
  validate_parts schedule duration = elim (cron.parse schedule) [
    | none ↦ some invalid_schedule
    | some _ ↦ elim (cron.parse_duration duration) [ none ↦ some invalid_duration | some _ ↦ none ]
  ]

  -- DisruptionWindowConfig.Validate
  unfoldable pub validate_window : DisruptionWindowConfig → Option ConfigError
  unfolding is_blank validate_parts
  validate_window c =
      if is_blank c.schedule && is_blank c.duration
      then none
      else if is_blank c.schedule || is_blank c.duration
      then some window_incomplete
      else validate_parts c.schedule c.duration

  -- SpotalisConfig.Validate
  unfoldable pub validate : SpotalisConfig → Option ConfigError
  unfolding is_blank validate_window validate_workload_timing
  validate c =
      if is_blank c.operator.namespace
      then some empty_namespace
      else if leb_ℤ c.controllers.max_concurrent_reconciles (pos 0)
      then some reconciles_not_positive
      else if c.webhook.enabled && leb_ℤ c.webhook.port (pos 0)
      then some port_not_positive
      else elim (validate_window c.operator.disruption_window) [
        | some error ↦ some error
        | none ↦ validate_workload_timing c.controllers.workload_timing
      ]
