-- ===== src/Config/Loader.antt =====
-- pkg/config/loader.go: the configuration from its default, a file and the environment. os.Getenv,
-- os.ReadFile and yaml.Unmarshal are parameters; Save, which writes a file, is left out.
use spotalis.Common.{
  String, Bool, true, false, ◌||◌, if◌then◌else◌, Option, none, some, ℤ, Result, ok, err, ◌>>=◌,
  str_eq,
}
use Prim.Native.String.{◌++◌}
use spotalis.Common.Text.{Text, codes, eq_text, to_lower}
use spotalis.Common.Strconv.{atoi}
use spotalis.Annotations.DisruptionWindow.{CronLibrary}
use spotalis.Config.{
  SpotalisConfig, OperatorConfig, LeaderElectionConfig, ControllerConfig, WorkloadTimingConfig,
  WebhookConfig, ObservabilityConfig, ConfigError, file_unreadable, file_malformed, is_blank,
  default_config, validate,
}

-- The file system and the YAML library: what a file holds, and the configuration that its content
-- makes of the one given. An error is `none`.
pub record FileLibrary : Type 1 where
  pub Content : Type 0
  pub read_file : String → Option Content
  pub unmarshal : Content → SpotalisConfig → Option SpotalisConfig

pub record Loader : Type 0 where
  pub config_file : String
  pub env_prefix : String

-- NewLoader, WithConfigFile and WithEnvPrefix
unfoldable pub new_loader : Loader
new_loader = record { config_file = ""; env_prefix = "SPOTALIS" }

unfoldable pub with_config_file : String → Loader → Loader
with_config_file path l = record l { config_file = path }

unfoldable pub with_env_prefix : String → Loader → Loader
with_env_prefix prefix l = record l { env_prefix = prefix }

-- parseBool
unfoldable pub parse_bool : Text → Bool → Bool
parse_bool val fallback =
    let low = to_lower val in
    if eq_text low (codes "true")
      || eq_text low (codes "1")
      || eq_text low (codes "yes")
      || eq_text low (codes "on")
    then true
    else if eq_text low (codes "false")
        || eq_text low (codes "0")
        || eq_text low (codes "no")
        || eq_text low (codes "off")
    then false
    else fallback

-- parseInt
unfoldable pub parse_int : Text → ℤ → ℤ
parse_int val fallback = elim (atoi val) [ none ↦ fallback | some i ↦ i ]

module _ (getenv : String → Text) (cron : CronLibrary) (l : Loader) where
  -- getEnv
  unfoldable pub get_env : String → Text
  get_env key = getenv (l.env_prefix ++ "_" ++ key)

  -- `if val := l.getEnv(key); val != "" { ... }`, for a text, a Boolean, an integer and a duration.
  unfoldable pub text_from : String → Text → Text
  unfolding get_env is_blank
  text_from key current = if is_blank (get_env key) then current else get_env key

  unfoldable pub bool_from : String → Bool → Bool
  unfolding get_env is_blank parse_bool
  bool_from key current =
      if is_blank (get_env key) then current else parse_bool (get_env key) current

  unfoldable pub int_from : String → ℤ → ℤ
  unfolding get_env is_blank parse_int
  int_from key current = if is_blank (get_env key) then current else parse_int (get_env key) current

  unfoldable pub duration_from : String → ℤ → ℤ
  unfolding get_env is_blank
  duration_from key current =
      if is_blank (get_env key)
      then current
      else elim (cron.parse_duration (get_env key)) [ none ↦ current | some d ↦ d ]

  -- The parts of loadFromEnv.
  unfoldable pub leader_election_from_env : LeaderElectionConfig → LeaderElectionConfig
  unfolding bool_from text_from duration_from
  leader_election_from_env c = record c {
    enabled = bool_from "LEADER_ELECTION_ENABLED" c.enabled;
    id = text_from "LEADER_ELECTION_ID" c.id;
    lease_duration = duration_from "LEADER_ELECTION_LEASE_DURATION" c.lease_duration;
  }

  unfoldable pub operator_from_env : OperatorConfig → OperatorConfig
  unfolding leader_election_from_env bool_from text_from
  operator_from_env c = record c {
    namespace = text_from "OPERATOR_NAMESPACE" c.namespace;
    read_only_mode = bool_from "OPERATOR_READ_ONLY_MODE" c.read_only_mode;
    leader_election = leader_election_from_env c.leader_election;
  }

  unfoldable pub timing_from_env : WorkloadTimingConfig → WorkloadTimingConfig
  unfolding duration_from
  timing_from_env c = record c {
    cooldown_period = duration_from "CONTROLLERS_WORKLOAD_COOLDOWN_PERIOD" c.cooldown_period;
    disruption_retry_interval =
        duration_from "CONTROLLERS_WORKLOAD_DISRUPTION_RETRY_INTERVAL" c.disruption_retry_interval;
    disruption_window_poll_interval =
        duration_from "CONTROLLERS_WORKLOAD_DISRUPTION_WINDOW_POLL_INTERVAL"
          c.disruption_window_poll_interval;
  }

  unfoldable pub controllers_from_env : ControllerConfig → ControllerConfig
  unfolding int_from duration_from timing_from_env
  controllers_from_env c = record c {
    max_concurrent_reconciles =
        int_from "CONTROLLERS_MAX_CONCURRENT_RECONCILES" c.max_concurrent_reconciles;
    reconcile_interval = duration_from "CONTROLLERS_RECONCILE_INTERVAL" c.reconcile_interval;
    workload_timing = timing_from_env c.workload_timing;
  }

  unfoldable pub webhook_from_env : WebhookConfig → WebhookConfig
  unfolding bool_from int_from text_from
  webhook_from_env c = record {
    enabled = bool_from "WEBHOOK_ENABLED" c.enabled;
    port = int_from "WEBHOOK_PORT" c.port;
    cert_dir = text_from "WEBHOOK_CERT_DIR" c.cert_dir;
  }

  unfoldable pub observability_from_env : ObservabilityConfig → ObservabilityConfig
  unfolding bool_from text_from
  observability_from_env c = record {
    metrics = record {
      enabled = bool_from "METRICS_ENABLED" c.metrics.enabled;
      bind_address = text_from "METRICS_BIND_ADDRESS" c.metrics.bind_address;
    };
    logging = record {
      level = text_from "LOGGING_LEVEL" c.logging.level;
      format = text_from "LOGGING_FORMAT" c.logging.format;
    };
    health = record {
      enabled = bool_from "HEALTH_ENABLED" c.health.enabled;
      bind_address = text_from "HEALTH_BIND_ADDRESS" c.health.bind_address;
    };
  }

  -- loadFromEnv
  unfoldable pub load_from_env : SpotalisConfig → SpotalisConfig
  unfolding operator_from_env controllers_from_env webhook_from_env observability_from_env
  load_from_env c = record {
    operator = operator_from_env c.operator;
    controllers = controllers_from_env c.controllers;
    webhook = webhook_from_env c.webhook;
    observability = observability_from_env c.observability;
  }

  module _ (files : FileLibrary) where
    -- loadFromFile
    unfoldable pub load_from_file : SpotalisConfig → Result ConfigError SpotalisConfig
    load_from_file c = elim (files.read_file l.config_file) [
      | none ↦ err file_unreadable
      | some content ↦ elim (files.unmarshal content c) [
        | none ↦ err file_malformed
        | some loaded ↦ ok loaded
      ]
    ]

    -- `if err := config.Validate(); err != nil`
    unfoldable pub validated : SpotalisConfig → Result ConfigError SpotalisConfig
    unfolding validate
    validated c = elim (validate cron c) [ none ↦ ok c | some error ↦ err error ]

    -- Load
    unfoldable pub load : Result ConfigError SpotalisConfig
    unfolding default_config load_from_file load_from_env validated
    load =
        (if str_eq l.config_file "" then ok default_config else load_from_file default_config)
        >>= λ c. validated (load_from_env c)
