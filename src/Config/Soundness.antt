-- ===== src/Config/Soundness.antt =====
-- What the validation of the configuration accepts, and with it what the loader returns.
use spotalis.Common.{
  String, ◌∙◌, subst, ◌≡◌, ◌↔◌, refl, true, false, if◌then◌else◌, Option, none, some, [], ◌∷◌, pos,
  ◌≤ℤ◌, Result, ok, err, >>=-eq-ok, arith, str_eq, Option-cases, inl, inr,
}
use spotalis.Common.Text.{Text}
use spotalis.Kube.{StringMap}
use spotalis.Annotations.DisruptionWindow.{
  CronLibrary, DisruptionWindow, WindowError, must_be_specified_together, parse_disruption_window,
  parse_parts,
}
use spotalis.Config.{
  SpotalisConfig, default_config, DisruptionWindowConfig, ConfigError, window_incomplete,
  invalid_schedule, invalid_duration, is_blank, validate, validate_window, validate_parts,
  validate_workload_timing,
}
use spotalis.Config.Loader.{FileLibrary, Loader, load, load_from_env, load_from_file, validated}

-- The two annotations of a workload that say the same as the operator's window.
unfoldable pub annotations_of : DisruptionWindowConfig → StringMap
annotations_of c key =
    if str_eq key "spotalis.io/disruption-schedule"
    then some c.schedule
    else if str_eq key "spotalis.io/disruption-duration"
    then some c.duration
    else none

-- A namespace, at least one reconcile at a time, a port for an enabled webhook, a window that is
-- absent or parses, and a positive cooldown, retry interval and poll interval. Validate does not look
-- at the reconcile interval and at the duration of the lease.
pub record IsSound (cron : CronLibrary) (c : SpotalisConfig) : Type 0 where
  pub namespace : is_blank c.operator.namespace ≡ false
  pub reconciles : pos 1 ≤ℤ c.controllers.max_concurrent_reconciles
  pub port : c.webhook.enabled ≡ true → pos 1 ≤ℤ c.webhook.port
  pub window : validate_window cron c.operator.disruption_window ≡ none
  pub cooldown : pos 1 ≤ℤ c.controllers.workload_timing.cooldown_period
  pub retry : pos 1 ≤ℤ c.controllers.workload_timing.disruption_retry_interval
  pub poll : pos 1 ≤ℤ c.controllers.workload_timing.disruption_window_poll_interval

module _ (cron : CronLibrary) where
  validate-IsSound : (c : SpotalisConfig) → validate cron c ≡ none → IsSound cron c
  unfolding validate validate_workload_timing
  validate-IsSound c h = record {
    namespace = ground arith;
    reconciles = ground arith;
    port = λ on. ground arith;
    window = ground arith;
    cooldown = ground arith;
    retry = ground arith;
    poll = ground arith;
  }

  sound_accepted : (c : SpotalisConfig) → IsSound cron c → validate cron c ≡ none
  unfolding validate validate_workload_timing
  sound_accepted c h =
      let a = h.namespace in
      let b = h.reconciles in
      let p = h.port in
      let w = h.window in let d = h.cooldown in let e = h.retry in let f = h.poll in ground arith

  -- Validate accepts the sound configurations and no other.
  pub validate_iff : (c : SpotalisConfig) → (validate cron c ≡ none) ↔ IsSound cron c
  validate_iff c = (validate-IsSound c, sound_accepted c)

  -- The error of the annotations in the words of the configuration.
  abbrev pub parsed : Result WindowError (Option (DisruptionWindow cron)) → Option ConfigError
  parsed (err must_be_specified_together) = some window_incomplete
  parsed (err spotalis.Annotations.DisruptionWindow.invalid_schedule) = some invalid_schedule
  parsed (err spotalis.Annotations.DisruptionWindow.invalid_duration) = some invalid_duration
  parsed (ok w) = none

  parsed-parse_parts : (s d : Text) → parsed (parse_parts cron s d) ≡ validate_parts cron s d
  unfolding parse_parts validate_parts
  parsed-parse_parts s d = elim (Option-cases (cron.parse s)) [
    | inl unread ↦ rw (unread, parsed, validate_parts) refl
    | inr (schedule, read) ↦ elim (Option-cases (cron.parse_duration d)) [
      | inl unread ↦ rw (read, unread, parsed, validate_parts) refl
      | inr (duration, read_too) ↦ rw (read, read_too, parsed, validate_parts) refl
    ]
  ]

  texts_agree :
      (s d : Text)
      → parsed
          (parse_disruption_window cron (annotations_of (record { schedule = s; duration = d })))
        ≡ validate_window cron (record { schedule = s; duration = d })
  unfolding parse_disruption_window annotations_of validate_window is_blank
  texts_agree [] [] = refl
  texts_agree [] (c ∷ d) = refl
  texts_agree (c ∷ s) [] = refl
  texts_agree (c ∷ s) (e ∷ d) = parsed-parse_parts (c ∷ s) (e ∷ d)

  -- The validation of a window is the verdict of the annotation parser on the annotations that say the
  -- same, error by error.
  pub parsed-annotations_of :
      (c : DisruptionWindowConfig)
      → parsed (parse_disruption_window cron (annotations_of c)) ≡ validate_window cron c
  parsed-annotations_of c = texts_agree c.schedule c.duration

  accepted_result :
      (r : Result WindowError (Option (DisruptionWindow cron)))
      → parsed r ≡ none
      → (w : Option (DisruptionWindow cron)) × (r ≡ ok w)
  accepted_result (err must_be_specified_together) h = cc
  accepted_result (err spotalis.Annotations.DisruptionWindow.invalid_schedule) h = cc
  accepted_result (err spotalis.Annotations.DisruptionWindow.invalid_duration) h = cc
  accepted_result (ok w) h = (w, refl)

  pub accepted_parses :
      (c : DisruptionWindowConfig)
      → validate_window cron c ≡ none
      → (w : Option (DisruptionWindow cron)) × (parse_disruption_window cron (annotations_of c)
          ≡ ok w)
  accepted_parses c h = accepted_result _ (parsed-annotations_of c ∙ h)

  module _ (getenv : String → Text) (l : Loader) (files : FileLibrary) where
    validated_lem :
        (c d : SpotalisConfig)
        → validated getenv cron l files c ≡ ok d
        → (c ≡ d) × (validate cron c ≡ none)
    unfolding validated
    validated_lem c d h = ground arith

    -- The default or what the file makes of it, then the environment.
    abbrev pub Read : SpotalisConfig → Type 0
    Read d =
        (c : SpotalisConfig) × ((if str_eq l.config_file ""
            then ok default_config
            else load_from_file getenv cron l files default_config)
          ≡ ok c)
        × (load_from_env getenv cron l c ≡ d)

    load_forth : (d : SpotalisConfig) → load getenv cron l files ≡ ok d → Read d × IsSound cron d
    unfolding load
    load_forth d h =
        let (loaded, read, rest) =
          >>=-eq-ok
            (if str_eq l.config_file ""
              then ok default_config
              else load_from_file getenv cron l files default_config)
            (λ c. validated getenv cron l files (load_from_env getenv cron l c)) h in
        let (same, accepted) = validated_lem (load_from_env getenv cron l loaded) d rest in
        (
          (loaded, read, same),
          validate-IsSound d (subst (λ c. validate cron c ≡ none) same accepted),
        )

    load_back : (d : SpotalisConfig) → Read d → IsSound cron d → load getenv cron l files ≡ ok d
    unfolding load validated
    load_back d (c, read, same) sound =
        let accepted : validate cron d ≡ none = sound_accepted d sound in
        rw read (rw same (rw (validated, accepted) refl))

    -- Load returns a configuration exactly when it is what the default, the file and the environment
    -- make in this order, and has a namespace, at least one reconcile at a time, a port if the webhook
    -- is enabled, a window that Validate accepts, and a cooldown, a retry interval and a poll interval
    -- that are positive. The reconcile interval and the duration of the lease may have any value.
    pub load_iff :
        (d : SpotalisConfig) → (load getenv cron l files ≡ ok d) ↔ (Read d × IsSound cron d)
    load_iff d = (load_forth d, λ p. load_back d p.0 p.1)

    pub load-IsSound : (d : SpotalisConfig) → load getenv cron l files ≡ ok d → IsSound cron d
    load-IsSound d h = (load_forth d h).1
