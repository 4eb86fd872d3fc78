-- ===== src/Controllers/NamespaceFilter/Service.antt =====
-- NamespaceFilter of pkg/controllers/namespace_filter.go: the rules behind a cache. The cache maps
-- names to pointers, so that a write to a result that a call has returned is a write to the cache.
-- A panic is `none`. The answers of the client and the time are arguments.
use mathlib.Core.Option
use spotalis.Common.{
  String, true, false, not, if◌then◌else◌, Option, none, some, List, [], ◌∷◌, map, Result, ok, err,
  ℤ, pos, leb_ℤ, ltb_ℤ, length, str_eq,
}
use spotalis.Common.Time.{Time}
use spotalis.Kube.{ObjectMeta}
use spotalis.Controllers.NamespaceFilter.{
  RegexpLibrary, NamespaceFilterConfig, default_namespace_filter_config, FilterResult, no_reason,
  not_assigned_to_tenant, tenant_access_allowed, no_rule, tenant_namespace_assignment,
}
use spotalis.Controllers.NamespaceFilter.Rules.{contains, perform_filtering}
use spotalis.Controllers.NamespaceFilter.Metrics.{
  NamespaceFilterMetrics, new_namespace_filter_metrics, record_filter_result, record_cache_hit,
}

-- A map from names to results, each key once.
abbrev pub Cache : Type 0
Cache = List (String × FilterResult)

unfoldable pub get_cached_result : String → Cache → Option FilterResult
get_cached_result ns [] = none
get_cached_result ns ((k, r) ∷ cache) = if str_eq k ns then some r else get_cached_result ns cache

-- An entry of the map, old or new.
unfoldable pub put_result : String → FilterResult → Cache → Cache
put_result ns r [] = (ns, r) ∷ []
put_result ns r ((k, old) ∷ cache) =
    if str_eq k ns then (k, r) ∷ cache else (k, old) ∷ put_result ns r cache

-- A full cache is emptied first.
unfoldable pub set_cached_result : ℤ → String → FilterResult → Cache → Cache
unfolding put_result
set_cached_result cache_size ns r cache =
    if leb_ℤ cache_size (pos (length cache)) then (ns, r) ∷ [] else put_result ns r cache

-- `result.Tenant = tenant`, for the result that the key points to.
unfoldable pub write_tenant : String → String → Cache → Cache
write_tenant ns tenant [] = []
write_tenant ns tenant ((k, r) ∷ cache) =
    (k, if str_eq k ns then record r { tenant = tenant } else r) ∷ write_tenant ns tenant cache

module _ (lib : RegexpLibrary) where
  pub record NamespaceFilter : Type 0 where
    pub config : NamespaceFilterConfig
    pub include_regex : List (Option lib.Regexp)
    pub exclude_regex : List (Option lib.Regexp)
    pub cache : Cache
    pub metrics : Option NamespaceFilterMetrics

  -- The client of the filter: nil, or what it answers for a namespace.
  abbrev pub Client : Type 0
  Client = Option (String → Option ObjectMeta)

  unfoldable pub filter_now : Client → Time → String → NamespaceFilter → Option FilterResult
  filter_now client now ns nf =
      perform_filtering lib nf.config nf.include_regex nf.exclude_regex client now ns

  -- The cache is asked only where it is enabled.
  unfoldable pub cached : String → NamespaceFilter → Option FilterResult
  cached ns nf = if nf.config.cache_enabled then get_cached_result ns nf.cache else none

  -- The result is kept and counted.
  unfoldable pub remember : Time → String → FilterResult → NamespaceFilter → NamespaceFilter
  unfolding set_cached_result record_filter_result
  remember now ns r nf = record nf {
    cache =
        if nf.config.cache_enabled
        then set_cached_result nf.config.cache_size ns r nf.cache
        else nf.cache;
    metrics = Option.map (record_filter_result now ns r.allowed r.reason) nf.metrics;
  }

  abbrev pub after_filtering :
      Time
      → String
      → NamespaceFilter
      → Option FilterResult
      → Option (NamespaceFilter × FilterResult)
  after_filtering now ns nf none = none
  after_filtering now ns nf (some r) = some (remember now ns r nf, r)

  unfoldable pub is_namespace_allowed :
      Client → Time → String → NamespaceFilter → Option (NamespaceFilter × FilterResult)
  unfolding cached filter_now remember
  is_namespace_allowed client now ns nf = elim (cached ns nf) [
    | some r ↦ some (record nf { metrics = Option.map record_cache_hit nf.metrics }, r)
    | none ↦ after_filtering now ns nf (filter_now client now ns nf)
  ]

  unfoldable pub check_tenant_access : Time → String → String → NamespaceFilter → FilterResult
  check_tenant_access now ns tenant nf = elim (nf.config.tenant_namespaces tenant) [
    | none ↦ record {
      allowed = true;
      reason = tenant_access_allowed;
      tenant = tenant;
      matched_rule = no_rule;
      timestamp = now;
    }
    | some assigned ↦
        if contains ns assigned
        then record {
          allowed = true;
          reason = no_reason;
          tenant = tenant;
          matched_rule = no_rule;
          timestamp = now;
        }
        else record {
          allowed = false;
          reason = not_assigned_to_tenant;
          tenant = tenant;
          matched_rule = tenant_namespace_assignment;
          timestamp = now;
        }
  ]

  -- The result that the basic rules allow is the object in the cache, where there is one.
  unfoldable pub assign_tenant :
      Time → String → String → NamespaceFilter × FilterResult → NamespaceFilter × FilterResult
  unfolding check_tenant_access write_tenant
  assign_tenant now ns tenant (nf, r) =
      if not r.allowed
      then (nf, r)
      else if not nf.config.tenant_mode
      then (nf, r)
      else if not (check_tenant_access now ns tenant nf).allowed
      then (nf, check_tenant_access now ns tenant nf)
      else (
        record nf {
          cache = if nf.config.cache_enabled then write_tenant ns tenant nf.cache else nf.cache;
        },
        record r { tenant = tenant },
      )

  unfoldable pub is_namespace_allowed_for_tenant :
      Client → Time → String → String → NamespaceFilter → Option (NamespaceFilter × FilterResult)
  unfolding assign_tenant
  is_namespace_allowed_for_tenant client now ns tenant nf =
      Option.map (assign_tenant now ns tenant) (is_namespace_allowed client now ns nf)

  -- The loop over the listed namespaces: those that are allowed, in order.
  unfoldable pub allowed_among :
      (String → NamespaceFilter → Option (NamespaceFilter × FilterResult))
      → List String
      → NamespaceFilter
      → Option (NamespaceFilter × List String)
  allowed_among check [] nf = some (nf, [])
  allowed_among check (ns ∷ names) nf = elim (check ns nf) [
    | none ↦ none
    | some (nf', r) ↦
        Option.map (λ p. (p.0, if r.allowed then ns ∷ p.1 else p.1)) (allowed_among check names nf')
  ]

  -- The list of all namespaces is the answer of the client.
  unfoldable pub get_filtered_namespaces :
      Client → Time → List String → NamespaceFilter → Option (NamespaceFilter × List String)
  unfolding allowed_among
  get_filtered_namespaces client now listed nf =
      allowed_among (is_namespace_allowed client now) listed nf

  -- In tenant mode, the namespaces that the tenant has been assigned, or those with its label.
  pub get_tenant_namespaces :
      Client
      → Time
      → String
      → List String
      → List String
      → NamespaceFilter
      → Option (NamespaceFilter × List String)
  unfolding allowed_among
  get_tenant_namespaces client now tenant listed labelled nf =
      let check = λ (ns : String). is_namespace_allowed_for_tenant client now ns tenant in
      if not nf.config.tenant_mode
      then get_filtered_namespaces client now listed nf
      else elim (nf.config.tenant_namespaces tenant) [
        | some assigned ↦ allowed_among check assigned nf
        | none ↦ allowed_among check labelled nf
      ]

  abbrev pub nil_slots : List String → List (Option lib.Regexp)
  nil_slots ps = map (λ p. none) ps

  -- The slots of the compiled patterns, nil from the first that fails, and that pattern.
  unfoldable pub compile_all : List String → List (Option lib.Regexp) × Option String
  compile_all [] = ([], none)
  compile_all (p ∷ ps) = elim (lib.compile p) [
    | none ↦ (nil_slots (p ∷ ps), some p)
    | some r ↦ (some r ∷ (compile_all ps).0, (compile_all ps).1)
  ]

  unfoldable pub compile_patterns : NamespaceFilter → NamespaceFilter × Option String
  unfolding compile_all
  compile_patterns nf =
      let (included, bad) = compile_all nf.config.include_patterns in
      let nf' = record nf { include_regex = included } in
      elim bad [
        | some p ↦ (nf', some p)
        | none ↦
            let (excluded, bad') = compile_all nf.config.exclude_patterns in
            (record nf' { exclude_regex = excluded }, bad')
      ]

  unfoldable pub clear_cache : NamespaceFilter → NamespaceFilter
  clear_cache nf = record nf { cache = [] }

  -- The new configuration is set first; the cache is emptied only if its patterns are valid.
  unfoldable pub update_config :
      NamespaceFilterConfig → NamespaceFilter → NamespaceFilter × Option String
  unfolding compile_patterns clear_cache
  update_config config nf =
      let (nf', bad) = compile_patterns (record nf { config = config }) in
      elim bad [
        | some p ↦ (nf', some p)
        | none ↦ (if config.cache_enabled then clear_cache nf' else nf', none)
      ]

  pub data NewError : Type 0 where
    bad_pattern : String → NewError
    bad_interval : NewError
    ticker_panic : NewError

  -- time.ParseDuration and time.NewTicker, which panics unless the duration is positive.
  unfoldable pub check_ticker : (String → Option ℤ) → NamespaceFilterConfig → Option NewError
  check_ticker parse_duration config =
      if not config.enable_dynamic_filtering
      then none
      else elim (parse_duration config.refresh_interval) [
        | none ↦ some bad_interval
        | some d ↦ if ltb_ℤ (pos 0) d then none else some ticker_panic
      ]

  abbrev or_default : Option NamespaceFilterConfig → NamespaceFilterConfig
  or_default none = default_namespace_filter_config
  or_default (some config) = config

  abbrev empty_filter : NamespaceFilterConfig → NamespaceFilter
  empty_filter config = record {
    config = config;
    include_regex = [];
    exclude_regex = [];
    cache = [];
    metrics = if config.metrics_enabled then some new_namespace_filter_metrics else none;
  }

  unfoldable pub new_namespace_filter :
      (String → Option ℤ) → Option NamespaceFilterConfig → Result NewError NamespaceFilter
  unfolding compile_patterns check_ticker
  new_namespace_filter parse_duration given =
      let config = or_default given in
      let (nf, bad) = compile_patterns (empty_filter config) in
      elim bad [
        | some p ↦ err (bad_pattern p)
        | none ↦ elim (check_ticker parse_duration config) [ some e ↦ err e | none ↦ ok nf ]
      ]

  -- What the goroutine of the ticker receives.
  pub data RefreshEvent : Type 0 where
    refresh_tick refresh_done : RefreshEvent

  unfoldable pub run_refresh : List RefreshEvent → NamespaceFilter → NamespaceFilter
  unfolding clear_cache
  run_refresh [] nf = nf
  run_refresh (refresh_tick ∷ es) nf = run_refresh es (clear_cache nf)
  run_refresh (refresh_done ∷ es) nf = nf
