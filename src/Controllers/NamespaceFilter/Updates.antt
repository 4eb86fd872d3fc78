-- ===== src/Controllers/NamespaceFilter/Updates.antt =====
-- NewNamespaceFilter and UpdateConfig of pkg/controllers/namespace_filter.go: valid filters, and what
-- a refused update leaves behind.
use mathlib.Core.Option
use spotalis.Common.{
  ◌≡◌, inl, inr, refl, String, Bool, true, false, if◌then◌else◌, Option, none, some, List, [], ◌∷◌,
  arith, Option-cases, ap, sym, subst, ◌∙◌,
}
use Prim.{tt}
use spotalis.Common.Time.{Time}
use spotalis.Kube.{ObjectMeta}
use spotalis.Controllers.NamespaceFilter.{
  RegexpLibrary, NamespaceFilterConfig, FilterResult, by_default, no_rule, include_namespace,
  not_in_include_list, include_namespace_check,
}
use spotalis.Controllers.NamespaceFilter.Rules.{
  perform_filtering, apply_exclusion_filters, apply_inclusion_filters, check_explicit_inclusion,
  check_include_patterns, then_step, Step, find_match, apply_metadata_filters, is_empty, contains,
  deny, passed,
}
use spotalis.Controllers.NamespaceFilter.Decision.{Compiles}
use spotalis.Controllers.NamespaceFilter.Cached.{IsValid}
use spotalis.Controllers.NamespaceFilter.Service.{
  Cache, NamespaceFilter, compile_all, compile_patterns, clear_cache, update_config, filter_now,
  get_cached_result, nil_slots,
}

-- The result that performFiltering starts with.
abbrev pub start : Time → FilterResult
start now = record {
  allowed = true;
  reason = by_default;
  tenant = "";
  matched_rule = no_rule;
  timestamp = now;
}

module _ (lib : RegexpLibrary) where
  compile_all_cons :
      (p : String) (ps : List String) (r : lib.Regexp)
      → lib.compile p ≡ some r
      → compile_all lib (p ∷ ps) ≡ (some r ∷ (compile_all lib ps).0, (compile_all lib ps).1)
  unfolding compile_all
  compile_all_cons p ps r e = rw (compile_all, e) refl

  compile_all-Compiles :
      (ps : List String) → (compile_all lib ps).1 ≡ none → Compiles lib ps (compile_all lib ps).0
  unfolding compile_all
  compile_all-Compiles [] h = tt
  compile_all-Compiles (p ∷ ps) h = elim (Option-cases (lib.compile p)) [
    | inl bad ↦ cc (rw (compile_all, bad) at h)
    | inr (r, e) ↦
        let step = compile_all_cons p ps r e in
        let good : (compile_all lib ps).1 ≡ none = cc (step, h) in
        subst (λ c. Compiles lib (p ∷ ps) c.0) (sym step) (e, compile_all-Compiles ps good)
  ]

  compile_patterns_lem :
      (nf : NamespaceFilter lib)
      → (compile_all lib nf.config.include_patterns).1 ≡ none
      → compile_patterns lib nf ≡ (
        record nf {
          include_regex = (compile_all lib nf.config.include_patterns).0;
          exclude_regex = (compile_all lib nf.config.exclude_patterns).0;
        },
        (compile_all lib nf.config.exclude_patterns).1,
      )
  unfolding compile_patterns
  compile_patterns_lem nf e = ground (arith, e)

  -- A filter with the configuration, whose patterns are compiled, and with the given cache.
  record IsFresh (config : NamespaceFilterConfig) (cache : Cache) (nf : NamespaceFilter lib)
      : Type 0 where
    same_config : nf.config ≡ config
    same_cache : nf.cache ≡ cache
    include_compiled : Compiles lib config.include_patterns nf.include_regex
    exclude_compiled : Compiles lib config.exclude_patterns nf.exclude_regex

  compiled-IsFresh :
      (nf : NamespaceFilter lib)
      → (compile_patterns lib nf).1 ≡ none
      → IsFresh nf.config nf.cache (compile_patterns lib nf).0
  unfolding compile_patterns
  compiled-IsFresh nf h = elim (Option-cases (compile_all lib nf.config.include_patterns).1) [
    | inr (p, e) ↦ cc (rw (compile_patterns, e) at h)
    | inl e ↦
        let all = compile_patterns_lem nf e in
        let f : (compile_all lib nf.config.exclude_patterns).1 ≡ none = cc (all, h) in
        subst (λ c. IsFresh nf.config nf.cache c.0) (sym all)
          (record {
            same_config = refl;
            same_cache = refl;
            include_compiled = compile_all-Compiles nf.config.include_patterns e;
            exclude_compiled = compile_all-Compiles nf.config.exclude_patterns f;
          })
  ]

  fresh-IsValid :
      (client : Option (String → Option ObjectMeta)) (config : NamespaceFilterConfig)
      (cache : Cache) (nf : NamespaceFilter lib)
      → IsFresh config cache nf
      → (config.cache_enabled ≡ true → cache ≡ [])
      → IsValid lib client nf
  unfolding get_cached_result
  fresh-IsValid client config cache nf f empty = record {
    include_compiled =
        subst (λ c. Compiles lib c.include_patterns nf.include_regex) (sym f.same_config)
          f.include_compiled;
    exclude_compiled =
        subst (λ c. Compiles lib c.exclude_patterns nf.exclude_regex) (sym f.same_config)
          f.exclude_compiled;
    sound = λ on ns r h.
        let none_cached =
          f.same_cache ∙ empty (ap (λ c. c.cache_enabled) (sym f.same_config) ∙ on) in
        cc (subst (λ c. get_cached_result ns c ≡ some r) none_cached h);
    bounded = λ on.
        rw (f.same_cache ∙ empty (ap (λ c. c.cache_enabled) (sym f.same_config) ∙ on))
          (omega arith);
  }

  emptied-IsValid :
      (client : Option (String → Option ObjectMeta)) (config : NamespaceFilterConfig)
      (cache : Cache) (b : Bool) (nf : NamespaceFilter lib)
      → IsFresh config cache nf
      → config.cache_enabled ≡ b
      → IsValid lib client (if b then clear_cache lib nf else nf)
        × ((if b then clear_cache lib nf else nf).config ≡ config)
  unfolding clear_cache
  emptied-IsValid client config cache true nf f on = (
    fresh-IsValid client config [] (clear_cache lib nf)
        (record {
          same_config = f.same_config;
          same_cache = refl;
          include_compiled = f.include_compiled;
          exclude_compiled = f.exclude_compiled;
        })
        (λ e. refl),
    f.same_config,
  )
  emptied-IsValid client config cache false nf f off =
      (fresh-IsValid client config cache nf f (λ on. cc (on, off)), f.same_config)

  update_config_lem :
      (config : NamespaceFilterConfig) (nf : NamespaceFilter lib)
      → (compile_patterns lib (record nf { config = config })).1 ≡ none
      → update_config lib config nf ≡ (
        if config.cache_enabled
            then clear_cache lib (compile_patterns lib (record nf { config = config })).0
            else (compile_patterns lib (record nf { config = config })).0,
        none,
      )
  unfolding update_config
  update_config_lem config nf e = ground (arith, e)

  update_fails :
      (config : NamespaceFilterConfig) (nf : NamespaceFilter lib) (p : String)
      → (compile_patterns lib (record nf { config = config })).1 ≡ some p
      → update_config lib config nf
        ≡ ((compile_patterns lib (record nf { config = config })).0, some p)
  unfolding update_config
  update_fails config nf p e = ground (arith, e)

  -- An update that is accepted leaves a valid filter with the new configuration, whatever the client
  -- answers from then on.
  pub update_config-IsValid :
      (client : Option (String → Option ObjectMeta)) (config : NamespaceFilterConfig)
      (nf : NamespaceFilter lib)
      → (update_config lib config nf).1 ≡ none
      → IsValid lib client (update_config lib config nf).0
        × ((update_config lib config nf).0.config ≡ config)
  update_config-IsValid client config nf h =
      elim (Option-cases (compile_patterns lib (record nf { config = config })).1) [
        | inr (p, e) ↦ cc (h, update_fails config nf p e)
        | inl e ↦
            let f = compiled-IsFresh (record nf { config = config }) e in
            subst (λ c. IsValid lib client c.0 × (c.0.config ≡ config))
              (sym (update_config_lem config nf e))
              (emptied-IsValid client config nf.cache config.cache_enabled _ f refl)
      ]

  first_nil :
      (bad : String) (rest : List String)
      → lib.compile bad ≡ none
      → compile_all lib (bad ∷ rest) ≡ (none ∷ nil_slots lib rest, some bad)
  unfolding compile_all
  first_nil bad rest b = rw (compile_all, b) refl

  then_pass : (f g : Step) (r r' : FilterResult) → f r ≡ some (false, r') → then_step f g r ≡ g r'
  then_pass f g r r' e = rw (then_step, e) refl

  then_panic : (f g : Step) (r : FilterResult) → f r ≡ none → then_step f g r ≡ none
  then_panic f g r e = rw (then_step, e) refl

  no_inclusions :
      (ns : String) (config : NamespaceFilterConfig) (r : FilterResult)
      → config.include_namespaces ≡ []
      → check_explicit_inclusion config ns r ≡ some (false, r)
  unfolding check_explicit_inclusion
  no_inclusions ns config r i = listed config.include_namespaces i
    where
      listed :
          (names : List String)
          → names ≡ []
          → (if is_empty names
              then some (false, r)
              else if contains ns names
              then some (false, record r { matched_rule = include_namespace ns })
              else deny not_in_include_list include_namespace_check r)
            ≡ some (false, r)
      listed [] e = refl
      listed (n ∷ names) e = cc e

  nil_first_panics :
      (client : Option (String → Option ObjectMeta)) (now : Time) (ns : String)
      (config : NamespaceFilterConfig) (slots excluded : List (Option lib.Regexp))
      (r : FilterResult)
      → config.include_namespaces ≡ []
      → apply_exclusion_filters lib config excluded ns (start now) ≡ some (false, r)
      → perform_filtering lib config (none ∷ slots) excluded client now ns ≡ none
  unfolding perform_filtering apply_inclusion_filters check_include_patterns find_match
  nil_first_panics client now ns config slots excluded r i x =
      let included = check_include_patterns lib config (none ∷ slots) ns in
      let inclusion = then_step (check_explicit_inclusion config ns) included in
      let metadata = apply_metadata_filters config client ns in
      ap (Option.map (passed lib)) (
        then_pass (apply_exclusion_filters lib config excluded ns) (then_step inclusion metadata)
          (start now) r x
        ∙ then_panic inclusion metadata r (
            then_pass (check_explicit_inclusion config ns) included r r
              (no_inclusions ns config r i)
            ∙ refl))

  -- An update that is refused at its first inclusion pattern has set the new configuration and left a
  -- nil pattern behind. From then on the filter panics on every namespace that the exclusions let
  -- through, where no inclusion list is given.
  pub refused_update_panics :
      (client : Option (String → Option ObjectMeta)) (now : Time) (ns bad : String)
      (rest : List String) (config : NamespaceFilterConfig) (nf : NamespaceFilter lib)
      (r : FilterResult)
      → config.include_patterns ≡ bad ∷ rest
      → lib.compile bad ≡ none
      → config.include_namespaces ≡ []
      → apply_exclusion_filters lib config nf.exclude_regex ns (start now) ≡ some (false, r)
      → ((update_config lib config nf).1 ≡ some bad)
        × (filter_now lib client now ns (update_config lib config nf).0 ≡ none)
  unfolding filter_now compile_patterns
  refused_update_panics client now ns bad rest config nf r e b i x =
      let slots : compile_all lib config.include_patterns ≡ (none ∷ nil_slots lib rest, some bad) =
        ap (compile_all lib) e ∙ first_nil bad rest b in
      let compiled : compile_patterns lib (record nf { config = config })
          ≡ (record nf { config = config; include_regex = none ∷ nil_slots lib rest }, some bad) =
        ground (arith, slots) in
      let updated =
        update_fails config nf bad (ap (λ c. c.1) compiled) ∙ ap (λ c. (c.0, some bad)) compiled in
      (
        ap (λ c. c.1) updated,
        ap (λ c. filter_now lib client now ns c.0) updated
            ∙ nil_first_panics client now ns config (nil_slots lib rest) nf.exclude_regex r i x,
      )
