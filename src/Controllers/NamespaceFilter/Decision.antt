-- ===== src/Controllers/NamespaceFilter/Decision.antt =====
-- Which namespaces performFiltering of pkg/controllers/namespace_filter.go allows.
use spotalis.Common.{
  ◌≡◌, ◌↔◌, ◌⊎◌, inl, inr, refl, String, true, false, not, ◌&&◌, Option, none, some, List, [], ◌∷◌,
  arith, Bool-cases, subst,
}
use Prim.{Unit}
use spotalis.Common.Time.{Time}
use spotalis.Kube.{ObjectMeta}
use spotalis.Controllers.NamespaceFilter.{
  RegexpLibrary, NamespaceFilterConfig, FilterResult, matched_exclude_pattern, exclude_pattern,
  no_include_pattern_matched, include_pattern_check, include_pattern, by_default, no_rule,
  passed_all_filters, system_namespace_excluded, system_namespace_exclusion,
}
use spotalis.Controllers.NamespaceFilter.Rules.{
  is_empty, find_match, is_system_namespace, perform_filtering, check_exclude_patterns,
  check_explicit_exclusion, apply_exclusion_filters, apply_inclusion_filters, then_step,
  check_include_patterns, check_explicit_inclusion, apply_metadata_filters,
}
use spotalis.Controllers.NamespaceFilter.Steps.{
  Any, or_absurd, answer, IsFitting, Decides, passes, denies, then-Decides, exclusion-Decides,
  inclusion-Decides, metadata-Decides, denied,
}

module _ (lib : RegexpLibrary) where
  -- The slots hold the compiled patterns, none of them nil.
  abbrev pub Compiles : List String → List (Option lib.Regexp) → Type 0
  Compiles [] [] = Unit
  Compiles [] (r ∷ rs) = ⊥
  Compiles (p ∷ ps) [] = ⊥
  Compiles (p ∷ ps) (none ∷ rs) = ⊥
  Compiles (p ∷ ps) (some r ∷ rs) = (lib.compile p ≡ some r) × Compiles ps rs

  pub Matches : String → String → Type 0
  Matches ns p = (r : lib.Regexp) × (lib.compile p ≡ some r) × (lib.match_string r ns ≡ true)

  not_matched :
      (ns p : String) (r : lib.Regexp)
      → lib.compile p ≡ some r
      → lib.match_string r ns ≡ false
      → Matches ns p
      → ⊥
  unfolding Matches
  not_matched ns p r e n (r', e', m) =
      let same : r' ≡ r = cc (e, e') in cc (subst (λ x. lib.match_string x ns ≡ true) same m, n)

  -- What the loop over compiled patterns finds.
  find_match_lem :
      (ns : String) (ps : List String) (rs : List (Option lib.Regexp))
      → Compiles ps rs
      → ((find_match lib ns rs ps ≡ some none) × (Any (Matches ns) ps → ⊥))
        ⊎ ((p : String) × (find_match lib ns rs ps ≡ some (some p)) × Any (Matches ns) ps)
  unfolding find_match Matches
  find_match_lem ns [] [] c = inl (refl, λ a. a)
  find_match_lem ns [] (r ∷ rs) c = absurd c
  find_match_lem ns (p ∷ ps) [] c = absurd c
  find_match_lem ns (p ∷ ps) (none ∷ rs) c = absurd c
  find_match_lem ns (p ∷ ps) (some r ∷ rs) (e, c) = elim (Bool-cases (lib.match_string r ns)) [
    | inl m ↦ inr (p, rw (find_match, m) refl, inl (r, e, m))
    | inr n ↦ elim (find_match_lem ns ps rs c) [
      | inr (q, f, a) ↦ inr (q, rw (find_match, n) f, inr a)
      | inl (f, no_match) ↦
          inl (rw (find_match, n) f, or_absurd (λ m. not_matched ns p r e n m) no_match)
    ]
  ]

  -- Why a namespace is allowed. A client that is nil, or that cannot read the namespace, asks nothing
  -- of its labels.
  pub record IsAdmitted (config : NamespaceFilterConfig)
      (client : Option (String → Option ObjectMeta)) (ns : String) : Type 0 where
    pub system : is_system_namespace lib config ns ≡ true → config.include_system_namespaces ≡ true
    pub not_excluded : Any (λ n. ns ≡ n) config.exclude_namespaces → ⊥
    pub no_exclude_pattern : Any (Matches ns) config.exclude_patterns → ⊥
    pub included : (config.include_namespaces ≡ []) ⊎ Any (λ n. ns ≡ n) config.include_namespaces
    pub include_pattern : (config.include_patterns ≡ []) ⊎ Any (Matches ns) config.include_patterns
    pub metadata : (meta : ObjectMeta) → answer client ns ≡ some meta → IsFitting config meta

  exclude_pattern-Decides :
      (config : NamespaceFilterConfig) (rs : List (Option lib.Regexp)) (ns : String)
      (r : FilterResult)
      → Compiles config.exclude_patterns rs
      → r.allowed ≡ true
      → Decides
          (Any (Matches ns) config.exclude_patterns → ⊥)
          (check_exclude_patterns lib config rs ns r)
  unfolding check_exclude_patterns
  exclude_pattern-Decides config rs ns r c a =
      elim (find_match_lem ns config.exclude_patterns rs c) [
        | inl (e, no_match) ↦ passes r (rw (check_exclude_patterns, e) refl) a no_match
        | inr (p, e, found) ↦
            denies (denied matched_exclude_pattern (exclude_pattern p) r)
              (rw (check_exclude_patterns, e) refl) refl (λ n. n found)
      ]

  include_pattern-Decides :
      (config : NamespaceFilterConfig) (rs : List (Option lib.Regexp)) (ns : String)
      (r : FilterResult)
      → Compiles config.include_patterns rs
      → r.allowed ≡ true
      → Decides
          ((config.include_patterns ≡ []) ⊎ Any (Matches ns) config.include_patterns)
          (check_include_patterns lib config rs ns r)
  unfolding check_include_patterns
  include_pattern-Decides config rs ns r c a = elim (empty_or config.include_patterns rs c) [
    | inl (none_given, e) ↦ passes r (rw (check_include_patterns, e) refl) a (inl none_given)
    | inr (given, e) ↦ elim (find_match_lem ns config.include_patterns rs c) [
      | inl (f, no_match) ↦
          denies (denied no_include_pattern_matched include_pattern_check r)
            (rw (check_include_patterns, e, f) refl) refl (or_absurd given no_match)
      | inr (p, f, found) ↦
          passes (record r { matched_rule = include_pattern p })
            (rw (check_include_patterns, e, f) refl) a (inr found)
    ]
  ]
    where
      empty_or :
          (ps : List String) (rs : List (Option lib.Regexp))
          → Compiles ps rs
          → ((ps ≡ []) × (is_empty rs ≡ true)) ⊎ ((ps ≡ [] → ⊥) × (is_empty rs ≡ false))
      empty_or [] [] c = inl (refl, refl)
      empty_or [] (r ∷ rs) c = absurd c
      empty_or (p ∷ ps) [] c = absurd c
      empty_or (p ∷ ps) (r ∷ rs) c = inr (λ e. cc e, refl)

  exclusions-Decides :
      (config : NamespaceFilterConfig) (rs : List (Option lib.Regexp)) (ns : String)
      (r : FilterResult)
      → Compiles config.exclude_patterns rs
      → r.allowed ≡ true
      → Decides
          ((is_system_namespace lib config ns ≡ true → config.include_system_namespaces ≡ true)
            × (Any (λ n. ns ≡ n) config.exclude_namespaces → ⊥)
            × (Any (Matches ns) config.exclude_patterns → ⊥))
          (apply_exclusion_filters lib config rs ns r)
  unfolding apply_exclusion_filters
  exclusions-Decides config rs ns r c a =
      elim (Bool-cases
        (is_system_namespace lib config ns && not config.include_system_namespaces)) [
          | inl e ↦
              denies (denied system_namespace_excluded system_namespace_exclusion r)
                (rw (apply_exclusion_filters, e) refl) refl (λ p. ground (arith, e, p.0))
          | inr e ↦
              elim (then-Decides _ _ (check_explicit_exclusion config ns)
                (check_exclude_patterns lib config rs ns) r (exclusion-Decides config ns r a)
                (λ r' a'. exclude_pattern-Decides config rs ns r' c a')) [
                  | passes r' f a' (p, q) ↦
                      passes r' (rw (apply_exclusion_filters, e) f) a'
                        (λ system. ground (arith, e, system), p, q)
                  | denies r' f a' n ↦
                      denies r' (rw (apply_exclusion_filters, e) f) a' (λ p. n (p.1, p.2))
                ]
        ]

  -- With patterns that have all been compiled, the filter never panics, and it allows a namespace
  -- exactly when the namespace is not a system namespace (unless those are included), matches no
  -- exclusion, matches the inclusions that are given, and has fitting labels and annotations where
  -- they can be read.
  pub perform_filtering_iff :
      (config : NamespaceFilterConfig) (include_regex exclude_regex : List (Option lib.Regexp))
      (client : Option (String → Option ObjectMeta)) (now : Time) (ns : String)
      → Compiles config.include_patterns include_regex
      → Compiles config.exclude_patterns exclude_regex
      → (r : FilterResult) × (perform_filtering lib config include_regex exclude_regex client now ns
          ≡ some r)
        × ((r.allowed ≡ true) ↔ IsAdmitted config client ns)
  unfolding perform_filtering apply_inclusion_filters
  perform_filtering_iff config ins exs client now ns ci ce =
      elim (then-Decides _ _ (apply_exclusion_filters lib config exs ns)
        (then_step (apply_inclusion_filters lib config ins ns)
          (apply_metadata_filters config client ns))
        start (exclusions-Decides config exs ns start ce refl)
        (λ r a.
          then-Decides _ _ (apply_inclusion_filters lib config ins ns)
            (apply_metadata_filters config client ns) r
            (then-Decides _ _ (check_explicit_inclusion config ns)
              (check_include_patterns lib config ins ns) r (inclusion-Decides config ns r a)
              (λ r' a'. include_pattern-Decides config ins ns r' ci a'))
            (λ r' a'. metadata-Decides config client ns r' a'))) [
              | passes r e a c ↦ (
                record r { reason = passed_all_filters },
                rw (perform_filtering, e) refl,
                (
                  λ t. record {
                    system = c.0.0;
                    not_excluded = c.0.1;
                    no_exclude_pattern = c.0.2;
                    included = c.1.0.0;
                    include_pattern = c.1.0.1;
                    metadata = c.1.1;
                  },
                  λ t. a,
                ),
              )
              | denies r e a n ↦ (
                r,
                rw (perform_filtering, e) refl,
                (
                  λ t. cc (t, a),
                  λ t. absurd (
                      n (
                        (t.system, t.not_excluded, t.no_exclude_pattern),
                        ((t.included, t.include_pattern), t.metadata),
                      )),
                ),
              )
            ]
    where
      start : FilterResult
      start = record {
        allowed = true;
        reason = by_default;
        tenant = "";
        matched_rule = no_rule;
        timestamp = now;
      }
