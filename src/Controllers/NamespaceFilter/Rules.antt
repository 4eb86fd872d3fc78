-- ===== src/Controllers/NamespaceFilter/Rules.antt =====
-- performFiltering of pkg/controllers/namespace_filter.go: the rules, one after another. A step
-- returns whether the namespace is blocked, and the result as it has been changed; a panic is `none`.
use mathlib.Core.Option
use spotalis.Common.{
  String, Bool, true, false, not, ◌&&◌, ◌||◌, if◌then◌else◌, Option, none, some, List, [], ◌∷◌,
  str_eq,
}
use spotalis.Common.Text.{Text, eq_text}
use spotalis.Common.Time.{Time}
use spotalis.Kube.{StringMap, ObjectMeta}
use spotalis.Controllers.NamespaceFilter.{
  RegexpLibrary, NamespaceFilterConfig, FilterResult, Reason, Rule, by_default,
  system_namespace_excluded, explicitly_excluded, matched_exclude_pattern, not_in_include_list,
  no_include_pattern_matched, namespace_not_found, missing_required_labels, has_forbidden_labels,
  has_forbidden_annotations, passed_all_filters, no_rule, system_namespace_exclusion,
  include_namespace_check, include_pattern_check, namespace_not_found_rule, required_labels_check,
  forbidden_labels_check, forbidden_annotations_check, exclude_namespace, include_namespace,
  exclude_pattern, include_pattern,
}

abbrev pub Step : Type 0
Step = FilterResult → Option (Bool × FilterResult)

-- `if blocked := f(result); blocked { return true }`, and then the rest.
abbrev pub then_step : Step → Step → Step
then_step f g r = elim (f r) [
  | none ↦ none
  | some (blocked, r') ↦ if blocked then some (true, r') else g r'
]

abbrev pub deny : Reason → Rule → Step
deny reason rule r = some (true, record r { allowed = false; reason = reason; matched_rule = rule })

abbrev pub pass : Step
pass r = some (false, r)

-- The loop over a list of names, which the first that is equal ends.
unfoldable pub contains : String → List String → Bool
contains name [] = false
contains name (n ∷ names) = str_eq name n || contains name names

-- Has the map the pair?
unfoldable pub has_pair : StringMap → String × Text → Bool
has_pair m (key, value) = elim (m key) [ none ↦ false | some v ↦ eq_text v value ]

unfoldable pub has_all : StringMap → List (String × Text) → Bool
unfolding has_pair
has_all m [] = true
has_all m (p ∷ ps) = has_pair m p && has_all m ps

unfoldable pub has_any : StringMap → List (String × Text) → Bool
unfolding has_pair
has_any m [] = false
has_any m (p ∷ ps) = has_pair m p || has_any m ps

abbrev pub or_no_labels : Option StringMap → StringMap
or_no_labels none = λ k. none
or_no_labels (some m) = m

unfoldable pub check_metadata_requirements : NamespaceFilterConfig → ObjectMeta → Step
unfolding has_all has_any
check_metadata_requirements config meta r =
    if not (has_all (or_no_labels meta.labels) config.required_labels)
    then deny missing_required_labels required_labels_check r
    else if has_any (or_no_labels meta.labels) config.forbidden_labels
    then deny has_forbidden_labels forbidden_labels_check r
    else if has_any (or_no_labels meta.annotations) config.forbidden_annotations
    then deny has_forbidden_annotations forbidden_annotations_check r
    else pass r

-- A nil client is `none`, and so is the answer where the namespace cannot be read.
unfoldable pub apply_metadata_filters :
    NamespaceFilterConfig → Option (String → Option ObjectMeta) → String → Step
unfolding check_metadata_requirements
apply_metadata_filters config client ns r = elim client [
  | none ↦ pass r
  | some get ↦ elim (get ns) [
    | none ↦
        pass (record r { reason = namespace_not_found; matched_rule = namespace_not_found_rule })
    | some meta ↦ check_metadata_requirements config meta r
  ]
]

unfoldable pub check_explicit_exclusion : NamespaceFilterConfig → String → Step
unfolding contains
check_explicit_exclusion config ns r =
    if contains ns config.exclude_namespaces
    then deny explicitly_excluded (exclude_namespace ns) r
    else pass r

abbrev pub is_empty {ℓ} : {A : Type ℓ} → List A → Bool
is_empty [] = true
is_empty (x ∷ xs) = false

unfoldable pub check_explicit_inclusion : NamespaceFilterConfig → String → Step
unfolding contains
check_explicit_inclusion config ns r =
    if is_empty config.include_namespaces
    then pass r
    else if contains ns config.include_namespaces
    then pass (record r { matched_rule = include_namespace ns })
    else deny not_in_include_list include_namespace_check r

module _ (lib : RegexpLibrary) where
  -- A pattern of the code itself, which a failed compilation leaves out.
  matches_pattern : String → String → Bool
  matches_pattern ns pattern = elim (lib.compile pattern) [
    | none ↦ false
    | some r ↦ lib.match_string r ns
  ]

  unfoldable pub is_system_namespace : NamespaceFilterConfig → String → Bool
  unfolding contains matches_pattern
  is_system_namespace config ns =
      contains ns config.system_namespaces
      || matches_pattern ns "^kube-"
      || matches_pattern ns "^openshift-"
      || matches_pattern ns "^istio-"

  abbrev pub pattern_at : List String → Option (Option String)
  pattern_at [] = none
  pattern_at (p ∷ ps) = some (some p)

  abbrev pub later : List String → List String
  later [] = []
  later (p ∷ ps) = ps

  -- The loop over the compiled patterns, and the text of the first that matches. A pattern that is
  -- nil panics when it is matched, and so does an index past the end of the texts.
  unfoldable pub find_match :
      String → List (Option lib.Regexp) → List String → Option (Option String)
  find_match ns [] texts = some none
  find_match ns (none ∷ rs) texts = none
  find_match ns (some r ∷ rs) texts =
      let rest = find_match ns rs (later texts) in
      if lib.match_string r ns then pattern_at texts else rest

  unfoldable pub check_exclude_patterns :
      NamespaceFilterConfig → List (Option lib.Regexp) → String → Step
  check_exclude_patterns config exclude_regex ns r =
      elim (find_match ns exclude_regex config.exclude_patterns) [
        | none ↦ none
        | some none ↦ pass r
        | some (some p) ↦ deny matched_exclude_pattern (exclude_pattern p) r
      ]

  unfoldable pub check_include_patterns :
      NamespaceFilterConfig → List (Option lib.Regexp) → String → Step
  check_include_patterns config include_regex ns r =
      if is_empty include_regex
      then pass r
      else elim (find_match ns include_regex config.include_patterns) [
        | none ↦ none
        | some none ↦ deny no_include_pattern_matched include_pattern_check r
        | some (some p) ↦ pass (record r { matched_rule = include_pattern p })
      ]

  unfoldable pub apply_exclusion_filters :
      NamespaceFilterConfig → List (Option lib.Regexp) → String → Step
  unfolding is_system_namespace check_explicit_exclusion check_exclude_patterns
  apply_exclusion_filters config exclude_regex ns r =
      if is_system_namespace config ns && not config.include_system_namespaces
      then deny system_namespace_excluded system_namespace_exclusion r
      else then_step (check_explicit_exclusion config ns)
          (check_exclude_patterns config exclude_regex ns) r

  unfoldable pub apply_inclusion_filters :
      NamespaceFilterConfig → List (Option lib.Regexp) → String → Step
  unfolding check_explicit_inclusion check_include_patterns
  apply_inclusion_filters config include_regex ns =
      then_step (check_explicit_inclusion config ns)
        (check_include_patterns config include_regex ns)

  abbrev pub passed : Bool × FilterResult → FilterResult
  passed (blocked, r) = if blocked then r else record r { reason = passed_all_filters }

  -- The three groups of rules; a result that none has denied is allowed.
  unfoldable pub perform_filtering :
      NamespaceFilterConfig
      → List (Option lib.Regexp)
      → List (Option lib.Regexp)
      → Option (String → Option ObjectMeta)
      → Time
      → String
      → Option FilterResult
  unfolding apply_exclusion_filters apply_inclusion_filters apply_metadata_filters
  perform_filtering config include_regex exclude_regex client now ns = Option.map passed (
      then_step (apply_exclusion_filters config exclude_regex ns)
        (then_step (apply_inclusion_filters config include_regex ns)
          (apply_metadata_filters config client ns))
        (record {
          allowed = true;
          reason = by_default;
          tenant = "";
          matched_rule = no_rule;
          timestamp = now;
        }))
