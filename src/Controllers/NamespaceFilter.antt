-- ===== src/Controllers/NamespaceFilter.antt =====
-- pkg/controllers/namespace_filter.go: which namespaces the controllers may manage. The package
-- regexp is a parameter. A configured map of labels is the list of its pairs, in the order in which
-- the map is iterated.
pub mod Rules
pub mod Service
pub mod Metrics
pub mod Steps
pub mod Decision
pub mod Cached
pub mod Tenants
pub mod Updates
mod Examples
use spotalis.Common.{String, Bool, true, false, Option, none, some, List, [], ◌∷◌, ℤ, pos}
use spotalis.Common.Text.{Text}
use spotalis.Common.Time.{Time}

-- regexp.Compile, whose error is `none`, and Regexp.MatchString.
pub record RegexpLibrary : Type 1 where
  pub Regexp : Type 0
  pub compile : String → Option Regexp
  pub match_string : Regexp → String → Bool

-- The options that the filter reads.
pub record NamespaceFilterConfig : Type 0 where
  pub include_namespaces : List String
  pub exclude_namespaces : List String
  pub include_patterns : List String
  pub exclude_patterns : List String
  pub required_labels : List (String × Text)
  pub forbidden_labels : List (String × Text)
  pub forbidden_annotations : List (String × Text)
  pub tenant_mode : Bool
  pub tenant_label_key : String
  pub tenant_namespaces : String → Option (List String)
  pub include_system_namespaces : Bool
  pub system_namespaces : List String
  pub enable_dynamic_filtering : Bool
  pub refresh_interval : String
  pub cache_enabled : Bool
  pub cache_size : ℤ
  pub metrics_enabled : Bool

abbrev pub default_namespace_filter_config : NamespaceFilterConfig
default_namespace_filter_config = record {
  include_namespaces = [];
  exclude_namespaces = "kube-system" ∷ "kube-public" ∷ "kube-node-lease" ∷ [];
  include_patterns = [];
  exclude_patterns = "^kube-.*" ∷ "^openshift-.*" ∷ [];
  required_labels = [];
  forbidden_labels = [];
  forbidden_annotations = [];
  tenant_mode = false;
  tenant_label_key = "tenant";
  tenant_namespaces = λ tenant. none;
  include_system_namespaces = false;
  system_namespaces = "kube-system" ∷ "kube-public" ∷ "kube-node-lease" ∷ "default" ∷ [];
  enable_dynamic_filtering = true;
  refresh_interval = "5m";
  cache_enabled = true;
  cache_size = pos 1000;
  metrics_enabled = true;
}

-- The texts of `Reason`.
pub data Reason : Type 0 where
  no_reason by_default system_namespace_excluded explicitly_excluded matched_exclude_pattern :
      Reason
  not_in_include_list no_include_pattern_matched namespace_not_found : Reason
  missing_required_labels has_forbidden_labels has_forbidden_annotations : Reason
  passed_all_filters not_assigned_to_tenant tenant_access_allowed : Reason

-- The texts of `MatchedRule`.
pub data Rule : Type 0 where
  no_rule system_namespace_exclusion include_namespace_check include_pattern_check : Rule
  namespace_not_found_rule required_labels_check forbidden_labels_check : Rule
  forbidden_annotations_check tenant_namespace_assignment : Rule
  exclude_namespace include_namespace exclude_pattern include_pattern : String → Rule

pub record FilterResult : Type 0 where
  pub allowed : Bool
  pub reason : Reason
  pub tenant : String
  pub matched_rule : Rule
  pub timestamp : Time
