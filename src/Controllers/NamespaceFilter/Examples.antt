-- ===== src/Controllers/NamespaceFilter/Examples.antt =====
-- A filter with the default exclusions, for tenants, and with one pattern that does not compile.
use spotalis.Common.{
  ◌≡◌, refl, String, true, false, if◌then◌else◌, Option, none, some, [], ◌∷◌, str_eq,
}
use spotalis.Kube.{ObjectMeta}
use spotalis.Controllers.NamespaceFilter.{
  RegexpLibrary, NamespaceFilterConfig, default_namespace_filter_config, FilterResult,
}
use spotalis.Controllers.NamespaceFilter.Rules.{apply_exclusion_filters, find_match}
use spotalis.Controllers.NamespaceFilter.Service.{
  NamespaceFilter, is_namespace_allowed, update_config,
}
use spotalis.Controllers.NamespaceFilter.Cached.{IsValid, IsDecided, is_namespace_allowed_lem}
use spotalis.Controllers.NamespaceFilter.Updates.{start, update_config-IsValid}

-- A library of patterns that match the names that are equal to them; "(" does not compile.
abbrev exact_names : RegexpLibrary
exact_names = record {
  Regexp = String;
  compile = λ p. if str_eq p "(" then none else some p;
  match_string = λ r ns. str_eq r ns;
}

abbrev plain_config : NamespaceFilterConfig
plain_config = record default_namespace_filter_config {
  exclude_patterns = "kube-test" ∷ [];
  tenant_mode = true;
  tenant_namespaces = λ t. if str_eq t "team" then some ("shop" ∷ []) else none;
}

abbrev no_client : Option (String → Option ObjectMeta)
no_client = none

abbrev empty_filter : NamespaceFilter exact_names
empty_filter = record {
  config = default_namespace_filter_config;
  include_regex = [];
  exclude_regex = [];
  cache = [];
  metrics = none;
}

abbrev updated : NamespaceFilter exact_names
updated = (update_config exact_names plain_config empty_filter).0

accepted : (update_config exact_names plain_config empty_filter).1 ≡ none
unfolding update_config
accepted = refl

update_config-IsValid_example :
    IsValid exact_names no_client (update_config exact_names plain_config empty_filter).0
    × ((update_config exact_names plain_config empty_filter).0.config ≡ plain_config)
update_config-IsValid_example =
    update_config-IsValid exact_names no_client plain_config empty_filter accepted

is_namespace_allowed_lem_example :
    (nf' : NamespaceFilter exact_names) × (r : FilterResult) × (is_namespace_allowed exact_names
        no_client 5 "shop" updated
      ≡ some (nf', r))
    × IsDecided exact_names no_client "shop" updated nf' r
is_namespace_allowed_lem_example =
    is_namespace_allowed_lem exact_names no_client 5 "shop" updated update_config-IsValid_example.0

abbrev bad_config : NamespaceFilterConfig
bad_config = record default_namespace_filter_config { include_patterns = "(" ∷ [] }

let_through :
    apply_exclusion_filters exact_names bad_config [] "shop" (start 5) ≡ some (false, start 5)
unfolding apply_exclusion_filters find_match
let_through = refl
