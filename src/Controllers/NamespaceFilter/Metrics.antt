-- ===== src/Controllers/NamespaceFilter/Metrics.antt =====
-- NamespaceFilterMetrics of pkg/controllers/namespace_filter.go: the counters, as int64. The rates of
-- the summary are not modelled.
use spotalis.Common.{String, Bool, if◌then◌else◌, Option, none, some, ℤ, pos, ◌+ℤ◌, str_eq}
use spotalis.Common.Words.{wrap64}
use spotalis.Common.Time.{Time, zero_time}
use spotalis.Controllers.NamespaceFilter.{Reason, no_reason}

pub record NamespaceResult : Type 0 where
  pub allowed : ℤ
  pub denied : ℤ
  pub last_checked : Time
  pub last_reason : Reason

pub record NamespaceFilterMetrics : Type 0 where
  pub total_checks : ℤ
  pub allowed_results : ℤ
  pub denied_results : ℤ
  pub cache_hits : ℤ
  pub cache_misses : ℤ
  pub errors : ℤ
  pub namespace_results : String → Option NamespaceResult

abbrev pub new_namespace_filter_metrics : NamespaceFilterMetrics
new_namespace_filter_metrics = record {
  total_checks = pos 0;
  allowed_results = pos 0;
  denied_results = pos 0;
  cache_hits = pos 0;
  cache_misses = pos 0;
  errors = pos 0;
  namespace_results = λ ns. none;
}

abbrev pub next_int64 : ℤ → ℤ
next_int64 z = wrap64 (z +ℤ pos 1)

abbrev or_new_result : Option NamespaceResult → NamespaceResult
or_new_result (some n) = n
or_new_result none = record {
  allowed = pos 0;
  denied = pos 0;
  last_checked = zero_time;
  last_reason = no_reason;
}

abbrev count_result : Time → Bool → Reason → NamespaceResult → NamespaceResult
count_result now allowed reason n = record n {
  allowed = if allowed then next_int64 n.allowed else n.allowed;
  denied = if allowed then n.denied else next_int64 n.denied;
  last_checked = now;
  last_reason = reason;
}

unfoldable pub record_filter_result :
    Time → String → Bool → Reason → NamespaceFilterMetrics → NamespaceFilterMetrics
record_filter_result now ns allowed reason m = record m {
  total_checks = next_int64 m.total_checks;
  allowed_results = if allowed then next_int64 m.allowed_results else m.allowed_results;
  denied_results = if allowed then m.denied_results else next_int64 m.denied_results;
  namespace_results = λ k.
      if str_eq k ns
      then some (count_result now allowed reason (or_new_result (m.namespace_results ns)))
      else m.namespace_results k;
}

unfoldable pub record_cache_hit : NamespaceFilterMetrics → NamespaceFilterMetrics
record_cache_hit m = record m { cache_hits = next_int64 m.cache_hits }

pub record_cache_miss : NamespaceFilterMetrics → NamespaceFilterMetrics
record_cache_miss m = record m { cache_misses = next_int64 m.cache_misses }

pub record_filter_error : NamespaceFilterMetrics → NamespaceFilterMetrics
record_filter_error m = record m { errors = next_int64 m.errors }
