-- ===== src/Controllers/Reconciler/Samples.antt =====
-- A cluster for the tests of the two reconcilers of pkg/controllers: every pod runs on a spot node,
-- no budget and no window applies, and every call of the API server goes through.
use spotalis.Common.{String, true, none, some, List, [], ◌∷◌, ok, pos, ◌*◌}
use Prim.{Unit}
use spotalis.Common.Text.{Text}
use spotalis.Common.Time.{Time, second, minute}
use spotalis.Kube.{Pod, PodPhase}
use spotalis.Apis.NodeType.{NodeType}
use spotalis.Annotations.DisruptionWindow.{CronLibrary}
use spotalis.Observation.Service.{Answers}
use spotalis.Controllers.Reconciler.{WorkloadType, WorkloadReconciler, Environment}

abbrev pub no_cron : CronLibrary
no_cron = record {
  Schedule = Unit {0};
  parse = λ s. none;
  next = λ s t. t;
  parse_duration = λ s. none;
}

abbrev pub ready_pod : Text → String → Pod
ready_pod name node = record {
  name = name;
  namespace = "shop";
  labels = λ k. none;
  node_name = node;
  deletion_timestamp = none;
  phase = PodPhase.running;
  conditions = record { is_ready_type = true; is_true = true } ∷ [];
  node_selector = λ k. none;
}

abbrev pub on_spot : List Pod → Answers
on_spot pods = record {
  replica_sets = λ ns uid. ok ("rs-1" ∷ []);
  owned_pods = λ ns uid. ok pods;
  as_selector = λ s. some (λ labels. true);
  classify_nodes_by_name = some (λ names. ok (λ n. some NodeType.spot));
}

abbrev pub quiet : {W : WorkloadType} → W.Object → Answers → Time → Environment W
quiet object answers t = record {
  object = ok object;
  is_namespace_allowed = some (λ ns. ok true);
  counting = answers;
  categorizing = answers;
  namespace_labels = λ ns. ok none;
  global_window = none;
  budgets = λ ns. ok [];
  evict = λ p. none;
  checked_at = t;
  deleted_at = t;
}

abbrev pub fresh_reconciler : WorkloadReconciler
fresh_reconciler = record {
  reconcile_interval = pos (5 * minute);
  cooldown_period = pos (10 * second);
  disruption_retry_interval = pos minute;
  disruption_window_poll_interval = pos (10 * minute);
  last_deletion_times = λ k. none;
  reconcile_count = pos 0;
  error_count = pos 0;
  last_error = none;
}
