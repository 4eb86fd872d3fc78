-- ===== src/Controllers/Eviction/Examples.antt =====
-- A budget that matches a pod and allows no disruption.
use spotalis.Common.{◌≡◌, ◌↔◌, String, true, false, Option, none, some, List, [], ◌∷◌, ok, pos}
use spotalis.Common.Text.{codes}
use spotalis.Kube.{Pod, PodPhase, PodDisruptionBudget, LabelSelector}
use spotalis.Controllers.Eviction.{PdbStatus, check_pdb_status}
use spotalis.Controllers.Eviction.Budgets.{Blocked, blocked_iff}

abbrev cart : Pod
cart = record {
  name = codes "cart";
  namespace = "shop";
  labels = λ k. none;
  node_name = "node-1";
  deletion_timestamp = none;
  phase = PodPhase.running;
  conditions = [];
  node_selector = λ k. none;
}

abbrev budget : String → Option LabelSelector → PodDisruptionBudget
budget name selector = record {
  name = name;
  selector = selector;
  disruptions_allowed = pos 0;
  current_healthy = pos 2;
  desired_healthy = pos 2;
  expected_pods = pos 2;
}

abbrev budgets : List PodDisruptionBudget
budgets = budget "open" none ∷ budget "closed" (some (record { match_labels = [] })) ∷ []

blocked_iff_example :
    ((s : PdbStatus) × (check_pdb_status (λ s. some (λ m. true)) (ok budgets) cart ≡ ok s)
      × (s.can_disrupt ≡ false))
    ↔ Blocked (λ s. some (λ m. true)) cart budgets
blocked_iff_example = blocked_iff (λ s. some (λ m. true)) cart budgets
