-- ===== src/Webhook/AdmissionState/Examples.antt =====
-- The tracker of pending admissions at concrete states.
use spotalis.Common.{All, ◌≡◌, ◌↔◌, refl, none, some, [], ◌∷◌, arith, pos, str_eq, if◌then◌else◌}
use spotalis.Webhook.AdmissionState.{
  PendingAdmission, AdmissionStateTracker, Observed, tick, stop_received,
  new_admission_state_tracker, get_pending_counts, cleanup_loop,
}
use spotalis.Webhook.AdmissionState.Reserve.{reserve_all, reserve_burst}
use spotalis.Webhook.AdmissionState.Freshness.{IsAlive, ticks, cleanup_loop_iff}

abbrev empty : AdmissionStateTracker
empty = new_admission_state_tracker (pos 0)

-- One pod on demand; five pods wanted, three of them on spot nodes.
abbrev five : Observed
five = record {
  observed_spot = pos 0;
  observed_on_demand = pos 1;
  target_spot = pos 3;
  target_on_demand = pos 2;
}

empty_counts : get_pending_counts empty "default/Deployment/web" (pos 7) ≡ (pos 0, pos 0)
unfolding get_pending_counts new_admission_state_tracker
empty_counts = refl

-- Five admissions: the first on demand, the next three on spot nodes, the last on demand.
reserve_burst_example :
    get_pending_counts
      (reserve_all (1 ∷ 2 ∷ 3 ∷ 4 ∷ 5 ∷ []) "default/Deployment/web" (pos 7) five empty)
      "default/Deployment/web"
      (pos 7)
    ≡ (pos 3, pos 2)
reserve_burst_example =
    reserve_burst (1 ∷ 2 ∷ 3 ∷ 4 ∷ 5 ∷ []) "default/Deployment/web" (pos 7) five empty 0 0
      empty_counts (omega arith)

abbrev entry : PendingAdmission
entry = record {
  pending_spot = pos 1;
  pending_on_demand = pos 0;
  last_updated = 1;
  generation = pos 7;
  pod_list_resource_version = "12";
  pod_list_time = 1;
}

abbrev one_entry : AdmissionStateTracker
one_entry = record empty { pending = λ k. if str_eq k "a" then some entry else none }

cleanup_loop_iff_example :
    let es = tick 2 ∷ stop_received ∷ tick 99999999999 ∷ [] in
    ((cleanup_loop es one_entry).pending "a" ≡ some entry)
    ↔ ((one_entry.pending "a" ≡ some entry) × All (IsAlive one_entry.ttl entry) (ticks es))
cleanup_loop_iff_example =
    cleanup_loop_iff (tick 2 ∷ stop_received ∷ tick 99999999999 ∷ []) one_entry "a" entry
