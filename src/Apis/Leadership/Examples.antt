-- ===== src/Apis/Leadership/Examples.antt =====
-- The theorems on the leadership state at concrete inputs.
use spotalis.Common.{true, false, ◌*◌, ◌≡◌, refl, pos, List, [], ◌∷◌}
use spotalis.Common.Time.{second, sub_time}
use spotalis.Apis.Leadership.{
  LeadershipState, new_leadership_state, become_leader, step_down, renew_lease,
  update_leader_identity, is_healthy, should_step_down, is_lease_expired, get_time_to_next_renewal,
  get_time_since_last_renewal,
}
use spotalis.Apis.Leadership.Runs.{
  Call, make, becomes_leader, steps_down, renews, learns_leader, run, change, changes,
}
use spotalis.Apis.Leadership.Health.{after, run-lease}

abbrev first : LeadershipState
first = new_leadership_state "a" "lease" "kube-system"

-- Elected twice in a row, renewed, and replaced by another instance.
abbrev history : List Call
history =
    becomes_leader (1 * second)
    ∷ becomes_leader (2 * second)
    ∷ renews (3 * second)
    ∷ steps_down (4 * second)
    ∷ learns_leader "b" (4 * second)
    ∷ learns_leader "b" (5 * second)
    ∷ []

three_changes : changes history first ≡ 3
unfolding new_leadership_state changes change make become_leader step_down renew_lease
    update_leader_identity
three_changes = refl

abbrev elected : List Call
elected = becomes_leader (1 * second) ∷ renews (3 * second) ∷ []

run-lease_example :
    (should_step_down (20 * second) (after elected "a" "lease" "kube-system") ≡ true)
    × (is_healthy (20 * second) (after elected "a" "lease" "kube-system") ≡ false)
    × (get_time_to_next_renewal (20 * second) (after elected "a" "lease" "kube-system") ≡ pos 0)
unfolding new_leadership_state run make become_leader renew_lease is_lease_expired
    get_time_since_last_renewal sub_time
run-lease_example = run-lease elected "a" "lease" "kube-system" (20 * second) refl refl
