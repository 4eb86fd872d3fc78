-- ===== src/Apis/Leadership.antt =====
-- pkg/apis/leadership_state.go: what an instance knows of the leader election. A reading of the
-- clock is an argument, `now`.
pub mod Runs
pub mod Health
pub mod Examples
use spotalis.Common.{
  String, Bool, true, false, not, ◌||◌, if◌then◌else◌, ℤ, pos, ltb_ℤ, leb_ℤ, ◌*◌, str_eq,
}
use spotalis.Common.Time.{Time, zero_time, is_zero, second, since}
use spotalis.Common.Words.{◌+i64◌, ◌-i64◌}

pub record LeadershipState : Type 0 where
  pub is_leader : Bool
  pub leader_identity : String
  pub lease_name : String
  pub lease_namespace : String
  pub acquired_at : Time
  pub renewed_at : Time
  pub lease_duration : ℤ
  pub renew_deadline : ℤ
  pub retry_period : ℤ
  pub transitions : ℤ
  pub last_transition : Time

-- NewLeadershipState
unfoldable pub new_leadership_state : String → String → String → LeadershipState
new_leadership_state identity lease_name lease_namespace = record {
  is_leader = false;
  leader_identity = identity;
  lease_name = lease_name;
  lease_namespace = lease_namespace;
  acquired_at = zero_time;
  renewed_at = zero_time;
  lease_duration = pos (15 * second);
  renew_deadline = pos (10 * second);
  retry_period = pos (2 * second);
  transitions = pos 0;
  last_transition = zero_time;
}

-- BecomeLeader
unfoldable pub become_leader : Time → LeadershipState → LeadershipState
become_leader now l =
    let leading = record l { is_leader = true; acquired_at = now; renewed_at = now } in
    if not l.is_leader
    then record leading { transitions = l.transitions +i64 pos 1; last_transition = now }
    else leading

-- StepDown
unfoldable pub step_down : Time → LeadershipState → LeadershipState
step_down now l =
    let following = record l { is_leader = false } in
    if l.is_leader
    then record following { transitions = l.transitions +i64 pos 1; last_transition = now }
    else following

-- RenewLease
unfoldable pub renew_lease : Time → LeadershipState → LeadershipState
renew_lease now l = record l { renewed_at = now }

-- UpdateLeaderIdentity
unfoldable pub update_leader_identity : String → Time → LeadershipState → LeadershipState
update_leader_identity identity now l = if str_eq l.leader_identity identity then l else record l {
  leader_identity = identity;
  transitions = l.transitions +i64 pos 1;
  last_transition = now;
}

-- GetLeadershipDuration
unfoldable pub get_leadership_duration : Time → LeadershipState → ℤ
get_leadership_duration now l =
    if not l.is_leader || is_zero l.acquired_at then pos 0 else since now l.acquired_at

-- GetTimeSinceLastRenewal
unfoldable pub get_time_since_last_renewal : Time → LeadershipState → ℤ
get_time_since_last_renewal now l = if is_zero l.renewed_at then pos 0 else since now l.renewed_at

-- NeedsRenewal
unfoldable pub needs_renewal : Time → LeadershipState → Bool
needs_renewal now l =
    if not l.is_leader then false else leb_ℤ l.retry_period (get_time_since_last_renewal now l)

-- IsLeaseExpired
unfoldable pub is_lease_expired : Time → LeadershipState → Bool
is_lease_expired now l = ltb_ℤ l.lease_duration (get_time_since_last_renewal now l)

-- ShouldStepDown
unfoldable pub should_step_down : Time → LeadershipState → Bool
should_step_down now l =
    if not l.is_leader then false else ltb_ℤ l.renew_deadline (get_time_since_last_renewal now l)

pub record LeadershipHealth : Type 0 where
  pub status : String
  pub healthy : Bool
  pub message : String
  pub leadership : String
  pub leadership_duration : ℤ
  pub last_renewal : Time

-- The fields that GetHealthStatus sets; the others keep their zero values.
unfoldable pub health : String → Bool → String → String → LeadershipHealth
health status healthy message leadership = record {
  status = status;
  healthy = healthy;
  message = message;
  leadership = leadership;
  leadership_duration = pos 0;
  last_renewal = zero_time;
}

-- GetHealthStatus
unfoldable pub get_health_status : Time → LeadershipState → LeadershipHealth
unfolding health
get_health_status now l =
    let since_renewal = get_time_since_last_renewal now l in
    if not l.is_leader
    then health "follower" true "Running in follower mode" "follower"
    else if ltb_ℤ l.renew_deadline since_renewal
    then health "unhealthy" false "Lease renewal deadline exceeded" "leader"
    else if ltb_ℤ l.retry_period since_renewal
    then health "warning" true "Lease renewal overdue" "leader"
    else health "healthy" true "Leadership active" "leader"

-- IsHealthy
unfoldable pub is_healthy : Time → LeadershipState → Bool
is_healthy now l = (get_health_status now l).healthy

-- GetTimeToNextRenewal
unfoldable pub get_time_to_next_renewal : Time → LeadershipState → ℤ
get_time_to_next_renewal now l =
    let since_renewal = get_time_since_last_renewal now l in
    if not l.is_leader
    then l.retry_period
    else if leb_ℤ l.retry_period since_renewal
    then pos 0
    else l.retry_period -i64 since_renewal

pub record LeadershipMetrics : Type 0 where
  pub leader_election_changes : ℤ
  pub leadership_duration : ℤ
  pub time_since_last_renewal : ℤ
  pub is_current_leader : Bool
  pub leader_identity : String
  pub lease_name : String
  pub lease_namespace : String

-- GetMetrics
unfoldable pub get_metrics : Time → LeadershipState → LeadershipMetrics
get_metrics now l = record {
  leader_election_changes = l.transitions;
  leadership_duration = get_leadership_duration now l;
  time_since_last_renewal = get_time_since_last_renewal now l;
  is_current_leader = l.is_leader;
  leader_identity = l.leader_identity;
  lease_name = l.lease_name;
  lease_namespace = l.lease_namespace;
}
