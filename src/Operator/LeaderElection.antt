-- ===== src/Operator/LeaderElection.antt =====
-- pkg/operator/leader_election.go: the manager of the leader election. The elections themselves are
-- made by client-go's LeaderElector, which calls onStartedLeading, onStoppedLeading and onNewLeader;
-- what the API server answers is an argument, and a reading of the clock is `now`. A user's
-- callback has no access to the manager's state.
pub mod Runs
pub mod Examples
use spotalis.Common.{
  String, Bool, true, false, not, ◌||◌, ◌&&◌, if◌then◌else◌, Option, none, some, List, [], ◌∷◌,
  ◌++◌, ℕ, ℤ, pos, ◌*◌, Result, ok, err, length, ltb, str_eq,
}
use Prim.{Unit, tt}
use spotalis.Common.Time.{Time, zero_time, second}
use spotalis.Kube.{ApiError}

pub record LeaderElectionConfig : Type 0 where
  pub enabled : Bool
  pub id : String
  pub namespace : String
  pub lease_name : String
  pub lease_duration : ℤ
  pub renew_deadline : ℤ
  pub retry_period : ℤ
  pub identity : String

-- A channel that is only closed is a Boolean, and a buffered one the list of what waits in it.
pub record LeaderElectionManager : Type 0 where
  pub config : LeaderElectionConfig
  pub has_elector : Bool
  pub is_leader : Bool
  pub current_leader : String
  pub start_time : Time
  pub started : Bool
  pub stopped : Bool
  pub leader_changed : List String

-- os.Hostname(), where it fails or is empty.
unfoldable pub host_or_default : Option String → String
host_or_default none = "unknown"
host_or_default (some name) = if str_eq name "" then "unknown" else name

-- DefaultLeaderElectionConfig
unfoldable pub default_leader_election_config : Option String → LeaderElectionConfig
unfolding host_or_default
default_leader_election_config hostname = record {
  enabled = true;
  id = "spotalis-controller-leader";
  namespace = "spotalis-system";
  lease_name = "spotalis-controller-leader";
  lease_duration = pos (15 * second);
  renew_deadline = pos (10 * second);
  retry_period = pos (2 * second);
  identity = host_or_default hostname;
}

unfoldable pub with_identity : Option String → LeaderElectionConfig → LeaderElectionConfig
unfolding host_or_default
with_identity hostname config =
    if str_eq config.identity ""
    then record config { identity = host_or_default hostname }
    else config

-- NewLeaderElectionManager
unfoldable pub new_leader_election_manager :
    Option LeaderElectionConfig → Option String → LeaderElectionManager
unfolding default_leader_election_config with_identity
new_leader_election_manager config hostname =
    let given : LeaderElectionConfig = elim config [
      | none ↦ default_leader_election_config hostname
      | some config ↦ config
    ] in
    record {
      config = with_identity hostname given;
      has_elector = false;
      is_leader = false;
      current_leader = "";
      start_time = zero_time;
      started = false;
      stopped = false;
      leader_changed = [];
    }

pub data ElectionError : Type 0 where
  lock_failed elector_failed : String → ElectionError
  not_leader elector_not_initialized : ElectionError
  lease_not_deleted : ApiError → ElectionError
  context_done closed_channel : ElectionError

-- Start, up to the wait for the end of the context or the start of the elector's goroutine. Making
-- the lock and the elector can fail. A closed channel cannot be closed again: Go panics.
unfoldable pub start :
    Time → Option ElectionError → LeaderElectionManager → Result ElectionError LeaderElectionManager
start now setup l =
    if not l.config.enabled
    then (if l.started
        then err closed_channel
        else ok (record l {
          is_leader = true;
          current_leader = l.config.identity;
          start_time = now;
          started = true;
        }))
    else elim setup [
      | some error ↦ err error
      | none ↦ ok (record l { has_elector = true; start_time = now })
    ]

abbrev leader_changed_channel_buffer : ℕ
leader_changed_channel_buffer = 10

-- The send of a select with a default: a full buffer drops the value.
unfoldable pub notify : String → List String → List String
notify identity waiting =
    if ltb (length waiting) leader_changed_channel_buffer then waiting ++ identity ∷ [] else waiting

-- onStartedLeading sets the fields, and then closes the channel and notifies; it holds no lock, so
-- that other calls can come between the two. Closing a channel that is closed panics.
unfoldable pub set_leading : LeaderElectionManager → LeaderElectionManager
set_leading l = record l { is_leader = true; current_leader = l.config.identity }

unfoldable pub announce : LeaderElectionManager → Result ElectionError LeaderElectionManager
unfolding notify
announce l =
    if l.started
    then err closed_channel
    else ok
        (record l { started = true; leader_changed = notify l.config.identity l.leader_changed })

-- onStartedLeading, with no other call in between.
unfoldable pub on_started_leading :
    LeaderElectionManager → Result ElectionError LeaderElectionManager
unfolding set_leading announce
on_started_leading l = announce (set_leading l)

-- onStoppedLeading
unfoldable pub on_stopped_leading : LeaderElectionManager → LeaderElectionManager
on_stopped_leading l = record l { is_leader = false }

-- onNewLeader
unfoldable pub on_new_leader : String → LeaderElectionManager → LeaderElectionManager
unfolding notify
on_new_leader identity l = record l {
  current_leader = identity;
  leader_changed = notify identity l.leader_changed;
}

-- WaitForLeadership: `fires` is whether the select sees the channel closed before the context ends.
unfoldable pub wait_for_leadership : Bool → LeaderElectionManager → Option ElectionError
wait_for_leadership fires l =
    if not l.config.enabled || l.is_leader then none else if fires then none else some context_done

-- Resign; `deleted` is the error of the deletion of the lease, if any.
unfoldable pub resign : Option ApiError → LeaderElectionManager → Option ElectionError
resign deleted l =
    if not l.config.enabled || not l.is_leader
    then some not_leader
    else if not l.has_elector
    then some elector_not_initialized
    else elim deleted [ none ↦ none | some error ↦ some (lease_not_deleted error) ]

-- A Lease of the API server; a nil pointer is `none`.
pub record Lease : Type 0 where
  pub name : String
  pub namespace : String
  pub lease_transitions : Option ℤ
  pub holder_identity : Option String
  pub acquire_time : Option Time
  pub renew_time : Option Time

pub record LeaseInfo : Type 0 where
  pub name : String
  pub namespace : String
  pub holder_identity : String
  pub lease_duration : ℤ
  pub acquire_time : Time
  pub renew_time : Time
  pub leader_transitions : ℤ

-- `if p != nil`
abbrev value_or {ℓ} : {A : Type ℓ} → A → Option A → A
value_or default none = default
value_or default (some value) = value

-- getLeaseInfo; the answer is `none` on an error.
unfoldable pub get_lease_info : Option Lease → LeaderElectionManager → Option LeaseInfo
get_lease_info none l = none
get_lease_info (some lease) l = some (record {
  name = lease.name;
  namespace = lease.namespace;
  holder_identity = value_or "" lease.holder_identity;
  lease_duration = l.config.lease_duration;
  acquire_time = value_or zero_time lease.acquire_time;
  renew_time = value_or zero_time lease.renew_time;
  leader_transitions = value_or (pos 0) lease.lease_transitions;
})

pub record LeadershipInfo : Type 0 where
  pub enabled : Bool
  pub is_leader : Bool
  pub current_leader : String
  pub identity : String
  pub start_time : Time
  pub lease_info : Option LeaseInfo

-- GetLeadershipInfo
unfoldable pub get_leadership_info : Option Lease → LeaderElectionManager → LeadershipInfo
unfolding get_lease_info
get_leadership_info lease l = record {
  enabled = l.config.enabled;
  is_leader = l.is_leader;
  current_leader = l.current_leader;
  identity = l.config.identity;
  start_time = l.start_time;
  lease_info = if l.has_elector && l.config.enabled then get_lease_info lease l else none;
}
