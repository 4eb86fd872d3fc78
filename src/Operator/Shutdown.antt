-- ===== src/Operator/Shutdown.antt =====
-- pkg/operator/shutdown.go: the phases of a graceful shutdown and the states of the components.
-- What a select takes, what the elector does and what the clock shows are arguments; a hook is
-- what its call does. Start, which waits for a signal, and the log are left out, and so is
-- the text that wraps an error, which is only logged.
pub mod Phases
pub mod States
pub mod Outcomes
pub mod Kept
pub mod Completion
pub mod Status
pub mod Waiting
pub mod Returns
pub mod Examples
use spotalis.Common.{
  ℕ, zero, suc, ◌+◌, ◌*◌, ◌/◌, ◌%◌, String, Bool, true, false, not, ◌&&◌, ◌||◌, if◌then◌else◌,
  Option, none, some, List, [], ◌∷◌, ℤ, pos, ltb, ◌==◌, ltb_ℤ, quot,
}
use Prim.Native.String.{◌++◌}
use spotalis.Common.Time.{Time, zero_time, second, since}
use spotalis.Common.Assoc.{Assoc, get, set}
use spotalis.Kube.{ApiError}
use spotalis.Server.Health.{HealthChecker}
use spotalis.Operator.LeaderElection.{LeaderElectionManager}

-- What the call of a hook does. It may never return, since it need not look at its context.
pub data ShutdownHook : Type 0 where
  succeeds hangs : ShutdownHook
  fails : String → ShutdownHook

pub record ShutdownConfig : Type 0 where
  pub graceful_timeout : ℤ
  pub force_timeout : ℤ
  pub pre_shutdown_delay : ℤ
  pub pre_shutdown_hooks : List ShutdownHook
  pub post_shutdown_hooks : List ShutdownHook
  pub wait_for_leader_election : Bool
  pub drain_connections : Bool
  pub finish_reconciliation : Bool

-- DefaultShutdownConfig
unfoldable pub default_shutdown_config : ShutdownConfig
default_shutdown_config = record {
  graceful_timeout = pos (30 * second);
  force_timeout = pos (60 * second);
  pre_shutdown_delay = pos (2 * second);
  pre_shutdown_hooks = [];
  post_shutdown_hooks = [];
  wait_for_leader_election = true;
  drain_connections = true;
  finish_reconciliation = true;
}

pub data ShutdownState : Type 0 where
  unknown started in_progress completed failed : ShutdownState

pub data ShutdownError : Type 0 where
  already_started context_done : ShutdownError
  hook_failed : ℕ → String → ShutdownError

pub record ComponentShutdownState : Type 0 where
  pub name : String
  pub state : ShutdownState
  pub start_time : Time
  pub end_time : Time
  pub error : Option String

-- The parts of the Operator that the shutdown reads.
pub record Operator : Type 0 where
  pub health_checker : Option HealthChecker
  pub leader_election_manager : Option LeaderElectionManager
  pub has_manager : Bool
  -- Whether the lease of the election, which stands in the cluster, has been deleted.
  pub lease_deleted : Bool

-- `readings` counts the readings of the clock, and `cancelled` is the state of shutdownContext.
pub record ShutdownManager : Type 0 where
  pub config : ShutdownConfig
  pub operator : Option Operator
  pub shutdown_started : Bool
  pub shutdown_reason : String
  pub shutdown_time : Time
  pub cancelled : Bool
  pub component_states : Assoc ComponentShutdownState
  pub readings : ℕ

-- NewShutdownManager
unfoldable pub new_shutdown_manager : Option ShutdownConfig → Option Operator → ShutdownManager
unfolding default_shutdown_config
new_shutdown_manager config operator = record {
  config = elim config [ none ↦ default_shutdown_config | some config ↦ config ];
  operator = operator;
  shutdown_started = false;
  shutdown_reason = "";
  shutdown_time = zero_time;
  cancelled = false;
  component_states = [];
  readings = 0;
}

-- What fires in a round of the wait for a new leader. At a tick the code reads the manager of the
-- election, as the elector has left it.
pub data Fires : Type 0 where
  timeout done : Fires
  tick : LeaderElectionManager → Fires

pub record Answers : Type 0 where
  -- The n-th reading of the clock.
  pub clock : ℕ → Time
  -- Whether a wait of this length is over before the context is done.
  pub passes : ℤ → Bool
  pub rounds : ℕ → Fires
  -- The error of the deletion of the lease, if any.
  pub deleted : Option ApiError
  -- Whether the context is done when the resources have been cleaned up.
  pub done_at_cleanup : Bool

unfoldable pub is_final : ShutdownState → Bool
is_final completed = true
is_final failed = true
is_final unknown = false
is_final started = false
is_final in_progress = false

module _ (answers : Answers) where
  -- updateComponentStateWithError
  unfoldable pub update_component_state_with_error :
      String → ShutdownState → Option String → ShutdownManager → ShutdownManager
  unfolding is_final
  update_component_state_with_error component state error m =
      let found = get component m.component_states in
      let existing : ComponentShutdownState = elim found [
        | some existing ↦ existing
        | none ↦ record {
          name = component;
          state = unknown;
          start_time = answers.clock m.readings;
          end_time = zero_time;
          error = none;
        }
      ] in
      let read : ℕ = elim found [ some _ ↦ m.readings | none ↦ m.readings + 1 ] in
      let updated = record existing { state = state; error = error } in
      let final : ComponentShutdownState =
        if is_final state then record updated { end_time = answers.clock read } else updated in
      record m {
        component_states = set component final m.component_states;
        readings = if is_final state then read + 1 else read;
      }

  -- updateComponentState
  unfoldable pub update_component_state : String → ShutdownState → ShutdownManager → ShutdownManager
  unfolding update_component_state_with_error
  update_component_state component state m =
      update_component_state_with_error component state none m

pub record ShutdownStatus : Type 0 where
  pub started : Bool
  pub reason : String
  pub start_time : Time
  pub component_states : Assoc ComponentShutdownState

-- GetShutdownStatus
unfoldable pub get_shutdown_status : ShutdownManager → ShutdownStatus
get_shutdown_status m = record {
  started = m.shutdown_started;
  reason = m.shutdown_reason;
  start_time = m.shutdown_time;
  component_states = m.component_states;
}

-- The loops of IsCompleted and HasErrors, which return at the first entry of the kind.
unfoldable pub all_entries : (ComponentShutdownState → Bool) → Assoc ComponentShutdownState → Bool
all_entries good [] = true
all_entries good ((name, state) ∷ states) = good state && all_entries good states

unfoldable pub is_settled : ComponentShutdownState → Bool
unfolding is_final
is_settled state = is_final state.state

is_failed : ShutdownState → Bool
is_failed failed = true
is_failed unknown = false
is_failed started = false
is_failed in_progress = false
is_failed completed = false

unfoldable pub is_clean : ComponentShutdownState → Bool
unfolding is_failed
is_clean state = not (is_failed state.state) && elim state.error [ none ↦ true | some _ ↦ false ]

-- ShutdownStatus.IsCompleted
unfoldable pub is_completed : ShutdownStatus → Bool
unfolding all_entries is_settled
is_completed status =
    if not status.started then false else all_entries is_settled status.component_states

-- ShutdownStatus.HasErrors
unfoldable pub has_errors : ShutdownStatus → Bool
unfolding all_entries is_clean
has_errors status = not (all_entries is_clean status.component_states)

-- ShutdownStatus.GetDuration
unfoldable pub get_duration : Time → ShutdownStatus → ℤ
get_duration now status = if not status.started then pos 0 else since now status.start_time
