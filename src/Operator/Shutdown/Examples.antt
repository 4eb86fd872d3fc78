-- ===== src/Operator/Shutdown/Examples.antt =====
-- The theorems on the shutdown at a concrete operator.
use spotalis.Common.{
  ℕ, ◌+◌, ◌<◌, ◌↔◌, ◌≡◌, refl, true, false, not, ltb, if◌then◌else◌, Option, none, some, [], ◌∷◌,
  arith,
}
use Prim.{tt}
use spotalis.Server.Health.{new_health_checker}
use spotalis.Operator.LeaderElection.{
  LeaderElectionManager, new_leader_election_manager, default_leader_election_config,
}
use spotalis.Operator.Shutdown.{
  all_entries, succeeds, fails, ShutdownManager, ShutdownConfig, ShutdownError, Operator, Answers,
  timeout, tick, new_shutdown_manager, default_shutdown_config, is_completed, has_errors,
  get_shutdown_status,
}
use spotalis.Operator.Shutdown.Phases.{
  returns, waits, leads, transfer_leadership, initiate_shutdown,
}
use spotalis.Operator.Shutdown.Completion.{is_cut_short}
use spotalis.Operator.Shutdown.Status.{initiate-is_completed, initiate-has_errors}
use spotalis.Operator.Shutdown.Waiting.{GoesOn, transfer_waits_iff}
use spotalis.Operator.Shutdown.Returns.{initiate_returns}

-- Election is disabled, and the instance leads.
abbrev election : LeaderElectionManager
election = record (new_leader_election_manager none none) {
  config = record (default_leader_election_config none) { enabled = false };
  is_leader = true;
  started = true;
}

abbrev operator : Operator
operator = record {
  health_checker = some (new_health_checker 1 true true "spotalis-system");
  leader_election_manager = some election;
  has_manager = true;
  lease_deleted = false;
}

-- One hook before the phases fails.
abbrev config : ShutdownConfig
config = record default_shutdown_config { pre_shutdown_hooks = succeeds ∷ fails "no lock" ∷ [] }

abbrev manager : ShutdownManager
manager = new_shutdown_manager (some config) (some operator)

-- The waits of the phases are over in time, and 29 ticks come before the timeout.
abbrev answers : Answers
answers = record {
  clock = λ n. n + 100;
  passes = λ wait. true;
  rounds = λ n. if ltb n 29 then tick election else timeout;
  deleted = none;
  done_at_cleanup = false;
}

run_returns :
    (n : ShutdownManager) × (error : Option ShutdownError) × (initiate_shutdown answers 30
        "signal: terminated" manager
      ≡ returns n error)
unfolding new_shutdown_manager default_shutdown_config
run_returns =
    initiate_returns answers 30 29 "signal: terminated" manager (tt, (tt, tt)) tt tt (omega arith)

abbrev result : ShutdownManager
result = run_returns.0

transfer_waits_iff_example :
    (transfer_leadership answers 20 manager ≡ waits)
    ↔ ((leads answers operator ≡ true) × ((j : ℕ) → j < 20 → GoesOn (answers.rounds j)))
unfolding new_shutdown_manager
transfer_waits_iff_example = transfer_waits_iff answers 20 manager operator refl

initiate-is_completed_example :
    is_completed (get_shutdown_status result) ≡ not (is_cut_short answers config)
unfolding new_shutdown_manager all_entries
initiate-is_completed_example =
    initiate-is_completed answers 30 "signal: terminated" manager refl refl run_returns.2

-- The context ends when the resources have been cleaned up.
abbrev late : Answers
late = record answers { done_at_cleanup = true }

abbrev plain : ShutdownManager
plain = new_shutdown_manager none (some operator)

late_returns :
    (n : ShutdownManager) × (error : Option ShutdownError) × (initiate_shutdown late 30
        "signal: terminated" plain
      ≡ returns n error)
unfolding new_shutdown_manager default_shutdown_config
late_returns = initiate_returns late 30 29 "signal: terminated" plain tt tt tt (omega arith)

initiate-has_errors_example : has_errors (get_shutdown_status late_returns.0) ≡ false
unfolding new_shutdown_manager default_shutdown_config has_errors get_shutdown_status
initiate-has_errors_example =
    initiate-has_errors late 30 "signal: terminated" plain late_returns.0 late_returns.1 refl refl
      refl tt tt late_returns.2
