-- ===== src/Operator/Shutdown/Phases.antt =====
-- The phases of the shutdown, and initiateShutdown. A call returns the manager and its error, if
-- any, or it waits: a hook hangs, or the rounds given have run out.
use spotalis.Common.{
  ℕ, zero, suc, ◌+◌, ◌*◌, ◌/◌, ◌%◌, String, Bool, true, false, not, ◌&&◌, if◌then◌else◌, Option,
  none, some, List, [], ◌∷◌, ℤ, pos, ltb, ◌==◌, ltb_ℤ, quot,
}
use Prim.Native.String.{◌++◌}
use spotalis.Common.Time.{second}
use spotalis.Server.Health.{HealthChecker, set_not_ready, set_unhealthy}
use spotalis.Operator.LeaderElection.{LeaderElectionManager, resign}
use spotalis.Operator.Shutdown.{
  ShutdownHook, succeeds, hangs, fails, ShutdownConfig, ShutdownManager, Operator, Answers, Fires,
  timeout, done, tick, ShutdownError, already_started, context_done, hook_failed, started,
  completed, failed, update_component_state, update_component_state_with_error,
}

pub data Outcome : Type 0 where
  returns : ShutdownManager → Option ShutdownError → Outcome
  waits : Outcome

infixl 5 ◌⨾◌ ◌⨟◌
-- `if err := first(); err != nil { return err }`, and the rest.
abbrev pub ◌⨾◌ : Outcome → (ShutdownManager → Outcome) → Outcome
returns m none ⨾ rest = rest m
returns m (some error) ⨾ rest = returns m (some error)
waits ⨾ rest = waits

-- `if err := first(); err != nil { log }`, and the rest.
abbrev pub ◌⨟◌ : Outcome → (ShutdownManager → Outcome) → Outcome
returns m error ⨟ rest = rest m
waits ⨟ rest = waits

-- The health checker of the operator, where there is one.
unfoldable pub tell_health : (HealthChecker → HealthChecker) → ShutdownManager → ShutdownManager
tell_health call m = elim m.operator [
  | none ↦ m
  | some operator ↦ elim operator.health_checker [
    | none ↦ m
    | some checker ↦ record m {
      operator = some (record operator { health_checker = some (call checker) });
    }
  ]
]

-- The decimal digits of a number; the fuel n + 1 is enough for n.
digit : ℕ → String
digit n =
    if n == 0
    then "0"
    else if n == 1
    then "1"
    else if n == 2
    then "2"
    else if n == 3
    then "3"
    else if n == 4
    then "4"
    else if n == 5
    then "5"
    else if n == 6
    then "6"
    else if n == 7
    then "7"
    else if n == 8
    then "8"
    else "9"

pub decimal : ℕ → ℕ → String
unfolding digit
decimal zero n = ""
decimal (suc fuel) n =
    let rest = decimal fuel (n / 10) ++ digit (n % 10) in if ltb n 10 then digit n else rest

module _ (answers : Answers) where
  -- executePreShutdownHooks and executePostShutdownHooks, from the i-th hook on.
  unfoldable pub execute_hooks : String → ℕ → List ShutdownHook → ShutdownManager → Outcome
  unfolding update_component_state update_component_state_with_error decimal
  execute_hooks kind i [] m = returns m none
  execute_hooks kind i (hook ∷ hooks) m =
      let name = kind ++ decimal (i + 1) i in
      let begun = update_component_state answers name started m in
      let rest =
        execute_hooks kind (i + 1) hooks (update_component_state answers name completed begun) in
      elim hook [
        | fails message ↦
            returns (update_component_state_with_error answers name failed (some message) begun)
              (some (hook_failed i message))
        | hangs ↦ waits
        | succeeds ↦ rest
      ]

  -- stopNewRequests
  unfoldable pub stop_new_requests : ShutdownManager → Outcome
  unfolding tell_health update_component_state
  stop_new_requests m =
      let begun = update_component_state answers "http-server" started m in
      let told = tell_health (set_not_ready "shutting down") begun in
      let over = update_component_state answers "http-server" completed told in
      let delay = m.config.pre_shutdown_delay in
      if ltb_ℤ (pos 0) delay && not (answers.passes delay)
      then returns told (some context_done)
      else returns over none

  -- The manager of the election as the elector has left it.
  unfoldable pub elector_leaves : LeaderElectionManager → ShutdownManager → ShutdownManager
  elector_leaves election m = elim m.operator [
    | none ↦ m
    | some operator ↦ record m {
      operator = some (record operator { leader_election_manager = some election });
    }
  ]

  -- The select of the loop of transferLeadership, and the rest of the loop.
  unfoldable pub take_round : Fires → (ShutdownManager → Outcome) → ShutdownManager → Outcome
  unfolding elector_leaves update_component_state
  take_round timeout again m =
      returns (update_component_state answers "leader-election" completed m) none
  take_round (tick election) again m =
      let seen = elector_leaves election m in
      if not election.is_leader
      then returns (update_component_state answers "leader-election" completed seen) none
      else again seen
  take_round done again m =
      returns (update_component_state answers "leader-election" completed m) (some context_done)

  -- The loop of transferLeadership, from round n on.
  unfoldable pub wait_for_new_leader : ℕ → ℕ → ShutdownManager → Outcome
  unfolding take_round
  wait_for_new_leader zero n m = waits
  wait_for_new_leader (suc fuel) n m =
      take_round (answers.rounds n) (wait_for_new_leader fuel (suc n)) m

  -- operator.leaderElectionManager == nil, or it does not lead.
  unfoldable pub leads : Operator → Bool
  leads operator = elim operator.leader_election_manager [
    | none ↦ false
    | some election ↦ election.is_leader
  ]

  -- The call of Resign: the lease is deleted, or the error is only logged.
  unfoldable pub give_up_lease : ShutdownManager → ShutdownManager
  give_up_lease m = elim m.operator [
    | none ↦ m
    | some operator ↦ elim operator.leader_election_manager [
      | none ↦ m
      | some election ↦ elim (resign answers.deleted election) [
        | none ↦ record m { operator = some (record operator { lease_deleted = true }) }
        | some error ↦ m
      ]
    ]
  ]

  -- transferLeadership
  unfoldable pub transfer_leadership : ℕ → ShutdownManager → Outcome
  unfolding wait_for_new_leader leads give_up_lease update_component_state
  transfer_leadership fuel m =
      let begun = update_component_state answers "leader-election" started m in
      let over = update_component_state answers "leader-election" completed begun in
      elim m.operator [
        | none ↦ returns over none
        | some operator ↦
            if not (leads operator)
            then returns over none
            else wait_for_new_leader fuel 0 (give_up_lease begun)
      ]

  -- drainConnections and stopControllers
  unfoldable pub drain_connections : ShutdownManager → Outcome
  unfolding update_component_state
  drain_connections m =
      returns
        (update_component_state answers "connection-drain" completed
          (update_component_state answers "connection-drain" started m))
        none

  unfoldable pub has_manager : ShutdownManager → Bool
  has_manager m = elim m.operator [ none ↦ false | some operator ↦ operator.has_manager ]

  unfoldable pub stop_controllers : ShutdownManager → Outcome
  unfolding has_manager update_component_state
  stop_controllers m =
      let begun = update_component_state answers "controllers" started m in
      let stopped = if has_manager m then record begun { cancelled = true } else begun in
      returns (update_component_state answers "controllers" completed stopped) none

  -- The wait of finishReconciliations.
  unfoldable pub reconciliation_wait_time : ShutdownConfig → ℤ
  reconciliation_wait_time config =
      let third = quot config.graceful_timeout 3 in
      if ltb_ℤ (pos 0) config.graceful_timeout
      then (if ltb_ℤ (pos (30 * second)) third then pos (30 * second) else third)
      else pos (5 * second)

  -- finishReconciliations
  unfoldable pub finish_reconciliations : ShutdownManager → Outcome
  unfolding reconciliation_wait_time update_component_state
  finish_reconciliations m =
      let begun = update_component_state answers "reconciliation" started m in
      let over = update_component_state answers "reconciliation" completed begun in
      elim m.operator [
        | none ↦ returns over none
        | some operator ↦
            if answers.passes (reconciliation_wait_time m.config)
            then returns over none
            else returns over (some context_done)
      ]

  -- cleanupResources; no step of it adds to the list of its errors.
  unfoldable pub cleanup_resources : ShutdownManager → Outcome
  unfolding tell_health update_component_state
  cleanup_resources m =
      let begun = update_component_state answers "cleanup" started m in
      let told = tell_health (set_unhealthy "shutdown complete") begun in
      let over = update_component_state answers "cleanup" completed told in
      if answers.done_at_cleanup then returns over (some context_done) else returns over none

  -- A phase that is switched on.
  abbrev pub when : Bool → (ShutdownManager → Outcome) → ShutdownManager → Outcome
  when true phase m = phase m
  when false phase m = returns m none

  unfoldable pub has_operator : ShutdownManager → Bool
  has_operator m = elim m.operator [ none ↦ false | some _ ↦ true ]

  -- performGracefulShutdown
  unfoldable pub perform_graceful_shutdown : ℕ → ShutdownManager → Outcome
  unfolding stop_new_requests transfer_leadership drain_connections finish_reconciliations
      stop_controllers cleanup_resources has_operator
  perform_graceful_shutdown fuel m =
      let transfer = m.config.wait_for_leader_election && has_operator m in
      stop_new_requests m ⨾ λ stopped.
      when transfer (transfer_leadership fuel) stopped
      ⨟ when m.config.drain_connections drain_connections
      ⨾ when m.config.finish_reconciliation finish_reconciliations
      ⨾ stop_controllers
      ⨾ cleanup_resources

  -- performForceShutdown: forceStopComponents cancels the context, and never fails.
  unfoldable pub perform_force_shutdown : ShutdownManager → Outcome
  perform_force_shutdown m = returns (record m { cancelled = true }) none

  -- `if err := graceful(); err != nil { return force() }`, and the post-shutdown hooks.
  unfoldable pub conclude : Outcome → Outcome
  unfolding perform_force_shutdown execute_hooks
  conclude waits = waits
  conclude (returns m (some error)) = perform_force_shutdown m
  conclude (returns m none) =
      execute_hooks "post-shutdown-hook-" 0 m.config.post_shutdown_hooks m ⨟ λ over.
      returns over none

  -- initiateShutdown
  unfoldable pub initiate_shutdown : ℕ → String → ShutdownManager → Outcome
  unfolding execute_hooks perform_graceful_shutdown conclude
  initiate_shutdown fuel reason m =
      if m.shutdown_started
      then returns m (some already_started)
      else let begun = record m {
        shutdown_started = true;
        shutdown_reason = reason;
        shutdown_time = answers.clock m.readings;
        readings = m.readings + 1;
      } in
        conclude (
          execute_hooks "pre-shutdown-hook-" 0 m.config.pre_shutdown_hooks begun
          ⨟ perform_graceful_shutdown fuel)
