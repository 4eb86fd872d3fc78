-- ===== src/Operator/Shutdown/Kept.antt =====
-- What the phases of a shutdown leave of the states of the components.
use spotalis.Common.{ℕ, zero, suc, String, Bool, true, false, not, Option, none, ◌≡◌, refl, ◌∙◌}
use Prim.{tt}
use spotalis.Operator.Shutdown.{
  ShutdownState, ShutdownManager, ShutdownConfig, Answers, Fires, timeout, done, tick, started,
  completed, update_component_state, update_component_state_with_error,
}
use spotalis.Operator.Shutdown.Phases.{
  Outcome, ◌⨾◌, ◌⨟◌, wait_for_new_leader, transfer_leadership, drain_connections, stop_controllers,
  finish_reconciliations, cleanup_resources, elector_leaves, when, take_round, leads, has_manager,
  reconciliation_wait_time,
}
use spotalis.Operator.Shutdown.States.{AllPass, update_again-AllPass}
use spotalis.Operator.Shutdown.Outcomes.{
  Leaves, Leaves-⨾, Leaves-⨟, Leaves-if, Leaves-option, Untouched, tell_health-Untouched,
  elector_leaves-Untouched, give_up_lease-Untouched, Untouched-trans, if-Untouched,
}

module _ (test : ShutdownState → Option String → Bool) (answers : Answers)
    (c : ShutdownConfig) where
  -- Every component passes, and the rest is as the shutdown began.
  pub record Kept (m : ShutdownManager) : Type 0 where
    pub passing : AllPass test answers m
    pub same_config : m.config ≡ c
    pub begun : m.shutdown_started ≡ true

  module _ (fine : test completed none ≡ true) where
    -- The end of a phase that has set its component to started, and then called something else.
    pub finishes :
        (name : String) (m between : ShutdownManager)
        → Untouched between (update_component_state answers name started m)
        → Kept m
        → Kept (update_component_state answers name completed between)
    unfolding update_component_state update_component_state_with_error
    finishes name m between same h = record {
      passing =
          update_again-AllPass test answers name completed none m between same.0 fine h.passing;
      same_config = same.1 ∙ h.same_config;
      begun = same.2 ∙ h.begun;
    }

    drain-Kept : (m : ShutdownManager) → Kept m → Leaves Kept (drain_connections answers m)
    unfolding drain_connections
    drain-Kept m h = finishes "connection-drain" m _ (refl, refl, refl) h

    controllers-Kept : (m : ShutdownManager) → Kept m → Leaves Kept (stop_controllers answers m)
    unfolding stop_controllers
    controllers-Kept m h = finishes "controllers" m _ (if-Untouched (has_manager answers m) _) h

    reconciliations-Kept :
        (m : ShutdownManager) → Kept m → Leaves Kept (finish_reconciliations answers m)
    unfolding finish_reconciliations
    reconciliations-Kept m h =
        let over = finishes "reconciliation" m _ (refl, refl, refl) h in
        Leaves-option Kept m.operator _ _ over λ operator.
          Leaves-if Kept (answers.passes (reconciliation_wait_time answers m.config)) _ _ over over

    cleanup-Kept : (m : ShutdownManager) → Kept m → Leaves Kept (cleanup_resources answers m)
    unfolding cleanup_resources
    cleanup-Kept m h =
        let over = finishes "cleanup" m _ (tell_health-Untouched _ _) h in
        Leaves-if Kept answers.done_at_cleanup _ _ over over

    round-Kept :
        (fires : Fires) (again : ShutdownManager → Outcome) (m between : ShutdownManager)
        → Untouched between (update_component_state answers "leader-election" started m)
        → Kept m
        → ((seen : ShutdownManager) → Untouched seen between → Leaves Kept (again seen))
        → Leaves Kept (take_round answers fires again between)
    unfolding take_round
    round-Kept timeout again m between same h k = finishes "leader-election" m between same h
    round-Kept done again m between same h k = finishes "leader-election" m between same h
    round-Kept (tick election) again m between same h k =
        let seen = elector_leaves answers election between in
        let kept = elector_leaves-Untouched answers election between in
        let begun = update_component_state answers "leader-election" started m in
        Leaves-if Kept (not election.is_leader) _ _
          (finishes "leader-election" m seen (Untouched-trans seen between begun kept same) h)
          (k seen kept)

    rounds-Kept :
        (fuel n : ℕ) (m between : ShutdownManager)
        → Untouched between (update_component_state answers "leader-election" started m)
        → Kept m
        → Leaves Kept (wait_for_new_leader answers fuel n between)
    unfolding wait_for_new_leader
    rounds-Kept zero n m between same h = tt
    rounds-Kept (suc fuel) n m between same h =
        let begun = update_component_state answers "leader-election" started m in
        round-Kept (answers.rounds n) (wait_for_new_leader answers fuel (suc n)) m between same h
          λ seen kept.
            rounds-Kept fuel (suc n) m seen (Untouched-trans seen between begun kept same) h

    transfer-Kept :
        (fuel : ℕ) (m : ShutdownManager) → Kept m → Leaves Kept (transfer_leadership answers fuel m)
    unfolding transfer_leadership
    transfer-Kept fuel m h =
        let over = finishes "leader-election" m _ (refl, refl, refl) h in
        Leaves-option Kept m.operator _ _ over λ operator.
          Leaves-if Kept (not (leads answers operator)) _ _ over
            (rounds-Kept fuel 0 m _ (give_up_lease-Untouched answers _) h)

    when-Kept :
        (on : Bool) (phase : ShutdownManager → Outcome) (m : ShutdownManager)
        → Kept m
        → Leaves Kept (phase m)
        → Leaves Kept (when answers on phase m)
    when-Kept true phase m h k = k
    when-Kept false phase m h k = h

    -- The phases after the first.
    pub later-Kept :
        (fuel : ℕ) (transfer drain finish : Bool) (m : ShutdownManager)
        → Kept m
        → Leaves Kept (
            when answers transfer (transfer_leadership answers fuel) m
            ⨟ when answers drain (drain_connections answers)
            ⨾ when answers finish (finish_reconciliations answers)
            ⨾ stop_controllers answers
            ⨾ cleanup_resources answers)
    later-Kept fuel transfer drain finish m h =
        Leaves-⨾ Kept _ _
          (Leaves-⨾ Kept _ _
            (Leaves-⨾ Kept _ _
              (Leaves-⨟ Kept _ _ (when-Kept transfer _ m h (transfer-Kept fuel m h))
                λ n k. when-Kept drain _ n k (drain-Kept n k))
              λ n k. when-Kept finish _ n k (reconciliations-Kept n k))
            controllers-Kept)
          cleanup-Kept
