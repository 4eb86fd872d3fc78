-- ===== src/Operator/Shutdown/Returns.antt =====
-- That a shutdown ends.
use spotalis.Common.{
  ℕ, zero, suc, ◌+◌, ◌<◌, ◌≤◌, String, Bool, true, false, not, if◌then◌else◌, Option, none, some,
  List, [], ◌∷◌, ◌≡◌, refl, subst, sym, All, ◌∙◌, arith, Bool-cases, inl, inr, ◌==◌,
}
use Prim.{Unit}
use spotalis.Operator.Shutdown.{
  ShutdownManager, update_component_state, update_component_state_with_error, ShutdownError,
  ShutdownHook, succeeds, hangs, fails, ShutdownConfig, Answers, Fires, timeout, done, tick,
}
use spotalis.Operator.Shutdown.Phases.{
  Outcome, returns, waits, ◌⨾◌, ◌⨟◌, execute_hooks, stop_new_requests, take_round,
  wait_for_new_leader, transfer_leadership, drain_connections, stop_controllers,
  finish_reconciliations, elector_leaves, cleanup_resources, perform_graceful_shutdown,
  perform_force_shutdown, conclude, initiate_shutdown, when, leads, has_manager,
  reconciliation_wait_time,
}
use spotalis.Operator.Shutdown.Outcomes.{
  tell_health-Untouched, elector_leaves-Untouched, give_up_lease-Untouched, if-Untouched,
}
use spotalis.Operator.Shutdown.Completion.{is_cut_short}

-- A call that has returned, and left the settings as they are.
abbrev IsReturn : ShutdownConfig → Outcome → Type 0
IsReturn c (returns m error) = m.config ≡ c
IsReturn c waits = ⊥

-- A phase that returns.
abbrev Returning : ShutdownConfig → (ShutdownManager → Outcome) → Type 0
Returning c phase = (m : ShutdownManager) → m.config ≡ c → IsReturn c (phase m)

-- A call of a hook that returns.
abbrev pub HookReturns : ShutdownHook → Type 0
HookReturns succeeds = Unit {0}
HookReturns hangs = ⊥
HookReturns (fails message) = Unit {0}

-- A select that ends the wait for a new leader: the timeout, the end of the context, or a tick by
-- which the instance leads no longer.
abbrev pub EndsWait : Fires → Type 0
EndsWait timeout = Unit {0}
EndsWait done = Unit {0}
EndsWait (tick election) = election.is_leader ≡ false

module _ (c : ShutdownConfig) where
  IsReturn-⨾ :
      (first : Outcome) (rest : ShutdownManager → Outcome)
      → IsReturn c first
      → Returning c rest
      → IsReturn c (first ⨾ rest)
  IsReturn-⨾ (returns m none) rest h k = k m h
  IsReturn-⨾ (returns m (some error)) rest h k = h
  IsReturn-⨾ waits rest h k = h

  IsReturn-⨟ :
      (first : Outcome) (rest : ShutdownManager → Outcome)
      → IsReturn c first
      → Returning c rest
      → IsReturn c (first ⨟ rest)
  IsReturn-⨟ (returns m error) rest h k = k m h
  IsReturn-⨟ waits rest h k = h

  IsReturn-if :
      (b : Bool) (then_case else_case : Outcome)
      → IsReturn c then_case
      → IsReturn c else_case
      → IsReturn c (if b then then_case else else_case)
  IsReturn-if true then_case else_case h k = h
  IsReturn-if false then_case else_case h k = k

  IsReturn-then :
      (b : Bool) (then_case else_case : Outcome)
      → b ≡ true
      → IsReturn c then_case
      → IsReturn c (if b then then_case else else_case)
  IsReturn-then true then_case else_case e h = h
  IsReturn-then false then_case else_case e h = cc

  IsReturn-option {ℓ} :
      {A : Type ℓ} (o : Option A) (nothing : Outcome) (just : A → Outcome)
      → IsReturn c nothing
      → ((a : A) → IsReturn c (just a))
      → IsReturn c (elim o [ none ↦ nothing | some a ↦ just a ])
  IsReturn-option none nothing just h k = h
  IsReturn-option (some a) nothing just h k = k a

module _ (answers : Answers) where
  module _ (c : ShutdownConfig) where
    ends-IsReturn :
        (fires : Fires) (again : ShutdownManager → Outcome) (m : ShutdownManager)
        → EndsWait fires
        → m.config ≡ c
        → IsReturn c (take_round answers fires again m)
    unfolding take_round update_component_state update_component_state_with_error
    ends-IsReturn timeout again m e h = h
    ends-IsReturn done again m e h = h
    ends-IsReturn (tick election) again m e h =
        IsReturn-then c (not election.is_leader) _ _ (ground arith)
          ((elector_leaves-Untouched answers election m).1 ∙ h)

    round-IsReturn :
        (fires : Fires) (again : ShutdownManager → Outcome) (m : ShutdownManager)
        → m.config ≡ c
        → Returning c again
        → IsReturn c (take_round answers fires again m)
    unfolding take_round update_component_state update_component_state_with_error
    round-IsReturn timeout again m h k = h
    round-IsReturn done again m h k = h
    round-IsReturn (tick election) again m h k =
        let same = (elector_leaves-Untouched answers election m).1 ∙ h in
        IsReturn-if c (not election.is_leader) _ _ same (k (elector_leaves answers election m) same)

    module _ (last : ℕ) (ends : EndsWait (answers.rounds last)) where
      rounds-IsReturn :
          (fuel n : ℕ) (m : ShutdownManager)
          → m.config ≡ c
          → n ≤ last
          → last < n + fuel
          → IsReturn c (wait_for_new_leader answers fuel n m)
      unfolding wait_for_new_leader
      rounds-IsReturn zero n m same h k = absurd (omega arith)
      rounds-IsReturn (suc fuel) n m same h k = elim (Bool-cases (n == last)) [
        | inl here ↦
            let e : n ≡ last = ground arith in
            ends-IsReturn (answers.rounds n) _ m
              (subst (λ k. EndsWait (answers.rounds k)) (sym e) ends) same
        | inr before ↦
            round-IsReturn (answers.rounds n) _ m same
              λ seen kept. rounds-IsReturn fuel (suc n) seen kept (ground arith) (omega arith)
      ]

      transfer-IsReturn : (fuel : ℕ) → last < fuel → Returning c (transfer_leadership answers fuel)
      unfolding transfer_leadership update_component_state update_component_state_with_error
      transfer-IsReturn fuel h m same = IsReturn-option c m.operator _ _ same λ operator.
          IsReturn-if c (not (leads answers operator)) _ _ same (
            rounds-IsReturn fuel 0 _ ((give_up_lease-Untouched answers _).1 ∙ same) (omega arith)
              (omega arith))

    hooks-IsReturn :
        (kind : String) (i : ℕ) (hooks : List ShutdownHook) (m : ShutdownManager)
        → All HookReturns hooks
        → m.config ≡ c
        → IsReturn c (execute_hooks answers kind i hooks m)
    unfolding execute_hooks update_component_state update_component_state_with_error
    hooks-IsReturn kind i [] m all h = h
    hooks-IsReturn kind i (succeeds ∷ hooks) m (_, all) h =
        hooks-IsReturn kind (i + 1) hooks _ all h
    hooks-IsReturn kind i (hangs ∷ hooks) m (e, all) h = absurd e
    hooks-IsReturn kind i (fails message ∷ hooks) m all h = h

    stop-IsReturn : Returning c (stop_new_requests answers)
    unfolding stop_new_requests update_component_state update_component_state_with_error
    stop-IsReturn m h =
        let same = (tell_health-Untouched _ _).1 ∙ h in
        IsReturn-if c (is_cut_short answers m.config) _ _ same same

    finish-IsReturn : Returning c (finish_reconciliations answers)
    unfolding finish_reconciliations update_component_state update_component_state_with_error
    finish-IsReturn m h = IsReturn-option c m.operator _ _ h λ operator.
        IsReturn-if c (answers.passes (reconciliation_wait_time answers m.config)) _ _ h h

    cleanup-IsReturn : Returning c (cleanup_resources answers)
    unfolding cleanup_resources update_component_state update_component_state_with_error
    cleanup-IsReturn m h =
        let same = (tell_health-Untouched _ _).1 ∙ h in
        IsReturn-if c answers.done_at_cleanup _ _ same same

    drain-IsReturn : Returning c (drain_connections answers)
    unfolding drain_connections update_component_state update_component_state_with_error
    drain-IsReturn m h = h

    controllers-IsReturn : Returning c (stop_controllers answers)
    unfolding stop_controllers update_component_state update_component_state_with_error
    controllers-IsReturn m h = (if-Untouched (has_manager answers m) _).1 ∙ h

    when-IsReturn :
        (on : Bool) (phase : ShutdownManager → Outcome)
        → Returning c phase
        → Returning c (when answers on phase)
    when-IsReturn true phase h m same = h m same
    when-IsReturn false phase h m same = same

    conclude-IsReturn :
        (outcome : Outcome)
        → All HookReturns c.post_shutdown_hooks
        → IsReturn c outcome
        → IsReturn c (conclude answers outcome)
    unfolding conclude perform_force_shutdown
    conclude-IsReturn (returns m none) post h =
        IsReturn-⨟ c _ _
          (hooks-IsReturn "post-shutdown-hook-" 0 m.config.post_shutdown_hooks m (rw h post) h)
          (λ n same. same)
    conclude-IsReturn (returns m (some error)) post h = h
    conclude-IsReturn waits post h = h

    -- The phases after the first.
    later-IsReturn :
        (fuel last : ℕ) (transfer drain finish : Bool)
        → EndsWait (answers.rounds last)
        → last < fuel
        → Returning c λ m.
          when answers transfer (transfer_leadership answers fuel) m
          ⨟ when answers drain (drain_connections answers)
          ⨾ when answers finish (finish_reconciliations answers)
          ⨾ stop_controllers answers
          ⨾ cleanup_resources answers
    later-IsReturn fuel last transfer drain finish ends h m same =
        let draining = when answers drain (drain_connections answers) in
        let finishing = when answers finish (finish_reconciliations answers) in
        let transferred = when answers transfer (transfer_leadership answers fuel) m in
        let drained = transferred ⨟ draining in
        let finished = drained ⨾ finishing in
        let stopped = finished ⨾ stop_controllers answers in
        IsReturn-⨾ c stopped (cleanup_resources answers)
          (IsReturn-⨾ c finished (stop_controllers answers)
            (IsReturn-⨾ c drained finishing
              (IsReturn-⨟ c transferred draining
                (when-IsReturn transfer (transfer_leadership answers fuel)
                  (transfer-IsReturn last ends fuel h) m same)
                (when-IsReturn drain (drain_connections answers) drain-IsReturn))
              (when-IsReturn finish (finish_reconciliations answers) finish-IsReturn))
            controllers-IsReturn)
          cleanup-IsReturn

    graceful-IsReturn :
        (fuel last : ℕ)
        → EndsWait (answers.rounds last)
        → last < fuel
        → Returning c (perform_graceful_shutdown answers fuel)
    unfolding perform_graceful_shutdown
    graceful-IsReturn fuel last ends h m same =
        IsReturn-⨾ c (stop_new_requests answers m) _ (stop-IsReturn m same)
          λ stopped kept. later-IsReturn fuel last _ _ _ ends h stopped kept

  returned :
      (c : ShutdownConfig) (outcome : Outcome)
      → IsReturn c outcome
      → (n : ShutdownManager) × (error : Option ShutdownError) × (outcome ≡ returns n error)
  returned c (returns n error) h = (n, error, refl)
  returned c waits h = absurd h

  -- Where each hook returns and some round ends the wait for a new leader, a shutdown returns with
  -- any fuel above that round.
  pub initiate_returns :
      (fuel last : ℕ) (reason : String) (m : ShutdownManager)
      → All HookReturns m.config.pre_shutdown_hooks
      → All HookReturns m.config.post_shutdown_hooks
      → EndsWait (answers.rounds last)
      → last < fuel
      → (n : ShutdownManager) × (error : Option ShutdownError) × (initiate_shutdown answers fuel
            reason m
          ≡ returns n error)
  unfolding initiate_shutdown
  initiate_returns fuel last reason m pre post ends h =
      let c = m.config in
      returned c _ (
        IsReturn-if c m.shutdown_started _ _ refl (
          conclude-IsReturn c _ post (
            IsReturn-⨟ c _ (perform_graceful_shutdown answers fuel)
              (hooks-IsReturn c "pre-shutdown-hook-" 0 m.config.pre_shutdown_hooks _ pre refl)
              (graceful-IsReturn c fuel last ends h))))
