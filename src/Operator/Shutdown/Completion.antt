-- ===== src/Operator/Shutdown/Completion.antt =====
-- What IsCompleted and HasErrors tell after a shutdown.
use Prim.Native.String.{◌++◌}
use spotalis.Common.{
  ℕ, ◌+◌, String, Bool, true, false, not, ◌&&◌, Option, none, some, List, [], ◌∷◌, ◌≡◌, refl, ltb_ℤ,
  pos, All,
}
use Prim.{Unit, tt}
use spotalis.Server.Health.{set_not_ready}
use spotalis.Operator.Shutdown.{
  ShutdownState, ShutdownManager, ShutdownConfig, ShutdownHook, succeeds, hangs, fails, Answers,
  started, completed, failed, update_component_state,
}
use spotalis.Operator.Shutdown.Phases.{
  decimal, Outcome, returns, waits, execute_hooks, stop_new_requests, perform_graceful_shutdown,
  perform_force_shutdown, conclude, initiate_shutdown, tell_health,
}
use spotalis.Operator.Shutdown.States.{AllPass, update_again-AllPass}
use spotalis.Operator.Shutdown.Outcomes.{Leaves, Leaves-⨟, tell_health-Untouched}
use spotalis.Operator.Shutdown.Kept.{Kept, finishes, later-Kept}

-- The wait before the first phase is over is cut short by the end of the context.
abbrev pub is_cut_short : Answers → ShutdownConfig → Bool
is_cut_short answers c =
    ltb_ℤ (pos 0) c.pre_shutdown_delay && not (answers.passes c.pre_shutdown_delay)

-- A hook that succeeds, or fails in a way that passes.
abbrev pub IsFine : (ShutdownState → Option String → Bool) → ShutdownHook → Type 0
IsFine test succeeds = Unit
IsFine test hangs = Unit
IsFine test (fails message) = test failed (some message) ≡ true

module _ (test : ShutdownState → Option String → Bool) (answers : Answers) (c : ShutdownConfig)
    (fine : test completed none ≡ true) where
  pub hooks-Kept :
      (kind : String) (i : ℕ) (hooks : List ShutdownHook) (m : ShutdownManager)
      → All (IsFine test) hooks
      → Kept test answers c m
      → Leaves (Kept test answers c) (execute_hooks answers kind i hooks m)
  unfolding execute_hooks
  hooks-Kept kind i [] m all h = h
  hooks-Kept kind i (succeeds ∷ hooks) m all h =
      hooks-Kept kind (i + 1) hooks _ all.1
        (finishes test answers c fine _ m _ (refl, refl, refl) h)
  hooks-Kept kind i (hangs ∷ hooks) m all h = tt
  hooks-Kept kind i (fails message ∷ hooks) m all h =
      let name = kind ++ decimal (i + 1) i in
      let begun = update_component_state answers name started m in
      record {
        passing =
            update_again-AllPass test answers name failed (some message) m begun refl all.0
              h.passing;
        same_config = h.same_config;
        begun = h.begun;
      }

  stop-Kept :
      (m : ShutdownManager)
      → is_cut_short answers m.config ≡ false
      → Kept test answers c m
      → (next : ShutdownManager) × (stop_new_requests answers m ≡ returns next none)
        × Kept test answers c next
  unfolding stop_new_requests
  stop-Kept m on_time h =
      let begun = update_component_state answers "http-server" started m in
      let told = tell_health (set_not_ready "shutting down") begun in
      let over = update_component_state answers "http-server" completed told in
      (
        over,
        rw on_time refl,
        finishes test answers c fine "http-server" m told (tell_health-Untouched _ begun) h,
      )

  graceful-Kept :
      (fuel : ℕ) (m : ShutdownManager)
      → is_cut_short answers c ≡ false
      → Kept test answers c m
      → Leaves (Kept test answers c) (perform_graceful_shutdown answers fuel m)
  unfolding perform_graceful_shutdown
  graceful-Kept fuel m on_time h =
      let stopped = stop-Kept m (rw h.same_config on_time) h in
      rw stopped.1 (later-Kept test answers c fine fuel _ _ _ stopped.0 stopped.2)

  conclude-Kept :
      (outcome : Outcome)
      → All (IsFine test) c.post_shutdown_hooks
      → Leaves (Kept test answers c) outcome
      → Leaves (Kept test answers c) (conclude answers outcome)
  unfolding conclude perform_force_shutdown
  conclude-Kept waits post h = tt
  conclude-Kept (returns m (some error)) post h = record {
    passing = h.passing;
    same_config = h.same_config;
    begun = h.begun;
  }
  conclude-Kept (returns m none) post h =
      let hooks : All (IsFine test) m.config.post_shutdown_hooks = rw h.same_config post in
      Leaves-⨟ (Kept test answers c) _ _
        (hooks-Kept "post-shutdown-hook-" 0 m.config.post_shutdown_hooks m hooks h) λ n k. k

  -- Where the first wait is not cut short and each hook is fine, every component passes in the end.
  pub initiate-Kept :
      (fuel : ℕ) (reason : String) (m : ShutdownManager)
      → m.shutdown_started ≡ false
      → m.config ≡ c
      → AllPass test answers m
      → is_cut_short answers c ≡ false
      → All (IsFine test) c.pre_shutdown_hooks
      → All (IsFine test) c.post_shutdown_hooks
      → Leaves (Kept test answers c) (initiate_shutdown answers fuel reason m)
  unfolding initiate_shutdown
  initiate-Kept fuel reason m fresh same passing on_time pre post =
      let hooks : All (IsFine test) m.config.pre_shutdown_hooks = rw same pre in
      rw fresh (
        conclude-Kept _ post (
          Leaves-⨟ (Kept test answers c) _ _
            (hooks-Kept "pre-shutdown-hook-" 0 m.config.pre_shutdown_hooks _ hooks
              (record { passing = passing; same_config = same; begun = refl }))
            (λ n k. graceful-Kept fuel n on_time k)))
