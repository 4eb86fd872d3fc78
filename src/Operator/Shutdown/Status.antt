-- ===== src/Operator/Shutdown/Status.antt =====
-- ShutdownStatus after initiateShutdown has returned.
use spotalis.Common.{
  ℕ, String, Bool, true, false, not, ◌&&◌, Option, none, some, List, [], ◌∷◌, ◌≡◌, refl, ◌∙◌, ap,
  subst, arith, Bool-cases, inl, inr, All,
}
use Prim.{Unit, tt}
use spotalis.Server.Health.{set_not_ready}
use spotalis.Operator.Shutdown.{
  ShutdownState, ShutdownManager, ShutdownConfig, ShutdownHook, succeeds, hangs, fails,
  ShutdownError, Answers, context_done, started, completed, update_component_state, is_completed,
  has_errors, get_shutdown_status, is_settled, is_clean, is_final, all_entries, is_failed,
  already_started,
}
use spotalis.Operator.Shutdown.Phases.{
  Outcome, returns, waits, ◌⨟◌, stop_new_requests, perform_graceful_shutdown,
  perform_force_shutdown, conclude, initiate_shutdown, tell_health,
}
use spotalis.Operator.Shutdown.States.{AllPass, all_entries-update}
use spotalis.Operator.Shutdown.Outcomes.{Leaves, tell_health-Untouched}
use spotalis.Operator.Shutdown.Kept.{Kept}
use spotalis.Operator.Shutdown.Completion.{is_cut_short, IsFine, hooks-Kept, initiate-Kept}

abbrev settled : ShutdownState → Option String → Bool
settled state error = is_final state

-- The entry of the HTTP server has been left as started.
record Stuck (m : ShutdownManager) : Type 0 where
  open_entry : all_entries is_settled m.component_states ≡ false
  on : m.shutdown_started ≡ true

-- Every hook is fine for IsCompleted, since a failed one is over.
any_hook : (hooks : List ShutdownHook) → All (IsFine settled) hooks
unfolding is_final
any_hook [] = tt
any_hook (succeeds ∷ hooks) = (tt, any_hook hooks)
any_hook (hangs ∷ hooks) = (tt, any_hook hooks)
any_hook (fails message ∷ hooks) = (refl, any_hook hooks)

settled_fine : settled completed none ≡ true
unfolding is_final
settled_fine = refl

-- A call that ends with an error, and leaves the entry of the HTTP server as started.
abbrev Fails : Outcome → Type 0
Fails (returns m none) = ⊥
Fails (returns m (some error)) = Stuck m
Fails waits = Unit

stop-Fails :
    (answers : Answers) (c : ShutdownConfig) (m : ShutdownManager)
    → is_cut_short answers m.config ≡ true
    → Kept settled answers c m
    → (next : ShutdownManager) × (stop_new_requests answers m ≡ returns next (some context_done))
      × Stuck next
unfolding stop_new_requests update_component_state is_settled
stop-Fails answers c m late h =
    let begun = update_component_state answers "http-server" started m in
    let told = tell_health (set_not_ready "shutting down") begun in
    let same = tell_health-Untouched (set_not_ready "shutting down") begun in
    let entry : all_entries is_settled begun.component_states ≡ false =
      all_entries-update settled answers "http-server" started none m in
    (
      told,
      rw late refl,
      record { open_entry = ap (all_entries is_settled) same.0 ∙ entry; on = same.2 ∙ h.begun },
    )

graceful-Fails :
    (answers : Answers) (c : ShutdownConfig) (fuel : ℕ) (m : ShutdownManager)
    → is_cut_short answers c ≡ true
    → Kept settled answers c m
    → Fails (perform_graceful_shutdown answers fuel m)
unfolding perform_graceful_shutdown
graceful-Fails answers c fuel m late h =
    let stopped = stop-Fails answers c m (rw h.same_config late) h in rw stopped.1 stopped.2

Fails-⨟ :
    (P : ShutdownManager → Type 0) (first : Outcome) (rest : ShutdownManager → Outcome)
    → Leaves P first
    → ((m : ShutdownManager) → P m → Fails (rest m))
    → Fails (first ⨟ rest)
Fails-⨟ P (returns m error) rest h k = k m h
Fails-⨟ P waits rest h k = tt

conclude-Stuck :
    (answers : Answers) (outcome : Outcome)
    → Fails outcome
    → Leaves Stuck (conclude answers outcome)
unfolding conclude perform_force_shutdown
conclude-Stuck answers waits h = tt
conclude-Stuck answers (returns m none) h = absurd h
conclude-Stuck answers (returns m (some error)) h = record { open_entry = h.open_entry; on = h.on }

-- What HasErrors looks for: a failed state, or an error.
abbrev clean : ShutdownState → Option String → Bool
clean state error = not (is_failed state) && elim error [ none ↦ true | some _ ↦ false ]

clean_fine : clean completed none ≡ true
unfolding is_failed
clean_fine = refl

no_hook :
    (hooks : List ShutdownHook) → All (λ hook. hook ≡ succeeds) hooks → All (IsFine clean) hooks
no_hook [] h = tt
no_hook (succeeds ∷ hooks) h = (tt, no_hook hooks h.1)
no_hook (hangs ∷ hooks) h = absurd (cc)
no_hook (fails message ∷ hooks) h = absurd (cc)

of-not : (b : Bool) → not b ≡ false → b ≡ true
of-not b h = ground arith

module _ (answers : Answers) (fuel : ℕ) (reason : String) (m : ShutdownManager)
    (fresh : m.shutdown_started ≡ false) (over : AllPass settled answers m) where
  initiate-Stuck :
      is_cut_short answers m.config ≡ true → Leaves Stuck (initiate_shutdown answers fuel reason m)
  unfolding initiate_shutdown
  initiate-Stuck late = rw fresh (
      conclude-Stuck answers _ (
        Fails-⨟ (Kept settled answers m.config) _ _
          (hooks-Kept settled answers m.config settled_fine "pre-shutdown-hook-" 0
            m.config.pre_shutdown_hooks _ (any_hook m.config.pre_shutdown_hooks)
            (record { passing = over; same_config = refl; begun = refl }))
          (λ n k. graceful-Fails answers m.config fuel n late k)))

  returned-Kept :
      {n : ShutdownManager} {error : Option ShutdownError}
      → is_cut_short answers m.config ≡ false
      → initiate_shutdown answers fuel reason m ≡ returns n error
      → Kept settled answers m.config n
  returned-Kept on_time returned = subst (Leaves (Kept settled answers m.config)) returned (
      initiate-Kept settled answers m.config settled_fine fuel reason m fresh refl over on_time
        (any_hook m.config.pre_shutdown_hooks) (any_hook m.config.post_shutdown_hooks))

  stays_on :
      {n : ShutdownManager} {error : Option ShutdownError}
      → initiate_shutdown answers fuel reason m ≡ returns n error
      → n.shutdown_started ≡ true
  stays_on {n} returned = elim (Bool-cases (is_cut_short answers m.config)) [
    | inl late ↦
        let stuck : Stuck n = subst (Leaves Stuck) returned (initiate-Stuck late) in stuck.on
    | inr on_time ↦ (returned-Kept on_time returned).begun
  ]

  -- When a first shutdown has returned, IsCompleted tells so exactly when the wait for the load
  -- balancers was not cut short by the end of the context, whatever the hooks and the other phases
  -- did.
  pub initiate-is_completed :
      {n : ShutdownManager} {error : Option ShutdownError}
      → initiate_shutdown answers fuel reason m ≡ returns n error
      → is_completed (get_shutdown_status n) ≡ not (is_cut_short answers m.config)
  unfolding is_completed get_shutdown_status is_settled
  initiate-is_completed {n} returned = elim (Bool-cases (is_cut_short answers m.config)) [
    | inl late ↦
        let stuck : Stuck n = subst (Leaves Stuck) returned (initiate-Stuck late) in
        rw (late, stuck.on, stuck.open_entry) refl
    | inr on_time ↦
        let kept = returned-Kept on_time returned in rw (on_time, kept.begun, kept.passing) refl
  ]

  -- When a first shutdown has returned, every later one is refused, and changes nothing.
  pub initiate-initiate :
      {n : ShutdownManager} {error : Option ShutdownError} (later : Answers) (more : ℕ)
      (other_reason : String)
      → initiate_shutdown answers fuel reason m ≡ returns n error
      → initiate_shutdown later more other_reason n ≡ returns n (some already_started)
  unfolding initiate_shutdown
  initiate-initiate {n} later more other_reason returned =
      let on : n.shutdown_started ≡ true = stays_on returned in rw on refl

-- Where every hook succeeds and the wait is not cut short, HasErrors tells of no error, although a phase
-- may have failed and the shutdown have been forced.
pub initiate-has_errors :
    (answers : Answers) (fuel : ℕ) (reason : String) (m n : ShutdownManager)
    (error : Option ShutdownError)
    → m.shutdown_started ≡ false
    → has_errors (get_shutdown_status m) ≡ false
    → is_cut_short answers m.config ≡ false
    → All (λ hook. hook ≡ succeeds) m.config.pre_shutdown_hooks
    → All (λ hook. hook ≡ succeeds) m.config.post_shutdown_hooks
    → initiate_shutdown answers fuel reason m ≡ returns n error
    → has_errors (get_shutdown_status n) ≡ false
unfolding has_errors get_shutdown_status is_clean
initiate-has_errors answers fuel reason m n error fresh clear on_time pre post returned =
    let no_errors : AllPass clean answers m = of-not _ clear in
    let kept : Kept clean answers m.config n =
      subst (Leaves (Kept clean answers m.config)) returned (
        initiate-Kept clean answers m.config clean_fine fuel reason m fresh refl no_errors on_time
          (no_hook m.config.pre_shutdown_hooks pre) (no_hook m.config.post_shutdown_hooks post)) in
    ap not kept.passing
