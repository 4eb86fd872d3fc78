-- ===== src/Operator/Shutdown/Waiting.antt =====
-- The wait of transferLeadership for a new leader.
use spotalis.Common.{
  ℕ, zero, suc, ◌+◌, ◌<◌, true, none, some, ◌≡◌, ◌↔◌, refl, subst, sym, ◌∙◌, arith, Bool-cases, inl,
  inr,
}
use spotalis.Operator.LeaderElection.{LeaderElectionManager}
use spotalis.Operator.LeaderElection.Runs.{Reach, LeadsAlone, Reach-LeadsAlone}
use spotalis.Operator.Shutdown.{
  ShutdownManager, update_component_state, started, Operator, Answers, Fires, timeout, done, tick,
}
use spotalis.Operator.Shutdown.Phases.{
  Outcome, waits, take_round, wait_for_new_leader, transfer_leadership, elector_leaves, leads,
  give_up_lease,
}

-- A select that does not end the wait: a tick by which the instance still leads.
abbrev pub GoesOn : Fires → Type 0
GoesOn timeout = ⊥
GoesOn done = ⊥
GoesOn (tick election) = election.is_leader ≡ true

module _ (answers : Answers) where
  -- The loop goes on for as long as each select is a tick by which the instance still leads.
  round_on :
      (election : LeaderElectionManager) (again : ShutdownManager → Outcome) (m : ShutdownManager)
      → election.is_leader ≡ true
      → take_round answers (tick election) again m ≡ again (elector_leaves answers election m)
  unfolding take_round
  round_on election again m leads_on = ground arith

  round_over :
      (fires : Fires) (again : ShutdownManager → Outcome) (m : ShutdownManager)
      → take_round answers fires again m ≡ waits
      → GoesOn fires × ((n : ShutdownManager) × (again n ≡ waits))
  unfolding take_round
  round_over timeout again m h = cc
  round_over done again m h = cc
  round_over (tick election) again m h = elim (Bool-cases election.is_leader) [
    | inl leads_on ↦ (
      leads_on,
      (elector_leaves answers election m, sym (round_on election again m leads_on) ∙ h),
    )
    | inr follows ↦ cc (rw (take_round, follows) at h)
  ]

  round_again :
      (fires : Fires) (again : ShutdownManager → Outcome) (m : ShutdownManager)
      → GoesOn fires
      → (n : ShutdownManager) × (take_round answers fires again m ≡ again n)
  round_again timeout again m h = absurd h
  round_again done again m h = absurd h
  round_again (tick election) again m h =
      (elector_leaves answers election m, round_on election again m h)

  Waiting : ℕ → ℕ → ShutdownManager → Type 0
  Waiting fuel n m =
      (wait_for_new_leader answers fuel n m ≡ waits)
      ↔ ((j : ℕ) → j < fuel → GoesOn (answers.rounds (n + j)))

  waited_on :
      (fuel n : ℕ) (m : ShutdownManager)
      → ((k : ShutdownManager) → Waiting fuel (suc n) k)
      → wait_for_new_leader answers (suc fuel) n m ≡ waits
      → (j : ℕ) → j < suc fuel
      → GoesOn (answers.rounds (n + j))
  unfolding wait_for_new_leader Waiting
  waited_on fuel n m later h zero below =
      subst (λ k. GoesOn (answers.rounds k)) (omega arith) (round_over (answers.rounds n) _ m h).0
  waited_on fuel n m later h (suc j) below =
      let (k, still) = (round_over (answers.rounds n) _ m h).1 in
      subst (λ k. GoesOn (answers.rounds k)) (omega arith) ((later k).0 still j (omega arith))

  waits_on :
      (fuel n : ℕ) (m : ShutdownManager)
      → ((k : ShutdownManager) → Waiting fuel (suc n) k)
      → ((j : ℕ) → j < suc fuel → GoesOn (answers.rounds (n + j)))
      → wait_for_new_leader answers (suc fuel) n m ≡ waits
  unfolding wait_for_new_leader Waiting
  waits_on fuel n m later h =
      let first = subst (λ k. GoesOn (answers.rounds k)) (omega arith) (h 0 (omega arith)) in
      let (k, next) =
        round_again (answers.rounds n) (wait_for_new_leader answers fuel (suc n)) m first in
      next
      ∙ (later k).1
          λ j below. subst (λ k. GoesOn (answers.rounds k)) (omega arith) (h (suc j) (omega arith))

  wait_iff : (fuel n : ℕ) (m : ShutdownManager) → Waiting fuel n m
  unfolding wait_for_new_leader Waiting
  wait_iff zero n m = (λ h j below. absurd (omega arith), λ h. refl)
  wait_iff (suc fuel) n m =
      let later = wait_iff fuel (suc n) in (waited_on fuel n m later, waits_on fuel n m later)

  -- transferLeadership of a manager with an operator, on an instance that leads, goes on after as many rounds as the fuel exactly
  -- if each of them was a tick by which the instance still led: the timeout, the end of the context
  -- and a tick by which it leads no longer end it. On any other instance it returns.
  pub transfer_waits_iff :
      (fuel : ℕ) (m : ShutdownManager) (operator : Operator)
      → m.operator ≡ some operator
      → (transfer_leadership answers fuel m ≡ waits)
        ↔ ((leads answers operator ≡ true) × ((j : ℕ) → j < fuel → GoesOn (answers.rounds j)))
  unfolding transfer_leadership Waiting
  transfer_waits_iff fuel m operator is =
      let begun =
        give_up_lease answers (update_component_state answers "leader-election" started m) in
      let loop = wait_iff fuel 0 begun in
      elim (Bool-cases (leads answers operator)) [
        | inr follows ↦
            (λ h. cc (rw (transfer_leadership, is, follows) at h), λ p. cc (follows, p.0))
        | inl leads_on ↦ (
          λ h. (
            leads_on,
            λ j below.
                subst (λ k. GoesOn (answers.rounds k)) (omega arith)
                  (loop.0 (rw (transfer_leadership, is, leads_on) at h) j below),
          ),
          λ p.
              rw (transfer_leadership, is, leads_on)
                (loop.1
                  λ j below. subst (λ k. GoesOn (answers.rounds k)) (omega arith) (p.1 j below)),
        )
      ]

  -- An instance that leads while election is disabled cannot hand leadership over: if no more than
  -- the ticks fire, it waits on for as many rounds.
  pub alone_waits :
      (l : LeaderElectionManager) (fuel n : ℕ) (m : ShutdownManager)
      → LeadsAlone l
      → ((j : ℕ)
          → j < n + fuel
          → (e : LeaderElectionManager) × Reach l e × (answers.rounds j ≡ tick e))
      → wait_for_new_leader answers fuel n m ≡ waits
  unfolding wait_for_new_leader
  alone_waits l zero n m alone ticks = refl
  alone_waits l (suc fuel) n m alone ticks =
      let now = ticks n (omega arith) in
      let leads_on = (Reach-LeadsAlone none now.1 alone).0.leads_on in
      rw now.2 (
        round_on now.0 (wait_for_new_leader answers fuel (suc n)) m leads_on
        ∙ alone_waits l fuel (suc n) (elector_leaves answers now.0 m) alone
            λ j below. ticks j (omega arith))
