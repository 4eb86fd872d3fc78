-- ===== src/Apis/ReplicaState/Actions.antt =====
-- The next action of pkg/apis/replica_state.go, and what repeating it reaches.
use spotalis.Common.{
  ◌∙◌, ℕ, zero, suc, ◌+◌, ◌-◌, ◌^◌, ◌≤◌, ◌<◌, ◌≡◌, ◌↔◌, refl, false, inl, inr, ◌⊎◌, arith, pos,
  pos_part, ◌+ℤ◌, ◌-ℤ◌, ◌≤ℤ◌, ◌<ℤ◌,
}
use spotalis.Common.Words.{wrap32, wrap32_id}
use spotalis.Apis.ReplicaState.{
  ReplicaState, ReplicaAction, no_action, scale_up_on_demand, scale_up_spot, scale_down_on_demand,
  scale_down_spot, migrate_to_spot, migrate_to_on_demand, get_next_action, needs_reconciliation,
  update_current_state,
}

-- Counts that a workload can have: none is negative, the targets add up to the total, and the sums
-- fit 32 bits.
pub record IsConsistent (r : ReplicaState) : Type 0 where
  pub on_demand_nonneg : pos 0 ≤ℤ r.current_on_demand
  pub spot_nonneg : pos 0 ≤ℤ r.current_spot
  pub target_on_demand_nonneg : pos 0 ≤ℤ r.desired_on_demand
  pub target_spot_nonneg : pos 0 ≤ℤ r.desired_spot
  pub total_lem : pos_part r.desired_on_demand + pos_part r.desired_spot ≡ pos_part r.total_replicas
  pub total_nonneg : pos 0 ≤ℤ r.total_replicas
  pub total_small : pos_part r.total_replicas < 2 ^ 31
  pub current_small : pos_part r.current_on_demand + pos_part r.current_spot < 2 ^ 31

-- The number of current replicas.
abbrev pub current : ReplicaState → ℕ
current r = pos_part r.current_on_demand + pos_part r.current_spot

current_exact :
    (r : ReplicaState)
    → IsConsistent r
    → wrap32 (r.current_on_demand +ℤ r.current_spot)
      ≡ pos (pos_part r.current_on_demand + pos_part r.current_spot)
unfolding ◌+ℤ◌
current_exact r h = ground (arith, wrap32_id (r.current_on_demand +ℤ r.current_spot))

-- Nothing is left to do exactly when the action is `no_action`.
pub get_next_action-none :
    (r : ReplicaState)
    → IsConsistent r
    → (get_next_action r ≡ no_action) ↔ (needs_reconciliation r ≡ false)
unfolding get_next_action
get_next_action-none r h = (ground (arith, current_exact r h), ground (arith, current_exact r h))

-- What the counts must show for an action.
abbrev pub Warranted : ReplicaAction → ReplicaState → Type 0
Warranted no_action r =
    (r.current_on_demand ≡ r.desired_on_demand) × (r.current_spot ≡ r.desired_spot)
Warranted scale_up_on_demand r =
    (r.current_on_demand <ℤ r.desired_on_demand) × (current r < pos_part r.total_replicas)
Warranted scale_up_spot r =
    (r.current_spot <ℤ r.desired_spot) × (current r < pos_part r.total_replicas)
Warranted scale_down_on_demand r =
    (r.desired_on_demand <ℤ r.current_on_demand) × (pos_part r.total_replicas < current r)
Warranted scale_down_spot r =
    (r.desired_spot <ℤ r.current_spot) × (pos_part r.total_replicas < current r)
Warranted migrate_to_spot r =
    (r.desired_on_demand <ℤ r.current_on_demand) × (r.current_spot <ℤ r.desired_spot)
Warranted migrate_to_on_demand r =
    (r.desired_spot <ℤ r.current_spot) × (r.current_on_demand <ℤ r.desired_on_demand)

-- The action is one that the counts call for: a kind is scaled up only below its target and below
-- the total, scaled down only above both, moved only from an excess to a deficit, and left alone
-- only when both kinds are at their targets.
pub get_next_action-Warranted :
    (r : ReplicaState) → IsConsistent r → Warranted (get_next_action r) r
unfolding get_next_action
get_next_action-Warranted r h = ground (arith, current_exact r h)

-- The effect that an action asks for: one replica more or less, or one moved.
pub perform : ReplicaAction → ReplicaState → ReplicaState
unfolding update_current_state
perform no_action r = r
perform scale_up_on_demand r = update_current_state r (r.current_on_demand +ℤ pos 1) r.current_spot
perform scale_up_spot r = update_current_state r r.current_on_demand (r.current_spot +ℤ pos 1)
perform scale_down_on_demand r =
    update_current_state r (r.current_on_demand -ℤ pos 1) r.current_spot
perform scale_down_spot r = update_current_state r r.current_on_demand (r.current_spot -ℤ pos 1)
perform migrate_to_spot r =
    update_current_state r (r.current_on_demand -ℤ pos 1) (r.current_spot +ℤ pos 1)
perform migrate_to_on_demand r =
    update_current_state r (r.current_on_demand +ℤ pos 1) (r.current_spot -ℤ pos 1)

-- How many replicas are missing or in excess, of both kinds.
unfoldable pub distance : ReplicaState → ℕ
distance r =
    (pos_part r.current_on_demand - pos_part r.desired_on_demand)
    + (pos_part r.desired_on_demand - pos_part r.current_on_demand)
    + (pos_part r.current_spot - pos_part r.desired_spot)
    + (pos_part r.desired_spot - pos_part r.current_spot)

-- The reconciliations that follow one another, n of them.
pub reconcile : ℕ → ReplicaState → ReplicaState
reconcile zero r = r
reconcile (suc n) r = reconcile n (perform (get_next_action r) r)

perform-IsConsistent :
    (a : ReplicaAction) (r : ReplicaState)
    → IsConsistent r
    → Warranted a r
    → IsConsistent (perform a r)
unfolding perform ◌+ℤ◌ ◌-ℤ◌
perform-IsConsistent no_action r h w = h
perform-IsConsistent _ r h w = ground arith

distance-perform :
    (a : ReplicaAction) (r : ReplicaState)
    → IsConsistent r
    → Warranted a r
    → (distance (perform a r) < distance r) ⊎ (distance r ≡ 0)
unfolding perform distance ◌+ℤ◌ ◌-ℤ◌
distance-perform no_action r h w = ground arith
distance-perform _ r h w = ground arith

at_target : (r : ReplicaState) → IsConsistent r → distance r ≡ 0 → get_next_action r ≡ no_action
unfolding distance needs_reconciliation
at_target r h there = (get_next_action-none r h).1 (ground arith)

perform_keeps :
    (a : ReplicaAction) (r : ReplicaState)
    → ((perform a r).desired_on_demand ≡ r.desired_on_demand)
      × ((perform a r).desired_spot ≡ r.desired_spot)
      × ((perform a r).total_replicas ≡ r.total_replicas)
unfolding perform
perform_keeps no_action r = (refl, refl, refl)
perform_keeps _ r = (refl, refl, refl)

-- One reconciliation less is left after each.
distance-step :
    (r : ReplicaState) (n : ℕ)
    → IsConsistent r
    → distance r ≤ suc n
    → distance (perform (get_next_action r) r) ≤ n
unfolding perform
distance-step r n h le = elim (distance-perform _ r h (get_next_action-Warranted r h)) [
  | inl less ↦ omega arith
  | inr there ↦ rw (at_target r h there, perform) (omega arith)
]

needs_nothing :
    (r : ReplicaState) → IsConsistent r → distance r ≤ 0 → needs_reconciliation r ≡ false
unfolding distance needs_reconciliation
needs_nothing r h le = ground arith

-- Repeated actions bring every consistent state to its targets, in as many steps as the distance
-- from them, and change neither the targets nor the total.
pub reconcile_converges :
    (n : ℕ) (r : ReplicaState)
    → IsConsistent r
    → distance r ≤ n
    → let r' = reconcile n r in
      (needs_reconciliation r' ≡ false)
      × (r'.desired_on_demand ≡ r.desired_on_demand)
      × (r'.desired_spot ≡ r.desired_spot)
      × (r'.total_replicas ≡ r.total_replicas)
unfolding reconcile
reconcile_converges zero r h le = (needs_nothing r h le, refl, refl, refl)
reconcile_converges (suc n) r h le =
    let a = get_next_action r in
    let done =
      reconcile_converges n (perform a r)
        (perform-IsConsistent a r h (get_next_action-Warranted r h)) (distance-step r n h le) in
    let kept = perform_keeps a r in (done.0, done.1 ∙ kept.0, done.2 ∙ kept.1, done.3 ∙ kept.2)
