-- ===== src/Apis/Leadership/Health.antt =====
-- What a LeadershipState says of the lease: the tests and the times agree with one another.
use spotalis.Common.{
  String, true, false, not, ◌≡◌, ◌≢◌, ◌↔◌, ap, ℤ, pos, arith, ◌<ℤ◌, List, [], ◌∷◌, ◌∙◌, ◌-ℤ◌, ◌≤◌,
  ◌^◌, ◌<◌, neg_part, pos_part,
}
use spotalis.Common.Time.{Time, since, sub_time}
use spotalis.Common.Words.{wrap64, ◌-i64◌}
use spotalis.Apis.Leadership.{
  LeadershipState, new_leadership_state, become_leader, step_down, renew_lease,
  update_leader_identity, is_healthy, get_health_status, should_step_down, is_lease_expired,
  needs_renewal, get_time_to_next_renewal, get_time_since_last_renewal,
}
use spotalis.Apis.Leadership.Runs.{
  Call, becomes_leader, steps_down, renews, learns_leader, run, make,
}

-- An instance is healthy exactly when it need not step down.
pub healthy-should_step_down :
    (now : Time) (l : LeadershipState) → is_healthy now l ≡ not (should_step_down now l)
unfolding is_healthy get_health_status should_step_down
healthy-should_step_down now l = ground arith

-- Every leader whose lease has expired has been told to step down by its own deadline.
expired_steps_down :
    (now : Time) (l : LeadershipState)
    → l.renew_deadline <ℤ l.lease_duration
    → l.is_leader ≡ true
    → is_lease_expired now l ≡ true
    → should_step_down now l ≡ true
unfolding is_lease_expired should_step_down
expired_steps_down now l h leads expired = ground arith

expired_needs_renewal :
    (now : Time) (l : LeadershipState)
    → l.retry_period <ℤ l.lease_duration
    → l.is_leader ≡ true
    → is_lease_expired now l ≡ true
    → needs_renewal now l ≡ true
unfolding is_lease_expired needs_renewal
expired_needs_renewal now l h leads expired = ground arith

-- The calls leave the three durations alone.
record SameTiming (l m : LeadershipState) : Type 0 where
  lease_same : l.lease_duration ≡ m.lease_duration
  deadline_same : l.renew_deadline ≡ m.renew_deadline
  retry_same : l.retry_period ≡ m.retry_period

make-SameTiming : (call : Call) (l : LeadershipState) → SameTiming (make call l) l
unfolding make become_leader step_down renew_lease update_leader_identity
make-SameTiming (becomes_leader now) l = ground arith
make-SameTiming (steps_down now) l = ground arith
make-SameTiming (renews now) l = ground arith
make-SameTiming (learns_leader identity now) l = ground arith

run-SameTiming : (calls : List Call) (l : LeadershipState) → SameTiming (run calls l) l
unfolding run
run-SameTiming [] l = ground arith
run-SameTiming (call ∷ calls) l =
    let first = make-SameTiming call l in
    let rest = run-SameTiming calls (make call l) in
    record {
      lease_same = rest.lease_same ∙ first.lease_same;
      deadline_same = rest.deadline_same ∙ first.deadline_same;
      retry_same = rest.retry_same ∙ first.retry_same;
    }

since_bound : (now u : Time) → neg_part (since now u) ≤ 2 ^ 63
unfolding sub_time
since_bound now u = ground arith

wrap_pos : (z : ℤ) → pos 0 <ℤ z → pos_part z < 2 ^ 64 → wrap64 z ≢ pos 0
unfolding wrap64
wrap_pos z h k = ground arith

-- A difference of two int64 values that is positive does not wrap around to zero.
gap_pos : (a b : ℤ) → b <ℤ a → pos_part a < 2 ^ 63 → neg_part b ≤ 2 ^ 63 → a -i64 b ≢ pos 0
unfolding ◌-ℤ◌
gap_pos a b h p q = wrap_pos (a -ℤ b) (ground arith) (ground arith)

module _ (now : Time) (l : LeadershipState) (leads : l.is_leader ≡ true) where
  time_to_renewal :
      pos_part l.retry_period < 2 ^ 63
      → (needs_renewal now l ≡ true) ↔ (get_time_to_next_renewal now l ≡ pos 0)
  unfolding needs_renewal get_time_to_next_renewal get_time_since_last_renewal
  time_to_renewal small = ground (
    arith,
    since_bound now l.renewed_at,
    gap_pos l.retry_period (pos 0),
    gap_pos l.retry_period (since now l.renewed_at),
  )

-- The state of an instance after some calls.
abbrev pub after : List Call → String → String → String → LeadershipState
after calls identity name namespace = run calls (new_leadership_state identity name namespace)

-- After any calls on a new state, a leader whose lease has expired is unhealthy, is to step down,
-- and has no time left to its next renewal.
pub run-lease :
    (calls : List Call) (identity name namespace : String) (now : Time)
    → (after calls identity name namespace).is_leader ≡ true
    → is_lease_expired now (after calls identity name namespace) ≡ true
    → (should_step_down now (after calls identity name namespace) ≡ true)
      × (is_healthy now (after calls identity name namespace) ≡ false)
      × (get_time_to_next_renewal now (after calls identity name namespace) ≡ pos 0)
unfolding new_leadership_state
run-lease calls identity name namespace now leads expired =
    let l = after calls identity name namespace in
    let same = run-SameTiming calls (new_leadership_state identity name namespace) in
    let early : l.renew_deadline <ℤ l.lease_duration =
      rw (same.deadline_same, same.lease_same) (omega arith) in
    let down = expired_steps_down now l early leads expired in
    let small : pos_part l.retry_period < 2 ^ 63 = rw same.retry_same (omega arith) in
    let soon : l.retry_period <ℤ l.lease_duration =
      rw (same.retry_same, same.lease_same) (omega arith) in
    let due = expired_needs_renewal now l soon leads expired in
    (down, healthy-should_step_down now l ∙ ap not down, (time_to_renewal now l leads small).0 due)
