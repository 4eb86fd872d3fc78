-- ===== src/Apis/Leadership/Runs.antt =====
-- Sequences of the calls that change a LeadershipState: the count of transitions.
use spotalis.Common.{
  String, Bool, true, false, not, ◌&&◌, if◌then◌else◌, List, [], ◌∷◌, ℕ, ◌+◌, ◌^◌, ◌<◌, ◌≡◌, ap,
  ◌∙◌, ◌+ℤ◌, ℤ, pos, arith, str_eq, eq_refl,
}
use spotalis.Common.Time.{Time}
use spotalis.Common.Words.{◌+i64◌, wrap64_id}
use spotalis.Apis.Leadership.{
  LeadershipState, become_leader, step_down, renew_lease, update_leader_identity,
}

-- A call, and the time it is made.
pub data Call : Type 0 where
  becomes_leader steps_down renews : Time → Call
  learns_leader : String → Time → Call

unfoldable pub make : Call → LeadershipState → LeadershipState
make (becomes_leader now) l = become_leader now l
make (steps_down now) l = step_down now l
make (renews now) l = renew_lease now l
make (learns_leader identity now) l = update_leader_identity identity now l

unfoldable pub run : List Call → LeadershipState → LeadershipState
run [] l = l
run (call ∷ calls) l = run calls (make call l)

same_bool : Bool → Bool → Bool
same_bool true b = b
same_bool false b = not b

-- One if the role or the known leader of the two states differs.
unfoldable pub change : LeadershipState → LeadershipState → ℕ
unfolding same_bool
change l m =
    if same_bool l.is_leader m.is_leader && str_eq l.leader_identity m.leader_identity then 0 else 1

-- How often the role or the known leader changes along the calls.
unfoldable pub changes : List Call → LeadershipState → ℕ
changes [] l = 0
changes (call ∷ calls) l = change l (make call l) + changes calls (make call l)

pos_add : (n : ℕ) → pos n +ℤ pos 1 ≡ pos (n + 1)
unfolding ◌+ℤ◌
pos_add n = ground arith

next-wrap : (z : ℤ) (n : ℕ) → z ≡ pos n → n + 1 < 2 ^ 63 → z +i64 pos 1 ≡ pos (n + 1)
next-wrap z n e h = rw (e, pos_add n) (wrap64_id (pos (n + 1)) (omega arith))

module _ (l : LeadershipState) (n : ℕ) (counted : l.transitions ≡ pos n) where
  make-change :
      (call : Call)
      → n + change l (make call l) < 2 ^ 63
      → (make call l).transitions ≡ pos (n + change l (make call l))
  unfolding make change become_leader step_down renew_lease update_leader_identity
  make-change (becomes_leader now) h =
      ground (arith, next-wrap l.transitions n, eq_refl l.leader_identity)
  make-change (steps_down now) h =
      ground (arith, next-wrap l.transitions n, eq_refl l.leader_identity)
  make-change (renews now) h = ground (arith, eq_refl l.leader_identity)
  make-change (learns_leader identity now) h =
      ground (arith, next-wrap l.transitions n, eq_refl l.leader_identity)

-- The count of transitions grows by the number of changes of the role and of the known leader, as
-- long as it does not overflow.
pub run-changes :
    (calls : List Call) (l : LeadershipState) (n : ℕ)
    → l.transitions ≡ pos n
    → n + changes calls l < 2 ^ 63
    → (run calls l).transitions ≡ pos (n + changes calls l)
unfolding run changes
run-changes [] l n counted h = ground arith
run-changes (call ∷ calls) l n counted h =
    let m = n + change l (make call l) in
    let next : (make call l).transitions ≡ pos m = make-change l n counted call (omega arith) in
    run-changes calls (make call l) m next (omega arith) ∙ ap pos (omega arith)
