-- ===== src/Operator/Shutdown/Outcomes.antt =====
-- What holds of the manager that a call leaves, and which calls leave the components alone.
use spotalis.Common.{Bool, true, false, if◌then◌else◌, Option, none, some, ◌≡◌, refl, ◌∙◌, arith}
use Prim.{Unit, tt}
use spotalis.Server.Health.{HealthChecker}
use spotalis.Operator.LeaderElection.{LeaderElectionManager}
use spotalis.Operator.Shutdown.{ShutdownManager, Answers}
use spotalis.Operator.Shutdown.Phases.{
  Outcome, returns, waits, ◌⨾◌, ◌⨟◌, tell_health, elector_leaves, give_up_lease,
}

-- The manager that a call leaves, if it returns.
abbrev pub Leaves : (ShutdownManager → Type 0) → Outcome → Type 0
Leaves P (returns m error) = P m
Leaves P waits = Unit

pub Leaves-⨾ :
    (P : ShutdownManager → Type 0) (first : Outcome) (rest : ShutdownManager → Outcome)
    → Leaves P first
    → ((m : ShutdownManager) → P m → Leaves P (rest m))
    → Leaves P (first ⨾ rest)
Leaves-⨾ P (returns m none) rest h k = k m h
Leaves-⨾ P (returns m (some error)) rest h k = h
Leaves-⨾ P waits rest h k = tt

pub Leaves-⨟ :
    (P : ShutdownManager → Type 0) (first : Outcome) (rest : ShutdownManager → Outcome)
    → Leaves P first
    → ((m : ShutdownManager) → P m → Leaves P (rest m))
    → Leaves P (first ⨟ rest)
Leaves-⨟ P (returns m error) rest h k = k m h
Leaves-⨟ P waits rest h k = tt

pub Leaves-if :
    (P : ShutdownManager → Type 0) (b : Bool) (yes_case no_case : Outcome)
    → Leaves P yes_case
    → Leaves P no_case
    → Leaves P (if b then yes_case else no_case)
Leaves-if P true yes_case no_case h k = h
Leaves-if P false yes_case no_case h k = k

pub Leaves-option {ℓ} :
    {A : Type ℓ} (P : ShutdownManager → Type 0) (o : Option A) (nothing : Outcome)
    (just : A → Outcome)
    → Leaves P nothing
    → ((a : A) → Leaves P (just a))
    → Leaves P (elim o [ none ↦ nothing | some a ↦ just a ])
Leaves-option P none nothing just h k = h
Leaves-option P (some a) nothing just h k = k a

-- The components, the settings and the start of the shutdown are the same.
abbrev pub Untouched : ShutdownManager → ShutdownManager → Type 0
Untouched m n =
    (m.component_states ≡ n.component_states)
    × (m.config ≡ n.config)
    × (m.shutdown_started ≡ n.shutdown_started)

pub tell_health-Untouched :
    (call : HealthChecker → HealthChecker) (m : ShutdownManager) → Untouched (tell_health call m) m
unfolding tell_health
tell_health-Untouched call m = ground arith

pub elector_leaves-Untouched :
    (answers : Answers) (election : LeaderElectionManager) (m : ShutdownManager)
    → Untouched (elector_leaves answers election m) m
unfolding elector_leaves
elector_leaves-Untouched answers election m = ground arith

pub give_up_lease-Untouched :
    (answers : Answers) (m : ShutdownManager) → Untouched (give_up_lease answers m) m
unfolding give_up_lease
give_up_lease-Untouched answers m = ground arith

pub Untouched-trans : (k m n : ShutdownManager) → Untouched k m → Untouched m n → Untouched k n
Untouched-trans k m n p q = (p.0 ∙ q.0, p.1 ∙ q.1, p.2 ∙ q.2)

pub if-Untouched :
    (b : Bool) (m : ShutdownManager) → Untouched (if b then record m { cancelled = true } else m) m
if-Untouched true m = (refl, refl, refl)
if-Untouched false m = (refl, refl, refl)
