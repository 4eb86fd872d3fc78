-- ===== src/Operator/LeaderElection/Runs.antt =====
-- The steps of a LeaderElectionManager: its own calls, the callbacks of an elector that has been
-- made, of which onStartedLeading is two steps, and the receivers of its notifications.
use spotalis.Common.{String, Bool, true, false, Option, some, List, ◌∷◌, ◌≡◌, refl, ok, arith}
use spotalis.Common.Time.{Time}
use spotalis.Kube.{ApiError}
use spotalis.Operator.LeaderElection.{
  LeaderElectionManager, ElectionError, not_leader, start, set_leading, announce,
  on_stopped_leading, on_new_leader, resign,
}

pub data Step : LeaderElectionManager → LeaderElectionManager → Type 0 where
  starts :
      {l m : LeaderElectionManager} (now : Time) (setup : Option ElectionError)
      → start now setup l ≡ ok m
      → Step l m
  leads : (l : LeaderElectionManager) → l.has_elector ≡ true → Step l (set_leading l)
  announces : {l m : LeaderElectionManager} → l.has_elector ≡ true → announce l ≡ ok m → Step l m
  stops : (l : LeaderElectionManager) → l.has_elector ≡ true → Step l (on_stopped_leading l)
  hears :
      (l : LeaderElectionManager) (identity : String)
      → l.has_elector ≡ true
      → Step l (on_new_leader identity l)
  receives :
      (l : LeaderElectionManager) (identity : String) (rest : List String)
      → l.leader_changed ≡ identity ∷ rest
      → Step l (record l { leader_changed = rest })

pub data Reach (l : LeaderElectionManager) : LeaderElectionManager → Type 0 where
  here : Reach l l
  next : {m n : LeaderElectionManager} → Reach l m → Step m n → Reach l n

clash : {b : Bool} → b ≡ true → b ≡ false → ⊥
clash p q = cc

-- Election is disabled, and the instance leads by itself.
pub record LeadsAlone (l : LeaderElectionManager) : Type 0 where
  pub disabled : l.config.enabled ≡ false
  pub no_elector : l.has_elector ≡ false
  pub leads_on : l.is_leader ≡ true

Step-LeadsAlone : {l m : LeaderElectionManager} → Step l m → LeadsAlone l → LeadsAlone m
unfolding start
Step-LeadsAlone (starts now setup e) h = ground arith
Step-LeadsAlone (leads l elector) h = absurd (clash elector h.no_elector)
Step-LeadsAlone (announces elector e) h = absurd (clash elector h.no_elector)
Step-LeadsAlone (stops l elector) h = absurd (clash elector h.no_elector)
Step-LeadsAlone (hears l identity elector) h = absurd (clash elector h.no_elector)
Step-LeadsAlone (receives l identity rest e) h = record {
  disabled = h.disabled;
  no_elector = h.no_elector;
  leads_on = h.leads_on;
}

stays : {l m : LeaderElectionManager} → Reach l m → LeadsAlone l → LeadsAlone m
stays here h = h
stays (next run step) h = Step-LeadsAlone step (stays run h)

refuses :
    {l : LeaderElectionManager} (deleted : Option ApiError)
    → LeadsAlone l
    → resign deleted l ≡ some not_leader
unfolding resign
refuses deleted h = rw h.disabled refl

-- Where election is disabled, an instance that leads goes on to lead in every run, and its attempts
-- to resign fail.
pub Reach-LeadsAlone :
    {l m : LeaderElectionManager} (deleted : Option ApiError)
    → Reach l m
    → LeadsAlone l
    → LeadsAlone m × (resign deleted m ≡ some not_leader)
Reach-LeadsAlone deleted run h = let held = stays run h in (held, refuses deleted held)
