-- ===== src/Operator/LeaderElection/Examples.antt =====
-- The theorems on the leader election at concrete runs.
use spotalis.Common.{◌≡◌, refl, true, false, none, some}
use spotalis.Operator.LeaderElection.{
  LeaderElectionManager, default_leader_election_config, new_leader_election_manager, on_new_leader,
  on_stopped_leading, start, set_leading,
}
use spotalis.Operator.LeaderElection.Runs.{Reach, here, next, starts, hears, stops, leads}

abbrev unelected : LeaderElectionManager
unelected = new_leader_election_manager none (some "node-1")

abbrev running : LeaderElectionManager
running = record unelected { has_elector = true; start_time = 5 }

to_running : Reach unelected running
unfolding new_leader_election_manager start default_leader_election_config
to_running = next here (starts 5 none refl)

heard : Reach unelected (on_stopped_leading (on_new_leader "node-2" running))
unfolding on_new_leader
heard =
    next (next to_running (hears running "node-2" refl))
      (stops (on_new_leader "node-2" running) refl)

-- Between the two steps of onStartedLeading an instance leads, and the channel is still open.
led : Reach unelected (set_leading running)
unfolding set_leading
led = next to_running (leads running refl)

leads_unannounced : ((set_leading running).is_leader ≡ true) × (running.started ≡ false)
unfolding set_leading new_leader_election_manager
leads_unannounced = (refl, refl)
