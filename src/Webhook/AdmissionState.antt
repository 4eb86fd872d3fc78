-- ===== src/Webhook/AdmissionState.antt =====
-- pkg/webhook/admission_state.go: the tracker of pending admissions. Every method of the source holds
-- the tracker's lock, so a method is one step from a tracker to a tracker; `now` is the reading of
-- time.Now() in it. The map of pending admissions is a function, a missing key is `none`, and the
-- entry that a method has changed through its pointer is written back.
pub mod Laws
pub mod Reserve
pub mod Freshness
mod Examples
use spotalis.Common.{
  ℕ, ◌==◌, ◌*◌, String, Bool, true, false, not, ◌&&◌, ◌||◌, if◌then◌else◌, Option, none, some, List,
  [], ◌∷◌, ℤ, pos, pos_part, neg_part, ltb, ltb_ℤ, leb_ℤ, ◌==ℤ◌, ◌+ℤ◌, str_eq,
}
use spotalis.Common.Words.{◌+i32◌, wrap32, wrap64}
use spotalis.Common.Time.{Time, zero_time, is_zero, since, sub_time, second}

pub data CapacityType : Type 0 where
  on_demand spot : CapacityType

abbrev pub is_spot : CapacityType → Bool
is_spot spot = true
is_spot on_demand = false

pub data StaleReason : Type 0 where
  none_stale generation_changed pod_list_too_old : StaleReason

-- The text for the log is not modelled.
pub record StalenessCheck : Type 0 where
  pub is_stale : Bool
  pub reason : StaleReason

pub record PendingAdmission : Type 0 where
  pub pending_spot : ℤ  -- int32
  pub pending_on_demand : ℤ  -- int32
  pub last_updated : Time
  pub generation : ℤ  -- int64
  pub pod_list_resource_version : String
  pub pod_list_time : Time

pub record AdmissionStateTracker : Type 0 where
  pub pending : String → Option PendingAdmission
  pub ttl : ℤ  -- nanoseconds
  pub stopped : Bool  -- stopCh is closed
  pub pod_list_max_age : ℤ

abbrev pub default_admission_ttl : ℤ
default_admission_ttl = pos (30 * second)

abbrev pub default_pod_list_max_age : ℤ
default_pod_list_max_age = pos (5 * second)

unfoldable pub new_admission_state_tracker : ℤ → AdmissionStateTracker
new_admission_state_tracker ttl = record {
  pending = λ _. none;
  ttl = if leb_ℤ ttl (pos 0) then default_admission_ttl else ttl;
  stopped = false;
  pod_list_max_age = default_pod_list_max_age;
}

-- Closing a closed channel panics, which is `none`.
pub stop : AdmissionStateTracker → Option AdmissionStateTracker
stop t = if t.stopped then none else some (record t { stopped = true })

-- `t.pending[key] = p`
abbrev pub put : String → PendingAdmission → AdmissionStateTracker → AdmissionStateTracker
put key p t = record t { pending = λ k. if str_eq k key then some p else t.pending k }

-- `&PendingAdmission{Generation: generation}`
abbrev pub fresh : ℤ → PendingAdmission
fresh generation = record {
  pending_spot = pos 0;
  pending_on_demand = pos 0;
  last_updated = zero_time;
  generation = generation;
  pod_list_resource_version = "";
  pod_list_time = zero_time;
}

abbrev counts : ℤ → Option PendingAdmission → ℤ × ℤ
counts g none = (pos 0, pos 0)
counts g (some p) =
    if p.generation ==ℤ g then (p.pending_spot, p.pending_on_demand) else (pos 0, pos 0)

-- The counts of spot and of on-demand admissions.
unfoldable pub get_pending_counts : AdmissionStateTracker → String → ℤ → ℤ × ℤ
get_pending_counts t key g = counts g (t.pending key)

-- The entry of the key, or a new one where none exists or its generation is another.
unfoldable pub current_entry : Option PendingAdmission → ℤ → PendingAdmission
current_entry none g = fresh g
current_entry (some p) g = if p.generation ==ℤ g then p else fresh g

-- One admission more of the capacity type, at the time `now`.
bump : Time → CapacityType → PendingAdmission → PendingAdmission
bump now spot p = record p { pending_spot = p.pending_spot +i32 pos 1; last_updated = now }
bump now on_demand p = record p {
  pending_on_demand = p.pending_on_demand +i32 pos 1;
  last_updated = now;
}

unfoldable pub increment_pending :
    Time → String → CapacityType → ℤ → AdmissionStateTracker → AdmissionStateTracker
unfolding bump current_entry
increment_pending now key capacity g t =
    put key (bump now capacity (current_entry (t.pending key) g)) t

-- What a placement is chosen by: the observed counts and the targets, as Go's int.
pub record Observed : Type 0 where
  pub observed_spot : ℤ
  pub observed_on_demand : ℤ
  pub target_spot : ℤ
  pub target_on_demand : ℤ

select : Observed → PendingAdmission → CapacityType
select o p =
    if leb_ℤ o.target_on_demand (wrap64 (o.observed_on_demand +ℤ p.pending_on_demand))
      && ltb_ℤ (wrap64 (o.observed_spot +ℤ p.pending_spot)) o.target_spot
    then spot
    else on_demand

unfoldable pub select_and_reserve :
    Time → String → ℤ → Observed → AdmissionStateTracker → AdmissionStateTracker × CapacityType
unfolding bump select current_entry
select_and_reserve now key g o t =
    let p = current_entry (t.pending key) g in
    let capacity = select o p in (put key (bump now capacity p) t, capacity)

-- The loop of `cleanup` over the map: each entry older than the time to live is deleted.
abbrev unexpired : Time → ℤ → Option PendingAdmission → Option PendingAdmission
unexpired now ttl none = none
unexpired now ttl (some p) = if ltb_ℤ ttl (sub_time now p.last_updated) then none else some p

unfoldable pub cleanup : Time → AdmissionStateTracker → AdmissionStateTracker
cleanup now t = record t { pending = λ k. unexpired now t.ttl (t.pending k) }

-- The goroutine of the tracker: what its `select` receives, one after another.
pub data LoopEvent : Type 0 where
  tick : Time → LoopEvent
  stop_received : LoopEvent

unfoldable pub cleanup_loop : List LoopEvent → AdmissionStateTracker → AdmissionStateTracker
unfolding cleanup
cleanup_loop [] t = t
cleanup_loop (tick now ∷ es) t = cleanup_loop es (cleanup now t)
cleanup_loop (stop_received ∷ es) t = t

abbrev staleness : Time → ℤ → ℤ → Option PendingAdmission → StalenessCheck
staleness now max_age g none = record { is_stale = false; reason = none_stale }
staleness now max_age g (some p) =
    if not (p.generation ==ℤ g)
    then record { is_stale = true; reason = generation_changed }
    else if not (is_zero p.pod_list_time) && ltb_ℤ max_age (since now p.pod_list_time)
    then record { is_stale = true; reason = pod_list_too_old }
    else record { is_stale = false; reason = none_stale }

unfoldable pub check_staleness : Time → AdmissionStateTracker → String → ℤ → StalenessCheck
check_staleness now t key g = staleness now t.pod_list_max_age g (t.pending key)

-- The entry of the key whatever its generation, or a new one.
abbrev any_entry : Option PendingAdmission → ℤ → PendingAdmission
any_entry none g = fresh g
any_entry (some p) g = p

unfoldable pub update_pod_list_metadata :
    Time → String → String → ℤ → AdmissionStateTracker → AdmissionStateTracker
update_pod_list_metadata now key version g t =
    put key
      (record (any_entry (t.pending key) g) {
        pod_list_resource_version = version;
        pod_list_time = now;
        last_updated = now;
      })
      t

unfoldable pub reset_pending : Time → String → ℤ → AdmissionStateTracker → AdmissionStateTracker
reset_pending now key g t = put key (record (fresh g) { last_updated = now; pod_list_time = now }) t
