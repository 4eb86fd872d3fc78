-- ===== src/Apis/DisruptionPolicy.antt =====
-- pkg/apis/disruption_policy.go: what a disruption budget and a disruption window allow a workload.
-- The window is an interface value: nothing, or a value with a method that tells whether a time lies
-- within it, or any other value. A reading of the clock is an argument, `now`.
pub mod Verdict
pub mod Count
pub mod Recording
pub mod Examples
use spotalis.Common.{
  String, Bool, true, false, not, if◌then◌else◌, Option, none, some, ℤ, pos, ltb_ℤ, leb_ℤ, quot,
  str_eq,
}
use spotalis.Common.Time.{Time}
use spotalis.Common.Words.{◌+i32◌, ◌-i32◌}

-- intstr.IntOrString; the type of a value that is neither is `other_type`.
pub data IntOrString : Type 0 where
  int_val : ℤ → IntOrString
  str_val : String → IntOrString
  other_type : IntOrString

-- corev1.ObjectReference, of which these fields are set.
pub record ObjectReference : Type 0 where
  pub api_version : String
  pub kind : String
  pub name : String
  pub namespace : String

-- policyv1.PodDisruptionBudget, of which these fields are read.
pub record Budget : Type 0 where
  pub name : String
  pub namespace : String
  pub min_available : Option IntOrString
  pub max_unavailable : Option IntOrString

-- A value of type interface{}: nil, a WindowChecker by its method, or a value without the method.
pub data Window : Type 0 where
  no_window : Window
  checker : (Time → Bool) → Window
  no_checker : Window

pub record DisruptionPolicy : Type 0 where
  pub workload_ref : ObjectReference
  pub pdb_ref : Option ObjectReference
  pub min_available : Option IntOrString
  pub max_unavailable : Option IntOrString
  pub total_replicas : ℤ
  pub currently_disrupted : ℤ
  pub can_disrupt : Bool
  pub last_checked : Time
  pub disruption_window : Window

-- resolveIntOrString: any text but the empty one counts as half of the replicas.
unfoldable pub resolve_int_or_string : IntOrString → ℤ → ℤ
resolve_int_or_string (int_val n) total_replicas = n
resolve_int_or_string (str_val s) total_replicas =
    if str_eq s "" then pos 0 else quot total_replicas 2
resolve_int_or_string other_type total_replicas = pos 0

-- isWithinDisruptionWindow, on the window.
unfoldable pub window_allows : Window → Time → Bool
window_allows no_window now = true
window_allows (checker is_within) now = is_within now
window_allows no_checker now = true

-- IsWithinDisruptionWindow
unfoldable pub is_within_disruption_window : Time → DisruptionPolicy → Bool
unfolding window_allows
is_within_disruption_window now d = window_allows d.disruption_window now

-- GetAvailablePods
unfoldable pub get_available_pods : DisruptionPolicy → ℤ
get_available_pods d = d.total_replicas -i32 d.currently_disrupted

-- `if bound != nil`, and a test of the bound's value.
unfoldable pub resolved : Option IntOrString → ℤ → (ℤ → Bool) → Bool
unfolding resolve_int_or_string
resolved none total_replicas test = false
resolved (some bound) total_replicas test = test (resolve_int_or_string bound total_replicas)

-- `if d.MinAvailable != nil { ...; if availablePods <= minAvailable`
unfoldable pub at_min_available : DisruptionPolicy → Bool
unfolding resolved get_available_pods
at_min_available d =
    resolved d.min_available d.total_replicas (λ bound. leb_ℤ (get_available_pods d) bound)

-- `if d.MaxUnavailable != nil { ...; if d.CurrentlyDisrupted >= maxUnavailable`
unfoldable pub at_max_unavailable : DisruptionPolicy → Bool
unfolding resolved
at_max_unavailable d =
    resolved d.max_unavailable d.total_replicas (λ bound. leb_ℤ bound d.currently_disrupted)

no_budget : DisruptionPolicy → Bool
no_budget d = elim d.pdb_ref [ none ↦ true | some _ ↦ false ]

-- calculateCanDisrupt
unfoldable pub calculate_can_disrupt : Time → DisruptionPolicy → Bool
unfolding is_within_disruption_window no_budget at_min_available at_max_unavailable
calculate_can_disrupt now d =
    if not (is_within_disruption_window now d)
    then false
    else if no_budget d
    then true
    else if at_min_available d
    then false
    else if at_max_unavailable d
    then false
    else true

-- The last two lines of the functions that change the policy.
unfoldable pub reconsider : Time → DisruptionPolicy → DisruptionPolicy
unfolding calculate_can_disrupt
reconsider now d = record d { last_checked = now; can_disrupt = calculate_can_disrupt now d }

unfoldable pub budget_ref : Budget → ObjectReference
budget_ref pdb = record {
  api_version = "policy/v1";
  kind = "PodDisruptionBudget";
  name = pdb.name;
  namespace = pdb.namespace;
}

-- NewDisruptionPolicy; the policy has no window yet.
unfoldable pub new_disruption_policy : Time → ObjectReference → Option Budget → ℤ → DisruptionPolicy
unfolding budget_ref calculate_can_disrupt
new_disruption_policy now workload_ref pdb total_replicas =
    let policy : DisruptionPolicy = record {
      workload_ref = workload_ref;
      pdb_ref = none;
      min_available = none;
      max_unavailable = none;
      total_replicas = total_replicas;
      currently_disrupted = pos 0;
      can_disrupt = false;
      last_checked = now;
      disruption_window = no_window;
    } in
    let bounded : DisruptionPolicy = elim pdb [
      | none ↦ policy
      | some budget ↦ record policy {
        pdb_ref = some (budget_ref budget);
        min_available = budget.min_available;
        max_unavailable = budget.max_unavailable;
      }
    ] in
    record bounded { can_disrupt = calculate_can_disrupt now bounded }

-- CanDisruptPod
unfoldable pub can_disrupt_pod : Time → DisruptionPolicy → DisruptionPolicy × Bool
unfolding reconsider
can_disrupt_pod now d = let checked = reconsider now d in (checked, checked.can_disrupt)

-- RecordDisruption
unfoldable pub record_disruption : ℤ → Time → DisruptionPolicy → DisruptionPolicy
unfolding reconsider
record_disruption delta now d =
    let sum = d.currently_disrupted +i32 delta in
    let disrupted = if ltb_ℤ sum (pos 0) then pos 0 else sum in
    reconsider now (record d { currently_disrupted = disrupted })

-- UpdateTotalReplicas
unfoldable pub update_total_replicas : ℤ → Time → DisruptionPolicy → DisruptionPolicy
unfolding reconsider
update_total_replicas new_total now d = reconsider now (record d { total_replicas = new_total })

-- The lesser of the number so far and a bound.
lesser : ℤ → ℤ → ℤ
lesser a b = if ltb_ℤ a b then a else b

-- `if d.MinAvailable != nil` and `if d.MaxUnavailable != nil` of GetMaxAllowedDisruptions.
unfoldable pub limit_by_min : Option IntOrString → ℤ → ℤ → ℤ
unfolding lesser resolve_int_or_string
limit_by_min none total_replicas so_far = so_far
limit_by_min (some bound) total_replicas so_far =
    lesser (total_replicas -i32 resolve_int_or_string bound total_replicas) so_far

unfoldable pub limit_by_max : Option IntOrString → ℤ → ℤ → ℤ
unfolding lesser resolve_int_or_string
limit_by_max none total_replicas so_far = so_far
limit_by_max (some bound) total_replicas so_far =
    lesser (resolve_int_or_string bound total_replicas) so_far

-- GetMaxAllowedDisruptions
unfoldable pub get_max_allowed_disruptions : DisruptionPolicy → ℤ
unfolding no_budget limit_by_min limit_by_max
get_max_allowed_disruptions d =
    if no_budget d
    then d.total_replicas
    else let from_min = limit_by_min d.min_available d.total_replicas d.total_replicas in
      let max_disruptions = limit_by_max d.max_unavailable d.total_replicas from_min in
      let remaining = max_disruptions -i32 d.currently_disrupted in
      if ltb_ℤ remaining (pos 0) then pos 0 else remaining

-- IsHealthy
unfoldable pub is_healthy : DisruptionPolicy → Bool
unfolding no_budget resolved get_available_pods
is_healthy d =
    if no_budget d
    then true
    else if resolved d.min_available d.total_replicas (λ bound. ltb_ℤ (get_available_pods d) bound)
    then false
    else if resolved d.max_unavailable d.total_replicas (λ bound. ltb_ℤ bound d.currently_disrupted)
    then false
    else true

pub record DisruptionPolicyStatus : Type 0 where
  pub total_replicas : ℤ
  pub available_pods : ℤ
  pub disrupted_pods : ℤ
  pub max_disruptions : ℤ
  pub can_disrupt : Bool
  pub has_pdb : Bool
  pub last_checked : Time
  pub within_window : Bool

-- GetPolicyStatus
unfoldable pub get_policy_status : Time → DisruptionPolicy → DisruptionPolicyStatus
unfolding get_available_pods get_max_allowed_disruptions calculate_can_disrupt no_budget
    is_within_disruption_window
get_policy_status now d = record {
  total_replicas = d.total_replicas;
  available_pods = get_available_pods d;
  disrupted_pods = d.currently_disrupted;
  max_disruptions = get_max_allowed_disruptions d;
  can_disrupt = calculate_can_disrupt now d;
  has_pdb = not (no_budget d);
  last_checked = d.last_checked;
  within_window = is_within_disruption_window now d;
}

pub data DisruptionReason : Type 0 where
  allowed no_pdb min_available_violated max_unavailable_reached : DisruptionReason
  outside_window too_many_disrupted : DisruptionReason

-- GetDisruptionReason
unfoldable pub get_disruption_reason : Time → DisruptionPolicy → DisruptionReason
unfolding is_within_disruption_window no_budget at_min_available at_max_unavailable
get_disruption_reason now d =
    if not (is_within_disruption_window now d)
    then outside_window
    else if no_budget d
    then no_pdb
    else if at_min_available d
    then min_available_violated
    else if at_max_unavailable d
    then max_unavailable_reached
    else allowed
