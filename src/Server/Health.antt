-- ===== src/Server/Health.antt =====
-- internal/server/health.go: the endpoints /healthz and /readyz, the checks of the same names for
-- controller-runtime, and the state that the operator sets. What the API server and the manager
-- answer is an argument; a reading of the clock is `now`.
pub mod Agreement
pub mod Settings
pub mod Examples
use spotalis.Common.{
  ℕ, String, Bool, true, false, not, ◌&&◌, if◌then◌else◌, Option, none, some, List, [], ◌∷◌, ℤ,
  str_eq, Result, ok, err, ◌>>=◌,
}
use Prim.{Unit, tt}
use spotalis.Common.Time.{Time, zero_time, since}
use spotalis.Common.Assoc.{Assoc, set}

-- The manager is only compared with nil, and so is the client of the API server.
pub record HealthChecker : Type 0 where
  pub has_manager : Bool
  pub has_client : Bool
  pub start_time : Time
  pub namespace : String
  pub unhealthy_reason : String
  pub not_ready_reason : String
  pub kubernetes_down : Bool

-- NewHealthChecker
unfoldable pub new_health_checker : Time → Bool → Bool → String → HealthChecker
new_health_checker now has_manager has_client namespace = record {
  has_manager = has_manager;
  has_client = has_client;
  start_time = now;
  namespace = namespace;
  unhealthy_reason = "";
  not_ready_reason = "";
  kubernetes_down = false;
}

-- SetUnhealthy, SetNotReady, SetKubernetesUnavailable and the calls that clear them.
unfoldable pub set_unhealthy : String → HealthChecker → HealthChecker
set_unhealthy reason h = record h { unhealthy_reason = reason }

unfoldable pub set_not_ready : String → HealthChecker → HealthChecker
set_not_ready reason h = record h { not_ready_reason = reason }

unfoldable pub set_kubernetes_unavailable : HealthChecker → HealthChecker
set_kubernetes_unavailable h = record h { kubernetes_down = true }

unfoldable pub clear_unhealthy : HealthChecker → HealthChecker
clear_unhealthy h = record h { unhealthy_reason = "" }

unfoldable pub clear_not_ready : HealthChecker → HealthChecker
clear_not_ready h = record h { not_ready_reason = "" }

unfoldable pub clear_kubernetes_unavailable : HealthChecker → HealthChecker
clear_kubernetes_unavailable h = record h { kubernetes_down = false }

-- The errors of the calls to the API server, if any, and whether the select of
-- checkControllerReadiness takes the end of the context.
pub record Answers : Type 0 where
  pub server_version : Option String
  pub get_namespace : String → Option String
  pub timed_out : Bool

pub data CheckError : Type 0 where
  client_not_initialized namespace_not_configured readiness_timeout : CheckError
  api_unreachable : String → CheckError
  namespace_denied : String → String → CheckError
  marked_unhealthy marked_not_ready : String → CheckError
  marked_unavailable : CheckError

abbrev pub Checked : Type 0
Checked = Result CheckError (Unit {0})

-- checkKubernetesAPI
unfoldable pub check_kubernetes_api : Answers → HealthChecker → Checked
check_kubernetes_api answers h =
    if not h.has_client
    then err client_not_initialized
    else elim answers.server_version [ none ↦ ok tt | some message ↦ err (api_unreachable message) ]

-- checkNamespaceAccess; the client is not nil wherever it is called.
unfoldable pub check_namespace_access : Answers → HealthChecker → Checked
check_namespace_access answers h =
    if str_eq h.namespace ""
    then err namespace_not_configured
    else elim (answers.get_namespace h.namespace) [
      | none ↦ ok tt
      | some message ↦ err (namespace_denied h.namespace message)
    ]

-- checkControllerReadiness
unfoldable pub check_controller_readiness : Answers → HealthChecker → Checked
check_controller_readiness answers h =
    if not h.has_manager then ok tt else if answers.timed_out then err readiness_timeout else ok tt

-- `if reason != ""`
unfoldable pub is_set : String → Bool
is_set reason = not (str_eq reason "")

-- GetHealthzChecker
unfoldable pub healthz_checker : Answers → HealthChecker → Checked
unfolding is_set check_kubernetes_api
healthz_checker answers h =
    if is_set h.unhealthy_reason
    then err (marked_unhealthy h.unhealthy_reason)
    else if h.kubernetes_down
    then err marked_unavailable
    else check_kubernetes_api answers h

-- GetReadyzChecker
unfoldable pub readyz_checker : Answers → HealthChecker → Checked
unfolding is_set check_kubernetes_api check_namespace_access check_controller_readiness
readyz_checker answers h =
    if is_set h.not_ready_reason
    then err (marked_not_ready h.not_ready_reason)
    else if h.kubernetes_down
    then err marked_unavailable
    else (check_kubernetes_api answers h >>= λ _.
        check_namespace_access answers h >>= λ _. check_controller_readiness answers h)

-- The value of an entry of "checks".
pub data Check : Type 0 where
  passed : Check
  -- "skipped (test mode)" and "not initialized (test mode)"
  skipped not_initialized : Check
  -- "not ready: ..." and "manually marked as unavailable"
  not_ready : String → Check
  unavailable : Check
  -- "failed: ..."
  failed : CheckError → Check

-- What the handler writes: the status code, the status, its other fields, and the uptime.
pub record Response : Type 0 where
  pub code : ℕ
  pub status : String
  pub error : Option CheckError
  pub checks : Assoc Check
  pub uptime : ℤ

abbrev pub status_ok : ℕ
status_ok = 200

abbrev pub status_service_unavailable : ℕ
status_service_unavailable = 503

unfoldable pub respond_unhealthy : CheckError → ℤ → Response
respond_unhealthy error uptime = record {
  code = status_service_unavailable;
  status = "unhealthy";
  error = some error;
  checks = [];
  uptime = uptime;
}

unfoldable pub respond_healthy : ℤ → Response
respond_healthy uptime = record {
  code = status_ok;
  status = "healthy";
  error = none;
  checks = ("kubernetes-api", passed) ∷ ("controller", passed) ∷ [];
  uptime = uptime;
}

-- HealthzHandler
unfoldable pub healthz_handler : Time → Answers → HealthChecker → Response
unfolding is_set respond_unhealthy respond_healthy check_kubernetes_api
healthz_handler now answers h =
    let uptime = since now h.start_time in
    if is_set h.unhealthy_reason
    then respond_unhealthy (marked_unhealthy h.unhealthy_reason) uptime
    else if h.kubernetes_down
    then respond_unhealthy marked_unavailable uptime
    else if h.has_client
    then (elim (check_kubernetes_api answers h) [
      | ok _ ↦ respond_healthy uptime
      | err error ↦ respond_unhealthy error uptime
    ])
    else respond_healthy uptime

-- The variables `checks` and `healthy` of ReadyzHandler.
pub record Tally : Type 0 where
  pub checks : Assoc Check
  pub healthy : Bool

-- `checks[name] = value`, and `healthy = false` with it.
unfoldable pub note : String → Check → Tally → Tally
note name value t = record t { checks = set name value t.checks }

unfoldable pub fault : String → Check → Tally → Tally
fault name value t = record { checks = set name value t.checks; healthy = false }

-- `if err := check(); err != nil { ... } else { checks[name] = "ok" }`
unfoldable pub tally : String → Checked → Tally → Tally
unfolding note fault
tally name (ok _) t = note name passed t
tally name (err error) t = fault name (failed error) t

-- The five checks of ReadyzHandler, in order.
unfoldable pub manual_check : HealthChecker → Tally → Tally
unfolding is_set fault
manual_check h t =
    if is_set h.not_ready_reason then fault "manual-check" (not_ready h.not_ready_reason) t else t

unfoldable pub kubernetes_check : Answers → HealthChecker → Tally → Tally
unfolding tally note fault check_kubernetes_api
kubernetes_check answers h t =
    if h.kubernetes_down
    then fault "kubernetes-api" unavailable t
    else if h.has_client
    then tally "kubernetes-api" (check_kubernetes_api answers h) t
    else note "kubernetes-api" skipped t

unfoldable pub manager_check : HealthChecker → Tally → Tally
unfolding note
manager_check h t =
    if h.has_manager then note "manager" passed t else note "manager" not_initialized t

unfoldable pub namespace_check : Answers → HealthChecker → Tally → Tally
unfolding tally note check_namespace_access
namespace_check answers h t =
    if not h.kubernetes_down && h.has_client
    then tally "namespace-access" (check_namespace_access answers h) t
    else if h.has_client
    then t
    else note "namespace-access" skipped t

unfoldable pub readiness_check : Answers → HealthChecker → Tally → Tally
unfolding tally check_controller_readiness
readiness_check answers h t = tally "controller-readiness" (check_controller_readiness answers h) t

unfoldable pub all_checks : Answers → HealthChecker → Tally
unfolding manual_check kubernetes_check manager_check namespace_check readiness_check
all_checks answers h = readiness_check answers h (
    namespace_check answers h (
      manager_check h
        (kubernetes_check answers h (manual_check h (record { checks = []; healthy = true })))))

-- ReadyzHandler
unfoldable pub readyz_handler : Time → Answers → HealthChecker → Response
unfolding all_checks
readyz_handler now answers h =
    let t = all_checks answers h in
    record {
      code = if not t.healthy then status_service_unavailable else status_ok;
      status = if not t.healthy then "not ready" else "ready";
      error = none;
      checks = t.checks;
      uptime = since now h.start_time;
    }
