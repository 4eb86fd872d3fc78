-- ===== src/Server/Health/Agreement.antt =====
-- The endpoints against the checks for controller-runtime, and the status against the list of checks.
use spotalis.Common.{ℕ, ◌≡◌, Bool, true, false, ◌&&◌, if◌then◌else◌, [], ◌∷◌, ok, err, arith}
use spotalis.Common.Time.{Time}
use spotalis.Common.Assoc.{Assoc, set}
use spotalis.Server.Health.{
  HealthChecker, Answers, Checked, Check, passed, skipped, not_initialized, not_ready, unavailable,
  failed, healthz_checker, readyz_checker, healthz_handler, readyz_handler, tally, note, fault,
  status_ok, status_service_unavailable,
}

-- The status code of a check: 200 if it passes, and 503 if it fails.
unfoldable pub code_of : Checked → ℕ
code_of (ok _) = status_ok
code_of (err error) = status_service_unavailable

-- Where there is a client of the API server, both endpoints answer 200 exactly when the checks for
-- controller-runtime pass.
pub handlers-code_of :
    (now : Time) (answers : Answers) (h : HealthChecker)
    → h.has_client ≡ true
    → ((healthz_handler now answers h).code ≡ code_of (healthz_checker answers h))
      × ((readyz_handler now answers h).code ≡ code_of (readyz_checker answers h))
unfolding code_of healthz_handler healthz_checker readyz_handler readyz_checker tally note fault
handlers-code_of now answers h client = rw client (ground arith)

-- An entry of "checks" that is no failure.
unfoldable pub is_pass : Check → Bool
is_pass passed = true
is_pass skipped = true
is_pass not_initialized = true
is_pass (not_ready reason) = false
is_pass unavailable = false
is_pass (failed error) = false

unfoldable pub all_pass : Assoc Check → Bool
unfolding is_pass
all_pass [] = true
all_pass ((name, check) ∷ checks) = is_pass check && all_pass checks

-- /readyz answers 200 exactly when none of the checks that it lists has failed.
pub readyz-all_pass :
    (now : Time) (answers : Answers) (h : HealthChecker)
    → (readyz_handler now answers h).code ≡ (
        if all_pass (readyz_handler now answers h).checks
        then status_ok
        else status_service_unavailable)
unfolding readyz_handler all_pass tally note fault set
readyz-all_pass now answers h = ground arith
