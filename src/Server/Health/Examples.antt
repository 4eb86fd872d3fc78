-- ===== src/Server/Health/Examples.antt =====
-- The theorems on the endpoints at concrete inputs.
use spotalis.Common.{◌≡◌, refl, true, false, none, some, List, [], ◌∷◌}
use Prim.{tt}
use spotalis.Server.Health.{
  HealthChecker, Answers, healthz_handler, readyz_handler, healthz_checker, readyz_checker,
  new_health_checker, set_not_ready, status_service_unavailable,
}
use spotalis.Server.Health.Agreement.{code_of, handlers-code_of}
use spotalis.Server.Health.Settings.{
  Call, sets_unhealthy, sets_unavailable, clears_unhealthy, clears_unavailable, run, run-refuses,
}

abbrev checker : HealthChecker
checker = new_health_checker 5 true true "spotalis-system"

-- The API server answers, but does not show the namespace.
abbrev answers : Answers
answers = record {
  server_version = none;
  get_namespace = λ name. some "forbidden";
  timed_out = false;
}

handlers-code_of_example :
    ((healthz_handler 9 answers checker).code ≡ code_of (healthz_checker answers checker))
    × ((readyz_handler 9 answers checker).code ≡ code_of (readyz_checker answers checker))
unfolding new_health_checker
handlers-code_of_example = handlers-code_of 9 answers checker refl

alive_not_ready :
    ((healthz_handler 9 answers checker).code ≡ 200)
    × ((readyz_handler 9 answers checker).code ≡ 503)
unfolding healthz_handler readyz_handler new_health_checker
alive_not_ready = (refl, refl)

abbrev calls : List Call
calls = sets_unavailable ∷ sets_unhealthy "stopping" ∷ clears_unhealthy ∷ clears_unavailable ∷ []

run-refuses_example :
    (readyz_handler 9 answers (run calls (set_not_ready "shutting down" checker))).code
    ≡ status_service_unavailable
run-refuses_example =
    run-refuses calls "shutting down" checker 9 answers refl (tt, (tt, (tt, (tt, tt))))
