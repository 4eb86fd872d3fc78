-- ===== src/CircuitBreaker/Examples.antt =====
-- A breaker that opens after three failures, recovers after ten seconds, and closes after two
-- successes.
use spotalis.Common.{
  ◌≡◌, refl, true, false, List, [], ◌∷◌, ℤ, pos, ◌<ℤ◌, ◌≤ℤ◌, ◌+ℤ◌, All, arith, ◌*◌,
}
use Prim.{tt}
use spotalis.Common.Time.{second, since}
use spotalis.Common.Words.{wrap64}
use spotalis.CircuitBreaker.{
  CircuitBreaker, CircuitBreakerConfig, CircuitBreakerState, new_circuit_breaker, tried, succeeded,
  failed, BreakerCall, run, answers, record_failure, record_success, can_execute, check,
}
use spotalis.CircuitBreaker.Failures.{in_row, in_all, closed-in_row, opened-in_all}
use spotalis.CircuitBreaker.Runs.{stays_open}

abbrev three : CircuitBreakerConfig
three = record {
  failure_threshold = pos 3;
  recovery_timeout = pos (10 * second);
  half_open_requests = pos 2;
}

abbrev two_failures : List BreakerCall
two_failures = failed 1 ∷ succeeded ∷ failed 2 ∷ tried 3 ∷ failed 4 ∷ []

still_closed : (run two_failures (new_circuit_breaker three)).state ≡ CircuitBreakerState.closed
unfolding run new_circuit_breaker record_failure record_success can_execute check wrap64 ◌+ℤ◌
still_closed = refl

closed-in_row_example : pos (in_row 0 two_failures) <ℤ three.failure_threshold
closed-in_row_example = closed-in_row two_failures three (omega arith) (omega arith) still_closed

abbrev three_failures : List BreakerCall
three_failures = failed 1 ∷ failed 2 ∷ tried 3 ∷ failed 4 ∷ []

is_open : (run three_failures (new_circuit_breaker three)).state ≡ CircuitBreakerState.«open»
unfolding run new_circuit_breaker record_failure can_execute check wrap64 ◌+ℤ◌
is_open = refl

opened-in_all_example : three.failure_threshold ≤ℤ pos (in_all three_failures)
opened-in_all_example =
    opened-in_all three_failures three (omega arith) (tt, (tt, (tt, (tt, tt)))) λ e. cc (is_open, e)

abbrev opened : CircuitBreaker
opened = record {
  config = three;
  state = CircuitBreakerState.«open»;
  failures = pos 3;
  last_failure_time = 100 * second;
  half_open_requests = pos 0;
}

four_seconds : since (104 * second) (100 * second) <ℤ pos (10 * second)
unfolding spotalis.Common.Time.sub_time
four_seconds = omega arith

stays_open_example :
    All
      (λ b. b ≡ false)
      (answers (tried (104 * second) ∷ failed (105 * second) ∷ tried (104 * second) ∷ []) opened)
    × ((run (tried (104 * second) ∷ failed (105 * second) ∷ tried (104 * second) ∷ []) opened).state
        ≡ CircuitBreakerState.«open»)
stays_open_example =
    stays_open (tried (104 * second) ∷ failed (105 * second) ∷ tried (104 * second) ∷ [])
      (100 * second) opened refl (omega arith) (four_seconds, (omega arith, (four_seconds, tt)))

abbrev half_opened : CircuitBreaker
half_opened = record opened { state = CircuitBreakerState.half_open }
