-- ===== src/CircuitBreaker.antt =====
-- CircuitBreaker of pkg/utils/rate_limiter.go: a state machine that stops calls after failures. Each
-- locked region is a step; CanExecute has two, and other calls can come between them.
pub mod Runs
pub mod Failures
mod Examples
use spotalis.Common.{Bool, true, false, if◌then◌else◌, List, [], ◌∷◌, ℤ, pos, ltb_ℤ, leb_ℤ, ◌+ℤ◌}
use spotalis.Common.Words.{wrap64}
use spotalis.Common.Time.{Time, zero_time, since}

pub data CircuitBreakerState : Type 0 where
  closed «open» half_open : CircuitBreakerState

pub record CircuitBreakerConfig : Type 0 where
  pub failure_threshold : ℤ
  pub recovery_timeout : ℤ
  pub half_open_requests : ℤ

pub record CircuitBreaker : Type 0 where
  pub config : CircuitBreakerConfig
  pub state : CircuitBreakerState
  pub failures : ℤ  -- int
  pub last_failure_time : Time
  pub half_open_requests : ℤ  -- int

unfoldable pub new_circuit_breaker : CircuitBreakerConfig → CircuitBreaker
new_circuit_breaker config = record {
  config = config;
  state = closed;
  failures = pos 0;
  last_failure_time = zero_time;
  half_open_requests = pos 0;
}

-- What the first locked region of CanExecute finds.
pub data Check : Type 0 where
  answered : Bool → Check
  recovering : Check

unfoldable pub check : Time → CircuitBreaker → Check
check now cb = elim cb.state [
  | closed ↦ answered true
  | «open» ↦
      if leb_ℤ cb.config.recovery_timeout (since now cb.last_failure_time)
      then recovering
      else answered false
  | half_open ↦ answered (ltb_ℤ cb.half_open_requests cb.config.half_open_requests)
]

-- The second locked region, whatever the state is by then.
unfoldable pub enter_half_open : CircuitBreaker → CircuitBreaker
enter_half_open cb = record cb { state = half_open; half_open_requests = pos 0 }

abbrev pub after_check : CircuitBreaker → Check → CircuitBreaker × Bool
after_check cb (answered b) = (cb, b)
after_check cb recovering = (enter_half_open cb, true)

-- With no other call between the two regions.
unfoldable pub can_execute : Time → CircuitBreaker → CircuitBreaker × Bool
unfolding check enter_half_open
can_execute now cb = after_check cb (check now cb)

unfoldable pub record_success : CircuitBreaker → CircuitBreaker
record_success cb = elim cb.state [
  | half_open ↦
      let n = wrap64 (cb.half_open_requests +ℤ pos 1) in
      if leb_ℤ cb.config.half_open_requests n
      then record cb { state = closed; failures = pos 0; half_open_requests = n }
      else record cb { half_open_requests = n }
  | closed ↦ record cb { failures = pos 0 }
  | «open» ↦ cb
]

abbrev pub next_state : CircuitBreakerState → Bool → CircuitBreakerState
next_state closed reached = if reached then «open» else closed
next_state half_open reached = «open»
next_state «open» reached = «open»

unfoldable pub record_failure : Time → CircuitBreaker → CircuitBreaker
record_failure now cb =
    let n = wrap64 (cb.failures +ℤ pos 1) in
    record cb {
      failures = n;
      last_failure_time = now;
      state = next_state cb.state (leb_ℤ cb.config.failure_threshold n);
    }

-- The calls on a breaker; `entered` is the second region of a CanExecute that comes late.
pub data BreakerCall : Type 0 where
  tried : Time → BreakerCall
  entered succeeded : BreakerCall
  failed : Time → BreakerCall

abbrev pub step : BreakerCall → CircuitBreaker → CircuitBreaker
step (tried now) cb = (can_execute now cb).0
step entered cb = enter_half_open cb
step succeeded cb = record_success cb
step (failed now) cb = record_failure now cb

unfoldable pub run : List BreakerCall → CircuitBreaker → CircuitBreaker
run [] cb = cb
run (c ∷ cs) cb = run cs (step c cb)

-- What the calls of CanExecute answer.
unfoldable pub answers : List BreakerCall → CircuitBreaker → List Bool
answers [] cb = []
answers (tried now ∷ cs) cb = (can_execute now cb).1 ∷ answers cs (can_execute now cb).0
answers (entered ∷ cs) cb = answers cs (enter_half_open cb)
answers (succeeded ∷ cs) cb = answers cs (record_success cb)
answers (failed now ∷ cs) cb = answers cs (record_failure now cb)
