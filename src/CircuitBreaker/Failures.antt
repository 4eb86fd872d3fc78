-- ===== src/CircuitBreaker/Failures.antt =====
-- The failures that a breaker of pkg/utils/rate_limiter.go has been told, and the state they leave.
use spotalis.Common.{
  ℕ, suc, ◌+◌, ◌<◌, ◌^◌, ◌≡◌, ◌⊎◌, inl, inr, refl, List, [], ◌∷◌, ℤ, pos, ◌+ℤ◌, ◌<ℤ◌, ◌≤ℤ◌, length,
  All, arith, subst,
}
use Prim.{Unit}
use spotalis.Common.Words.{wrap64, wrap64_id}
use spotalis.Common.Time.{Time}
use spotalis.CircuitBreaker.{
  CircuitBreaker, CircuitBreakerConfig, closed, new_circuit_breaker, check, enter_half_open,
  can_execute, record_success, record_failure, BreakerCall, tried, entered, succeeded, failed, run,
}
use spotalis.CircuitBreaker.Runs.{IsBelow, run-IsBelow}

-- The failures since the last success, after those that came before.
unfoldable pub in_row : ℕ → List BreakerCall → ℕ
in_row n [] = n
in_row n (tried now ∷ cs) = in_row n cs
in_row n (entered ∷ cs) = in_row n cs
in_row n (succeeded ∷ cs) = in_row 0 cs
in_row n (failed now ∷ cs) = in_row (suc n) cs

-- All failures.
unfoldable pub in_all : List BreakerCall → ℕ
in_all [] = 0
in_all (tried now ∷ cs) = in_all cs
in_all (entered ∷ cs) = in_all cs
in_all (succeeded ∷ cs) = in_all cs
in_all (failed now ∷ cs) = suc (in_all cs)

-- The counter is at least n, and stays below 2 ^ 63 for as many calls as are left.
record Counts (n left : ℕ) (cb : CircuitBreaker) : Type 0 where
  low : pos n ≤ℤ cb.failures
  high : cb.failures +ℤ pos left <ℤ pos (2 ^ 63)

counted_on :
    (n left : ℕ) (cb : CircuitBreaker)
    → Counts n (suc left) cb
    → wrap64 (cb.failures +ℤ pos 1) ≡ cb.failures +ℤ pos 1
unfolding ◌+ℤ◌
counted_on n left cb h =
    let low = h.low in let high = h.high in wrap64_id (cb.failures +ℤ pos 1) (ground arith)

failed-Counts :
    (n left : ℕ) (now : Time) (cb : CircuitBreaker)
    → Counts n (suc left) cb
    → Counts (suc n) left (record_failure now cb)
unfolding record_failure ◌+ℤ◌
failed-Counts n left now cb h =
    let low = h.low in
    let high = h.high in
    let same = counted_on n left cb h in
    record { low = rw same (ground arith); high = rw same (ground arith) }

tried-Counts :
    (n left : ℕ) (now : Time) (cb : CircuitBreaker)
    → Counts n (suc left) cb
    → Counts n left (can_execute now cb).0
unfolding can_execute check enter_half_open ◌+ℤ◌
tried-Counts n left now cb h =
    let low = h.low in let high = h.high in record { low = ground arith; high = ground arith }

succeeded-Counts :
    (n left : ℕ) (cb : CircuitBreaker) → Counts n (suc left) cb → Counts 0 left (record_success cb)
unfolding record_success ◌+ℤ◌
succeeded-Counts n left cb h =
    let low = h.low in let high = h.high in record { low = ground arith; high = ground arith }

entered-Counts :
    (n left : ℕ) (cb : CircuitBreaker) → Counts n (suc left) cb → Counts n left (enter_half_open cb)
unfolding enter_half_open ◌+ℤ◌
entered-Counts n left cb h =
    let low = h.low in let high = h.high in record { low = ground arith; high = ground arith }

run-Counts :
    (calls : List BreakerCall) (n : ℕ) (cb : CircuitBreaker)
    → Counts n (length calls) cb
    → pos (in_row n calls) ≤ℤ (run calls cb).failures
unfolding in_row run
run-Counts [] n cb h = h.low
run-Counts (tried now ∷ cs) n cb h = run-Counts cs n _ (tried-Counts n (length cs) now cb h)
run-Counts (entered ∷ cs) n cb h = run-Counts cs n _ (entered-Counts n (length cs) cb h)
run-Counts (succeeded ∷ cs) n cb h = run-Counts cs 0 _ (succeeded-Counts n (length cs) cb h)
run-Counts (failed now ∷ cs) n cb h = run-Counts cs (suc n) _ (failed-Counts n (length cs) now cb h)

-- A new breaker that is closed after fewer than 2 ^ 63 calls has been told fewer failures since the
-- last success than its threshold, whatever calls came, in whatever order, and however late a
-- CanExecute entered the half-open state. The threshold has to be positive.
pub closed-in_row :
    (calls : List BreakerCall) (config : CircuitBreakerConfig)
    → pos 0 <ℤ config.failure_threshold
    → length calls < 2 ^ 63
    → (run calls (new_circuit_breaker config)).state ≡ closed
    → pos (in_row 0 calls) <ℤ config.failure_threshold
unfolding new_circuit_breaker ◌+ℤ◌
closed-in_row calls config positive few is_closed =
    let new : IsBelow config (new_circuit_breaker config) = (refl, λ _. positive) in
    let (same, below) = run-IsBelow calls config (new_circuit_breaker config) positive new in
    let counted =
      run-Counts calls 0 (new_circuit_breaker config)
        (record { low = omega arith; high = ground arith }) in
    let less = below is_closed in
    let less_here : (run calls (new_circuit_breaker config)).failures <ℤ config.failure_threshold =
      subst (λ c. (run calls (new_circuit_breaker config)).failures <ℤ c.failure_threshold) same
        less in
    ground arith

-- A call of CanExecute that is not cut in two.
abbrev pub IsWhole : BreakerCall → Type 0
IsWhole (tried now) = Unit {0}
IsWhole entered = ⊥
IsWhole succeeded = Unit {0}
IsWhole (failed now) = Unit {0}

-- The counter is between zero and n, and a breaker that is not closed has reached its threshold.
record Reached (threshold : ℤ) (n left : ℕ) (cb : CircuitBreaker) : Type 0 where
  threshold_is : cb.config.failure_threshold ≡ threshold
  low : pos 0 ≤ℤ cb.failures
  high : cb.failures ≤ℤ pos n
  small : n + left < 2 ^ 63
  reached : (cb.state ≡ closed) ⊎ (threshold ≤ℤ cb.failures)

module _ (threshold : ℤ) where
  tried-Reached :
      (n left : ℕ) (now : Time) (cb : CircuitBreaker)
      → Reached threshold n (suc left) cb
      → Reached threshold n left (can_execute now cb).0
  unfolding can_execute check enter_half_open
  tried-Reached n left now cb h =
      let t = h.threshold_is in
      let low = h.low in
      let high = h.high in
      let small = h.small in
      let reached = h.reached in
      record {
        threshold_is = ground arith;
        low = ground arith;
        high = ground arith;
        small = omega arith;
        reached = ground arith;
      }

  succeeded-Reached :
      (n left : ℕ) (cb : CircuitBreaker)
      → Reached threshold n (suc left) cb
      → Reached threshold n left (record_success cb)
  unfolding record_success
  succeeded-Reached n left cb h =
      let t = h.threshold_is in
      let low = h.low in
      let high = h.high in
      let small = h.small in
      let reached = h.reached in
      record {
        threshold_is = ground arith;
        low = ground arith;
        high = ground arith;
        small = omega arith;
        reached = ground arith;
      }

  failed-Reached :
      (n left : ℕ) (now : Time) (cb : CircuitBreaker)
      → Reached threshold n (suc left) cb
      → Reached threshold (suc n) left (record_failure now cb)
  unfolding record_failure ◌+ℤ◌
  failed-Reached n left now cb h =
      let t = h.threshold_is in
      let low = h.low in
      let high = h.high in
      let small = h.small in
      let reached = h.reached in
      let same : wrap64 (cb.failures +ℤ pos 1) ≡ cb.failures +ℤ pos 1 =
        wrap64_id (cb.failures +ℤ pos 1) (ground arith) in
      record {
        threshold_is = t;
        low = rw same (ground arith);
        high = rw same (ground arith);
        small = omega arith;
        reached = ground arith;
      }

  run-Reached :
      (calls : List BreakerCall) (n : ℕ) (cb : CircuitBreaker)
      → All IsWhole calls
      → Reached threshold n (length calls) cb
      → Reached threshold (n + in_all calls) 0 (run calls cb)
  unfolding in_all run
  run-Reached [] n cb whole h = subst (λ k. Reached threshold k 0 cb) (omega arith) h
  run-Reached (tried now ∷ cs) n cb (_, whole) h =
      run-Reached cs n _ whole (tried-Reached n (length cs) now cb h)
  run-Reached (entered ∷ cs) n cb (e, whole) h = absurd e
  run-Reached (succeeded ∷ cs) n cb (_, whole) h =
      run-Reached cs n _ whole (succeeded-Reached n (length cs) cb h)
  run-Reached (failed now ∷ cs) n cb (_, whole) h =
      let next = run-Reached cs (suc n) _ whole (failed-Reached n (length cs) now cb h) in
      subst (λ k. Reached threshold k 0 (run cs (record_failure now cb))) (omega arith) next

-- A new breaker that is no longer closed after fewer than 2 ^ 63 calls has been told at least as many
-- failures as its threshold, where no call of CanExecute was cut in two.
pub opened-in_all :
    (calls : List BreakerCall) (config : CircuitBreakerConfig)
    → length calls < 2 ^ 63
    → All IsWhole calls
    → ((run calls (new_circuit_breaker config)).state ≡ closed → ⊥)
    → config.failure_threshold ≤ℤ pos (in_all calls)
unfolding new_circuit_breaker
opened-in_all calls config few whole not_closed =
    let end =
      run-Reached config.failure_threshold calls 0 (new_circuit_breaker config) whole (record {
        threshold_is = refl;
        low = omega arith;
        high = omega arith;
        small = omega arith;
        reached = inl refl;
      }) in
    elim end.reached [
      | inl is_closed ↦ absurd (not_closed is_closed)
      | inr enough ↦ let high = end.high in omega arith
    ]
