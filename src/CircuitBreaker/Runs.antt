-- ===== src/CircuitBreaker/Runs.antt =====
-- What holds along every sequence of calls on a breaker of pkg/utils/rate_limiter.go.
use spotalis.Common.{
  ◌≡◌, refl, true, false, List, [], ◌∷◌, ℤ, pos, pos_part, neg_part, ◌<ℤ◌, ◌≤◌, ltb_ℤ, leb_ℤ, All,
  arith, subst, sym, ◌+◌,
}
use Prim.{Unit, tt}
use spotalis.Common.Time.{Time, since, sub_time}
use spotalis.CircuitBreaker.{
  CircuitBreaker, CircuitBreakerConfig, closed, «open», half_open, check, enter_half_open,
  can_execute, record_success, record_failure, BreakerCall, tried, entered, succeeded, failed, step,
  run, answers,
}

-- A closed breaker has had fewer failures in a row than its threshold.
abbrev pub IsClosedBelow : CircuitBreaker → Type 0
IsClosedBelow cb = cb.state ≡ closed → cb.failures <ℤ cb.config.failure_threshold

-- The configuration stays.
abbrev pub IsBelow : CircuitBreakerConfig → CircuitBreaker → Type 0
IsBelow config cb = (cb.config ≡ config) × IsClosedBelow cb

step-IsBelow :
    (config : CircuitBreakerConfig) (c : BreakerCall) (cb : CircuitBreaker)
    → pos 0 <ℤ config.failure_threshold
    → IsBelow config cb
    → IsBelow config (step c cb)
unfolding can_execute check enter_half_open record_success record_failure
step-IsBelow config (tried now) cb p (same, h) = (ground arith, λ e. ground arith)
step-IsBelow config entered cb p (same, h) = (same, λ e. cc e)
step-IsBelow config succeeded cb p (same, h) = (ground arith, λ e. ground arith)
step-IsBelow config (failed now) cb p (same, h) = (ground arith, λ e. ground arith)

-- Whatever calls come, in whatever order, and however late a CanExecute enters the half-open state: a
-- breaker that is closed has had fewer failures in a row than its threshold, if it was so before.
-- The threshold has to be positive.
pub run-IsBelow :
    (calls : List BreakerCall) (config : CircuitBreakerConfig) (cb : CircuitBreaker)
    → pos 0 <ℤ config.failure_threshold
    → IsBelow config cb
    → IsBelow config (run calls cb)
unfolding run
run-IsBelow [] config cb p h = h
run-IsBelow (c ∷ cs) config cb p h =
    run-IsBelow cs config (step c cb) p (step-IsBelow config c cb p h)

-- A call before the recovery time after t is over.
abbrev pub IsEarly : Time → ℤ → BreakerCall → Type 0
IsEarly t timeout (tried now) = since now t <ℤ timeout
IsEarly t timeout entered = ⊥
IsEarly t timeout succeeded = Unit
IsEarly t timeout (failed now) = t ≤ now

abbrev IsOpenSince : Time → CircuitBreaker → Type 0
IsOpenSince t cb = (cb.state ≡ «open») × (t ≤ cb.last_failure_time)

later_is_less :
    (now t u : Time)
    → t ≤ u
    → pos_part (since now u) + neg_part (since now t)
      ≤ pos_part (since now t) + neg_part (since now u)
unfolding sub_time
later_is_less now t u h = ground arith

denied :
    (t now : Time) (cb : CircuitBreaker)
    → IsOpenSince t cb
    → since now t <ℤ cb.config.recovery_timeout
    → can_execute now cb ≡ (cb, false)
unfolding can_execute check
denied t now cb (is_open, h) early =
    let less = later_is_less now t cb.last_failure_time h in
    let no : leb_ℤ cb.config.recovery_timeout (since now cb.last_failure_time) ≡ false =
      ground arith in
    rw (can_execute, is_open, no) refl

success_kept : (cb : CircuitBreaker) → cb.state ≡ «open» → record_success cb ≡ cb
unfolding record_success
success_kept cb h = ground arith

failure_kept :
    (t now : Time) (cb : CircuitBreaker)
    → IsOpenSince t cb
    → t ≤ now
    → IsOpenSince t (record_failure now cb) × ((record_failure now cb).config ≡ cb.config)
unfolding record_failure
failure_kept t now cb (is_open, h) le = ((rw is_open refl, le), refl)

-- An open breaker lets no call through before the recovery time after a failure at t is over, while
-- later failures may come and no CanExecute is half done: every CanExecute answers false, and the
-- breaker stays open.
pub stays_open :
    (calls : List BreakerCall) (t : Time) (cb : CircuitBreaker)
    → cb.state ≡ «open»
    → t ≤ cb.last_failure_time
    → All (IsEarly t cb.config.recovery_timeout) calls
    → All (λ b. b ≡ false) (answers calls cb) × ((run calls cb).state ≡ «open»)
unfolding run answers
stays_open [] t cb o h early = (tt, o)
stays_open (tried now ∷ cs) t cb o h (e, early) =
    let same : can_execute now cb ≡ (cb, false) = denied t now cb (o, h) e in
    let (all, still) = stays_open cs t cb o h early in
    subst (λ r. All (λ b. b ≡ false) (r.1 ∷ answers cs r.0) × ((run cs r.0).state ≡ «open»))
      (sym same) ((refl, all), still)
stays_open (entered ∷ cs) t cb o h (e, early) = absurd e
stays_open (succeeded ∷ cs) t cb o h (_, early) =
    let (all, still) = stays_open cs t cb o h early in
    subst (λ c. All (λ b. b ≡ false) (answers cs c) × ((run cs c).state ≡ «open»))
      (sym (success_kept cb o)) (all, still)
stays_open (failed now ∷ cs) t cb o h (le, early) =
    let ((o', h'), same) = failure_kept t now cb (o, h) le in
    stays_open cs t (record_failure now cb) o' h'
      (subst (λ c. All (IsEarly t c.recovery_timeout) cs) (sym same) early)

admitted :
    (now : Time) (cb : CircuitBreaker)
    → cb.state ≡ half_open
    → cb.half_open_requests <ℤ cb.config.half_open_requests
    → can_execute now cb ≡ (cb, true)
unfolding can_execute check
admitted now cb h lt =
    let yes : ltb_ℤ cb.half_open_requests cb.config.half_open_requests ≡ true = ground arith in
    rw (can_execute, h, yes) refl

abbrev pub all_tried : List Time → List BreakerCall
all_tried [] = []
all_tried (now ∷ times) = tried now ∷ all_tried times

-- A half-open breaker that has seen fewer successes than it admits requests lets every call through,
-- however many there are: the calls are not counted, their successes are.
pub half_open_unlimited :
    (times : List Time) (cb : CircuitBreaker)
    → cb.state ≡ half_open
    → cb.half_open_requests <ℤ cb.config.half_open_requests
    → All (λ b. b ≡ true) (answers (all_tried times) cb) × (run (all_tried times) cb ≡ cb)
unfolding run answers
half_open_unlimited [] cb h lt = (tt, refl)
half_open_unlimited (now ∷ times) cb h lt =
    let same : can_execute now cb ≡ (cb, true) = admitted now cb h lt in
    let (all, kept) = half_open_unlimited times cb h lt in
    subst
      (λ r.
        All (λ b. b ≡ true) (r.1 ∷ answers (all_tried times) r.0)
        × (run (all_tried times) r.0 ≡ cb))
      (sym same) ((refl, all), kept)
