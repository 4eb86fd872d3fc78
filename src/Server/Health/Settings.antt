-- ===== src/Server/Health/Settings.antt =====
-- Sequences of the calls that set a HealthChecker, and what the endpoints answer after them.
use spotalis.Common.{◌≡◌, true, false, String, List, [], ◌∷◌, All, arith, refl, str_eq}
use Prim.{Unit}
use spotalis.Common.Time.{Time}
use spotalis.Server.Health.{
  HealthChecker, Answers, readyz_handler, set_unhealthy, set_not_ready, set_kubernetes_unavailable,
  clear_unhealthy, clear_not_ready, clear_kubernetes_unavailable, status_service_unavailable, tally,
  note, fault, is_set,
}

pub data Call : Type 0 where
  sets_unhealthy sets_not_ready : String → Call
  sets_unavailable clears_unhealthy clears_not_ready clears_unavailable : Call

unfoldable pub make : Call → HealthChecker → HealthChecker
make (sets_unhealthy reason) h = set_unhealthy reason h
make (sets_not_ready reason) h = set_not_ready reason h
make sets_unavailable h = set_kubernetes_unavailable h
make clears_unhealthy h = clear_unhealthy h
make clears_not_ready h = clear_not_ready h
make clears_unavailable h = clear_kubernetes_unavailable h

unfoldable pub run : List Call → HealthChecker → HealthChecker
run [] h = h
run (call ∷ calls) h = run calls (make call h)

-- A call that does not take the reason off: no ClearNotReady, and no empty reason.
abbrev pub KeepsReason : Call → Type 0
KeepsReason (sets_unhealthy reason) = Unit {0}
KeepsReason (sets_not_ready reason) = str_eq reason "" ≡ false
KeepsReason sets_unavailable = Unit {0}
KeepsReason clears_unhealthy = Unit {0}
KeepsReason clears_not_ready = ⊥
KeepsReason clears_unavailable = Unit {0}

make-is_set :
    (call : Call) (h : HealthChecker)
    → is_set h.not_ready_reason ≡ true
    → KeepsReason call
    → is_set (make call h).not_ready_reason ≡ true
unfolding make is_set set_unhealthy set_not_ready set_kubernetes_unavailable clear_unhealthy
    clear_kubernetes_unavailable
make-is_set (sets_unhealthy reason) h set keeps = set
make-is_set (sets_not_ready reason) h set keeps = ground arith
make-is_set sets_unavailable h set keeps = set
make-is_set clears_unhealthy h set keeps = set
make-is_set clears_not_ready h set keeps = absurd keeps
make-is_set clears_unavailable h set keeps = set

run-is_set :
    (calls : List Call) (h : HealthChecker)
    → is_set h.not_ready_reason ≡ true
    → All KeepsReason calls
    → is_set (run calls h).not_ready_reason ≡ true
unfolding run
run-is_set [] h set keep = set
run-is_set (call ∷ calls) h set keep =
    run-is_set calls (make call h) (make-is_set call h set keep.0) keep.1

-- A checker with a reason against it is not ready, whatever the API server answers.
pub refuses :
    (now : Time) (answers : Answers) (h : HealthChecker)
    → is_set h.not_ready_reason ≡ true
    → (readyz_handler now answers h).code ≡ status_service_unavailable
unfolding readyz_handler tally note fault
refuses now answers h set = rw set (ground arith)

-- Once it is set not ready for a reason, /readyz answers 503 until the reason is taken off, whatever
-- else is set or cleared and whatever the API server answers.
pub run-refuses :
    (calls : List Call) (reason : String) (h : HealthChecker) (now : Time) (answers : Answers)
    → str_eq reason "" ≡ false
    → All KeepsReason calls
    → (readyz_handler now answers (run calls (set_not_ready reason h))).code
      ≡ status_service_unavailable
unfolding set_not_ready is_set
run-refuses calls reason h now answers some_reason keep =
    refuses now answers _ (run-is_set calls (set_not_ready reason h) (rw some_reason refl) keep)
