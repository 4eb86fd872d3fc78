-- ===== src/Apis/ControllerConfiguration/Examples.antt =====
-- The theorems on the configuration of the controllers at concrete inputs.
use spotalis.Common.Words.{wrap64}
use spotalis.Common.{◌*ℤ◌, ◌≡◌, refl, pos, none}
use Prim.{Unit}
use spotalis.Apis.ControllerConfiguration.{
  ControllerConfiguration, default_controller_configuration, validate,
}
use spotalis.Apis.ControllerConfiguration.Validity.{IsValid, validate-validate}

abbrev Selector : Type 0
Selector = Unit

-- The number of reconciles is left open.
abbrev sparse : ControllerConfiguration Selector
sparse = record default_controller_configuration {
  workers = pos 7;
  max_concurrent_reconciles = pos 0;
}

abbrev filled : ControllerConfiguration Selector
filled = (validate sparse).0

validate-validate_example : IsValid filled × (validate filled ≡ (filled, none))
unfolding validate default_controller_configuration
validate-validate_example = validate-validate sparse filled refl

two_each : filled.max_concurrent_reconciles ≡ pos 14
unfolding validate default_controller_configuration wrap64 ◌*ℤ◌
two_each = refl
