-- ===== src/Operator/Shutdown/States.antt =====
-- The states of the components, after the updates: what every entry satisfies.
use spotalis.Common.{
  String, Bool, true, ◌&&◌, if◌then◌else◌, Option, none, [], ◌∷◌, ◌≡◌, refl, ◌∙◌, arith, str_eq,
  eq_refl, Bool-cases, inl, inr,
}
use spotalis.Common.Assoc.{Assoc, set}
use spotalis.Operator.Shutdown.{
  ComponentShutdownState, ShutdownState, ShutdownManager, Answers, all_entries, is_final,
  update_component_state_with_error, update_component_state, started,
}

-- All entries but the first of a name.
pub others : (ComponentShutdownState → Bool) → String → Assoc ComponentShutdownState → Bool
others good name [] = true
others good name ((j, state) ∷ states) =
    let rest = others good name states in
    if str_eq j name then all_entries good states else good state && rest

module _ (good : ComponentShutdownState → Bool) (name : String)
    (value : ComponentShutdownState) where
  all_entries-set :
      (states : Assoc ComponentShutdownState)
      → all_entries good (set name value states) ≡ (good value && others good name states)
  unfolding all_entries set others
  all_entries-set [] = refl
  all_entries-set ((j, state) ∷ states) = ground (arith, all_entries-set states)

  others-set :
      (states : Assoc ComponentShutdownState)
      → others good name (set name value states) ≡ others good name states
  unfolding all_entries set others
  others-set [] = ground (arith, eq_refl name)
  others-set ((j, state) ∷ states) = ground (arith, others-set states)

pub others-all_entries :
    (good : ComponentShutdownState → Bool) (name : String) (states : Assoc ComponentShutdownState)
    → all_entries good states ≡ true
    → others good name states ≡ true
unfolding all_entries others
others-all_entries good name [] h = refl
others-all_entries good name ((j, state) ∷ states) h =
    ground (arith, others-all_entries good name states)

-- A test of the state and the error of an entry.
module _ (test : ShutdownState → Option String → Bool) (answers : Answers) where
  abbrev pub passes_test : ComponentShutdownState → Bool
  passes_test entry = test entry.state entry.error

  abbrev pub AllPass : ShutdownManager → Type 0
  AllPass m = all_entries passes_test m.component_states ≡ true

  module _ (name : String) (state : ShutdownState) (error : Option String)
      (m : ShutdownManager) where
    pub all_entries-update :
        all_entries passes_test
          (update_component_state_with_error answers name state error m).component_states
        ≡ (test state error && others passes_test name m.component_states)
    unfolding update_component_state_with_error
    all_entries-update =
        all_entries-set passes_test name _ m.component_states ∙ elim (Bool-cases (is_final state)) [
          | inl final ↦ rw final refl
          | inr other ↦ rw other refl
        ]

    others-update :
        others passes_test name
          (update_component_state_with_error answers name state error m).component_states
        ≡ others passes_test name m.component_states
    unfolding update_component_state_with_error
    others-update = others-set passes_test name _ m.component_states

  -- A component that is set again passes if its new state does; the others are as before.
  pub update_again-AllPass :
      (name : String) (state : ShutdownState) (error : Option String) (m between : ShutdownManager)
      → between.component_states ≡ (update_component_state answers name started m).component_states
      → test state error ≡ true
      → AllPass m
      → AllPass (update_component_state_with_error answers name state error between)
  unfolding update_component_state
  update_again-AllPass name state error m between same fine h =
      all_entries-update name state error between
      ∙ rw (fine, same, others-update name started none m)
          (others-all_entries passes_test name m.component_states h)
