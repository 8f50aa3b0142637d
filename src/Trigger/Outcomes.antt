-- ===== src/Trigger/Outcomes.antt =====
-- triggerMatchesState (internal/trigger/evaluator.go): the classes of triggers and the fallback.
use nut_operator.Prelude.{true, false, ◌≡◌, ◌↔◌, ◌⊎◌, refl, arith, is_empty, some}
use nut_operator.Prelude.Int.{ℤ, ◌≤ℤ◌}
use nut_operator.Text.{Text}
use nut_operator.Trigger.Inputs.{Trigger, UpsState}
use nut_operator.Trigger.Evaluator.{
  Class, on_battery, low_battery, runtime_below, charge_below, telemetry_stale, unsupported,
  class_of, outcome_matched, outcome_unavailable, is_unavailable, evaluate_class,
  evaluate_trigger_class, trigger_matches_state,
}

-- A trigger's condition is true of a device exactly when its own class says so, or its own class
-- lacks the telemetry, a fallback is declared, and the fallback's class says so.
pub matches_iff :
    (t : Trigger) (s : UpsState)
    → ((trigger_matches_state t s).0 ≡ true) ↔ (
        ((evaluate_trigger_class t.class t s).0 ≡ outcome_matched)
        ⊎ (((evaluate_trigger_class t.class t s).0 ≡ outcome_unavailable)
            × (is_empty t.fallback ≡ false)
            × ((evaluate_trigger_class t.fallback t s).0 ≡ outcome_matched)))
unfolding trigger_matches_state
matches_iff t s = ground arith

same_class :
    (c : Class) (name : Text) (t : Trigger) (s : UpsState) (other : Text)
    → evaluate_class c name (record t { fallback = other }) s ≡ evaluate_class c name t s
unfolding evaluate_class
same_class on_battery name t s other = refl
same_class low_battery name t s other = refl
same_class runtime_below name t s other = refl
same_class charge_below name t s other = refl
same_class telemetry_stale name t s other = refl
same_class unsupported name t s other = refl

same_outcome :
    (name : Text) (t : Trigger) (s : UpsState) (other : Text)
    → evaluate_trigger_class name (record t { fallback = other }) s
      ≡ evaluate_trigger_class name t s
unfolding evaluate_trigger_class
same_outcome name t s other = same_class (class_of name) name t s other

-- A device that reports the telemetry that a trigger's own class needs is judged alike, diagnostics
-- included, whatever fallback the trigger declares.
pub fallback_ignored :
    (t : Trigger) (s : UpsState) (other : Text)
    → is_unavailable (evaluate_trigger_class t.class t s).0 ≡ false
    → trigger_matches_state (record t { fallback = other }) s ≡ trigger_matches_state t s
unfolding trigger_matches_state
fallback_ignored t s other h = ground (arith, same_outcome t.class t s other)

-- A runtime trigger with a threshold is true of a device that reports its runtime exactly when the
-- runtime is at most the threshold.
pub runtime_condition :
    (t : Trigger) (s : UpsState) (limit value : ℤ)
    → class_of t.class ≡ runtime_below
    → t.runtime_below_seconds ≡ some limit
    → s.runtime_seconds ≡ some value
    → ((trigger_matches_state t s).0 ≡ true) ↔ (value ≤ℤ limit)
unfolding trigger_matches_state evaluate_trigger_class
runtime_condition t s limit value c l v = ground arith
