-- ===== src/Adaptive/Examples.antt =====
-- Concrete flows, observations and a fixed-point stand-in for float64, and the theorems at them.
pub mod Fixed
use nut_operator.Prelude.{
  ℕ, Bool, true, false, ◌&&◌, ◌≡◌, refl, ◌⊎◌, inl, inr, ◌≤◌, List, [], ◌∷◌, arith, Option, none,
  some, leb, ◌||◌,
}
use nut_operator.Prelude.Int.{ℤ, pos, ◌≤ℤ◌, ◌-ℤ◌, ◌+ℤ◌, leb_ℤ}
use nut_operator.Prelude.Words.{wrap32, wrap64}
use nut_operator.Diagnostics.{has_error}
use nut_operator.Adaptive.Float.{one, IsNumber}
use nut_operator.Adaptive.Parameters.{
  Parameters, default_parameters, with_defaults, validate, seconds,
}
use nut_operator.Adaptive.Parameters.Laws.{
  validate-has_error, with_defaults_pos, with_defaults_idem,
}
use nut_operator.Adaptive.Pointer.{
  PowerObservation, PointerState, PointerMovement, descending, descend, ascend, halt, normalize,
}
use nut_operator.Adaptive.Pointer.Run.{
  Inv, IsFlow, Call, call_descend, call_ascend, call_halt, step, run, waiting_at,
}
use nut_operator.Adaptive.Pointer.History.{executed, reached, run-executed, reexecution_exact}
use nut_operator.Adaptive.Pointer.Latch.{halted_absorbs, normalize_repairs, descents}
use nut_operator.Adaptive.Timing.{
  relaxed, nominal, urgent, urgency, TimingState, indicated_mode, observe, applied, relaxed_shift,
  relaxation_earned,
}
use nut_operator.Adaptive.Timing.Modes.{observe-urgency, observe_unknown_urgent}
use nut_operator.Adaptive.Timing.Streaks.{
  streak, improves, observe_all, in_mode, relaxation_has_streak,
}
use nut_operator.Adaptive.Timing.Mains.{mains_relaxes}
use nut_operator.Adaptive.Budget.{TimingBudget, budget, scale_duration, measured_runtime}
use nut_operator.Adaptive.Budget.Bounds.{budget_bounds, scale_duration_bounds}
use Fixed.{fixed_float, fixed-IsIeee}

IsFlow-5_1 : IsFlow (pos 5) (pos 1)
IsFlow-5_1 = omega arith

-- Down two tiers, up one, and so about to cross tier 4 again.
abbrev dip : List Call
dip = call_descend ∷ call_descend ∷ call_ascend ∷ []

run-executed_example : executed (pos 4) (reached (pos 5) (pos 1) dip).1 ≡ (
    (reached (pos 5) (pos 1) dip).0.started
    && leb_ℤ (reached (pos 5) (pos 1) dip).0.deepest (pos 4)
    && leb_ℤ (pos 4) (pos 5))
run-executed_example = run-executed (pos 5) (pos 1) dip (pos 4) IsFlow-5_1

reexecution_exact_example :
    (descend (pos 1) (reached (pos 5) (pos 1) dip).0).1.reexecution
    ≡ executed
        (descend (pos 1) (reached (pos 5) (pos 1) dip).0).1.target
        (reached (pos 5) (pos 1) dip).1
unfolding run step descend ascend wrap32 ◌-ℤ◌ ◌+ℤ◌
reexecution_exact_example = reexecution_exact (pos 5) (pos 1) dip IsFlow-5_1 refl

dip_is_marked : (descend (pos 1) (reached (pos 5) (pos 1) dip).0).1.reexecution ≡ true
unfolding run step descend ascend wrap32 ◌-ℤ◌ ◌+ℤ◌
dip_is_marked = refl

abbrev aborted : PointerState
aborted = record { tier = pos 3; deepest = pos 3; started = true; halted = true }

halted_absorbs_example :
    ((run (pos 5) (pos 1) aborted [] dip).0.halted ≡ true)
    × ((run (pos 5) (pos 1) aborted [] dip).0.tier ≡ pos 3)
    × (executed (pos 2) (run (pos 5) (pos 1) aborted [] dip).1 ≡ executed (pos 2) [])
halted_absorbs_example = halted_absorbs (pos 5) (pos 1) aborted [] (pos 2) dip refl

-- A record from before `deepest` was written.
abbrev old_record : PointerState
old_record = record { tier = pos 3; deepest = pos 0; started = true; halted = false }

abbrev params : Parameters ℕ
params = default_parameters

abbrev on_battery_for : ℤ → PowerObservation
on_battery_for n = record {
  on_battery = true;
  low_battery = false;
  runtime_seconds = some n;
  runtime_trusted = true;
}

abbrev blind : PowerObservation
blind = record {
  on_battery = true;
  low_battery = false;
  runtime_seconds = none;
  runtime_trusted = false;
}

abbrev mains : PowerObservation
mains = record {
  on_battery = false;
  low_battery = false;
  runtime_seconds = none;
  runtime_trusted = false;
}

immediate : (with_defaults params).escalate_after_observations ≤ℤ pos 1
unfolding with_defaults
immediate = omega arith

observe-urgency_example :
    urgency (indicated_mode (on_battery_for (pos 200)) (with_defaults params))
    ≤ urgency (observe (in_mode relaxed) (on_battery_for (pos 200)) params).0.mode
observe-urgency_example =
    observe-urgency (in_mode relaxed) (on_battery_for (pos 200)) params immediate

-- Two good readings, and the third relaxes the mode.
abbrev good : List PowerObservation
good = on_battery_for (pos 1000) ∷ on_battery_for (pos 1000) ∷ []

relaxation_has_streak_example :
    (with_defaults params).relax_after_observations
    ≤ℤ pos (
        streak
          (improves
            (with_defaults params)
            (indicated_mode (on_battery_for (pos 1000)) (with_defaults params)))
          (on_battery_for (pos 1000) ∷ (observe_all params (in_mode urgent) [] good).1))
unfolding observe indicated_mode with_defaults relaxation_earned wrap64 ◌+ℤ◌
relaxation_has_streak_example =
    relaxation_has_streak params urgent good (on_battery_for (pos 1000)) immediate refl

mains_relaxes_example :
    (observe_all params (in_mode urgent) [] (mains ∷ mains ∷ mains ∷ [])).0.mode ≡ relaxed
unfolding with_defaults
mains_relaxes_example =
    mains_relaxes params urgent mains (mains ∷ mains ∷ []) (omega arith) (omega arith)
      ((refl, refl), ((refl, refl), ((refl, refl), tt)))

budget_bounds_example :
    (leb
        (with_defaults params).minimum_compression
        (budget params (on_battery_for (pos 120)) (pos 600000000000)).compression
      ≡ true)
    × (leb (budget params (on_battery_for (pos 120)) (pos 600000000000)).compression one ≡ true)
unfolding with_defaults
budget_bounds_example =
    budget_bounds fixed-IsIeee params (on_battery_for (pos 120)) (pos 600000000000)
      (omega arith, omega arith) refl refl

-- A plan of ten minutes with two minutes of runtime left, a fifth of them in reserve.
pressed : (budget params (on_battery_for (pos 120)) (pos 600000000000)).compression ≡ 160
unfolding budget with_defaults measured_runtime seconds
pressed = refl

abbrev pressed_budget : TimingBudget ℕ
pressed_budget = record {
  compression = 160;
  available = pos 96000000000;
  required = pos 600000000000;
  fits = true;
  runtime_measured = true;
}

scale_duration_bounds_example :
    (pos 0 ≤ℤ scale_duration (pos 30000000000) pressed_budget)
    × (scale_duration (pos 30000000000) pressed_budget ≤ℤ pos 30000000000)
scale_duration_bounds_example =
    scale_duration_bounds fixed-IsIeee (pos 30000000000) pressed_budget (omega arith) refl
