-- ===== src/Executor/Pointer.antt =====
-- internal/executor/adaptive.go: the power state of a wave and the walk of the tier pointer.
use nut_operator.Prelude.{
  ℕ, zero, suc, Bool, true, false, not, ◌||◌, List, [], ◌∷◌, none, some, if◌then◌else◌, is_empty,
}
use nut_operator.Prelude.Int.{ℤ, pos, pos_part, ◌+ℤ◌, ◌-ℤ◌, leb_ℤ, ltb_ℤ, eq_ℤ}
use nut_operator.Prelude.Words.{wrap64}
use nut_operator.Diagnostics.{number}
use nut_operator.Adaptive.Float.{Float64}
use nut_operator.Adaptive.Parameters.{Parameters, with_defaults}
use nut_operator.Adaptive.Pointer.{
  PowerObservation, PointerState, PointerMovement, Direction, descending, stay, holding, descend,
  ascend, should_descend,
}
use nut_operator.Adaptive.Timing.{TimingMode, TimingState, TimingTransition, observe}
use nut_operator.Adaptive.Budget.{TimingBudget, budget}
use nut_operator.Executor.Types.{Moment, Fault, stated, Wave, Executor}

pub record AdaptiveInput (F : Type 0) : Type 0 where
  pub parameters : Parameters F
  pub pointer : PointerState
  pub timing : TimingState
  pub observation : PowerObservation
  pub final_tier : ℤ
  pub start_tier : ℤ

-- `waveAdaptiveState`, less its printed events.
pub record WaveState (F : Type 0) : Type 0 where
  pub mode : TimingMode
  pub pointer : PointerState
  pub timing : TimingState
  pub observation : PowerObservation
  pub movement : PointerMovement
  pub transition : TimingTransition
  pub budget : TimingBudget F

abbrev pub is_descending : Direction → Bool
is_descending descending = true
is_descending _ = false

-- The loop of descendToWaveTier. A round lowers the tier by one or ends it, so that as many rounds
-- as there are tiers above the target are enough.
unfoldable pub descend_steps :
    ℕ → ℤ → ℤ → PointerState → PointerMovement → PointerState × PointerMovement
descend_steps zero final target s m = (s, m)
descend_steps (suc fuel) final target s m =
    let (next, step) = descend final s in
    let later = descend_steps fuel final target next (record {
      source = m.source;
      target = step.target;
      direction = descending;
      reexecution = m.reexecution || step.reexecution;
    }) in
    if not (ltb_ℤ target s.tier)
    then (s, m)
    else if not (is_descending step.direction) || eq_ℤ next.tier s.tier
    then (s, m)
    else later

abbrev pub above : ℤ → ℤ → ℕ
above tier target = pos_part (tier -ℤ target)

unfoldable pub descend_to_wave_tier : PointerState → Wave → ℤ → PointerState × PointerMovement
unfolding descend_steps ◌-ℤ◌
descend_to_wave_tier s w final = elim w.shutdown_tier [
  | none ↦ descend final s
  | some t ↦
      let target = if ltb_ℤ t final then final else t in
      if not s.started
      then descend final (record s { tier = target })
      else descend_steps (above s.tier target) final target s (stay s holding)
]

module _ {F : Type 0} where
  unfoldable pub final_tier_of : AdaptiveInput F → ℤ
  final_tier_of i = if leb_ℤ i.final_tier (pos 0) then pos 1 else i.final_tier

  unfoldable pub start_tier_of : AdaptiveInput F → Wave → ℤ
  unfolding final_tier_of
  start_tier_of i w =
      if ltb_ℤ (pos 0) i.start_tier
      then i.start_tier
      else elim w.shutdown_tier [ none ↦ final_tier_of i | some t ↦ t ]

-- The durations of the waves not yet run, in int64.
unfoldable pub remaining_plan_duration : ℤ → List Wave → ℤ
remaining_plan_duration total [] = total
remaining_plan_duration total (w ∷ ws) = remaining_plan_duration (wrap64 (total +ℤ w.duration)) ws

module _ {F : Type 0} ⦃fl : Float64 F⦄ where
  -- Once the observation is read.
  unfoldable pub evaluate_observed : AdaptiveInput F → Wave → ℤ → PowerObservation → WaveState F
  unfolding descend_to_wave_tier final_tier_of start_tier_of
  evaluate_observed i w remaining o =
      let p = with_defaults i.parameters in
      let (timing, transition) = observe i.timing o p in
      let (pointer, movement) =
        if should_descend o
        then descend_to_wave_tier i.pointer w (final_tier_of i)
        else ascend (start_tier_of i w) i.pointer in
      record {
        mode = timing.mode;
        pointer = pointer;
        timing = timing;
        observation = o;
        movement = movement;
        transition = transition;
        budget = budget p o remaining;
      }

  -- A failed read has no state: it ends the run.
  unfoldable pub evaluate_wave :
      Executor → Moment → AdaptiveInput F → Wave → ℤ → WaveState F × Fault
  unfolding evaluate_observed
  evaluate_wave ex at i w remaining = elim ex.observer [
    | none ↦ (evaluate_observed i w remaining i.observation, [])
    | some read ↦
        let (o, problems) = read at in
        (
          evaluate_observed i w remaining o,
          if is_empty problems
              then []
              else stated "read power state for wave %d" (number w.index ∷ []) ∷ problems,
        )
  ]
