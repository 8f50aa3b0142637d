-- ===== src/Adaptive/Timing/Modes.antt =====
-- TimingState.Observe (internal/adaptive/timing.go): the modes it may come to.
use nut_operator.Prelude.{true, false, ◌≡◌, ◌≤◌, arith, none, ◌⊎◌}
use nut_operator.Prelude.Int.{pos, ◌≤ℤ◌}
use nut_operator.Adaptive.Float.{Float64}
use nut_operator.Adaptive.Parameters.{Parameters, with_defaults}
use nut_operator.Adaptive.Pointer.{PowerObservation}
use nut_operator.Adaptive.Timing.{urgent, urgency, TimingState, indicated_mode, observe}

module _ {F : Type 0} ⦃fl : Float64 F⦄ where
  -- With immediate escalation (at most one observation, as the defaults have it), the mode after an
  -- observation is at least as urgent as the one that the observation indicates, whatever the state
  -- before: evidence of urgency is never delayed.
  pub observe-urgency :
      (s : TimingState) (o : PowerObservation) (q : Parameters F)
      → (with_defaults q).escalate_after_observations ≤ℤ pos 1
      → urgency (indicated_mode o (with_defaults q)) ≤ urgency (observe s o q).0.mode
  unfolding observe
  observe-urgency s o q h = ground arith

  indicated_urgent :
      (o : PowerObservation) (p : Parameters F)
      → (o.low_battery ≡ true)
        ⊎ ((o.on_battery ≡ true) × ((o.runtime_seconds ≡ none) ⊎ (o.runtime_trusted ≡ false)))
      → indicated_mode o p ≡ urgent
  unfolding indicated_mode
  indicated_urgent o p c = ground arith

  -- On battery without a trusted runtime, or with the device's own low-battery flag, the mode after
  -- the observation is Urgent, where escalation is immediate.
  pub observe_unknown_urgent :
      (s : TimingState) (o : PowerObservation) (q : Parameters F)
      → (with_defaults q).escalate_after_observations ≤ℤ pos 1
      → (o.low_battery ≡ true)
        ⊎ ((o.on_battery ≡ true) × ((o.runtime_seconds ≡ none) ⊎ (o.runtime_trusted ≡ false)))
      → (observe s o q).0.mode ≡ urgent
  observe_unknown_urgent s o q h c =
      ground (arith, observe-urgency s o q h, indicated_urgent o (with_defaults q) c)
