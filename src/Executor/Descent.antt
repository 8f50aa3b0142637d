-- ===== src/Executor/Descent.antt =====
-- descendToWaveTier (internal/executor/adaptive.go): where the walk of the tier pointer ends.
use nut_operator.Prelude.{
  ℕ, zero, suc, ◌+◌, ◌≤◌, true, false, not, ◌||◌, some, if◌then◌else◌, ◌≡◌, arith, if_cases,
}
use nut_operator.Prelude.Int.{
  ℤ, pos, pos_part, neg_part, ◌-ℤ◌, ◌≤ℤ◌, ◌<ℤ◌, ltb_ℤ, eq_ℤ, -ℤ_parts, parts_apart,
}
use nut_operator.Adaptive.Pointer.{
  PointerState, PointerMovement, descending, descend, stay, holding,
}
use nut_operator.Adaptive.Pointer.Run.{Inv, IsFlow, descend-Inv, wrap32_pred}
use nut_operator.Executor.Types.{Wave}
use nut_operator.Executor.Pointer.{is_descending, descend_steps, above, descend_to_wave_tier}

-- One step of a flow that has begun and is not halted, above the last tier.
record IsStepDown (s : PointerState) (r : PointerState × PointerMovement) : Type 0 where
  lower : r.0.tier ≡ s.tier -ℤ pos 1
  started : r.0.started ≡ true
  live : r.0.halted ≡ false
  down : is_descending r.1.direction ≡ true

descend-IsStepDown :
    (start final : ℤ) (s : PointerState)
    → IsFlow start final
    → Inv start final s
    → s.started ≡ true
    → s.halted ≡ false
    → final <ℤ s.tier
    → IsStepDown s (descend final s)
unfolding descend
descend-IsStepDown start final s f i begun live above = record {
  lower = ground (arith, wrap32_pred start final s.tier f, i.below_start, begun, live, above);
  started = ground (arith, begun, live, above);
  live = ground (arith, begun, live, above);
  down = ground (arith, begun, live, above);
}

-- No further above the target than the fuel.
abbrev IsWithin : ℕ → ℤ → PointerState → Type 0
IsWithin fuel target s =
    pos_part s.tier + neg_part target ≤ fuel + pos_part target + neg_part s.tier

-- The walk ends at the target.
abbrev IsAt : ℤ → PointerState → Type 0
IsAt target s = (s.tier ≤ℤ target) × (target ≤ℤ s.tier)

above_final : (final target tier : ℤ) → final ≤ℤ target → target <ℤ tier → final <ℤ tier
above_final final target tier h k = omega (arith, h, k)

lower-IsWithin :
    (fuel : ℕ) (target : ℤ) (s next : PointerState)
    → next.tier ≡ s.tier -ℤ pos 1
    → target <ℤ s.tier
    → IsWithin (suc fuel) target s
    → IsWithin fuel target next
lower-IsWithin fuel target s next lower h near = rw lower (
    omega
      (arith, -ℤ_parts s.tier (pos 1), parts_apart s.tier, parts_apart (s.tier -ℤ pos 1), h, near))

not_above : (target tier : ℤ) → ltb_ℤ target tier ≡ false → tier ≤ℤ target
not_above target tier h = ground (arith, h)

is_above : (target tier : ℤ) → ltb_ℤ target tier ≡ true → target <ℤ tier
is_above target tier h = ground (arith, h)

moved : (next tier : ℤ) → next ≡ tier -ℤ pos 1 → eq_ℤ next tier ≡ false
moved next tier h = rw h (ground (arith, -ℤ_parts tier (pos 1), parts_apart tier))

still_above : (target tier next : ℤ) → next ≡ tier -ℤ pos 1 → target <ℤ tier → target ≤ℤ next
still_above target tier next same h =
    rw same (omega (arith, -ℤ_parts tier (pos 1), parts_apart tier, parts_apart target, h))

descend_steps-IsAt :
    (start final target : ℤ) (fuel : ℕ) (s : PointerState) (m : PointerMovement)
    → IsFlow start final
    → final ≤ℤ target
    → Inv start final s
    → s.started ≡ true
    → s.halted ≡ false
    → target ≤ℤ s.tier
    → IsWithin fuel target s
    → IsAt target (descend_steps fuel final target s m).0
unfolding descend_steps
descend_steps-IsAt start final target zero s m f bound i begun live low near =
    (omega (arith, near), low)
descend_steps-IsAt start final target (suc fuel) s m f bound i begun live low near =
    let (next, step) = descend final s in
    let m' : PointerMovement = record {
      source = m.source;
      target = step.target;
      direction = descending;
      reexecution = m.reexecution || step.reexecution;
    } in
    let later = descend_steps fuel final target next m' in
    let P : PointerState × PointerMovement → Type 0 = λ r. IsAt target r.0 in
    if_cases P (not (ltb_ℤ target s.tier)) (s, m)
      (if not (is_descending step.direction) || eq_ℤ next.tier s.tier then (s, m) else later)
      (λ there. (not_above target s.tier (ground (arith, there)), low))
      (λ higher.
        let above_target = is_above target s.tier (ground (arith, higher)) in
        let down =
          descend-IsStepDown start final s f i begun live
            (above_final final target s.tier bound above_target) in
        rw (down.down, moved next.tier s.tier down.lower)
          (descend_steps-IsAt start final target fuel next m' f bound
            (descend-Inv start final s f i) down.started down.live
            (still_above target s.tier next.tier down.lower above_target)
            (lower-IsWithin fuel target s next down.lower above_target near)))

-- The tier of a wave, but no lower than the flow's last.
abbrev pub target_of : ℤ → ℤ → ℤ
target_of final t = if ltb_ℤ t final then final else t

above-IsWithin : (target : ℤ) (s : PointerState) → IsWithin (above s.tier target) target s
above-IsWithin target s = omega (arith, -ℤ_parts s.tier target)

final_bound : (final t : ℤ) → final ≤ℤ target_of final t
final_bound final t = ground arith

entered :
    (final target : ℤ) (s : PointerState)
    → s.started ≡ false
    → s.halted ≡ false
    → ((descend final (record s { tier = target })).0.tier ≡ target)
      × ((descend final (record s { tier = target })).0.started ≡ true)
unfolding descend
entered final target s fresh live = (ground (arith, fresh, live), ground (arith, fresh, live))

at_self : (target tier : ℤ) → tier ≡ target → (tier ≤ℤ target) × (target ≤ℤ tier)
at_self target tier same = rw same (omega arith, omega arith)

-- In a flow with int32 tiers and 1 ≤ final ≤ start, from a pointer that keeps the flow's
-- invariant, is not halted and, where the flow has begun, is not below the wave's tier: the walk
-- ends exactly at the wave's tier, or at the flow's last one where the wave's is lower.
pub descend_to_wave_tier-arrival :
    (start final t : ℤ) (s : PointerState) (w : Wave)
    → IsFlow start final
    → Inv start final s
    → s.halted ≡ false
    → w.shutdown_tier ≡ some t
    → (s.started ≡ true → target_of final t ≤ℤ s.tier)
    → ((descend_to_wave_tier s w final).0.tier ≤ℤ target_of final t)
      × (target_of final t ≤ℤ (descend_to_wave_tier s w final).0.tier)
unfolding descend_to_wave_tier
descend_to_wave_tier-arrival start final t s w f i live tiered low =
    let target = target_of final t in
    let P : PointerState × PointerMovement → Type 0 = λ r. IsAt target r.0 in
    rw tiered (
      if_cases P (not s.started) (descend final (record s { tier = target }))
        (descend_steps (above s.tier target) final target s (stay s holding))
        (λ fresh. at_self target _ (entered final target s (ground (arith, fresh)) live).0)
        (λ running.
          let begun : s.started ≡ true = ground (arith, running) in
          descend_steps-IsAt start final target (above s.tier target) s (stay s holding) f
            (final_bound final t) i begun live (low begun) (above-IsWithin target s)))
