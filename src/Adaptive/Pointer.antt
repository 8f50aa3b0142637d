-- ===== src/Adaptive/Pointer.antt =====
-- internal/adaptive/pointer.go: how far down the tiers a shutdown has gone.
-- Tiers are int32 values; they count down, so a descent decreases the tier.
pub mod Run
pub mod History
pub mod Latch
use Prim.Native.Nat.{ℕ}
use nut_operator.Prelude.{Bool, true, false, not, ◌&&◌, ◌||◌, if◌then◌else◌, Option}
use nut_operator.Prelude.Int.{ℤ, pos, ◌+ℤ◌, ◌-ℤ◌, leb_ℤ, ltb_ℤ}
use nut_operator.Prelude.Words.{wrap32}

-- A nil runtime is `none`.
pub record PowerObservation : Type 0 where
  pub on_battery : Bool
  pub low_battery : Bool
  pub runtime_seconds : Option ℤ
  pub runtime_trusted : Bool

pub record PointerState : Type 0 where
  pub tier : ℤ
  pub deepest : ℤ
  pub started : Bool
  pub halted : Bool

pub data Direction : Type 0 where
  descending ascending holding : Direction

pub record PointerMovement : Type 0 where
  pub source : ℤ
  pub target : ℤ
  pub direction : Direction
  pub reexecution : Bool

unfoldable pub normalize : PointerState → PointerState
normalize s =
    if not s.started
    then record s { deepest = pos 0 }
    else if leb_ℤ s.deepest (pos 0) || ltb_ℤ s.tier s.deepest
    then record s { deepest = s.tier }
    else s

-- A movement that stays where it is.
abbrev pub stay : PointerState → Direction → PointerMovement
stay s d = record { source = s.tier; target = s.tier; direction = d; reexecution = false }

-- `Descend` after its call of `normalize`.
descend_from : ℤ → PointerState → PointerState × PointerMovement
descend_from final s =
    if s.halted
    then (s, stay s holding)
    else if not s.started
    then (record s { started = true; deepest = s.tier }, stay s descending)
    else if leb_ℤ s.tier final
    then (s, stay s holding)
    else (
      record s {
        tier = wrap32 (s.tier -ℤ pos 1);
        deepest =
            if ltb_ℤ (wrap32 (s.tier -ℤ pos 1)) s.deepest
            then wrap32 (s.tier -ℤ pos 1)
            else s.deepest;
      },
      record {
        source = s.tier;
        target = wrap32 (s.tier -ℤ pos 1);
        direction = descending;
        reexecution = leb_ℤ s.deepest (wrap32 (s.tier -ℤ pos 1));
      },
    )

unfoldable pub descend : ℤ → PointerState → PointerState × PointerMovement
unfolding descend_from normalize
descend final s = descend_from final (normalize s)

-- `Ascend` after its call of `normalize`.
ascend_from : ℤ → PointerState → PointerState × PointerMovement
ascend_from start s =
    if s.halted || not s.started || leb_ℤ start s.tier then (s, stay s holding) else (
      record s { tier = wrap32 (s.tier +ℤ pos 1) },
      record {
        source = s.tier;
        target = wrap32 (s.tier +ℤ pos 1);
        direction = ascending;
        reexecution = false;
      },
    )

unfoldable pub ascend : ℤ → PointerState → PointerState × PointerMovement
unfolding ascend_from normalize
ascend start s = ascend_from start (normalize s)

unfoldable pub halt : PointerState → PointerState
halt s = record s { halted = true }

unfoldable pub should_descend : PowerObservation → Bool
should_descend o = o.on_battery || o.low_battery

unfoldable pub should_ascend : PowerObservation → Bool
should_ascend o = not o.on_battery && not o.low_battery
