-- ===== src/Adaptive/Pointer/Run.antt =====
-- PointerState (internal/adaptive/pointer.go): sequences of calls and the bounds between them.
use nut_operator.Prelude.{true, false, ◌≡◌, List, [], ◌∷◌, arith}
use nut_operator.Prelude.Int.{ℤ, pos, ◌+ℤ◌, ◌-ℤ◌, ◌≤ℤ◌, ◌<ℤ◌, +ℤ_parts, -ℤ_parts, parts_apart}
use nut_operator.Prelude.Words.{IsInt32, wrap32, wrap32_lem}
use nut_operator.Adaptive.Pointer.{
  PointerState, PointerMovement, holding, stay, descend, ascend, halt,
}

-- What holds of a pointer between two calls, for a flow that begins at `start` and may execute down
-- to `final`.
pub record Inv (start final : ℤ) (s : PointerState) : Type 0 where
  pub waiting : s.started ≡ false → s.tier ≡ start
  pub above_final : s.started ≡ true → final ≤ℤ s.deepest
  pub below_tier : s.started ≡ true → s.deepest ≤ℤ s.tier
  pub below_start : s.tier ≤ℤ start

-- The flow's bounds: int32 tiers with 1 ≤ final ≤ start.
pub record IsFlow (start final : ℤ) : Type 0 where
  pub final_positive : pos 1 ≤ℤ final
  pub ordered : final ≤ℤ start
  pub start_int32 : IsInt32 start

-- The decrement and the increment never wrap within the bounds.
pub wrap32_pred :
    (start final t : ℤ)
    → IsFlow start final
    → final ≤ℤ t
    → t ≤ℤ start
    → wrap32 (t -ℤ pos 1) ≡ t -ℤ pos 1
wrap32_pred start final t f h k =
    wrap32_lem (t -ℤ pos 1) (
      omega (arith, -ℤ_parts t (pos 1), parts_apart t, parts_apart (t -ℤ pos 1), parts_apart start))

pub wrap32_succ :
    (start final t : ℤ)
    → IsFlow start final
    → final ≤ℤ t
    → t <ℤ start
    → wrap32 (t +ℤ pos 1) ≡ t +ℤ pos 1
wrap32_succ start final t f h k =
    wrap32_lem (t +ℤ pos 1) (
      omega (arith, +ℤ_parts t (pos 1), parts_apart t, parts_apart (t +ℤ pos 1), parts_apart start))

pub descend-Inv :
    (start final : ℤ) (s : PointerState)
    → IsFlow start final
    → Inv start final s
    → Inv start final (descend final s).0
unfolding descend
descend-Inv start final s f i =
    ground (arith, wrap32_pred start final s.tier, -ℤ_parts s.tier (pos 1))

pub ascend-Inv :
    (start final : ℤ) (s : PointerState)
    → IsFlow start final
    → Inv start final s
    → Inv start final (ascend start s).0
unfolding ascend
ascend-Inv start final s f i =
    ground (arith, wrap32_succ start final s.tier, +ℤ_parts s.tier (pos 1))

pub halt-Inv : (start final : ℤ) (s : PointerState) → Inv start final s → Inv start final (halt s)
unfolding halt
halt-Inv start final s i = ground arith

-- One call on the pointer, as the executor makes them.
pub data Call : Type 0 where
  call_descend call_ascend call_halt : Call

unfoldable pub step : ℤ → ℤ → PointerState → Call → PointerState × PointerMovement
step start final s call_descend = descend final s
step start final s call_ascend = ascend start s
step start final s call_halt = (halt s, stay s holding)

pub step-Inv :
    (start final : ℤ) (s : PointerState) (c : Call)
    → IsFlow start final
    → Inv start final s
    → Inv start final (step start final s c).0
unfolding step
step-Inv start final s call_descend f i = descend-Inv start final s f i
step-Inv start final s call_ascend f i = ascend-Inv start final s f i
step-Inv start final s call_halt f i = halt-Inv start final s i

-- The state after a sequence of calls, with the movements, the latest first.
unfoldable pub run :
    ℤ → ℤ → PointerState → List PointerMovement → List Call → PointerState × List PointerMovement
run start final s past [] = (s, past)
run start final s past (c ∷ cs) =
    let (s', m) = step start final s c in run start final s' (m ∷ past) cs

-- A flow that waits at its start tier.
abbrev pub waiting_at : ℤ → PointerState
waiting_at start = record { tier = start; deepest = pos 0; started = false; halted = false }

pub waiting_at-Inv : (start final : ℤ) → Inv start final (waiting_at start)
waiting_at-Inv start final = ground arith
