-- ===== src/Adaptive/Pointer/History.antt =====
-- PointerState (internal/adaptive/pointer.go): the executed tiers of a sequence of calls.
use nut_operator.Prelude.{Bool, false, ◌&&◌, ◌||◌, ◌≡◌, refl, List, [], ◌∷◌, arith}
use nut_operator.Prelude.Int.{ℤ, pos, leb_ℤ, eq_ℤ, -ℤ_parts}
use nut_operator.Adaptive.Pointer.{
  PointerState, PointerMovement, descending, ascending, holding, descend, ascend, halt,
}
use nut_operator.Adaptive.Pointer.Run.{
  Inv, IsFlow, wrap32_pred, Call, call_descend, call_ascend, call_halt, step, step-Inv, run,
  waiting_at, waiting_at-Inv,
}

-- Whether a movement is a descent into tier `z`, that is, an execution of that tier.
abbrev pub enters : ℤ → PointerMovement → Bool
enters z m = elim m.direction [ descending ↦ eq_ℤ m.target z | ascending ↦ false | holding ↦ false ]

abbrev pub executed : ℤ → List PointerMovement → Bool
executed z [] = false
executed z (m ∷ ms) = enters z m || executed z ms

-- The record `deepest` holds exactly which tiers were executed: those from it up to the start.
abbrev Tracks : ℤ → PointerState → List PointerMovement → ℤ → Type 0
Tracks start s past z = executed z past ≡ (s.started && leb_ℤ s.deepest z && leb_ℤ z start)

descend-Tracks :
    (start final : ℤ) (s : PointerState) (past : List PointerMovement) (z : ℤ)
    → IsFlow start final
    → Inv start final s
    → Tracks start s past z
    → Tracks start (descend final s).0 ((descend final s).1 ∷ past) z
unfolding descend
descend-Tracks start final s past z f i h =
    ground (arith, wrap32_pred start final s.tier, -ℤ_parts s.tier (pos 1))

ascend-Tracks :
    (start final : ℤ) (s : PointerState) (past : List PointerMovement) (z : ℤ)
    → IsFlow start final
    → Inv start final s
    → Tracks start s past z
    → Tracks start (ascend start s).0 ((ascend start s).1 ∷ past) z
unfolding ascend
ascend-Tracks start final s past z f i h = ground arith

step-Tracks :
    (start final : ℤ) (s : PointerState) (past : List PointerMovement) (z : ℤ) (c : Call)
    → IsFlow start final
    → Inv start final s
    → Tracks start s past z
    → Tracks start (step start final s c).0 ((step start final s c).1 ∷ past) z
unfolding step halt
step-Tracks start final s past z call_descend f i h = descend-Tracks start final s past z f i h
step-Tracks start final s past z call_ascend f i h = ascend-Tracks start final s past z f i h
step-Tracks start final s past z call_halt f i h = h

run-Tracks :
    (start final : ℤ) (s : PointerState) (past : List PointerMovement) (z : ℤ) (cs : List Call)
    → IsFlow start final
    → Inv start final s
    → Tracks start s past z
    → Inv start final (run start final s past cs).0
      × Tracks start (run start final s past cs).0 (run start final s past cs).1 z
unfolding run
run-Tracks start final s past z [] f i h = (i, h)
run-Tracks start final s past z (c ∷ cs) f i h =
    let (s', m) = step start final s c in
    run-Tracks start final s' (m ∷ past) z cs f (step-Inv start final s c f i)
      (step-Tracks start final s past z c f i h)

-- The state and the movements of a flow that begins at `start`, after some calls.
abbrev pub reached : ℤ → ℤ → List Call → PointerState × List PointerMovement
reached start final cs = run start final (waiting_at start) [] cs

-- In a flow with int32 tiers and 1 ≤ final ≤ start, after any calls from a fresh pointer, a tier was
-- executed exactly when the flow has begun and the tier lies between the recorded deepest one and
-- the start.
pub run-executed :
    (start final : ℤ) (cs : List Call) (z : ℤ)
    → IsFlow start final
    → executed z (reached start final cs).1 ≡ (
        (reached start final cs).0.started
        && leb_ℤ (reached start final cs).0.deepest z
        && leb_ℤ z start)
run-executed start final cs z f =
    (run-Tracks start final (waiting_at start) [] z cs f (waiting_at-Inv start final) refl).1

-- In a flow with int32 tiers and 1 ≤ final ≤ start, after any calls from a fresh pointer: before the
-- first descent the tier is the start, and from then on final ≤ deepest ≤ tier; the tier is never
-- above the start.
run-Inv :
    (start final : ℤ) (cs : List Call)
    → IsFlow start final
    → Inv start final (reached start final cs).0
run-Inv start final cs f =
    (run-Tracks start final (waiting_at start) [] start cs f (waiting_at-Inv start final) refl).0

descend-reexecution :
    (start final : ℤ) (s : PointerState) (past : List PointerMovement)
    → IsFlow start final
    → Inv start final s
    → (descend final s).1.direction ≡ descending
    → Tracks start s past (descend final s).1.target
    → (descend final s).1.reexecution ≡ executed (descend final s).1.target past
unfolding descend
descend-reexecution start final s past f i d h =
    ground (arith, wrap32_pred start final s.tier, -ℤ_parts s.tier (pos 1))

-- In a flow with int32 tiers and 1 ≤ final ≤ start, after any calls from a fresh pointer, a descent
-- is marked as a re-execution exactly when its tier was executed before.
pub reexecution_exact :
    (start final : ℤ) (cs : List Call)
    → IsFlow start final
    → (descend final (reached start final cs).0).1.direction ≡ descending
    → (descend final (reached start final cs).0).1.reexecution
      ≡ executed (descend final (reached start final cs).0).1.target (reached start final cs).1
reexecution_exact start final cs f d =
    let (s, past) = reached start final cs in
    descend-reexecution start final s past f (run-Inv start final cs f) d
      (run-executed start final cs (descend final s).1.target f)
