-- ===== src/Adaptive/Pointer/Latch.antt =====
-- PointerState (internal/adaptive/pointer.go): Halt, the repair of a persisted state, and runs of descents.
use nut_operator.Prelude.{ℕ, zero, suc, true, false, ◌≡◌, refl, List, [], ◌∷◌, arith, ◌∙◌}
use nut_operator.Prelude.Int.{ℤ, pos, ◌+ℤ◌, ◌-ℤ◌, ◌≤ℤ◌, eq_of_parts, +ℤ_parts, -ℤ_parts}
use nut_operator.Adaptive.Pointer.{PointerState, PointerMovement, normalize, descend, ascend, halt}
use nut_operator.Adaptive.Pointer.Run.{
  Inv, IsFlow, wrap32_pred, Call, call_descend, call_ascend, call_halt, step, run, waiting_at,
  waiting_at-Inv, descend-Inv,
}
use nut_operator.Adaptive.Pointer.History.{executed}

halted_step :
    (start final : ℤ) (s : PointerState) (past : List PointerMovement) (z : ℤ) (c : Call)
    → s.halted ≡ true
    → ((step start final s c).0.halted ≡ true)
      × ((step start final s c).0.tier ≡ s.tier)
      × (executed z ((step start final s c).1 ∷ past) ≡ executed z past)
unfolding step descend ascend halt
halted_step start final s past z call_descend h = ground arith
halted_step start final s past z call_ascend h = ground arith
halted_step start final s past z call_halt h = (refl, refl, refl)

-- From a halted pointer, whatever is called: it stays halted, at the same tier, and no tier is
-- executed any more.
pub halted_absorbs :
    (start final : ℤ) (s : PointerState) (past : List PointerMovement) (z : ℤ) (cs : List Call)
    → s.halted ≡ true
    → ((run start final s past cs).0.halted ≡ true)
      × ((run start final s past cs).0.tier ≡ s.tier)
      × (executed z (run start final s past cs).1 ≡ executed z past)
unfolding run
halted_absorbs start final s past z [] h = (h, refl, refl)
halted_absorbs start final s past z (c ∷ cs) h =
    let (s', m) = step start final s c in
    let (still, same, none_new) = halted_step start final s past z c h in
    let (still', same', none_new') = halted_absorbs start final s' (m ∷ past) z cs still in
    (still', same' ∙ same, none_new' ∙ none_new)

-- A state that was persisted and handed back, whatever its record of the deepest tier: `normalize`
-- keeps the tier and the flags; a started flow then has 1 ≤ deepest ≤ tier, where its tier is at
-- least 1; a second repair changes nothing.
pub normalize_repairs :
    (s : PointerState)
    → s.started ≡ true
    → pos 1 ≤ℤ s.tier
    → ((normalize s).tier ≡ s.tier)
      × ((normalize s).halted ≡ s.halted)
      × (pos 1 ≤ℤ (normalize s).deepest)
      × ((normalize s).deepest ≤ℤ s.tier)
      × (normalize (normalize s) ≡ normalize s)
unfolding normalize
normalize_repairs s h k = ground arith

abbrev pub descents : ℕ → List Call
descents zero = []
descents (suc n) = call_descend ∷ descents n

-- The tier that lies `n` above the final one.
descend_one :
    (start final : ℤ) (s : PointerState) (n : ℕ)
    → IsFlow start final
    → Inv start final s
    → s.started ≡ true
    → s.halted ≡ false
    → s.tier ≡ final +ℤ pos (suc n)
    → ((descend final s).0.tier ≡ final +ℤ pos n)
      × ((descend final s).0.started ≡ true)
      × ((descend final s).0.halted ≡ false)
unfolding descend
descend_one start final s n f i b h e = ground (
  arith,
  wrap32_pred start final s.tier,
  -ℤ_parts s.tier (pos 1),
  +ℤ_parts final (pos (suc n)),
  +ℤ_parts final (pos n),
  eq_of_parts (s.tier -ℤ pos 1) (final +ℤ pos n),
)

descents_arrive :
    (start final : ℤ) (s : PointerState) (past : List PointerMovement) (n : ℕ)
    → IsFlow start final
    → Inv start final s
    → s.started ≡ true
    → s.halted ≡ false
    → s.tier ≡ final +ℤ pos n
    → (run start final s past (descents n)).0.tier ≡ final
unfolding run step
descents_arrive start final s past zero f i b h e =
    ground (arith, +ℤ_parts final (pos 0), eq_of_parts s.tier final)
descents_arrive start final s past (suc n) f i b h e =
    let (e', b', h') = descend_one start final s n f i b h e in
    descents_arrive start final (descend final s).0 ((descend final s).1 ∷ past) n f
      (descend-Inv start final s f i) b' h' e'

descend_first :
    (start final : ℤ)
    → (descend final (waiting_at start)).0
      ≡ record (waiting_at start) { started = true; deepest = start }
unfolding descend
descend_first start final = refl

-- Where the start lies `n` tiers above the final one, `n + 1` descents from a fresh pointer bring
-- the flow to its final tier: one to begin at the start, and one for each tier below it.
descents_reach_final :
    (start final : ℤ) (n : ℕ)
    → IsFlow start final
    → start ≡ final +ℤ pos n
    → (run start final (waiting_at start) [] (descents (suc n))).0.tier ≡ final
unfolding run step
descents_reach_final start final n f e =
    let s = waiting_at start in
    let e' = descend_first start final in
    descents_arrive start final (descend final s).0 ((descend final s).1 ∷ []) n f
      (descend-Inv start final s f (waiting_at-Inv start final)) (rw e') (rw e') (rw e' e)
