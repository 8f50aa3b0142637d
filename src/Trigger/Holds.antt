-- ===== src/Trigger/Holds.antt =====
-- The holds of internal/trigger/evaluator.go: what it is for a hold to be true of the past ticks.
pub mod Trimmed
pub mod Index
pub mod Scan
pub mod Own
pub mod Sustained
use nut_operator.Prelude.{ℕ, suc, Bool, true, ◌≡◌, ◌⊎◌, List, [], ◌∷◌, All}
use nut_operator.Prelude.Int.{ℤ, pos, ◌+ℤ◌, ◌≤ℤ◌}
use mathlib.Core.List.{Memᴰ}
use nut_operator.Text.{Text, trim_space}
use nut_operator.Trigger.Inputs.{
  Trigger, UpsState, HoldState, Inputs, Evaluation, normalize_trigger, normalize_ups_states,
  hold_key,
}
use nut_operator.Trigger.Evaluator.{trigger_matches_state, select_ups_states, evaluate}

-- The triggers as the evaluator reads them.
abbrev pub numbered : ℕ → List Trigger → List Trigger
numbered index [] = []
numbered index (t ∷ ts) = normalize_trigger index t ∷ numbered (suc index) ts

-- At this tick, a configured trigger selects a device and its condition is true there, under a key.
pub record Holding (i : Inputs) (key : Text) : Type 0 where
  pub trigger : Trigger
  pub state : UpsState
  pub configured : Memᴰ trigger (numbered 0 i.triggers)
  pub chosen : Memᴰ state (select_ups_states trigger (normalize_ups_states i.ups_states))
  pub matches : (trigger_matches_state trigger state).0 ≡ true
  pub keyed : hold_key trigger.id state.ups_device ≡ key

-- The condition under a key was true at the latest tick and at every tick before it, back to one
-- that was observed at the start. The latest tick comes first.
pub data HeldSince (key : Text) (start : ℤ) : List Inputs → Type 0 where
  begins :
      (i : Inputs) (past : List Inputs)
      → i.observed_at ≡ start
      → Holding i key
      → HeldSince key start (i ∷ past)
  continues :
      (i : Inputs) (past : List Inputs)
      → Holding i key
      → HeldSince key start past
      → HeldSince key start (i ∷ past)

-- Why a device is selected at a tick, by its key: a configured trigger's key was held since a
-- start, and the trigger's hold time has passed since then, if it has one.
pub record Kept (i : Inputs) (past : List Inputs) (device : Text) : Type 0 where
  pub trigger : Trigger
  pub start : ℤ
  pub configured : Memᴰ trigger (numbered 0 i.triggers)
  pub held : HeldSince (hold_key trigger.id device) start (i ∷ past)
  pub long_enough : (trigger.hold_for ≤ℤ pos 0) ⊎ (start +ℤ trigger.hold_for ≤ℤ i.observed_at)

-- At this tick, the trigger is configured and selects the device, and its condition is true there.
pub record Met (t : Trigger) (device : Text) (i : Inputs) : Type 0 where
  pub configured : Memᴰ t (numbered 0 i.triggers)
  pub state : UpsState
  pub chosen : Memᴰ state (select_ups_states t (normalize_ups_states i.ups_states))
  pub named : state.ups_device ≡ device
  pub matches : (trigger_matches_state t state).0 ≡ true

-- So it was at the latest tick and at every tick before it, back to one that was observed at the
-- start. The latest tick comes first.
pub data MetSince (t : Trigger) (device : Text) (start : ℤ) : List Inputs → Type 0 where
  begins_at :
      (i : Inputs) (past : List Inputs)
      → i.observed_at ≡ start
      → Met t device i
      → MetSince t device start (i ∷ past)
  goes_on :
      (i : Inputs) (past : List Inputs)
      → Met t device i
      → MetSince t device start past
      → MetSince t device start (i ∷ past)

-- Why a device is selected at a tick: one trigger's condition has held for it since a start, and
-- this trigger's hold time has passed since then, if it has one.
pub record Justified (i : Inputs) (past : List Inputs) (device : Text) : Type 0 where
  pub trigger : Trigger
  pub start : ℤ
  pub held : MetSince trigger device start (i ∷ past)
  pub long_enough : (trigger.hold_for ≤ℤ pos 0) ⊎ (start +ℤ trigger.hold_for ≤ℤ i.observed_at)

-- A hold as the next tick will look it up.
abbrev pub IsTrue : List Inputs → HoldState → Type 0
IsTrue past h =
    HeldSince (hold_key (trim_space h.trigger_id) (trim_space h.ups_device)) h.started_at past

-- The evaluations of a list of ticks, each given the holds of the one before: the holds after them,
-- and the ticks as they were evaluated, the latest first.
unfoldable pub run_ticks : List HoldState → List Inputs → List Inputs → List HoldState × List Inputs
run_ticks holds past [] = (holds, past)
run_ticks holds past (i ∷ is) =
    let tick = record i { holds = holds } in run_ticks (evaluate tick).holds (tick ∷ past) is
