-- ===== src/Adaptive/Timing.antt =====
-- internal/adaptive/timing.go: how much time to allow, by mode with hysteresis and by budget.
pub mod Modes
pub mod Streaks
pub mod Mains
use nut_operator.Prelude.{
  Bool, true, false, not, ◌&&◌, ◌||◌, Option, none, some, if◌then◌else◌, ltb,
}
use Prim.Native.Nat.{ℕ}
use nut_operator.Prelude.Int.{ℤ, pos, ◌+ℤ◌, leb_ℤ, ltb_ℤ}
use nut_operator.Prelude.Words.{wrap64}
use nut_operator.Adaptive.Float.{Float64, nought, one}
use nut_operator.Adaptive.Parameters.{Parameters, with_defaults, seconds}
use nut_operator.Adaptive.Pointer.{PowerObservation}

-- The three modes, and the empty string of a fresh state.
pub data TimingMode : Type 0 where
  unset relaxed nominal urgent : TimingMode

abbrev pub urgency : TimingMode → ℕ
urgency urgent = 2
urgency nominal = 1
urgency relaxed = 0
urgency unset = 0

abbrev pub same_mode : TimingMode → TimingMode → Bool
same_mode unset unset = true
same_mode relaxed relaxed = true
same_mode nominal nominal = true
same_mode urgent urgent = true
same_mode _ _ = false

pub record TimingState : Type 0 where
  pub mode : TimingMode
  pub pending_mode : TimingMode
  pub pending_count : ℤ

-- The reason codes, "Escalated" and "Relaxed" with the suffix "Pending" or without.
pub data Shift : Type 0 where
  escalated_shift relaxed_shift : Shift

pub data Reason : Type 0 where
  mode_unchanged improvement_within_margin : Reason
  applied pending : Shift → Reason

pub record TimingTransition : Type 0 where
  pub source : TimingMode
  pub target : TimingMode
  pub changed : Bool
  pub reason : Reason

abbrev on_mains : PowerObservation → Bool
on_mains o = not o.on_battery && not o.low_battery

-- `accumulate`.
unfoldable pub accumulate : TimingState → TimingMode → ℤ → Shift → TimingState × TimingTransition
accumulate s indicated threshold shift =
    let count =
      if same_mode s.pending_mode indicated then wrap64 (s.pending_count +ℤ pos 1) else pos 1 in
    if ltb_ℤ count threshold
    then (
      record s { pending_mode = indicated; pending_count = count },
      record { source = s.mode; target = s.mode; changed = false; reason = pending shift },
    )
    else (
      record { mode = indicated; pending_mode = unset; pending_count = pos 0 },
      record { source = s.mode; target = indicated; changed = true; reason = applied shift },
    )

abbrev clear : TimingState → TimingState
clear s = record s { pending_mode = unset; pending_count = pos 0 }

-- `s.Mode == ""` is read as Relaxed.
abbrev pub start_mode : TimingState → TimingState
start_mode s = if same_mode s.mode unset then record s { mode = relaxed } else s

module _ {F : Type 0} ⦃fl : Float64 F⦄ where
  -- What an observation with a known runtime on battery points at.
  abbrev mode_for : Parameters F → ℤ → TimingMode
  mode_for p runtime =
      if leb_ℤ runtime p.urgent_runtime_seconds
      then urgent
      else if leb_ℤ runtime p.nominal_runtime_seconds
      then nominal
      else relaxed

  unfoldable pub indicated_mode : PowerObservation → Parameters F → TimingMode
  indicated_mode o q =
      let p = with_defaults q in
      if on_mains o then relaxed else if o.low_battery then urgent else elim o.runtime_seconds [
        | none ↦ urgent
        | some runtime ↦ if not o.runtime_trusted then urgent else mode_for p runtime
      ]

  -- The threshold that an improving reading leaves behind; none for a mode that is no improvement.
  abbrev threshold_left : TimingMode → Parameters F → Option ℤ
  threshold_left nominal p = some p.urgent_runtime_seconds
  threshold_left relaxed p = some p.nominal_runtime_seconds
  threshold_left urgent p = none
  threshold_left unset p = none

  abbrev clears_margin : ℤ → Option ℤ → Parameters F → Bool
  clears_margin runtime none p = false
  clears_margin runtime (some threshold) p =
      fl.leb (fl.mul (fl.of_int threshold) (fl.add one p.relax_improvement_margin))
        (fl.of_int runtime)

  unfoldable pub relaxation_earned : PowerObservation → TimingMode → Parameters F → Bool
  relaxation_earned o indicated p = if on_mains o then true else elim o.runtime_seconds [
    | none ↦ false
    | some runtime ↦
        if not o.runtime_trusted
        then false
        else clears_margin runtime (threshold_left indicated p) p
  ]

  -- `Observe`, after the defaults are filled in, the mode is set and the indicated mode is known.
  unfoldable pub observe_from :
      TimingState → PowerObservation → TimingMode → Parameters F → TimingState × TimingTransition
  unfolding accumulate
  observe_from s o indicated p =
      if same_mode indicated s.mode
      then (
        clear s,
        record { source = s.mode; target = s.mode; changed = false; reason = mode_unchanged },
      )
      else if ltb (urgency s.mode) (urgency indicated)
      then if leb_ℤ p.escalate_after_observations (pos 1)
        then (
          record (clear s) { mode = indicated },
          record {
            source = s.mode;
            target = indicated;
            changed = true;
            reason = applied escalated_shift;
          },
        )
        else accumulate s indicated p.escalate_after_observations escalated_shift
      else if not (relaxation_earned o indicated p)
      then (
        clear s,
        record {
          source = s.mode;
          target = s.mode;
          changed = false;
          reason = improvement_within_margin;
        },
      )
      else accumulate s indicated p.relax_after_observations relaxed_shift

  unfoldable pub observe :
      TimingState → PowerObservation → Parameters F → TimingState × TimingTransition
  unfolding observe_from
  observe s o q = let p = with_defaults q in observe_from (start_mode s) o (indicated_mode o p) p
