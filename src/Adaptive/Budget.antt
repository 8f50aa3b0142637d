-- ===== src/Adaptive/Budget.antt =====
-- internal/adaptive/timing.go: the compression of the remaining plan into the remaining runtime.
pub mod Bounds
use nut_operator.Prelude.{Bool, true, false, not, ◌&&◌, ◌||◌, Option, none, some, if◌then◌else◌}
use nut_operator.Prelude.Int.{ℤ, pos, leb_ℤ}
use nut_operator.Adaptive.Float.{Float64, nought, one}
use nut_operator.Adaptive.Parameters.{Parameters, with_defaults, seconds}
use nut_operator.Adaptive.Pointer.{PowerObservation}

pub record TimingBudget (F : Type 0) : Type 0 where
  pub compression : F
  pub available : ℤ
  pub required : ℤ
  pub fits : Bool
  pub runtime_measured : Bool

-- The runtime, if it is known and trusted.
unfoldable pub measured_runtime : PowerObservation → Option ℤ
measured_runtime o = elim o.runtime_seconds [
  | none ↦ none
  | some n ↦ if o.runtime_trusted then some (seconds n) else none
]

abbrev pub is_measured : Option ℤ → Bool
is_measured none = false
is_measured (some n) = true

abbrev pub runtime_or : Option ℤ → ℤ → ℤ
runtime_or none assumed = assumed
runtime_or (some n) assumed = n

module _ {F : Type 0} ⦃fl : Float64 F⦄ where
  -- The compression that a raw ratio comes to.
  abbrev pub clamped : F → F → F
  clamped minimum ratio =
      if fl.ltb one ratio then one else if not (fl.leb minimum ratio) then minimum else ratio

  -- `Budget` on battery, for a plan with a declared duration or none.
  unfoldable pub budget_on_battery : Parameters F → Option ℤ → ℤ → ℤ → TimingBudget F
  budget_on_battery p measured available remaining =
      if leb_ℤ remaining (pos 0)
      then record {
        compression = one;
        available = available;
        required = remaining;
        fits = true;
        runtime_measured = is_measured measured;
      }
      else let ratio = fl.div (fl.of_int available) (fl.of_int remaining) in
        record {
          compression = clamped p.minimum_compression ratio;
          available = available;
          required = remaining;
          fits = fl.leb p.minimum_compression ratio;
          runtime_measured = is_measured measured;
        }

  unfoldable pub budget : Parameters F → PowerObservation → ℤ → TimingBudget F
  unfolding budget_on_battery
  budget q o remaining =
      let p = with_defaults q in
      let measured = measured_runtime o in
      let runtime = runtime_or measured p.assumed_runtime_unknown in
      if not o.on_battery && not o.low_battery
      then record {
        compression = one;
        available = runtime;
        required = remaining;
        fits = true;
        runtime_measured = is_measured measured;
      }
      else budget_on_battery p measured
          (fl.to_int (fl.mul (fl.of_int runtime) (fl.sub one p.reserve_fraction))) remaining

  unfoldable pub scale_duration : ℤ → TimingBudget F → ℤ
  scale_duration declared b =
      if leb_ℤ declared (pos 0)
      then pos 0
      else if fl.leb b.compression nought || fl.leb one b.compression
      then declared
      else fl.to_int (fl.mul (fl.of_int declared) b.compression)
