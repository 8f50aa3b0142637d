-- ===== src/Adaptive/Parameters.antt =====
-- internal/adaptive/parameters.go: the tunables, their defaults and their validation.
pub mod Laws
use nut_operator.Prelude.{Bool, true, false, List, [], ◌∷◌, ◌++◌, if◌then◌else◌}
use nut_operator.Prelude.Int.{ℤ, pos, ◌*ℤ◌, leb_ℤ, ltb_ℤ}
use nut_operator.Prelude.Words.{wrap64}
use nut_operator.Diagnostics.{Diagnostic, error, warning}
use nut_operator.Adaptive.Float.{Float64, nought, one}

-- Counts and seconds are Go ints and int64 values, durations nanoseconds in an int64.
pub record Parameters (F : Type 0) : Type 0 where
  pub escalate_after_observations : ℤ
  pub relax_after_observations : ℤ
  pub relax_improvement_margin : F
  pub urgent_runtime_seconds : ℤ
  pub nominal_runtime_seconds : ℤ
  pub idle_cadence : ℤ
  pub active_cadence : ℤ
  pub reserve_fraction : F
  pub minimum_compression : F
  pub assumed_runtime_unknown : ℤ

-- time.Second, and the product of a number of seconds with it.
abbrev pub second : ℤ
second = pos 1000000000

unfoldable pub seconds : ℤ → ℤ
unfolding wrap64 ◌*ℤ◌
seconds n = wrap64 (n *ℤ second)

-- A field that is at most 0 counts as unset.
abbrev pub int_or : ℤ → ℤ → ℤ
int_or z default = if leb_ℤ z (pos 0) then default else z

abbrev report : Bool → Diagnostic → List Diagnostic
report b d = if b then d ∷ [] else []

module _ {F : Type 0} ⦃fl : Float64 F⦄ where
  unfoldable pub default_parameters : Parameters F
  default_parameters = record {
    escalate_after_observations = pos 1;
    relax_after_observations = pos 3;
    relax_improvement_margin = fl.literal 10 2;
    urgent_runtime_seconds = pos 300;
    nominal_runtime_seconds = pos 900;
    idle_cadence = pos 60000000000;
    active_cadence = pos 10000000000;
    reserve_fraction = fl.literal 20 2;
    minimum_compression = fl.literal 10 2;
    assumed_runtime_unknown = pos 300000000000;
  }

  abbrev pub float_or : F → F → F
  float_or x default = if fl.leb x nought then default else x

  unfoldable pub with_defaults : Parameters F → Parameters F
  unfolding default_parameters
  with_defaults p =
      let d = default_parameters in
      let urgent = int_or p.urgent_runtime_seconds d.urgent_runtime_seconds in
      record {
        escalate_after_observations =
            int_or p.escalate_after_observations d.escalate_after_observations;
        relax_after_observations = int_or p.relax_after_observations d.relax_after_observations;
        relax_improvement_margin = float_or p.relax_improvement_margin d.relax_improvement_margin;
        urgent_runtime_seconds = urgent;
        nominal_runtime_seconds = int_or p.nominal_runtime_seconds d.nominal_runtime_seconds;
        idle_cadence = int_or p.idle_cadence d.idle_cadence;
        active_cadence = int_or p.active_cadence d.active_cadence;
        reserve_fraction = float_or p.reserve_fraction d.reserve_fraction;
        minimum_compression = float_or p.minimum_compression d.minimum_compression;
        assumed_runtime_unknown = int_or p.assumed_runtime_unknown (seconds urgent);
      }

  -- `Cadence`: the publish interval.
  unfoldable pub cadence : Parameters F → Bool → ℤ
  unfolding with_defaults
  cadence p flow_active =
      let q = with_defaults p in if flow_active then q.active_cadence else q.idle_cadence

  unfoldable pub validate : Parameters F → List Diagnostic
  validate p =
      report (leb_ℤ p.nominal_runtime_seconds p.urgent_runtime_seconds) (record {
        severity = error;
        reason = "TimingThresholdsInverted";
        subject = [];
        format =
            "urgent runtime threshold must be below the nominal one; otherwise no reading can ever select Nominal";
        arguments = [];
      })
      ++ (report (leb_ℤ p.relax_after_observations p.escalate_after_observations) (record {
        severity = warning;
        reason = "HysteresisNotAsymmetric";
        subject = [];
        format =
            "relaxing should need more observations than escalating; symmetric thresholds let the mode oscillate on ordinary telemetry jitter";
        arguments = [];
      })
          ++ (report (fl.leb one p.relax_improvement_margin) (record {
            severity = error;
            reason = "ImprovementMarginUnreachable";
            subject = [];
            format =
                "an improvement margin of 100% or more can never be met, so the flow would never relax once escalated";
            arguments = [];
          })
              ++ (report (ltb_ℤ p.idle_cadence p.active_cadence) (record {
                severity = warning;
                reason = "CadenceSlowerDuringFlow";
                subject = [];
                format =
                    "publishing more slowly during a flow than at rest inverts EX-29: the active period is when subscribers most need current state";
                arguments = [];
              })
                  ++ (report (fl.leb one p.reserve_fraction) (record {
                    severity = error;
                    reason = "ReserveConsumesAllRuntime";
                    subject = [];
                    format =
                        "reserving all remaining runtime leaves the plan no time to run in; the reserve covers the handoff tail, not the shutdown itself";
                    arguments = [];
                  })
                      ++ report (fl.leb one p.minimum_compression) (record {
                        severity = error;
                        reason = "MinimumCompressionRejectsEveryPlan";
                        subject = [];
                        format =
                            "a minimum compression of 1 or more means no plan may ever be shortened, so every plan that does not already fit is reported as not fitting";
                        arguments = [];
                      })))))
