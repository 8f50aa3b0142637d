-- ===== src/Adaptive/Parameters/Laws.antt =====
-- Parameters (internal/adaptive/parameters.go): validation and defaults.
use nut_operator.Prelude.{◌||◌, ◌≡◌, arith}
use nut_operator.Prelude.Int.{ℤ, pos, ◌≤ℤ◌, leb_ℤ}
use nut_operator.Diagnostics.{has_error}
use nut_operator.Adaptive.Float.{Float64, one}
use nut_operator.Adaptive.Parameters.{Parameters, with_defaults, validate, int_or, float_or}

int_or_idem : (z d : ℤ) → int_or (int_or z d) d ≡ int_or z d
int_or_idem z d = ground arith

module _ {F : Type 0} ⦃fl : Float64 F⦄ where
  -- The parameters draw an error exactly when the urgent threshold is not below the nominal one, or
  -- the margin, the reserve or the minimum compression is 1 or more.
  pub validate-has_error :
      (p : Parameters F)
      → has_error (validate p) ≡ (
          leb_ℤ p.nominal_runtime_seconds p.urgent_runtime_seconds
          || fl.leb one p.relax_improvement_margin
          || fl.leb one p.reserve_fraction
          || fl.leb one p.minimum_compression)
  unfolding validate has_error
  validate-has_error p = ground arith

  -- Filling in the defaults leaves every count, threshold and cadence above 0.
  pub with_defaults_pos :
      (p : Parameters F)
      → (pos 1 ≤ℤ (with_defaults p).escalate_after_observations)
        × (pos 1 ≤ℤ (with_defaults p).relax_after_observations)
        × (pos 1 ≤ℤ (with_defaults p).urgent_runtime_seconds)
        × (pos 1 ≤ℤ (with_defaults p).nominal_runtime_seconds)
        × (pos 1 ≤ℤ (with_defaults p).idle_cadence)
        × (pos 1 ≤ℤ (with_defaults p).active_cadence)
  unfolding with_defaults
  with_defaults_pos p =
      (ground arith, ground arith, ground arith, ground arith, ground arith, ground arith)

  float_or_idem : (x d : F) → float_or (float_or x d) d ≡ float_or x d
  float_or_idem x d = ground arith

  -- Filling in the defaults twice, as the callees of a caller that already did so do, changes
  -- nothing more.
  pub with_defaults_idem : (p : Parameters F) → with_defaults (with_defaults p) ≡ with_defaults p
  unfolding with_defaults
  with_defaults_idem p = simp (int_or_idem, float_or_idem)
