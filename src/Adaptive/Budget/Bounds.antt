-- ===== src/Adaptive/Budget/Bounds.antt =====
-- Parameters.Budget and ScaleDuration (internal/adaptive/timing.go): the ranges of their results.
use nut_operator.Prelude.{ℕ, true, ◌≡◌, ◌≤◌, arith, Option, if◌then◌else◌}
use nut_operator.Prelude.Int.{ℤ, pos, negsuc, ◌≤ℤ◌, leb_ℤ}
use nut_operator.Adaptive.Float.{Float64, nought, one, IsNumber, IsSmall, IsIeee}
use nut_operator.Prelude.Words.{IsInt64}
use nut_operator.Adaptive.Parameters.{Parameters, with_defaults}
use nut_operator.Adaptive.Pointer.{PowerObservation}
use nut_operator.Adaptive.Budget.{
  TimingBudget, clamped, measured_runtime, runtime_or, budget_on_battery, budget, scale_duration,
}

module _ {F : Type 0} ⦃fl : Float64 F⦄ (ieee : IsIeee F) where
  open ieee use {
    literal_number, ltb-not, leb_total, leb_trans, to_int-IsInt64, div_number, to_int-of_int,
    of_int-zero, of_int_mono, to_int_mono, mul_le, mul_nonneg,
  }

  clamped_bounds :
      (minimum ratio : F)
      → IsNumber ratio
      → IsNumber minimum
      → fl.leb minimum one ≡ true
      → (fl.leb minimum (clamped minimum ratio) ≡ true)
        × (fl.leb (clamped minimum ratio) one ≡ true)
  clamped_bounds minimum ratio r m h =
      ground (arith, literal_number 1 0, ltb-not one ratio (literal_number 1 0) r)

  budget_on_battery_bounds :
      (p : Parameters F) (measured : Option ℤ) (available remaining : ℤ)
      → IsInt64 available
      → IsInt64 remaining
      → IsNumber p.minimum_compression
      → fl.leb p.minimum_compression one ≡ true
      → (fl.leb p.minimum_compression (budget_on_battery p measured available remaining).compression
          ≡ true)
        × (fl.leb (budget_on_battery p measured available remaining).compression one ≡ true)
  unfolding budget_on_battery
  budget_on_battery_bounds p measured available remaining i j m h = ground (
    arith,
    literal_number 1 0,
    λ (d : pos 1 ≤ℤ remaining).
        clamped_bounds p.minimum_compression (fl.div (fl.of_int available) (fl.of_int remaining))
          (div_number available remaining i j d) m h,
  )

  -- For a float64 that keeps the stated laws of IEEE 754 and of Go's conversions: whatever is
  -- observed and however long the remaining plan is, as an int64, the compression lies between the
  -- configured minimum and 1, where the minimum is a number of at most 1.
  pub budget_bounds :
      (q : Parameters F) (o : PowerObservation) (remaining : ℤ)
      → IsInt64 remaining
      → IsNumber (with_defaults q).minimum_compression
      → fl.leb (with_defaults q).minimum_compression one ≡ true
      → (fl.leb (with_defaults q).minimum_compression (budget q o remaining).compression ≡ true)
        × (fl.leb (budget q o remaining).compression one ≡ true)
  unfolding budget
  budget_bounds q o remaining i m h =
      let p = with_defaults q in
      let share =
        fl.mul (fl.of_int (runtime_or (measured_runtime o) p.assumed_runtime_unknown))
          (fl.sub one p.reserve_fraction) in
      ground (
        arith,
        literal_number 1 0,
        budget_on_battery_bounds p (measured_runtime o) (fl.to_int share) remaining
            (to_int-IsInt64 share) i m h,
      )

  scaled :
      (n : ℕ) (c : F)
      → n ≤ 9007199254740992
      → fl.leb nought c ≡ true
      → fl.leb c one ≡ true
      → (pos 0 ≤ℤ fl.to_int (fl.mul (fl.of_int (pos n)) c))
        × (fl.to_int (fl.mul (fl.of_int (pos n)) c) ≤ℤ pos n)
  scaled n c h lo hi =
      let x = fl.of_int (pos n) in
      let x_nonneg : fl.leb nought x ≡ true =
        rw of_int-zero at
          (of_int_mono (pos 0) (pos n) (omega arith) (omega (arith, h)) (omega arith)) in
      let x_small : IsSmall {F = F} x = (
        x_nonneg,
        of_int_mono (pos n) (pos 9007199254740992) (omega (arith, h)) (omega arith)
            (omega (arith, h)),
      ) in
      let zero_small : IsSmall {F = F} nought = (
        literal_number 0 0,
        leb_trans nought x (fl.of_int (pos 9007199254740992)) x_nonneg x_small.1,
      ) in
      let down = mul_le x c x_small (lo, hi) in
      let up = mul_nonneg x c x_small (lo, hi) in
      let product_small : IsSmall {F = F} (fl.mul x c) =
        (up, leb_trans (fl.mul x c) x (fl.of_int (pos 9007199254740992)) down x_small.1) in
      let zero_exact : fl.to_int nought ≡ pos 0 =
        rw of_int-zero at (to_int-of_int 0 (omega arith)) in
      let above = to_int_mono nought (fl.mul x c) zero_small product_small up in
      let below = to_int_mono (fl.mul x c) x product_small x_small down in
      (rw zero_exact at above, rw (to_int-of_int n h) at below)

  -- For a float64 that keeps the stated laws of IEEE 754 and of Go's conversions: a declared
  -- duration of at most 2^53 ns (104 days) is never lengthened by a budget whose compression is a
  -- number: the result lies between 0 and the duration, and is 0 where none is declared.
  pub scale_duration_bounds :
      (declared : ℤ) (b : TimingBudget F)
      → declared ≤ℤ pos 9007199254740992
      → IsNumber b.compression
      → (pos 0 ≤ℤ scale_duration declared b)
        × (scale_duration declared b ≤ℤ (if leb_ℤ declared (pos 0) then pos 0 else declared))
  unfolding scale_duration
  scale_duration_bounds (negsuc n) b h c = ground arith
  scale_duration_bounds (pos n) b h c = ground (
    arith,
    scaled n b.compression,
    leb_total b.compression nought c (literal_number 0 0),
    leb_total one b.compression (literal_number 1 0) c,
  )
