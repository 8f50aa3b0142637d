-- ===== src/Adaptive/Timing/Mains.antt =====
-- TimingState (internal/adaptive/timing.go): observations of mains power.
use nut_operator.Prelude.{
  ℕ, suc, ◌+◌, true, false, ◌≡◌, ◌⊎◌, inl, inr, List, [], ◌∷◌, arith, length, All, Bool-cases, ◌<◌,
}
use nut_operator.Prelude.Int.{pos, ◌+ℤ◌, ◌≤ℤ◌, ◌<ℤ◌, ltb_ℤ}
use nut_operator.Prelude.Words.{wrap64, IsInt64, wrap64_lem}
use nut_operator.Adaptive.Float.{Float64}
use nut_operator.Adaptive.Parameters.{Parameters, with_defaults}
use nut_operator.Adaptive.Pointer.{PowerObservation}
use nut_operator.Adaptive.Timing.{
  TimingMode, unset, relaxed, nominal, urgent, TimingState, indicated_mode, relaxation_earned,
  observe,
}
use nut_operator.Adaptive.Timing.Streaks.{observe_all, in_mode}

abbrev pub IsMains : PowerObservation → Type 0
IsMains o = (o.on_battery ≡ false) × (o.low_battery ≡ false)

-- A tense mode with `j` observations counted towards Relaxed.
record IsCounting (j : ℕ) (s : TimingState) : Type 0 where
  tense : (s.mode ≡ nominal) ⊎ (s.mode ≡ urgent)
  towards : s.pending_mode ≡ relaxed
  counted : s.pending_count ≡ pos j

count_up : (j : ℕ) → suc j < 9223372036854775808 → wrap64 (pos j +ℤ pos 1) ≡ pos (suc j)
unfolding ◌+ℤ◌
count_up j h = ground (arith, wrap64_lem (pos (suc j)))

tense_or_calm : (m : TimingMode) → ((m ≡ nominal) ⊎ (m ≡ urgent)) ⊎ ((m ≡ relaxed) ⊎ (m ≡ unset))
tense_or_calm m = ground arith

module _ {F : Type 0} ⦃fl : Float64 F⦄ where
  mains_indicated :
      (o : PowerObservation) (p : Parameters F) → IsMains o → indicated_mode o p ≡ relaxed
  unfolding indicated_mode
  mains_indicated o p h = ground arith

  mains_earned :
      (o : PowerObservation) (p : Parameters F) → IsMains o → relaxation_earned o relaxed p ≡ true
  unfolding relaxation_earned
  mains_earned o p h = ground arith

  stays_relaxed :
      (q : Parameters F) (s : TimingState) (o : PowerObservation)
      → IsMains o
      → (s.mode ≡ relaxed) ⊎ (s.mode ≡ unset)
      → (observe s o q).0.mode ≡ relaxed
  unfolding observe
  stays_relaxed q s o h m = ground (arith, mains_indicated o (with_defaults q) h)

  All-stay_relaxed :
      (q : Parameters F) (s : TimingState) (past os : List PowerObservation)
      → All IsMains os
      → s.mode ≡ relaxed
      → (observe_all q s past os).0.mode ≡ relaxed
  All-stay_relaxed q s past [] h m = m
  All-stay_relaxed q s past (o ∷ os) h m =
      All-stay_relaxed q (observe s o q).0 (o ∷ past) os h.1 (stays_relaxed q s o h.0 (inl m))

  -- One more observation of mains either relaxes the mode or is counted.
  count_one :
      (q : Parameters F) (s : TimingState) (o : PowerObservation) (j : ℕ)
      → IsMains o
      → suc j < 9223372036854775808
      → IsCounting j s
      → ((observe s o q).0.mode ≡ relaxed)
        ⊎ (IsCounting (suc j) (observe s o q).0
            × (pos (suc j) <ℤ (with_defaults q).relax_after_observations))
  unfolding observe
  count_one q s o j h k c =
      elim (Bool-cases (ltb_ℤ (pos (suc j)) (with_defaults q).relax_after_observations)) [
        | inl more ↦ inr (
            ground (
              arith,
              mains_indicated o (with_defaults q) h,
              mains_earned o (with_defaults q) h,
              count_up j k,
            ))
        | inr done ↦ inl (
            ground (
              arith,
              mains_indicated o (with_defaults q) h,
              mains_earned o (with_defaults q) h,
              count_up j k,
            ))
      ]

  -- The first observation of mains, where no evidence is pending.
  count_first :
      (q : Parameters F) (m : TimingMode) (o : PowerObservation)
      → IsMains o
      → (m ≡ nominal) ⊎ (m ≡ urgent)
      → ((observe (in_mode m) o q).0.mode ≡ relaxed)
        ⊎ (IsCounting 1 (observe (in_mode m) o q).0
            × (pos 1 <ℤ (with_defaults q).relax_after_observations))
  unfolding observe
  count_first q m o h t =
      elim (Bool-cases (ltb_ℤ (pos 1) (with_defaults q).relax_after_observations)) [
        | inl more ↦ inr (
            ground
              (arith, mains_indicated o (with_defaults q) h, mains_earned o (with_defaults q) h))
        | inr done ↦ inl (
            ground
              (arith, mains_indicated o (with_defaults q) h, mains_earned o (with_defaults q) h))
      ]

  count-All :
      (q : Parameters F) (s : TimingState) (past os : List PowerObservation) (j : ℕ)
      → IsInt64 (with_defaults q).relax_after_observations
      → (with_defaults q).relax_after_observations ≤ℤ pos (j + length os)
      → pos j <ℤ (with_defaults q).relax_after_observations
      → All IsMains os
      → IsCounting j s
      → (observe_all q s past os).0.mode ≡ relaxed
  count-All q s past [] j w e below h c = absurd (omega arith)
  count-All q s past (o ∷ os) j w e below h c = elim (count_one q s o j h.0 (omega arith) c) [
    | inl done ↦ All-stay_relaxed q (observe s o q).0 (o ∷ past) os h.1 done
    | inr more ↦
        count-All q (observe s o q).0 (o ∷ past) os (suc j) w (omega arith) more.1 h.1 more.0
  ]

  -- From any mode with no evidence pending, once mains is back for as many observations in a row as
  -- relaxing takes, and at least one, the mode is Relaxed, whatever the improvement margin.
  pub mains_relaxes :
      (q : Parameters F) (m : TimingMode) (o : PowerObservation) (os : List PowerObservation)
      → IsInt64 (with_defaults q).relax_after_observations
      → (with_defaults q).relax_after_observations ≤ℤ pos (length (o ∷ os))
      → All IsMains (o ∷ os)
      → (observe_all q (in_mode m) [] (o ∷ os)).0.mode ≡ relaxed
  mains_relaxes q m o os w e h =
      let next = (observe (in_mode m) o q).0 in
      elim (tense_or_calm m) [
        | inl tense ↦ elim (count_first q m o h.0 tense) [
          | inl done ↦ All-stay_relaxed q next (o ∷ []) os h.1 done
          | inr more ↦ count-All q next (o ∷ []) os 1 w (omega arith) more.1 h.1 more.0
        ]
        | inr calm ↦
            All-stay_relaxed q next (o ∷ []) os h.1 (stays_relaxed q (in_mode m) o h.0 calm)
      ]
