-- ===== src/Adaptive/Timing/Streaks.antt =====
-- TimingState.Observe (internal/adaptive/timing.go): the observations behind a relaxation.
use nut_operator.Prelude.{ℕ, Bool, ◌&&◌, ◌≡◌, ◌≢◌, refl, List, [], ◌∷◌, arith, suc, if◌then◌else◌}
use nut_operator.Prelude.Int.{pos, ◌+ℤ◌, ◌≤ℤ◌, +ℤ_parts}
use nut_operator.Prelude.Words.{IsInt64, wrap64-IsInt64, wrap64_succ_le}
use nut_operator.Adaptive.Float.{Float64}
use nut_operator.Adaptive.Parameters.{Parameters, with_defaults}
use nut_operator.Adaptive.Pointer.{PowerObservation}
use nut_operator.Adaptive.Timing.{
  TimingMode, unset, same_mode, TimingState, start_mode, indicated_mode, relaxation_earned,
  observe_from, observe, applied, relaxed_shift,
}

-- How many observations at the head of the past, the latest first, pass a test.
abbrev pub streak : (PowerObservation → Bool) → List PowerObservation → ℕ
streak passes [] = 0
streak passes (o ∷ os) = let rest = streak passes os in if passes o then suc rest else 0

-- A state with no evidence gathered.
abbrev pub in_mode : TimingMode → TimingState
in_mode m = record { mode = m; pending_mode = unset; pending_count = pos 0 }

module _ {F : Type 0} ⦃fl : Float64 F⦄ where
  -- The observation indicates the mode, and clears the margin for relaxing to it.
  abbrev pub improves : Parameters F → TimingMode → PowerObservation → Bool
  improves p m o = same_mode (indicated_mode o p) m && relaxation_earned o m p

  -- The evidence counted towards a pending mode was all observed, in a row.
  pub record IsBacked (p : Parameters F) (past : List PowerObservation) (s : TimingState)
      : Type 0 where
    pub count_int64 : IsInt64 s.pending_count
    pub counted :
        s.pending_mode ≢ unset → s.pending_count ≤ℤ pos (streak (improves p s.pending_mode) past)

  indicated-ne-unset : (o : PowerObservation) (p : Parameters F) → indicated_mode o p ≢ unset
  unfolding indicated_mode
  indicated-ne-unset o p = ground arith

  observe_from-IsBacked :
      (p : Parameters F) (past : List PowerObservation) (s : TimingState) (o : PowerObservation)
      (m : TimingMode)
      → p.escalate_after_observations ≤ℤ pos 1
      → indicated_mode o p ≡ m
      → IsBacked p past s
      → IsBacked p (o ∷ past) (observe_from s o m p).0
  unfolding observe_from
  observe_from-IsBacked p past s o m h e b = ground (
    arith,
    wrap64-IsInt64 (s.pending_count +ℤ pos 1),
    wrap64_succ_le s.pending_count,
    +ℤ_parts s.pending_count (pos 1),
  )

  observe_from_streak :
      (p : Parameters F) (past : List PowerObservation) (s : TimingState) (o : PowerObservation)
      (m : TimingMode)
      → p.escalate_after_observations ≤ℤ pos 1
      → indicated_mode o p ≡ m
      → m ≢ unset
      → IsBacked p past s
      → (observe_from s o m p).1.reason ≡ applied relaxed_shift
      → p.relax_after_observations ≤ℤ pos (streak (improves p m) (o ∷ past))
  unfolding observe_from
  observe_from_streak p past s o m h e u b r = ground (
    arith,
    wrap64-IsInt64 (s.pending_count +ℤ pos 1),
    wrap64_succ_le s.pending_count,
    +ℤ_parts s.pending_count (pos 1),
  )

  start_mode-IsBacked :
      (p : Parameters F) (past : List PowerObservation) (s : TimingState)
      → IsBacked p past s
      → IsBacked p past (start_mode s)
  start_mode-IsBacked p past s b = ground arith

  observe-IsBacked :
      (q : Parameters F) (past : List PowerObservation) (s : TimingState) (o : PowerObservation)
      → (with_defaults q).escalate_after_observations ≤ℤ pos 1
      → IsBacked (with_defaults q) past s
      → IsBacked (with_defaults q) (o ∷ past) (observe s o q).0
  unfolding observe
  observe-IsBacked q past s o h b =
      let p = with_defaults q in
      observe_from-IsBacked p past (start_mode s) o (indicated_mode o p) h refl
        (start_mode-IsBacked p past s b)

  -- The state after a list of observations, with the past, the latest first.
  abbrev pub observe_all :
      Parameters F
      → TimingState
      → List PowerObservation
      → List PowerObservation
      → TimingState × List PowerObservation
  observe_all q s past [] = (s, past)
  observe_all q s past (o ∷ os) = observe_all q (observe s o q).0 (o ∷ past) os

  observe_all-IsBacked :
      (q : Parameters F) (s : TimingState) (past os : List PowerObservation)
      → (with_defaults q).escalate_after_observations ≤ℤ pos 1
      → IsBacked (with_defaults q) past s
      → let (s', past') = observe_all q s past os in IsBacked (with_defaults q) past' s'
  observe_all-IsBacked q s past [] h b = b
  observe_all-IsBacked q s past (o ∷ os) h b =
      observe_all-IsBacked q (observe s o q).0 (o ∷ past) os h (observe-IsBacked q past s o h b)

  in_mode-IsBacked : (p : Parameters F) (m : TimingMode) → IsBacked p [] (in_mode m)
  in_mode-IsBacked p m = ground arith

  -- Whatever was observed since a state with no evidence: when an observation relaxes the mode, then
  -- that observation and the ones right before it, as many together as the parameters ask for, all
  -- indicated the new mode and cleared the margin, where escalation is immediate.
  pub relaxation_has_streak :
      (q : Parameters F) (m : TimingMode) (os : List PowerObservation) (o : PowerObservation)
      → (with_defaults q).escalate_after_observations ≤ℤ pos 1
      → (observe (observe_all q (in_mode m) [] os).0 o q).1.reason ≡ applied relaxed_shift
      → (with_defaults q).relax_after_observations
        ≤ℤ pos (
            streak
              (improves (with_defaults q) (indicated_mode o (with_defaults q)))
              (o ∷ (observe_all q (in_mode m) [] os).1))
  unfolding observe
  relaxation_has_streak q m os o h r =
      let p = with_defaults q in
      let (s, past) = observe_all q (in_mode m) [] os in
      observe_from_streak p past (start_mode s) o (indicated_mode o p) h refl
        (indicated-ne-unset o p)
        (start_mode-IsBacked p past s
          (observe_all-IsBacked q (in_mode m) [] os h (in_mode-IsBacked p m)))
        r
