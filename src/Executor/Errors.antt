-- ===== src/Executor/Errors.antt =====
-- The ends of Execute (internal/executor/executor.go): its phase and its error.
use nut_operator.Prelude.{
  ℕ, suc, Bool, true, false, not, ◌&&◌, ◌||◌, List, [], ◌∷◌, ◌++◌, Option, none, some,
  if◌then◌else◌, is_empty, ◌≡◌, refl, arith, ◌⊎◌, inl, inr, if_both, if_cases,
}
use nut_operator.Prelude.Int.{pos}
use nut_operator.Adaptive.Float.{Float64}
use nut_operator.Executor.Types.{
  Moment, at_due, at_end, after_observation, base, Fault, fault_of, Cause, Wave, completed, aborted,
  failed, no_phase, Race, run_canceled, wave_finished, timer_fired, Executor,
}
use nut_operator.Executor.Pointer.{WaveState, evaluate_wave, remaining_plan_duration}
use nut_operator.Executor.Waves.{WaveRun, moment}
use nut_operator.Executor.Overruns.{no_window, is_overlap, has_cause}
use nut_operator.Executor.Plan.{
  Input, GroupMap, Result, drain_pending, validate_execute_input, Run, Finish, Progress, going,
  returned, lower_tier_due, terminal_handoff_wave, absorb_wave, wait_for_pending, record_aborted,
  handle_wave_result, record_observation_failure, finish_execution,
}
use nut_operator.Executor.Execute.{
  policy_of, start_wave, close_round, overlap_wave, set_aside, begin_round, log_wave,
  is_timed_round, run_round, observe_round, wave_round, end_round, go_on, run_waves, first_run,
  first_result, execute,
}

-- A canceled context says why.
abbrev pub IsCoherent : Executor → Type 0
IsCoherent ex =
    (at : Moment) → ex.race at ≡ run_canceled → has_cause (ex.context_cause at at_due base) ≡ true

-- Without an error the run is completed, and with one it is aborted or failed.
abbrev pub IsTold : Finish → Type 0
IsTold f =
    (is_empty f.fault ≡ true → f.result.phase ≡ completed)
    × (is_empty f.fault ≡ false → (f.result.phase ≡ aborted) ⊎ (f.result.phase ≡ failed))

pub race_told :
    {A : Type 0} (P : A → Type 0) (r : Race) (x y z : A)
    → (r ≡ run_canceled → P x)
    → P y
    → P z
    → P (elim r [ run_canceled ↦ x | wave_finished ↦ y | timer_fired ↦ z ])
race_told P run_canceled x y z p q r = p refl
race_told P wave_finished x y z p q r = q
race_told P timer_fired x y z p q r = r

pub not_empty : (f : Fault) → not (is_empty f) ≡ true → is_empty f ≡ false
not_empty f h = ground arith

pub joined : (x y : Fault) → is_empty x ≡ false → is_empty (x ++ y) ≡ false
joined [] y h = ground (arith, h)
joined (p ∷ ps) y h = refl

pub told_cause : (c : Option Cause) → has_cause c ≡ true → is_empty (fault_of c) ≡ false
told_cause none h = ground (arith, h)
told_cause (some c) h = refl

module _ {F : Type 0} ⦃fl : Float64 F⦄ (ex : Executor) (input : Input F) (groups : GroupMap)
    (coherent : IsCoherent ex) where
  abbrev IsOpen : Run F → Type 0
  IsOpen run = run.result.phase ≡ completed

  abbrev IsEnded : Progress F → Type 0
  IsEnded (going run) = IsOpen run
  IsEnded (returned f) = IsTold f

  record_aborted-IsTold :
      (position : ℕ) (run : Run F) (fault : Fault)
      → is_empty fault ≡ false
      → IsTold (record_aborted ex position run fault)
  unfolding record_aborted
  record_aborted-IsTold position run fault h =
      (λ none_told. ground (arith, h, none_told), λ k. inl refl)

  drain_pending-phase :
      (r : Result) (runs : List WaveRun) → (drain_pending r runs).0.phase ≡ r.phase
  unfolding drain_pending absorb_wave
  drain_pending-phase r [] = refl
  drain_pending-phase r (run ∷ runs) = drain_pending-phase (absorb_wave r run) runs

  drained-IsOpen : (run : Run F) → IsOpen run → IsOpen (wait_for_pending ex run).0
  unfolding wait_for_pending
  drained-IsOpen run h = rw (drain_pending-phase run.result run.pending) h

  handle_wave_result-IsEnded :
      (position : ℕ) (run : Run F) (w : WaveRun)
      → IsOpen run
      → IsEnded (handle_wave_result ex position run w)
  unfolding handle_wave_result absorb_wave
  handle_wave_result-IsEnded position run w h =
      let run' : Run F = record run {
        result = absorb_wave run.result w;
        record_fault = run.record_fault ++ w.record_fault;
      } in
      let (drained, fault, failed_group) = wait_for_pending ex run' in
      if_cases IsEnded (is_empty w.fault) (going run')
        (returned (record_aborted ex position drained (w.fault ++ fault))) (λ fine. h)
        (λ broken. record_aborted-IsTold position drained _ (joined w.fault fault broken))

  record_observation_failure-IsTold :
      (position : ℕ) (run : Run F) (was_canceled : Bool) (fault : Fault)
      → is_empty fault ≡ false
      → IsTold (record_observation_failure ex position run was_canceled fault)
  unfolding record_observation_failure
  record_observation_failure-IsTold position run true fault h =
      record_aborted-IsTold position run fault h
  record_observation_failure-IsTold position run false fault h =
      (λ none_told. ground (arith, h, none_told), λ k. inr refl)

  overlap_wave-IsEnded :
      (position : ℕ) (run : Run F) (w : WaveRun)
      → IsOpen run
      → IsEnded (overlap_wave ex input groups position run w)
  unfolding overlap_wave
  overlap_wave-IsEnded position run w h =
      let aside : Run F = record (set_aside ex input groups run w) { window = no_window } in
      let (drained, fault, failed_group) = wait_for_pending ex (set_aside ex input groups run w) in
      let stop = fault_of (ex.context_cause (moment position 0) at_due base) in
      if_both IsEnded _ (going aside) _ h (
        race_told IsEnded (ex.race (moment position 0))
          (returned (record_aborted ex position drained (stop ++ fault)))
          (handle_wave_result ex position run w) (going aside)
          (λ first. record_aborted-IsTold position drained _ (
            joined stop fault (
              told_cause (ex.context_cause (moment position 0) at_due base)
                (coherent (moment position 0) first))))
          (handle_wave_result-IsEnded position run w h) h)

  close_round-IsEnded :
      (due : Bool) (p : Progress F) → IsEnded p → IsEnded (close_round ex input groups due p)
  unfolding close_round
  close_round-IsEnded true (going run) h = h
  close_round-IsEnded false (going run) h = h
  close_round-IsEnded due (returned f) h = h

  run_round-IsEnded :
      (position : ℕ) (w : Wave) (rest : List Wave) (run : Run F) (state : WaveState F)
      → IsOpen run
      → IsEnded (run_round ex input groups position w rest run state)
  unfolding run_round
  run_round-IsEnded position w rest run state h =
      let begun = begin_round ex input groups position w run state in
      let wave_run = start_wave ex input groups position w rest begun state in
      let logged = log_wave ex input groups begun wave_run in
      close_round-IsEnded (lower_tier_due w rest) _ (
        if_both IsEnded
          (is_overlap (policy_of ex input groups) && is_timed_round ex input groups w rest logged)
          (overlap_wave ex input groups position logged wave_run)
          (handle_wave_result ex position logged wave_run)
          (overlap_wave-IsEnded position logged wave_run h)
          (handle_wave_result-IsEnded position logged wave_run h))

  observe_round-IsEnded :
      (position : ℕ) (w : Wave) (rest : List Wave) (run : Run F)
      → IsOpen run
      → IsEnded (observe_round ex input groups position w rest run)
  unfolding observe_round
  observe_round-IsEnded position w rest run h =
      let (state, problems) =
        evaluate_wave ex (moment position 0) run.adaptive w
          (remaining_plan_duration (pos 0) (w ∷ rest)) in
      let (drained, fault, failed_group) = wait_for_pending ex run in
      let was_canceled = has_cause (ex.context_cause (moment position 0) after_observation base) in
      if_cases IsEnded (is_empty problems) (run_round ex input groups position w rest run state)
        (returned (record_observation_failure ex position drained was_canceled (problems ++ fault)))
        (λ fine. run_round-IsEnded position w rest run state h)
        (λ broken.
          record_observation_failure-IsTold position drained was_canceled _
            (joined problems fault broken))

  wave_round-IsEnded :
      (position : ℕ) (w : Wave) (rest : List Wave) (run : Run F)
      → IsOpen run
      → IsEnded (wave_round ex input groups position w rest run)
  unfolding wave_round
  wave_round-IsEnded position w rest run h =
      let (drained, fault, failed_group) = wait_for_pending ex run in
      let waited : Progress F =
        if is_empty fault
        then observe_round ex input groups position w rest drained
        else returned (record_aborted ex position drained fault) in
      let waited_ended : IsEnded waited =
        if_cases IsEnded (is_empty fault) (observe_round ex input groups position w rest drained)
          (returned (record_aborted ex position drained fault))
          (λ fine. observe_round-IsEnded position w rest drained (drained-IsOpen run h))
          (λ broken. record_aborted-IsTold position drained fault broken) in
      if_both IsEnded (w.communication_barrier || terminal_handoff_wave groups w rest) waited
        (observe_round ex input groups position w rest run) waited_ended
        (observe_round-IsEnded position w rest run h)

  end_round-IsTold :
      (position : ℕ) (run : Run F) → IsOpen run → IsTold (end_round ex input groups position run)
  unfolding end_round finish_execution
  end_round-IsTold position run h =
      let (drained, fault, failed_group) = wait_for_pending ex run in
      if_cases IsTold (is_empty fault) (finish_execution ex position drained)
        (record_aborted ex position drained fault)
        (λ fine.
          let stop = fault_of (ex.context_cause (moment position 0) at_end base) in
          if_cases IsTold (not (is_empty stop)) (record_aborted ex position drained stop) _
            (λ stopped. record_aborted-IsTold position drained stop (not_empty stop stopped))
            (λ on. (λ none_told. drained-IsOpen run h, λ k. ground (arith, k))))
        (λ broken. record_aborted-IsTold position drained fault broken)

  go_on-IsTold :
      (next : Run F → Finish)
      → ((run : Run F) → IsOpen run → IsTold (next run))
      → (p : Progress F) → IsEnded p
      → IsTold (go_on ex input groups next p)
  go_on-IsTold next told (going run) k = told run k
  go_on-IsTold next told (returned f) k = k

  run_waves-IsTold :
      (position : ℕ) (ws : List Wave) (run : Run F)
      → IsOpen run
      → IsTold (run_waves ex input groups position ws run)
  unfolding run_waves
  run_waves-IsTold position [] run h = end_round-IsTold position run h
  run_waves-IsTold position (w ∷ rest) run h =
      go_on-IsTold (run_waves ex input groups (suc position) rest)
        (run_waves-IsTold (suc position) rest) (wave_round ex input groups position w rest run)
        (wave_round-IsEnded position w rest run h)

-- The end of a run, an input that is refused included.
abbrev pub IsReported : Finish → Type 0
IsReported f =
    (is_empty f.fault ≡ true → f.result.phase ≡ completed)
    × (is_empty f.fault ≡ false
        → (f.result.phase ≡ aborted)
          ⊎ ((f.result.phase ≡ failed) ⊎ ((f.result.phase ≡ no_phase) × (f.log ≡ []))))

module _ {F : Type 0} ⦃fl : Float64 F⦄ (ex : Executor) where
  -- Where a canceled context says why, a run without an error is Completed; one with an error is
  -- Aborted or Failed, or has no phase and has done nothing.
  pub execute-IsReported : (input : Input F) → IsCoherent ex → IsReported (execute ex input)
  unfolding execute first_run
  execute-IsReported input coherent =
      let (groups, fault) = validate_execute_input input in
      if_cases IsReported (is_empty fault)
        (run_waves ex input groups 0 input.waves (first_run ex input))
        (record { result = first_result no_phase false 0; fault = fault; log = [] })
        (λ valid.
          let told =
            run_waves-IsTold ex input groups coherent 0 input.waves (first_run ex input) refl in
          (told.0, λ broken. one_more (told.1 broken)))
        (λ invalid. (λ none_told. ground (arith, invalid, none_told), λ k. inr (inr (refl, refl))))
    where
      one_more : {A B C : Type 0} → A ⊎ B → A ⊎ (B ⊎ C)
      one_more (inl a) = inl a
      one_more (inr b) = inr (inl b)
