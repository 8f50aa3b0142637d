-- ===== src/Executor/Rounds.antt =====
-- A wave's round in Execute (internal/executor/executor.go): what it attempts, and what an error of it
-- leads to.
use nut_operator.Prelude.{
  ℕ, Bool, true, false, ◌&&◌, ◌||◌, List, [], ◌∷◌, ◌++◌, if◌then◌else◌, is_empty, ◌≡◌, refl, arith,
  sym, ap, ◌∙◌, if_both, if_cases,
}
use nut_operator.Prelude.Int.{pos}
use nut_operator.Adaptive.Float.{Float64}
use nut_operator.Executor.Types.{at_due, after_observation, base, Fault, fault_of, Wave, Executor}
use nut_operator.Executor.Pointer.{WaveState, evaluate_wave, remaining_plan_duration}
use nut_operator.Executor.Waves.{WaveRun, moment}
use nut_operator.Executor.Overruns.{no_window, is_overlap, has_cause}
use nut_operator.Executor.Plan.{
  Input, GroupMap, Run, Progress, going, returned, lower_tier_due, terminal_handoff_wave,
  absorb_wave, wait_for_pending, record_aborted, handle_wave_result, record_observation_failure,
}
use nut_operator.Executor.Execute.{
  policy_of, start_wave, config_of, close_round, overlap_wave, set_aside, begin_round, log_wave,
  is_timed_round, run_round, observe_round, wave_round,
}
use nut_operator.Executor.Errors.{IsCoherent, joined, told_cause, race_told}
use nut_operator.Executor.Attempts.{attempts, attempts-append}
use nut_operator.Executor.Order.{Names, run_wave-IsWaveInOrder}
use nut_operator.Executor.Valid.{IsNamedWave}
use nut_operator.Executor.Steps.{
  all_fine, all_fine-last, false_not_true, and_true, failed-IsStep, IsWaveStep, broken-IsStep,
  same_fine, empty-IsStep, drained-log, pending_fine, IsRound,
}

module _ {F : Type 0} ⦃fl : Float64 F⦄ (ex : Executor) (input : Input F) (groups : GroupMap)
    (coherent : IsCoherent ex) where
  handle_wave_result-IsRound :
      (position : ℕ) (run : Run F) (w : Wave) (logged : Run F) (r : WaveRun)
      → IsWaveStep ex input groups coherent position run w logged r
      → IsRound ex input groups coherent position run w (handle_wave_result ex position logged r)
  unfolding handle_wave_result wait_for_pending absorb_wave IsRound IsWaveStep
  handle_wave_result-IsRound position run w logged r (same, h) =
      let next : Run F = record logged {
        result = absorb_wave logged.result r;
        record_fault = logged.record_fault ++ r.record_fault;
      } in
      let (drained, fault, failed_group) = wait_for_pending ex next in
      if_cases (IsRound ex input groups coherent position run w) (is_empty r.fault) (going next)
        (returned (record_aborted ex position drained (r.fault ++ fault)))
        (λ fine.
          same_fine ex input groups coherent position run.log run.pending w logged.log _
            (all_fine logged.pending) (rw (same, fine) (sym (and_true (all_fine run.pending)))) h)
        (λ broken.
          failed-IsStep ex input groups coherent position run.log run.pending w drained
            (r.fault ++ fault)
            (broken-IsStep ex input groups coherent position run.log run.pending w logged.log _ h)
            (joined r.fault fault broken))

  overlap_wave-IsRound :
      (position : ℕ) (run : Run F) (w : Wave) (logged : Run F) (r : WaveRun)
      → IsWaveStep ex input groups coherent position run w logged r
      → IsRound ex input groups coherent position run w
          (overlap_wave ex input groups position logged r)
  unfolding overlap_wave wait_for_pending IsRound IsWaveStep
  overlap_wave-IsRound position run w logged r (same, h) =
      let aside : Run F = record (set_aside ex input groups logged r) { window = no_window } in
      let (drained, fault, failed_group) =
        wait_for_pending ex (set_aside ex input groups logged r) in
      let stop = fault_of (ex.context_cause (moment position 0) at_due base) in
      let aside_step : IsRound ex input groups coherent position run w (going aside) =
        same_fine ex input groups coherent position run.log run.pending w logged.log _
          (all_fine (logged.pending ++ r ∷ [])) (all_fine-last logged.pending r ∙ rw same refl) h in
      if_both (IsRound ex input groups coherent position run w) _ (going aside) _ aside_step (
        race_told (IsRound ex input groups coherent position run w) (ex.race (moment position 0))
          (returned (record_aborted ex position drained (stop ++ fault)))
          (handle_wave_result ex position logged r) (going aside)
          (λ first.
            failed-IsStep ex input groups coherent position run.log run.pending w drained
              (stop ++ fault)
              (broken-IsStep ex input groups coherent position run.log run.pending w logged.log _ h)
              (joined stop fault (
                told_cause (ex.context_cause (moment position 0) at_due base)
                  (coherent (moment position 0) first))))
          (handle_wave_result-IsRound position run w logged r (same, h)) aside_step)

  close_round-IsRound :
      (position : ℕ) (run : Run F) (w : Wave) (due : Bool) (p : Progress F)
      → IsRound ex input groups coherent position run w p
      → IsRound ex input groups coherent position run w (close_round ex input groups due p)
  unfolding close_round IsRound
  close_round-IsRound position run w true (going next) h = h
  close_round-IsRound position run w false (going next) h = h
  close_round-IsRound position run w due (returned f) h = h

  start_wave-IsWaveStep :
      (position : ℕ) (w : Wave) (rest : List Wave) (run : Run F) (state : WaveState F)
      → IsNamedWave groups w
      → let begun = begin_round ex input groups position w run state in
        let r = start_wave ex input groups position w rest begun state in
        IsWaveStep ex input groups coherent position run w (log_wave ex input groups begun r) r
  unfolding start_wave config_of IsWaveStep
  start_wave-IsWaveStep position w rest run state named =
      let h = run_wave-IsWaveInOrder ex position _ w state named in
      (
        refl,
        record {
          done = h.done;
          left = h.left;
          logged = attempts-append run.log _ ∙ ap (λ (xs : Names). attempts run.log ++ xs) h.logged;
          ordered = h.ordered;
          whole = λ fine. (ground (arith, fine), h.whole (ground (arith, fine)));
        },
      )

  run_round-IsRound :
      (position : ℕ) (w : Wave) (rest : List Wave) (run : Run F) (state : WaveState F)
      → IsNamedWave groups w
      → IsRound ex input groups coherent position run w
          (run_round ex input groups position w rest run state)
  unfolding run_round
  run_round-IsRound position w rest run state named =
      let begun = begin_round ex input groups position w run state in
      let wave_run = start_wave ex input groups position w rest begun state in
      let logged = log_wave ex input groups begun wave_run in
      let h = start_wave-IsWaveStep position w rest run state named in
      close_round-IsRound position run w (lower_tier_due w rest) _ (
        if_both (IsRound ex input groups coherent position run w)
          (is_overlap (policy_of ex input groups) && is_timed_round ex input groups w rest logged)
          (overlap_wave ex input groups position logged wave_run)
          (handle_wave_result ex position logged wave_run)
          (overlap_wave-IsRound position run w logged wave_run h)
          (handle_wave_result-IsRound position run w logged wave_run h))

  observation_failed :
      (position : ℕ) (run drained : Run F) (w : Wave) (was_canceled : Bool) (fault : Fault)
      → drained.log ≡ run.log
      → is_empty fault ≡ false
      → IsRound ex input groups coherent position run w
          (returned (record_observation_failure ex position drained was_canceled fault))
  unfolding record_observation_failure IsRound
  observation_failed position run drained w true fault same broken =
      failed-IsStep ex input groups coherent position run.log run.pending w drained fault
        (rw same (empty-IsStep ex input groups coherent position run w)) broken
  observation_failed position run drained w false fault same broken =
      (broken, rw same (empty-IsStep ex input groups coherent position run w))

  observe_round-IsRound :
      (position : ℕ) (w : Wave) (rest : List Wave) (run : Run F)
      → IsNamedWave groups w
      → IsRound ex input groups coherent position run w
          (observe_round ex input groups position w rest run)
  unfolding observe_round
  observe_round-IsRound position w rest run named =
      let (state, problems) =
        evaluate_wave ex (moment position 0) run.adaptive w
          (remaining_plan_duration (pos 0) (w ∷ rest)) in
      let (drained, fault, failed_group) = wait_for_pending ex run in
      let was_canceled = has_cause (ex.context_cause (moment position 0) after_observation base) in
      if_cases (IsRound ex input groups coherent position run w) (is_empty problems)
        (run_round ex input groups position w rest run state)
        (returned (record_observation_failure ex position drained was_canceled (problems ++ fault)))
        (λ fine. run_round-IsRound position w rest run state named)
        (λ broken.
          observation_failed position run drained w was_canceled (problems ++ fault)
            (drained-log ex input groups coherent run) (joined problems fault broken))

  waited-IsRound :
      (position : ℕ) (run : Run F) (w : Wave) (p : Progress F)
      → all_fine run.pending ≡ true
      → IsRound ex input groups coherent position (wait_for_pending ex run).0 w p
      → IsRound ex input groups coherent position run w p
  unfolding wait_for_pending IsRound
  waited-IsRound position run w (going next) fine h = record {
    done = h.done;
    left = h.left;
    logged = h.logged;
    ordered = h.ordered;
    whole = λ k. (fine, (h.whole k).1);
  }
  waited-IsRound position run w (returned f) fine (broken, h) = (
    broken,
    record {
      done = h.done;
      left = h.left;
      logged = h.logged;
      ordered = h.ordered;
      whole = λ wrong. elim (false_not_true wrong) [ ];
    },
  )

  waited_broken :
      (position : ℕ) (run : Run F) (w : Wave)
      → is_empty (wait_for_pending ex run).1 ≡ false
      → IsRound ex input groups coherent position run w (
          returned
            (record_aborted ex position (wait_for_pending ex run).0 (wait_for_pending ex run).1))
  unfolding IsRound
  waited_broken position run w broken =
      failed-IsStep ex input groups coherent position run.log run.pending w
        (wait_for_pending ex run).0 (wait_for_pending ex run).1
        (rw (drained-log ex input groups coherent run)
          (empty-IsStep ex input groups coherent position run w))
        broken

  pub wave_round-IsRound :
      (position : ℕ) (w : Wave) (rest : List Wave) (run : Run F)
      → IsNamedWave groups w
      → IsRound ex input groups coherent position run w
          (wave_round ex input groups position w rest run)
  unfolding wave_round
  wave_round-IsRound position w rest run named =
      let (drained, fault, failed_group) = wait_for_pending ex run in
      let waited : Progress F =
        if is_empty fault
        then observe_round ex input groups position w rest drained
        else returned (record_aborted ex position drained fault) in
      let waited_step : IsRound ex input groups coherent position run w waited =
        if_cases (IsRound ex input groups coherent position run w) (is_empty fault)
          (observe_round ex input groups position w rest drained)
          (returned (record_aborted ex position drained fault))
          (λ fine.
            waited-IsRound position run w _ (pending_fine ex input groups coherent run fine)
              (observe_round-IsRound position w rest drained named))
          (λ broken. waited_broken position run w broken) in
      if_both (IsRound ex input groups coherent position run w)
        (w.communication_barrier || terminal_handoff_wave groups w rest) waited
        (observe_round ex input groups position w rest run) waited_step
        (observe_round-IsRound position w rest run named)
