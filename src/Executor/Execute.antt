-- ===== src/Executor/Execute.antt =====
-- The loop of Execute (internal/executor/executor.go) over the waves.
use nut_operator.Prelude.{
  ℕ, suc, Bool, false, not, ◌&&◌, ◌||◌, List, [], ◌∷◌, ◌++◌, none, some, if◌then◌else◌, is_empty,
  length,
}
use nut_operator.Prelude.Int.{ℤ, pos, ◌+ℤ◌, ◌-ℤ◌, leb_ℤ, ltb_ℤ}
use nut_operator.Prelude.Words.{wrap64}
use nut_operator.Adaptive.Float.{Float64}
use nut_operator.Adaptive.Budget.{scale_duration}
use nut_operator.Executor.Types.{
  at_wave_start, at_due, after_observation, Context, base, until, fault_of, Wave, Phase, running,
  completed, no_phase, execution_row, wrote, run_canceled, wave_finished, timer_fired, Executor,
}
use nut_operator.Executor.Release.{write_faults}
use nut_operator.Executor.Pointer.{WaveState, evaluate_wave, remaining_plan_duration}
use nut_operator.Executor.Waves.{WaveRun, WaveConfig, moment, run_wave}
use nut_operator.Executor.Overruns.{
  OverrunPolicy, is_preempt, is_overlap, effective_tier_overrun_policy, has_cause, Window,
  no_window,
}
use nut_operator.Executor.Plan.{
  Input, GroupMap, validate_execute_input, effective_dry_run, Result, Run, Finish, Progress, going,
  returned, lower_tier_due, same_tier, terminal_handoff_wave, wait_for_pending, record_aborted,
  handle_wave_result, record_observation_failure, finish_execution,
}

module _ {F : Type 0} ⦃fl : Float64 F⦄ (ex : Executor) (input : Input F) (groups : GroupMap) where
  abbrev pub policy_of : OverrunPolicy
  policy_of = effective_tier_overrun_policy input.tier_overrun_policy

  -- The approval, read anew where there is still something to lose: an error is a refusal.
  unfoldable pub refuses : ℕ → Bool
  refuses position = elim ex.approval_checker [
    | none ↦ false
    | some ask ↦
        let (approved, problems) = ask (moment position 0) in
        not (is_empty problems) || not approved
  ]

  unfoldable pub revoked_at : ℕ → Run F → Bool
  unfolding effective_dry_run refuses
  revoked_at position run = run.revoked || (not (effective_dry_run input) && refuses position)

  -- The tier's window with a wave added to it.
  unfoldable pub open_window : ℕ → Window → Wave → WaveState F → Window
  open_window position window w state =
      let same = same_tier window.shutdown_tier w.shutdown_tier in
      record {
        shutdown_tier = if same then window.shutdown_tier else w.shutdown_tier;
        started_at =
            if same then window.started_at else some (ex.now (moment position 0) at_wave_start);
        declared = wrap64 ((if same then window.declared else pos 0) +ℤ w.duration);
        effective =
            wrap64 (
              (if same then window.effective else pos 0) +ℤ scale_duration w.duration state.budget);
      }

  abbrev pub deadline_of : Window → ℤ
  deadline_of window = elim window.started_at [
    | none ↦ window.effective
    | some t ↦ t +ℤ window.effective
  ]

  unfoldable pub config_of : Wave → List Wave → Run F → Context → WaveConfig
  unfolding lower_tier_due
  config_of w rest run ctx = record {
    terminal = is_empty rest;
    groups = groups;
    dry_run = effective_dry_run input || run.revoked;
    signal_ttl = input.signal_ttl;
    policy = policy_of;
    window = run.window;
    lower_due = lower_tier_due w rest;
    action_context = ctx;
  }

  -- The wave that is started, with the context of its actions.
  unfoldable pub start_wave : ℕ → Wave → List Wave → Run F → WaveState F → WaveRun
  unfolding config_of
  start_wave position w rest run state =
      let timed = lower_tier_due w rest && ltb_ℤ (pos 0) run.window.effective in
      run_wave ex position
        (config_of w rest run
          (if is_preempt policy_of && timed then until (deadline_of run.window) base else base))
        w state

  -- The end of a wave's round.
  unfoldable pub close_round : Bool → Progress F → Progress F
  close_round lower_due (going run) =
      going (if lower_due then record run { window = no_window } else run)
  close_round lower_due (returned f) = returned f

  abbrev pub set_aside : Run F → WaveRun → Run F
  set_aside run w = record run { pending = run.pending ++ w ∷ [] }

  -- An overlapped wave: it is set aside when the tier's time is up before it ends.
  unfoldable pub overlap_wave : ℕ → Run F → WaveRun → Progress F
  overlap_wave position run w =
      let due_after = deadline_of run.window -ℤ ex.now (moment position 0) at_due in
      let aside : Run F = record (set_aside run w) { window = no_window } in
      let (drained, fault, failed_group) = wait_for_pending ex (set_aside run w) in
      if leb_ℤ due_after (pos 0) then going aside else elim (ex.race (moment position 0)) [
        | run_canceled ↦ returned (
            record_aborted ex position drained
              (fault_of (ex.context_cause (moment position 0) at_due base) ++ fault))
        | wave_finished ↦ handle_wave_result ex position run w
        | timer_fired ↦ going aside
      ]

  -- The run with the wave's power state, its window, and the flag of a refused approval.
  abbrev pub begin_round : ℕ → Wave → Run F → WaveState F → Run F
  begin_round position w run state = record run {
    result = record run.result {
      adaptive = some (record {
        pointer = state.pointer;
        timing = state.timing;
        observation = state.observation;
      });
    };
    adaptive = record run.adaptive {
      pointer = state.pointer;
      timing = state.timing;
      observation = state.observation;
    };
    window = open_window position run.window w state;
    revoked = revoked_at position run;
  }

  -- The run with what the wave did. An overlapped wave is entered whole where it starts, as a log by
  -- wave has it: in time, later waves may run before its last events.
  abbrev pub log_wave : Run F → WaveRun → Run F
  log_wave run wave_run = record run { log = run.log ++ wave_run.log }

  abbrev pub is_timed_round : Wave → List Wave → Run F → Bool
  is_timed_round w rest run = lower_tier_due w rest && ltb_ℤ (pos 0) run.window.effective

  -- A wave once its power state is known.
  unfoldable pub run_round : ℕ → Wave → List Wave → Run F → WaveState F → Progress F
  unfolding revoked_at open_window start_wave close_round overlap_wave
  run_round position w rest run state =
      let begun = begin_round position w run state in
      let wave_run = start_wave position w rest begun state in
      let logged = log_wave begun wave_run in
      close_round (lower_tier_due w rest) (
        if is_overlap policy_of && is_timed_round w rest logged
        then overlap_wave position logged wave_run
        else handle_wave_result ex position logged wave_run)

  -- The power state of a wave is read, and a failed read ends the run.
  unfoldable pub observe_round : ℕ → Wave → List Wave → Run F → Progress F
  unfolding run_round
  observe_round position w rest run =
      let (state, problems) =
        evaluate_wave ex (moment position 0) run.adaptive w
          (remaining_plan_duration (pos 0) (w ∷ rest)) in
      let (drained, fault, failed_group) = wait_for_pending ex run in
      if is_empty problems
      then run_round position w rest run state
      else returned (
          record_observation_failure ex position drained
            (has_cause (ex.context_cause (moment position 0) after_observation base))
            (problems ++ fault))

  -- One wave: what is pending is waited for before a barrier and before the terminal handoff.
  unfoldable pub wave_round : ℕ → Wave → List Wave → Run F → Progress F
  unfolding observe_round
  wave_round position w rest run =
      let (drained, fault, failed_group) = wait_for_pending ex run in
      if w.communication_barrier || terminal_handoff_wave groups w rest
      then if is_empty fault
        then observe_round position w rest drained
        else returned (record_aborted ex position drained fault)
      else observe_round position w rest run

  -- What is left after the last wave.
  unfoldable pub end_round : ℕ → Run F → Finish
  end_round position run =
      let (drained, fault, failed_group) = wait_for_pending ex run in
      if is_empty fault
      then finish_execution ex position drained
      else record_aborted ex position drained fault

  -- On to the next wave, or out.
  abbrev pub go_on : (Run F → Finish) → Progress F → Finish
  go_on next (going run) = next run
  go_on next (returned f) = f

  unfoldable pub run_waves : ℕ → List Wave → Run F → Finish
  unfolding wave_round end_round
  run_waves position [] run = end_round position run
  run_waves position (w ∷ rest) run =
      go_on (λ next. run_waves (suc position) rest next) (wave_round position w rest run)

abbrev pub first_result : Phase → Bool → ℕ → Result
first_result phase dry_run waves = record {
  phase = phase;
  dry_run = dry_run;
  waves = waves;
  groups = 0;
  action_attempts = 0;
  node_releases = 0;
  degraded = false;
  degraded_reason = [];
  degraded_message = [];
  tier_overruns = [];
  record_fault = [];
  adaptive = none;
}

module _ {F : Type 0} ⦃fl : Float64 F⦄ (ex : Executor) where
  -- The run as it stands before the first wave.
  unfoldable pub first_run : Input F → Run F
  unfolding effective_dry_run
  first_run input =
      let row = wrote (execution_row running []) in
      record {
        result = first_result completed (effective_dry_run input) (length input.waves);
        record_fault = write_faults ex (moment 0 0) (row ∷ []);
        adaptive = input.adaptive;
        window = no_window;
        pending = [];
        revoked = false;
        log = row ∷ [];
      }

  -- `Execute`: an invalid input returns its error, and nothing is done.
  unfoldable pub execute : Input F → Finish
  unfolding validate_execute_input first_run run_waves
  execute input =
      let (groups, fault) = validate_execute_input input in
      if is_empty fault
      then run_waves ex input groups 0 input.waves (first_run input)
      else record { result = first_result no_phase false 0; fault = fault; log = [] }
