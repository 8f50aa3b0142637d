-- ===== src/Executor/Waves.antt =====
-- runWave (internal/executor/executor.go) and resolveWaveTargets (wave_targets.go).
use nut_operator.Prelude.{
  ℕ, suc, ◌+◌, Bool, true, false, not, ◌&&◌, ◌||◌, List, [], ◌∷◌, ◌++◌, map, Option, none, some,
  if◌then◌else◌, is_empty, length, ◌==◌,
}
use nut_operator.Prelude.Int.{ℤ, pos, ltb_ℤ}
use nut_operator.Text.{Text}
use nut_operator.Text.Maps.{lookup, insert}
use nut_operator.Diagnostics.{text, number}
use nut_operator.Adaptive.Float.{Float64}
use nut_operator.Adaptive.Budget.{scale_duration}
use nut_operator.Executor.Types.{
  Moment, at_overrun_check, at_wave_end, before_resolve, after_resolve, after_group, Context, base,
  within, Fault, stated, fault_of, NodeRelease, Group, zero_group, Wave, Phase, running, completed,
  aborted, failed, wave_row, Event, wrote, Executor,
}
use nut_operator.Executor.Release.{write_faults}
use nut_operator.Executor.Pointer.{WaveState}
use nut_operator.Executor.Groups.{is_shutdown, GroupRun, execute_group}
use nut_operator.Executor.Overruns.{
  OverrunPolicy, is_preempt, Window, TierOverrun, has_cause, is_deadline, tier_window_overrunning,
  tier_overrun_action, tier_overrun_record,
}

-- `waveExecutionResult`, with what the wave did.
pub record WaveRun : Type 0 where
  pub groups : ℕ
  pub action_attempts : ℕ
  pub node_releases : ℕ
  pub record_fault : Fault
  pub fault : Fault
  pub failed_group : Text
  pub degraded : Bool
  pub degraded_reason : Text
  pub degraded_message : Fault
  pub tier_overrun : Option TierOverrun
  pub log : List Event

abbrev pub empty_run : WaveRun
empty_run = record {
  groups = 0;
  action_attempts = 0;
  node_releases = 0;
  record_fault = [];
  fault = [];
  failed_group = [];
  degraded = false;
  degraded_reason = [];
  degraded_message = [];
  tier_overrun = none;
  log = [];
}

abbrev pub group_or_zero : Option Group → Group
group_or_zero none = zero_group
group_or_zero (some g) = g

-- `waveRunConfig`, less what the rows alone carry.
pub record WaveConfig : Type 0 where
  pub terminal : Bool
  pub groups : List (Text × Group)
  pub dry_run : Bool
  pub signal_ttl : ℤ
  pub policy : OverrunPolicy
  pub window : Window
  pub lower_due : Bool
  pub action_context : Context

abbrev pub moment : ℕ → ℕ → Moment
moment w g = record { wave = w; group = g }

-- The group's declared time where it is above 0 and below 30 s.
abbrev pub resolution_timeout : ℤ → ℤ
resolution_timeout declared =
    if ltb_ℤ (pos 0) declared && ltb_ℤ declared (pos 30000000000) then declared else pos 30000000000

-- The groups that were resolved, the group at which it failed, and why.
abbrev pub Resolution : Type 0
Resolution = List (Text × Group) × Text × Fault

module _ {F : Type 0} ⦃fl : Float64 F⦄ (ex : Executor) (position : ℕ) (cfg : WaveConfig)
    (wave : Wave) (state : WaveState F) where
  -- The targets that are resolved for one group.
  unfoldable pub resolve_group : ℕ → Text → Group × Fault
  resolve_group i name =
      let g = group_or_zero (lookup name cfg.groups) in
      elim ex.resolve_targets [
        | none ↦ (g, [])
        | some resolve ↦
            let ctx =
              within (resolution_timeout (scale_duration g.timeout state.budget))
                cfg.action_context in
            let (targets, problems) = resolve (moment position i) ctx g in
            let fault =
              if is_empty problems
              then fault_of (ex.context_cause (moment position i) after_resolve ctx)
              else problems in
            (
              record g { selected_targets = targets },
              if is_empty fault
                  then []
                  else stated "resolve wave %d group %q targets"
                      (number wave.index ∷ text name ∷ [])
                    ∷ fault,
            )
      ]

  unfoldable pub resolve_all : ℕ → List (Text × Group) → List Text → Resolution
  unfolding resolve_group
  resolve_all i resolved [] = (resolved, [], [])
  resolve_all i resolved (n ∷ ns) =
      let stop =
        fault_of (ex.context_cause (moment position i) before_resolve cfg.action_context) in
      let (g, fault) = resolve_group i n in
      let later = resolve_all (suc i) (insert n g resolved) ns in
      if not (is_empty stop)
      then ([], n, stop)
      else if not (is_empty fault)
      then ([], n, fault)
      else later

  unfoldable pub resolve_wave_targets : Resolution
  unfolding resolve_all
  resolve_wave_targets = resolve_all 0 [] wave.groups

  -- Only a sole group of the last wave hands its nodes over for good.
  unfoldable pub mark_terminal : Group → Group
  mark_terminal g =
      if is_shutdown g
      then record g {
        node_releases =
            map
              (λ (r : NodeRelease). record r {
                terminal_handoff = length wave.groups == 1 && cfg.terminal;
              })
              g.node_releases;
      }
      else g

  unfoldable pub tier_preempted : ℕ → Bool
  tier_preempted i =
      is_preempt cfg.policy
      && cfg.lower_due
      && not (has_cause (ex.context_cause (moment position i) after_group base))
      && is_deadline (ex.context_cause (moment position i) after_group cfg.action_context)

  -- A group's run added to the wave's.
  unfoldable pub absorb_group : WaveRun → GroupRun → WaveRun
  absorb_group run g = record run {
    groups = suc run.groups;
    action_attempts = suc run.action_attempts;
    node_releases = run.node_releases + g.node_releases;
    record_fault = run.record_fault ++ g.record_fault;
    degraded = run.degraded || g.degraded;
    degraded_reason =
        if g.degraded && is_empty run.degraded_reason
        then g.degraded_reason
        else run.degraded_reason;
    degraded_message =
        if g.degraded && is_empty run.degraded_reason
        then g.degraded_message
        else run.degraded_message;
    log = run.log ++ g.log;
  }

  unfoldable pub run_group : ℕ → Group → GroupRun
  unfolding mark_terminal
  run_group i g =
      execute_group ex (moment position i) cfg.dry_run cfg.signal_ttl cfg.action_context wave.index
        (mark_terminal g) state
        (tier_window_overrunning cfg.window (ex.now (moment position i) at_overrun_check))

  -- The loop over the wave's groups: it ends at an error, and where the tier is preempted.
  unfoldable pub run_groups : List (Text × Group) → ℕ → WaveRun → List Text → WaveRun × Bool
  unfolding run_group absorb_group tier_preempted
  run_groups resolved i run [] = (run, false)
  run_groups resolved i run (n ∷ ns) =
      let g = group_or_zero (lookup n resolved) in
      let r = run_group i g in
      let run' = absorb_group run r in
      let later = run_groups resolved (suc i) run' ns in
      if tier_preempted i
      then (run', true)
      else if not (is_empty r.fault)
      then (record run' { fault = r.fault; failed_group = g.name }, false)
      else later

  abbrev pub begun : WaveRun
  begun = record empty_run { log = wrote (wave_row position running) ∷ [] }

  abbrev pub unresolved : Text → Fault → WaveRun × Bool
  unresolved failed_at stop = (record begun { fault = stop; failed_group = failed_at }, false)

  -- The groups, where all their targets were resolved.
  unfoldable pub run_resolved : WaveRun × Bool
  unfolding resolve_wave_targets run_groups
  run_resolved =
      let (resolved, failed_at, stop) = resolve_wave_targets in
      if is_empty stop then run_groups resolved 0 begun wave.groups else unresolved failed_at stop

  abbrev pub phase_of : WaveRun → Bool → Phase
  phase_of run was_preempted =
      if was_preempted then aborted else if is_empty run.fault then completed else failed

  -- The wave's last row, and its overrun.
  unfoldable pub close_wave : WaveRun → Bool → WaveRun
  close_wave run was_preempted =
      let closed = wrote (wave_row position (phase_of run was_preempted)) in
      record run {
        record_fault =
            write_faults ex (moment position 0) begun.log
            ++ run.record_fault
            ++ write_faults ex (moment position 0) (closed ∷ []);
        tier_overrun =
            tier_overrun_record wave cfg.window cfg.policy
              (tier_overrun_action cfg.policy was_preempted) cfg.lower_due
              (ex.now (moment position 0) at_wave_end);
        log = run.log ++ closed ∷ [];
      }

  -- `runWave`.
  unfoldable pub run_wave : WaveRun
  unfolding run_resolved close_wave
  run_wave = close_wave run_resolved.0 run_resolved.1
