-- ===== src/Executor/Plan.antt =====
-- Execute (internal/executor/executor.go): the waves of one run, overlapped where the policy asks
-- for it, with the checks before, between and after them.
use nut_operator.Prelude.{
  ℕ, ◌+◌, Bool, true, false, not, ◌&&◌, ◌||◌, List, [], ◌∷◌, ◌++◌, map, Option, none, some,
  if◌then◌else◌, is_empty,
}
use nut_operator.Prelude.Int.{ℤ, ltb_ℤ, eq_ℤ}
use nut_operator.Text.{Text, codes, text_eq, lower}
use nut_operator.Text.Maps.{lookup, insert}
use nut_operator.Diagnostics.{text, number}
use nut_operator.Adaptive.Pointer.{PowerObservation, PointerState}
use nut_operator.Adaptive.Timing.{TimingState}
use nut_operator.Executor.Types.{
  at_end, base, Fault, stated, fault_of, Group, Wave, Phase, completed, aborted, failed,
  execution_row, Event, wrote, Executor,
}
use nut_operator.Executor.Release.{write_faults}
use nut_operator.Executor.Pointer.{AdaptiveInput}
use nut_operator.Executor.Groups.{is_shutdown}
use nut_operator.Executor.Waves.{WaveRun, group_or_zero, moment}
use nut_operator.Executor.Overruns.{Window, TierOverrun}

-- `Input`, less what the rows alone carry.
pub record Input (F : Type 0) : Type 0 where
  pub shutdown_flow : Text
  pub plan_config_hash : Text
  pub mode : Text
  pub approved : Bool
  pub dry_run : Bool
  pub signal_ttl : ℤ
  pub tier_overrun_policy : Text
  pub waves : List Wave
  pub groups : List Group
  pub adaptive : AdaptiveInput F

abbrev pub GroupMap : Type 0
GroupMap = List (Text × Group)

abbrev pub is_known : GroupMap → Text → Bool
is_known m n = elim (lookup n m) [ none ↦ false | some g ↦ true ]

unfoldable pub index_groups : GroupMap → List Group → GroupMap × Fault
index_groups m [] = (m, [])
index_groups m (g ∷ gs) =
    let rest = index_groups (insert g.name g m) gs in
    if is_empty g.name || is_empty g.action
    then ([], stated "executor group requires name and action" [] ∷ [])
    else if is_known m g.name
    then ([], stated "duplicate executor group %q" (text g.name ∷ []) ∷ [])
    else rest

unfoldable pub check_names : GroupMap → ℤ → List Text → Fault
check_names m index [] = []
check_names m index (n ∷ ns) =
    let rest = check_names m index ns in
    if is_known m n
    then rest
    else stated "compiled wave %d references unknown group %q" (number index ∷ text n ∷ []) ∷ []

unfoldable pub check_waves : GroupMap → List Wave → Fault
unfolding check_names
check_waves m [] = []
check_waves m (w ∷ ws) =
    let rest = check_waves m ws in
    if is_empty w.groups
    then stated "compiled wave %d requires at least one group" (number w.index ∷ []) ∷ []
    else if is_empty (check_names m w.index w.groups)
    then rest
    else check_names m w.index w.groups

module _ {F : Type 0} where
  unfoldable pub validate_execute_input : Input F → GroupMap × Fault
  unfolding index_groups check_waves
  validate_execute_input i =
      let (m, fault) = index_groups [] i.groups in
      if is_empty i.shutdown_flow || is_empty i.plan_config_hash
      then ([], stated "executor input requires shutdown flow and plan config hash" [] ∷ [])
      else if is_empty i.waves
      then ([], stated "executor input requires at least one compiled wave" [] ∷ [])
      else if not (is_empty fault)
      then ([], fault)
      else (if is_empty (check_waves m i.waves) then m else [], check_waves m i.waves)

  -- Anything but an approved run in mode Enforce, in any case of its letters, is dry.
  unfoldable pub effective_dry_run : Input F → Bool
  effective_dry_run i =
      i.dry_run || not (text_eq (map lower i.mode) (codes "enforce")) || not i.approved

pub record AdaptiveResult : Type 0 where
  pub pointer : PointerState
  pub timing : TimingState
  pub observation : PowerObservation

-- `Result`.
pub record Result : Type 0 where
  pub phase : Phase
  pub dry_run : Bool
  pub waves : ℕ
  pub groups : ℕ
  pub action_attempts : ℕ
  pub node_releases : ℕ
  pub degraded : Bool
  pub degraded_reason : Text
  pub degraded_message : Fault
  pub tier_overruns : List TierOverrun
  pub record_fault : Fault
  pub adaptive : Option AdaptiveResult

unfoldable pub absorb_wave : Result → WaveRun → Result
absorb_wave r run = record r {
  groups = r.groups + run.groups;
  action_attempts = r.action_attempts + run.action_attempts;
  node_releases = r.node_releases + run.node_releases;
  degraded = r.degraded || run.degraded;
  degraded_reason =
      if run.degraded && is_empty r.degraded_reason then run.degraded_reason else r.degraded_reason;
  degraded_message =
      if run.degraded && is_empty r.degraded_reason
      then run.degraded_message
      else r.degraded_message;
  tier_overruns = elim run.tier_overrun [
    | none ↦ r.tier_overruns
    | some t ↦ r.tier_overruns ++ t ∷ []
  ];
}

-- Folded from the first pending wave on: the result, the first error and its group, the audit errors.
unfoldable pub drain_pending : Result → List WaveRun → Result × Fault × Text × Fault
unfolding absorb_wave
drain_pending r [] = (r, [], [], [])
drain_pending r (run ∷ runs) =
    let (r', later, later_group, records) = drain_pending (absorb_wave r run) runs in
    let (fault, failed_group) =
      if is_empty run.fault then (later, later_group) else (run.fault, run.failed_group) in
    (r', fault, failed_group, run.record_fault ++ records)

-- The variables of Execute's loop.
pub record Run (F : Type 0) : Type 0 where
  pub result : Result
  pub record_fault : Fault
  pub adaptive : AdaptiveInput F
  pub window : Window
  pub pending : List WaveRun
  pub revoked : Bool
  pub log : List Event

-- What Execute returns, with what it did. A log is by wave, in the order in which the waves start,
-- and its order is that of time within a wave. Where a wave is overlapped, later waves run beside it,
-- so that its events may lie among theirs in time: the log does not say how.
pub record Finish : Type 0 where
  pub result : Result
  pub fault : Fault
  pub log : List Event

-- A wave's step goes on or returns.
pub data Progress (F : Type 0) : Type 0 where
  going : Run F → Progress F
  returned : Finish → Progress F

unfoldable pub lower_tier_due : Wave → List Wave → Bool
lower_tier_due w [] = false
lower_tier_due w (v ∷ vs) = elim w.shutdown_tier [
  | none ↦ false
  | some t ↦ elim v.shutdown_tier [ none ↦ false | some u ↦ ltb_ℤ u t ]
]

abbrev pub same_tier : Option ℤ → Option ℤ → Bool
same_tier none none = true
same_tier none (some t) = false
same_tier (some t) none = false
same_tier (some t) (some u) = eq_ℤ t u

abbrev pub is_sole_shutdown : GroupMap → List Text → Bool
is_sole_shutdown m [] = false
is_sole_shutdown m (n ∷ []) = is_shutdown (group_or_zero (lookup n m))
is_sole_shutdown m (n ∷ k ∷ ns) = false

-- A last wave whose sole group hands nodes over.
unfoldable pub terminal_handoff_wave : GroupMap → Wave → List Wave → Bool
terminal_handoff_wave m w rest = is_empty rest && is_sole_shutdown m w.groups

module _ {F : Type 0} (ex : Executor) where
  -- `waitForPending`, with the audit errors joined to the run's.
  unfoldable pub wait_for_pending : Run F → Run F × Fault × Text
  unfolding drain_pending
  wait_for_pending run =
      let (r, fault, failed_group, records) = drain_pending run.result run.pending in
      (
        record run { result = r; record_fault = run.record_fault ++ records; pending = [] },
        fault,
        failed_group,
      )

  unfoldable pub record_aborted : ℕ → Run F → Fault → Finish
  record_aborted position run fault =
      let row = wrote (execution_row aborted fault) in
      record {
        result = record run.result {
          phase = aborted;
          record_fault = run.record_fault ++ write_faults ex (moment position 0) (row ∷ []);
        };
        fault = fault;
        log = run.log ++ row ∷ [];
      }

  -- The wave's own error first, and then those of the waves that were still running.
  unfoldable pub handle_wave_result : ℕ → Run F → WaveRun → Progress F
  unfolding wait_for_pending record_aborted absorb_wave
  handle_wave_result position run w =
      let run' = record run {
        result = absorb_wave run.result w;
        record_fault = run.record_fault ++ w.record_fault;
      } in
      let (drained, fault, failed_group) = wait_for_pending run' in
      if is_empty w.fault
      then going run'
      else returned (record_aborted position drained (w.fault ++ fault))

  unfoldable pub record_observation_failure : ℕ → Run F → Bool → Fault → Finish
  unfolding record_aborted
  record_observation_failure position run was_canceled fault =
      if was_canceled then record_aborted position run fault else record {
        result = record run.result { phase = failed; record_fault = run.record_fault };
        fault = fault;
        log = run.log;
      }

  unfoldable pub finish_execution : ℕ → Run F → Finish
  unfolding record_aborted
  finish_execution position run =
      let stop = fault_of (ex.context_cause (moment position 0) at_end base) in
      let row = wrote (execution_row completed []) in
      if not (is_empty stop) then record_aborted position run stop else record {
        result = record run.result {
          record_fault = run.record_fault ++ write_faults ex (moment position 0) (row ∷ []);
        };
        fault = [];
        log = run.log ++ row ∷ [];
      }
