-- ===== src/Executor/Groups.antt =====
-- executeGroup (internal/executor/executor.go): the action of one group, step by step.
use nut_operator.Prelude.{
  ℕ, Bool, not, ◌&&◌, ◌||◌, List, [], ◌∷◌, ◌++◌, Option, none, some, if◌then◌else◌, is_empty,
  length,
}
use Prim.Native.String.{String}
use nut_operator.Prelude.Int.{ℤ, pos, ltb_ℤ}
use nut_operator.Text.{Text, codes, text_eq}
use nut_operator.Diagnostics.{text, number}
use nut_operator.Adaptive.Float.{Float64}
use nut_operator.Adaptive.Budget.{scale_duration}
use nut_operator.Executor.Types.{
  Moment, at_group_end, after_wait, after_action, Context, within, Fault, stated, fault_of, Group,
  Action, given, text_of, ActionOutcome, completed, failed, group_row, attempt_row, Event, called,
  wrote, Executor,
}
use nut_operator.Executor.Release.{
  refresh_release_evidence, agent_shutdown_readiness_error, write_faults, record_node_releases,
}
use nut_operator.Executor.Pointer.{WaveState}

abbrev pub outcome_of : String → Fault → ActionOutcome
outcome_of o fault = record { outcome = codes o; error = text_of fault; signal_results = [] }

abbrev pub simulated : ActionOutcome
simulated = record { outcome = codes "Simulated"; error = given []; signal_results = [] }

abbrev pub is_shutdown : Group → Bool
is_shutdown g = text_eq g.action (codes "AgentShutdown")

abbrev pub is_hook : Group → Bool
is_hook g = text_eq g.action (codes "RunHook")

abbrev pub is_wait : Group → Bool
is_wait g = text_eq g.action (codes "Wait")

-- A group's action as it proceeds: the group with its evidence, the outcome, the error, and the calls.
pub record Attempt : Type 0 where
  pub group : Group
  pub outcome : ActionOutcome
  pub fault : Fault
  pub calls : List Event

abbrev pub block : Attempt → Fault → Attempt
block a fault = record a { outcome = outcome_of "Blocked" fault; fault = fault }

-- What a group's run comes to.
pub record GroupRun : Type 0 where
  pub node_releases : ℕ
  pub record_fault : Fault
  pub degraded : Bool
  pub degraded_reason : Text
  pub degraded_message : Fault
  pub fault : Fault
  pub log : List Event

abbrev pub is_text_empty : ActionOutcome → Bool
is_text_empty o = is_empty o.outcome

-- The runner's outcome with its gaps filled.
abbrev pub message_or : ActionOutcome → Fault → ActionOutcome
message_or o fault = elim o.error [
  | given t ↦ if is_empty t then record o { error = text_of fault } else o
  | text_of f ↦ o
]

abbrev pub completed_outcome : ActionOutcome → Fault → ActionOutcome
completed_outcome o fault =
    if is_empty fault
    then if is_text_empty o then record o { outcome = codes "Succeeded" } else o
    else message_or (if is_text_empty o then record o { outcome = codes "Failed" } else o) fault

module _ (ex : Executor) (at : Moment) (dry_run : Bool) where
  -- The evidence and the last check of an AgentShutdown group.
  unfoldable pub check_release : Context → Group → Attempt
  check_release ctx g =
      if not (is_shutdown g)
      then record { group = g; outcome = simulated; fault = []; calls = [] }
      else let (g', fault) = refresh_release_evidence ex at ctx g in
        let a : Attempt = record { group = g'; outcome = simulated; fault = []; calls = [] } in
        let unready = agent_shutdown_readiness_error dry_run g' in
        if not (is_empty fault)
        then block a fault
        else if not (is_empty unready)
        then block a unready
        else a

  unfoldable pub hold_wait : Context → ℤ → Attempt → Attempt
  hold_wait ctx wait a =
      let slept = ex.sleep at ctx wait in
      if is_wait a.group && is_empty a.fault && ltb_ℤ (pos 0) wait
      then if not (is_empty slept)
        then block a (stated "wait group %q interrupted" (text a.group.name ∷ []) ∷ slept)
        else record a {
          outcome = record {
            outcome = if dry_run then codes "Simulated" else codes "Succeeded";
            error = given [];
            signal_results = [];
          };
        }
      else a

  unfoldable pub check_context : Context → Attempt → Attempt
  check_context ctx a =
      let stop = fault_of (ex.context_cause at after_wait ctx) in
      if is_empty a.fault && not (is_empty stop) then block a stop else a

  -- The call itself, where there is a runner.
  abbrev pub call_runner :
      Option (Moment → Context → Action → ActionOutcome × Fault)
      → Context
      → Action
      → Attempt
      → Attempt
  call_runner none ctx action a =
      block a (stated "enforce execution requires an action runner" [] ∷ [])
  call_runner (some runner) ctx action a =
      let (outcome, fault) = runner at ctx action in
      record a {
        outcome = completed_outcome outcome fault;
        fault = fault;
        calls = a.calls ++ called at.wave action ∷ [];
      }

  unfoldable pub run_action : Context → Action → Attempt → Attempt
  run_action ctx action a =
      if (not dry_run || is_hook a.group) && is_empty a.fault
      then call_runner ex.runner ctx action a
      else a

  unfoldable pub check_timeout : Context → Context → ℤ → Attempt → Attempt
  check_timeout group_ctx action_ctx timeout a =
      let late : Fault =
        if is_empty a.fault
        then stated "group %q exceeded its %s timeout" (text a.group.name ∷ number timeout ∷ [])
          ∷ []
        else a.fault in
      if ltb_ℤ (pos 0) timeout
        && not (is_empty (fault_of (ex.context_cause at after_action group_ctx)))
        && is_empty (fault_of (ex.context_cause at after_action action_ctx))
      then record a {
        outcome = record a.outcome { outcome = codes "TimedOut"; error = text_of late };
        fault = late;
      }
      else a

  -- The steps of a group's action, in their order.
  unfoldable pub attempt_group : Context → Context → ℤ → ℤ → (Group → Action) → Group → Attempt
  unfolding check_release hold_wait check_context run_action check_timeout
  attempt_group group_ctx action_ctx timeout wait action g =
      let held = check_context group_ctx (hold_wait group_ctx wait (check_release group_ctx g)) in
      check_timeout group_ctx action_ctx timeout (run_action group_ctx (action held.group) held)

  -- The rows and the result of an attempt.
  unfoldable pub close_group : ℤ → Attempt → GroupRun
  close_group ttl a =
      let observed = ex.now at at_group_end in
      let rows =
        wrote (group_row at.wave a.group.name (if is_empty a.fault then completed else failed))
        ∷ wrote (attempt_row at.wave a.group.name dry_run a.outcome)
        ∷ [] in
      let (release_rows, release_faults) =
        record_node_releases ex at dry_run ttl observed a.group.name a.outcome
          a.group.node_releases in
      let hook_failed = is_hook a.group && not (is_empty a.fault) in
      record {
        node_releases = if is_shutdown a.group then length a.group.node_releases else 0;
        record_fault =
            write_faults ex at rows ++ (if is_shutdown a.group then release_faults else []);
        degraded = hook_failed;
        degraded_reason = if hook_failed then codes "ShutdownHookFailed" else [];
        degraded_message = if hook_failed then a.fault else [];
        fault = if hook_failed then [] else a.fault;
        log = a.calls ++ rows ++ (if is_shutdown a.group then release_rows else []);
      }

module _ {F : Type 0} ⦃fl : Float64 F⦄ (ex : Executor) where
  abbrev pub action_of : Bool → ℤ → WaveState F → Bool → Group → Action
  action_of dry_run wave_index state overrunning g = record {
    wave_index = wave_index;
    group = g;
    dry_run = dry_run;
    tier_overrunning = overrunning;
    observation = state.observation;
  }

  -- A group's action, its limit and its wait scaled by the wave's budget.
  unfoldable pub attempt_of : Moment → Bool → Context → ℤ → Group → WaveState F → Bool → Attempt
  unfolding attempt_group
  attempt_of at dry_run action_ctx wave_index g state overrunning =
      let timeout = scale_duration g.timeout state.budget in
      let wait = scale_duration g.wait_duration state.budget in
      attempt_group ex at dry_run
        (if ltb_ℤ (pos 0) timeout then within timeout action_ctx else action_ctx) action_ctx timeout
        wait (action_of dry_run wave_index state overrunning) g

  -- `executeGroup`.
  unfoldable pub execute_group :
      Moment → Bool → ℤ → Context → ℤ → Group → WaveState F → Bool → GroupRun
  unfolding attempt_of close_group
  execute_group at dry_run ttl action_ctx wave_index g state overrunning =
      close_group ex at dry_run ttl
        (attempt_of at dry_run action_ctx wave_index g state overrunning)
