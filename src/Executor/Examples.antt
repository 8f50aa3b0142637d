-- ===== src/Executor/Examples.antt =====
-- A small plan, an executor for it, and the theorems at them.
use nut_operator.Prelude.{
  ℕ, true, false, List, [], ◌∷◌, none, some, ◌≡◌, refl, is_empty, All, arith,
}
use nut_operator.Prelude.Int.{ℤ, pos, ◌≤ℤ◌, ◌+ℤ◌}
use nut_operator.Prelude.Words.{wrap64}
use nut_operator.Text.{Text, codes, text_eq, lower}
use nut_operator.Text.Maps.{lookup, insert}
use nut_operator.Adaptive.Budget.{scale_duration, budget, measured_runtime}
use nut_operator.Adaptive.Parameters.{default_parameters, seconds, with_defaults}
use nut_operator.Adaptive.Pointer.{PointerState}
use nut_operator.Adaptive.Pointer.Run.{Inv, IsFlow}
use nut_operator.Adaptive.Timing.{unset}
use nut_operator.Adaptive.Examples.Fixed.{fixed_float}
use nut_operator.Executor.Types.{
  Executor, wave_finished, timer_fired, NodeRelease, Group, Wave, given,
}
use nut_operator.Executor.Overruns.{is_preempt, is_overlap, effective_tier_overrun_policy}
use nut_operator.Executor.Pointer.{remaining_plan_duration, evaluate_wave, descend_to_wave_tier}
use nut_operator.Executor.Descent.{target_of, descend_to_wave_tier-arrival}
use nut_operator.Executor.Release.{refresh_release_evidence, agent_shutdown_readiness_error}
use nut_operator.Executor.Groups.{execute_group}
use nut_operator.Executor.Waves.{run_wave}
use nut_operator.Executor.Plan.{
  terminal_handoff_wave, handle_wave_result, finish_execution, Input, validate_execute_input,
}
use nut_operator.Executor.Execute.{execute}
use nut_operator.Executor.Calls.{CallMeets}
use nut_operator.Executor.Authority.{IsAuthorized, execute-IsAuthorized}
use nut_operator.Executor.Errors.{IsCoherent, IsReported, execute-IsReported}
use nut_operator.Executor.Attempts.{attempts}
use nut_operator.Executor.Placed.{in_wave}
use nut_operator.Executor.Completeness.{IsOrderedIn, execute-IsOrderedIn, execute_complete}

-- Every call succeeds, and the approval stands.
abbrev site : Executor
site = record {
  now = λ at stage. pos 0;
  context_cause = λ at stage ctx. none;
  race = λ at. wave_finished;
  write = λ at row. [];
  sleep = λ at ctx t. [];
  runner = some (λ at ctx a.
      (record { outcome = codes "Succeeded"; error = given []; signal_results = [] }, []));
  observer = none;
  approval_checker = some (λ at. (true, []));
  refresh_node_release = none;
  resolve_targets = none;
}

abbrev node : NodeRelease
node = record {
  terminal_handoff = false;
  control_plane_nodes = [];
  quorum_members = [];
  agent_uid = [];
  agent_generation = pos 1;
  actuator_policy = [];
  node_name = codes "n1";
  node_power_agent = codes "agent";
  signal_path = [];
  signal_secret_key = [];
  signal_secret_name = [];
  signal_secret_namespace = [];
  agent_ready = true;
  readiness_reason = [];
  telemetry_fresh = true;
  telemetry_stale_reason = [];
  cleared = true;
  clearance_reason = [];
  blocking_workloads = [];
}

abbrev plain : Text → Text → List NodeRelease → Group
plain n action releases = record {
  name = n;
  action = action;
  params = [];
  hook_ref = none;
  selected_targets = [];
  node_releases = releases;
  timeout = pos 0;
  wait_duration = pos 0;
}

abbrev wave_of : ℤ → List Text → Wave
wave_of i ns = record {
  index = i;
  communication_barrier = false;
  shutdown_tier = none;
  duration = pos 60000000000;
  groups = ns;
}

abbrev run : Input ℕ
run = record {
  shutdown_flow = codes "flow";
  plan_config_hash = codes "h";
  mode = codes "Enforce";
  approved = true;
  dry_run = false;
  signal_ttl = pos 0;
  tier_overrun_policy = [];
  waves =
      wave_of (pos 0) (codes "drain" ∷ codes "notify" ∷ [])
      ∷ wave_of (pos 1) (codes "nodes" ∷ [])
      ∷ [];
  groups =
      plain (codes "drain") (codes "ScaleDown") []
      ∷ plain (codes "notify") (codes "RunHook") []
      ∷ plain (codes "nodes") (codes "AgentShutdown") (node ∷ [])
      ∷ [];
  adaptive = record {
    parameters = default_parameters;
    pointer = record { tier = pos 3; deepest = pos 0; started = false; halted = false };
    timing = record { mode = unset; pending_mode = unset; pending_count = pos 0 };
    observation = record {
      on_battery = true;
      low_battery = false;
      runtime_seconds = some (pos 900);
      runtime_trusted = true;
    };
    final_tier = pos 1;
    start_tier = pos 3;
  };
}

ran : is_empty (execute site run).fault ≡ true
unfolding execute lookup insert text_eq terminal_handoff_wave evaluate_wave
    effective_tier_overrun_policy handle_wave_result run_wave execute_group scale_duration lower
    refresh_release_evidence agent_shutdown_readiness_error finish_execution
ran = refl

site-IsCoherent : IsCoherent site
site-IsCoherent at first = ground (arith, first)

execute-IsAuthorized_example :
    All (CallMeets (IsAuthorized site run (validate_execute_input run).0)) (execute site run).log
execute-IsAuthorized_example = execute-IsAuthorized site run

execute-IsReported_example : IsReported (execute site run)
execute-IsReported_example = execute-IsReported site run site-IsCoherent

one_by_one : is_overlap (effective_tier_overrun_policy run.tier_overrun_policy) ≡ false
unfolding effective_tier_overrun_policy
one_by_one = refl

execute-IsOrderedIn_example : IsOrderedIn 0 run.waves (attempts (execute site run).log)
execute-IsOrderedIn_example = execute-IsOrderedIn site run site-IsCoherent one_by_one

-- The same groups in two tiers, where the first one's time is up before its wave ends.
abbrev late_site : Executor
late_site = record site { race = λ at. timer_fired }

abbrev overlapping : Input ℕ
overlapping = record run {
  tier_overrun_policy = codes "Overlap";
  waves =
      record (wave_of (pos 0) (codes "drain" ∷ codes "notify" ∷ [])) {
        shutdown_tier = some (pos 3);
      }
      ∷ record (wave_of (pos 1) (codes "nodes" ∷ [])) { shutdown_tier = some (pos 2) }
      ∷ [];
}

late_site-IsCoherent : IsCoherent late_site
late_site-IsCoherent at first = ground (arith, first)

overlap_patient : is_preempt (effective_tier_overrun_policy overlapping.tier_overrun_policy) ≡ false
unfolding effective_tier_overrun_policy text_eq
overlap_patient = refl

overlap_ran : is_empty (execute late_site overlapping).fault ≡ true
unfolding execute lookup insert text_eq terminal_handoff_wave evaluate_wave descend_to_wave_tier
    effective_tier_overrun_policy handle_wave_result run_wave execute_group scale_duration lower
    refresh_release_evidence agent_shutdown_readiness_error finish_execution wrap64 ◌+ℤ◌ budget
    remaining_plan_duration measured_runtime seconds with_defaults
overlap_ran = refl

execute_complete_example :
    in_wave 0 (attempts (execute late_site overlapping).log)
    ≡ (0, codes "drain") ∷ (0, codes "notify") ∷ []
execute_complete_example =
    execute_complete late_site overlapping late_site-IsCoherent overlap_patient overlap_ran 0

-- On battery, one tier down from the start, before a wave of tier 2.
abbrev under_way : PointerState
under_way = record { tier = pos 4; deepest = pos 4; started = true; halted = false }

abbrev tiered : Wave
tiered = record (wave_of (pos 2) []) { shutdown_tier = some (pos 2) }

IsFlow-5_1 : IsFlow (pos 5) (pos 1)
IsFlow-5_1 = omega arith

under_way-Inv : Inv (pos 5) (pos 1) under_way
under_way-Inv = record {
  waiting = λ h. ground (arith, h);
  above_final = λ h. omega arith;
  below_tier = λ h. omega arith;
  below_start = omega arith;
}

descend_to_wave_tier-arrival_example :
    ((descend_to_wave_tier under_way tiered (pos 1)).0.tier ≤ℤ target_of (pos 1) (pos 2))
    × (target_of (pos 1) (pos 2) ≤ℤ (descend_to_wave_tier under_way tiered (pos 1)).0.tier)
descend_to_wave_tier-arrival_example =
    descend_to_wave_tier-arrival (pos 5) (pos 1) (pos 2) under_way tiered IsFlow-5_1 under_way-Inv
      refl refl (λ h. omega arith)
