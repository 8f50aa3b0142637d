-- ===== src/Planner/Compile.antt =====
-- internal/planner: the group graph of a flow (artifacts.go), the validation of its inputs
-- (compiler_validation.go, tiers.go, nodes.go) and its schedule (compiler_scheduling.go).
-- What validateTriggerCapabilities and validateTierInversion find and the edges of communication.go
-- are arguments.
pub mod Validation
pub mod Known
pub mod Accepted
pub mod Order
mod Examples
use nut_operator.Prelude.{
  Bool, true, false, not, ◌&&◌, List, [], ◌∷◌, ◌++◌, Option, none, some, if◌then◌else◌, is_empty,
  map,
}
use nut_operator.Prelude.Int.{ℤ, pos}
use nut_operator.Text.{Text, codes, text_eq}
use nut_operator.Diagnostics.{Diagnostic, error, warning}
use nut_operator.Planner.Types.{
  Group, GroupNodeMembership, GraphVertex, group_vertex, GraphEdge, Graph, StructuralInputs,
  TierPolicy, Plan,
}
use nut_operator.Planner.Durations.{compile_steps, summarize_target}
use nut_operator.Planner.Tiers.{
  TierMap, tier_of, effective_shutdown_tiers, validate_group_shutdown_tiers,
}
use nut_operator.Planner.Graph.{
  collect_group_graph_edges, sort_graph, build_step_graph, advisory_startup_waves,
}
use nut_operator.Planner.Clearance.{collect_node_clearance_graph_edges}
use nut_operator.Planner.Schedule.{Progress, Descent, done, stalled, out_of_fuel, compile_groups}
use nut_operator.Planner.Cycles.{has_group_cycle}
use nut_operator.Planner.Compile.Validation.{
  finding, when, findings_of, validate_tier_policy, report_defaulted_shutdown_tiers, step_findings,
  group_name_findings, group_names, dependency_findings, not_schedulable,
}

abbrev pub group_vertex_of : TierMap → Group → GraphVertex
group_vertex_of tiers g = record {
  id = g.name;
  kind = group_vertex;
  label = g.name;
  action = g.action;
  shutdown_tier = tier_of g.name tiers;
  target_summary = summarize_target g.target;
}

module _ (communication : List GraphEdge) where
  unfoldable pub build_group_graph_for_inputs : StructuralInputs → Graph
  unfolding sort_graph
  build_group_graph_for_inputs input = sort_graph (record {
    vertices =
        map (group_vertex_of (effective_shutdown_tiers input.groups input.tier_policy))
          input.groups;
    edges =
        (collect_group_graph_edges input.groups input.tier_policy
          ++ collect_node_clearance_graph_edges input.groups input.group_nodes)
        ++ communication;
  })

  module _ (capability_findings inversion_findings : List Diagnostic) where
    -- What `validateStructuralInputs` finds, in its order.
    unfoldable pub findings_by_part : StructuralInputs → List (List Diagnostic)
    unfolding has_group_cycle build_group_graph_for_inputs
    findings_by_part input =
        when
          (not (is_empty input.abort_behavior)
            && not (text_eq input.abort_behavior (codes "HaltAndSurface")))
          (finding error "AbortBehaviorUnsupported" []
            "v1 supports only HaltAndSurface abort behavior" [])
        ∷ when input.abort_notify (
            finding error "AbortNotifyUnsupported" []
              "abort-only notifications are unsupported; set abortPolicy.notify to false" [])
        ∷ validate_tier_policy input.tier_policy
        ∷ capability_findings
        ∷ when (not input.has_triggers)
            (finding error "TriggersRequired" [] "at least one trigger definition is required" [])
        ∷ when (is_empty input.groups && is_empty input.steps) (
            finding error "PlanRequired" [] "groups or steps require at least one shutdown action"
              [])
        ∷ when (not (is_empty input.groups) && not (is_empty input.steps)) (
            finding warning "GroupsPreferred" [] "groups are present, so linear steps are ignored"
              [])
        ∷ step_findings [] [] input.steps
        ∷ group_name_findings [] [] input.groups
        ∷ validate_group_shutdown_tiers input.groups
        ∷ report_defaulted_shutdown_tiers input.groups input.tier_policy
        ∷ inversion_findings
        ∷ dependency_findings (group_names input.groups) input.groups
        ∷ when (has_group_cycle input.groups (build_group_graph_for_inputs input))
            (finding error "DependencyCycle" [] "shutdown groups contain a dependency cycle" [])
        ∷ []

    unfoldable pub validate_structural_inputs : StructuralInputs → List Diagnostic
    unfolding findings_of findings_by_part
    validate_structural_inputs input = findings_of (findings_by_part input)

-- A plan and what its compilation found.
abbrev pub Compiled : Type 0
Compiled = Plan × List Diagnostic

abbrev no_plan : Plan
no_plan = record {
  steps = [];
  waves = [];
  startup_waves = [];
  graph = record { vertices = []; edges = [] };
  estimated_duration = pos 0;
}

abbrev pub plan_of : Graph → Progress → Plan
plan_of graph p = record {
  steps = p.steps;
  waves = p.waves;
  startup_waves = advisory_startup_waves p.waves;
  graph = graph;
  estimated_duration = p.cumulative;
}

-- What compileSchedule makes of the descent; a descent out of fuel has no result.
abbrev pub scheduled : Graph → Descent → Option Compiled
scheduled graph out_of_fuel = none
scheduled graph (stalled ks) = some (no_plan, not_schedulable ks ∷ [])
scheduled graph (done p) = some (plan_of graph p, [])

-- The graph of a linear flow, with the edges of its communication paths.
abbrev linear_graph : List GraphEdge → StructuralInputs → Graph
linear_graph linear_communication input =
    let g = build_step_graph input.steps in
    sort_graph (record { vertices = g.vertices; edges = g.edges ++ linear_communication })

unfoldable pub compile_schedule :
    (Text → Option ℤ) → List GraphEdge → List GraphEdge → StructuralInputs → Option Compiled
unfolding build_group_graph_for_inputs compile_groups compile_steps build_step_graph sort_graph
compile_schedule parse communication linear_communication input =
    let graph = build_group_graph_for_inputs communication input in
    let (steps, total) = compile_steps input.steps in
    if not (is_empty input.groups)
    then scheduled graph (compile_groups parse input.groups graph)
    else some (
      record {
        steps = steps;
        waves = [];
        startup_waves = [];
        graph = linear_graph linear_communication input;
        estimated_duration = total;
      },
      [],
    )
