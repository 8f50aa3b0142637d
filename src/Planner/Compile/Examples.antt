-- ===== src/Planner/Compile/Examples.antt =====
-- The compiler's theorems at a flow that drains a node, powers it off and has no declared order
-- between the two.
use nut_operator.Prelude.{true, false, ◌≡◌, refl, List, [], ◌∷◌, map, Option, none, some, All}
use mathlib.Core.List.{Memᴰ}
use nut_operator.Prelude.Int.{ℤ, pos}
use nut_operator.Text.{Text, codes, text_eq, text_lt, decimal, lower}
use nut_operator.Text.Sorting.{insert_sorted, sort_by, sort_texts}
use nut_operator.Text.Maps.{are_distinct, contains, lookup, insert}
use nut_operator.Diagnostics.{has_error}
use nut_operator.Planner.Types.{
  Group, GroupNodeMembership, GraphEdge, StructuralInputs, Plan, zero_target, communication_path,
  derived,
}
use nut_operator.Planner.Tiers.{
  effective_default_shutdown_tier, effective_shutdown_tiers, max_definition, max_group, assign_all,
  tier_of, validate_group_shutdown_tiers,
}
use nut_operator.Planner.Durations.{summarize_target}
use nut_operator.Planner.Graph.{
  safe_graph_id, graph_edge_id, edges_by_id, dedupe_graph_edges, declared_edges, groups_at,
  occupied_tiers, tier_edges, collect_shutdown_tier_graph_edges, collect_group_graph_edges,
  sort_graph,
}
use nut_operator.Planner.Schedule.{
  names, vertex_keys, append_edges, sort_successors, graph_successors,
}
use nut_operator.Planner.Schedule.Counts.{occurrences}
use nut_operator.Planner.Schedule.Waves.{wave_names}
use nut_operator.Planner.Schedule.Order.{flatten, Precedes}
use nut_operator.Planner.Cycles.{visit_all, visit, walk_groups, has_group_cycle}
use nut_operator.Planner.Clearance.{
  clearance_edge, add_releases, collect_releasers, releasers_by_node, clear_releasers, clear_nodes,
  clear_groups, collect_node_clearance_graph_edges,
}
use nut_operator.Planner.Compile.{
  build_group_graph_for_inputs, findings_by_part, validate_structural_inputs, compile_schedule,
}
use nut_operator.Planner.Compile.Validation.{
  findings_of, definition_findings, rule_findings, validate_tier_policy, defaulted_findings,
  report_defaulted_shutdown_tiers, step_findings, group_name_findings, group_names,
  unknown_findings, dependency_findings,
}
use nut_operator.Planner.Compile.Accepted.{accepted_flow_scheduled}
use nut_operator.Planner.Compile.Order.{dependencies_kept, release_waits}

-- A parser that knows no duration.
abbrev parse : Text → Option ℤ
parse t = none

abbrev group : Text → List Text → Group
group name needs = record {
  name = name;
  action = codes "ScaleWorkload";
  target = zero_target;
  requires = needs;
  before = [];
  after = [];
  shutdown_tier = none;
  timeout = pos 5000000000;
  params = [];
}

abbrev web : Text
web = codes "web"

abbrev drain : Text
drain = codes "drain"

abbrev off : Text
off = codes "off"

abbrev rack : Text
rack = codes "rack"

abbrev draining : GroupNodeMembership
draining = record { group = drain; acts = rack ∷ []; releases = [] }

abbrev releasing : GroupNodeMembership
releasing = record { group = off; acts = []; releases = rack ∷ [] }

abbrev with_groups : List Group → StructuralInputs
with_groups gs = record {
  tier_policy = record { default_tier = none; definitions = []; selector_rules = [] };
  has_triggers = true;
  groups = gs;
  steps = [];
  abort_behavior = codes "HaltAndSurface";
  abort_notify = false;
  group_nodes = draining ∷ releasing ∷ [];
}

abbrev flow : StructuralInputs
flow = with_groups (group off [] ∷ group drain [] ∷ group web (drain ∷ []) ∷ [])

-- The web servers also use the node's communication path.
abbrev path : List GraphEdge
path =
    record {
      id = codes "web-communicationpath-off";
      source = web;
      target = off;
      relation = communication_path;
      provenance = derived;
      explanation = [];
    }
    ∷ []

program : Unit {0}
unfolding text_eq text_lt insert_sorted sort_by sort_texts contains lookup insert decimal lower
    has_error summarize_target tier_of effective_default_shutdown_tier effective_shutdown_tiers
    max_definition max_group assign_all validate_group_shutdown_tiers safe_graph_id graph_edge_id
    edges_by_id dedupe_graph_edges declared_edges groups_at occupied_tiers tier_edges
    collect_shutdown_tier_graph_edges collect_group_graph_edges sort_graph vertex_keys append_edges
    sort_successors graph_successors visit_all visit walk_groups has_group_cycle add_releases
    collect_releasers releasers_by_node clear_releasers clear_nodes clear_groups
    collect_node_clearance_graph_edges build_group_graph_for_inputs findings_by_part
    validate_structural_inputs findings_of definition_findings rule_findings validate_tier_policy
    defaulted_findings report_defaulted_shutdown_tiers step_findings group_name_findings group_names
    unknown_findings dependency_findings
program = tt

path_within :
    All
      (λ (e : GraphEdge).
        (contains (names flow.groups) e.source ≡ true)
        × (contains (names flow.groups) e.target ≡ true))
      path
unfolding program
path_within = ((refl, refl), tt)

flow_accepted : has_error (validate_structural_inputs path [] [] flow) ≡ false
unfolding program
flow_accepted = refl

-- A dependency that is missing, and a cycle of two groups, are errors.
missing :
    has_error (validate_structural_inputs [] [] [] (with_groups (group web (drain ∷ []) ∷ [])))
    ≡ true
unfolding program
missing = refl

waiting_for_power_off :
    has_error (
      validate_structural_inputs [] [] []
        (with_groups (group off (drain ∷ []) ∷ group drain [] ∷ [])))
    ≡ true
unfolding program
waiting_for_power_off = refl

accepted_flow_scheduled_example :
    (plan : Plan) × (compile_schedule parse path [] flow ≡ some (plan, []))
    × ((n : Text)
        → occurrences n (flatten (wave_names plan.waves)) ≡ occurrences n (names flow.groups))
    × All (λ (e : GraphEdge). Precedes e.source e.target (wave_names plan.waves)) plan.graph.edges
accepted_flow_scheduled_example =
    accepted_flow_scheduled parse path [] [] [] flow refl path_within flow_accepted

ids_distinct : are_distinct (map safe_graph_id (names flow.groups)) ≡ true
unfolding program
ids_distinct = refl

dependencies_kept_example :
    (plan : Plan) × (compile_schedule parse path [] flow ≡ some (plan, []))
    × All
        (λ (e : GraphEdge). Precedes e.source e.target (wave_names plan.waves))
        (declared_edges flow.groups)
dependencies_kept_example =
    dependencies_kept parse path [] [] [] flow refl path_within flow_accepted ids_distinct

off_known : contains (names flow.groups) off ≡ true
unfolding program
off_known = refl

drain_known : contains (names flow.groups) drain ≡ true
unfolding program
drain_known = refl

others : text_eq off drain ≡ false
unfolding program
others = refl

release_waits_example :
    (plan : Plan) × (compile_schedule parse path [] flow ≡ some (plan, []))
    × Precedes drain off (wave_names plan.waves)
release_waits_example =
    release_waits parse path [] [] [] flow refl path_within flow_accepted ids_distinct draining
      releasing rack (Memᴰ.head refl) (Memᴰ.tail (Memᴰ.head refl)) drain_known off_known
      (Memᴰ.head refl) (Memᴰ.head refl) others

-- Two groups that drain the node and whose names differ only in a sign: one edge is missing.
abbrev dotted : Text
dotted = codes "drain.a"

abbrev dashed : Text
dashed = codes "drain-a"

unordered_drain :
    collect_node_clearance_graph_edges (group dashed [] ∷ group dotted [] ∷ group off [] ∷ []) (
      record { group = dashed; acts = rack ∷ []; releases = [] }
      ∷ record { group = dotted; acts = rack ∷ []; releases = [] }
      ∷ releasing
      ∷ [])
    ≡ clearance_edge dashed rack off ∷ []
unfolding program
unordered_drain = refl
