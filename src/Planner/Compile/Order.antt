-- ===== src/Planner/Compile/Order.antt =====
-- internal/planner: the order that an accepted flow's schedule keeps (compiler_scheduling.go,
-- artifacts.go, nodes.go), where no two groups have one name in edge IDs.
use nut_operator.Prelude.{
  true, false, ◌<◌, ◌≡◌, List, [], ◌++◌, map, arith, Option, some, sym, ◌∙◌, All, All-split,
  All-of_mem, mem-of_All, is_empty,
}
use mathlib.Core.List.{Memᴰ}
use mathlib.Core.List.Memᴰ
use nut_operator.Prelude.Int.{ℤ}
use nut_operator.Text.Maps.{are_distinct}
use nut_operator.Text.{Text, text_eq}
use nut_operator.Text.Sorting.{sorted-All}
use nut_operator.Diagnostics.{Diagnostic, has_error}
use nut_operator.Planner.Types.{
  GroupNodeMembership, GraphEdge, Relation, node_clearance, StructuralInputs, Plan,
}
use nut_operator.Planner.Graph.{
  edge_lt, safe_graph_id, graph_edge_id, declared_edges, collect_shutdown_tier_graph_edges,
  collect_group_graph_edges, dedupe_graph_edges, sort_graph,
}
use nut_operator.Planner.Graph.Dedupe.{ids, dedupe_one_per_id}
use nut_operator.Planner.Graph.Declared.{mem_of_id, id_of_mem}
use nut_operator.Planner.Graph.Ids.{edge_id_ends, distinct_map_eq}
use nut_operator.Planner.Schedule.{names}
use nut_operator.Planner.Schedule.Counts.{occurrences}
use nut_operator.Planner.Schedule.Waves.{wave_names}
use nut_operator.Planner.Schedule.Order.{Precedes, contains-of_occurs, compiled_waves_ordered}
use nut_operator.Planner.Clearance.{collect_node_clearance_graph_edges}
use nut_operator.Planner.Clearance.Ordered.{clearance-All, clearance_there}
use nut_operator.Planner.Compile.{
  plan_of, build_group_graph_for_inputs, validate_structural_inputs, compile_schedule,
}
use nut_operator.Planner.Compile.Known.{
  IsKnown, IsWithin, IsSound, declared-IsSound, collected-IsSound, own_names,
}
use nut_operator.Planner.Compile.Accepted.{accepted-graph, accepted-schedule}

-- Among sound edges that the waves keep, an edge ID of two groups stands for their order.
ordered_by_id :
    (ks : List Text) (ws : List (List Text)) (es : List GraphEdge) (a b : Text) (r : Relation)
    → are_distinct (map safe_graph_id ks) ≡ true
    → IsKnown ks a
    → IsKnown ks b
    → All (IsSound ks) es
    → All (λ (e : GraphEdge). Precedes e.source e.target ws) es
    → 0 < occurrences (graph_edge_id a b r) (ids es)
    → Precedes a b ws
ordered_by_id ks ws es a b r distinct ka kb sound kept h =
    let (d, (m, same)) = mem_of_id es (graph_edge_id a b r) h in
    let ((ks_source, ks_target), own) = mem-of_All (IsSound ks) d es sound m in
    let (from, to) = edge_id_ends d.source d.target a b d.relation r (sym own ∙ same) in
    rw
      (
        sym (distinct_map_eq safe_graph_id ks d.source a distinct ks_source ka from),
        sym (distinct_map_eq safe_graph_id ks d.target b distinct ks_target kb to),
      )
      (mem-of_All (λ (e : GraphEdge). Precedes e.source e.target ws) d es kept m)

deduped_there :
    (es : List GraphEdge) (e : GraphEdge)
    → Memᴰ e es
    → 0 < occurrences e.id (ids (dedupe_graph_edges es))
deduped_there es e m =
    ground
      (arith, (dedupe_one_per_id es).0 e.id, contains-of_occurs (ids es) e.id, id_of_mem e es m)

module _ (parse : Text → Option ℤ) (communication linear_communication : List GraphEdge)
    (capability_findings inversion_findings : List Diagnostic) (input : StructuralInputs)
    (grouped : is_empty input.groups ≡ false)
    (within : All (IsWithin (names input.groups)) communication)
    (accepted : has_error
        (validate_structural_inputs communication capability_findings inversion_findings input)
      ≡ false)
    (distinct : are_distinct (map safe_graph_id (names input.groups)) ≡ true) where
  -- The collected edges and the clearance edges are kept by the waves.
  edges_kept :
      (ws : List (List Text))
      → All
          (λ (e : GraphEdge). Precedes e.source e.target ws)
          (build_group_graph_for_inputs communication input).edges
      → All
          (λ (e : GraphEdge). Precedes e.source e.target ws)
          (collect_group_graph_edges input.groups input.tier_policy)
        × All
            (λ (e : GraphEdge). Precedes e.source e.target ws)
            (collect_node_clearance_graph_edges input.groups input.group_nodes)
  unfolding build_group_graph_for_inputs sort_graph
  edges_kept ws h =
      let P : GraphEdge → Type 0 = λ e. Precedes e.source e.target ws in
      All-split P _ _ (All-split P _ communication (sorted-All edge_lt P _ h)).0

  -- The schedule and what its waves keep.
  schedule_keeps :
      (plan : Plan) × (compile_schedule parse communication linear_communication input
        ≡ some (plan, []))
      × All
          (λ (e : GraphEdge). Precedes e.source e.target (wave_names plan.waves))
          (collect_group_graph_edges input.groups input.tier_policy)
      × All
          (λ (e : GraphEdge). Precedes e.source e.target (wave_names plan.waves))
          (collect_node_clearance_graph_edges input.groups input.group_nodes)
  schedule_keeps =
      let graph = build_group_graph_for_inputs communication input in
      let (_, i, _) =
        accepted-graph communication input within capability_findings inversion_findings accepted in
      let (p, compiled, scheduled) =
        accepted-schedule communication input within capability_findings inversion_findings accepted
          parse linear_communication grouped in
      let (collected, clearance) =
        edges_kept (wave_names p.waves)
          (compiled_waves_ordered parse input.groups graph p i compiled).1 in
      (plan_of graph p, scheduled, collected, clearance)

  -- A flow with groups whose validation finds no error, whose communication edges lead between its
  -- groups, and whose groups' names differ in more than the signs that edge IDs drop, has a
  -- schedule without a diagnostic in which each declared dependency leads from a group to one of a
  -- later wave.
  pub dependencies_kept :
      (plan : Plan) × (compile_schedule parse communication linear_communication input
        ≡ some (plan, []))
      × All
          (λ (e : GraphEdge). Precedes e.source e.target (wave_names plan.waves))
          (declared_edges input.groups)
  unfolding collect_group_graph_edges
  dependencies_kept =
      let (plan, scheduled, collected, _) = schedule_keeps in
      let (depends, _, _) =
        accepted-graph communication input within capability_findings inversion_findings accepted in
      let ks = names input.groups in
      let given =
        declared_edges input.groups
        ++ collect_shutdown_tier_graph_edges input.groups input.tier_policy in
      let declared = declared-IsSound ks input.groups (own_names input.groups) depends in
      (
        plan,
        scheduled,
        All-of_mem _ (declared_edges input.groups) (λ e m.
            let ((from, to), own) = mem-of_All (IsSound ks) e _ declared m in
            ordered_by_id ks _ (dedupe_graph_edges given) e.source e.target e.relation distinct from
              to
              (collected-IsSound ks input.groups input.tier_policy (own_names input.groups) depends)
              collected
              (rw own at (
                deduped_there given e (
                  Memᴰ.append_left
                    (collect_shutdown_tier_graph_edges input.groups input.tier_policy) m)))),
      )

  -- A flow with groups whose validation finds no error, whose communication edges lead between its
  -- groups, and whose groups' names differ in more than the signs that edge IDs drop, has a
  -- schedule without a diagnostic in which a group that acts on a node stands in an earlier wave
  -- than another group that powers the node off.
  pub release_waits :
      (a r : GroupNodeMembership) (node : Text)
      → Memᴰ a input.group_nodes
      → Memᴰ r input.group_nodes
      → IsKnown (names input.groups) a.group
      → IsKnown (names input.groups) r.group
      → Memᴰ node a.acts
      → Memᴰ node r.releases
      → text_eq r.group a.group ≡ false
      → (plan : Plan) × (compile_schedule parse communication linear_communication input
          ≡ some (plan, []))
        × Precedes a.group r.group (wave_names plan.waves)
  release_waits a r node ha hr ka kr acts releases differ =
      let (plan, scheduled, _, clearance) = schedule_keeps in
      (
        plan,
        scheduled,
        ordered_by_id (names input.groups) _ _ a.group r.group node_clearance distinct ka kr
            (clearance-All input.groups input.group_nodes) clearance
            (clearance_there input.groups input.group_nodes a r node ha hr ka kr acts releases
              differ),
      )
