-- ===== src/Planner/Clearance.antt =====
-- internal/planner/nodes.go: the edges that order the work on a node before its power-off.
pub mod Releasers
pub mod Ordered
use nut_operator.Prelude.{List, [], ◌∷◌, ◌++◌, if◌then◌else◌}
use nut_operator.Text.{Text, text_eq}
use nut_operator.Text.Sorting.{sort_by}
use nut_operator.Text.{text_lt}
use nut_operator.Text.Maps.{contains, insert}
use nut_operator.Diagnostics.{text}
use nut_operator.Planner.Types.{Group, GroupNodeMembership, GraphEdge, node_clearance, derived}
use nut_operator.Planner.Graph.{graph_edge_id}
use nut_operator.Planner.Graph.Dedupe.{ids}
use nut_operator.Planner.Schedule.{SuccessorMap, successors_of, sort_successors, names}

-- `releasersByNode`: the groups that power a node off, as a map from nodes to groups.
unfoldable pub add_releases : Text → SuccessorMap → List Text → SuccessorMap
add_releases group m [] = m
add_releases group m (n ∷ ns) = add_releases group (insert n (successors_of m n ++ group ∷ []) m) ns

unfoldable pub collect_releasers :
    List Group → SuccessorMap → List GroupNodeMembership → SuccessorMap
unfolding add_releases
collect_releasers gs m [] = m
collect_releasers gs m (e ∷ es) =
    collect_releasers gs
      (if contains (names gs) e.group then add_releases e.group m e.releases else m) es

unfoldable pub releasers_by_node : List Group → List GroupNodeMembership → SuccessorMap
unfolding collect_releasers sort_successors
releasers_by_node gs es = sort_successors (collect_releasers gs [] es)

abbrev pub clearance_edge : Text → Text → Text → GraphEdge
clearance_edge group node releaser = record {
  id = graph_edge_id group releaser node_clearance;
  source = group;
  target = releaser;
  relation = node_clearance;
  provenance = derived;
  explanation = text group ∷ text releaser ∷ text node ∷ text group ∷ [];
}

-- One pair of groups. The IDs seen are those of the edges so far.
abbrev pub add_clearance : Text → Text → Text → List GraphEdge → List GraphEdge
add_clearance group node releaser edges =
    if text_eq releaser group
    then edges
    else if contains (ids edges) (graph_edge_id group releaser node_clearance)
    then edges
    else edges ++ clearance_edge group node releaser ∷ []

unfoldable pub clear_releasers : Text → Text → List GraphEdge → List Text → List GraphEdge
unfolding contains
clear_releasers group node edges [] = edges
clear_releasers group node edges (r ∷ rs) =
    clear_releasers group node (add_clearance group node r edges) rs

unfoldable pub clear_nodes : SuccessorMap → Text → List GraphEdge → List Text → List GraphEdge
unfolding clear_releasers
clear_nodes releasers group edges [] = edges
clear_nodes releasers group edges (n ∷ ns) =
    clear_nodes releasers group (clear_releasers group n edges (successors_of releasers n)) ns

unfoldable pub clear_groups :
    List Group → SuccessorMap → List GraphEdge → List GroupNodeMembership → List GraphEdge
unfolding clear_nodes
clear_groups gs releasers edges [] = edges
clear_groups gs releasers edges (e ∷ es) =
    clear_groups gs releasers
      (if contains (names gs) e.group then clear_nodes releasers e.group edges e.acts else edges) es

-- The early returns give no edges, as the loops do there.
unfoldable pub collect_node_clearance_graph_edges :
    List Group → List GroupNodeMembership → List GraphEdge
unfolding clear_groups releasers_by_node sort_by
collect_node_clearance_graph_edges gs es =
    sort_by (λ (d e : GraphEdge). text_lt d.id e.id)
      (clear_groups gs (releasers_by_node gs es) [] es)
