-- ===== src/Planner/Graph.antt =====
-- internal/planner/artifacts.go: the edges of the group graph and the graph of a linear flow, and
-- the shutdown tiers' edges of tiers.go. An edge's list of source references is left out.
pub mod Startup
pub mod Dedupe
pub mod Declared
pub mod Ids
use nut_operator.Prelude.{
  ℕ, zero, suc, Bool, true, false, not, ◌&&◌, ◌||◌, List, [], ◌∷◌, ◌++◌, map, Option, none, some,
  if◌then◌else◌, is_empty, leb,
}
use nut_operator.Prelude.Int.{ℤ, pos, ltb_ℤ, eq_ℤ, ◌+ℤ◌}
use nut_operator.Prelude.Words.{wrap32, wrap64}
use nut_operator.Text.{Text, codes, text_eq, text_lt, lower}
use nut_operator.Text.Sorting.{sort_by, sort_texts}
use nut_operator.Text.Maps.{lookup, insert}
use nut_operator.Diagnostics.{Argument, text, number}
use nut_operator.Planner.Types.{
  Group, Step, TierPolicy, Relation, requires, before, after, linear_order, shutdown_tier,
  node_clearance, communication_path, declared, derived, policy, GraphVertex, step_vertex,
  GraphEdge, Graph, Wave,
}
use nut_operator.Planner.Durations.{summarize_target}
use nut_operator.Planner.Tiers.{TierMap, effective_shutdown_tiers}

-- The text of a relation.
abbrev pub relation_text : Relation → Text
relation_text requires = codes "Requires"
relation_text before = codes "Before"
relation_text after = codes "After"
relation_text linear_order = codes "LinearOrder"
relation_text shutdown_tier = codes "ShutdownTier"
relation_text node_clearance = codes "NodeClearance"
relation_text communication_path = codes "CommunicationPath"

abbrev pub is_id_char : ℕ → Bool
is_id_char c = leb 97 c && leb c 122 || leb 65 c && leb c 90 || leb 48 c && leb c 57

unfoldable pub safe_graph_id : Text → Text
safe_graph_id [] = codes "node"
safe_graph_id (c ∷ cs) = map (λ d. if is_id_char d then d else 95) (c ∷ cs)

unfoldable pub graph_edge_id : Text → Text → Relation → Text
unfolding safe_graph_id lower
graph_edge_id source target relation =
    safe_graph_id source
    ++ codes "-"
    ++ map lower (relation_text relation)
    ++ codes "-"
    ++ safe_graph_id target

abbrev edge : Text → Text → Relation → List Argument → GraphEdge
edge source target relation explanation = record {
  id = graph_edge_id source target relation;
  source = source;
  target = target;
  relation = relation;
  provenance = declared;
  explanation = explanation;
}

abbrev pub requires_edge : Text → Text → GraphEdge
requires_edge name dependency =
    edge name dependency requires (text name ∷ text dependency ∷ text name ∷ text dependency ∷ [])

abbrev pub before_edge : Text → Text → GraphEdge
before_edge name dependency =
    edge name dependency before (text name ∷ text dependency ∷ text name ∷ text dependency ∷ [])

abbrev pub after_edge : Text → Text → GraphEdge
after_edge name dependency =
    edge dependency name after (text dependency ∷ text name ∷ text name ∷ text dependency ∷ [])

unfoldable pub declared_edges : List Group → List GraphEdge
declared_edges [] = []
declared_edges (g ∷ gs) =
    map (requires_edge g.name) g.requires
    ++ map (before_edge g.name) g.before
    ++ map (after_edge g.name) g.after
    ++ declared_edges gs

-- The order of the edges: by source, then by target, then by relation.
abbrev pub edge_lt : GraphEdge → GraphEdge → Bool
edge_lt d e =
    if not (text_eq d.source e.source)
    then text_lt d.source e.source
    else if not (text_eq d.target e.target)
    then text_lt d.target e.target
    else text_lt (relation_text d.relation) (relation_text e.relation)

-- One edge for each ID, the last one.
unfoldable pub edges_by_id : List (Text × GraphEdge) → List GraphEdge → List (Text × GraphEdge)
edges_by_id m [] = m
edges_by_id m (e ∷ es) = edges_by_id (insert e.id e m) es

unfoldable pub dedupe_graph_edges : List GraphEdge → List GraphEdge
unfolding edges_by_id sort_by
dedupe_graph_edges es = sort_by edge_lt (map (λ (x : Text × GraphEdge). x.1) (edges_by_id [] es))

-- The groups of one tier, in the order of their names.
unfoldable pub groups_at : ℤ → TierMap → List Group → List Text
groups_at t tiers [] = []
groups_at t tiers (g ∷ gs) =
    let rest = groups_at t tiers gs in
    elim (lookup g.name tiers) [ none ↦ rest | some u ↦ if eq_ℤ u t then g.name ∷ rest else rest ]

abbrev pub has_tier : ℤ → List ℤ → Bool
has_tier t [] = false
has_tier t (u ∷ us) = eq_ℤ u t || has_tier t us

unfoldable pub occupied_tiers : TierMap → List Group → List ℤ
occupied_tiers tiers [] = []
occupied_tiers tiers (g ∷ gs) =
    let rest = occupied_tiers tiers gs in
    elim (lookup g.name tiers) [ none ↦ rest | some t ↦ if has_tier t rest then rest else t ∷ rest ]

abbrev pub tier_edge : ℤ → ℤ → Text → Text → GraphEdge
tier_edge higher lower_tier source target = record {
  id = graph_edge_id source target shutdown_tier;
  source = source;
  target = target;
  relation = shutdown_tier;
  provenance = derived;
  explanation = text source ∷ text target ∷ number higher ∷ number lower_tier ∷ [];
}

abbrev pub edges_from : ℤ → ℤ → List Text → List Text → List GraphEdge
edges_from higher lower_tier [] targets = []
edges_from higher lower_tier (s ∷ ss) targets =
    map (tier_edge higher lower_tier s) targets ++ edges_from higher lower_tier ss targets

-- From each tier to the next lower one.
unfoldable pub tier_edges : TierMap → List Group → List ℤ → List GraphEdge
unfolding groups_at
tier_edges tiers gs [] = []
tier_edges tiers gs (t ∷ []) = []
tier_edges tiers gs (t ∷ u ∷ ts) =
    edges_from t u (sort_texts (groups_at t tiers gs)) (sort_texts (groups_at u tiers gs))
    ++ tier_edges tiers gs (u ∷ ts)

unfoldable pub collect_shutdown_tier_graph_edges : List Group → TierPolicy → List GraphEdge
unfolding tier_edges occupied_tiers
collect_shutdown_tier_graph_edges gs p =
    let tiers = effective_shutdown_tiers gs p in
    tier_edges tiers gs (sort_by (λ t u. ltb_ℤ u t) (occupied_tiers tiers gs))

unfoldable pub collect_group_graph_edges : List Group → TierPolicy → List GraphEdge
unfolding declared_edges dedupe_graph_edges
collect_group_graph_edges gs p =
    dedupe_graph_edges (declared_edges gs ++ collect_shutdown_tier_graph_edges gs p)

unfoldable pub sort_graph : Graph → Graph
unfolding sort_by
sort_graph g = record {
  vertices = sort_by (λ (v w : GraphVertex). text_lt v.id w.id) g.vertices;
  edges = sort_by edge_lt g.edges;
}

abbrev step_vertex_of : Step → GraphVertex
step_vertex_of s = record {
  id = s.id;
  kind = step_vertex;
  label = s.id;
  action = s.action;
  shutdown_tier = none;
  target_summary = summarize_target s.target;
}

abbrev order_edge : Step → Step → GraphEdge
order_edge previous s = record {
  id = graph_edge_id previous.id s.id linear_order;
  source = previous.id;
  target = s.id;
  relation = linear_order;
  provenance = policy;
  explanation = text previous.id ∷ text s.id ∷ [];
}

unfoldable pub step_edges : List Step → List GraphEdge
step_edges [] = []
step_edges (s ∷ []) = []
step_edges (s ∷ t ∷ ss) = order_edge s t ∷ step_edges (t ∷ ss)

unfoldable pub build_step_graph : List Step → Graph
unfolding step_edges sort_graph
build_step_graph ss =
    sort_graph (record { vertices = map step_vertex_of ss; edges = step_edges ss })

-- The startup waves from the last shutdown wave to the first.
unfoldable pub startup_from : ℕ → ℤ → List Wave → List Wave
startup_from index cumulative [] = []
startup_from index cumulative (w ∷ ws) =
    let end = wrap64 (cumulative +ℤ w.duration) in
    record {
      index = wrap32 (pos index);
      shutdown_tier = w.shutdown_tier;
      groups = sort_texts w.groups;
      duration = w.duration;
      cumulative_duration = end;
    }
    ∷ startup_from (suc index) end ws

abbrev pub backwards : List Wave → List Wave
backwards [] = []
backwards (w ∷ ws) = backwards ws ++ w ∷ []

unfoldable pub advisory_startup_waves : List Wave → List Wave
unfolding startup_from
advisory_startup_waves ws = startup_from 0 (pos 0) (backwards ws)
