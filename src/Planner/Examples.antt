-- ===== src/Planner/Examples.antt =====
-- The planner's theorems at a flow of three groups, and at a flow of two groups that wait for each
-- other.
use nut_operator.Prelude.{
  ℕ, ◌<◌, true, false, ◌≡◌, ◌↔◌, refl, List, [], ◌∷◌, ◌++◌, Option, none, some, if◌then◌else◌, All,
  arith,
}
use nut_operator.Prelude.Int.{ℤ, pos, ◌+ℤ◌}
use nut_operator.Prelude.Words.{wrap32, wrap64}
use nut_operator.Text.{Text, codes, text_eq, text_lt, decimal, lower}
use nut_operator.Text.Sorting.{insert_sorted, sort_by, sort_texts}
use nut_operator.Text.Maps.{contains, lookup, insert}
use nut_operator.Planner.Types.{
  Group, Graph, GraphVertex, GraphEdge, Wave, CompiledStep, group_vertex, zero_target, TierPolicy,
}
use nut_operator.Planner.Durations.{
  wait_duration_from_params, bounded_wait_duration, declared_group_duration, summarize_target,
}
use nut_operator.Planner.Tiers.{
  effective_default_shutdown_tier, effective_shutdown_tiers, max_definition, max_group, assign_all,
  tier_of, shared_shutdown_tier, graph_shutdown_tiers,
}
use nut_operator.Planner.Graph.{
  requires_edge, safe_graph_id, graph_edge_id, edges_by_id, dedupe_graph_edges,
  advisory_startup_waves, declared_edges, groups_at, occupied_tiers, tier_edges,
  collect_shutdown_tier_graph_edges, collect_group_graph_edges,
}
use nut_operator.Planner.Graph.Startup.{startup_reverses}
use nut_operator.Planner.Graph.Dedupe.{ids, dedupe_one_per_id}
use nut_operator.Planner.Cycles.{walk_groups, has_group_cycle}
use nut_operator.Planner.Cycles.Ends.{IsFueled}
use nut_operator.Planner.Cycles.Equivalence.{walk_groups-IsFueled, no_cycle_iff}
use mathlib.Core.List.{Memᴰ}
use nut_operator.Planner.Schedule.{
  names, keys, Progress, stalled, done, compile_groups, wave_duration, wave_steps, next_index,
  add_wave, descend_waves, initial_indegrees, vertex_keys, append_edges, sort_successors,
  graph_successors, bump, bump_all, count_edges, zero_indegrees, index_groups, delete, ready,
  take_out, wave_groups,
}
use nut_operator.Planner.Schedule.Counts.{occurrences}
use nut_operator.Planner.Schedule.Waves.{wave_names}
use nut_operator.Planner.Schedule.Order.{IsGroupGraph, flatten, Precedes, compiled_waves_ordered}
use nut_operator.Planner.Schedule.Total.{edges_between, acyclic_groups_compile, stalled_groups_wait}

-- A parser of the one duration that the flow has, 30 s.
abbrev parse : Text → Option ℤ
parse t = if text_eq t (codes "30s") then some (pos 30000000000) else none

abbrev group : Text → Text → ℤ → Option ℤ → List Text → List (Text × Text) → Group
group name action timeout tier needs params = record {
  name = name;
  action = action;
  target = zero_target;
  requires = needs;
  before = [];
  after = [];
  shutdown_tier = tier;
  timeout = timeout;
  params = params;
}

abbrev web : Text
web = codes "web"

abbrev db : Text
db = codes "db"

abbrev pause : Text
pause = codes "pause"

abbrev flow : List Group
flow =
    group db (codes "ScaleWorkload") (pos 60000000000) (some (pos 2)) [] []
    ∷ group web (codes "ScaleWorkload") (pos 20000000000) (some (pos 2)) (db ∷ []) []
    ∷ group pause (codes "Wait") (pos 25000000000) none (db ∷ [])
        ((codes "duration", codes "30s") ∷ [])
    ∷ []

abbrev vertex : Text → Option ℤ → GraphVertex
vertex name tier = record {
  id = name;
  kind = group_vertex;
  label = name;
  action = [];
  shutdown_tier = tier;
  target_summary = [];
}

abbrev graph : Graph
graph = record {
  vertices = vertex db (some (pos 2)) ∷ vertex pause none ∷ vertex web (some (pos 2)) ∷ [];
  edges = requires_edge pause db ∷ requires_edge web db ∷ [];
}

-- The database goes after the web servers and the pause.
abbrev wave_list : List Wave
wave_list =
    record {
      index = pos 0;
      shutdown_tier = none;
      groups = pause ∷ web ∷ [];
      duration = pos 25000000000;
      cumulative_duration = pos 25000000000;
    }
    ∷ record {
      index = pos 1;
      shutdown_tier = some (pos 2);
      groups = db ∷ [];
      duration = pos 60000000000;
      cumulative_duration = pos 85000000000;
    }
    ∷ []

abbrev compiled : Text → Text → ℤ → Option ℤ → ℤ → CompiledStep
compiled name action index tier end = record {
  id = name;
  index = index;
  action = action;
  shutdown_tier = tier;
  target_summary = codes "no explicit target";
  cumulative_duration = end;
}

abbrev plan : Progress
plan = record {
  steps =
      compiled pause (codes "Wait") (pos 0) none (pos 25000000000)
      ∷ compiled web (codes "ScaleWorkload") (pos 1) (some (pos 2)) (pos 25000000000)
      ∷ compiled db (codes "ScaleWorkload") (pos 2) (some (pos 2)) (pos 85000000000)
      ∷ [];
  waves = wave_list;
  cumulative = pos 85000000000;
  step_index = pos 3;
  wave_index = pos 2;
}

program : Unit {0}
unfolding text_eq text_lt insert_sorted sort_by sort_texts contains lookup insert decimal
    wait_duration_from_params bounded_wait_duration declared_group_duration summarize_target tier_of
    shared_shutdown_tier graph_shutdown_tiers wave_duration wave_steps next_index add_wave
    descend_waves initial_indegrees vertex_keys append_edges sort_successors graph_successors bump
    bump_all count_edges zero_indegrees index_groups delete keys ready take_out wave_groups
    compile_groups wrap32 wrap64 ◌+ℤ◌ safe_graph_id graph_edge_id lower edges_by_id
    dedupe_graph_edges
program = tt

plan_compiled : compile_groups parse flow graph ≡ done plan
unfolding program
plan_compiled = refl

flow-IsGroupGraph : IsGroupGraph flow graph
unfolding program
flow-IsGroupGraph = record {
  distinct = refl;
  vertices = (refl, (refl, (refl, tt)));
  edges = ((refl, refl), ((refl, refl), tt));
}

compiled_waves_ordered_example :
    ((n : Text) → occurrences n (flatten (wave_names plan.waves)) ≡ occurrences n (names flow))
    × All (λ (e : GraphEdge). Precedes e.source e.target (wave_names plan.waves)) graph.edges
compiled_waves_ordered_example =
    compiled_waves_ordered parse flow graph plan flow-IsGroupGraph plan_compiled

-- The database is above the others.
abbrev rank : Text → ℕ
rank t = if text_eq t db then 1 else 0

rank_rises : All (λ (e : GraphEdge). rank e.source < rank e.target) graph.edges
unfolding program
rank_rises = (omega arith, (omega arith, tt))

acyclic_groups_compile_example : (p : Progress) × (compile_groups parse flow graph ≡ done p)
acyclic_groups_compile_example =
    acyclic_groups_compile parse flow graph rank flow-IsGroupGraph rank_rises

-- Two groups that wait for each other.
abbrev pair : List Group
pair =
    group web (codes "ScaleWorkload") (pos 0) none (db ∷ []) []
    ∷ group db (codes "ScaleWorkload") (pos 0) none (web ∷ []) []
    ∷ []

abbrev cycle : Graph
cycle = record {
  vertices = vertex db none ∷ vertex web none ∷ [];
  edges = requires_edge db web ∷ requires_edge web db ∷ [];
}

pair_stalls : compile_groups parse pair cycle ≡ stalled (db ∷ web ∷ [])
unfolding program
pair_stalls = refl

pair-IsGroupGraph : IsGroupGraph pair cycle
unfolding program
pair-IsGroupGraph = record {
  distinct = refl;
  vertices = (refl, (refl, tt));
  edges = ((refl, refl), ((refl, refl), tt));
}

stalled_groups_wait_example :
    ((n : Text) × (0 < occurrences n (db ∷ web ∷ [])))
    × ((n : Text)
        → 0 < occurrences n (db ∷ web ∷ [])
        → (k : Text) × (0 < occurrences k (db ∷ web ∷ [])) × (0 < edges_between k n cycle.edges))
stalled_groups_wait_example =
    stalled_groups_wait parse pair cycle (db ∷ web ∷ []) pair-IsGroupGraph pair_stalls

startup_reverses_example :
    ((n : Text)
      → occurrences n (flatten (wave_names (advisory_startup_waves wave_list)))
        ≡ occurrences n (flatten (wave_names wave_list)))
    × ((a b : Text)
        → Precedes a b (wave_names wave_list)
        → Precedes b a (wave_names (advisory_startup_waves wave_list)))
startup_reverses_example = startup_reverses wave_list

-- Two dependencies whose names differ only in a sign have one edge ID, and one of them is dropped.
merged :
    dedupe_graph_edges (requires_edge web (codes "a-b") ∷ requires_edge web (codes "a.b") ∷ [])
    ≡ requires_edge web (codes "a.b") ∷ []
unfolding program
merged = refl

abbrev twin_edges : List GraphEdge
twin_edges = requires_edge web (codes "a-b") ∷ requires_edge web (codes "a.b") ∷ []

dedupe_one_per_id_example :
    ((n : Text)
      → occurrences n (ids (dedupe_graph_edges twin_edges))
        ≡ (if contains (ids twin_edges) n then 1 else 0))
    × All (λ (e : GraphEdge). Memᴰ e twin_edges) (dedupe_graph_edges twin_edges)
dedupe_one_per_id_example = dedupe_one_per_id twin_edges

abbrev no_policy : TierPolicy
no_policy = record { default_tier = none; definitions = []; selector_rules = [] }

collected : Unit {0}
unfolding program max_definition max_group effective_default_shutdown_tier assign_all
    effective_shutdown_tiers declared_edges groups_at occupied_tiers tier_edges
    collect_shutdown_tier_graph_edges collect_group_graph_edges
collected = tt

graph-collected : graph.edges ≡ collect_group_graph_edges flow no_policy
unfolding collected
graph-collected = refl

web_declared : Memᴰ (requires_edge web db) (declared_edges flow)
unfolding collected
web_declared = Memᴰ.head refl

web_once :
    occurrences
      (requires_edge web db).id
      (ids (declared_edges flow ++ collect_shutdown_tier_graph_edges flow no_policy))
    ≡ 1
unfolding collected
web_once = refl

no_cycle_iff_example :
    (has_group_cycle flow graph ≡ false)
    ↔ ((p : Progress) × (compile_groups parse flow graph ≡ done p))
no_cycle_iff_example = no_cycle_iff flow graph flow-IsGroupGraph parse

walk_groups-IsFueled_example : IsFueled (walk_groups pair cycle)
walk_groups-IsFueled_example = walk_groups-IsFueled pair cycle

pair_is_cyclic : has_group_cycle pair cycle ≡ true
unfolding has_group_cycle vertex_keys append_edges sort_successors lookup insert text_eq sort_texts
pair_is_cyclic = refl

flow_is_not : has_group_cycle flow graph ≡ false
unfolding has_group_cycle vertex_keys append_edges sort_successors lookup insert text_eq sort_texts
flow_is_not = refl
