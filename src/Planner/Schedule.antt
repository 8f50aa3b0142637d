-- ===== src/Planner/Schedule.antt =====
-- internal/planner/compiler_scheduling.go: the descent of the group graph into waves.
pub mod Counts
pub mod Maps
pub mod Removal
pub mod Waves
pub mod Rounds
pub mod Start
pub mod Edges
pub mod Order
pub mod Total
use nut_operator.Prelude.{
  ℕ, zero, suc, Bool, true, false, List, [], ◌∷◌, ◌++◌, map, Option, none, some, if◌then◌else◌,
  is_empty, length,
}
use nut_operator.Prelude.Int.{ℤ, pos, negsuc, ◌+ℤ◌, ltb_ℤ, eq_ℤ}
use nut_operator.Prelude.Words.{wrap32, wrap64}
use nut_operator.Text.{Text, text_eq, text_lt}
use nut_operator.Text.Sorting.{sort_by, sort_texts}
use nut_operator.Text.Maps.{lookup, insert}
use nut_operator.Planner.Types.{
  Group, zero_group, Graph, GraphVertex, GraphEdge, CompiledStep, Wave,
}
use nut_operator.Planner.Durations.{declared_group_duration, summarize_target}
use nut_operator.Planner.Tiers.{TierMap, tier_of, shared_shutdown_tier, graph_shutdown_tiers}

abbrev pub SuccessorMap : Type 0
SuccessorMap = List (Text × List Text)

abbrev pub Indegrees : Type 0
Indegrees = List (Text × ℤ)

-- A missing key reads as nil, 0 and the zero group.
abbrev pub texts_or_nil : Option (List Text) → List Text
texts_or_nil none = []
texts_or_nil (some ts) = ts

abbrev pub count_or_zero : Option ℤ → ℤ
count_or_zero none = pos 0
count_or_zero (some c) = c

abbrev pub group_or_zero : Option Group → Group
group_or_zero none = zero_group
group_or_zero (some g) = g

abbrev pub successors_of : SuccessorMap → Text → List Text
successors_of edges k = texts_or_nil (lookup k edges)

unfoldable pub vertex_keys : SuccessorMap → List GraphVertex → SuccessorMap
vertex_keys m [] = m
vertex_keys m (v ∷ vs) = vertex_keys (insert v.id [] m) vs

unfoldable pub append_edges : SuccessorMap → List GraphEdge → SuccessorMap
append_edges m [] = m
append_edges m (e ∷ es) =
    append_edges (insert e.source (successors_of m e.source ++ e.target ∷ []) m) es

unfoldable pub sort_successors : SuccessorMap → SuccessorMap
sort_successors [] = []
sort_successors ((k, ts) ∷ m) = (k, sort_texts ts) ∷ sort_successors m

unfoldable pub graph_successors : Graph → SuccessorMap
unfolding vertex_keys append_edges sort_successors
graph_successors g = sort_successors (append_edges (vertex_keys [] g.vertices) g.edges)

-- `indegree[k] += d`, and the loops of `++` and `--` over successors.
unfoldable pub bump : ℤ → Text → Indegrees → Indegrees
unfolding ◌+ℤ◌
bump d k m = insert k (count_or_zero (lookup k m) +ℤ d) m

unfoldable pub bump_all : ℤ → List Text → Indegrees → Indegrees
bump_all d [] m = m
bump_all d (k ∷ ks) m = bump_all d ks (bump d k m)

unfoldable pub count_edges : SuccessorMap → Indegrees → Indegrees
count_edges [] m = m
count_edges ((k, ts) ∷ es) m = count_edges es (bump_all (pos 1) ts m)

unfoldable pub zero_indegrees : List Group → Indegrees → Indegrees
zero_indegrees [] m = m
zero_indegrees (g ∷ gs) m = zero_indegrees gs (insert g.name (pos 0) m)

unfoldable pub index_groups : List Group → List (Text × Group) → List (Text × Group)
index_groups [] m = m
index_groups (g ∷ gs) m = index_groups gs (insert g.name g m)

-- `delete`.
module _ {ℓ} {V : Type ℓ} where
  unfoldable pub delete : Text → List (Text × V) → List (Text × V)
  delete k [] = []
  delete k ((j, v) ∷ m) = if text_eq j k then m else (j, v) ∷ delete k m

  unfoldable pub keys : List (Text × V) → List Text
  keys [] = []
  keys ((k, v) ∷ m) = k ∷ keys m

-- The names at indegree 0.
unfoldable pub ready : Indegrees → List Text
ready [] = []
ready ((k, c) ∷ m) = let rest = ready m in if eq_ℤ c (pos 0) then k ∷ rest else rest

-- The loop that takes a wave out of the graph.
unfoldable pub take_out : SuccessorMap → List Text → Indegrees → Indegrees
take_out edges [] m = m
take_out edges (k ∷ ks) m =
    take_out edges ks (bump_all (negsuc 0) (successors_of edges k) (delete k m))

abbrev pub name_lt : Group → Group → Bool
name_lt a b = text_lt a.name b.name

abbrev pub names : List Group → List Text
names gs = map (λ (g : Group). g.name) gs

-- The wave's groups, sorted by name.
unfoldable pub wave_groups : List (Text × Group) → Indegrees → List Group
wave_groups by_name m = sort_by name_lt (map (λ k. group_or_zero (lookup k by_name)) (ready m))

-- What the descent has compiled so far.
pub record Progress : Type 0 where
  pub steps : List CompiledStep
  pub waves : List Wave
  pub cumulative : ℤ
  pub step_index : ℤ
  pub wave_index : ℤ

abbrev pub no_progress : Progress
no_progress = record {
  steps = [];
  waves = [];
  cumulative = pos 0;
  step_index = pos 0;
  wave_index = pos 0;
}

-- The descent stalled on some groups, came to its end, or took more rounds than the fuel.
pub data Descent : Type 0 where
  stalled : List Text → Descent
  done : Progress → Descent
  out_of_fuel : Descent

module _ (parse : Text → Option ℤ) (tiers : TierMap) where
  unfoldable pub wave_duration : ℤ → List Group → ℤ
  unfolding declared_group_duration
  wave_duration longest [] = longest
  wave_duration longest (g ∷ gs) =
      wave_duration
        (if ltb_ℤ longest (declared_group_duration parse g)
          then declared_group_duration parse g
          else longest)
        gs

  -- The steps of a wave, which end together.
  unfoldable pub wave_steps : ℤ → ℤ → List Group → List CompiledStep
  unfolding summarize_target tier_of
  wave_steps end index [] = []
  wave_steps end index (g ∷ gs) =
      record {
        id = g.name;
        index = index;
        action = g.action;
        shutdown_tier = tier_of g.name tiers;
        target_summary = summarize_target g.target;
        cumulative_duration = end;
      }
      ∷ wave_steps end (wrap32 (index +ℤ pos 1)) gs

  -- The step index after a wave.
  unfoldable pub next_index : ℤ → List Group → ℤ
  next_index index [] = index
  next_index index (g ∷ gs) = next_index (wrap32 (index +ℤ pos 1)) gs

  unfoldable pub add_wave : Progress → List Group → Progress
  unfolding wave_duration wave_steps next_index
  add_wave p wave =
      let duration = wave_duration (pos 0) wave in
      let end = wrap64 (p.cumulative +ℤ duration) in
      record {
        steps = p.steps ++ wave_steps end p.step_index wave;
        waves =
            p.waves
            ++ record {
              index = p.wave_index;
              shutdown_tier = shared_shutdown_tier (names wave) tiers;
              groups = names wave;
              duration = duration;
              cumulative_duration = end;
            }
              ∷ [];
        cumulative = end;
        step_index = next_index p.step_index wave;
        wave_index = wrap32 (p.wave_index +ℤ pos 1);
      }

  -- The loop `for len(indegree) > 0`.
  unfoldable pub descend_waves :
      ℕ → SuccessorMap → List (Text × Group) → Progress → Indegrees → Descent
  descend_waves zero edges by_name p m = out_of_fuel
  descend_waves (suc fuel) edges by_name p m =
      let wave = wave_groups by_name m in
      let rest =
        descend_waves fuel edges by_name (add_wave p wave) (take_out edges (names wave) m) in
      if is_empty m then done p else if is_empty wave then stalled (sort_texts (keys m)) else rest

-- The indegrees before the first wave.
unfoldable pub initial_indegrees : List Group → SuccessorMap → Indegrees
unfolding count_edges zero_indegrees
initial_indegrees gs edges = count_edges edges (zero_indegrees gs [])

-- `compileGroups`. A round takes a wave of at least one group out, so that one round more than there
-- are groups is enough.
unfoldable pub compile_groups : (Text → Option ℤ) → List Group → Graph → Descent
unfolding descend_waves graph_successors graph_shutdown_tiers initial_indegrees index_groups
compile_groups parse gs graph =
    let edges = graph_successors graph in
    descend_waves parse (graph_shutdown_tiers graph) (suc (length gs)) edges (index_groups gs [])
      no_progress (initial_indegrees gs edges)
