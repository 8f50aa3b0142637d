-- ===== src/Planner/Schedule/Total.antt =====
-- compileGroups (internal/planner/compiler_scheduling.go): when the descent has waves for all groups,
-- and what it reports where it has not.
use nut_operator.Prelude.{
  ℕ, zero, suc, ◌+◌, ◌≤◌, ◌<◌, ◌≡◌, ◌≢◌, refl, List, [], ◌∷◌, arith, if◌then◌else◌, Option, All,
  All-map,
}
use nut_operator.Prelude.Int.{ℤ}
use nut_operator.Text.{Text, text_eq}
use nut_operator.Text.Laws.{text_eq_refl}
use nut_operator.Planner.Types.{Group, Graph, GraphEdge}
use nut_operator.Planner.Schedule.{
  successors_of, graph_successors, Progress, Descent, done, stalled, out_of_fuel, compile_groups,
}
use nut_operator.Planner.Schedule.Counts.{occurrences}
use nut_operator.Planner.Schedule.Waves.{IsStuck, Meets}
use nut_operator.Planner.Schedule.Edges.{graph-Leads}
use nut_operator.Planner.Schedule.Order.{IsGroupGraph, indegree_source, compile-Meets}

-- How many edges lead from one name to another.
abbrev pub edges_between : Text → Text → List GraphEdge → ℕ
edges_between a b [] = 0
edges_between a b (e ∷ es) =
    (if text_eq e.source a then if text_eq e.target b then 1 else 0 else 0) + edges_between a b es

own_edges :
    (es : List GraphEdge) → All (λ (e : GraphEdge). 0 < edges_between e.source e.target es) es
own_edges [] = tt
own_edges (e ∷ es) = (
  ground (arith, text_eq_refl e.source, text_eq_refl e.target),
  All-map (λ d h. omega (arith, h)) es (own_edges es),
)

-- Names that wait for one another have no ranks that rise along the edges.
stuck_rank :
    (succ : Text → List Text) (ks : List Text) (rank : Text → ℕ)
    → ((a b : Text) → 0 < occurrences b (succ a) → rank a < rank b)
    → IsStuck succ ks
    → ⊥
stuck_rank succ ks rank rises s = go (rank s.some_group) s.some_group s.remains (omega arith)
  where
    go : (r : ℕ) (n : Text) → 0 < occurrences n s.rest → rank n ≤ r → ⊥
    go zero n h le =
        let (k, _, into) = indegree_source succ s.rest n (s.waiting n h) in
        omega (arith, rises k n into)
    go (suc r) n h le =
        let (k, there, into) = indegree_source succ s.rest n (s.waiting n h) in
        go r k there (omega (arith, rises k n into))

unstuck :
    (succ : Text → List Text) (before : List (List Text)) (rest : List Text) (r : Descent)
    → ((ks : List Text) → ¬ IsStuck succ ks)
    → Meets succ before rest r
    → (p : Progress) × (r ≡ done p)
unstuck succ before rest (stalled ks) none_stuck h = absurd (none_stuck ks h)
unstuck succ before rest (done p) none_stuck h = (p, refl)
unstuck succ before rest out_of_fuel none_stuck h = absurd h

-- The descent of a graph over groups with distinct names is complete, with a plan as its result, where
-- some ranks of the names rise along the edges.
pub acyclic_groups_compile :
    (parse : Text → Option ℤ) (gs : List Group) (g : Graph) (rank : Text → ℕ)
    → IsGroupGraph gs g
    → All (λ (e : GraphEdge). rank e.source < rank e.target) g.edges
    → (p : Progress) × (compile_groups parse gs g ≡ done p)
acyclic_groups_compile parse gs g rank i rises =
    unstuck (successors_of (graph_successors g)) [] _ (compile_groups parse gs g)
      (λ ks. stuck_rank _ ks rank (graph-Leads g (λ a b. rank a < rank b) rises))
      (compile-Meets gs g i parse)

-- Where the descent of a graph over the groups stalls, it reports at least one group, and an edge of
-- the graph leads to each reported group from a reported group.
pub stalled_groups_wait :
    (parse : Text → Option ℤ) (gs : List Group) (g : Graph) (ks : List Text)
    → IsGroupGraph gs g
    → compile_groups parse gs g ≡ stalled ks
    → ((n : Text) × (0 < occurrences n ks))
      × ((n : Text)
          → 0 < occurrences n ks
          → (k : Text) × (0 < occurrences k ks) × (0 < edges_between k n g.edges))
stalled_groups_wait parse gs g ks i h =
    let s = rw h at (compile-Meets gs g i parse) in
    let leads = graph-Leads g (λ a b. 0 < edges_between a b g.edges) (own_edges g.edges) in
    (
      (s.some_group, omega (arith, s.reported s.some_group, s.remains)),
      λ n hn.
          let (k, there, into) =
            indegree_source _ s.rest n (s.waiting n (omega (arith, s.reported n, hn))) in
          (k, omega (arith, s.reported k, there), leads k n into),
    )

-- The descent of a graph over the groups never takes more rounds than there are groups and one.
pub compile_groups_fuel :
    (parse : Text → Option ℤ) (gs : List Group) (g : Graph)
    → IsGroupGraph gs g
    → compile_groups parse gs g ≢ out_of_fuel
compile_groups_fuel parse gs g i h = rw h at (compile-Meets gs g i parse)
