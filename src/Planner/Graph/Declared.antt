-- ===== src/Planner/Graph/Declared.antt =====
-- The edges of collectGroupGraphEdges (internal/planner/artifacts.go) in the waves of compileGroups.
use nut_operator.Prelude.{
  ◌≤◌, ◌<◌, ◌≡◌, refl, List, [], ◌∷◌, ◌++◌, arith, ◌∙◌, ap, sym, mem-of_All, inl, inr, Bool-cases,
  Option,
}
use mathlib.Core.List.{Memᴰ}
use mathlib.Core.List.Memᴰ
use nut_operator.Prelude.Int.{ℤ}
use nut_operator.Text.{Text, text_eq}
use nut_operator.Text.Laws.{text_eq→eq, text_eq_refl}
use nut_operator.Planner.Types.{Group, Graph, GraphEdge, TierPolicy}
use nut_operator.Planner.Graph.{
  declared_edges, dedupe_graph_edges, collect_shutdown_tier_graph_edges, collect_group_graph_edges,
}
use nut_operator.Planner.Graph.Dedupe.{ids, dedupe_one_per_id}
use nut_operator.Planner.Schedule.{Progress, done, compile_groups}
use nut_operator.Planner.Schedule.Counts.{occurrences}
use nut_operator.Planner.Schedule.Waves.{wave_names}
use nut_operator.Planner.Schedule.Order.{
  IsGroupGraph, Precedes, contains-of_occurs, compiled_waves_ordered,
}

pub mem_of_id :
    (es : List GraphEdge) (n : Text)
    → 0 < occurrences n (ids es)
    → (d : GraphEdge) × (Memᴰ d es × (d.id ≡ n))
mem_of_id [] n h = elim h [ ]
mem_of_id (e ∷ es) n h = elim (Bool-cases (text_eq e.id n)) [
  | inl same ↦ (e, (Memᴰ.head refl, text_eq→eq e.id n same))
  | inr other ↦ let (d, (m, eq)) = mem_of_id es n (ground (arith, other)) in (d, (Memᴰ.tail m, eq))
]

pub id_of_mem : (d : GraphEdge) (es : List GraphEdge) → Memᴰ d es → 0 < occurrences d.id (ids es)
id_of_mem d [] m = elim m [ ]
id_of_mem d (e ∷ es) (Memᴰ.head p) =
    ground (arith, text_eq_refl d.id, ap (λ (x : GraphEdge). x.id) p)
id_of_mem d (e ∷ es) (Memᴰ.tail m) = omega (arith, id_of_mem d es m)

-- Two members with one ID are equal, where the ID is there once.
only_one :
    (d e : GraphEdge) (es : List GraphEdge)
    → occurrences e.id (ids es) ≤ 1
    → d.id ≡ e.id
    → Memᴰ d es
    → Memᴰ e es
    → d ≡ e
only_one d e [] h same m k = elim m [ ]
only_one d e (x ∷ es) h same (Memᴰ.head p) (Memᴰ.head q) = p ∙ sym q
only_one d e (x ∷ es) h same (Memᴰ.head p) (Memᴰ.tail k) =
    absurd
      (ground (arith, h, same, ap (λ (y : GraphEdge). y.id) p, text_eq_refl e.id, id_of_mem e es k))
only_one d e (x ∷ es) h same (Memᴰ.tail m) (Memᴰ.head q) =
    absurd
      (ground (arith, h, same, ap (λ (y : GraphEdge). y.id) q, text_eq_refl e.id, id_of_mem d es m))
only_one d e (x ∷ es) h same (Memᴰ.tail m) (Memᴰ.tail k) =
    only_one d e es (omega (arith, h)) same m k

kept_once :
    (es : List GraphEdge) (e : GraphEdge)
    → Memᴰ e es
    → occurrences e.id (ids es) ≡ 1
    → Memᴰ e (dedupe_graph_edges es)
kept_once es e m h =
    let (counts, given) = dedupe_one_per_id es in
    let there : 0 < occurrences e.id (ids (dedupe_graph_edges es)) =
      ground (arith, h, counts e.id, contains-of_occurs (ids es) e.id) in
    let (d, (dm, same)) = mem_of_id (dedupe_graph_edges es) e.id there in
    let eq : d ≡ e =
      only_one d e es (omega (arith, h)) same
        (mem-of_All (λ x. Memᴰ x es) d (dedupe_graph_edges es) given dm) m in
    rw eq at dm

-- In a plan that is compiled from the collected edges of its groups, the groups of a declared
-- dependency stand in waves in the declared order, where no other collected edge has its ID.
declared_edge_ordered :
    (parse : Text → Option ℤ) (gs : List Group) (p : TierPolicy) (g : Graph) (plan : Progress)
    (e : GraphEdge)
    → IsGroupGraph gs g
    → g.edges ≡ collect_group_graph_edges gs p
    → Memᴰ e (declared_edges gs)
    → occurrences e.id (ids (declared_edges gs ++ collect_shutdown_tier_graph_edges gs p)) ≡ 1
    → compile_groups parse gs g ≡ done plan
    → Precedes e.source e.target (wave_names plan.waves)
unfolding collect_group_graph_edges
declared_edge_ordered parse gs p g plan e i from m once h =
    mem-of_All (λ (d : GraphEdge). Precedes d.source d.target (wave_names plan.waves)) e
      (dedupe_graph_edges (declared_edges gs ++ collect_shutdown_tier_graph_edges gs p))
      (rw from at (compiled_waves_ordered parse gs g plan i h).1)
      (kept_once (declared_edges gs ++ collect_shutdown_tier_graph_edges gs p) e
        (Memᴰ.append_left (collect_shutdown_tier_graph_edges gs p) m) once)
