-- ===== src/Planner/Cycles/Equivalence.antt =====
-- internal/planner: the search for a cycle (compiler_validation.go) against the descent
-- (compiler_scheduling.go).
use nut_operator.Prelude.{
  ℕ, suc, ◌+◌, ◌-◌, ◌≤◌, ◌<◌, true, false, ◌≡◌, ◌↔◌, refl, List, [], ◌∷◌, ◌++◌, map, All, arith,
  if◌then◌else◌, ltb, length, All-map, All-both, inl, inr, Option,
}
use nut_operator.Prelude.Int.{ℤ}
use nut_operator.Text.{Text}
use nut_operator.Text.Laws.{text_eq_refl}
use nut_operator.Text.Maps.{contains}
use nut_operator.Planner.Types.{Group, Graph, GraphEdge}
use nut_operator.Planner.Schedule.{
  successors_of, graph_successors, names, Progress, done, compile_groups,
}
use nut_operator.Planner.Schedule.Counts.{occurrences, occurrences-append}
use nut_operator.Planner.Schedule.Waves.{wave_names}
use nut_operator.Planner.Schedule.Edges.{graph-Leads, graph_edges}
use nut_operator.Planner.Schedule.Order.{
  IsGroupGraph, flatten, Precedes, occurs-of_contains, distinct_occurrences, compiled_waves_ordered,
}
use nut_operator.Planner.Schedule.Total.{acyclic_groups_compile}
use nut_operator.Planner.Cycles.{
  Walk, found, walked, out_of_fuel, visit, is_cyclic, walk_fuel, walk_groups, has_group_cycle,
}
use nut_operator.Planner.Cycles.Walks.{
  AllIn-occurs, Leaves, visit_all-Leaves, visit-Leaves, height, height_bound, height_falls,
}
use nut_operator.Planner.Cycles.Ends.{
  IsAcyclic, IsFueled, visit_all_both, All-of_occurs, visit-IsAcyclic, visit-IsFueled,
}

-- The first of some waves that has a name.
abbrev level : Text → List (List Text) → ℕ
level n [] = 0
level n (w ∷ ws) = if ltb 0 (occurrences n w) then 0 else suc (level n ws)

Precedes-occurs :
    (a b : Text) (ws : List (List Text))
    → Precedes a b ws
    → (0 < occurrences a (flatten ws)) × (0 < occurrences b (flatten ws))
Precedes-occurs a b [] h = elim h [ ]
Precedes-occurs a b (w ∷ ws) (inl (here, later)) = (
  omega (arith, here, occurrences-append a w (flatten ws)),
  omega (arith, later, occurrences-append b w (flatten ws)),
)
Precedes-occurs a b (w ∷ ws) (inr h) =
    let (first, second) = Precedes-occurs a b ws h in
    (
      omega (arith, first, occurrences-append a w (flatten ws)),
      omega (arith, second, occurrences-append b w (flatten ws)),
    )

Precedes-level :
    (a b : Text) (ws : List (List Text))
    → ((n : Text) → occurrences n (flatten ws) ≤ 1)
    → Precedes a b ws
    → level a ws < level b ws
Precedes-level a b [] once h = elim h [ ]
Precedes-level a b (w ∷ ws) once (inl (here, later)) =
    ground (arith, here, later, once b, occurrences-append b w (flatten ws))
Precedes-level a b (w ∷ ws) once (inr h) =
    let (first, second) = Precedes-occurs a b ws h in
    let below =
      Precedes-level a b ws (λ n. omega (arith, once n, occurrences-append n w (flatten ws))) h in
    ground (
      arith,
      below,
      first,
      second,
      once a,
      once b,
      occurrences-append a w (flatten ws),
      occurrences-append b w (flatten ws),
    )

abbrev targets : List GraphEdge → List Text
targets es = map (λ (e : GraphEdge). e.target) es

own_targets :
    (es : List GraphEdge) → All (λ (e : GraphEdge). 0 < occurrences e.target (targets es)) es
own_targets [] = tt
own_targets (e ∷ es) =
    (ground (arith, text_eq_refl e.target), All-map (λ d h. omega (arith, h)) es (own_targets es))

ends_length :
    (gs : List Group) (es : List GraphEdge)
    → length (names gs ++ targets es) ≡ length gs + length es
ends_length [] [] = refl
ends_length [] (e ∷ es) = omega (arith, ends_length [] es)
ends_length (g ∷ gs) es = omega (arith, ends_length gs es)

-- For any groups and any graph, with cycles or without, the search for a cycle ends: it never
-- nests more visits than there are groups, edges and one.
pub walk_groups-IsFueled : (gs : List Group) (g : Graph) → IsFueled (walk_groups gs g)
unfolding walk_groups
walk_groups-IsFueled gs g =
    visit_all_both IsFueled (λ vs. tt) (visit succ fuel []) [] (names gs)
      (All-of_occurs (λ n. (vs : List Text) → IsFueled (visit succ fuel [] vs n)) (names gs)
        (λ n is_name vs.
          visit-IsFueled succ IsEnd
            (graph-Leads g (λ a b. IsEnd b)
              (All-map
                (λ e h. omega (arith, h, occurrences-append e.target (names gs) (targets g.edges)))
                g.edges (own_targets g.edges)))
            fuel [] ends vs n (λ m k. inr k)
            (omega (arith, is_name, occurrences-append n (names gs) (targets g.edges)))
            (omega (arith, ends_length gs g.edges))))
  where
    fuel : ℕ
    fuel = walk_fuel gs g

    ends : List Text
    ends = names gs ++ targets g.edges

    IsEnd : Text → Type 0
    IsEnd n = 0 < occurrences n ends

    succ : Text → List Text
    succ = successors_of (graph_successors g)

module _ (gs : List Group) (g : Graph) (i : IsGroupGraph gs g) where
  abbrev succ : Text → List Text
  succ = successors_of (graph_successors g)

  rank_of_walk : List Text → Text → ℕ
  rank_of_walk vs n = length vs - height succ n vs

  clash : true ≡ false → ⊥
  clash h = ground arith

  walked_compiles :
      (parse : Text → Option ℤ) (w : Walk)
      → Leaves succ (names gs) [] w
      → is_cyclic w ≡ false
      → (p : Progress) × (compile_groups parse gs g ≡ done p)
  unfolding rank_of_walk
  walked_compiles parse found h k = elim (clash k) [ ]
  walked_compiles parse out_of_fuel h k = elim (clash k) [ ]
  walked_compiles parse (walked vs) (closed, within, all) k =
      acyclic_groups_compile parse gs g (rank_of_walk vs) i (
        All-map
          (λ e (ends, into).
            falls e.source e.target
              (AllIn-occurs succ (names gs) vs e.source all
                (occurs-of_contains (names gs) e.source ends.0))
              into)
          g.edges (All-both _ _ g.edges i.edges (graph_edges g)))
    where
      falls :
          (a b : Text)
          → contains vs a ≡ true
          → 0 < occurrences b (succ a)
          → rank_of_walk vs a < rank_of_walk vs b
      falls a b h l = omega (arith, height_falls succ vs a b closed h l, height_bound succ a vs)

  not_cyclic : (w : Walk) → IsAcyclic w → IsFueled w → is_cyclic w ≡ false
  not_cyclic found h k = elim h [ ]
  not_cyclic out_of_fuel h k = elim k [ ]
  not_cyclic (walked vs) h k = refl

  compiled_acyclic :
      (parse : Text → Option ℤ) (p : Progress)
      → compile_groups parse gs g ≡ done p
      → has_group_cycle gs g ≡ false
  unfolding has_group_cycle walk_groups
  compiled_acyclic parse p h =
      let (all, ordered) = compiled_waves_ordered parse gs g p i h in
      let ws = wave_names p.waves in
      let once : (n : Text) → occurrences n (flatten ws) ≤ 1 =
        λ n. omega (arith, all n, distinct_occurrences (names gs) i.distinct n) in
      not_cyclic (walk_groups gs g)
        (visit_all_both IsAcyclic (λ vs. tt) (visit succ (walk_fuel gs g) []) [] (names gs)
          (All-of_occurs (λ n. (vs : List Text) → IsAcyclic (visit succ (walk_fuel gs g) [] vs n))
            (names gs)
            (λ n is_name vs.
              visit-IsAcyclic succ (λ m. level m ws)
                (graph-Leads g (λ a b. level a ws < level b ws)
                  (All-map (λ e h. Precedes-level e.source e.target ws once h) g.edges ordered))
                (walk_fuel gs g) [] vs n tt)))
        (walk_groups-IsFueled gs g)

  -- For a graph over groups with distinct names: the search finds no cycle exactly when the
  -- descent compiles the whole graph into a plan.
  pub no_cycle_iff :
      (parse : Text → Option ℤ)
      → (has_group_cycle gs g ≡ false) ↔ ((p : Progress) × (compile_groups parse gs g ≡ done p))
  unfolding has_group_cycle walk_groups
  no_cycle_iff parse = (
    walked_compiles parse (walk_groups gs g) (
        visit_all-Leaves succ (visit succ (walk_fuel gs g) []) [] (names gs)
          (visit-Leaves succ (walk_fuel gs g) []) tt),
    λ (p, h). compiled_acyclic parse p h,
  )
