-- ===== src/Planner/Compile/Known.antt =====
-- internal/planner/artifacts.go: between which groups the collected edges lead.
use nut_operator.Prelude.{
  true, ◌≡◌, refl, List, [], ◌∷◌, ◌++◌, arith, All, All-map, All-append, All-split, All-mapped,
  mem-of_All,
}
use nut_operator.Prelude.Int.{ℤ, ltb_ℤ}
use nut_operator.Text.{Text, text_lt}
use nut_operator.Text.Laws.{text_eq_refl}
use nut_operator.Text.Sorting.{sort_by, sort_texts, sort_by-All}
use nut_operator.Text.Maps.{contains}
use nut_operator.Planner.Types.{Group, GraphEdge, TierPolicy}
use nut_operator.Planner.Tiers.{TierMap, effective_shutdown_tiers}
use nut_operator.Planner.Graph.{
  graph_edge_id, requires_edge, before_edge, after_edge, declared_edges, groups_at, edges_from,
  tier_edge, tier_edges, occupied_tiers, collect_shutdown_tier_graph_edges,
  collect_group_graph_edges,
}
use nut_operator.Planner.Graph.Dedupe.{dedupe_one_per_id}
use nut_operator.Planner.Schedule.{names}

module _ (ks : List Text) where
  abbrev pub IsKnown : Text → Type 0
  IsKnown n = contains ks n ≡ true

  abbrev pub IsWithin : GraphEdge → Type 0
  IsWithin e = IsKnown e.source × IsKnown e.target

  -- And the ID is the one of its ends and its relation.
  abbrev pub IsSound : GraphEdge → Type 0
  IsSound e = IsWithin e × (e.id ≡ graph_edge_id e.source e.target e.relation)

  abbrev pub DependsWithin : Group → Type 0
  DependsWithin g = All IsKnown (g.requires ++ g.before ++ g.after)

  pub declared-IsSound :
      (gs : List Group)
      → All (λ (g : Group). IsKnown g.name) gs
      → All DependsWithin gs
      → All IsSound (declared_edges gs)
  unfolding declared_edges
  declared-IsSound [] n h = tt
  declared-IsSound (g ∷ gs) n h =
      let (rb, a) = All-split IsKnown (g.requires ++ g.before) g.after h.0 in
      let (r, b) = All-split IsKnown g.requires g.before rb in
      All-append IsSound _ _
        (All-append IsSound _ _
          (All-append IsSound _ _
            (All-mapped IsSound (requires_edge g.name) g.requires
              (All-map (λ d k. ((n.0, k), refl)) _ r))
            (All-mapped IsSound (before_edge g.name) g.before
              (All-map (λ d k. ((n.0, k), refl)) _ b)))
          (All-mapped IsSound (after_edge g.name) g.after (All-map (λ d k. ((k, n.0), refl)) _ a)))
        (declared-IsSound gs n.1 h.1)

  groups_at-IsKnown :
      (t : ℤ) (tiers : TierMap) (gs : List Group)
      → All (λ (g : Group). IsKnown g.name) gs
      → All IsKnown (groups_at t tiers gs)
  unfolding groups_at
  groups_at-IsKnown t tiers [] h = tt
  groups_at-IsKnown t tiers (g ∷ gs) h = ground (arith, groups_at-IsKnown t tiers gs h.1)

  edges_from-IsSound :
      (t u : ℤ) (ss ts : List Text)
      → All IsKnown ss
      → All IsKnown ts
      → All IsSound (edges_from t u ss ts)
  edges_from-IsSound t u [] ts hs ht = tt
  edges_from-IsSound t u (s ∷ ss) ts hs ht =
      All-append IsSound _ _
        (All-mapped IsSound (tier_edge t u s) ts (All-map (λ d k. ((hs.0, k), refl)) ts ht))
        (edges_from-IsSound t u ss ts hs.1 ht)

  module _ (tiers : TierMap) (gs : List Group) (h : All (λ (g : Group). IsKnown g.name) gs) where
    sorted_at : (t : ℤ) → All IsKnown (sort_texts (groups_at t tiers gs))
    unfolding sort_texts
    sorted_at t = sort_by-All text_lt IsKnown _ (groups_at-IsKnown t tiers gs h)

    tier_edges-IsSound : (ts : List ℤ) → All IsSound (tier_edges tiers gs ts)
    unfolding tier_edges
    tier_edges-IsSound [] = tt
    tier_edges-IsSound (t ∷ []) = tt
    tier_edges-IsSound (t ∷ u ∷ ts) =
        All-append IsSound _ _ (edges_from-IsSound t u _ _ (sorted_at t) (sorted_at u))
          (tier_edges-IsSound (u ∷ ts))

  pub collected-IsSound :
      (gs : List Group) (p : TierPolicy)
      → All (λ (g : Group). IsKnown g.name) gs
      → All DependsWithin gs
      → All IsSound (collect_group_graph_edges gs p)
  unfolding collect_group_graph_edges collect_shutdown_tier_graph_edges
  collected-IsSound gs p n h =
      let given = All-append IsSound _ _ (declared-IsSound gs n h) (
        tier_edges-IsSound (effective_shutdown_tiers gs p) gs n
          (sort_by (λ t u. ltb_ℤ u t) (occupied_tiers (effective_shutdown_tiers gs p) gs))) in
      All-map (λ e m. mem-of_All IsSound e _ given m) _
        (dedupe_one_per_id (declared_edges gs ++ collect_shutdown_tier_graph_edges gs p)).1

pub own_names : (gs : List Group) → All (λ (g : Group). contains (names gs) g.name ≡ true) gs
unfolding contains
own_names [] = tt
own_names (g ∷ gs) =
    (ground (arith, text_eq_refl g.name), All-map (λ d h. ground (arith, h)) gs (own_names gs))
