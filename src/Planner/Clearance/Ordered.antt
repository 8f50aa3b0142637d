-- ===== src/Planner/Clearance/Ordered.antt =====
-- internal/planner/nodes.go: which clearance edges there are.
use nut_operator.Prelude.{
  true, false, ◌≤◌, ◌<◌, ◌≡◌, refl, List, [], ◌∷◌, ◌++◌, arith, if◌then◌else◌, Bool-cases, inl, inr,
  All, All-append, if_both, if_cases, ℕ, ◌+◌,
}
use mathlib.Core.List.{Memᴰ}
use nut_operator.Text.{Text, text_eq, text_lt}
use nut_operator.Text.Laws.{text_eq→eq, text_eq_refl}
use nut_operator.Text.Maps.{contains}
use nut_operator.Text.Sorting.{sort_by-All}
use nut_operator.Planner.Types.{Group, GroupNodeMembership, GraphEdge, node_clearance}
use nut_operator.Planner.Graph.{graph_edge_id}
use nut_operator.Planner.Graph.Dedupe.{ids}
use nut_operator.Planner.Schedule.{SuccessorMap, successors_of, names}
use nut_operator.Planner.Schedule.Counts.{occurrences, occurrences-sort}
use nut_operator.Planner.Schedule.Order.{occurs-of_contains}
use nut_operator.Planner.Cycles.Ends.{All-of_occurs}
use nut_operator.Planner.Compile.Known.{IsKnown, IsSound}
use nut_operator.Planner.Clearance.{
  clearance_edge, add_clearance, clear_releasers, clear_nodes, clear_groups, releasers_by_node,
  collect_node_clearance_graph_edges,
}
use nut_operator.Planner.Clearance.Releasers.{releasers-ToKnown, releasers_there}

abbrev pub clearance_id : Text → Text → Text
clearance_id group releaser = graph_edge_id group releaser node_clearance

-- How often an ID occurs among edges.
abbrev pub with_id : Text → List GraphEdge → ℕ
with_id i es = occurrences i (ids es)

ids-append :
    (es : List GraphEdge) (e : GraphEdge) (i : Text)
    → with_id i (es ++ e ∷ []) ≡ with_id i es + (if text_eq e.id i then 1 else 0)
ids-append [] e i = omega arith
ids-append (d ∷ es) e i = omega (arith, ids-append es e i)

module _ (group node : Text) where
  add_clearance_grow :
      (r : Text) (es : List GraphEdge) (i : Text)
      → with_id i es ≤ with_id i (add_clearance group node r es)
  add_clearance_grow r es i = ground (arith, ids-append es (clearance_edge group node r) i)

  add_clearance_there :
      (r : Text) (es : List GraphEdge)
      → text_eq r group ≡ false
      → 0 < with_id (clearance_id group r) (add_clearance group node r es)
  add_clearance_there r es differ = ground (
    arith,
    differ,
    occurs-of_contains (ids es) (clearance_id group r),
    ids-append es (clearance_edge group node r) (clearance_id group r),
    text_eq_refl (clearance_id group r),
  )

  add_clearance-All :
      (P : GraphEdge → Type 0) (r : Text) (es : List GraphEdge)
      → P (clearance_edge group node r)
      → All P es
      → All P (add_clearance group node r es)
  add_clearance-All P r es p h = if_both (All P) (text_eq r group) _ _ h (
      if_both (All P) (contains (ids es) (clearance_id group r)) _ _ h
        (All-append P es (clearance_edge group node r ∷ []) h (p, tt)))

  clear_releasers_grow :
      (rs : List Text) (es : List GraphEdge) (i : Text)
      → with_id i es ≤ with_id i (clear_releasers group node es rs)
  unfolding clear_releasers
  clear_releasers_grow [] es i = omega arith
  clear_releasers_grow (r ∷ rs) es i =
      omega (
        arith,
        clear_releasers_grow rs (add_clearance group node r es) i,
        add_clearance_grow r es i,
      )

  clear_releasers_there :
      (rs : List Text) (es : List GraphEdge) (r : Text)
      → 0 < occurrences r rs
      → text_eq r group ≡ false
      → 0 < with_id (clearance_id group r) (clear_releasers group node es rs)
  unfolding clear_releasers
  clear_releasers_there [] es r h differ = elim h [ ]
  clear_releasers_there (q ∷ rs) es r h differ = elim (Bool-cases (text_eq q r)) [
    | inl same ↦ rw (text_eq→eq q r same) first
    | inr other ↦
        clear_releasers_there rs (add_clearance group node q es) r (ground (arith, h, other)) differ
  ]
    where
      first : 0 < with_id (clearance_id group r) (clear_releasers group node es (r ∷ rs))
      first = omega (
        arith,
        clear_releasers_grow rs (add_clearance group node r es) (clearance_id group r),
        add_clearance_there r es differ,
      )

  clear_releasers-All :
      (P : GraphEdge → Type 0) (rs : List Text) (es : List GraphEdge)
      → All (λ r. P (clearance_edge group node r)) rs
      → All P es
      → All P (clear_releasers group node es rs)
  unfolding clear_releasers
  clear_releasers-All P [] es p h = h
  clear_releasers-All P (r ∷ rs) es p h =
      clear_releasers-All P rs _ p.1 (add_clearance-All P r es p.0 h)

module _ (releasers : SuccessorMap) (group : Text) where
  clear_nodes_grow :
      (ns : List Text) (es : List GraphEdge) (i : Text)
      → with_id i es ≤ with_id i (clear_nodes releasers group es ns)
  unfolding clear_nodes
  clear_nodes_grow [] es i = omega arith
  clear_nodes_grow (n ∷ ns) es i = omega (
    arith,
    clear_nodes_grow ns (clear_releasers group n es (successors_of releasers n)) i,
    clear_releasers_grow group n (successors_of releasers n) es i,
  )

  clear_nodes_there :
      (ns : List Text) (es : List GraphEdge) (n r : Text)
      → Memᴰ n ns
      → 0 < occurrences r (successors_of releasers n)
      → text_eq r group ≡ false
      → 0 < with_id (clearance_id group r) (clear_nodes releasers group es ns)
  unfolding clear_nodes
  clear_nodes_there [] es n r m h differ = elim m [ ]
  clear_nodes_there (k ∷ ns) es n r (Memᴰ.head e) h differ = omega (
    arith,
    clear_nodes_grow ns (clear_releasers group k es (successors_of releasers k))
        (clearance_id group r),
    clear_releasers_there group k (successors_of releasers k) es r (rw e at h) differ,
  )
  clear_nodes_there (k ∷ ns) es n r (Memᴰ.tail m) h differ =
      clear_nodes_there ns (clear_releasers group k es (successors_of releasers k)) n r m h differ

  clear_nodes-All :
      (P : GraphEdge → Type 0) (ns : List Text) (es : List GraphEdge)
      → ((n r : Text)
          → 0 < occurrences r (successors_of releasers n)
          → P (clearance_edge group n r))
      → All P es
      → All P (clear_nodes releasers group es ns)
  unfolding clear_nodes
  clear_nodes-All P [] es p h = h
  clear_nodes-All P (n ∷ ns) es p h = clear_nodes-All P ns _ p (
      clear_releasers-All group n P (successors_of releasers n) es
        (All-of_occurs (λ r. P (clearance_edge group n r)) (successors_of releasers n) (p n)) h)

module _ (gs : List Group) (releasers : SuccessorMap) where
  clear_groups_grow :
      (ms : List GroupNodeMembership) (es : List GraphEdge) (i : Text)
      → with_id i es ≤ with_id i (clear_groups gs releasers es ms)
  unfolding clear_groups
  clear_groups_grow [] es i = omega arith
  clear_groups_grow (m ∷ ms) es i = elim (Bool-cases (contains (names gs) m.group)) [
    | inl known ↦ rw known omega (
      arith,
      clear_groups_grow ms (clear_nodes releasers m.group es m.acts) i,
      clear_nodes_grow releasers m.group m.acts es i,
    )
    | inr unknown ↦ rw unknown (clear_groups_grow ms es i)
  ]

  clear_groups_there :
      (ms : List GroupNodeMembership) (es : List GraphEdge) (a : GroupNodeMembership) (n r : Text)
      → Memᴰ a ms
      → contains (names gs) a.group ≡ true
      → Memᴰ n a.acts
      → 0 < occurrences r (successors_of releasers n)
      → text_eq r a.group ≡ false
      → 0 < with_id (clearance_id a.group r) (clear_groups gs releasers es ms)
  unfolding clear_groups
  clear_groups_there [] es a n r k known acts h differ = elim k [ ]
  clear_groups_there (m ∷ ms) es a n r (Memᴰ.head e) known acts h differ =
      rw e (first (rw e at known) (rw e at acts) (rw e at differ))
    where
      first :
          contains (names gs) m.group ≡ true
          → Memᴰ n m.acts
          → text_eq r m.group ≡ false
          → 0 < with_id (clearance_id m.group r) (clear_groups gs releasers es (m ∷ ms))
      first known acts differ = rw known omega (
        arith,
        clear_groups_grow ms (clear_nodes releasers m.group es m.acts) (clearance_id m.group r),
        clear_nodes_there releasers m.group m.acts es n r acts h differ,
      )
  clear_groups_there (m ∷ ms) es a n r (Memᴰ.tail k) known acts h differ =
      clear_groups_there ms _ a n r k known acts h differ

  clear_groups-All :
      (P : GraphEdge → Type 0) (ms : List GroupNodeMembership) (es : List GraphEdge)
      → ((g n r : Text)
          → IsKnown (names gs) g
          → 0 < occurrences r (successors_of releasers n)
          → P (clearance_edge g n r))
      → All P es
      → All P (clear_groups gs releasers es ms)
  unfolding clear_groups
  clear_groups-All P [] es p h = h
  clear_groups-All P (m ∷ ms) es p h = clear_groups-All P ms _ p (
      if_cases (All P) (contains (names gs) m.group) _ es
        (λ known. clear_nodes-All releasers m.group P m.acts es (λ n r. p m.group n r known) h)
        (λ _. h))

module _ (gs : List Group) (ms : List GroupNodeMembership) where
  -- The collected edges lead between groups and have the IDs of their ends.
  pub clearance-All : All (IsSound (names gs)) (collect_node_clearance_graph_edges gs ms)
  unfolding collect_node_clearance_graph_edges
  clearance-All =
      sort_by-All _ (IsSound (names gs)) (clear_groups gs (releasers_by_node gs ms) [] ms) (
        clear_groups-All gs (releasers_by_node gs ms) (IsSound (names gs)) ms []
          (λ g n r known h. ((known, releasers-ToKnown gs ms n r h), refl)) tt)

  -- There is one for a group that acts on a node and another one that releases it.
  pub clearance_there :
      (a r : GroupNodeMembership) (node : Text)
      → Memᴰ a ms
      → Memᴰ r ms
      → contains (names gs) a.group ≡ true
      → contains (names gs) r.group ≡ true
      → Memᴰ node a.acts
      → Memᴰ node r.releases
      → text_eq r.group a.group ≡ false
      → 0 < with_id (clearance_id a.group r.group) (collect_node_clearance_graph_edges gs ms)
  unfolding collect_node_clearance_graph_edges
  clearance_there a r node ha hr ka kr acts releases differ =
      let there =
        clear_groups_there gs (releasers_by_node gs ms) ms [] a node r.group ha ka acts
          (releasers_there gs ms r node hr kr releases) differ in
      omega (
        arith,
        there,
        occurrences-sort (λ (d e : GraphEdge). text_lt d.id e.id) (λ (e : GraphEdge). e.id)
            (clearance_id a.group r.group) (clear_groups gs (releasers_by_node gs ms) [] ms),
      )
