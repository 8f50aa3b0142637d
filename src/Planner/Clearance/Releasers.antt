-- ===== src/Planner/Clearance/Releasers.antt =====
-- internal/planner/nodes.go: the groups that power a node off.
use nut_operator.Prelude.{
  true, ◌≤◌, ◌<◌, ◌≡◌, List, [], ◌∷◌, ◌++◌, arith, Bool-cases, inl, inr, if_cases,
}
use mathlib.Core.List.{Memᴰ}
use nut_operator.Text.{Text}
use nut_operator.Text.Laws.{text_eq_refl}
use nut_operator.Text.Maps.{contains, insert, lookup}
use nut_operator.Planner.Types.{Group, GroupNodeMembership}
use nut_operator.Planner.Schedule.{SuccessorMap, successors_of, names}
use nut_operator.Planner.Schedule.Counts.{occurrences}
use nut_operator.Planner.Schedule.Edges.{
  Leads, appended, appended-Leads, occurrences-sort_successors,
}
use nut_operator.Planner.Clearance.{
  clearance_edge, add_releases, collect_releasers, releasers_by_node,
}

abbrev one_more : Text → Text → SuccessorMap → SuccessorMap
one_more group n m = insert n (successors_of m n ++ group ∷ []) m

module _ (K : Text → Type 0) where
  abbrev pub ToKnown : SuccessorMap → Type 0
  ToKnown = Leads (λ node group. K group)

  add_releases-ToKnown :
      (group : Text) (ns : List Text) (m : SuccessorMap)
      → K group
      → ToKnown m
      → ToKnown (add_releases group m ns)
  unfolding add_releases
  add_releases-ToKnown group [] m k h = h
  add_releases-ToKnown group (n ∷ ns) m k h =
      add_releases-ToKnown group ns (one_more group n m) k
        (appended-Leads (λ node g. K g) m (clearance_edge n [] group) k h)

-- A releaser that is there stays there.
add_releases_grow :
    (group : Text) (ns : List Text) (m : SuccessorMap) (a b : Text)
    → occurrences b (successors_of m a) ≤ occurrences b (successors_of (add_releases group m ns) a)
unfolding add_releases
add_releases_grow group [] m a b = omega arith
add_releases_grow group (n ∷ ns) m a b = omega (
  arith,
  add_releases_grow group ns (one_more group n m) a b,
  appended m (clearance_edge n [] group) a b,
)

add_releases_there :
    (group : Text) (ns : List Text) (m : SuccessorMap) (node : Text)
    → Memᴰ node ns
    → 0 < occurrences group (successors_of (add_releases group m ns) node)
unfolding add_releases
add_releases_there group [] m node h = elim h [ ]
add_releases_there group (n ∷ ns) m node (Memᴰ.head e) = rw e ground (
  arith,
  add_releases_grow group ns (one_more group n m) n group,
  appended m (clearance_edge n [] group) n group,
  text_eq_refl n,
  text_eq_refl group,
)
add_releases_there group (n ∷ ns) m node (Memᴰ.tail h) =
    add_releases_there group ns (one_more group n m) node h

module _ (gs : List Group) where
  collect_releasers-ToKnown :
      (es : List GroupNodeMembership) (m : SuccessorMap)
      → ToKnown (λ n. contains (names gs) n ≡ true) m
      → ToKnown (λ n. contains (names gs) n ≡ true) (collect_releasers gs m es)
  unfolding collect_releasers
  collect_releasers-ToKnown [] m h = h
  collect_releasers-ToKnown (e ∷ es) m h = collect_releasers-ToKnown es _ (
      if_cases (ToKnown (λ n. contains (names gs) n ≡ true)) (contains (names gs) e.group) _ m
        (λ k. add_releases-ToKnown (λ n. contains (names gs) n ≡ true) e.group e.releases m k h)
        (λ k. h))

  collect_releasers_grow :
      (es : List GroupNodeMembership) (m : SuccessorMap) (a b : Text)
      → occurrences b (successors_of m a)
        ≤ occurrences b (successors_of (collect_releasers gs m es) a)
  unfolding collect_releasers
  collect_releasers_grow [] m a b = omega arith
  collect_releasers_grow (e ∷ es) m a b = elim (Bool-cases (contains (names gs) e.group)) [
    | inl known ↦ rw known omega (
      arith,
      collect_releasers_grow es (add_releases e.group m e.releases) a b,
      add_releases_grow e.group e.releases m a b,
    )
    | inr unknown ↦ rw unknown (collect_releasers_grow es m a b)
  ]

  collect_releasers_here :
      (e : GroupNodeMembership) (es : List GroupNodeMembership) (m : SuccessorMap) (node : Text)
      → contains (names gs) e.group ≡ true
      → Memᴰ node e.releases
      → 0 < occurrences e.group (successors_of (collect_releasers gs m (e ∷ es)) node)
  unfolding collect_releasers
  collect_releasers_here e es m node known k = rw known omega (
    arith,
    collect_releasers_grow es (add_releases e.group m e.releases) node e.group,
    add_releases_there e.group e.releases m node k,
  )

  collect_releasers_there :
      (es : List GroupNodeMembership) (m : SuccessorMap) (r : GroupNodeMembership) (node : Text)
      → Memᴰ r es
      → contains (names gs) r.group ≡ true
      → Memᴰ node r.releases
      → 0 < occurrences r.group (successors_of (collect_releasers gs m es) node)
  unfolding collect_releasers
  collect_releasers_there [] m r node h known k = elim h [ ]
  collect_releasers_there (e ∷ es) m r node (Memᴰ.head q) known k =
      rw q (collect_releasers_here e es m node (rw q at known) (rw q at k))
  collect_releasers_there (e ∷ es) m r node (Memᴰ.tail h) known k =
      collect_releasers_there es _ r node h known k

  -- The map leads to known groups, and each known group that releases a node is there.
  pub releasers-ToKnown :
      (es : List GroupNodeMembership)
      → ToKnown (λ n. contains (names gs) n ≡ true) (releasers_by_node gs es)
  unfolding releasers_by_node lookup
  releasers-ToKnown es a b h =
      collect_releasers-ToKnown es [] (λ x y hx. elim hx [ ]) a b
        (omega (arith, h, occurrences-sort_successors (collect_releasers gs [] es) a b))

  pub releasers_there :
      (es : List GroupNodeMembership) (r : GroupNodeMembership) (node : Text)
      → Memᴰ r es
      → contains (names gs) r.group ≡ true
      → Memᴰ node r.releases
      → 0 < occurrences r.group (successors_of (releasers_by_node gs es) node)
  unfolding releasers_by_node
  releasers_there es r node h known k = omega (
    arith,
    collect_releasers_there es [] r node h known k,
    occurrences-sort_successors (collect_releasers gs [] es) node r.group,
  )
