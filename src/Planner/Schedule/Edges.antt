-- ===== src/Planner/Schedule/Edges.antt =====
-- graphSuccessors (internal/planner/artifacts.go): the map of successors and the edges.
use nut_operator.Prelude.{
  ◌+◌, ◌≤◌, ◌<◌, true, ◌≡◌, refl, List, [], ◌∷◌, ◌++◌, arith, if◌then◌else◌, ap, All, inl, inr, ◌⊎◌,
  Bool-cases, All-map,
}
use nut_operator.Text.{Text, text_eq}
use nut_operator.Text.Laws.{text_eq→eq, text_eq_refl}
use nut_operator.Text.Maps.{lookup, insert, lookup-insert}
use nut_operator.Planner.Types.{Graph, GraphVertex, GraphEdge}
use nut_operator.Planner.Schedule.{
  SuccessorMap, successors_of, vertex_keys, append_edges, sort_successors, graph_successors, keys,
}
use nut_operator.Planner.Schedule.Counts.{occurrences, occurrences-append}
use nut_operator.Planner.Schedule.Waves.{occurrences-sort_texts}

-- Each entry of a map leads by a relation to each of its names.
abbrev pub Leads : (Text → Text → Type 0) → SuccessorMap → Type 0
Leads R m = (a b : Text) → 0 < occurrences b (successors_of m a) → R a b

-- The keys have a property, and none is there twice.
pub record IsKeyed (K : Text → Type 0) (m : SuccessorMap) : Type 0 where
  pub within : (n : Text) → 0 < occurrences n (keys m) → K n
  pub once : (n : Text) → occurrences n (keys m) ≤ 1

insert-keys :
    (k : Text) (v : List Text) (m : SuccessorMap) (n : Text)
    → (occurrences n (keys (insert k v m)) ≡ occurrences n (keys m))
      ⊎ ((text_eq k n ≡ true)
          × (occurrences n (keys m) ≡ 0)
          × (occurrences n (keys (insert k v m)) ≡ 1))
unfolding keys insert
insert-keys k v [] n = ground arith
insert-keys k v ((j, w) ∷ m) n =
    ground (arith, insert-keys k v m n, text_eq→eq j k, text_eq→eq k n, text_eq_refl k)

insert-IsKeyed :
    (K : Text → Type 0) (k : Text) (v : List Text) (m : SuccessorMap)
    → K k
    → IsKeyed K m
    → IsKeyed K (insert k v m)
insert-IsKeyed K k v m h i = record {
  within = λ n hn. elim (insert-keys k v m n) [
    | inl e ↦ i.within n (omega (arith, e, hn))
    | inr (e, _, _) ↦ rw (text_eq→eq k n e) at h
  ];
  once = λ n. elim (insert-keys k v m n) [
    | inl e ↦ omega (arith, e, i.once n)
    | inr (_, _, e) ↦ omega (arith, e)
  ];
}

vertex-IsKeyed :
    (K : Text → Type 0) (vs : List GraphVertex) (m : SuccessorMap)
    → All (λ (v : GraphVertex). K v.id) vs
    → IsKeyed K m
    → IsKeyed K (vertex_keys m vs)
unfolding vertex_keys
vertex-IsKeyed K [] m h i = i
vertex-IsKeyed K (v ∷ vs) m h i =
    vertex-IsKeyed K vs (insert v.id [] m) h.1 (insert-IsKeyed K v.id [] m h.0 i)

edges-IsKeyed :
    (K : Text → Type 0) (es : List GraphEdge) (m : SuccessorMap)
    → All (λ (e : GraphEdge). K e.source) es
    → IsKeyed K m
    → IsKeyed K (append_edges m es)
unfolding append_edges
edges-IsKeyed K [] m h i = i
edges-IsKeyed K (e ∷ es) m h i =
    edges-IsKeyed K es (insert e.source (successors_of m e.source ++ e.target ∷ []) m) h.1
      (insert-IsKeyed K e.source _ m h.0 i)

keys-sort_successors : (m : SuccessorMap) → keys (sort_successors m) ≡ keys m
unfolding keys sort_successors
keys-sort_successors [] = refl
keys-sort_successors ((k, ts) ∷ m) = ap (λ r. k ∷ r) (keys-sort_successors m)

pub occurrences-sort_successors :
    (m : SuccessorMap) (a b : Text)
    → occurrences b (successors_of (sort_successors m) a) ≡ occurrences b (successors_of m a)
unfolding sort_successors lookup
occurrences-sort_successors [] a b = refl
occurrences-sort_successors ((k, ts) ∷ m) a b =
    ground (arith, occurrences-sort_successors m a b, occurrences-sort_texts b ts)

vertex-Leads :
    (vs : List GraphVertex) (m : SuccessorMap) (a b : Text)
    → occurrences b (successors_of m a) ≡ 0
    → occurrences b (successors_of (vertex_keys m vs) a) ≡ 0
unfolding vertex_keys
vertex-Leads [] m a b h = h
vertex-Leads (v ∷ vs) m a b h =
    vertex-Leads vs (insert v.id [] m) a b (ground (arith, lookup-insert v.id a [] m))

-- One more edge.
pub appended :
    (m : SuccessorMap) (e : GraphEdge) (a b : Text)
    → occurrences b
        (successors_of (insert e.source (successors_of m e.source ++ e.target ∷ []) m) a)
      ≡ (if text_eq e.source a then if text_eq e.target b then 1 else 0 else 0)
        + occurrences b (successors_of m a)
appended m e a b = ground (
  arith,
  lookup-insert e.source a (successors_of m e.source ++ e.target ∷ []) m,
  occurrences-append b (successors_of m e.source) (e.target ∷ []),
  text_eq→eq e.source a,
)

pub appended-Leads :
    (R : Text → Text → Type 0) (m : SuccessorMap) (e : GraphEdge)
    → R e.source e.target
    → Leads R m
    → Leads R (insert e.source (successors_of m e.source ++ e.target ∷ []) m)
appended-Leads R m e r h a b hb = elim (Bool-cases (text_eq e.source a)) [
  | inl same ↦ elim (Bool-cases (text_eq e.target b)) [
    | inl hit ↦ rw (text_eq→eq e.target b hit) at rw (text_eq→eq e.source a same) at r
    | inr other ↦ h a b (ground (arith, appended m e a b))
  ]
  | inr other ↦ h a b (ground (arith, appended m e a b))
]

edges-Leads :
    (R : Text → Text → Type 0) (es : List GraphEdge) (m : SuccessorMap)
    → All (λ (e : GraphEdge). R e.source e.target) es
    → Leads R m
    → Leads R (append_edges m es)
unfolding append_edges
edges-Leads R [] m r h = h
edges-Leads R (e ∷ es) m r h = edges-Leads R es _ r.1 (appended-Leads R m e r.0 h)

-- An edge that is there stays there.
edges_grow :
    (es : List GraphEdge) (m : SuccessorMap) (a b : Text)
    → occurrences b (successors_of m a) ≤ occurrences b (successors_of (append_edges m es) a)
unfolding append_edges
edges_grow [] m a b = omega arith
edges_grow (e ∷ es) m a b = omega (
  arith,
  edges_grow es (insert e.source (successors_of m e.source ++ e.target ∷ []) m) a b,
  appended m e a b,
)

edges_there :
    (es : List GraphEdge) (m : SuccessorMap)
    → All
        (λ (e : GraphEdge). 0 < occurrences e.target (successors_of (append_edges m es) e.source))
        es
unfolding append_edges
edges_there [] m = tt
edges_there (e ∷ es) m =
    let m' = insert e.source (successors_of m e.source ++ e.target ∷ []) m in
    (
      ground (
        arith,
        edges_grow es m' e.source e.target,
        appended m e e.source e.target,
        text_eq_refl e.source,
        text_eq_refl e.target,
      ),
      edges_there es m',
    )

-- The facts of the graph's successors.
module _ (g : Graph) where
  pub graph-IsKeyed :
      (K : Text → Type 0)
      → All (λ (v : GraphVertex). K v.id) g.vertices
      → All (λ (e : GraphEdge). K e.source) g.edges
      → IsKeyed K (graph_successors g)
  unfolding graph_successors keys
  graph-IsKeyed K hv he =
      let i = edges-IsKeyed K g.edges (vertex_keys [] g.vertices) he (
        vertex-IsKeyed K g.vertices [] hv
          (record { within = λ n h. elim h [ ]; once = λ n. omega arith })) in
      let e = keys-sort_successors (append_edges (vertex_keys [] g.vertices) g.edges) in
      record { within = rw e i.within; once = rw e i.once }

  pub graph-Leads :
      (R : Text → Text → Type 0)
      → All (λ (e : GraphEdge). R e.source e.target) g.edges
      → Leads R (graph_successors g)
  unfolding graph_successors lookup
  graph-Leads R h a b hb =
      edges-Leads R g.edges (vertex_keys [] g.vertices) h
        (λ x y hx. absurd (omega (arith, vertex-Leads g.vertices [] x y refl))) a b
        (omega (
          arith,
          occurrences-sort_successors (append_edges (vertex_keys [] g.vertices) g.edges) a b,
        ))

  pub graph_edges :
      All
        (λ (e : GraphEdge). 0 < occurrences e.target (successors_of (graph_successors g) e.source))
        g.edges
  unfolding graph_successors
  graph_edges =
      All-map
        (λ e h. omega (
          arith,
          occurrences-sort_successors (append_edges (vertex_keys [] g.vertices) g.edges) e.source
              e.target,
        ))
        g.edges (edges_there g.edges (vertex_keys [] g.vertices))
