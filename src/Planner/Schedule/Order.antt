-- ===== src/Planner/Schedule/Order.antt =====
-- compileGroups (internal/planner/compiler_scheduling.go): what its waves have to do with the graph.
use nut_operator.Prelude.{
  ℕ, zero, suc, ◌+◌, ◌≤◌, ◌<◌, true, false, ◌≡◌, refl, List, [], ◌∷◌, ◌++◌, arith, Option, ◌∙◌, ap,
  sym, All, All-map, All-both, inl, inr, ◌⊎◌, Bool-cases, length,
}
use nut_operator.Prelude.Int.{ℤ}
use nut_operator.Text.{Text, text_eq}
use nut_operator.Text.Laws.{text_eq→eq, text_eq_refl}
use nut_operator.Text.Maps.{are_distinct, contains, lookup, insert, lookup-insert}
use nut_operator.Planner.Types.{Group, Graph, GraphVertex, GraphEdge}
use nut_operator.Planner.Tiers.{graph_shutdown_tiers}
use nut_operator.Planner.Schedule.{
  Indegrees, successors_of, graph_successors, keys, names, group_or_zero, index_groups,
  zero_indegrees, initial_indegrees, Progress, no_progress, done, compile_groups,
}
use nut_operator.Planner.Schedule.Counts.{
  occurrences, occurrences-append, indegree, indegree-without,
}
use nut_operator.Planner.Schedule.Maps.{Counts}
use nut_operator.Planner.Schedule.Removal.{IsCounted}
use nut_operator.Planner.Schedule.Waves.{Schedules, wave_names, Meets, AreNamed}
use nut_operator.Planner.Schedule.Rounds.{descend_waves-Meets}
use nut_operator.Planner.Schedule.Start.{
  zero_keys, zero_length, edges_into, count_all, edges_into-indegree,
}
use nut_operator.Planner.Schedule.Edges.{IsKeyed, graph-IsKeyed, graph-Leads, graph_edges}

-- A graph over groups: no two of the groups have one name, and the vertices and the ends of the
-- edges are groups.
pub record IsGroupGraph (gs : List Group) (g : Graph) : Type 0 where
  pub distinct : are_distinct (names gs) ≡ true
  pub vertices : All (λ (v : GraphVertex). contains (names gs) v.id ≡ true) g.vertices
  pub edges :
      All
        (λ (e : GraphEdge).
          (contains (names gs) e.source ≡ true) × (contains (names gs) e.target ≡ true))
        g.edges

abbrev pub flatten : List (List Text) → List Text
flatten [] = []
flatten (w ∷ ws) = w ++ flatten ws

-- A name stands in a wave, and another one in a later wave.
abbrev pub Precedes : Text → Text → List (List Text) → Type 0
Precedes a b [] = ⊥
Precedes a b (w ∷ ws) = (0 < occurrences a w) × (0 < occurrences b (flatten ws)) ⊎ Precedes a b ws

pub occurs-of_contains : (ks : List Text) (n : Text) → contains ks n ≡ true → 0 < occurrences n ks
unfolding contains
occurs-of_contains [] n h = cc
occurs-of_contains (k ∷ ks) n h = ground (arith, occurs-of_contains ks n)

pub contains-of_occurs : (ks : List Text) (n : Text) → contains ks n ≡ false → occurrences n ks ≡ 0
unfolding contains
contains-of_occurs [] n h = refl
contains-of_occurs (k ∷ ks) n h = ground (arith, contains-of_occurs ks n)

pub distinct_occurrences :
    (ks : List Text) → are_distinct ks ≡ true → (n : Text) → occurrences n ks ≤ 1
distinct_occurrences [] h n = omega arith
distinct_occurrences (k ∷ ks) h n =
    let (fresh, rest) : (contains ks k ≡ false) × (are_distinct ks ≡ true) = ground arith in
    ground (arith, contains-of_occurs ks k fresh, distinct_occurrences ks rest n, text_eq→eq k n)

index_names :
    (gs : List Group) (m : List (Text × Group)) (n : Text)
    → ((0 < occurrences n (names gs)) ⊎ ((group_or_zero (lookup n m)).name ≡ n))
    → (group_or_zero (lookup n (index_groups gs m))).name ≡ n
unfolding index_groups
index_names [] m n (inl h) = elim h [ ]
index_names [] m n (inr h) = h
index_names (g ∷ gs) m n h = elim (Bool-cases (text_eq g.name n)) [
  | inl same ↦
      index_names gs (insert g.name g m) n
        (inr (rw (lookup-insert g.name n g m, same) (text_eq→eq g.name n same)))
  | inr other ↦ index_names gs (insert g.name g m) n (elim h [
    | inl there ↦ inl (ground (arith, there))
    | inr found ↦ inr (rw (lookup-insert g.name n g m, other) found)
  ])
]

pub zero_or_above : (n : ℕ) → (n ≡ 0) ⊎ (0 < n)
zero_or_above zero = inl refl
zero_or_above (suc n) = inr (omega arith)

-- The number of edges from the names of a list is above 0 where one of them leads there.
pub indegree_above :
    (succ : Text → List Text) (rest : List Text) (a b : Text)
    → 0 < occurrences a rest
    → 0 < occurrences b (succ a)
    → 0 < indegree succ rest b
indegree_above succ rest a b h hb = omega (arith, indegree-without succ b a rest h)

-- And one of them leads there, where the number is above 0.
pub indegree_source :
    (succ : Text → List Text) (rest : List Text) (n : Text)
    → 0 < indegree succ rest n
    → (k : Text) × (0 < occurrences k rest) × (0 < occurrences n (succ k))
indegree_source succ [] n h = elim h [ ]
indegree_source succ (k ∷ rest) n h = elim (zero_or_above (occurrences n (succ k))) [
  | inl none_here ↦
      let (j, there, into) = indegree_source succ rest n (omega (arith, none_here)) in
      (j, omega (arith, there), into)
  | inr some_here ↦ (k, ground (arith, text_eq_refl k), some_here)
]

schedule_names :
    (succ : Text → List Text) (rest : List Text) (ws : List (List Text))
    → Schedules succ rest ws
    → (n : Text) → occurrences n (flatten ws) ≡ occurrences n rest
schedule_names succ rest [] h n = sym (h n)
schedule_names succ rest (w ∷ ws) (free, complete, (left, total, later)) n =
    omega (arith, occurrences-append n w (flatten ws), schedule_names succ left ws later n, total n)

schedule_order :
    (succ : Text → List Text) (rest : List Text) (ws : List (List Text)) (a b : Text)
    → Schedules succ rest ws
    → 0 < occurrences a rest
    → 0 < occurrences b rest
    → 0 < occurrences b (succ a)
    → Precedes a b ws
schedule_order succ rest [] a b h ha hb s = absurd (omega (arith, h a))
schedule_order succ rest (w ∷ ws) a b (free, complete, (left, total, later)) ha hb s =
    let into = indegree_above succ rest a b ha s in
    let b_later : 0 < occurrences b left = ground (arith, into, free b, total b) in
    elim (Bool-cases (contains w a)) [
      | inl now ↦
          inl (
            occurs-of_contains w a now,
            omega (arith, b_later, schedule_names succ left ws later b),
          )
      | inr not_now ↦ inr (
          schedule_order succ left ws a b later
            (omega (arith, total a, contains-of_occurs w a not_now)) b_later s)
    ]

module _ (gs : List Group) (g : Graph) (i : IsGroupGraph gs g) where
  abbrev pub IsName : Text → Type 0
  IsName n = 0 < occurrences n (names gs)

  abbrev pub succ : Text → List Text
  succ = successors_of (graph_successors g)

  successor_names : IsKeyed IsName (graph_successors g)
  successor_names =
      graph-IsKeyed g IsName
        (All-map (λ v h. occurs-of_contains (names gs) v.id h) g.vertices i.vertices)
        (All-map (λ e h. occurs-of_contains (names gs) e.source h.0) g.edges i.edges)

  successor_targets : (a n : Text) → 0 < occurrences n (succ a) → IsName n
  successor_targets =
      graph-Leads g (λ a n. IsName n)
        (All-map (λ e h. occurs-of_contains (names gs) e.target h.1) g.edges i.edges)

  once : (n : Text) → occurrences n (names gs) ≤ 1
  once = distinct_occurrences (names gs) i.distinct

  -- Over any list with the groups' names, the edges are counted by their sources.
  into_indegree :
      (ks : List Text)
      → ((n : Text) → occurrences n ks ≡ occurrences n (names gs))
      → (n : Text) → edges_into (graph_successors g) n ≡ indegree succ ks n
  into_indegree ks h n =
      edges_into-indegree (graph_successors g) ks n
        (λ k. at_most_once k (successor_names.once k) (successor_names.within k) (h k))
        (λ k. omega (arith, once k, h k))
    where
      at_most_once : (k : Text) {a b c : ℕ} → a ≤ 1 → (0 < a → 0 < c) → b ≡ c → a ≤ b
      at_most_once k h p e = ground (arith, h, p, e)

  into-IsName : (n : Text) → 0 < edges_into (graph_successors g) n → IsName n
  into-IsName n h =
      let (a, _, into) =
        indegree_source succ (names gs) n (omega (arith, into_indegree (names gs) (λ k. refl) n)) in
      successor_targets a n into

  abbrev start : Indegrees
  start = initial_indegrees gs (graph_successors g)

  started :
      ((n : Text) → occurrences n (keys start) ≡ occurrences n (names gs))
      × Counts (λ n. edges_into (graph_successors g) n + 0) start
      × (length (keys start) ≤ length gs)
  unfolding initial_indegrees keys
  started =
      let (all, zeros) = zero_keys gs [] (λ n. omega (arith, once n)) (λ n h. elim h [ ]) in
      let (same, entries) =
        count_all (graph_successors g) (zero_indegrees gs []) (λ n. 0)
          (λ n h. omega (arith, into-IsName n h, all n)) zeros in
      (
        λ n. omega (arith, ap (occurrences n) same, all n),
        entries,
        omega (arith, ap length same, zero_length gs []),
      )

  start-IsCounted : IsCounted succ start
  start-IsCounted =
      let (all, entries, _) = started in
      record {
        counted = λ n h. ground (arith, entries n h, into_indegree (keys start) all n);
        closed = λ n h. ground (arith, into_indegree (keys start) all n, into-IsName n, all n, h);
        distinct = λ n. omega (arith, once n, all n);
      }

  start-AreNamed : AreNamed (index_groups gs []) (keys start)
  start-AreNamed n h = index_names gs [] n (inl (omega (arith, started.0 n)))

  -- The descent of the whole graph.
  pub compile-Meets :
      (parse : Text → Option ℤ) → Meets succ [] (keys start) (compile_groups parse gs g)
  unfolding compile_groups
  compile-Meets parse =
      descend_waves-Meets parse (graph_shutdown_tiers g) (graph_successors g) (index_groups gs [])
        (suc (length gs)) no_progress start (short started) start-IsCounted start-AreNamed
    where
      short :
          {A B : Type 0}
          → A × B × (length (keys start) ≤ length gs)
          → length (keys start) < suc (length gs)
      short (_, _, h) = omega (arith, h)

-- A compiled plan has each group in exactly one wave, and each edge leads from its group to one of
-- a later wave, in a graph over the groups.
pub compiled_waves_ordered :
    (parse : Text → Option ℤ) (gs : List Group) (g : Graph) (p : Progress)
    → IsGroupGraph gs g
    → compile_groups parse gs g ≡ done p
    → ((n : Text) → occurrences n (flatten (wave_names p.waves)) ≡ occurrences n (names gs))
      × All (λ (e : GraphEdge). Precedes e.source e.target (wave_names p.waves)) g.edges
compiled_waves_ordered parse gs g p i h =
    let (ws, e, sched) = rw h at (compile-Meets gs g i parse) in
    let (all, _, _) = started gs g i in
    let rest = keys (start gs g i) in
    (
      rw e (λ n. schedule_names (succ gs g i) rest ws sched n ∙ all n),
      rw e (
          All-map
            (λ e ends.
              schedule_order (succ gs g i) rest ws e.source e.target sched
                (omega (arith, ends.0, all e.source))
                (omega (arith, successor_targets gs g i e.source e.target ends.1, all e.target))
                ends.1)
            g.edges
            (All-both _ _ g.edges
              (All-map (λ e k. occurs-of_contains (names gs) e.source k.0) g.edges i.edges)
              (graph_edges g))),
    )
