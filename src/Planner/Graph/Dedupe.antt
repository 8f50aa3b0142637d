-- ===== src/Planner/Graph/Dedupe.antt =====
-- dedupeGraphEdges (internal/planner/artifacts.go): the IDs and the edges that it keeps.
use nut_operator.Prelude.{
  ◌≤◌, ◌≡◌, refl, List, [], ◌∷◌, map, arith, if◌then◌else◌, ◌∙◌, ap, All, All-of_mem,
}
use mathlib.Core.List.{Memᴰ}
use nut_operator.Text.{Text, text_eq}
use nut_operator.Text.Laws.{text_eq→eq, text_eq_refl}
use nut_operator.Text.Sorting.{sort_by-All}
use nut_operator.Text.Maps.{contains, insert}
use nut_operator.Planner.Types.{GraphEdge}
use nut_operator.Planner.Graph.{edge_lt, edges_by_id, dedupe_graph_edges}
use nut_operator.Planner.Schedule.{keys}
use nut_operator.Planner.Schedule.Counts.{occurrences, occurrences-sort}

abbrev pub ids : List GraphEdge → List Text
ids es = map (λ (e : GraphEdge). e.id) es

abbrev kept : List (Text × GraphEdge) → List GraphEdge
kept m = map (λ (x : Text × GraphEdge). x.1) m

-- An entry stands under its edge's ID.
abbrev IsOwn : Text × GraphEdge → Type 0
IsOwn x = x.1.id ≡ x.0

keys-insert :
    (k : Text) (e : GraphEdge) (m : List (Text × GraphEdge)) (n : Text)
    → occurrences n (keys m) ≤ 1
    → occurrences n (keys (insert k e m)) ≡ (if text_eq k n then 1 else occurrences n (keys m))
unfolding keys insert
keys-insert k e [] n h = omega arith
keys-insert k e ((j, d) ∷ m) n h =
    ground
      (arith, keys-insert k e m n, text_eq→eq j k, text_eq→eq k n, text_eq_refl k, text_eq_refl n)

module _ {ℓ} (P : Text × GraphEdge → Type ℓ) where
  insert-All :
      (k : Text) (e : GraphEdge) (m : List (Text × GraphEdge))
      → P (k, e)
      → All P m
      → All P (insert k e m)
  unfolding insert
  insert-All k e [] p h = (p, tt)
  insert-All k e ((j, d) ∷ m) p h = ground (arith, insert-All k e m p h.1)

  edges_by_id-All :
      (es : List GraphEdge) (m : List (Text × GraphEdge))
      → All (λ (e : GraphEdge). P (e.id, e)) es
      → All P m
      → All P (edges_by_id m es)
  unfolding edges_by_id
  edges_by_id-All [] m p h = h
  edges_by_id-All (e ∷ es) m p h =
      edges_by_id-All es (insert e.id e m) p.1 (insert-All e.id e m p.0 h)

own_ids : (m : List (Text × GraphEdge)) → All IsOwn m → ids (kept m) ≡ keys m
unfolding keys
own_ids [] h = refl
own_ids ((k, e) ∷ m) h = ground (arith, h.0, own_ids m h.1)

kept-All :
    (P : GraphEdge → Type 0) (m : List (Text × GraphEdge))
    → All (λ (x : Text × GraphEdge). P x.1) m
    → All P (kept m)
kept-All P [] h = tt
kept-All P (x ∷ m) h = (h.0, kept-All P m h.1)

edges_by_id-keys :
    (es : List GraphEdge) (m : List (Text × GraphEdge)) (n : Text)
    → occurrences n (keys m) ≤ 1
    → occurrences n (keys (edges_by_id m es))
      ≡ (if contains (ids es) n then 1 else occurrences n (keys m))
unfolding edges_by_id contains
edges_by_id-keys [] m n h = refl
edges_by_id-keys (e ∷ es) m n h =
    ground (arith, keys-insert e.id e m n h, edges_by_id-keys es (insert e.id e m) n)

id_keyed : (es : List GraphEdge) → All (λ (e : GraphEdge). IsOwn (e.id, e)) es
id_keyed [] = tt
id_keyed (e ∷ es) = (refl, id_keyed es)

-- Deduplication keeps exactly one edge for each ID that the given edges have, no edge with another
-- ID, and only given edges.
pub dedupe_one_per_id :
    (es : List GraphEdge)
    → ((n : Text)
        → occurrences n (ids (dedupe_graph_edges es)) ≡ (if contains (ids es) n then 1 else 0))
      × All (λ (e : GraphEdge). Memᴰ e es) (dedupe_graph_edges es)
unfolding dedupe_graph_edges keys
dedupe_one_per_id es = (
  λ n.
      occurrences-sort edge_lt (λ (e : GraphEdge). e.id) n (kept (edges_by_id [] es))
      ∙ ap (occurrences n)
          (own_ids (edges_by_id [] es) (edges_by_id-All IsOwn es [] (id_keyed es) tt))
      ∙ edges_by_id-keys es [] n (omega arith),
  sort_by-All edge_lt (λ e. Memᴰ e es) (kept (edges_by_id [] es))
      (kept-All (λ e. Memᴰ e es) (edges_by_id [] es)
        (edges_by_id-All (λ x. Memᴰ x.1 es) es [] (All-of_mem (λ e. Memᴰ e es) es (λ e h. h)) tt)),
)
