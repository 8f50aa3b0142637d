-- ===== src/Planner/Graph/Ids.antt =====
-- graphEdgeID (internal/planner/artifacts.go): what the ID of an edge says of its ends.
use nut_operator.Prelude.{
  ℕ, Bool, true, false, ◌==◌, ◌≡◌, refl, List, [], ◌∷◌, ◌++◌, map, arith, if◌then◌else◌, ◌∙◌, sym,
  Bool-cases, inl, inr,
}
use mathlib.Core.List.{append_assoc}
use nut_operator.Text.{Text, text_eq, lower, codes}
use nut_operator.Text.Laws.{has_code, cut_at, text_eq→eq, text_eq_refl}
use nut_operator.Text.Maps.{are_distinct, contains}
use nut_operator.Planner.Types.{
  Relation, requires, before, after, linear_order, shutdown_tier, node_clearance,
  communication_path,
}
use nut_operator.Planner.Graph.{is_id_char, relation_text, safe_graph_id, graph_edge_id}

abbrev dashed : Text → Bool
dashed = has_code 45

safe_char : (c : ℕ) → ((if is_id_char c then c else 95) == 45) ≡ false
safe_char c = ground arith

safe_text : (cs : Text) → dashed (map (λ c. if is_id_char c then c else 95) cs) ≡ false
safe_text [] = refl
safe_text (c ∷ cs) = rw (safe_char c) (safe_text cs)

safe_not_dashed : (t : Text) → dashed (safe_graph_id t) ≡ false
unfolding safe_graph_id
safe_not_dashed [] = refl
safe_not_dashed (c ∷ cs) = safe_text (c ∷ cs)

relation_not_dashed : (r : Relation) → dashed (map lower (relation_text r)) ≡ false
unfolding lower
relation_not_dashed requires = refl
relation_not_dashed before = refl
relation_not_dashed after = refl
relation_not_dashed linear_order = refl
relation_not_dashed shutdown_tier = refl
relation_not_dashed node_clearance = refl
relation_not_dashed communication_path = refl

-- The ID, from its first dash on.
id_parts :
    (a b : Text) (r : Relation)
    → graph_edge_id a b r
      ≡ safe_graph_id a ++ 45 ∷ (map lower (relation_text r) ++ 45 ∷ safe_graph_id b)
unfolding graph_edge_id
id_parts a b r =
    append_assoc (safe_graph_id a ++ codes "-" ++ map lower (relation_text r)) (codes "-")
      (safe_graph_id b)
    ∙ append_assoc (safe_graph_id a ++ codes "-") (map lower (relation_text r)) _
    ∙ append_assoc (safe_graph_id a) (codes "-") _

-- Edges with one ID have ends with one safe name each.
pub edge_id_ends :
    (a b c d : Text) (r q : Relation)
    → graph_edge_id a b r ≡ graph_edge_id c d q
    → (safe_graph_id a ≡ safe_graph_id c) × (safe_graph_id b ≡ safe_graph_id d)
edge_id_ends a b c d r q h =
    let (first, rest) =
      cut_at 45 (safe_graph_id a) (safe_graph_id c) _ _ (safe_not_dashed a) (safe_not_dashed c)
        (sym (id_parts a b r) ∙ h ∙ id_parts c d q) in
    (
      first,
      (cut_at 45 (map lower (relation_text r)) (map lower (relation_text q)) _ _
          (relation_not_dashed r) (relation_not_dashed q) rest).1,
    )

contains-map :
    (f : Text → Text) (ns : List Text) (n : Text)
    → contains ns n ≡ true
    → contains (map f ns) (f n) ≡ true
unfolding contains
contains-map f [] n h = cc
contains-map f (k ∷ ns) n h = elim (Bool-cases (text_eq k n)) [
  | inl same ↦ rw (text_eq→eq k n same, text_eq_refl (f n)) refl
  | inr other ↦ ground (arith, contains-map f ns n, h, other)
]

-- Names that a function keeps apart are equal where it gives one value.
pub distinct_map_eq :
    (f : Text → Text) (ns : List Text) (a c : Text)
    → are_distinct (map f ns) ≡ true
    → contains ns a ≡ true
    → contains ns c ≡ true
    → f a ≡ f c
    → a ≡ c
unfolding contains
distinct_map_eq f [] a c h ha hc e = cc
distinct_map_eq f (n ∷ ns) a c h ha hc e = ground (
  arith,
  distinct_map_eq f ns a c,
  text_eq→eq n a,
  text_eq→eq n c,
  contains-map f ns a,
  contains-map f ns c,
  h,
  e,
)
