-- ===== src/Planner/Compile/Accepted.antt =====
-- internal/planner: flows whose validation finds no error (compiler_validation.go) and their schedule
-- (compiler_scheduling.go).
use nut_operator.Prelude.{
  Bool, true, false, ◌≡◌, refl, List, [], ◌∷◌, ◌++◌, arith, Option, some, All, All-map, All-append,
  All-mapped, is_empty,
}
use nut_operator.Prelude.Int.{ℤ}
use nut_operator.Text.{Text}
use nut_operator.Text.Laws.{text_eq→eq, text_eq_refl}
use nut_operator.Text.Maps.{are_distinct, contains}
use nut_operator.Text.Sorting.{sort_by-All}
use nut_operator.Diagnostics.{Diagnostic, has_error, is_error}
use nut_operator.Planner.Types.{Group, GraphEdge, GraphVertex, StructuralInputs, Plan}
use nut_operator.Planner.Tiers.{effective_shutdown_tiers}
use nut_operator.Planner.Tiers.Shared.{findings_append}
use nut_operator.Planner.Graph.{sort_graph}
use nut_operator.Planner.Schedule.{names, Progress, done, compile_groups}
use nut_operator.Planner.Schedule.Counts.{occurrences}
use nut_operator.Planner.Schedule.Waves.{wave_names}
use nut_operator.Planner.Schedule.Order.{IsGroupGraph, flatten, Precedes, compiled_waves_ordered}
use nut_operator.Planner.Cycles.{has_group_cycle}
use nut_operator.Planner.Cycles.Equivalence.{no_cycle_iff}
use nut_operator.Planner.Clearance.Ordered.{clearance-All}
use nut_operator.Planner.Compile.{
  group_vertex_of, plan_of, build_group_graph_for_inputs, findings_by_part,
  validate_structural_inputs, compile_schedule,
}
use nut_operator.Planner.Compile.Validation.{
  findings_of, when, group_name_findings, group_names, unknown_findings, dependency_findings,
}
use nut_operator.Planner.Compile.Known.{
  IsKnown, IsWithin, DependsWithin, collected-IsSound, own_names,
}

both_without_error :
    (ds es : List Diagnostic)
    → has_error (ds ++ es) ≡ false
    → (has_error ds ≡ false) × (has_error es ≡ false)
both_without_error ds es h = ground (arith, findings_append ds es)

parts_without_error :
    (parts : List (List Diagnostic))
    → has_error (findings_of parts) ≡ false
    → All (λ ds. has_error ds ≡ false) parts
unfolding findings_of
parts_without_error [] h = tt
parts_without_error (ds ∷ rest) h =
    let (first, later) = both_without_error ds (findings_of rest) h in
    (first, parts_without_error rest later)

no_finding :
    (b : Bool) (d : Diagnostic)
    → is_error d.severity ≡ true
    → has_error (when b d) ≡ false
    → b ≡ false
unfolding has_error
no_finding true d e h = ground arith
no_finding false d e h = refl

-- Names that are not among some names and one more.
other_names :
    (n : Text) (seen : List Text) (gs : List Group)
    → All (λ (g : Group). contains (n ∷ seen) g.name ≡ false) gs
    → (contains (names gs) n ≡ false) × All (λ (g : Group). contains seen g.name ≡ false) gs
unfolding contains
other_names n seen [] h = (refl, tt)
other_names n seen (g ∷ gs) h =
    let (fresh, rest) = other_names n seen gs h.1 in
    (ground (arith, h.0, fresh, text_eq→eq g.name n, text_eq_refl n), (ground (arith, h.0), rest))

names_distinct :
    (seen : List Text) (gs : List Group)
    → has_error (group_name_findings seen [] gs) ≡ false
    → (are_distinct (names gs) ≡ true) × All (λ (g : Group). contains seen g.name ≡ false) gs
unfolding group_name_findings has_error contains
names_distinct seen [] h = (refl, tt)
names_distinct seen (g ∷ gs) h =
    let (new, rest) : (contains seen g.name ≡ false)
        × (has_error (group_name_findings (g.name ∷ seen) [] gs) ≡ false) =
      ground arith in
    let (distinct, apart) = names_distinct (g.name ∷ seen) gs rest in
    let (fresh, others) = other_names g.name seen gs apart in
    (ground (arith, distinct, fresh), (new, others))

group_names-names :
    (gs : List Group) (n : Text) → contains (group_names gs) n ≡ true → contains (names gs) n ≡ true
unfolding group_names contains
group_names-names [] n h = h
group_names-names (g ∷ gs) n h = ground (arith, h, group_names-names gs n)

unknown_findings-IsKnown :
    (known : List Text) (name : Text) (ds : List Text)
    → has_error (unknown_findings known name ds) ≡ false
    → All (IsKnown known) ds
unfolding unknown_findings has_error
unknown_findings-IsKnown known name [] h = tt
unknown_findings-IsKnown known name (d ∷ ds) h =
    ground (arith, h, unknown_findings-IsKnown known name ds)

dependency_findings-DependsWithin :
    (known : List Text) (gs : List Group)
    → has_error (dependency_findings known gs) ≡ false
    → All (DependsWithin known) gs
unfolding dependency_findings
dependency_findings-DependsWithin known [] h = tt
dependency_findings-DependsWithin known (g ∷ gs) h =
    let ds = g.requires ++ g.before ++ g.after in
    let (own, rest) =
      both_without_error (unknown_findings known g.name ds) (dependency_findings known gs) h in
    (unknown_findings-IsKnown known g.name ds own, dependency_findings-DependsWithin known gs rest)

module _ (communication : List GraphEdge) (input : StructuralInputs)
    (within : All (IsWithin (names input.groups)) communication) where
  built-IsGroupGraph :
      are_distinct (names input.groups) ≡ true
      → All (DependsWithin (names input.groups)) input.groups
      → IsGroupGraph input.groups (build_group_graph_for_inputs communication input)
  unfolding build_group_graph_for_inputs sort_graph
  built-IsGroupGraph distinct depends = record {
    distinct = distinct;
    vertices =
        sort_by-All _ (λ (v : GraphVertex). contains (names input.groups) v.id ≡ true) _
          (All-mapped (λ (v : GraphVertex). contains (names input.groups) v.id ≡ true)
            (group_vertex_of (effective_shutdown_tiers input.groups input.tier_policy)) input.groups
            (own_names input.groups));
    edges = sort_by-All _ (IsWithin (names input.groups)) _ (
        All-append (IsWithin (names input.groups)) _ _
          (All-append (IsWithin (names input.groups)) _ _
            (All-map (λ e h. h.0) _
              (collected-IsSound (names input.groups) input.groups input.tier_policy
                (own_names input.groups) depends))
            (All-map (λ e h. h.0) _ (clearance-All input.groups input.group_nodes)))
          within);
  }

  module _ (capability_findings inversion_findings : List Diagnostic)
      (accepted : has_error
          (validate_structural_inputs communication capability_findings inversion_findings input)
        ≡ false) where
    -- What the validation without an error says of the groups and of their graph.
    pub accepted-graph :
        All (DependsWithin (names input.groups)) input.groups
        × IsGroupGraph input.groups (build_group_graph_for_inputs communication input)
        × (has_group_cycle input.groups (build_group_graph_for_inputs communication input) ≡ false)
    unfolding validate_structural_inputs findings_by_part
    accepted-graph =
        let (_, (_, (_, (_, (_, (_, (_, (_, (named, (_, (_, (_, (known, (acyclic, _)))))))))))))) =
          parts_without_error
            (findings_by_part communication capability_findings inversion_findings input)
            accepted in
        let depends =
          All-map (λ g h. All-map (group_names-names input.groups) _ h) _
            (dependency_findings-DependsWithin (group_names input.groups) input.groups known) in
        (
          depends,
          built-IsGroupGraph (names_distinct [] input.groups named).0 depends,
          no_finding _ _ refl acyclic,
        )

    -- The schedule that it has.
    pub accepted-schedule :
        (parse : Text → Option ℤ) (linear_communication : List GraphEdge)
        → is_empty input.groups ≡ false
        → (p : Progress) × (compile_groups parse input.groups
              (build_group_graph_for_inputs communication input)
            ≡ done p)
          × (compile_schedule parse communication linear_communication input
              ≡ some (plan_of (build_group_graph_for_inputs communication input) p, []))
    unfolding compile_schedule
    accepted-schedule parse linear grouped =
        let graph = build_group_graph_for_inputs communication input in
        let (_, i, acyclic) = accepted-graph in
        let (p, compiled) = (no_cycle_iff input.groups graph i parse).0 acyclic in
        (p, compiled, rw (grouped, compiled) refl)

-- A flow with groups whose validation finds no error, and whose communication edges lead between
-- its groups, has a schedule without a diagnostic: its waves have each group exactly once, and
-- each edge of its graph leads from a group to one of a later wave.
pub accepted_flow_scheduled :
    (parse : Text → Option ℤ) (communication linear_communication : List GraphEdge)
    (capability_findings inversion_findings : List Diagnostic) (input : StructuralInputs)
    → is_empty input.groups ≡ false
    → All (IsWithin (names input.groups)) communication
    → has_error
        (validate_structural_inputs communication capability_findings inversion_findings input)
      ≡ false
    → (plan : Plan) × (compile_schedule parse communication linear_communication input
        ≡ some (plan, []))
      × ((n : Text)
          → occurrences n (flatten (wave_names plan.waves)) ≡ occurrences n (names input.groups))
      × All (λ (e : GraphEdge). Precedes e.source e.target (wave_names plan.waves)) plan.graph.edges
accepted_flow_scheduled parse communication linear capability inversion input grouped within
      accepted =
    let graph = build_group_graph_for_inputs communication input in
    let (_, i, _) = accepted-graph communication input within capability inversion accepted in
    let (p, compiled, scheduled) =
      accepted-schedule communication input within capability inversion accepted parse linear
        grouped in
    let (each_once, ordered) = compiled_waves_ordered parse input.groups graph p i compiled in
    (plan_of graph p, scheduled, each_once, ordered)
