-- ===== src/Planner/Cycles.antt =====
-- internal/planner/compiler_validation.go: the search for a cycle of groups.
mod Walks
pub mod Ends
pub mod Equivalence
use nut_operator.Prelude.{ℕ, zero, suc, ◌+◌, Bool, true, false, List, [], ◌∷◌, length}
use nut_operator.Text.{Text}
use nut_operator.Text.Maps.{contains}
use nut_operator.Planner.Types.{Group, Graph}
use nut_operator.Planner.Schedule.{successors_of, graph_successors, names}

-- A cycle, the names visited, or more nested visits than the fuel.
pub data Walk : Type 0 where
  found : Walk
  walked : List Text → Walk
  out_of_fuel : Walk

-- The loops over names, which end at a cycle.
abbrev pub and_then : Walk → (List Text → Walk) → Walk
and_then found next = found
and_then out_of_fuel next = out_of_fuel
and_then (walked visited) next = next visited

unfoldable pub visit_all : (List Text → Text → Walk) → List Text → List Text → Walk
visit_all step visited [] = walked visited
visit_all step visited (n ∷ ns) = and_then (step visited n) (λ more. visit_all step more ns)

-- A visit: whether the name is on the path, whether it was visited, and what its successors come to.
abbrev pub enter : Text → Bool → Bool → List Text → Walk → Walk
enter n true seen visited deeper = found
enter n false true visited deeper = walked visited
enter n false false visited deeper = and_then deeper (λ more. walked (n ∷ more))

-- `visit`: the names that are being visited are the path.
unfoldable pub visit : (Text → List Text) → ℕ → List Text → List Text → Text → Walk
unfolding visit_all contains
visit succ zero path visited n = out_of_fuel
visit succ (suc f) path visited n =
    enter n (contains path n) (contains visited n) visited
      (visit_all (visit succ f (n ∷ path)) visited (succ n))

abbrev pub is_cyclic : Walk → Bool
is_cyclic found = true
is_cyclic (walked visited) = false
is_cyclic out_of_fuel = true

-- A name that is visited is a group or the end of an edge, and stands on the path once.
abbrev pub walk_fuel : List Group → Graph → ℕ
walk_fuel gs g = suc (length gs + length g.edges)

unfoldable pub walk_groups : List Group → Graph → Walk
unfolding visit graph_successors
walk_groups gs g =
    visit_all (visit (successors_of (graph_successors g)) (walk_fuel gs g) []) [] (names gs)

-- `hasGroupCycle` of a group graph.
unfoldable pub has_group_cycle : List Group → Graph → Bool
unfolding walk_groups
has_group_cycle gs g = is_cyclic (walk_groups gs g)
