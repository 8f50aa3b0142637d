-- ===== src/Planner/Schedule/Waves.antt =====
-- One wave of compileGroups (internal/planner/compiler_scheduling.go) and the schedule a graph asks for.
use nut_operator.Prelude.{
  suc, ◌+◌, ◌<◌, ◌≡◌, refl, List, [], ◌∷◌, ◌++◌, map, arith, some, ◌∙◌, ap, sym, length,
}
use nut_operator.Prelude.Int.{pos}
use nut_operator.Text.{Text, text_lt}
use nut_operator.Text.Laws.{text_eq_refl}
use nut_operator.Text.Sorting.{sort_by, sort_texts}
use nut_operator.Text.Maps.{lookup}
use nut_operator.Planner.Types.{Group, Wave}
use nut_operator.Planner.Schedule.{
  SuccessorMap, Indegrees, successors_of, group_or_zero, keys, ready, name_lt, names, wave_groups,
  Descent, stalled, done, out_of_fuel,
}
use nut_operator.Planner.Schedule.Counts.{occurrences, indegree, occurrences-sort}
use nut_operator.Planner.Schedule.Maps.{occurrences-ready, lookup-ready, ready_of_lookup}
use nut_operator.Planner.Schedule.Removal.{IsCounted, IsTakeable}

-- A list of waves over the groups that remain: each wave holds exactly the groups that no edge from
-- a remaining group leads to, and the next ones are a schedule of the groups that are left.
abbrev pub Schedules : (Text → List Text) → List Text → List (List Text) → Type 0
Schedules succ rest [] = (n : Text) → occurrences n rest ≡ 0
Schedules succ rest (w ∷ ws) =
    ((n : Text) → 0 < occurrences n w → indegree succ rest n ≡ 0)
    × ((n : Text) → 0 < occurrences n rest → indegree succ rest n ≡ 0 → 0 < occurrences n w)
    × ((left : List Text) × ((n : Text) → occurrences n rest ≡ occurrences n w + occurrences n left)
        × Schedules succ left ws)

-- Groups that wait for one another: there are some, and an edge from one of them leads to each.
pub record IsStuck (succ : Text → List Text) (ks : List Text) : Type 0 where
  pub rest : List Text
  pub reported : (n : Text) → occurrences n ks ≡ occurrences n rest
  pub some_group : Text
  pub remains : 0 < occurrences some_group rest
  pub waiting : (n : Text) → 0 < occurrences n rest → 0 < indegree succ rest n

abbrev pub wave_names : List Wave → List (List Text)
wave_names ws = map (λ (w : Wave). w.groups) ws

-- What a descent may come to.
abbrev pub Meets : (Text → List Text) → List (List Text) → List Text → Descent → Type 0
Meets succ before rest (stalled ks) = IsStuck succ ks
Meets succ before rest (done q) =
    (ws : List (List Text)) × (wave_names q.waves ≡ before ++ ws) × Schedules succ rest ws
Meets succ before rest out_of_fuel = ⊥

-- Every remaining name is a group's.
abbrev pub AreNamed : List (Text × Group) → List Text → Type 0
AreNamed by_name ks =
    (n : Text) → 0 < occurrences n ks → (group_or_zero (lookup n by_name)).name ≡ n

found_names :
    (by_name : List (Text × Group)) (n : Text) (ks : List Text)
    → AreNamed by_name ks
    → occurrences n (names (map (λ k. group_or_zero (lookup k by_name)) ks)) ≡ occurrences n ks
found_names by_name n [] h = refl
found_names by_name n (k ∷ ks) h =
    ground (arith, h k, text_eq_refl k, found_names by_name n ks (λ x hx. h x (omega arith)))

wave_groups-names :
    (by_name : List (Text × Group)) (m : Indegrees) (n : Text)
    → AreNamed by_name (keys m)
    → occurrences n (names (wave_groups by_name m)) ≡ occurrences n (ready m)
unfolding wave_groups
wave_groups-names by_name m n h =
    occurrences-sort name_lt (λ (g : Group). g.name) n
      (map (λ k. group_or_zero (lookup k by_name)) (ready m))
    ∙ found_names by_name n (ready m) (λ x hx. h x (omega (arith, occurrences-ready x m)))

length-names : (gs : List Group) → length (names gs) ≡ length gs
length-names [] = refl
length-names (g ∷ gs) = ap suc (length-names gs)

module _ (edges : SuccessorMap) (by_name : List (Text × Group)) (m : Indegrees)
    (i : IsCounted (successors_of edges) m) (named : AreNamed by_name (keys m)) where
  ready_free :
      (n : Text) → 0 < occurrences n (ready m) → indegree (successors_of edges) (keys m) n ≡ 0
  ready_free n h =
      ground (
        arith,
        lookup-ready n m (i.distinct n) h,
        i.counted n (omega (arith, occurrences-ready n m)),
      )

  free_ready :
      (n : Text)
      → 0 < occurrences n (keys m)
      → indegree (successors_of edges) (keys m) n ≡ 0
      → 0 < occurrences n (ready m)
  free_ready n h z = ready_of_lookup n m (i.counted n h ∙ ap (λ c. some (pos c)) z)

  pub wave-IsTakeable : IsTakeable edges (names (wave_groups by_name m)) m
  wave-IsTakeable = record {
    present = λ n. omega (arith, wave_groups-names by_name m n named, occurrences-ready n m);
    free = λ n h. ready_free n (omega (arith, wave_groups-names by_name m n named));
  }

  pub wave_complete :
      (n : Text)
      → 0 < occurrences n (keys m)
      → indegree (successors_of edges) (keys m) n ≡ 0
      → 0 < occurrences n (names (wave_groups by_name m))
  wave_complete n h z = omega (arith, free_ready n h z, wave_groups-names by_name m n named)

map_same : (ks : List Text) → map (λ (k : Text). k) ks ≡ ks
map_same [] = refl
map_same (k ∷ ks) = ap (λ r. k ∷ r) (map_same ks)

pub occurrences-sort_texts :
    (n : Text) (ks : List Text) → occurrences n (sort_texts ks) ≡ occurrences n ks
unfolding sort_texts
occurrences-sort_texts n ks =
    ap (occurrences n) (sym (map_same (sort_by text_lt ks)))
    ∙ occurrences-sort text_lt (λ k. k) n ks
    ∙ ap (occurrences n) (map_same ks)
