-- ===== src/Planner/Durations.antt =====
-- internal/planner/wait.go and the linear plans of compiler_scheduling.go. time.ParseDuration is an
-- argument of what reads a declared wait.
use nut_operator.Prelude.{
  ℕ, suc, Bool, not, ◌&&◌, List, [], ◌∷◌, ◌++◌, Option, none, some, if◌then◌else◌, arith,
}
use nut_operator.Prelude.Int.{ℤ, pos, ◌+ℤ◌, leb_ℤ, ltb_ℤ, pos_part, ◌≤ℤ◌}
use nut_operator.Prelude.Words.{wrap32, wrap64}
use nut_operator.Text.{Text, codes, text_eq, decimal}
use nut_operator.Text.Maps.{lookup}
use nut_operator.Planner.Types.{Target, Group, Step, CompiledStep}

-- A missing key reads as the empty string.
abbrev text_or_empty : Option Text → Text
text_or_empty none = []
text_or_empty (some t) = t

-- What does not parse, or is negative, is no pause.
abbrev pause : Option ℤ → ℤ
pause none = pos 0
pause (some d) = if ltb_ℤ d (pos 0) then pos 0 else d

unfoldable pub wait_duration_from_params : (Text → Option ℤ) → List (Text × Text) → ℤ
wait_duration_from_params parse params =
    pause (parse (text_or_empty (lookup (codes "duration") params)))

unfoldable pub bounded_wait_duration : ℤ → ℤ → ℤ
bounded_wait_duration duration timeout =
    if leb_ℤ duration (pos 0)
    then pos 0
    else if ltb_ℤ (pos 0) timeout && ltb_ℤ timeout duration
    then timeout
    else duration

abbrev pub is_wait : Text → Bool
is_wait action = text_eq action (codes "Wait")

unfoldable pub declared_group_duration : (Text → Option ℤ) → Group → ℤ
unfolding wait_duration_from_params bounded_wait_duration
declared_group_duration parse g =
    if is_wait g.action
    then bounded_wait_duration (wait_duration_from_params parse g.params) g.timeout
    else g.timeout

-- `%d` of a count above 0.
abbrev pub count_digits : ℤ → Text
count_digits n = decimal (suc (pos_part n)) (pos_part n) []

unfoldable pub summarize_target : Target → Text
unfolding decimal
summarize_target t =
    if t.node_selector
    then codes "nodes selected by label selector"
    else if t.namespace_selector
    then codes "namespaces selected by label selector"
    else if t.workload_selector
    then codes "workloads selected by label selector"
    else if ltb_ℤ (pos 0) t.agent_ref_count
    then count_digits t.agent_ref_count ++ codes " node power agent fleet(s)"
    else if ltb_ℤ (pos 0) t.workload_ref_count
    then count_digits t.workload_ref_count ++ codes " workload(s)"
    else if ltb_ℤ (pos 0) t.namespace_count
    then count_digits t.namespace_count ++ codes " namespace(s)"
    else codes "no explicit target"

-- What one linear step adds to the running total, by the loop's two statements.
unfoldable pub first_addend : Step → ℤ
unfolding bounded_wait_duration
first_addend s =
    if is_wait s.action
    then bounded_wait_duration s.duration s.timeout
    else if ltb_ℤ (pos 0) s.duration
    then s.duration
    else pos 0

unfoldable pub second_addend : Step → ℤ
second_addend s = if ltb_ℤ (pos 0) s.timeout && not (is_wait s.action) then s.timeout else pos 0

unfoldable pub compile_steps_from : ℤ → ℕ → List Step → List CompiledStep × ℤ
unfolding first_addend second_addend summarize_target
compile_steps_from cumulative index [] = ([], cumulative)
compile_steps_from cumulative index (s ∷ ss) =
    let total = wrap64 (wrap64 (cumulative +ℤ first_addend s) +ℤ second_addend s) in
    let (rest, end) = compile_steps_from total (suc index) ss in
    (
      record {
        id = s.id;
        index = wrap32 (pos index);
        action = s.action;
        shutdown_tier = none;
        target_summary = summarize_target s.target;
        cumulative_duration = total;
      }
          ∷ rest,
      end,
    )

unfoldable pub compile_steps : List Step → List CompiledStep × ℤ
unfolding compile_steps_from
compile_steps ss = compile_steps_from (pos 0) 0 ss

-- With a timeout above 0, a bounded wait is never negative, never above the timeout, and never above
-- the declared wait where that is above 0, and 0 where it is not.
pub bounded_wait_bounds :
    (duration timeout : ℤ)
    → pos 1 ≤ℤ timeout
    → (pos 0 ≤ℤ bounded_wait_duration duration timeout)
      × (bounded_wait_duration duration timeout ≤ℤ timeout)
      × (bounded_wait_duration duration timeout
          ≤ℤ (if leb_ℤ duration (pos 0) then pos 0 else duration))
unfolding bounded_wait_duration
bounded_wait_bounds duration timeout h = (ground arith, ground arith, ground arith)
