-- ===== src/Telemetry/Aliases.antt =====
-- `applyAliases` of internal/telemetry/normalize.go.
use Prim.Native.String.{String}
use nut_operator.Prelude.{
  Bool, ◌||◌, List, [], ◌∷◌, ◌++◌, Option, none, some, if◌then◌else◌, is_empty,
}
use nut_operator.Text.{Text, text_eq, text_lt}
use nut_operator.Text.Maps.{lookup, insert}
use nut_operator.Text.Sorting.{sort_by}
use nut_operator.Diagnostics.{Diagnostic, Argument, text, warning}

abbrev pub Variables : Type 0
Variables = List (Text × Text)

abbrev pub alias_diagnostic : String → Text → String → List Argument → Diagnostic
alias_diagnostic reason to format arguments = record {
  severity = warning;
  reason = reason;
  subject = to;
  format = format;
  arguments = arguments;
}

abbrev pub shadowed : Text → Text → Diagnostic
shadowed from to =
    alias_diagnostic "AliasShadowedByNativeVariable" to
      "NUT variable %s is reported natively, so the profile alias from %s was not applied"
      (text to ∷ text from ∷ [])

abbrev pub collision : Text → Text → Text → Diagnostic
collision previous from to =
    alias_diagnostic "AliasCollision" to
      "NUT variable %s was already aliased from %s, so the alias from %s was not applied"
      (text to ∷ text previous ∷ text from ∷ [])

abbrev pub alias_applied : Text → Text → Diagnostic
alias_applied from to =
    alias_diagnostic "AliasApplied" to
      "NUT variable %s arrived under the non-standard name %s and was resolved by the matched capability profile"
      (text to ∷ text from ∷ [])

-- The variables, and for each name that an alias was applied to the name it came from.
pub record Aliasing : Type 0 where
  pub variables : Variables
  pub applied : List (Text × Text)

abbrev pub is_trivial : Text → Text → Bool
is_trivial from to = is_empty from || is_empty to || text_eq from to

-- An alias whose source is reported.
abbrev pub place :
    Text → Text → Text → Option Text → Option Text → Aliasing → Aliasing × List Diagnostic
place from to reported (some native) taken s = (s, shadowed from to ∷ [])
place from to reported none (some previous) s = (s, collision previous from to ∷ [])
place from to reported none none s = (
  record { variables = insert to reported s.variables; applied = insert to from s.applied },
  alias_applied from to ∷ [],
)

-- One alias of the loop.
unfoldable pub apply_alias : Text → Text → Aliasing → Aliasing × List Diagnostic
unfolding lookup insert text_eq
apply_alias from to s = if is_trivial from to then (s, []) else elim (lookup from s.variables) [
  | none ↦ (s, [])
  | some reported ↦ place from to reported (lookup to s.variables) (lookup to s.applied) s
]

unfoldable pub apply_each : List (Text × Text) → Aliasing → Aliasing × List Diagnostic
unfolding apply_alias
apply_each [] s = (s, [])
apply_each ((from, to) ∷ aliases) s =
    let (next, first) = apply_alias from to s in
    let (last, rest) = apply_each aliases next in (last, first ++ rest)

abbrev pub source_lt : Text × Text → Text × Text → Bool
source_lt a b = text_lt a.0 b.0

unfoldable pub apply_aliases : Variables → List (Text × Text) → Variables × List Diagnostic
unfolding apply_each sort_by text_lt
apply_aliases variables aliases =
    if is_empty variables || is_empty aliases
    then (variables, [])
    else let (last, diagnostics) =
        apply_each (sort_by source_lt aliases) (record { variables = variables; applied = [] }) in
      (last.variables, diagnostics)
