-- ===== src/Diagnostics.antt =====
-- The finding record that the planner, the trigger evaluator, the telemetry normalizer and the
-- adaptive model share in shape (internal/planner/types.go, internal/trigger/evaluator.go,
-- internal/telemetry/normalize.go, internal/adaptive/pointer.go). A message is kept as the format
-- and the arguments given to it: printing is not modelled.
use Prim.Native.String.{String}
use mathlib.Core.Bool.{Bool, true, false, ◌||◌}
use mathlib.Core.List.{List, [], ◌∷◌}
use nut_operator.Text.{Text}
use nut_operator.Prelude.Int.{ℤ}

pub data Severity : Type 0 where
  error warning info : Severity

pub data Argument : Type 0 where
  text : Text → Argument
  number : ℤ → Argument

pub record Diagnostic : Type 0 where
  pub severity : Severity
  pub reason : String
  pub subject : Text
  pub format : String
  pub arguments : List Argument

abbrev pub is_error : Severity → Bool
is_error error = true
is_error warning = false
is_error info = false

-- `hasError` of the planner.
unfoldable pub has_error : List Diagnostic → Bool
has_error [] = false
has_error (d ∷ ds) = is_error d.severity || has_error ds
