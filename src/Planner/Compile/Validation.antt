-- ===== src/Planner/Compile/Validation.antt =====
-- internal/planner: what the parts of validateStructuralInputs find (compiler_validation.go), with
-- validateTierPolicy (tiers.go) and reportDefaultedShutdownTiers (nodes.go).
use Prim.Native.String.{String}
use nut_operator.Prelude.{
  Bool, true, false, not, ◌&&◌, ◌||◌, List, [], ◌∷◌, ◌++◌, Option, none, some, if◌then◌else◌, suc,
  is_empty,
}
use nut_operator.Prelude.Int.{ℤ, pos, negsuc, ltb_ℤ}
use nut_operator.Text.{Text, codes}
use nut_operator.Text.Maps.{contains}
use nut_operator.Diagnostics.{Diagnostic, Severity, error, info, Argument, text, number}
use nut_operator.Planner.Types.{Group, Step, TierDefinition, TierSelector, TierPolicy}
use nut_operator.Planner.Durations.{count_digits}
use nut_operator.Planner.Tiers.{is_some, effective_default_shutdown_tier}
use nut_operator.Planner.Graph.{has_tier}

abbrev pub finding : Severity → String → Text → String → List Argument → Diagnostic
finding severity reason subject format arguments = record {
  severity = severity;
  reason = reason;
  subject = subject;
  format = format;
  arguments = arguments;
}

abbrev pub when : Bool → Diagnostic → List Diagnostic
when true d = d ∷ []
when false d = []

-- Findings one after another.
unfoldable pub findings_of : List (List Diagnostic) → List Diagnostic
findings_of [] = []
findings_of (ds ∷ rest) = ds ++ findings_of rest

-- `%d`.
abbrev tier_digits : ℤ → Text
tier_digits (pos n) = count_digits (pos n)
tier_digits (negsuc n) = 45 ∷ count_digits (pos (suc n))

abbrev default_finding : Option ℤ → List Diagnostic
default_finding none = []
default_finding (some t) = when (ltb_ℤ t (pos 2)) (
    finding error "ShutdownTierDefaultReserved" []
      "shutdown tier default must be 2 or greater; tiers 0 and 1 are reserved" [])

unfoldable pub definition_findings : List ℤ → List TierDefinition → List Diagnostic
definition_findings seen [] = []
definition_findings seen (d ∷ ds) =
    when (ltb_ℤ d.tier (pos 0)) (
      finding error "ShutdownTierInvalid" d.name "shutdown tier %d must be zero or greater"
        (number d.tier ∷ []))
    ++ when (has_tier d.tier seen) (
        finding error "DuplicateShutdownTier" (tier_digits d.tier)
          "shutdown tier %d is defined more than once" (number d.tier ∷ []))
    ++ definition_findings (d.tier ∷ seen) ds

unfoldable pub rule_findings : List Text → List TierSelector → List Diagnostic
rule_findings seen [] = []
rule_findings seen (r ∷ rs) =
    when (is_empty r.name) (
      finding error "ShutdownTierRuleNameRequired" []
        "every shutdown tier selector rule requires a name" [])
    ++ when (not (is_empty r.name) && contains seen r.name) (
        finding error "DuplicateShutdownTierRule" r.name
          "shutdown tier selector rule %q is duplicated" (text r.name ∷ []))
    ++ when (ltb_ℤ r.tier (pos 0)) (
        finding error "ShutdownTierInvalid" r.name
          "shutdown tier selector rule %q assigns invalid tier %d"
          (text r.name ∷ number r.tier ∷ []))
    ++ rule_findings (r.name ∷ seen) rs

unfoldable pub validate_tier_policy : TierPolicy → List Diagnostic
unfolding definition_findings rule_findings
validate_tier_policy p =
    default_finding p.default_tier
    ++ definition_findings [] p.definitions
    ++ rule_findings [] p.selector_rules

abbrev pub defaulted_finding : ℤ → Group → List Diagnostic
defaulted_finding default g = when (not (is_empty g.name || is_some g.shutdown_tier)) (
    finding info "ShutdownTierDefaulted" g.name
      "shutdown group %q declares no tier and was placed at the default tier %d"
      (text g.name ∷ number default ∷ []))

unfoldable pub defaulted_findings : Option ℤ → List Group → List Diagnostic
defaulted_findings none gs = []
defaulted_findings (some t) [] = []
defaulted_findings (some t) (g ∷ gs) = defaulted_finding t g ++ defaulted_findings (some t) gs

unfoldable pub report_defaulted_shutdown_tiers : List Group → TierPolicy → List Diagnostic
unfolding defaulted_findings
report_defaulted_shutdown_tiers gs p = defaulted_findings (effective_default_shutdown_tier gs p) gs

-- The steps, after the IDs seen and those reported.
unfoldable pub step_findings : List Text → List Text → List Step → List Diagnostic
step_findings seen reported [] = []
step_findings seen reported (s ∷ ss) =
    let nameless = step_findings seen reported ss in
    let fresh = step_findings (s.id ∷ seen) reported ss in
    let repeated = step_findings (s.id ∷ seen) (s.id ∷ reported) ss in
    when s.continue_on_error (
      finding error "ContinueOnErrorUnsupported" s.id
        "v1 stops after action failure; continueOnError must be false" [])
    ++ (if is_empty s.id
        then finding error "StepIDRequired" [] "every shutdown step requires an id" [] ∷ nameless
        else if contains seen s.id && not (contains reported s.id)
        then finding error "DuplicateStepID" s.id "shutdown step id %q is duplicated"
            (text s.id ∷ [])
          ∷ repeated
        else fresh)

-- The groups' names, after the names seen and those reported.
unfoldable pub group_name_findings : List Text → List Text → List Group → List Diagnostic
group_name_findings seen reported [] = []
group_name_findings seen reported (g ∷ gs) =
    let nameless = group_name_findings seen reported gs in
    let fresh = group_name_findings (g.name ∷ seen) reported gs in
    let repeated = group_name_findings (g.name ∷ seen) (g.name ∷ reported) gs in
    if is_empty g.name
    then finding error "GroupNameRequired" [] "every shutdown group requires a name" [] ∷ nameless
    else if contains seen g.name && not (contains reported g.name)
    then finding error "DuplicateGroupName" g.name "shutdown group name %q is duplicated"
        (text g.name ∷ [])
      ∷ repeated
    else fresh

-- The set `groupNames` after its loop.
unfoldable pub group_names : List Group → List Text
group_names [] = []
group_names (g ∷ gs) = let rest = group_names gs in if is_empty g.name then rest else g.name ∷ rest

unfoldable pub unknown_findings : List Text → Text → List Text → List Diagnostic
unknown_findings known name [] = []
unknown_findings known name (d ∷ ds) =
    when (not (contains known d)) (
      finding error "UnknownDependency" name "shutdown group %q references unknown dependency %q"
        (text name ∷ text d ∷ []))
    ++ unknown_findings known name ds

unfoldable pub dependency_findings : List Text → List Group → List Diagnostic
unfolding unknown_findings
dependency_findings known [] = []
dependency_findings known (g ∷ gs) =
    unknown_findings known g.name (g.requires ++ g.before ++ g.after)
    ++ dependency_findings known gs

abbrev joined_texts : Text → List Text → Text
joined_texts separator [] = []
joined_texts separator (t ∷ []) = t
joined_texts separator (t ∷ u ∷ ts) = t ++ separator ++ joined_texts separator (u ∷ ts)

abbrev pub not_schedulable : List Text → Diagnostic
not_schedulable ks =
    finding error "PlanNotSchedulable" (joined_texts (codes ",") ks)
      "shutdown groups %s never became schedulable, so wave descent could not finish; this is a planner defect rather than a flow error, because a dependency cycle is rejected as DependencyCycle before this point"
      (text (joined_texts (codes ", ") ks) ∷ [])
