-- ===== src/Trigger/Evaluator.antt =====
-- The decisions: one trigger against one device, one trigger against all, and all triggers.
use Prim.Native.String.{String}
use nut_operator.Prelude.{
  ℕ, suc, Bool, true, false, not, ◌&&◌, ◌||◌, List, [], ◌∷◌, ◌++◌, if◌then◌else◌, Option, none,
  some, is_empty,
}
use nut_operator.Prelude.Int.{ℤ, pos, ◌+ℤ◌, leb_ℤ, ltb_ℤ}
use nut_operator.Text.{Text, codes, text_eq}
use nut_operator.Text.Sorting.{sort_texts}
use nut_operator.Text.Maps.{contains, add_key, lookup}
use nut_operator.Diagnostics.{Diagnostic, error, warning, info, text}
use nut_operator.Trigger.Inputs.{
  Trigger, UpsState, HoldState, Inputs, Decision, DecisionReason, condition_false,
  trigger_hold_pending, trigger_eligible, Evaluation, EvaluationReason, approved_eligible,
  hold_pending, no_triggers_configured, no_trigger_matched, string_set, normalize_trigger,
  normalize_ups_states, hold_key, hold_index, sort_holds,
}

-- The trigger classes that the evaluator switches on.
pub data Class : Type 0 where
  on_battery low_battery runtime_below charge_below telemetry_stale unsupported : Class

unfoldable pub class_of : Text → Class
class_of t =
    if text_eq t (codes "OnBattery")
    then on_battery
    else if text_eq t (codes "LowBattery")
    then low_battery
    else if text_eq t (codes "RuntimeBelow")
    then runtime_below
    else if text_eq t (codes "ChargeBelow")
    then charge_below
    else if text_eq t (codes "TelemetryStale")
    then telemetry_stale
    else unsupported

pub data MatchOutcome : Type 0 where
  outcome_false outcome_matched outcome_unavailable : MatchOutcome

abbrev pub is_matched : MatchOutcome → Bool
is_matched outcome_matched = true
is_matched outcome_false = false
is_matched outcome_unavailable = false

abbrev pub is_unavailable : MatchOutcome → Bool
is_unavailable outcome_unavailable = true
is_unavailable outcome_matched = false
is_unavailable outcome_false = false

abbrev pub bool_outcome : Bool → MatchOutcome
bool_outcome true = outcome_matched
bool_outcome false = outcome_false

unfoldable pub missing_trigger_value : Text → String → String → Diagnostic
missing_trigger_value id reason field = record {
  severity = error;
  reason = reason;
  subject = id;
  format = "trigger %q requires %s";
  arguments = text id ∷ text (codes field) ∷ [];
}

unfoldable pub missing_telemetry_value : Text → Text → String → String → Diagnostic
missing_telemetry_value id device reason value_name = record {
  severity = warning;
  reason = reason;
  subject = device;
  format = "trigger %q selected UPSDevice %q but %s telemetry is missing";
  arguments = text id ∷ text device ∷ text (codes value_name) ∷ [];
}

-- A value against its threshold: the threshold first, then the telemetry.
abbrev pub threshold_outcome :
    Option ℤ → Option ℤ → Diagnostic → Diagnostic → MatchOutcome × List Diagnostic
threshold_outcome none value no_threshold no_value = (outcome_false, no_threshold ∷ [])
threshold_outcome (some limit) none no_threshold no_value = (outcome_unavailable, no_value ∷ [])
threshold_outcome (some limit) (some value) no_threshold no_value =
    (bool_outcome (leb_ℤ value limit), [])

abbrev pub phase_is : UpsState → String → Bool
phase_is s name = text_eq s.phase (codes name)

unfoldable pub evaluate_class : Class → Text → Trigger → UpsState → MatchOutcome × List Diagnostic
unfolding missing_trigger_value missing_telemetry_value
evaluate_class on_battery name t s =
    (bool_outcome (s.on_battery || phase_is s "OnBattery" || phase_is s "LowBattery"), [])
evaluate_class low_battery name t s = (bool_outcome (s.low_battery || phase_is s "LowBattery"), [])
evaluate_class runtime_below name t s =
    threshold_outcome t.runtime_below_seconds s.runtime_seconds
      (missing_trigger_value t.id "RuntimeThresholdMissing" "runtimeBelowSeconds")
      (missing_telemetry_value t.id s.ups_device "RuntimeTelemetryMissing" "runtime remaining")
evaluate_class charge_below name t s =
    threshold_outcome t.charge_below_percent s.charge_percent
      (missing_trigger_value t.id "ChargeThresholdMissing" "chargeBelowPercent")
      (missing_telemetry_value t.id s.ups_device "ChargeTelemetryMissing" "battery charge")
evaluate_class telemetry_stale name t s =
    (bool_outcome (s.stale || phase_is s "Stale" || phase_is s "Unavailable"), [])
evaluate_class unsupported name t s = (
  outcome_false,
  record {
    severity = error;
    reason = "TriggerTypeUnsupported";
    subject = t.id;
    format = "trigger %q has unsupported type %q";
    arguments = text t.id ∷ text name ∷ [];
  }
      ∷ [],
)

unfoldable pub evaluate_trigger_class : Text → Trigger → UpsState → MatchOutcome × List Diagnostic
unfolding evaluate_class
evaluate_trigger_class class t s = evaluate_class (class_of class) class t s

-- `triggerMatchesState`.
unfoldable pub trigger_matches_state : Trigger → UpsState → Bool × List Diagnostic
trigger_matches_state t s =
    let (outcome, found) = evaluate_trigger_class t.class t s in
    if not (is_unavailable outcome) || is_empty t.fallback
    then (is_matched outcome, found)
    else let (second, found') = evaluate_trigger_class t.fallback t s in
      if is_unavailable second then (false, found ++ found') else (
        is_matched second,
        found'
            ++ record {
              severity = info;
              reason = "TriggerFallbackApplied";
              subject = t.id;
              format =
                  "trigger %q evaluated %q for %q, which does not report the telemetry %q needs";
              arguments = text t.id ∷ text t.fallback ∷ text s.ups_device ∷ text t.class ∷ [];
            }
              ∷ [],
      )

abbrev pub contains_any : List Text → List Text → Bool
contains_any set [] = false
contains_any set (d ∷ ds) = contains set d || contains_any set ds

abbrev pub selects : List Text → List Text → UpsState → Bool
selects devices domains s = contains devices s.ups_device || contains_any domains s.power_domains

unfoldable pub keep : List Text → List Text → List UpsState → List UpsState
keep devices domains [] = []
keep devices domains (s ∷ ss) =
    let rest = keep devices domains ss in if selects devices domains s then s ∷ rest else rest

unfoldable pub select_ups_states : Trigger → List UpsState → List UpsState
unfolding keep
select_ups_states t ss =
    if is_empty (string_set t.ups_devices) && is_empty (string_set t.power_domains)
    then ss
    else keep (string_set t.ups_devices) (string_set t.power_domains) ss

-- What the loop over the candidates has gathered.
pub record Scan : Type 0 where
  pub matched : Bool
  pub eligible : Bool
  pub selected : List Text
  pub next_holds : List HoldState
  pub earliest_hold : Option ℤ
  pub earliest_eligible : Option ℤ
  pub diagnostics : List Diagnostic

abbrev pub empty_scan : Scan
empty_scan = record {
  matched = false;
  eligible = false;
  selected = [];
  next_holds = [];
  earliest_hold = none;
  earliest_eligible = none;
  diagnostics = [];
}

abbrev pub started_or : Option HoldState → ℤ → ℤ
started_or none now = now
started_or (some h) now = h.started_at

abbrev pub earlier : Option ℤ → ℤ → Option ℤ
earlier none t = some t
earlier (some e) t = if ltb_ℤ t e then some t else some e

module _ (now : ℤ) (t : Trigger) (holds : List (Text × HoldState)) where
  -- When the condition began to hold for a device, and when it has held long enough.
  abbrev pub started : UpsState → ℤ
  started s = started_or (lookup (hold_key t.id s.ups_device) holds) now

  abbrev pub eligible_from : UpsState → ℤ
  eligible_from s = started s +ℤ t.hold_for

  abbrev pub is_due : UpsState → Bool
  is_due s = leb_ℤ t.hold_for (pos 0) || not (ltb_ℤ now (eligible_from s))

  -- The loop's body on one candidate.
  unfoldable pub visit : Scan → UpsState → Scan
  visit scan s =
      let (matches, found) = trigger_matches_state t s in
      if not matches then record scan { diagnostics = scan.diagnostics ++ found } else record {
        matched = true;
        eligible = scan.eligible || is_due s;
        selected = if is_due s then scan.selected ++ s.ups_device ∷ [] else scan.selected;
        next_holds =
            scan.next_holds
            ++ record { trigger_id = t.id; ups_device = s.ups_device; started_at = started s } ∷ [];
        earliest_hold = earlier scan.earliest_hold (started s);
        earliest_eligible = earlier scan.earliest_eligible (eligible_from s);
        diagnostics = scan.diagnostics ++ found;
      }

  unfoldable pub scan_all : Scan → List UpsState → Scan
  scan_all scan [] = scan
  scan_all scan (s ∷ ss) = scan_all (visit scan s) ss

  abbrev decision_reason : Scan → DecisionReason
  decision_reason scan =
      if scan.eligible
      then trigger_eligible
      else if scan.matched
      then trigger_hold_pending
      else condition_false

  decide : Scan → Decision × List HoldState × List Diagnostic
  decide scan = (
    record {
      trigger_id = t.id;
      class = t.class;
      matched = scan.matched;
      eligible = scan.eligible;
      reason = decision_reason scan;
      selected_ups_devices = sort_texts scan.selected;
      hold_started_at = scan.earliest_hold;
      eligible_at = scan.earliest_eligible;
    },
    scan.next_holds,
    scan.diagnostics,
  )

  abbrev no_candidates : Decision × List HoldState × List Diagnostic
  no_candidates = (
    record {
      trigger_id = t.id;
      class = t.class;
      matched = false;
      eligible = false;
      reason = condition_false;
      selected_ups_devices = [];
      hold_started_at = none;
      eligible_at = none;
    },
    [],
    record {
      severity = warning;
      reason = "TriggerSelectionEmpty";
      subject = t.id;
      format = "trigger %q selected no UPS telemetry states";
      arguments = text t.id ∷ [];
    }
        ∷ [],
  )

  unfoldable pub evaluate_trigger : List UpsState → Decision × List HoldState × List Diagnostic
  unfolding decide
  evaluate_trigger ss =
      if is_empty (select_ups_states t ss)
      then no_candidates
      else decide (scan_all empty_scan (select_ups_states t ss))

-- What the loop over the triggers has gathered.
pub record Totals : Type 0 where
  pub approved : Bool
  pub selected : List Text
  pub decisions : List Decision
  pub holds : List HoldState
  pub diagnostics : List Diagnostic
  pub matched_count : ℕ

abbrev pub empty_totals : Totals
empty_totals = record {
  approved = false;
  selected = [];
  decisions = [];
  holds = [];
  diagnostics = [];
  matched_count = 0;
}

abbrev pub add_keys : List Text → List Text → List Text
add_keys set [] = set
add_keys set (k ∷ ks) = add_keys (add_key k set) ks

unfoldable pub tally : Totals → Decision × List HoldState × List Diagnostic → Totals
tally totals (d, next_holds, found) = record {
  approved = totals.approved || d.eligible;
  selected =
      if d.eligible then add_keys totals.selected d.selected_ups_devices else totals.selected;
  decisions = totals.decisions ++ d ∷ [];
  holds = totals.holds ++ next_holds;
  diagnostics = totals.diagnostics ++ found;
  matched_count = if d.matched then suc totals.matched_count else totals.matched_count;
}

module _ (now : ℤ) (states : List UpsState) (holds : List (Text × HoldState)) where
  unfoldable pub evaluate_all : Totals → ℕ → List Trigger → Totals
  unfolding tally
  evaluate_all totals index [] = totals
  evaluate_all totals index (t ∷ ts) =
      evaluate_all (tally totals (evaluate_trigger now (normalize_trigger index t) holds states))
        (suc index) ts

abbrev evaluation_reason : Totals → EvaluationReason
evaluation_reason totals =
    if totals.approved
    then approved_eligible
    else if not (is_empty totals.holds)
    then hold_pending
    else if is_empty totals.decisions
    then no_triggers_configured
    else no_trigger_matched

-- `Evaluate`.
unfoldable pub evaluate : Inputs → Evaluation
unfolding evaluate_all
evaluate i =
    let totals =
      evaluate_all i.observed_at (normalize_ups_states i.ups_states) (hold_index i.holds)
        empty_totals 0 i.triggers in
    record {
      observed_at = i.observed_at;
      approved = totals.approved;
      reason = evaluation_reason totals;
      selected_ups_devices = sort_texts totals.selected;
      decisions = totals.decisions;
      holds = sort_holds totals.holds;
      diagnostics = totals.diagnostics;
      matched_trigger_count = totals.matched_count;
    }
