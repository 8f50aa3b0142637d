-- ===== src/Trigger/Examples.antt =====
-- Concrete ticks, and the theorems about the evaluator at them.
use nut_operator.Prelude.{
  true, false, not, ◌≡◌, refl, List, [], ◌∷◌, All, Option, none, some, is_empty, length,
}
use nut_operator.Prelude.Int.{ℤ, pos, ◌+ℤ◌}
use nut_operator.Text.{codes, text_eq, text_lt, trim_space, is_space}
use nut_operator.Text.Sorting.{sort_texts, sort_by, insert_sorted}
use nut_operator.Text.Maps.{are_distinct, contains, lookup, insert}
use nut_operator.Trigger.Inputs.{
  Trigger, UpsState, Inputs, normalize_trigger, named_states, normalize_ups_states, string_set,
  sorted_unique_strings, add_hold, hold_index_from, hold_index, sort_holds,
}
use nut_operator.Trigger.Evaluator.{
  class_of, evaluate_class, evaluate_trigger_class, trigger_matches_state, keep, select_ups_states,
  visit, scan_all, evaluate_trigger, tally, evaluate_all, evaluate,
}
use nut_operator.Trigger.Holds.{numbered, IsTrue, Justified, run_ticks}
use nut_operator.Text.Laws.{has_code}
use nut_operator.Trigger.Holds.Own.{trigger_ids}
use nut_operator.Trigger.Holds.Sustained.{
  next_tick, remembered_holds-IsTrue, selected_devices-Justified,
}
use nut_operator.Trigger.Approval.{any_eligible, count_matched, evaluate_summary}

-- Runtime at most 300 s for 60 s, or on battery where no runtime is reported.
abbrev low_runtime : Trigger
low_runtime = record {
  id = codes "low ";
  class = codes "RuntimeBelow";
  fallback = codes "OnBattery";
  ups_devices = [];
  power_domains = [];
  hold_for = pos 60;
  runtime_below_seconds = some (pos 300);
  charge_below_percent = none;
}

abbrev ups : Option ℤ → UpsState
ups runtime = record {
  ups_device = codes " a";
  power_domains = [];
  observed_at = pos 0;
  phase = codes "OnBattery";
  on_battery = true;
  low_battery = false;
  stale = false;
  runtime_seconds = runtime;
  charge_percent = none;
}

abbrev at_time : ℤ → Option ℤ → Inputs
at_time t runtime = record {
  observed_at = t;
  triggers = low_runtime ∷ [];
  ups_states = ups runtime ∷ [];
  holds = [];
}

-- Seen at 0 and at 30, and due at 60.
abbrev early : List Inputs
early = at_time (pos 0) (some (pos 200)) ∷ at_time (pos 30) none ∷ []

program : Unit {0}
unfolding text_eq text_lt trim_space is_space sort_by insert_sorted sort_texts contains lookup
    insert normalize_trigger named_states normalize_ups_states string_set sorted_unique_strings
    add_hold hold_index_from hold_index sort_holds class_of evaluate_class evaluate_trigger_class
    trigger_matches_state keep select_ups_states visit scan_all evaluate_trigger tally evaluate_all
    evaluate run_ticks ◌+ℤ◌
program = tt

approved_at_60 :
    (evaluate (next_tick early (at_time (pos 60) none))).selected_ups_devices ≡ codes "a" ∷ []
unfolding program
approved_at_60 = refl

pending_at_59 : (evaluate (next_tick early (at_time (pos 59) none))).approved ≡ false
unfolding program
pending_at_59 = refl

remembered_holds-IsTrue_example : All (IsTrue (run_ticks [] [] early).1) (run_ticks [] [] early).0
remembered_holds-IsTrue_example = remembered_holds-IsTrue early

ids_plain : All (λ (t : Trigger). has_code 0 t.id ≡ false) (numbered 0 (low_runtime ∷ []))
unfolding program
ids_plain = (refl, tt)

ids_distinct : are_distinct (trigger_ids (numbered 0 (low_runtime ∷ []))) ≡ true
unfolding program
ids_distinct = refl

selected_devices-Justified_example :
    All
      (Justified (next_tick early (at_time (pos 60) none)) (run_ticks [] [] early).1)
      (evaluate (next_tick early (at_time (pos 60) none))).selected_ups_devices
selected_devices-Justified_example =
    selected_devices-Justified (low_runtime ∷ []) early (at_time (pos 60) none) ids_plain
      ids_distinct (refl, (refl, (refl, tt)))

evaluate_summary_example :
    (length (evaluate (at_time (pos 0) none)).decisions ≡ 1)
    × ((evaluate (at_time (pos 0) none)).approved
        ≡ any_eligible (evaluate (at_time (pos 0) none)).decisions)
    × ((evaluate (at_time (pos 0) none)).approved
        ≡ not (is_empty (evaluate (at_time (pos 0) none)).selected_ups_devices))
    × ((evaluate (at_time (pos 0) none)).matched_trigger_count
        ≡ count_matched (evaluate (at_time (pos 0) none)).decisions)
evaluate_summary_example = evaluate_summary (at_time (pos 0) none)
