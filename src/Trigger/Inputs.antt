-- ===== src/Trigger/Inputs.antt =====
-- The evaluator's data, and the normalization of what it is given.
use nut_operator.Prelude.{ℕ, Bool, ◌||◌, List, [], ◌∷◌, ◌++◌, map, if◌then◌else◌, Option, is_empty}
use nut_operator.Prelude.Int.{ℤ}
use nut_operator.Text.{Text, codes, text_eq, text_lt, trim_space, lower, three_digits}
use nut_operator.Text.Sorting.{sort_by, sort_texts}
use nut_operator.Text.Maps.{add_key, insert}
use nut_operator.Diagnostics.{Diagnostic}

pub record Trigger : Type 0 where
  pub id : Text
  pub class : Text
  pub fallback : Text
  pub ups_devices : List Text
  pub power_domains : List Text
  pub hold_for : ℤ
  pub runtime_below_seconds : Option ℤ
  pub charge_below_percent : Option ℤ

pub record UpsState : Type 0 where
  pub ups_device : Text
  pub power_domains : List Text
  pub observed_at : ℤ
  pub phase : Text
  pub on_battery : Bool
  pub low_battery : Bool
  pub stale : Bool
  pub runtime_seconds : Option ℤ
  pub charge_percent : Option ℤ

pub record HoldState : Type 0 where
  pub trigger_id : Text
  pub ups_device : Text
  pub started_at : ℤ

pub record Inputs : Type 0 where
  pub observed_at : ℤ
  pub triggers : List Trigger
  pub ups_states : List UpsState
  pub holds : List HoldState

pub data DecisionReason : Type 0 where
  condition_false trigger_hold_pending trigger_eligible : DecisionReason

pub record Decision : Type 0 where
  pub trigger_id : Text
  pub class : Text
  pub matched : Bool
  pub eligible : Bool
  pub reason : DecisionReason
  pub selected_ups_devices : List Text
  pub hold_started_at : Option ℤ
  pub eligible_at : Option ℤ

pub data EvaluationReason : Type 0 where
  approved_eligible hold_pending no_triggers_configured no_trigger_matched : EvaluationReason

pub record Evaluation : Type 0 where
  pub observed_at : ℤ
  pub approved : Bool
  pub reason : EvaluationReason
  pub selected_ups_devices : List Text
  pub decisions : List Decision
  pub holds : List HoldState
  pub diagnostics : List Diagnostic
  pub matched_trigger_count : ℕ

-- The trimmed values of a list that are not empty, each once.
unfoldable pub string_set : List Text → List Text
string_set [] = []
string_set (v ∷ vs) =
    let rest = string_set vs in
    if is_empty (trim_space v) then rest else add_key (trim_space v) rest

unfoldable pub sorted_unique_strings : List Text → List Text
unfolding string_set sort_texts
sorted_unique_strings vs = sort_texts (string_set vs)

-- The identity of a trigger that was given none.
abbrev pub default_id : ℕ → Text → Text
default_id index class = codes "trigger-" ++ (three_digits index ++ (codes "-" ++ map lower class))

unfoldable pub normalize_trigger : ℕ → Trigger → Trigger
normalize_trigger index t = record t {
  id =
      if is_empty (trim_space t.id) then default_id index (trim_space t.class) else trim_space t.id;
  class = trim_space t.class;
  ups_devices = sorted_unique_strings t.ups_devices;
  power_domains = sorted_unique_strings t.power_domains;
}

-- The states with a device name, in their given order.
unfoldable pub named_states : List UpsState → List UpsState
named_states [] = []
named_states (s ∷ ss) =
    let rest = named_states ss in
    if is_empty (trim_space s.ups_device)
    then rest
    else record s {
      ups_device = trim_space s.ups_device;
      power_domains = sorted_unique_strings s.power_domains;
    }
      ∷ rest

abbrev pub device_lt : UpsState → UpsState → Bool
device_lt a b = text_lt a.ups_device b.ups_device

unfoldable pub normalize_ups_states : List UpsState → List UpsState
unfolding named_states sort_by
normalize_ups_states ss = sort_by device_lt (named_states ss)

-- The identity, a NUL, and the device.
abbrev pub hold_key : Text → Text → Text
hold_key trigger_id ups_device = trigger_id ++ 0 ∷ ups_device

-- The loop's body: a hold with no identity or no device is dropped, and a later entry under the same
-- key replaces an earlier one.
unfoldable pub add_hold : List (Text × HoldState) → HoldState → List (Text × HoldState)
add_hold index h =
    let tid = trim_space h.trigger_id in
    let device = trim_space h.ups_device in
    if is_empty tid || is_empty device
    then index
    else insert (hold_key tid device) (record h { trigger_id = tid; ups_device = device }) index

unfoldable pub hold_index_from : List (Text × HoldState) → List HoldState → List (Text × HoldState)
unfolding add_hold
hold_index_from index [] = index
hold_index_from index (h ∷ hs) = hold_index_from (add_hold index h) hs

unfoldable pub hold_index : List HoldState → List (Text × HoldState)
unfolding hold_index_from
hold_index hs = hold_index_from [] hs

abbrev pub hold_lt : HoldState → HoldState → Bool
hold_lt a b =
    if text_eq a.trigger_id b.trigger_id
    then text_lt a.ups_device b.ups_device
    else text_lt a.trigger_id b.trigger_id

unfoldable pub sort_holds : List HoldState → List HoldState
unfolding sort_by
sort_holds = sort_by hold_lt
