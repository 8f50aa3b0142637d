-- ===== src/Telemetry.antt =====
-- internal/telemetry/normalize.go: from the variables of a server to a snapshot. A map is a list with
-- one entry for each key; package strconv is a parameter.
pub mod Aliases
pub mod Native
pub mod Symbols
mod Examples
use Prim.Native.String.{String}
use nut_operator.Prelude.{
  ℕ, Bool, true, false, not, ◌&&◌, ◌||◌, List, [], ◌∷◌, ◌++◌, map, Option, none, some,
  if◌then◌else◌, is_empty,
}
use nut_operator.Prelude.Int.{ℤ}
use nut_operator.Text.{Text, codes, text_eq, trim_space, fields, upper}
use nut_operator.Text.Maps.{contains, lookup}
use nut_operator.Diagnostics.{Diagnostic, Argument, text, warning}
use nut_operator.Telemetry.Aliases.{Variables, apply_aliases}

-- strconv.ParseFloat where it gives no error, strconv.ParseInt likewise, whether a float64 is
-- finite, and its conversion to an int64.
pub record Numbers (F : Type 0) : Type 0 where
  pub parse_float : Text → Option F
  pub parse_int : Text → Option ℤ
  pub is_finite : F → Bool
  pub to_int64 : F → ℤ

abbrev pub known_status_symbols : List Text
known_status_symbols =
    codes "ALARM"
    ∷ codes "BOOST"
    ∷ codes "BYPASS"
    ∷ codes "CAL"
    ∷ codes "CHRG"
    ∷ codes "COMM"
    ∷ codes "DISCHRG"
    ∷ codes "FSD"
    ∷ codes "LB"
    ∷ codes "NOCOMM"
    ∷ codes "OB"
    ∷ codes "OFF"
    ∷ codes "OL"
    ∷ codes "OVER"
    ∷ codes "RB"
    ∷ codes "TEST"
    ∷ codes "TICK"
    ∷ codes "TOCK"
    ∷ codes "TRIM"
    ∷ []

abbrev pub unknown_symbol : Text → Diagnostic
unknown_symbol symbol = record {
  severity = warning;
  reason = "UnknownStatusSymbol";
  subject = codes "ups.status";
  format = "NUT status symbol %q is not known to this normalizer";
  arguments = text symbol ∷ [];
}

abbrev pub status_missing : Diagnostic
status_missing = record {
  severity = warning;
  reason = "StatusMissing";
  subject = codes "ups.status";
  format = "NUT variable ups.status is missing or empty";
  arguments = [];
}

-- The loop of `normalizeStatusSymbols`: the set of symbols seen has the symbols kept so far.
unfoldable pub keep_symbols : List Text → List Text → List Text × List Diagnostic
unfolding contains upper
keep_symbols seen [] = ([], [])
keep_symbols seen (token ∷ tokens) =
    let symbol = map upper token in
    let (same, same_diagnostics) = keep_symbols seen tokens in
    let (rest, diagnostics) = keep_symbols (symbol ∷ seen) tokens in
    if contains seen symbol then (same, same_diagnostics) else (
      symbol ∷ rest,
      (if contains known_status_symbols symbol
          then diagnostics
          else unknown_symbol symbol ∷ diagnostics),
    )

unfoldable pub normalize_status_symbols : Text → List Text × List Diagnostic
unfolding keep_symbols fields
normalize_status_symbols status =
    if is_empty status then ([], status_missing ∷ []) else keep_symbols [] (fields status)

pub data Phase : Type 0 where
  unknown online on_battery low_battery stale unavailable : Phase

abbrev pub flag : List Text → String → Bool
flag symbols name = contains symbols (codes name)

unfoldable pub phase : List Text → Text → Phase
phase symbols status =
    if is_empty status || flag symbols "NOCOMM"
    then stale
    else if flag symbols "OFF"
    then unavailable
    else if flag symbols "FSD" || flag symbols "LB"
    then low_battery
    else if flag symbols "OB"
    then on_battery
    else if flag symbols "OL"
    then online
    else unknown

abbrev pub value_in : Variables → Text → Text
value_in variables name = elim (lookup name variables) [ none ↦ [] | some v ↦ v ]

abbrev pub parse_failed : Text → Text → String → Diagnostic
parse_failed name raw format = record {
  severity = warning;
  reason = "VariableParseFailed";
  subject = name;
  format = format;
  arguments = text name ∷ text raw ∷ [];
}

abbrev pub Parsed : Type 0 → Type 0
Parsed A = Option A × List Diagnostic

module _ {F : Type 0} (numbers : Numbers F) where
  -- A finite number, or none.
  abbrev pub finite_of : Option F → Option F
  finite_of none = none
  finite_of (some x) = if numbers.is_finite x then some x else none

  abbrev pub number_or : {A : Type 0} → (F → A) → Diagnostic → Option F → Parsed A
  number_or f d none = (none, d ∷ [])
  number_or f d (some x) = (some (f x), [])

  unfoldable pub parse_float_variable : Variables → Text → Parsed F
  unfolding lookup trim_space
  parse_float_variable variables name =
      let raw = trim_space (value_in variables name) in
      if is_empty raw
      then (none, [])
      else number_or (λ x. x) (parse_failed name raw "NUT variable %s value %q is not a number")
          (finite_of (numbers.parse_float raw))

  unfoldable pub parse_runtime_seconds : Variables → Text → Parsed ℤ
  unfolding lookup trim_space
  parse_runtime_seconds variables name =
      let raw = trim_space (value_in variables name) in
      if is_empty raw then (none, []) else elim (numbers.parse_int raw) [
        | some value ↦ (some value, [])
        | none ↦
            number_or numbers.to_int64
              (parse_failed name raw "NUT variable %s value %q is not a duration in seconds")
              (finite_of (numbers.parse_float raw))
      ]

pub record Sample : Type 0 where
  pub ups_device : Text
  pub nut_server : Text
  pub nut_name : Text
  pub observed_at : ℤ
  pub variables : Variables
  pub aliases : List (Text × Text)

pub record Snapshot (F : Type 0) : Type 0 where
  pub ups_device : Text
  pub nut_server : Text
  pub nut_name : Text
  pub observed_at : ℤ
  pub variables : Variables
  pub ups_status : Text
  pub status_symbols : List Text
  pub phase : Phase
  pub online : Bool
  pub on_battery : Bool
  pub low_battery : Bool
  pub forced_shutdown : Bool
  pub replace_battery : Bool
  pub no_communication : Bool
  pub alarm : Bool
  pub overloaded : Bool
  pub battery_charge_percent : Option F
  pub runtime_seconds : Option ℤ
  pub load_percent : Option F
  pub diagnostics : List Diagnostic

unfoldable pub normalize : {F : Type 0} → Numbers F → Sample → Snapshot F
unfolding apply_aliases normalize_status_symbols parse_float_variable parse_runtime_seconds phase
normalize numbers sample =
    let (variables, alias_diagnostics) = apply_aliases sample.variables sample.aliases in
    let status = trim_space (value_in variables (codes "ups.status")) in
    let (symbols, status_diagnostics) = normalize_status_symbols status in
    let (charge, charge_diagnostics) =
      parse_float_variable numbers variables (codes "battery.charge") in
    let (runtime, runtime_diagnostics) =
      parse_runtime_seconds numbers variables (codes "battery.runtime") in
    let (load, load_diagnostics) = parse_float_variable numbers variables (codes "ups.load") in
    record {
      ups_device = sample.ups_device;
      nut_server = sample.nut_server;
      nut_name = sample.nut_name;
      observed_at = sample.observed_at;
      variables = variables;
      ups_status = status;
      status_symbols = symbols;
      phase = phase symbols status;
      online = flag symbols "OL";
      on_battery = flag symbols "OB";
      low_battery = flag symbols "LB";
      forced_shutdown = flag symbols "FSD";
      replace_battery = flag symbols "RB";
      no_communication = flag symbols "NOCOMM";
      alarm = flag symbols "ALARM";
      overloaded = flag symbols "OVER";
      battery_charge_percent = charge;
      runtime_seconds = runtime;
      load_percent = load;
      diagnostics =
          alias_diagnostics ++ status_diagnostics ++ charge_diagnostics ++ runtime_diagnostics
          ++ load_diagnostics;
    }
