-- ===== src/Actuator/Scan.antt =====
-- scanSignalPaths and signalPaths (cmd/node-actuator/main.go): one pass over the signal paths.
use nut_operator.Prelude.{
  ℕ, Bool, true, false, not, ◌&&◌, ◌||◌, List, [], ◌∷◌, ◌++◌, Option, if◌then◌else◌, is_empty, ◌==◌,
}
use nut_operator.Prelude.Int.{ℤ}
use nut_operator.Text.{Text, codes, text_eq, trim_space}
use nut_operator.Text.Maps.{contains, add_key}
use nut_operator.Actuator.Inspect.{
  ShutdownSignal, Reading, Reason, signal_from_future, SignalStatus, ignored, active,
  inspect_signal,
}

pub record Config : Type 0 where
  pub node_name : Text
  pub signal_paths : List Text
  pub signal_ttl : ℤ
  pub shutdown_flow : Text

-- What a pass finds at each path, and when.
pub record World : Type 0 where
  pub parse_time : Text → Option ℤ
  pub now : Text → ℤ
  pub read : Text → Reading

-- The signal that a pass acts on, with the path that it was read from.
pub record Actuation : Type 0 where
  pub path : Text
  pub key : Text
  pub payload : ShutdownSignal

-- What a pass leaves: the keys seen, what it acted on, and the paths ahead of the clock.
pub record Scan : Type 0 where
  pub seen : List Text
  pub acted : List Actuation
  pub clock_skewed : List Text

abbrev pub is_from_future : Reason → Bool
is_from_future signal_from_future = true
is_from_future _ = false

abbrev pub is_other_flow : Config → ShutdownSignal → Bool
is_other_flow config p =
    not (is_empty config.shutdown_flow) && not (text_eq p.shutdown_flow config.shutdown_flow)

abbrev pub accept : Text → Text → ShutdownSignal → List Text → Scan
accept path key p seen =
    if contains seen key then record { seen = seen; acted = []; clock_skewed = [] } else record {
      seen = add_key key seen;
      acted = record { path = path; key = key; payload = p } ∷ [];
      clock_skewed = [];
    }

abbrev pub skew : Reason → Text → Scan → Scan
skew reason path rest =
    if is_from_future reason then record rest { clock_skewed = path ∷ rest.clock_skewed } else rest

-- One path, with what the paths after it come to. A live signal of another flow is passed over; any
-- other live one ends the pass.
abbrev pub judge : Config → Text → List Text → SignalStatus → Scan → Scan
judge config path seen (ignored reason) rest = skew reason path rest
judge config path seen (active key p) rest =
    if is_other_flow config p then rest else accept path key p seen

module _ (config : Config) (world : World) where
  abbrev pub inspect : Text → SignalStatus
  inspect path =
      inspect_signal world.parse_time config.signal_ttl (world.now path) config.node_name
        (world.read path)

  unfoldable pub scan_signal_paths : List Text → List Text → Scan
  scan_signal_paths [] seen = record { seen = seen; acted = []; clock_skewed = [] }
  scan_signal_paths (path ∷ paths) seen =
      judge config path seen (inspect path) (scan_signal_paths paths seen)

-- The separators of a list of paths: a comma, a newline, a tab or a space.
abbrev pub is_separator : ℕ → Bool
is_separator c = (c == 44) || (c == 10) || (c == 9) || (c == 32)

-- strings.FieldsFunc, from a field that is begun.
unfoldable pub split_paths : Text → Text → List Text
split_paths field [] = if is_empty field then [] else field ∷ []
split_paths field (c ∷ cs) =
    let next = split_paths [] cs in
    let longer = split_paths (field ++ c ∷ []) cs in
    if is_separator c then if is_empty field then next else field ∷ next else longer

unfoldable pub keep_paths : List Text → List Text → List Text
keep_paths out [] = out
keep_paths out (f ∷ fs) =
    let field = trim_space f in
    let same = keep_paths out fs in
    let more = keep_paths (out ++ field ∷ []) fs in
    if is_empty field || contains out field then same else more

abbrev pub only : Text → List Text
only fallback = if is_empty fallback then [] else fallback ∷ []

unfoldable pub signal_paths_of : Text → Text → List Text
unfolding split_paths keep_paths
signal_paths_of value fallback =
    if is_empty value
    then only fallback
    else let out = keep_paths [] (split_paths [] value) in
      if is_empty out then only fallback else out

unfoldable pub default_signal_path : Text → Text
default_signal_path node =
    if is_empty node then [] else codes "/var/lib/power-agent/signals/" ++ node ++ codes ".json"
