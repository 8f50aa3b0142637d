-- ===== src/Actuator/Inspect.antt =====
-- InspectSignal (internal/nodeagent/signal.go): the check of one signal file.
use nut_operator.Prelude.{Bool, not, ◌&&◌, ◌||◌, ◌++◌, Option, none, some, if◌then◌else◌, is_empty}
use nut_operator.Prelude.Int.{ℤ, pos, ◌-ℤ◌, ltb_ℤ}
use nut_operator.Text.{Text, codes, text_eq}

pub record ShutdownSignal : Type 0 where
  pub execution_id : Text
  pub node_name : Text
  pub plan_config_hash : Text
  pub shutdown_flow : Text
  pub timestamp : Text
  pub skip_sync : Bool

-- What os.Stat, os.ReadFile and json.Unmarshal make of a path.
pub data Reading : Type 0 where
  no_file unreadable not_json : Reading
  signal : ShutdownSignal → Reading

pub data Reason : Type 0 where
  signal_missing signal_unreadable signal_invalid_json signal_missing_required_fields : Reason
  signal_wrong_node signal_invalid_timestamp signal_stale signal_from_future : Reason
  signal_accepted : Reason

-- A status that is not active has the reason alone.
pub data SignalStatus : Type 0 where
  ignored : Reason → SignalStatus
  active : Text → ShutdownSignal → SignalStatus

unfoldable pub signal_key : ShutdownSignal → Text
signal_key p =
    p.execution_id
    ++ codes ":"
    ++ p.node_name
    ++ codes ":"
    ++ p.plan_config_hash
    ++ codes ":"
    ++ p.timestamp

abbrev pub lacks_fields : ShutdownSignal → Bool
lacks_fields p =
    is_empty p.execution_id
    || is_empty p.node_name
    || is_empty p.plan_config_hash
    || is_empty p.shutdown_flow
    || is_empty p.timestamp

abbrev pub is_wrong_node : Text → ShutdownSignal → Bool
is_wrong_node expected p = not (is_empty expected) && not (text_eq p.node_name expected)

-- The time of a signal against the time now.
unfoldable pub check_time : ℤ → ℤ → ShutdownSignal → Option ℤ → SignalStatus
check_time ttl now p none = ignored signal_invalid_timestamp
check_time ttl now p (some t) =
    if ltb_ℤ (pos 0) ttl && ltb_ℤ ttl (now -ℤ t)
    then ignored signal_stale
    else if ltb_ℤ (pos 0) ttl && ltb_ℤ ttl (t -ℤ now)
    then ignored signal_from_future
    else active (signal_key p) p

module _ (parse_time : Text → Option ℤ) (ttl now : ℤ) (expected_node : Text) where
  unfoldable pub inspect_signal : Reading → SignalStatus
  unfolding check_time
  inspect_signal no_file = ignored signal_missing
  inspect_signal unreadable = ignored signal_unreadable
  inspect_signal not_json = ignored signal_invalid_json
  inspect_signal (signal p) =
      if lacks_fields p
      then ignored signal_missing_required_fields
      else if is_wrong_node expected_node p
      then ignored signal_wrong_node
      else check_time ttl now p (parse_time p.timestamp)
