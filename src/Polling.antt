-- ===== src/Polling.antt =====
-- internal/polling/poller.go: one poll of a server, with its client a parameter.
pub mod EndToEnd
mod Examples
use nut_operator.Prelude.{
  Bool, true, false, ◌||◌, List, [], ◌∷◌, Option, none, some, if◌then◌else◌, is_empty,
}
use nut_operator.Prelude.Int.{ℤ, pos, ltb_ℤ, eq_ℤ}
use nut_operator.Text.{Text, trim_space}
use nut_operator.Nut.{TlsOptions, default_port, Listed, listed}
use nut_operator.Nut as Nut
use nut_operator.Telemetry.{Numbers, Sample, Snapshot, normalize}

pub record Target : Type 0 where
  pub ups_device : Text
  pub nut_server : Text
  pub nut_name : Text
  pub host : Text
  pub port : ℤ
  pub tls : TlsOptions
  pub telemetry_aliases : List (Text × Text)

pub data PollError : Type 0 where
  ups_device_required nut_server_required nut_name_required host_required port_range : PollError
  list_failed : Listed → PollError

unfoldable pub normalize_target : Target → Target
unfolding trim_space
normalize_target t = record t {
  ups_device = trim_space t.ups_device;
  nut_server = trim_space t.nut_server;
  nut_name = trim_space t.nut_name;
  host = trim_space t.host;
  port = if eq_ℤ t.port (pos 0) then default_port else t.port;
}

unfoldable pub validate_target : Target → Option PollError
validate_target t =
    if is_empty t.ups_device
    then some ups_device_required
    else if is_empty t.nut_server
    then some nut_server_required
    else if is_empty t.nut_name
    then some nut_name_required
    else if is_empty t.host
    then some host_required
    else if ltb_ℤ t.port (pos 0) || ltb_ℤ (pos 65535) t.port
    then some port_range
    else none

abbrev pub nut_target : Target → Nut.Target
nut_target t = record { host = t.host; port = t.port; ups_name = t.nut_name; tls = t.tls }

-- The target as it was normalized, and the snapshot or the error.
pub data Polled (F : Type 0) : Type 0 where
  poll_failed : Target → PollError → Polled F
  polled : Target → Snapshot F → Polled F

abbrev pub sample_of : Target → ℤ → List (Text × Text) → Sample
sample_of t now variables = record {
  ups_device = t.ups_device;
  nut_server = t.nut_server;
  nut_name = t.nut_name;
  observed_at = now;
  variables = variables;
  aliases = t.telemetry_aliases;
}

module _ {F : Type 0} (numbers : Numbers F) where
  -- What `Poll` gives for a target that was normalized: by its validation, and what the client lists.
  abbrev pub polled_of : Target → ℤ → Option PollError → Listed → Polled F
  polled_of t now (some e) answer = poll_failed t e
  polled_of t now none (listed variables) = polled t (normalize numbers (sample_of t now variables))
  polled_of t now none failure = poll_failed t (list_failed failure)

  unfoldable pub poll : (Nut.Target → Listed) → Target → ℤ → Polled F
  unfolding normalize_target validate_target
  poll client target now =
      let t = normalize_target target in polled_of t now (validate_target t) (client (nut_target t))
