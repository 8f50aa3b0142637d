-- ===== src/Nut.antt =====
-- internal/nut/client.go: the target of a poll, the choice between a plain and a secure connection,
-- and the call that lists the variables. The network and crypto/tls answer through `Peer`.
pub mod Response
pub mod Rendering
pub mod RoundTrip
pub mod Security
mod Examples
use nut_operator.Prelude.{
  ℕ, Bool, true, false, not, ◌&&◌, ◌||◌, List, [], ◌∷◌, ◌++◌, Option, none, some, if◌then◌else◌,
  is_empty, ◌==◌,
}
use nut_operator.Prelude.Int.{ℤ, pos, ltb_ℤ, eq_ℤ}
use nut_operator.Text.{Text, codes, text_eq, trim_space}
use nut_operator.Text.Maps.{lookup}
use nut_operator.Nut.Response.{
  Variables, ReadError, ReadResult, failed, read, read_list_variable_response,
}

pub record TlsOptions : Type 0 where
  pub mode : Text
  pub ca_bundle : Text
  pub server_name : Text

pub record Target : Type 0 where
  pub host : Text
  pub port : ℤ
  pub ups_name : Text
  pub tls : TlsOptions

-- `NewClient` without the dialer: a timeout and a limit of 0 stand for the defaults.
pub record Client : Type 0 where
  pub timeout : ℤ
  pub max_line_bytes : ℤ

unfoldable pub new_client : ℤ → ℤ → Client
new_client timeout max_line_bytes = record {
  timeout = if eq_ℤ timeout (pos 0) then pos 5000000000 else timeout;
  max_line_bytes = if eq_ℤ max_line_bytes (pos 0) then pos 65536 else max_line_bytes;
}

pub data TargetError : Type 0 where
  host_required ups_name_required ups_name_unsupported port_range : TargetError

abbrev pub is_unsupported : ℕ → Bool
is_unsupported c = (c == 32) || (c == 9) || (c == 13) || (c == 10) || (c == 34)

-- strings.ContainsAny with the signs that a name must not have.
unfoldable pub has_unsupported : Text → Bool
has_unsupported [] = false
has_unsupported (c ∷ cs) = is_unsupported c || has_unsupported cs

abbrev pub is_out_of_range : ℤ → Bool
is_out_of_range port = ltb_ℤ port (pos 0) || ltb_ℤ (pos 65535) port

-- By the guards of `validateTarget`, in their order.
abbrev pub target_error : Bool → Bool → Bool → Bool → Option TargetError
target_error no_host no_name unsupported out_of_range =
    if no_host
    then some host_required
    else if no_name
    then some ups_name_required
    else if unsupported
    then some ups_name_unsupported
    else if out_of_range
    then some port_range
    else none

unfoldable pub validate_target : Target → Option TargetError
unfolding has_unsupported trim_space
validate_target t =
    target_error (is_empty (trim_space t.host)) (is_empty (trim_space t.ups_name))
      (has_unsupported t.ups_name) (is_out_of_range t.port)

abbrev pub default_port : ℤ
default_port = pos 3493

abbrev pub port_of : Target → ℤ
port_of t = if eq_ℤ t.port (pos 0) then default_port else t.port

-- What the network, crypto/tls and the server answer to one poll. The reply to STARTTLS is without
-- its end of line.
pub record Peer : Type 0 where
  pub dial_fails : Bool
  pub has_certificates : Text → Bool
  pub send_fails : Bool
  pub reply : Option Text
  pub data_behind_reply : Bool
  pub handshake_fails : Bool
  pub request_fails : Bool
  pub response : Text
  pub response_breaks : Bool

pub data Negotiated : Type 0 where
  plain secure : Negotiated
  unsupported_mode bundle_without_certificates starttls_not_sent : Negotiated
  reply_unreadable unexpected_data starttls_refused handshake_failed : Negotiated

abbrev pub is_off : Text → Bool
is_off mode = is_empty mode || text_eq mode (codes "Disabled")

abbrev pub is_known : Text → Bool
is_known mode = text_eq mode (codes "Required") || text_eq mode (codes "Opportunistic")

-- The replies by which a server says that it has no TLS.
abbrev pub is_without_tls : Text → Bool
is_without_tls reply =
    text_eq reply (codes "ERR FEATURE-NOT-SUPPORTED")
    || text_eq reply (codes "ERR FEATURE-NOT-CONFIGURED")

unfoldable pub on_reply : Text → Peer → Text → Negotiated
unfolding text_eq
on_reply mode peer reply =
    if peer.data_behind_reply
    then unexpected_data
    else if not (text_eq reply (codes "OK STARTTLS"))
    then if text_eq mode (codes "Opportunistic") && is_without_tls reply
      then plain
      else starttls_refused
    else if peer.handshake_fails
    then handshake_failed
    else secure

unfoldable pub negotiate_tls : TlsOptions → Peer → Negotiated
unfolding on_reply text_eq
negotiate_tls options peer =
    if is_off options.mode
    then plain
    else if not (is_known options.mode)
    then unsupported_mode
    else if not (is_empty options.ca_bundle) && not (peer.has_certificates options.ca_bundle)
    then bundle_without_certificates
    else if peer.send_fails
    then starttls_not_sent
    else elim peer.reply [ none ↦ reply_unreadable | some reply ↦ on_reply options.mode peer reply ]

pub data Listed : Type 0 where
  invalid_target : TargetError → Listed
  connect_failed : Listed
  tls_failed : Negotiated → Listed
  request_failed : Listed
  response_failed : ReadError → Listed
  listed : Variables → Listed

abbrev pub listed_of : ReadResult → Listed
listed_of (failed e) = response_failed e
listed_of (read variables) = listed variables

abbrev pub is_connected : Negotiated → Bool
is_connected plain = true
is_connected secure = true
is_connected _ = false

-- The steps of `ListVariables`, each with what it came to, in their order.
abbrev pub listing : Option TargetError → Bool → Negotiated → Bool → ReadResult → Listed
listing (some e) dial_fails negotiated request_fails result = invalid_target e
listing none dial_fails negotiated request_fails result =
    if dial_fails
    then connect_failed
    else if not (is_connected negotiated)
    then tls_failed negotiated
    else if request_fails
    then request_failed
    else listed_of result

-- `ListVariables`, with the size of the buffer that a line must fit in.
unfoldable pub list_variables : ℕ → Target → Peer → Listed
unfolding validate_target negotiate_tls read_list_variable_response
list_variables limit target peer =
    listing (validate_target target) peer.dial_fails (negotiate_tls target.tls peer)
      peer.request_fails
      (read_list_variable_response limit target.ups_name peer.response peer.response_breaks)
