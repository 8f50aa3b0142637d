-- ===== src/Polling/Examples.antt =====
-- A poll of a server with one variable, and the theorem at it.
use nut_operator.Prelude.{ℕ, true, false, List, [], ◌∷◌, none, ◌≡◌, refl, arith}
use nut_operator.Prelude.Int.{pos}
use nut_operator.Text.{Text, codes, is_space, text_eq}
use nut_operator.Text.Lines.{unlines, is_plain}
use nut_operator.Text.Maps.{lookup}
use nut_operator.Nut.{Peer, negotiate_tls, list_variables, has_unsupported}
use nut_operator.Nut.Rendering.{render_response, render_lines, escape, is_word}
use nut_operator.Telemetry.{Numbers, on_battery, normalize}
use nut_operator.Polling.{Target, normalize_target, validate_target, polled, sample_of, poll}
use nut_operator.Polling.EndToEnd.{poll-polled}

abbrev no_numbers : Numbers ℕ
no_numbers = record {
  parse_float = λ t. none;
  parse_int = λ t. none;
  is_finite = λ x. true;
  to_int64 = pos;
}

abbrev target : Target
target = record {
  ups_device = codes "ups ";
  nut_server = codes "server";
  nut_name = codes " rack";
  host = codes "h";
  port = pos 0;
  tls = record { mode = []; ca_bundle = []; server_name = [] };
  telemetry_aliases = [];
}

abbrev variables : List (Text × Text)
variables = (codes "ups.status", codes "OB") ∷ []

abbrev peer : Peer
peer = record {
  dial_fails = false;
  has_certificates = λ b. true;
  send_fails = false;
  reply = none;
  data_behind_reply = false;
  handshake_fails = false;
  request_fails = false;
  response = unlines (render_response (codes "rack") variables);
  response_breaks = false;
}

poll-polled_example :
    poll no_numbers (λ t. list_variables 50 t peer) target (pos 3)
    ≡ polled
        (normalize_target target)
        (normalize no_numbers (sample_of (normalize_target target) (pos 3) variables))
unfolding normalize_target is_space has_unsupported is_plain lookup escape render_lines text_eq
    validate_target negotiate_tls is_word
poll-polled_example =
    poll-polled no_numbers 50 target (pos 3) peer variables refl refl
      (record { dials = refl; connects = refl; takes_request = refl; prints = refl })
      ((refl, refl, refl), tt) (refl, tt) (omega arith, (omega arith, (omega arith, tt)))

its_phase :
    (normalize no_numbers (sample_of (normalize_target target) (pos 3) variables)).phase
    ≡ on_battery
unfolding normalize lookup is_space normalize_target
its_phase = refl
