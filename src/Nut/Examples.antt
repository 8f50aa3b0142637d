-- ===== src/Nut/Examples.antt =====
-- A response of two variables, a peer without TLS, and the theorems at them.
use nut_operator.Prelude.{true, false, List, [], ◌∷◌, none, some, ◌≡◌, refl, arith, ◌⊎◌}
use nut_operator.Prelude.Int.{pos}
use nut_operator.Text.{Text, codes, is_space, text_eq}
use nut_operator.Text.Lines.{unlines, is_plain}
use nut_operator.Text.Maps.{lookup}
use nut_operator.Nut.{
  TlsOptions, Target, Peer, starttls_refused, is_off, negotiate_tls, list_variables, listed,
}
use nut_operator.Nut.Response.{
  read, read_list_variable_response, parse_quoted_value, quote, backslash,
}
use nut_operator.Nut.Rendering.{render_response, render_lines, is_word, escape}
use nut_operator.Nut.RoundTrip.{read-render}
use nut_operator.Nut.Security.{IsDeclined, negotiate_tls-plain}

-- The value of the second has a quote, a space and a backslash.
abbrev variables : List (Text × Text)
variables =
    (codes "ups.status", codes "OB LB")
    ∷ (codes "device.mfr", 65 ∷ quote ∷ 32 ∷ backslash ∷ [])
    ∷ []

read-render_example :
    read_list_variable_response 60
      (codes "rack")
      (unlines (render_response (codes "rack") variables))
      true
    ≡ read variables
unfolding is_word escape lookup is_plain text_eq render_lines
read-render_example =
    read-render 60 (codes "rack") variables true refl ((refl, refl, refl), ((refl, refl, refl), tt))
      (refl, (refl, tt)) (omega arith, (omega arith, (omega arith, (omega arith, tt))))

-- A quote inside the value that no backslash escapes is kept.
inner_quote :
    parse_quoted_value (quote ∷ 65 ∷ quote ∷ 66 ∷ quote ∷ []) ≡ some (65 ∷ quote ∷ 66 ∷ [])
unfolding parse_quoted_value
inner_quote = refl

unfinished : parse_quoted_value (quote ∷ 65 ∷ backslash ∷ quote ∷ []) ≡ none
unfolding parse_quoted_value
unfinished = refl

abbrev options : Text → TlsOptions
options mode = record { mode = mode; ca_bundle = []; server_name = [] }

abbrev without_tls : Peer
without_tls = record {
  dial_fails = false;
  has_certificates = λ b. true;
  send_fails = false;
  reply = some (codes "ERR FEATURE-NOT-SUPPORTED");
  data_behind_reply = false;
  handshake_fails = false;
  request_fails = false;
  response = unlines (render_response (codes "rack") variables);
  response_breaks = false;
}

negotiate_tls-plain_example :
    (is_off (codes "Opportunistic") ≡ true)
    ⊎ ((text_eq (codes "Opportunistic") (codes "Opportunistic") ≡ true) × IsDeclined without_tls)
unfolding negotiate_tls
negotiate_tls-plain_example = negotiate_tls-plain (options (codes "Opportunistic")) without_tls refl

required : negotiate_tls (options (codes "Required")) without_tls ≡ starttls_refused
unfolding negotiate_tls
required = refl

abbrev rack : Target
rack = record {
  host = codes "h";
  port = pos 0;
  ups_name = codes "rack";
  tls = options (codes "Opportunistic");
}

listing : list_variables 60 rack without_tls ≡ listed variables
unfolding list_variables escape is_space unlines render_lines
listing = refl
