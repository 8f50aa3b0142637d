-- ===== src/Polling/EndToEnd.antt =====
-- internal/polling with internal/nut: a poll of a server that prints its variables.
use nut_operator.Prelude.{
  ℕ, Bool, true, false, List, [], ◌∷◌, none, is_empty, ◌≡◌, refl, arith, All, ap, ◌∙◌,
}
use nut_operator.Prelude.Int.{ℤ}
use nut_operator.Text.{Text, trim_space}
use nut_operator.Text.Laws.{trim_space_idem}
use nut_operator.Text.Lines.{Fits, unlines}
use nut_operator.Nut as Nut
use nut_operator.Nut.{
  Listed, listed, listed_of, Peer, plain, secure, is_connected, has_unsupported, target_error,
  listing, negotiate_tls, list_variables,
}
use nut_operator.Nut.Response.{ReadResult, read_list_variable_response}
use nut_operator.Nut.Rendering.{is_word, render_response}
use nut_operator.Nut.RoundTrip.{IsPrintable, AreNew, read-render}
use nut_operator.Telemetry.{Numbers, normalize}
use nut_operator.Polling.{
  Target, normalize_target, validate_target, nut_target, polled, sample_of, polled_of, poll,
}

-- A server that answers with these variables: nothing on the way to it fails.
pub record Answers (peer : Peer) (t : Nut.Target) (vs : List (Text × Text)) : Type 0 where
  pub dials : peer.dial_fails ≡ false
  pub connects : is_connected (negotiate_tls t.tls peer) ≡ true
  pub takes_request : peer.request_fails ≡ false
  pub prints : peer.response ≡ unlines (render_response t.ups_name vs)

connected :
    (n : Nut.Negotiated) (b : Bool) (r : ReadResult)
    → is_connected n ≡ true
    → listing none false n b r ≡ listing none false plain b r
connected n b r h = rw h refl

list_variables-listed :
    (limit : ℕ) (t : Nut.Target) (peer : Peer) (vs : List (Text × Text))
    → Nut.validate_target t ≡ none
    → Answers peer t vs
    → is_word t.ups_name ≡ true
    → All IsPrintable vs
    → AreNew [] vs
    → All (Fits limit) (render_response t.ups_name vs)
    → list_variables limit t peer ≡ listed vs
unfolding list_variables
list_variables-listed limit t peer vs valid answers named h new fits =
    let result = read_list_variable_response limit t.ups_name peer.response peer.response_breaks in
    let negotiated = negotiate_tls t.tls peer in
    ap (λ v. listing v peer.dial_fails negotiated peer.request_fails result) valid
    ∙ ap (λ b. listing none b negotiated peer.request_fails result) answers.dials
    ∙ connected negotiated peer.request_fails result answers.connects
    ∙ ap (λ b. listing none false plain b result) answers.takes_request
    ∙ ap listed_of (
        ap (λ r. read_list_variable_response limit t.ups_name r peer.response_breaks) answers.prints
        ∙ read-render limit t.ups_name vs peer.response_breaks named h new fits)

has_unsupported-is_word : (t : Text) → has_unsupported t ≡ false → is_word t ≡ true
unfolding has_unsupported is_word
has_unsupported-is_word [] h = refl
has_unsupported-is_word (c ∷ cs) h = ground (arith, has_unsupported-is_word cs)

valid_parts :
    (t : Target)
    → validate_target t ≡ none
    → (is_empty t.host ≡ false)
      × (is_empty t.nut_name ≡ false)
      × (Nut.is_out_of_range t.port ≡ false)
unfolding validate_target
valid_parts t h = ground arith

-- What the poller lets pass, the client lets pass too, if the name has only signs that it supports.
nut_valid :
    (target : Target)
    → validate_target (normalize_target target) ≡ none
    → has_unsupported (normalize_target target).nut_name ≡ false
    → Nut.validate_target (nut_target (normalize_target target)) ≡ none
unfolding normalize_target Nut.validate_target
nut_valid target valid supported =
    let t = normalize_target target in
    let (host, name, port) = valid_parts t valid in
    ap
      (λ b.
        target_error b (is_empty (trim_space t.nut_name)) (has_unsupported t.nut_name)
          (Nut.is_out_of_range t.port))
      (ap is_empty (trim_space_idem target.host) ∙ host)
    ∙ ap (λ b. target_error false b (has_unsupported t.nut_name) (Nut.is_out_of_range t.port))
        (ap is_empty (trim_space_idem target.nut_name) ∙ name)
    ∙ ap (λ b. target_error false false b (Nut.is_out_of_range t.port)) supported
    ∙ ap (target_error false false false) port

-- A poll whose normalized target is valid and has a NUT name without unsupported signs, of a
-- server that answers, prints variables with names that are words and stand once and values on one
-- line, in lines that fit the buffer: it gives the normalized target and the snapshot of exactly
-- these variables.
pub poll-polled :
    {F : Type 0} (numbers : Numbers F) (limit : ℕ) (target : Target) (now : ℤ) (peer : Peer)
    (vs : List (Text × Text))
    → validate_target (normalize_target target) ≡ none
    → has_unsupported (normalize_target target).nut_name ≡ false
    → Answers peer (nut_target (normalize_target target)) vs
    → All IsPrintable vs
    → AreNew [] vs
    → All (Fits limit) (render_response (normalize_target target).nut_name vs)
    → poll numbers (λ t. list_variables limit t peer) target now
      ≡ polled
          (normalize_target target)
          (normalize numbers (sample_of (normalize_target target) now vs))
unfolding poll
poll-polled numbers limit target now peer vs valid supported answers h new fits =
    let t = normalize_target target in
    ap (λ v. polled_of numbers t now v (list_variables limit (nut_target t) peer)) valid
    ∙ ap (polled_of numbers t now none) (
        list_variables-listed limit (nut_target t) peer vs (nut_valid target valid supported)
          answers (has_unsupported-is_word t.nut_name supported) h new fits)
