-- ===== src/Nut/Response.antt =====
-- internal/nut/client.go: the response to LIST VAR.
use nut_operator.Prelude.{
  ℕ, zero, suc, Bool, true, false, not, ◌&&◌, ◌||◌, List, [], ◌∷◌, ◌++◌, Option, none, some,
  if◌then◌else◌, is_empty, ◌==◌,
}
use nut_operator.Text.{Text, codes, text_eq, trim_space}
use nut_operator.Text.Lines.{scan_lines}
use nut_operator.Text.Maps.{insert}

abbrev pub Variables : Type 0
Variables = List (Text × Text)

pub data ReadError : Type 0 where
  server_error : Text → ReadError
  begin_expected : Text → ReadError
  invalid_line : Text → ReadError
  invalid_value : Text → ReadError
  stream_broken no_begin no_end : ReadError

pub data ReadResult : Type 0 where
  failed : ReadError → ReadResult
  read : Variables → ReadResult

abbrev pub quote : ℕ
quote = 34

abbrev pub backslash : ℕ
backslash = 92

abbrev pub cons_to : ℕ → Option Text → Option Text
cons_to c none = none
cons_to c (some t) = some (c ∷ t)

-- The loop of `parseQuotedValue` behind the first quote, to the last sign, which has to be a quote.
-- The flag says whether the sign before was a backslash that escapes.
unfoldable pub unescape : Bool → Text → Option Text
unescape escaped [] = none
unescape escaped (c ∷ cs) =
    let plain = unescape false cs in
    let after_backslash = unescape true cs in
    if is_empty cs
    then (if (c == quote) && not escaped then some [] else none)
    else if escaped
    then cons_to c plain
    else if c == backslash
    then after_backslash
    else cons_to c plain

unfoldable pub parse_quoted_value : Text → Option Text
unfolding unescape
parse_quoted_value [] = none
parse_quoted_value (c ∷ cs) = if c == quote then unescape false cs else none

-- strings.SplitN with a space.
unfoldable pub add_front : ℕ → List Text → List Text
add_front c [] = (c ∷ []) ∷ []
add_front c (p ∷ ps) = (c ∷ p) ∷ ps

-- At most so many parts and one.
unfoldable pub split_spaces : ℕ → Text → List Text
unfolding add_front
split_spaces zero t = t ∷ []
split_spaces (suc n) [] = [] ∷ []
split_spaces (suc n) (c ∷ cs) =
    let next = split_spaces n cs in
    let same = split_spaces (suc n) cs in if c == 32 then [] ∷ next else add_front c same

pub data Parsed : Type 0 where
  wrong : ReadError → Parsed
  variable : Text → Text → Parsed

abbrev pub value_of : Text → Option Text → Parsed
value_of name none = wrong (invalid_value name)
value_of name (some value) = variable name value

abbrev pub parts_of : Text → Text → List Text → Parsed
parts_of line ups_name (keyword ∷ ups ∷ name ∷ value ∷ []) =
    if not (text_eq keyword (codes "VAR")) || not (text_eq ups ups_name) || is_empty name
    then wrong (invalid_line line)
    else value_of name (parse_quoted_value (trim_space value))
parts_of line ups_name _ = wrong (invalid_line line)

unfoldable pub parse_variable_line : Text → Text → Parsed
unfolding split_spaces text_eq trim_space parse_quoted_value
parse_variable_line line ups_name = parts_of line ups_name (split_spaces 3 line)

-- strings.TrimRight with a carriage return, and strings.HasPrefix.
unfoldable pub trim_returns : Text → Text
trim_returns [] = []
trim_returns (c ∷ cs) =
    let rest = trim_returns cs in if (c == 13) && is_empty rest then [] else c ∷ rest

unfoldable pub has_prefix : Text → Text → Bool
has_prefix [] t = true
has_prefix (p ∷ ps) [] = false
has_prefix (p ∷ ps) (c ∷ cs) = (p == c) && has_prefix ps cs

abbrev pub begin_of : Text → Text
begin_of ups_name = codes "BEGIN LIST VAR " ++ ups_name

abbrev pub end_of : Text → Text
end_of ups_name = codes "END LIST VAR " ++ ups_name

abbrev pub ended : Bool → Bool → ReadResult
ended broken saw_begin =
    if broken then failed stream_broken else if saw_begin then failed no_end else failed no_begin

-- What a line comes to: whether it reports an error, whether it ends the list, and what it holds.
abbrev pub on_line :
    Bool → Bool → Text → Parsed → (Text → Text → ReadResult) → Variables → ReadResult
on_line is_error is_end line parsed next variables =
    if is_error
    then failed (server_error line)
    else if is_end
    then read variables
    else elim parsed [ wrong e ↦ failed e | variable name value ↦ next name value ]

abbrev pub on_begin : Bool → Bool → Text → ReadResult → ReadResult
on_begin is_error is_begin line rest =
    if is_error
    then failed (server_error line)
    else if not is_begin
    then failed (begin_expected line)
    else rest

module _ (ups_name : Text) (broken : Bool) where
  -- The loop once the list has begun.
  unfoldable pub read_list : List Text → Variables → ReadResult
  unfolding parse_variable_line trim_returns has_prefix text_eq insert
  read_list [] variables = ended broken true
  read_list (l ∷ ls) variables =
      let line = trim_returns l in
      on_line (has_prefix (codes "ERR ") line) (text_eq line (end_of ups_name)) line
        (parse_variable_line line ups_name)
        (λ name value. read_list ls (insert name value variables)) variables

  unfoldable pub read_begin : List Text → ReadResult
  unfolding read_list
  read_begin [] = ended broken false
  read_begin (l ∷ ls) =
      let line = trim_returns l in
      on_begin (has_prefix (codes "ERR ") line) (text_eq line (begin_of ups_name)) line
        (read_list ls [])

-- The stream and whether it breaks off with an error. A line too long is one as well.
unfoldable pub read_list_variable_response : ℕ → Text → Text → Bool → ReadResult
unfolding read_begin scan_lines
read_list_variable_response limit ups_name stream breaks =
    let (lines, too_long) = scan_lines limit stream in
    read_begin ups_name (too_long || breaks) lines
