-- ===== src/Nut/Rendering.antt =====
-- A response to LIST VAR as the protocol prints it, and how each piece of a line is read back
-- (internal/nut/client.go).
use nut_operator.Prelude.{
  ℕ, suc, Bool, true, false, not, ◌&&◌, ◌||◌, List, [], ◌∷◌, ◌++◌, some, if◌then◌else◌, is_empty,
  ◌==◌, ◌≡◌, refl, arith, ap, ◌∙◌,
}
use nut_operator.Text.{Text, codes, is_space, trim_left, trim_right, trim_space}
use nut_operator.Text.Laws.{trim_right-append, text_eq_refl}
use nut_operator.Text.Lines.{is_plain}
use nut_operator.Nut.Response.{
  quote, backslash, unescape, parse_quoted_value, split_spaces, add_front, parse_variable_line,
  parts_of, variable, trim_returns, begin_of, end_of,
}

-- A backslash stands before each quote and each backslash of a value.
unfoldable pub escape : Text → Text
escape [] = []
escape (c ∷ cs) =
    let rest = escape cs in
    if (c == quote) || (c == backslash) then backslash ∷ c ∷ rest else c ∷ rest

abbrev pub quoted : Text → Text
quoted v = quote ∷ (escape v ++ quote ∷ [])

abbrev pub render_line : Text → Text × Text → Text
render_line ups_name (name, value) =
    codes "VAR" ++ 32 ∷ (ups_name ++ 32 ∷ (name ++ 32 ∷ quoted value))

unfoldable pub render_lines : Text → List (Text × Text) → List Text
render_lines ups_name [] = end_of ups_name ∷ []
render_lines ups_name (v ∷ vs) = render_line ups_name v ∷ render_lines ups_name vs

abbrev pub render_response : Text → List (Text × Text) → List Text
render_response ups_name vs = begin_of ups_name ∷ render_lines ups_name vs

-- Neither a space nor the end of a line.
unfoldable pub is_word : Text → Bool
is_word [] = true
is_word (c ∷ cs) = not (c == 32) && not (c == 10) && not (c == 13) && is_word cs

end_not_empty : (t : Text) → is_empty (t ++ quote ∷ []) ≡ false
end_not_empty [] = refl
end_not_empty (c ∷ cs) = refl

unescape-escape : (v : Text) → unescape false (escape v ++ quote ∷ []) ≡ some v
unfolding unescape escape
unescape-escape [] = refl
unescape-escape (c ∷ cs) = ground (arith, unescape-escape cs, end_not_empty (escape cs))

pub parse_quoted_value-quoted : (v : Text) → parse_quoted_value (quoted v) ≡ some v
unfolding parse_quoted_value
parse_quoted_value-quoted v = unescape-escape v

trim_space-quoted : (v : Text) → trim_space (quoted v) ≡ quoted v
unfolding trim_space trim_left trim_right is_space
trim_space-quoted v = (trim_right-append (quote ∷ escape v) (quote ∷ []) refl refl).0

split_spaces-word :
    (n : ℕ) (w rest : Text)
    → is_word w ≡ true
    → split_spaces (suc n) (w ++ 32 ∷ rest) ≡ w ∷ split_spaces n rest
unfolding split_spaces is_word
split_spaces-word n [] rest h = refl
split_spaces-word n (c ∷ cs) rest h = ground (arith, split_spaces-word n cs rest, add_front)

split_spaces-render_line :
    (ups_name name value : Text)
    → is_word ups_name ≡ true
    → is_word name ≡ true
    → split_spaces 3 (render_line ups_name (name, value))
      ≡ codes "VAR" ∷ ups_name ∷ name ∷ quoted value ∷ []
unfolding split_spaces is_word
split_spaces-render_line ups_name name value h k =
    split_spaces-word 2 (codes "VAR") (ups_name ++ 32 ∷ (name ++ 32 ∷ quoted value)) refl
    ∙ ap (λ ps. codes "VAR" ∷ ps)
        (split_spaces-word 1 ups_name (name ++ 32 ∷ quoted value) h
          ∙ ap (λ ps. ups_name ∷ ps) (split_spaces-word 0 name (quoted value) k))

-- A printed line is read back as its name and value.
pub parse_variable_line-render_line :
    (ups_name name value : Text)
    → is_word ups_name ≡ true
    → is_word name ≡ true
    → is_empty name ≡ false
    → parse_variable_line (render_line ups_name (name, value)) ups_name ≡ variable name value
unfolding parse_variable_line
parse_variable_line-render_line ups_name name value h k named =
    ap (parts_of (render_line ups_name (name, value)) ups_name)
      (split_spaces-render_line ups_name name value h k)
    ∙ rw (text_eq_refl ups_name, named, trim_space-quoted value, parse_quoted_value-quoted value)
        refl

is_plain-append : (s t : Text) → is_plain s ≡ true → is_plain t ≡ true → is_plain (s ++ t) ≡ true
unfolding is_plain
is_plain-append [] t h k = k
is_plain-append (c ∷ cs) t h k = ground (arith, is_plain-append cs t)

is_plain-word : (w : Text) → is_word w ≡ true → is_plain w ≡ true
unfolding is_plain is_word
is_plain-word [] h = refl
is_plain-word (c ∷ cs) h = ground (arith, is_plain-word cs)

is_plain-escape : (v : Text) → is_plain v ≡ true → is_plain (escape v) ≡ true
unfolding is_plain escape
is_plain-escape [] h = refl
is_plain-escape (c ∷ cs) h = ground (arith, is_plain-escape cs)

pub render_line-is_plain :
    (ups_name name value : Text)
    → is_word ups_name ≡ true
    → is_word name ≡ true
    → is_plain value ≡ true
    → is_plain (render_line ups_name (name, value)) ≡ true
unfolding is_plain
render_line-is_plain ups_name name value h k l =
    is_plain-append ups_name (32 ∷ (name ++ 32 ∷ quoted value)) (is_plain-word ups_name h) (
      is_plain-append name (32 ∷ quoted value) (is_plain-word name k)
        (is_plain-append (escape value) (quote ∷ []) (is_plain-escape value l) refl))

pub prefix-is_plain :
    (s ups_name : Text)
    → is_plain s ≡ true
    → is_word ups_name ≡ true
    → is_plain (s ++ ups_name) ≡ true
prefix-is_plain s ups_name h k = is_plain-append s ups_name h (is_plain-word ups_name k)

pub trim_returns_plain : (t : Text) → is_plain t ≡ true → trim_returns t ≡ t
unfolding trim_returns is_plain
trim_returns_plain [] h = refl
trim_returns_plain (c ∷ cs) h = ground (arith, trim_returns_plain cs)
