-- ===== src/Nut/RoundTrip.antt =====
-- internal/nut/client.go: the variables that a server prints are the variables that are read.
use nut_operator.Prelude.{
  ℕ, Bool, true, false, ◌||◌, List, [], ◌∷◌, ◌++◌, none, is_empty, ◌≡◌, refl, arith, All, ap, sym,
  ◌∙◌,
}
use mathlib.Core.List.{append_assoc, append-nil}
use nut_operator.Text.{Text, codes, text_eq}
use nut_operator.Text.Laws.{text_eq_refl}
use nut_operator.Text.Lines.{is_plain, IsLine, Fits, unlines, scan_lines-unlines}
use nut_operator.Text.Maps.{lookup, insert}
use nut_operator.Nut.Response.{
  Variables, read, variable, parse_variable_line, begin_of, end_of, on_line, on_begin, has_prefix,
  read_list, read_begin, read_list_variable_response,
}
use nut_operator.Nut.Rendering.{
  render_line, render_lines, render_response, is_word, parse_variable_line-render_line,
  render_line-is_plain, prefix-is_plain, trim_returns_plain,
}

-- A name without spaces, and a value on one line.
abbrev pub IsPrintable : Text × Text → Type 0
IsPrintable v = (is_word v.0 ≡ true) × (is_empty v.0 ≡ false) × (is_plain v.1 ≡ true)

-- No name stands twice, nor among those before.
abbrev pub AreNew : Variables → List (Text × Text) → Type 0
AreNew before [] = Unit
AreNew before (v ∷ vs) = (lookup v.0 before ≡ none) × AreNew (before ++ v ∷ []) vs

insert_new :
    (v : Text × Text) (m : Variables) → lookup v.0 m ≡ none → insert v.0 v.1 m ≡ m ++ v ∷ []
unfolding lookup insert
insert_new v [] h = refl
insert_new v ((k, w) ∷ m) h = ground (arith, insert_new v m)

module _ (ups_name : Text) (broken : Bool) (named : is_word ups_name ≡ true) where
  read_variable :
      (l : Text) (ls : List Text) (name value : Text) (m : Variables)
      → is_plain l ≡ true
      → has_prefix (codes "ERR ") l ≡ false
      → text_eq l (end_of ups_name) ≡ false
      → parse_variable_line l ups_name ≡ variable name value
      → read_list ups_name broken (l ∷ ls) m ≡ read_list ups_name broken ls (insert name value m)
  unfolding read_list
  read_variable l ls name value m plain no_error no_end parsed =
      let next = λ (n v : Text). read_list ups_name broken ls (insert n v m) in
      ap
        (λ t.
          on_line (has_prefix (codes "ERR ") t) (text_eq t (end_of ups_name)) t
            (parse_variable_line t ups_name) next m)
        (trim_returns_plain l plain)
      ∙ ap (λ b. on_line b (text_eq l (end_of ups_name)) l (parse_variable_line l ups_name) next m)
          no_error
      ∙ ap (λ b. on_line false b l (parse_variable_line l ups_name) next m) no_end
      ∙ ap (λ p. on_line false false l p next m) parsed

  read_end : (m : Variables) → read_list ups_name broken (end_of ups_name ∷ []) m ≡ read m
  unfolding read_list has_prefix is_plain
  read_end m =
      let next = λ (n v : Text). read_list ups_name broken [] (insert n v m) in
      ap
        (λ t.
          on_line (has_prefix (codes "ERR ") t) (text_eq t (end_of ups_name)) t
            (parse_variable_line t ups_name) next m)
        (trim_returns_plain (end_of ups_name)
          (prefix-is_plain (codes "END LIST VAR ") ups_name refl named))
      ∙ ap
          (λ b.
            on_line false b (end_of ups_name) (parse_variable_line (end_of ups_name) ups_name) next
              m)
          (text_eq_refl (end_of ups_name))

  read_lines :
      (vs : List (Text × Text)) (m : Variables)
      → All IsPrintable vs
      → AreNew m vs
      → read_list ups_name broken (render_lines ups_name vs) m ≡ read (m ++ vs)
  unfolding render_lines has_prefix text_eq
  read_lines [] m h new = read_end m ∙ ap read (sym (append-nil m))
  read_lines ((name, value) ∷ vs) m ((word, filled, plain), h) (new, rest) =
      read_variable (render_line ups_name (name, value)) (render_lines ups_name vs) name value m
        (render_line-is_plain ups_name name value named word plain) refl refl
        (parse_variable_line-render_line ups_name name value named word filled)
      ∙ ap (read_list ups_name broken (render_lines ups_name vs)) (insert_new (name, value) m new)
      ∙ read_lines vs (m ++ (name, value) ∷ []) h rest
      ∙ ap read (append_assoc m ((name, value) ∷ []) vs)

  begin_lines :
      (ls : List Text)
      → read_begin ups_name broken (begin_of ups_name ∷ ls) ≡ read_list ups_name broken ls []
  unfolding read_begin has_prefix is_plain
  begin_lines ls =
      let rest = read_list ups_name broken ls [] in
      ap (λ t. on_begin (has_prefix (codes "ERR ") t) (text_eq t (begin_of ups_name)) t rest)
        (trim_returns_plain (begin_of ups_name)
          (prefix-is_plain (codes "BEGIN LIST VAR ") ups_name refl named))
      ∙ ap (λ b. on_begin false b (begin_of ups_name) rest) (text_eq_refl (begin_of ups_name))

lines-IsLine :
    (ups_name : Text) (vs : List (Text × Text))
    → is_word ups_name ≡ true
    → All IsPrintable vs
    → All IsLine (render_lines ups_name vs)
unfolding render_lines is_plain
lines-IsLine ups_name [] named h =
    ((prefix-is_plain (codes "END LIST VAR ") ups_name refl named, refl), tt)
lines-IsLine ups_name ((name, value) ∷ vs) named ((word, filled, plain), h) = (
  (render_line-is_plain ups_name name value named word plain, refl),
  lines-IsLine ups_name vs named h,
)

-- The variables that a server prints, with names that are words and stand once, values on one line
-- and lines that fit the buffer, are exactly the variables that are read, whatever quotes,
-- backslashes and spaces the values have, and whether or not the stream breaks off behind the
-- list.
pub read-render :
    (limit : ℕ) (ups_name : Text) (vs : List (Text × Text)) (breaks : Bool)
    → is_word ups_name ≡ true
    → All IsPrintable vs
    → AreNew [] vs
    → All (Fits limit) (render_response ups_name vs)
    → read_list_variable_response limit ups_name (unlines (render_response ups_name vs)) breaks
      ≡ read vs
unfolding read_list_variable_response is_plain
read-render limit ups_name vs breaks named h new fits =
    ap (λ r. read_begin ups_name (r.1 || breaks) r.0)
      (scan_lines-unlines limit (render_response ups_name vs)
        (
          (prefix-is_plain (codes "BEGIN LIST VAR ") ups_name refl named, refl),
          lines-IsLine ups_name vs named h,
        )
        fits)
    ∙ begin_lines ups_name breaks named (render_lines ups_name vs)
    ∙ read_lines ups_name breaks named vs [] h new
