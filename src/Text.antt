-- ===== src/Text.antt =====
-- Go strings as lists of code points, and what the program uses of package strings and of maps
-- keyed by strings. Byte order and code point order agree on valid UTF-8.
pub mod Laws
pub mod Sorting
pub mod Maps
pub mod Lines
use Prim.Native.String.{String}
use Prim.Native.Char.{code}
use nut_operator.Prelude.{
  ℕ, zero, suc, ◌+◌, ◌-◌, ◌/◌, ◌%◌, Bool, true, false, not, ◌&&◌, ◌||◌, List, [], ◌∷◌, ◌++◌, map,
  if◌then◌else◌, leb, ltb, ◌==◌, is_empty,
}

abbrev pub Text : Type 0
Text = List ℕ

-- The code points of a literal.
abbrev pub codes : String → Text
codes String.[] = []
codes (String.◌∷◌ c s) = code c ∷ codes s

-- `==` and `<` on strings.
unfoldable pub text_eq : Text → Text → Bool
text_eq [] [] = true
text_eq [] (y ∷ ys) = false
text_eq (x ∷ xs) [] = false
text_eq (x ∷ xs) (y ∷ ys) = x == y && text_eq xs ys

unfoldable pub text_lt : Text → Text → Bool
text_lt xs [] = false
text_lt [] (y ∷ ys) = true
text_lt (x ∷ xs) (y ∷ ys) = ltb x y || x == y && text_lt xs ys

-- unicode.IsSpace.
unfoldable pub is_space : ℕ → Bool
is_space c =
    leb 9 c && leb c 13
    || c == 32
    || c == 0x85
    || c == 0xa0
    || c == 0x1680
    || leb 0x2000 c && leb c 0x200a
    || c == 0x2028
    || c == 0x2029
    || c == 0x202f
    || c == 0x205f
    || c == 0x3000

unfoldable pub trim_left : Text → Text
trim_left [] = []
trim_left (x ∷ xs) = let rest = trim_left xs in if is_space x then rest else x ∷ xs

unfoldable pub trim_right : Text → Text
trim_right [] = []
trim_right (x ∷ xs) =
    let rest = trim_right xs in if is_space x && is_empty rest then [] else x ∷ rest

-- strings.TrimSpace.
unfoldable pub trim_space : Text → Text
unfolding trim_left trim_right
trim_space t = trim_right (trim_left t)

-- strings.ToLower and strings.ToUpper on ASCII; other letters are left as they are.
unfoldable pub lower : ℕ → ℕ
lower c = if leb 65 c && leb c 90 then c + 32 else c

unfoldable pub upper : ℕ → ℕ
upper c = if leb 97 c && leb c 122 then c - 32 else c

-- strings.Fields: the runs of characters that are no space.
unfoldable pub fields_from : Text → Text → List Text
fields_from current [] = if is_empty current then [] else current ∷ []
fields_from current (x ∷ xs) =
    let stop = fields_from [] xs in
    let go = fields_from (current ++ x ∷ []) xs in
    if is_space x then (if is_empty current then stop else current ∷ stop) else go

unfoldable pub fields : Text → List Text
unfolding fields_from
fields t = fields_from [] t

-- Decimal digits, with fuel for as many digits as there are, and at least three of them ("%03d").
unfoldable pub decimal : ℕ → ℕ → Text → Text
decimal zero n acc = acc
decimal (suc f) n acc =
    let digit = 48 + n % 10 in
    let rest = decimal f (n / 10) (digit ∷ acc) in if ltb n 10 then digit ∷ acc else rest

unfoldable pub three_digits : ℕ → Text
unfolding decimal
three_digits n =
    if ltb n 10
    then 48 ∷ 48 ∷ decimal 1 n []
    else if ltb n 100
    then 48 ∷ decimal 2 n []
    else decimal n n []
