-- ===== src/Text/Lines.antt =====
-- Lines of a text, as bufio.Scanner with ScanLines reads them.
use nut_operator.Prelude.{
  ℕ, ◌+◌, ◌<◌, Bool, true, false, not, ◌&&◌, List, [], ◌∷◌, ◌++◌, if◌then◌else◌, ◌==◌, ltb, ◌≡◌,
  refl, arith, length, length-append, is_empty, All, ap, sym, ◌∙◌,
}
use mathlib.Core.List.{append_assoc}
use nut_operator.Text.{Text}

abbrev pub newline : ℕ
newline = 10

unfoldable pub in_front : ℕ → List Text → List Text
in_front c [] = (c ∷ []) ∷ []
in_front c (l ∷ ls) = (c ∷ l) ∷ ls

-- The lines without their ends; an end of text ends a last line that is not empty.
unfoldable pub split_lines : Text → List Text
unfolding in_front
split_lines [] = []
split_lines (c ∷ cs) =
    let rest = split_lines cs in if c == newline then [] ∷ rest else in_front c rest

-- One carriage return at the end is dropped.
unfoldable pub drop_return : Text → Text
drop_return [] = []
drop_return (c ∷ cs) = let rest = drop_return cs in if c == 13 && is_empty cs then [] else c ∷ rest

-- What Scan gives up to the first line that does not fit the buffer, and whether one does not.
unfoldable pub scan : ℕ → List Text → List Text × Bool
unfolding drop_return
scan limit [] = ([], false)
scan limit (l ∷ ls) =
    let (rest, too_long) = scan limit ls in
    if ltb (length l) limit then (drop_return l ∷ rest, too_long) else ([], true)

unfoldable pub scan_lines : ℕ → Text → List Text × Bool
unfolding split_lines scan
scan_lines limit t = scan limit (split_lines t)

-- A line to write: not empty, with neither a newline nor a carriage return.
unfoldable pub is_plain : Text → Bool
is_plain [] = true
is_plain (c ∷ cs) = not (c == newline) && not (c == 13) && is_plain cs

abbrev pub IsLine : Text → Type 0
IsLine l = (is_plain l ≡ true) × (is_empty l ≡ false)

unfoldable pub unlines : List Text → Text
unlines [] = []
unlines (l ∷ ls) = l ++ newline ∷ unlines ls

pub split_lines-append :
    (l rest : Text) → is_plain l ≡ true → split_lines (l ++ newline ∷ rest) ≡ l ∷ split_lines rest
unfolding split_lines is_plain
split_lines-append [] rest h = refl
split_lines-append (c ∷ cs) rest h = ground (arith, split_lines-append cs rest, in_front)

pub split_lines-unlines : (ls : List Text) → All IsLine ls → split_lines (unlines ls) ≡ ls
unfolding split_lines unlines
split_lines-unlines [] h = refl
split_lines-unlines (l ∷ ls) h =
    split_lines-append l (unlines ls) h.0.0 ∙ ap (λ m. l ∷ m) (split_lines-unlines ls h.1)

pub drop_return_plain : (l : Text) → is_plain l ≡ true → drop_return l ≡ l
unfolding drop_return is_plain
drop_return_plain [] h = refl
drop_return_plain (c ∷ cs) h = ground (arith, drop_return_plain cs)

-- If no line is too long, all are given.
pub scan_whole :
    (limit : ℕ) (ls : List Text)
    → All IsLine ls
    → (scan limit ls).1 ≡ false
    → (scan limit ls).0 ≡ ls
unfolding scan
scan_whole limit [] h e = refl
scan_whole limit (l ∷ ls) h e = ground (arith, scan_whole limit ls h.1, drop_return_plain l h.0.0)

abbrev pub Fits : ℕ → Text → Type 0
Fits limit l = length l < limit

pub scan-Fits :
    (limit : ℕ) (ls : List Text) → All IsLine ls → All (Fits limit) ls → scan limit ls ≡ (ls, false)
unfolding scan
scan-Fits limit [] h k = refl
scan-Fits limit (l ∷ ls) h k =
    ground (arith, scan-Fits limit ls h.1 k.1, drop_return_plain l h.0.0, k.0)

-- Lines that were written and fit are read back as they are.
pub scan_lines-unlines :
    (limit : ℕ) (ls : List Text)
    → All IsLine ls
    → All (Fits limit) ls
    → scan_lines limit (unlines ls) ≡ (ls, false)
unfolding scan_lines
scan_lines-unlines limit ls h k = rw (split_lines-unlines ls h) (scan-Fits limit ls h k)

pub unlines-append :
    (ls : List Text) (l : Text) → unlines (ls ++ l ∷ []) ≡ unlines ls ++ (l ++ newline ∷ [])
unfolding unlines
unlines-append [] l = refl
unlines-append (m ∷ ls) l =
    ap (λ r. m ++ newline ∷ r) (unlines-append ls l)
    ∙ sym (append_assoc m (newline ∷ unlines ls) (l ++ newline ∷ []))

pub unlines-concat : (ls ms : List Text) → unlines (ls ++ ms) ≡ unlines ls ++ unlines ms
unfolding unlines
unlines-concat [] ms = refl
unlines-concat (l ∷ ls) ms =
    ap (λ r. l ++ newline ∷ r) (unlines-concat ls ms)
    ∙ sym (append_assoc l (newline ∷ unlines ls) (unlines ms))

pub unlines-length : (l : Text) (ls : List Text) → 0 < length (unlines (l ∷ ls))
unfolding unlines
unlines-length l ls = omega (arith, length-append l (newline ∷ unlines ls))

-- Lines behind others make the text longer.
pub unlines_same_length :
    (ls ms : List Text) → length (unlines ls) ≡ length (unlines (ls ++ ms)) → ms ≡ []
unlines_same_length ls [] h = refl
unlines_same_length ls (m ∷ ms) h =
    let longer =
      rw (unlines-concat ls (m ∷ ms), length-append (unlines ls) (unlines (m ∷ ms))) at h in
    elim (unlines_grow (unlines-length m ms) longer) [ ]
  where
    unlines_grow : {a b : ℕ} → 0 < b → a ≡ a + b → ⊥
    unlines_grow p q = omega arith

pub scan_lines_whole :
    (limit : ℕ) (ls : List Text)
    → All IsLine ls
    → (scan_lines limit (unlines ls)).1 ≡ false
    → (scan_lines limit (unlines ls)).0 ≡ ls
unfolding scan_lines
scan_lines_whole limit ls h = rw (split_lines-unlines ls h) (scan_whole limit ls h)
