-- ===== src/Text/Laws.antt =====
-- Equality of texts, and trimming.
use nut_operator.Prelude.{
  ℕ, Bool, true, false, ◌||◌, ◌==◌, ◌≡◌, refl, [], ◌∷◌, ◌++◌, map, arith, is_empty, ap, ◌∙◌,
}
use nut_operator.Text.{Text, text_eq, is_space, trim_left, trim_right, trim_space, lower}

pub text_eq→eq : (a b : Text) → text_eq a b ≡ true → a ≡ b
unfolding text_eq
text_eq→eq [] [] h = refl
text_eq→eq [] (y ∷ ys) h = cc
text_eq→eq (x ∷ xs) [] h = cc
text_eq→eq (x ∷ xs) (y ∷ ys) h = ground (arith, text_eq→eq xs ys)

pub text_eq_refl : (a : Text) → text_eq a a ≡ true
unfolding text_eq
text_eq_refl [] = refl
text_eq_refl (x ∷ xs) = ground (arith, text_eq_refl xs)

pub trim_right_idem : (t : Text) → trim_right (trim_right t) ≡ trim_right t
unfolding trim_right
trim_right_idem [] = refl
trim_right_idem (x ∷ xs) = ground (arith, trim_right_idem xs)

-- What `trim_left` leaves begins with no space, and trimming on the right keeps that.
trim_left-trim_right : (t : Text) → trim_left (trim_right (trim_left t)) ≡ trim_right (trim_left t)
unfolding trim_left trim_right
trim_left-trim_right [] = refl
trim_left-trim_right (x ∷ xs) = ground (arith, trim_left-trim_right xs)

pub trim_space_idem : (t : Text) → trim_space (trim_space t) ≡ trim_space t
unfolding trim_space
trim_space_idem t = ap trim_right (trim_left-trim_right t) ∙ trim_right_idem (trim_left t)

lower-is_space : (c : ℕ) → is_space (lower c) ≡ is_space c
unfolding is_space lower
lower-is_space c = ground arith

-- Lower case keeps what is blank.
pub trim_right-lower : (t : Text) → trim_right (map lower t) ≡ map lower (trim_right t)
unfolding trim_right
trim_right-lower [] = refl
trim_right-lower (x ∷ xs) = ground (arith, trim_right-lower xs, lower-is_space x)

pub trim_right-append :
    (p s : Text)
    → trim_right s ≡ s
    → is_empty s ≡ false
    → (trim_right (p ++ s) ≡ p ++ s) × (is_empty (p ++ s) ≡ false)
unfolding trim_right
trim_right-append [] s h k = (h, k)
trim_right-append (x ∷ xs) s h k = ground (arith, trim_right-append xs s h k)

abbrev pub has_code : ℕ → Text → Bool
has_code s [] = false
has_code s (c ∷ cs) = c == s || has_code s cs

-- A text is cut at the first place of a sign.
pub cut_at :
    (s : ℕ) (a c x y : Text)
    → has_code s a ≡ false
    → has_code s c ≡ false
    → a ++ s ∷ x ≡ c ++ s ∷ y
    → (a ≡ c) × (x ≡ y)
cut_at s [] [] x y ha hc h = (refl, ground (arith, h))
cut_at s [] (d ∷ c) x y ha hc h = ground (arith, h, hc)
cut_at s (b ∷ a) [] x y ha hc h = ground (arith, h, ha)
cut_at s (b ∷ a) (d ∷ c) x y ha hc h = ground (arith, h, cut_at s a c x y)
