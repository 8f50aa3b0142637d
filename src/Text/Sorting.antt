-- ===== src/Text/Sorting.antt =====
-- sort.Slice and sort.Strings by an order given as a test: insertion in order, keeping ties.
use nut_operator.Prelude.{Bool, List, [], ◌∷◌, if◌then◌else◌, All, arith}
use mathlib.Core.List.{Perm}
use mathlib.Core.List.Perm
use nut_operator.Text.{Text, text_lt}

module _ {ℓ} {A : Type ℓ} (lt : A → A → Bool) where
  -- Before the first element that is not less than the new one.
  unfoldable pub insert_sorted : A → List A → List A
  insert_sorted x [] = x ∷ []
  insert_sorted x (y ∷ ys) =
      let rest = insert_sorted x ys in if lt y x then y ∷ rest else x ∷ y ∷ ys

  unfoldable pub sort_by : List A → List A
  unfolding insert_sorted
  sort_by [] = []
  sort_by (x ∷ xs) = insert_sorted x (sort_by xs)

  pub insert_sorted-All {κ} :
      (P : A → Type κ) (x : A) (xs : List A) → P x → All P xs → All P (insert_sorted x xs)
  unfolding insert_sorted
  insert_sorted-All P x [] px h = (px, tt)
  insert_sorted-All P x (y ∷ ys) px h = ground (arith, insert_sorted-All P x ys px h.1)

  pub sort_by-All {κ} : (P : A → Type κ) (xs : List A) → All P xs → All P (sort_by xs)
  unfolding sort_by
  sort_by-All P [] h = tt
  sort_by-All P (x ∷ xs) h = insert_sorted-All P x (sort_by xs) h.0 (sort_by-All P xs h.1)

  insert_sorted-parts {κ} :
      (P : A → Type κ) (x : A) (xs : List A) → All P (insert_sorted x xs) → P x × All P xs
  unfolding insert_sorted
  insert_sorted-parts P x [] h = h
  insert_sorted-parts P x (y ∷ ys) h = ground (arith, insert_sorted-parts P x ys)

  -- What holds of all sorted elements holds of the given ones.
  pub sorted-All {κ} : (P : A → Type κ) (xs : List A) → All P (sort_by xs) → All P xs
  unfolding sort_by
  sorted-All P [] h = tt
  sorted-All P (x ∷ xs) h =
      let (first, rest) = insert_sorted-parts P x (sort_by xs) h in (first, sorted-All P xs rest)

  pub insert_sorted-perm : (x : A) (xs : List A) → Perm (insert_sorted x xs) (x ∷ xs)
  unfolding insert_sorted
  insert_sorted-perm x [] = Perm.refl (x ∷ [])
  insert_sorted-perm x (y ∷ ys) =
      let deeper = Perm.trans (Perm.cons y (insert_sorted-perm x ys)) (Perm.swap x y ys) in
      ground (arith, deeper, Perm.refl (x ∷ y ∷ ys))

  pub sort_by-perm : (xs : List A) → Perm (sort_by xs) xs
  unfolding sort_by
  sort_by-perm [] = Perm.refl []
  sort_by-perm (x ∷ xs) =
      Perm.trans (insert_sorted-perm x (sort_by xs)) (Perm.cons x (sort_by-perm xs))

unfoldable pub sort_texts : List Text → List Text
unfolding sort_by text_lt
sort_texts = sort_by text_lt
