-- ===== src/Planner/Schedule/Counts.antt =====
-- Lists of names as multisets: occurrences of a name, and the edges that come into it.
use nut_operator.Prelude.{
  ℕ, suc, ◌+◌, ◌<◌, Bool, ◌≡◌, refl, List, [], ◌∷◌, ◌++◌, map, arith, if◌then◌else◌, length,
}
use nut_operator.Text.{Text, text_eq}
use nut_operator.Text.Laws.{text_eq→eq}
use nut_operator.Text.Sorting.{sort_by, insert_sorted}

abbrev pub occurrences : Text → List Text → ℕ
occurrences n [] = 0
occurrences n (k ∷ ks) = (if text_eq k n then 1 else 0) + occurrences n ks

pub occurrences-append :
    (n : Text) (xs ys : List Text) → occurrences n (xs ++ ys) ≡ occurrences n xs + occurrences n ys
occurrences-append n [] ys = omega arith
occurrences-append n (x ∷ xs) ys = omega (arith, occurrences-append n xs ys)

-- Sorting keeps how often a name occurs, also under a map.
module _ {ℓ} {A : Type ℓ} (lt : A → A → Bool) (f : A → Text) where
  occurrences-insert :
      (n : Text) (x : A) (xs : List A)
      → occurrences n (map f (insert_sorted lt x xs)) ≡ occurrences n (map f (x ∷ xs))
  unfolding insert_sorted
  occurrences-insert n x [] = refl
  occurrences-insert n x (y ∷ ys) = ground (arith, occurrences-insert n x ys)

  pub occurrences-sort :
      (n : Text) (xs : List A) → occurrences n (map f (sort_by lt xs)) ≡ occurrences n (map f xs)
  unfolding sort_by
  occurrences-sort n [] = refl
  occurrences-sort n (x ∷ xs) =
      omega (arith, occurrences-insert n x (sort_by lt xs), occurrences-sort n xs)

-- How many edges come into a name from the names of a list.
abbrev pub indegree : (Text → List Text) → List Text → Text → ℕ
indegree succ [] n = 0
indegree succ (k ∷ ks) n = occurrences n (succ k) + indegree succ ks n

-- A list without the first occurrence of a name.
abbrev pub without : Text → List Text → List Text
without k [] = []
without k (j ∷ ks) = if text_eq j k then ks else j ∷ without k ks

pub occurrences-without :
    (n k : Text) (ks : List Text)
    → 0 < occurrences k ks
    → occurrences n ks ≡ (if text_eq k n then 1 else 0) + occurrences n (without k ks)
occurrences-without n k [] h = elim h [ ]
occurrences-without n k (j ∷ ks) h = ground (arith, text_eq→eq j k, occurrences-without n k ks)

pub indegree-without :
    (succ : Text → List Text) (n k : Text) (ks : List Text)
    → 0 < occurrences k ks
    → indegree succ ks n ≡ occurrences n (succ k) + indegree succ (without k ks) n
indegree-without succ n k [] h = elim h [ ]
indegree-without succ n k (j ∷ ks) h = ground (arith, text_eq→eq j k, indegree-without succ n k ks)

pub length-without :
    (k : Text) (ks : List Text) → 0 < occurrences k ks → length ks ≡ suc (length (without k ks))
length-without k [] h = elim h [ ]
length-without k (j ∷ ks) h = ground (arith, length-without k ks)
