-- ===== src/Text/Maps.antt =====
-- Maps and sets keyed by strings, as association lists with one entry for each key.
use nut_operator.Prelude.{
  Bool, true, false, not, ◌&&◌, ◌||◌, List, [], ◌∷◌, ◌++◌, if◌then◌else◌, Option, none, some, ◌≡◌,
  refl, arith,
}
use nut_operator.Text.{Text, text_eq}
use nut_operator.Text.Laws.{text_eq→eq, text_eq_refl}

unfoldable pub contains : List Text → Text → Bool
contains [] k = false
contains (x ∷ xs) k = text_eq x k || contains xs k

abbrev pub are_distinct : List Text → Bool
are_distinct [] = true
are_distinct (k ∷ ks) = not (contains ks k) && are_distinct ks

-- Adding to a set.
abbrev pub add_key : Text → List Text → List Text
add_key k ks = if contains ks k then ks else ks ++ k ∷ []

module _ {ℓ} {V : Type ℓ} where
  unfoldable pub lookup : Text → List (Text × V) → Option V
  lookup k [] = none
  lookup k ((j, v) ∷ m) = if text_eq j k then some v else lookup k m

  unfoldable pub insert : Text → V → List (Text × V) → List (Text × V)
  insert k v [] = (k, v) ∷ []
  insert k v ((j, w) ∷ m) = if text_eq j k then (k, v) ∷ m else (j, w) ∷ insert k v m

  pub lookup-insert :
      (k j : Text) (v : V) (m : List (Text × V))
      → lookup j (insert k v m) ≡ (if text_eq k j then some v else lookup j m)
  unfolding lookup insert
  lookup-insert k j v [] = refl
  lookup-insert k j v ((i, w) ∷ m) = ground (
    arith,
    lookup-insert k j v m,
    text_eq→eq k j,
    text_eq→eq i k,
    text_eq→eq i j,
    text_eq_refl i,
    text_eq_refl j,
    text_eq_refl k,
  )

  -- All that stands under the key.
  unfoldable pub remove : Text → List (Text × V) → List (Text × V)
  remove k [] = []
  remove k ((j, v) ∷ m) = if text_eq j k then remove k m else (j, v) ∷ remove k m

  pub lookup-remove :
      (k j : Text) (m : List (Text × V))
      → lookup j (remove k m) ≡ (if text_eq k j then none else lookup j m)
  unfolding lookup remove
  lookup-remove k j [] = ground arith
  lookup-remove k j ((i, w) ∷ m) = ground (
    arith,
    lookup-remove k j m,
    text_eq→eq k j,
    text_eq→eq i k,
    text_eq→eq i j,
    text_eq_refl i,
    text_eq_refl j,
    text_eq_refl k,
  )
