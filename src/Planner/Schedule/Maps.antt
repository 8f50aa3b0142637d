-- ===== src/Planner/Schedule/Maps.antt =====
-- The indegree map of compileGroups (internal/planner/compiler_scheduling.go): keys and entries.
use nut_operator.Prelude.{
  ℕ, suc, ◌+◌, ◌≤◌, ◌<◌, false, ◌≡◌, refl, List, [], ◌∷◌, arith, if◌then◌else◌, some, ◌∙◌,
}
use nut_operator.Prelude.Int.{pos, negsuc, ◌+ℤ◌}
use nut_operator.Text.{Text, text_eq}
use nut_operator.Text.Laws.{text_eq→eq, text_eq_refl}
use nut_operator.Text.Maps.{lookup, insert, lookup-insert}
use nut_operator.Planner.Schedule.{Indegrees, count_or_zero, bump, bump_all, delete, keys, ready}
use nut_operator.Planner.Schedule.Counts.{occurrences, without}

module _ {ℓ} {V : Type ℓ} where
  pub keys-delete : (k : Text) (m : List (Text × V)) → keys (delete k m) ≡ without k (keys m)
  unfolding keys delete
  keys-delete k [] = refl
  keys-delete k ((j, v) ∷ m) = ground (arith, keys-delete k m)

  pub keys-insert_old :
      (k : Text) (v : V) (m : List (Text × V))
      → 0 < occurrences k (keys m)
      → keys (insert k v m) ≡ keys m
  unfolding keys insert
  keys-insert_old k v [] h = elim h [ ]
  keys-insert_old k v ((j, w) ∷ m) h = ground (arith, keys-insert_old k v m, text_eq→eq j k)

  pub lookup-delete :
      (n k : Text) (m : List (Text × V)) → text_eq k n ≡ false → lookup n (delete k m) ≡ lookup n m
  unfolding lookup delete
  lookup-delete n k [] h = refl
  lookup-delete n k ((j, v) ∷ m) h = ground (arith, lookup-delete n k m h, text_eq→eq j k)

  pub lookup-key :
      (n : Text) (m : List (Text × V)) (v : V) → lookup n m ≡ some v → 0 < occurrences n (keys m)
  unfolding lookup keys
  lookup-key n [] v h = cc
  lookup-key n ((j, w) ∷ m) v h = ground (arith, lookup-key n m v)

-- The entries of the keys are given by a function, as numbers of edges.
abbrev pub Counts : (Text → ℕ) → Indegrees → Type 0
Counts c m = (n : Text) → 0 < occurrences n (keys m) → lookup n m ≡ some (pos (c n))

one_up : (c : ℕ) → pos c +ℤ pos 1 ≡ pos (suc c)
unfolding ◌+ℤ◌
one_up c = ground arith

one_down : (c : ℕ) → pos (suc c) +ℤ negsuc 0 ≡ pos c
unfolding ◌+ℤ◌
one_down c = ground arith

-- Counting one edge down at a key.
bump_down :
    (k : Text) (m : Indegrees) (c : Text → ℕ)
    → 0 < occurrences k (keys m)
    → Counts (λ n. (if text_eq k n then 1 else 0) + c n) m
    → (keys (bump (negsuc 0) k m) ≡ keys m) × Counts c (bump (negsuc 0) k m)
unfolding bump
bump_down k m c h all = (keys-insert_old k _ m h, entries)
  where
    entries : Counts c (bump (negsuc 0) k m)
    entries n hn =
        let hn' = rw (keys-insert_old k (count_or_zero (lookup k m) +ℤ negsuc 0) m h) at hn in
        ground (
          arith,
          lookup-insert k n (count_or_zero (lookup k m) +ℤ negsuc 0) m,
          all n hn',
          all k h,
          one_down (c k),
          text_eq→eq k n,
          text_eq_refl k,
        )

bump_up :
    (k : Text) (m : Indegrees) (c : Text → ℕ)
    → 0 < occurrences k (keys m)
    → Counts c m
    → (keys (bump (pos 1) k m) ≡ keys m)
      × Counts (λ n. (if text_eq k n then 1 else 0) + c n) (bump (pos 1) k m)
unfolding bump
bump_up k m c h all = (keys-insert_old k _ m h, entries)
  where
    entries : Counts (λ n. (if text_eq k n then 1 else 0) + c n) (bump (pos 1) k m)
    entries n hn =
        let hn' = rw (keys-insert_old k (count_or_zero (lookup k m) +ℤ pos 1) m h) at hn in
        ground (
          arith,
          lookup-insert k n (count_or_zero (lookup k m) +ℤ pos 1) m,
          all n hn',
          all k h,
          one_up (c k),
          text_eq→eq k n,
          text_eq_refl k,
        )

-- All of a list of names are keys.
abbrev pub AreKeys : List Text → Indegrees → Type 0
AreKeys ks m = (n : Text) → 0 < occurrences n ks → 0 < occurrences n (keys m)

head_key :
    (k : Text) (ks : List Text) (m : Indegrees) → AreKeys (k ∷ ks) m → 0 < occurrences k (keys m)
head_key k ks m h = h k (ground (arith, text_eq_refl k))

pub bump_all_down :
    (ks : List Text) (m : Indegrees) (c : Text → ℕ)
    → AreKeys ks m
    → Counts (λ n. occurrences n ks + c n) m
    → (keys (bump_all (negsuc 0) ks m) ≡ keys m) × Counts c (bump_all (negsuc 0) ks m)
unfolding bump_all
bump_all_down [] m c h all = (refl, λ n hn. ground (arith, all n hn))
bump_all_down (k ∷ ks) m c h all =
    let (same, entries) =
      bump_down k m (λ n. occurrences n ks + c n) (head_key k ks m h)
        (λ n hn. ground (arith, all n hn)) in
    let (same', entries') =
      bump_all_down ks (bump (negsuc 0) k m) c (λ n hn. rw same (h n (omega arith))) entries in
    (same' ∙ same, entries')

pub bump_all_up :
    (ks : List Text) (m : Indegrees) (c : Text → ℕ)
    → AreKeys ks m
    → Counts c m
    → (keys (bump_all (pos 1) ks m) ≡ keys m)
      × Counts (λ n. occurrences n ks + c n) (bump_all (pos 1) ks m)
unfolding bump_all
bump_all_up [] m c h all = (refl, λ n hn. ground (arith, all n hn))
bump_all_up (k ∷ ks) m c h all =
    let (same, entries) = bump_up k m c (head_key k ks m h) all in
    let (same', entries') =
      bump_all_up ks (bump (pos 1) k m) (λ n. (if text_eq k n then 1 else 0) + c n)
        (λ n hn. rw same (h n (omega arith))) entries in
    (same' ∙ same, λ n hn. ground (arith, entries' n hn))

-- The names at indegree 0 are keys, no more often than the keys, and have the entry 0; a key with
-- the entry 0 is among them.
pub occurrences-ready :
    (n : Text) (m : Indegrees) → occurrences n (ready m) ≤ occurrences n (keys m)
unfolding ready keys
occurrences-ready n [] = omega arith
occurrences-ready n ((k, c) ∷ m) = ground (arith, occurrences-ready n m)

pub lookup-ready :
    (n : Text) (m : Indegrees)
    → occurrences n (keys m) ≤ 1
    → 0 < occurrences n (ready m)
    → lookup n m ≡ some (pos 0)
unfolding ready keys lookup
lookup-ready n [] h k = elim k [ ]
lookup-ready n ((j, c) ∷ m) h k = ground (arith, lookup-ready n m, occurrences-ready n m)

pub ready_of_lookup :
    (n : Text) (m : Indegrees) → lookup n m ≡ some (pos 0) → 0 < occurrences n (ready m)
unfolding ready lookup
ready_of_lookup n [] h = cc
ready_of_lookup n ((j, c) ∷ m) h = ground (arith, ready_of_lookup n m)
