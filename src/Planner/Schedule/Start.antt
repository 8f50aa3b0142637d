-- ===== src/Planner/Schedule/Start.antt =====
-- The counts of compileGroups (internal/planner/compiler_scheduling.go) before the first wave.
use nut_operator.Prelude.{
  ℕ, suc, ◌+◌, ◌≤◌, ◌<◌, ◌≡◌, refl, List, [], ◌∷◌, arith, if◌then◌else◌, ◌∙◌, sym, length,
}
use nut_operator.Prelude.Int.{pos}
use nut_operator.Text.{Text, text_eq}
use nut_operator.Text.Laws.{text_eq→eq, text_eq_refl}
use nut_operator.Text.Maps.{lookup, insert, lookup-insert}
use nut_operator.Planner.Types.{Group}
use nut_operator.Planner.Schedule.{
  SuccessorMap, Indegrees, successors_of, bump_all, count_edges, zero_indegrees, keys, names,
}
use nut_operator.Planner.Schedule.Counts.{
  occurrences, indegree, without, occurrences-without, indegree-without,
}
use nut_operator.Planner.Schedule.Maps.{Counts, bump_all_up}

module _ {ℓ} {V : Type ℓ} where
  -- Inserting at a new key adds it, and at any key at most one.
  pub keys-insert_new :
      (k : Text) (v : V) (m : List (Text × V)) (n : Text)
      → occurrences k (keys m) ≡ 0
      → occurrences n (keys (insert k v m))
        ≡ (if text_eq k n then 1 else 0) + occurrences n (keys m)
  unfolding keys insert
  keys-insert_new k v [] n h = refl
  keys-insert_new k v ((j, w) ∷ m) n h = ground (arith, keys-insert_new k v m n, text_eq→eq j k)

  pub length-insert :
      (k : Text) (v : V) (m : List (Text × V))
      → length (keys (insert k v m)) ≤ suc (length (keys m))
  unfolding keys insert
  length-insert k v [] = omega arith
  length-insert k v ((j, w) ∷ m) = ground (arith, length-insert k v m)

pub zero_keys :
    (gs : List Group) (m : Indegrees)
    → ((n : Text) → occurrences n (names gs) + occurrences n (keys m) ≤ 1)
    → Counts (λ n. 0) m
    → ((n : Text)
        → occurrences n (keys (zero_indegrees gs m))
          ≡ occurrences n (names gs) + occurrences n (keys m))
      × Counts (λ n. 0) (zero_indegrees gs m)
unfolding zero_indegrees
zero_keys [] m h c = (λ n. omega arith, c)
zero_keys (g ∷ gs) m h c =
    let fresh : occurrences g.name (keys m) ≡ 0 = ground (arith, h g.name, text_eq_refl g.name) in
    let more : (n : Text)
        → occurrences n (keys (insert g.name (pos 0) m))
          ≡ (if text_eq g.name n then 1 else 0) + occurrences n (keys m) =
      λ n. keys-insert_new g.name (pos 0) m n fresh in
    let (all, c') =
      zero_keys gs (insert g.name (pos 0) m) (λ n. omega (arith, h n, more n))
        (λ n hn.
          ground (arith, lookup-insert g.name n (pos 0) m, more n, c n, text_eq→eq g.name n)) in
    (λ n. omega (arith, all n, more n), c')

pub zero_length :
    (gs : List Group) (m : Indegrees)
    → length (keys (zero_indegrees gs m)) ≤ length gs + length (keys m)
unfolding zero_indegrees
zero_length [] m = omega arith
zero_length (g ∷ gs) m =
    omega (arith, zero_length gs (insert g.name (pos 0) m), length-insert g.name (pos 0) m)

-- How many edges of a map come into a name.
abbrev pub edges_into : SuccessorMap → Text → ℕ
edges_into [] n = 0
edges_into ((k, ts) ∷ es) n = occurrences n ts + edges_into es n

pub count_all :
    (es : SuccessorMap) (m : Indegrees) (c : Text → ℕ)
    → ((n : Text) → 0 < edges_into es n → 0 < occurrences n (keys m))
    → Counts c m
    → (keys (count_edges es m) ≡ keys m) × Counts (λ n. edges_into es n + c n) (count_edges es m)
unfolding count_edges
count_all [] m c h all = (refl, λ n hn. ground (arith, all n hn))
count_all ((k, ts) ∷ es) m c h all =
    let (same, entries) = bump_all_up ts m c (λ n hn. h n (omega arith)) all in
    let (same', entries') =
      count_all es (bump_all (pos 1) ts m) (λ n. occurrences n ts + c n)
        (λ n hn. rw same (h n (omega arith))) entries in
    (same' ∙ same, λ n hn. ground (arith, entries' n hn))

indegree-none : (ks : List Text) (n : Text) → indegree (successors_of []) ks n ≡ 0
unfolding lookup
indegree-none [] n = refl
indegree-none (k ∷ ks) n = omega (arith, indegree-none ks n)

-- Without its first entry, a map reads the same at the other names.
indegree-other :
    (k : Text) (ts : List Text) (es : SuccessorMap) (ks : List Text) (n : Text)
    → occurrences k ks ≡ 0
    → indegree (successors_of ((k, ts) ∷ es)) ks n ≡ indegree (successors_of es) ks n
unfolding lookup
indegree-other k ts es [] n h = refl
indegree-other k ts es (j ∷ ks) n h =
    ground (arith, indegree-other k ts es ks n, text_eq→eq k j, text_eq_refl k)

pub edges_into-indegree :
    (es : SuccessorMap) (ks : List Text) (n : Text)
    → ((k : Text) → occurrences k (keys es) ≤ occurrences k ks)
    → ((k : Text) → occurrences k ks ≤ 1)
    → edges_into es n ≡ indegree (successors_of es) ks n
unfolding keys lookup
edges_into-indegree [] ks n h d = sym (indegree-none ks n)
edges_into-indegree ((k, ts) ∷ es) ks n h d =
    let there : 0 < occurrences k ks = ground (arith, h k, text_eq_refl k) in
    let gone : occurrences k (without k ks) ≡ 0 =
      ground (arith, occurrences-without k k ks there, d k, text_eq_refl k) in
    ground (
      arith,
      text_eq_refl k,
      indegree-without (successors_of ((k, ts) ∷ es)) n k ks there,
      indegree-other k ts es (without k ks) n gone,
      edges_into-indegree es (without k ks) n
          (λ j. omega (arith, h j, occurrences-without j k ks there))
          (λ j. omega (arith, d j, occurrences-without j k ks there)),
    )
