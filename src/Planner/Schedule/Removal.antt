-- ===== src/Planner/Schedule/Removal.antt =====
-- The loop of compileGroups (internal/planner/compiler_scheduling.go) that takes a wave out.
use nut_operator.Prelude.{
  ◌+◌, ◌≤◌, ◌<◌, false, ◌≡◌, refl, List, [], ◌∷◌, arith, some, ◌∙◌, ap, length,
}
use nut_operator.Prelude.Int.{pos, negsuc}
use nut_operator.Text.{Text, text_eq}
use nut_operator.Text.Laws.{text_eq→eq, text_eq_refl}
use nut_operator.Planner.Schedule.{
  SuccessorMap, Indegrees, successors_of, bump_all, delete, keys, take_out,
}
use nut_operator.Planner.Schedule.Counts.{
  occurrences, indegree, without, occurrences-without, indegree-without, length-without,
}
use nut_operator.Planner.Schedule.Maps.{keys-delete, lookup-delete, Counts, AreKeys, bump_all_down}

-- Between two waves: each remaining group's entry is the number of edges into it from the groups
-- that remain, no edge of these leads to a group that is gone, and no name is there twice.
pub record IsCounted (succ : Text → List Text) (m : Indegrees) : Type 0 where
  pub counted : Counts (indegree succ (keys m)) m
  pub closed : (n : Text) → occurrences n (keys m) ≡ 0 → indegree succ (keys m) n ≡ 0
  pub distinct : (n : Text) → occurrences n (keys m) ≤ 1

-- The names of a list taken out, one by one.
abbrev pub without_all : List Text → List Text → List Text
without_all [] ks = ks
without_all (w ∷ ws) ks = without_all ws (without w ks)

module _ (edges : SuccessorMap) where
  abbrev pub succ_of : Text → List Text
  succ_of = successors_of edges

  remaining_others :
      (k : Text) (m : Indegrees)
      → IsCounted succ_of m
      → 0 < occurrences k (keys m)
      → (n : Text) → 0 < occurrences n (without k (keys m))
      → (text_eq k n ≡ false) × (0 < occurrences n (keys m))
  remaining_others k m i h n hn = ground (arith, occurrences-without n k (keys m) h, i.distinct n)

  deleted_counts :
      (k : Text) (m : Indegrees)
      → IsCounted succ_of m
      → 0 < occurrences k (keys m)
      → Counts
          (λ n. occurrences n (succ_of k) + indegree succ_of (without k (keys m)) n)
          (delete k m)
  deleted_counts k m i h n hn =
      let (other, old) = remaining_others k m i h n (rw (keys-delete k m) at hn) in
      lookup-delete n k m other
      ∙ i.counted n old
      ∙ ap (λ c. some (pos c)) (indegree-without succ_of n k (keys m) h)

  successors_remain :
      (k : Text) (m : Indegrees)
      → IsCounted succ_of m
      → 0 < occurrences k (keys m)
      → indegree succ_of (keys m) k ≡ 0
      → AreKeys (succ_of k) (delete k m)
  successors_remain k m i h z n hn = rw (keys-delete k m) (
      ground (
        arith,
        indegree-without succ_of n k (keys m) h,
        occurrences-without n k (keys m) h,
        i.closed n,
        text_eq→eq k n,
      ))

  -- Taking out one group that nothing waits for.
  remove : Text → Indegrees → Indegrees
  remove k m = bump_all (negsuc 0) (succ_of k) (delete k m)

  remove-IsCounted :
      (k : Text) (m : Indegrees)
      → IsCounted succ_of m
      → 0 < occurrences k (keys m)
      → indegree succ_of (keys m) k ≡ 0
      → (keys (remove k m) ≡ without k (keys m)) × IsCounted succ_of (remove k m)
  unfolding remove
  remove-IsCounted k m i h z =
      let left = without k (keys m) in
      let (same, entries) =
        bump_all_down (succ_of k) (delete k m) (indegree succ_of left) (successors_remain k m i h z)
          (deleted_counts k m i h) in
      let e : keys (bump_all (negsuc 0) (succ_of k) (delete k m)) ≡ left = same ∙ keys-delete k m in
      (
        e,
        record {
          counted = rw e (rw e at entries);
          closed = rw e (λ n none_left. ground (
            arith,
            indegree-without succ_of n k (keys m) h,
            occurrences-without n k (keys m) h,
            i.closed n,
            text_eq→eq k n,
          ));
          distinct = rw e (λ n. ground (arith, occurrences-without n k (keys m) h, i.distinct n));
        },
      )

  -- What a wave may be: names that remain, none twice, and none that another one leads to.
  pub record IsTakeable (ws : List Text) (m : Indegrees) : Type 0 where
    pub present : (n : Text) → occurrences n ws ≤ occurrences n (keys m)
    pub free : (n : Text) → 0 < occurrences n ws → indegree succ_of (keys m) n ≡ 0

  head_occurs : (k : Text) (ks : List Text) → 0 < occurrences k (k ∷ ks)
  head_occurs k ks = ground (arith, text_eq_refl k)

  rest-IsTakeable :
      (k : Text) (ws : List Text) (m : Indegrees)
      → 0 < occurrences k (keys m)
      → keys (remove k m) ≡ without k (keys m)
      → IsTakeable (k ∷ ws) m
      → IsTakeable ws (remove k m)
  rest-IsTakeable k ws m h e t = record {
    present = rw e (λ n. ground (arith, occurrences-without n k (keys m) h, t.present n));
    free = rw e (λ n hn. ground (arith, indegree-without succ_of n k (keys m) h, t.free n));
  }

  -- Taking a wave out leaves the other groups, with the right entries.
  pub take_out-IsCounted :
      (ws : List Text) (m : Indegrees)
      → IsCounted succ_of m
      → IsTakeable ws m
      → (keys (take_out edges ws m) ≡ without_all ws (keys m))
        × IsCounted succ_of (take_out edges ws m)
        × ((n : Text)
            → occurrences n (keys m)
              ≡ occurrences n ws + occurrences n (keys (take_out edges ws m)))
        × (length (keys m) ≡ length ws + length (keys (take_out edges ws m)))
  unfolding take_out remove
  take_out-IsCounted [] m i t = (refl, i, λ n. omega arith, omega arith)
  take_out-IsCounted (k ∷ ws) m i t =
      let h : 0 < occurrences k (keys m) = omega (arith, t.present k, head_occurs k ws) in
      let (e, i') = remove-IsCounted k m i h (t.free k (head_occurs k ws)) in
      let (e', i'', total, shorter) =
        take_out-IsCounted ws (remove k m) i' (rest-IsTakeable k ws m h e t) in
      (
        e' ∙ ap (without_all ws) e,
        i'',
        λ n. omega (arith, total n, occurrences-without n k (keys m) h, ap (occurrences n) e),
        omega (arith, shorter, length-without k (keys m) h, ap length e),
      )
