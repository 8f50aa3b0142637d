-- ===== src/Planner/Schedule/Rounds.antt =====
-- The loop of compileGroups (internal/planner/compiler_scheduling.go) over the waves.
use nut_operator.Prelude.{
  ℕ, zero, suc, ◌+◌, ◌<◌, true, false, ◌≡◌, refl, List, [], ◌∷◌, ◌++◌, arith, Option, ◌∙◌, sym,
  length, Bool-cases, inl, inr, is_empty,
}
use mathlib.Core.List.{map-append, append_assoc, append-nil}
use nut_operator.Prelude.Int.{ℤ}
use nut_operator.Text.{Text}
use nut_operator.Text.Laws.{text_eq_refl}
use nut_operator.Text.Sorting.{sort_texts}
use nut_operator.Planner.Types.{Group, Wave}
use nut_operator.Planner.Tiers.{TierMap}
use nut_operator.Planner.Schedule.{
  SuccessorMap, Indegrees, successors_of, keys, take_out, names, wave_groups, Progress, Descent,
  stalled, done, out_of_fuel, add_wave, descend_waves,
}
use nut_operator.Planner.Schedule.Counts.{occurrences, indegree}
use nut_operator.Planner.Schedule.Removal.{IsCounted, IsTakeable, take_out-IsCounted}
use nut_operator.Planner.Schedule.Waves.{
  IsStuck, wave_names, Meets, AreNamed, wave-IsTakeable, wave_complete, occurrences-sort_texts,
}

empty_keys : (m : Indegrees) → is_empty m ≡ true → (n : Text) → occurrences n (keys m) ≡ 0
unfolding keys
empty_keys [] h n = refl
empty_keys (x ∷ m) h n = cc

first_key : (m : Indegrees) → is_empty m ≡ false → (k : Text) × (0 < occurrences k (keys m))
unfolding keys
first_key [] h = cc
first_key ((k, c) ∷ m) h = (k, ground (arith, text_eq_refl k))

no_names : (gs : List Group) → is_empty gs ≡ true → (n : Text) → occurrences n (names gs) ≡ 0
no_names [] h n = refl
no_names (g ∷ gs) h n = cc

some_names : (gs : List Group) → is_empty gs ≡ false → 0 < length (names gs)
some_names [] h = cc
some_names (g ∷ gs) h = omega arith

module _ (parse : Text → Option ℤ) (tiers : TierMap) (edges : SuccessorMap)
    (by_name : List (Text × Group)) where
  abbrev succ_of : Text → List Text
  succ_of = successors_of edges

  add_wave-names :
      (p : Progress) (wave : List Group)
      → wave_names (add_wave parse tiers p wave).waves ≡ wave_names p.waves ++ names wave ∷ []
  unfolding add_wave
  add_wave-names p wave = map-append (λ (w : Wave). w.groups) p.waves _

  stall :
      (m : Indegrees)
      → IsCounted succ_of m
      → AreNamed by_name (keys m)
      → is_empty m ≡ false
      → is_empty (wave_groups by_name m) ≡ true
      → IsStuck succ_of (sort_texts (keys m))
  stall m i named more none_free =
      let (k, there) = first_key m more in
      record {
        rest = keys m;
        reported = λ n. occurrences-sort_texts n (keys m);
        some_group = k;
        remains = there;
        waiting = λ n h. go n h (indegree succ_of (keys m) n) refl;
      }
    where
      go :
          (n : Text)
          → 0 < occurrences n (keys m)
          → (d : ℕ) → indegree succ_of (keys m) n ≡ d
          → 0 < indegree succ_of (keys m) n
      go n h zero e = absurd (
          omega (
            arith,
            wave_complete edges by_name m i named n h e,
            no_names (wave_groups by_name m) none_free n,
          ))
      go n h (suc d) e = omega arith

  -- A wave in front of what the later rounds come to.
  first_wave :
      (p : Progress) (m : Indegrees) (w left : List Text) (r : Descent)
      → IsTakeable edges w m
      → ((n : Text)
          → 0 < occurrences n (keys m)
          → indegree succ_of (keys m) n ≡ 0
          → 0 < occurrences n w)
      → ((n : Text) → occurrences n (keys m) ≡ occurrences n w + occurrences n left)
      → Meets succ_of (wave_names p.waves ++ w ∷ []) left r
      → Meets succ_of (wave_names p.waves) (keys m) r
  first_wave p m w left (stalled ks) t c total h = h
  first_wave p m w left (done q) t c total (ws, e, h) =
      (w ∷ ws, e ∙ append_assoc (wave_names p.waves) (w ∷ []) ws, (t.free, c, (left, total, h)))
  first_wave p m w left out_of_fuel t c total h = h

  pub descend_waves-Meets :
      (fuel : ℕ) (p : Progress) (m : Indegrees)
      → length (keys m) < fuel
      → IsCounted succ_of m
      → AreNamed by_name (keys m)
      → Meets succ_of
          (wave_names p.waves)
          (keys m)
          (descend_waves parse tiers fuel edges by_name p m)
  unfolding descend_waves
  descend_waves-Meets zero p m short i named = elim short [ ]
  descend_waves-Meets (suc fuel) p m short i named = elim (Bool-cases (is_empty m)) [
    | inl ends ↦ rw ends ([], sym (append-nil (wave_names p.waves)), empty_keys m ends)
    | inr more ↦ elim (Bool-cases (is_empty (wave_groups by_name m))) [
      | inl none_free ↦ rw (more, none_free) (stall m i named more none_free)
      | inr some_free ↦
          let wave = wave_groups by_name m in
          let m' = take_out edges (names wave) m in
          let takeable = wave-IsTakeable edges by_name m i named in
          let (e, i', total, shorter) = take_out-IsCounted edges (names wave) m i takeable in
          let later =
            descend_waves-Meets fuel (add_wave parse tiers p wave) m'
              (omega (arith, shorter, some_names wave some_free)) i'
              (λ n h. named n (omega (arith, total n))) in
          rw (more, some_free)
            (first_wave p m (names wave) (keys m') _ takeable
              (wave_complete edges by_name m i named) total (rw (add_wave-names p wave) at later))
    ]
  ]
