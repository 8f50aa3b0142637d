-- ===== src/Planner/Graph/Startup.antt =====
-- advisoryStartupWaves (internal/planner/artifacts.go): the order of the startup waves.
use nut_operator.Prelude.{ℕ, suc, ◌+◌, ◌<◌, ◌≡◌, refl, List, [], ◌∷◌, ◌++◌, arith, ◌∙◌, inl, inr}
use mathlib.Core.List.{map-append}
use nut_operator.Prelude.Int.{ℤ, pos}
use nut_operator.Text.{Text}
use nut_operator.Text.Sorting.{sort_texts}
use nut_operator.Planner.Types.{Wave}
use nut_operator.Planner.Schedule.Counts.{occurrences, occurrences-append}
use nut_operator.Planner.Schedule.Waves.{wave_names, occurrences-sort_texts}
use nut_operator.Planner.Schedule.Order.{flatten, Precedes, zero_or_above}
use nut_operator.Planner.Graph.{startup_from, backwards, advisory_startup_waves}

flatten-append :
    (n : Text) (us vs : List (List Text))
    → occurrences n (flatten (us ++ vs)) ≡ occurrences n (flatten us) + occurrences n (flatten vs)
flatten-append n [] vs = omega arith
flatten-append n (u ∷ us) vs = omega (
  arith,
  flatten-append n us vs,
  occurrences-append n u (flatten (us ++ vs)),
  occurrences-append n u (flatten us),
)

-- Precedence in a list of waves, and across two.
Precedes-left : (a b : Text) (us vs : List (List Text)) → Precedes a b us → Precedes a b (us ++ vs)
Precedes-left a b [] vs h = absurd h
Precedes-left a b (u ∷ us) vs (inl (ha, hb)) = inl (ha, omega (arith, hb, flatten-append b us vs))
Precedes-left a b (u ∷ us) vs (inr h) = inr (Precedes-left a b us vs h)

Precedes-across :
    (a b : Text) (us vs : List (List Text))
    → 0 < occurrences a (flatten us)
    → 0 < occurrences b (flatten vs)
    → Precedes a b (us ++ vs)
Precedes-across a b [] vs ha hb = elim ha [ ]
Precedes-across a b (u ∷ us) vs ha hb = elim (zero_or_above (occurrences a u)) [
  | inl later ↦
      inr (
        Precedes-across a b us vs (omega (arith, ha, later, occurrences-append a u (flatten us)))
          hb)
  | inr now ↦ inl (now, omega (arith, hb, flatten-append b us vs))
]

backwards-names :
    (n : Text) (ws : List Wave)
    → occurrences n (flatten (wave_names (backwards ws))) ≡ occurrences n (flatten (wave_names ws))
backwards-names n [] = refl
backwards-names n (w ∷ ws) = rw (map-append (λ (v : Wave). v.groups) (backwards ws) (w ∷ [])) (
    omega (
      arith,
      flatten-append n (wave_names (backwards ws)) (w.groups ∷ []),
      occurrences-append n w.groups [],
      occurrences-append n w.groups (flatten (wave_names ws)),
      backwards-names n ws,
    ))

backwards-Precedes :
    (a b : Text) (ws : List Wave)
    → Precedes a b (wave_names ws)
    → Precedes b a (wave_names (backwards ws))
backwards-Precedes a b [] h = h
backwards-Precedes a b (w ∷ ws) h =
    rw (map-append (λ (v : Wave). v.groups) (backwards ws) (w ∷ [])) (elim h [
      | inl (ha, hb) ↦
          Precedes-across b a (wave_names (backwards ws)) (w.groups ∷ [])
            (omega (arith, hb, backwards-names b ws))
            (omega (arith, ha, occurrences-append a w.groups []))
      | inr later ↦
          Precedes-left b a (wave_names (backwards ws)) (w.groups ∷ [])
            (backwards-Precedes a b ws later)
    ])

startup-names :
    (n : Text) (index : ℕ) (c : ℤ) (ws : List Wave)
    → occurrences n (flatten (wave_names (startup_from index c ws)))
      ≡ occurrences n (flatten (wave_names ws))
unfolding startup_from
startup-names n index c [] = refl
startup-names n index c (w ∷ ws) = omega (
  arith,
  startup-names n (suc index) _ ws,
  occurrences-append n w.groups (flatten (wave_names ws)),
  occurrences-append n (sort_texts w.groups) (flatten (wave_names (startup_from (suc index) _ ws))),
  occurrences-sort_texts n w.groups,
)

startup-Precedes :
    (a b : Text) (index : ℕ) (c : ℤ) (ws : List Wave)
    → Precedes a b (wave_names ws)
    → Precedes a b (wave_names (startup_from index c ws))
unfolding startup_from
startup-Precedes a b index c [] h = h
startup-Precedes a b index c (w ∷ ws) (inl (ha, hb)) = inl (
  omega (arith, ha, occurrences-sort_texts a w.groups),
  omega (arith, hb, startup-names b (suc index) _ ws),
)
startup-Precedes a b index c (w ∷ ws) (inr h) = inr (startup-Precedes a b (suc index) _ ws h)

-- The startup waves have the groups of the shutdown waves, each as often, and a group that stands in
-- a shutdown wave before another one's stands in a startup wave after the other one's.
pub startup_reverses :
    (ws : List Wave)
    → ((n : Text)
        → occurrences n (flatten (wave_names (advisory_startup_waves ws)))
          ≡ occurrences n (flatten (wave_names ws)))
      × ((a b : Text)
          → Precedes a b (wave_names ws)
          → Precedes b a (wave_names (advisory_startup_waves ws)))
unfolding advisory_startup_waves
startup_reverses ws = (
  λ n. startup-names n 0 (pos 0) (backwards ws) ∙ backwards-names n ws,
  λ a b h. startup-Precedes b a 0 (pos 0) (backwards ws) (backwards-Precedes a b ws h),
)
