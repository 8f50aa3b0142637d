-- ===== src/Executor/Placed.antt =====
-- Execute (internal/executor/executor.go): the attempts of one wave among those of a run.
use nut_operator.Prelude.{
  ℕ, zero, suc, ◌+◌, ◌<◌, List, [], ◌∷◌, ◌++◌, ◌≡◌, refl, arith, ◌∙◌, if◌then◌else◌, ◌==◌,
}
use mathlib.Core.List.{append-nil}
use mathlib.Core.Path.{subst}
use nut_operator.Text.{Text}
use nut_operator.Executor.Types.{Wave}
use nut_operator.Executor.Order.{Names, placed}

-- All the groups of the waves, in their order.
abbrev pub planned : ℕ → List Wave → Names
planned position [] = []
planned position (w ∷ ws) = placed position w.groups ++ planned (suc position) ws

-- What is attempted in one wave, in its order.
abbrev pub in_wave : ℕ → Names → Names
in_wave q [] = []
in_wave q (n ∷ ns) = let rest = in_wave q ns in if n.0 == q then n ∷ rest else rest

-- The groups of a wave, by its position.
abbrev pub groups_of : ℕ → List Wave → List Text
groups_of q [] = []
groups_of zero (w ∷ ws) = w.groups
groups_of (suc q) (w ∷ ws) = groups_of q ws

in_wave-append : (q : ℕ) (xs ys : Names) → in_wave q (xs ++ ys) ≡ in_wave q xs ++ in_wave q ys
in_wave-append q [] ys = refl
in_wave-append q (x ∷ xs) ys = ground (arith, in_wave-append q xs ys)

in_wave-own : (q : ℕ) (ns : List Text) → in_wave q (placed q ns) ≡ placed q ns
in_wave-own q [] = refl
in_wave-own q (n ∷ ns) = ground (arith, in_wave-own q ns)

in_wave-other : (q p : ℕ) (ns : List Text) → q < p → in_wave q (placed p ns) ≡ []
in_wave-other q p [] h = refl
in_wave-other q p (n ∷ ns) h = ground (arith, in_wave-other q p ns h, h)

in_wave-later : (q p : ℕ) (ws : List Wave) → q < p → in_wave q (planned p ws) ≡ []
in_wave-later q p [] h = refl
in_wave-later q p (w ∷ ws) h =
    in_wave-append q (placed p w.groups) (planned (suc p) ws)
    ∙ rw (in_wave-other q p w.groups h, in_wave-later q (suc p) ws (omega (arith, h))) refl

in_wave-earlier : (q p : ℕ) (ns : List Text) → p < q → in_wave q (placed p ns) ≡ []
in_wave-earlier q p [] h = refl
in_wave-earlier q p (n ∷ ns) h = ground (arith, in_wave-earlier q p ns h, h)

plus_zero : (p : ℕ) → p + 0 ≡ p
plus_zero p = omega arith

shift : (p q : ℕ) → p + suc q ≡ suc p + q
shift p q = omega arith

-- In the plan, a wave has its groups.
in_wave-planned :
    (p q : ℕ) (ws : List Wave) → in_wave (p + q) (planned p ws) ≡ placed (p + q) (groups_of q ws)
in_wave-planned p q [] = refl
in_wave-planned p zero (w ∷ ws) =
    in_wave-append (p + 0) (placed p w.groups) (planned (suc p) ws)
    ∙ rw (plus_zero p, in_wave-own p w.groups, in_wave-later p (suc p) ws (omega arith))
        (append-nil (placed p w.groups))
in_wave-planned p (suc q) (w ∷ ws) =
    in_wave-append (p + suc q) (placed p w.groups) (planned (suc p) ws)
    ∙ rw (in_wave-earlier (p + suc q) p w.groups (omega arith), shift p q)
        (in_wave-planned (suc p) q ws)

pub in_wave-plan : (q : ℕ) (ws : List Wave) → in_wave q (planned 0 ws) ≡ placed q (groups_of q ws)
in_wave-plan q ws =
    subst (λ (n : ℕ). in_wave n (planned 0 ws) ≡ placed n (groups_of q ws)) (zero_plus q)
      (in_wave-planned 0 q ws)
  where
    zero_plus : (n : ℕ) → 0 + n ≡ n
    zero_plus n = omega arith
