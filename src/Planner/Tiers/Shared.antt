-- ===== src/Planner/Tiers/Shared.antt =====
-- The shutdown tier of a wave and the findings on the groups' tiers (internal/planner/tiers.go).
use nut_operator.Prelude.{
  true, false, ◌≡◌, ◌↔◌, refl, List, [], ◌∷◌, ◌++◌, Option, none, some, arith, All, is_empty, ◌||◌,
}
use nut_operator.Prelude.Int.{ℤ, pos, ◌≤ℤ◌}
use nut_operator.Text.{Text}
use nut_operator.Text.Maps.{lookup}
use nut_operator.Diagnostics.{Diagnostic, has_error}
use nut_operator.Planner.Types.{Group}
use nut_operator.Planner.Tiers.{
  TierMap, tier_of, all_at, shared_shutdown_tier, validate_group_shutdown_tiers, tier_finding,
  group_finding,
}

all_at-All :
    (t : ℤ) (tiers : TierMap) (ns : List Text)
    → all_at t tiers ns ≡ true
    → All (λ n. lookup n tiers ≡ some t) ns
all_at-All t tiers [] h = tt
all_at-All t tiers (n ∷ ns) h = ground (arith, all_at-All t tiers ns)

All-all_at :
    (t : ℤ) (tiers : TierMap) (ns : List Text)
    → All (λ n. lookup n tiers ≡ some t) ns
    → all_at t tiers ns ≡ true
All-all_at t tiers [] h = refl
All-all_at t tiers (n ∷ ns) h = ground (arith, All-all_at t tiers ns h.1, h.0)

-- A wave shows a shutdown tier exactly when it has a group and each of its groups has that tier.
pub shared_tier_iff :
    (t : ℤ) (tiers : TierMap) (ns : List Text)
    → (shared_shutdown_tier ns tiers ≡ some t)
      ↔ ((is_empty ns ≡ false) × All (λ n. tier_of n tiers ≡ some t) ns)
unfolding shared_shutdown_tier tier_of
shared_tier_iff t tiers [] = ground arith
shared_tier_iff t tiers (n ∷ ns) = ground (arith, all_at-All t tiers ns, All-all_at t tiers ns)

abbrev pub IsTargetable : Option ℤ → Type 0
IsTargetable none = Unit
IsTargetable (some t) = pos 1 ≤ℤ t

pub findings_append :
    (ds es : List Diagnostic) → has_error (ds ++ es) ≡ has_error ds || has_error es
unfolding has_error
findings_append [] es = refl
findings_append (d ∷ ds) es = ground (arith, findings_append ds es)

finding_error : (g : Group) (t : ℤ) → (has_error (tier_finding g t) ≡ false) ↔ (pos 1 ≤ℤ t)
unfolding has_error
finding_error g t = ground arith

group_error :
    (g : Group) (o : Option ℤ)
    → (has_error (elim o as (λ _. List Diagnostic) [ none ↦ [] | some t ↦ tier_finding g t ])
        ≡ false)
      ↔ IsTargetable o
unfolding has_error
group_error g none = (λ _. tt, λ _. refl)
group_error g (some t) = finding_error g t

-- The tier findings have an error exactly when a group declares a tier below 1.
pub tier_findings_iff :
    (gs : List Group)
    → (has_error (validate_group_shutdown_tiers gs) ≡ false)
      ↔ All (λ (g : Group). IsTargetable g.shutdown_tier) gs
unfolding validate_group_shutdown_tiers has_error
tier_findings_iff [] = (λ _. tt, λ _. refl)
tier_findings_iff (g ∷ gs) = ground (
  arith,
  findings_append (group_finding g) (validate_group_shutdown_tiers gs),
  group_error g g.shutdown_tier,
  tier_findings_iff gs,
)
