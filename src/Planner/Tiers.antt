-- ===== src/Planner/Tiers.antt =====
-- internal/planner/tiers.go: which shutdown tier a group has.
pub mod Shared
use nut_operator.Prelude.{
  ℕ, Bool, true, false, not, ◌&&◌, ◌||◌, List, [], ◌∷◌, ◌++◌, Option, none, some, if◌then◌else◌,
  is_empty, ◌==◌,
}
use nut_operator.Prelude.Int.{ℤ, pos, ltb_ℤ, eq_ℤ}
use nut_operator.Text.{Text}
use nut_operator.Text.Maps.{lookup, insert}
use nut_operator.Diagnostics.{Diagnostic, error, text, number}
use nut_operator.Planner.Types.{Group, TierDefinition, TierPolicy, Graph, GraphVertex}

-- A map from group names to tiers; a nil map and an empty one read alike.
abbrev pub TierMap : Type 0
TierMap = List (Text × ℤ)

abbrev pub is_some : Option ℤ → Bool
is_some none = false
is_some (some t) = true

abbrev any_explicit : List Group → Bool
any_explicit [] = false
any_explicit (g ∷ gs) = is_some g.shutdown_tier || any_explicit gs

-- The running maximum, which the first value begins.
abbrev raise : Option ℤ → ℤ → Option ℤ
raise none t = some t
raise (some m) t = if ltb_ℤ m t then some t else some m

abbrev raise_some : Option ℤ → Option ℤ → Option ℤ
raise_some m none = m
raise_some m (some t) = raise m t

unfoldable pub max_definition : Option ℤ → List TierDefinition → Option ℤ
max_definition m [] = m
max_definition m (d ∷ ds) = max_definition (raise m d.tier) ds

unfoldable pub max_group : Option ℤ → List Group → Option ℤ
max_group m [] = m
max_group m (g ∷ gs) = max_group (raise_some m g.shutdown_tier) gs

-- A maximum of 0 is no default.
abbrev nonzero : Option ℤ → Option ℤ
nonzero none = none
nonzero (some m) = if eq_ℤ m (pos 0) then none else some m

unfoldable pub effective_default_shutdown_tier : List Group → TierPolicy → Option ℤ
unfolding max_definition max_group
effective_default_shutdown_tier gs p = elim p.default_tier [
  | some t ↦ some t
  | none ↦ nonzero (max_group (max_definition none p.definitions) gs)
]

-- One group's entry, if it has a tier of its own or a default.
abbrev assign : Option ℤ → Group → TierMap → TierMap
assign default g tiers = elim g.shutdown_tier [
  | some t ↦ insert g.name t tiers
  | none ↦ elim default [ some t ↦ insert g.name t tiers | none ↦ tiers ]
]

unfoldable pub assign_all : Option ℤ → TierMap → List Group → TierMap
assign_all default tiers [] = tiers
assign_all default tiers (g ∷ gs) = assign_all default (assign default g tiers) gs

unfoldable pub effective_shutdown_tiers : List Group → TierPolicy → TierMap
unfolding assign_all
effective_shutdown_tiers gs p =
    if is_some p.default_tier || not (is_empty p.definitions) || any_explicit gs
    then assign_all (effective_default_shutdown_tier gs p) [] gs
    else []

-- `shutdownTierPtr`.
unfoldable pub tier_of : Text → TierMap → Option ℤ
tier_of name tiers = lookup name tiers

abbrev pub all_at : ℤ → TierMap → List Text → Bool
all_at t tiers [] = true
all_at t tiers (n ∷ ns) = elim (lookup n tiers) [
  | none ↦ false
  | some u ↦ eq_ℤ u t && all_at t tiers ns
]

-- The tier that all groups of a wave share.
unfoldable pub shared_shutdown_tier : List Text → TierMap → Option ℤ
shared_shutdown_tier [] tiers = none
shared_shutdown_tier (n ∷ ns) tiers = elim (lookup n tiers) [
  | none ↦ none
  | some t ↦ if all_at t tiers ns then some t else none
]

graph_tiers_from : TierMap → List GraphVertex → TierMap
graph_tiers_from tiers [] = tiers
graph_tiers_from tiers (v ∷ vs) =
    graph_tiers_from (elim v.shutdown_tier [ none ↦ tiers | some t ↦ insert v.id t tiers ]) vs

unfoldable pub graph_shutdown_tiers : Graph → TierMap
unfolding graph_tiers_from
graph_shutdown_tiers g = graph_tiers_from [] g.vertices

-- `validateGroupShutdownTiers`, on one group with a tier.
abbrev pub tier_finding : Group → ℤ → List Diagnostic
tier_finding g t =
    if ltb_ℤ t (pos 0)
    then record {
      severity = error;
      reason = "ShutdownTierInvalid";
      subject = g.name;
      format = "shutdown group %q has invalid shutdown tier %d";
      arguments = text g.name ∷ number t ∷ [];
    }
      ∷ []
    else if eq_ℤ t (pos 0)
    then record {
      severity = error;
      reason = "ShutdownTierZeroTargeted";
      subject = g.name;
      format = "shutdown group %q targets tier 0, which is excluded from orchestrated flow actions";
      arguments = text g.name ∷ [];
    }
      ∷ []
    else []

abbrev pub group_finding : Group → List Diagnostic
group_finding g = elim g.shutdown_tier [ none ↦ [] | some t ↦ tier_finding g t ]

unfoldable pub validate_group_shutdown_tiers : List Group → List Diagnostic
validate_group_shutdown_tiers [] = []
validate_group_shutdown_tiers (g ∷ gs) = group_finding g ++ validate_group_shutdown_tiers gs
