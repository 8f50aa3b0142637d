-- ===== src/Telemetry/Native.antt =====
-- `applyAliases` of internal/telemetry/normalize.go: what a server reports itself stands.
use nut_operator.Prelude.{
  ◌||◌, List, [], ◌∷◌, Option, none, some, ◌≡◌, refl, arith, ◌⊎◌, inl, inr, is_empty, All,
  All-append, Option-cases, if_cases, if_both, ap, sym, ◌∙◌,
}
use nut_operator.Text.{Text, text_eq}
use nut_operator.Text.Laws.{text_eq→eq}
use nut_operator.Text.Maps.{lookup, insert, lookup-insert}
use nut_operator.Text.Sorting.{sort_by}
use nut_operator.Diagnostics.{Diagnostic}
use nut_operator.Telemetry.Aliases.{
  Variables, Aliasing, is_trivial, place, apply_alias, apply_each, apply_aliases, source_lt,
}

-- What an alias is reported by: that it was applied, or that the name is reported already.
abbrev pub IsApplied : Diagnostic → Type 0
IsApplied d = d.reason ≡ "AliasApplied"

abbrev pub IsShadowed : Diagnostic → Type 0
IsShadowed d = d.reason ≡ "AliasShadowedByNativeVariable"

-- Every name that an alias was applied to is a variable.
abbrev AreReported : Aliasing → Type 0
AreReported s =
    (k p : Text) → lookup k s.applied ≡ some p → (v : Text) × (lookup k s.variables ≡ some v)

record Keeps (s : Aliasing) (r : Aliasing × List Diagnostic) : Type 0 where
  native : (k v : Text) → lookup k s.variables ≡ some v → lookup k r.0.variables ≡ some v
  reported : AreReported r.0
  told : All (λ d. IsApplied d ⊎ IsShadowed d) r.1

unchanged : (s : Aliasing) → AreReported s → Keeps s (s, [])
unchanged s h = record { native = λ k v e. e; reported = h; told = tt }

insert_keeps :
    (to reported k v : Text) (m : Variables)
    → lookup to m ≡ none
    → lookup k m ≡ some v
    → lookup k (insert to reported m) ≡ some v
insert_keeps to reported k v m absent e = rw (lookup-insert to k reported m) (
    if_cases (λ (o : Option Text). o ≡ some v) (text_eq to k) (some reported) (lookup k m)
      (λ same. let f = ap (λ x. lookup x m) (text_eq→eq to k same) in ground arith) (λ differ. e))

insert_reported :
    (from to reported : Text) (s : Aliasing)
    → lookup to s.variables ≡ none
    → AreReported s
    → AreReported
        (record { variables = insert to reported s.variables; applied = insert to from s.applied })
insert_reported from to reported s absent h k p e =
    if_cases
      (λ (o : Option Text).
        o ≡ some p → (v : Text) × (lookup k (insert to reported s.variables) ≡ some v))
      (text_eq to k) (some from) (lookup k s.applied)
      (λ same f. (reported, rw (lookup-insert to k reported s.variables, same) refl))
      (λ differ f.
        let (v, g) = h k p f in (v, rw (lookup-insert to k reported s.variables, differ) g))
      (sym (lookup-insert to k from s.applied) ∙ e)

place-Keeps :
    (from to reported : Text) (native taken : Option Text) (s : Aliasing)
    → lookup to s.variables ≡ native
    → lookup to s.applied ≡ taken
    → AreReported s
    → Keeps s (place from to reported native taken s)
place-Keeps from to reported (some n) taken s e f h = record {
  native = λ k v g. g;
  reported = h;
  told = (inr refl, tt);
}
place-Keeps from to reported none (some p) s e f h =
    let (v, g) = h to p f in elim (absent (sym e ∙ g)) [ ]
  where
    absent : {v : Text} → Path (Option Text) none (some v) → ⊥
    absent x = ground arith
place-Keeps from to reported none none s e f h = record {
  native = λ k v g. insert_keeps to reported k v s.variables e g;
  reported = insert_reported from to reported s e h;
  told = (inl refl, tt);
}

apply_alias-Keeps :
    (from to : Text) (s : Aliasing) → AreReported s → Keeps s (apply_alias from to s)
unfolding apply_alias
apply_alias-Keeps from to s h =
    if_both (Keeps s) (is_trivial from to) _ _ (unchanged s h)
      (elim (Option-cases (lookup from s.variables)) [
        | inl e ↦ rw e (unchanged s h)
        | inr (reported, e) ↦ rw e (
            place-Keeps from to reported (lookup to s.variables) (lookup to s.applied) s refl refl
              h)
      ])

apply_each-Keeps :
    (aliases : List (Text × Text)) (s : Aliasing) → AreReported s → Keeps s (apply_each aliases s)
unfolding apply_each
apply_each-Keeps [] s h = unchanged s h
apply_each-Keeps ((from, to) ∷ aliases) s h =
    let first = apply_alias-Keeps from to s h in
    let rest = apply_each-Keeps aliases (apply_alias from to s).0 first.reported in
    record {
      native = λ k v e. rest.native k v (first.native k v e);
      reported = rest.reported;
      told =
          All-append (λ d. IsApplied d ⊎ IsShadowed d) (apply_alias from to s).1
            (apply_each aliases (apply_alias from to s).0).1 first.told rest.told;
    }

empty_lookup : (k p : Text) → lookup {V = Text} k [] ≡ some p → ⊥
unfolding lookup
empty_lookup k p e = ground arith

-- Whatever the aliases: every variable that the server reports keeps its value, and each finding
-- says that an alias was applied or that its name is shadowed, never that two aliases collide.
pub apply_aliases_native :
    (variables : Variables) (aliases : List (Text × Text))
    → ((k v : Text)
        → lookup k variables ≡ some v
        → lookup k (apply_aliases variables aliases).0 ≡ some v)
      × All (λ d. IsApplied d ⊎ IsShadowed d) (apply_aliases variables aliases).1
unfolding apply_aliases
apply_aliases_native variables aliases =
    if_both
      (λ (r : Variables × List Diagnostic).
        ((k v : Text) → lookup k variables ≡ some v → lookup k r.0 ≡ some v)
        × All (λ d. IsApplied d ⊎ IsShadowed d) r.1)
      (is_empty variables || is_empty aliases) _ _ (λ k v e. e, tt)
      (let kept =
          apply_each-Keeps (sort_by source_lt aliases)
            (record { variables = variables; applied = [] })
            (λ k p e. elim (empty_lookup k p e) [ ]) in
        (kept.native, kept.told))
