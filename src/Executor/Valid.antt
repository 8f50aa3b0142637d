-- ===== src/Executor/Valid.antt =====
-- validateExecuteInput (internal/executor/executor.go): what a valid input's waves name.
use nut_operator.Prelude.{
  true, false, not, ◌||◌, List, [], ◌∷◌, Option, none, some, if◌then◌else◌, is_empty, ◌≡◌, refl,
  arith, sym, ap, ◌∙◌, All, Bool-cases, inl, inr, if_cases, if_both,
}
use nut_operator.Prelude.Int.{ℤ}
use nut_operator.Text.{Text, text_eq}
use nut_operator.Text.Laws.{text_eq→eq}
use nut_operator.Text.Maps.{lookup, insert, lookup-insert}
use nut_operator.Diagnostics.{text}
use nut_operator.Executor.Types.{stated, Fault, Group, Wave}
use nut_operator.Executor.Plan.{
  Input, GroupMap, is_known, index_groups, check_names, check_waves, validate_execute_input,
}
use nut_operator.Executor.Order.{IsNamedAt}

-- Every group of the map stands under its own name.
abbrev IsNamed : GroupMap → Type 0
IsNamed m = (n : Text) → is_known m n ≡ true → IsNamedAt m n

known_insert :
    (g : Group) (m : GroupMap) (n : Text)
    → text_eq g.name n ≡ false
    → is_known (insert g.name g m) n ≡ true
    → is_known m n ≡ true
known_insert g m n elsewhere known = sym same ∙ known
  where
    same : is_known (insert g.name g m) n ≡ is_known m n
    same =
        ap (λ (o : Option Group). elim o [ none ↦ false | some h ↦ true ])
          (lookup-insert g.name n g m ∙ rw elsewhere refl)

insert-IsNamed : (g : Group) (m : GroupMap) → IsNamed m → IsNamed (insert g.name g m)
insert-IsNamed g m named n known = elim (Bool-cases (text_eq g.name n)) [
  | inl here ↦ rw (lookup-insert g.name n g m, here) (text_eq→eq g.name n here)
  | inr elsewhere ↦
      rw (lookup-insert g.name n g m, elsewhere) (named n (known_insert g m n elsewhere known))
]

none-IsNamed : IsNamed []
unfolding lookup
none-IsNamed n known = ground (arith, known)

index_groups-IsNamed : (m : GroupMap) (gs : List Group) → IsNamed m → IsNamed (index_groups m gs).0
unfolding index_groups
index_groups-IsNamed m [] named = named
index_groups-IsNamed m (g ∷ gs) named =
    if_both (λ (r : GroupMap × Fault). IsNamed r.0) (is_empty g.name || is_empty g.action)
      ([], stated "executor group requires name and action" [] ∷ [])
      (if is_known m g.name
        then ([], stated "duplicate executor group %q" (text g.name ∷ []) ∷ [])
        else index_groups (insert g.name g m) gs)
      none-IsNamed
      (if_both (λ (r : GroupMap × Fault). IsNamed r.0) (is_known m g.name)
        ([], stated "duplicate executor group %q" (text g.name ∷ []) ∷ [])
        (index_groups (insert g.name g m) gs) none-IsNamed
        (index_groups-IsNamed (insert g.name g m) gs (insert-IsNamed g m named)))

check_names-All :
    (m : GroupMap) (index : ℤ) (ns : List Text)
    → IsNamed m
    → is_empty (check_names m index ns) ≡ true
    → All (IsNamedAt m) ns
unfolding check_names
check_names-All m index [] named fine = tt
check_names-All m index (n ∷ ns) named fine = elim (Bool-cases (is_known m n)) [
  | inl known ↦ (named n known, check_names-All m index ns named (ground (arith, fine, known)))
  | inr missing ↦ elim (wrong missing) [ ]
]
  where
    wrong : is_known m n ≡ false → ⊥
    wrong missing = ground (arith, missing, fine)

-- Each wave's groups stand under their own names.
abbrev pub IsNamedWave : GroupMap → Wave → Type 0
IsNamedWave m w = All (IsNamedAt m) w.groups

check_waves-All :
    (m : GroupMap) (ws : List Wave)
    → IsNamed m
    → is_empty (check_waves m ws) ≡ true
    → All (IsNamedWave m) ws
unfolding check_waves
check_waves-All m [] named fine = tt
check_waves-All m (w ∷ ws) named fine = (
  check_names-All m w.index w.groups named (ground (arith, fine)),
  check_waves-All m ws named (ground (arith, fine)),
)

module _ {F : Type 0} (i : Input F) where
  abbrev IsNaming : GroupMap × Fault → Type 0
  IsNaming r = is_empty r.1 ≡ true → All (IsNamedWave r.0) i.waves

  refused : (f : Fault) → is_empty f ≡ false → IsNaming ([], f)
  refused f told fine = elim (clash f told fine) [ ]
    where
      clash : (f : Fault) → is_empty f ≡ false → is_empty f ≡ true → ⊥
      clash f told fine = ground (arith, told, fine)

  checked :
      (m : GroupMap) (f : Fault)
      → (is_empty f ≡ true → All (IsNamedWave m) i.waves)
      → IsNaming (if is_empty f then m else [], f)
  checked m [] named fine = named fine
  checked m (p ∷ ps) named fine = elim (clash fine) [ ]
    where
      clash : false ≡ true → ⊥
      clash h = ground (arith, h)

  pub validate_execute_input-All : IsNaming (validate_execute_input i)
  unfolding validate_execute_input
  validate_execute_input-All =
      let (m, fault) = index_groups [] i.groups in
      if_both IsNaming (is_empty i.shutdown_flow || is_empty i.plan_config_hash) _ _
        (refused (stated "executor input requires shutdown flow and plan config hash" [] ∷ []) refl)
        (if_both IsNaming (is_empty i.waves) _ _
          (refused (stated "executor input requires at least one compiled wave" [] ∷ []) refl)
          (if_cases IsNaming (not (is_empty fault)) ([], fault) _
            (λ broken. refused fault (ground (arith, broken)))
            (λ fine.
              checked m (check_waves m i.waves)
                (check_waves-All m i.waves (index_groups-IsNamed [] i.groups none-IsNamed)))))
