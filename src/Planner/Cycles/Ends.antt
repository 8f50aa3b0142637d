-- ===== src/Planner/Cycles/Ends.antt =====
-- internal/planner/compiler_validation.go: how a walk ends.
use nut_operator.Prelude.{
  ℕ, zero, suc, ◌<◌, Bool, true, false, ◌≡◌, refl, List, [], ◌∷◌, arith, length, All, All-map, inl,
  inr, ◌⊎◌, Bool-cases, sym, ◌∙◌,
}
use nut_operator.Text.{Text, text_eq}
use nut_operator.Text.Laws.{text_eq→eq, text_eq_refl}
use nut_operator.Text.Maps.{contains}
use nut_operator.Planner.Schedule.Counts.{occurrences, without, occurrences-without, length-without}
use nut_operator.Planner.Cycles.{
  Walk, found, walked, out_of_fuel, and_then, visit_all, enter, visit,
}

-- What a walk that comes to its end has, and a search of its names with it.
module _ (P : Walk → Type 0) (ends : (visited : List Text) → P (walked visited)) where
  and_then_both :
      (w : Walk) (next : List Text → Walk)
      → P w
      → ((more : List Text) → P (next more))
      → P (and_then w next)
  and_then_both found next h k = h
  and_then_both out_of_fuel next h k = h
  and_then_both (walked more) next h k = k more

  pub visit_all_both :
      (step : List Text → Text → Walk) (visited ns : List Text)
      → All (λ n. (vs : List Text) → P (step vs n)) ns
      → P (visit_all step visited ns)
  unfolding visit_all
  visit_all_both step visited [] h = ends visited
  visit_all_both step visited (n ∷ ns) h =
      and_then_both (step visited n) (λ more. visit_all step more ns) (h.0 visited)
        (λ more. visit_all_both step more ns h.1)

  enter_both :
      (n : Text) (on_path seen : Bool) (visited : List Text) (deeper : Walk)
      → (on_path ≡ true → P found)
      → (on_path ≡ false → P deeper)
      → P (enter n on_path seen visited deeper)
  enter_both n true seen visited deeper h k = h refl
  enter_both n false true visited deeper h k = ends visited
  enter_both n false false visited deeper h k =
      and_then_both deeper (λ more. walked (n ∷ more)) (k refl) (λ more. ends (n ∷ more))

pub All-of_occurs :
    (P : Text → Type 0) (ns : List Text) → ((n : Text) → 0 < occurrences n ns → P n) → All P ns
All-of_occurs P [] h = tt
All-of_occurs P (n ∷ ns) h =
    (h n (ground (arith, text_eq_refl n)), All-of_occurs P ns (λ m k. h m (ground (arith, k))))

abbrev pub IsAcyclic : Walk → Type 0
IsAcyclic found = ⊥
IsAcyclic (walked visited) = Unit
IsAcyclic out_of_fuel = Unit

abbrev pub IsFueled : Walk → Type 0
IsFueled found = Unit
IsFueled (walked visited) = Unit
IsFueled out_of_fuel = ⊥

module _ (succ : Text → List Text) (rank : Text → ℕ)
    (rises : (a b : Text) → 0 < occurrences b (succ a) → rank a < rank b) where
  off_path :
      (n : Text) (path : List Text) → All (λ v. rank v < rank n) path → contains path n ≡ true → ⊥
  unfolding contains
  off_path n [] h e = ground arith
  off_path n (v ∷ path) h e = elim (Bool-cases (text_eq v n)) [
    | inl same ↦ irreflexive (rw (text_eq→eq v n same) at h.0)
    | inr differ ↦ off_path n path h.1 (rw differ at e)
  ]
    where
      irreflexive : rank n < rank n → ⊥
      irreflexive h = omega (arith, h)

  -- Where ranks rise along the edges and the path is below a name, the visit finds no cycle.
  pub visit-IsAcyclic :
      (fuel : ℕ) (path visited : List Text) (n : Text)
      → All (λ v. rank v < rank n) path
      → IsAcyclic (visit succ fuel path visited n)
  unfolding visit
  visit-IsAcyclic zero path visited n h = tt
  visit-IsAcyclic (suc f) path visited n h =
      enter_both IsAcyclic (λ vs. tt) n (contains path n) (contains visited n) visited
        (visit_all (visit succ f (n ∷ path)) visited (succ n)) (λ e. elim (off_path n path h e) [ ])
        (λ e.
          visit_all_both IsAcyclic (λ vs. tt) (visit succ f (n ∷ path)) visited (succ n)
            (All-of_occurs (λ b. (vs : List Text) → IsAcyclic (visit succ f (n ∷ path) vs b))
              (succ n)
              (λ b into vs.
                visit-IsAcyclic f (n ∷ path) vs b
                  (rises n b into, All-map (λ v lt. omega (arith, lt, rises n b into)) path h))))

module _ (succ : Text → List Text) (M : Text → Type 0)
    (stays : (a b : Text) → 0 < occurrences b (succ a) → M b) where
  -- Each name is on the path or among those left.
  abbrev HasRoom : List Text → List Text → Type 0
  HasRoom path rest = (m : Text) → M m → (contains path m ≡ true) ⊎ (0 < occurrences m rest)

  room_left :
      (path rest : List Text) (n : Text)
      → HasRoom path rest
      → 0 < occurrences n rest
      → HasRoom (n ∷ path) (without n rest)
  unfolding contains
  room_left path rest n room there m is_name = elim (Bool-cases (text_eq n m)) [
    | inl e ↦ inl (rw e refl)
    | inr e ↦ elim (room m is_name) [
      | inl on_path ↦ inl (rw (e, on_path) refl)
      | inr left ↦ inr (ground (arith, occurrences-without m n rest there, left))
    ]
  ]

  still_there :
      (path rest : List Text) (n : Text)
      → HasRoom path rest
      → M n
      → contains path n ≡ false
      → 0 < occurrences n rest
  still_there path rest n room is_name e = elim (room n is_name) [
    | inl on_path ↦ let clash = sym e ∙ on_path in ground arith
    | inr there ↦ there
  ]

  pub visit-IsFueled :
      (fuel : ℕ) (path rest visited : List Text) (n : Text)
      → HasRoom path rest
      → M n
      → length rest < fuel
      → IsFueled (visit succ fuel path visited n)
  unfolding visit
  visit-IsFueled zero path rest visited n room is_name h = none h
    where
      none : length rest < 0 → ⊥
      none h = omega (arith, h)
  visit-IsFueled (suc f) path rest visited n room is_name h =
      enter_both IsFueled (λ vs. tt) n (contains path n) (contains visited n) visited
        (visit_all (visit succ f (n ∷ path)) visited (succ n)) (λ e. tt)
        (λ e.
          let there = still_there path rest n room is_name e in
          visit_all_both IsFueled (λ vs. tt) (visit succ f (n ∷ path)) visited (succ n)
            (All-of_occurs (λ b. (vs : List Text) → IsFueled (visit succ f (n ∷ path) vs b))
              (succ n)
              (λ b into vs.
                visit-IsFueled f (n ∷ path) (without n rest) vs b (room_left path rest n room there)
                  (stays n b into) (omega (arith, length-without n rest there, h)))))
