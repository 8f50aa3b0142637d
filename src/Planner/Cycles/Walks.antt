-- ===== src/Planner/Cycles/Walks.antt =====
-- internal/planner/compiler_validation.go: what a walk has visited.
use nut_operator.Prelude.{
  ℕ, zero, suc, ◌≤◌, ◌<◌, Bool, true, false, ◌||◌, ◌≡◌, refl, List, [], ◌∷◌, arith, if◌then◌else◌,
  length, All, inl, inr, Bool-cases, sym,
}
use nut_operator.Text.{Text, text_eq}
use nut_operator.Text.Laws.{text_eq→eq, text_eq_refl}
use nut_operator.Text.Maps.{contains}
use nut_operator.Planner.Schedule.Counts.{occurrences}
use nut_operator.Planner.Cycles.{
  Walk, found, walked, out_of_fuel, and_then, visit_all, enter, visit,
}

abbrev pub Within : List Text → List Text → Type 0
Within vs ws = (n : Text) → contains vs n ≡ true → contains ws n ≡ true

abbrev pub AllIn : List Text → List Text → Type 0
AllIn ns vs = All (λ n. contains vs n ≡ true) ns

module _ (succ : Text → List Text) where
  -- The successors of each visited name were visited before it.
  abbrev pub IsClosed : List Text → Type 0
  IsClosed [] = Unit
  IsClosed (v ∷ vs) = AllIn (succ v) vs × IsClosed vs

  -- What a walk to some names leaves.
  abbrev pub Leaves : List Text → List Text → Walk → Type 0
  Leaves ns visited found = Unit
  Leaves ns visited out_of_fuel = Unit
  Leaves ns visited (walked more) = IsClosed more × Within visited more × AllIn ns more

  abbrev Steps : (List Text → Text → Walk) → Type 0
  Steps step =
      (visited : List Text) (n : Text) → IsClosed visited → Leaves (n ∷ []) visited (step visited n)

  Leaves-cons :
      (n : Text) (ns visited middle : List Text) (w : Walk)
      → Within visited middle
      → contains middle n ≡ true
      → Leaves ns middle w
      → Leaves (n ∷ ns) visited w
  Leaves-cons n ns visited middle found h k l = tt
  Leaves-cons n ns visited middle out_of_fuel h k l = tt
  Leaves-cons n ns visited middle (walked more) h k (closed, within, all) =
      (closed, λ m e. within m (h m e), (within n k, all))

  and_then-Leaves :
      (n : Text) (ns visited : List Text) (w : Walk) (next : List Text → Walk)
      → Leaves (n ∷ []) visited w
      → ((more : List Text) → IsClosed more → Leaves ns more (next more))
      → Leaves (n ∷ ns) visited (and_then w next)
  and_then-Leaves n ns visited found next h k = tt
  and_then-Leaves n ns visited out_of_fuel next h k = tt
  and_then-Leaves n ns visited (walked more) next (closed, within, all) k =
      Leaves-cons n ns visited more (next more) within all.0 (k more closed)

  pub visit_all-Leaves :
      (step : List Text → Text → Walk) (visited ns : List Text)
      → Steps step
      → IsClosed visited
      → Leaves ns visited (visit_all step visited ns)
  unfolding visit_all
  visit_all-Leaves step visited [] s h = (h, λ n e. e, tt)
  visit_all-Leaves step visited (n ∷ ns) s h =
      and_then-Leaves n ns visited (step visited n) (λ more. visit_all step more ns) (s visited n h)
        (λ more closed. visit_all-Leaves step more ns s closed)

  enter-Leaves :
      (n : Text) (path visited : List Text) (seen : Bool) (on_path : Bool) (deeper : Walk)
      → contains visited n ≡ seen
      → IsClosed visited
      → Leaves (succ n) visited deeper
      → Leaves (n ∷ []) visited (enter n on_path seen visited deeper)
  unfolding contains
  enter-Leaves n path visited seen true deeper e h l = tt
  enter-Leaves n path visited true false deeper e h l = (h, λ m k. k, (e, tt))
  enter-Leaves n path visited false false found e h l = tt
  enter-Leaves n path visited false false out_of_fuel e h l = tt
  enter-Leaves n path visited false false (walked more) e h (closed, within, all) =
      ((all, closed), λ m k. later n m more (within m k), (rw (text_eq_refl n) refl, tt))
    where
      later :
          (n m : Text) (more : List Text)
          → contains more m ≡ true
          → (text_eq n m || contains more m) ≡ true
      later n m more h = ground arith

  pub visit-Leaves : (fuel : ℕ) (path : List Text) → Steps (visit succ fuel path)
  unfolding visit
  visit-Leaves zero path visited n h = tt
  visit-Leaves (suc f) path visited n h =
      enter-Leaves n path visited (contains visited n) (contains path n)
        (visit_all (visit succ f (n ∷ path)) visited (succ n)) refl h
        (visit_all-Leaves (visit succ f (n ∷ path)) visited (succ n) (visit-Leaves f (n ∷ path)) h)

  -- How far from the bottom a name stands last; 0 where it does not.
  abbrev pub height : Text → List Text → ℕ
  height n [] = 0
  height n (v ∷ vs) =
      if contains vs n then height n vs else if text_eq v n then suc (length vs) else 0

  pub height_bound : (n : Text) (vs : List Text) → height n vs ≤ length vs
  height_bound n [] = omega arith
  height_bound n (v ∷ vs) = ground (arith, height_bound n vs)

  pub AllIn-occurs :
      (ns vs : List Text) (b : Text) → AllIn ns vs → 0 < occurrences b ns → contains vs b ≡ true
  AllIn-occurs [] vs b h k = elim (none k) [ ]
    where
      none : 0 < 0 → ⊥
      none h = omega (arith, h)
  AllIn-occurs (n ∷ ns) vs b h k = elim (Bool-cases (text_eq n b)) [
    | inl e ↦ rw (sym (text_eq→eq n b e)) h.0
    | inr e ↦ AllIn-occurs ns vs b h.1 (ground arith)
  ]

  below :
      (vs : List Text) (a b : Text)
      → IsClosed vs
      → contains vs a ≡ true
      → 0 < occurrences b (succ a)
      → contains vs b ≡ true
  unfolding contains
  below [] a b h k l = ground arith
  below (v ∷ vs) a b (all, closed) k l = elim (Bool-cases (text_eq v a)) [
    | inl e ↦
        or_right (text_eq v b) (contains vs b)
          (AllIn-occurs (succ v) vs b all (rw (text_eq→eq v a e) l))
    | inr e ↦ or_right (text_eq v b) (contains vs b) (below vs a b closed (rw e at k) l)
  ]
    where
      or_right : (c d : Bool) → d ≡ true → (c || d) ≡ true
      or_right c d h = ground arith

  -- An edge from a visited name leads down.
  pub height_falls :
      (vs : List Text) (a b : Text)
      → IsClosed vs
      → contains vs a ≡ true
      → 0 < occurrences b (succ a)
      → height b vs < height a vs
  unfolding contains
  height_falls [] a b h k l = ground arith
  height_falls (v ∷ vs) a b (all, closed) k l = elim (Bool-cases (contains vs a)) [
    | inl e ↦ rw (e, below vs a b closed e l) (height_falls vs a b closed e l)
    | inr e ↦
        let is_v : text_eq v a ≡ true = ground arith in
        let same = text_eq→eq v a is_v in
        let into = AllIn-occurs (succ v) vs b all (rw same l) in
        rw (e, is_v, into) (omega (arith, height_bound b vs))
  ]
