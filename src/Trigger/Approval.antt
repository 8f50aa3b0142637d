-- ===== src/Trigger/Approval.antt =====
-- Evaluate (internal/trigger/evaluator.go): the totals of one evaluation.
use nut_operator.Prelude.{
  ℕ, suc, ◌+◌, Bool, false, not, ◌||◌, ◌≡◌, refl, ◌∙◌, List, [], ◌∷◌, ◌++◌, arith, is_empty, length,
  length-append, Bool-cases, inl, inr, if◌then◌else◌,
}
use nut_operator.Prelude.Int.{ℤ}
use nut_operator.Text.{Text, text_lt}
use nut_operator.Text.Sorting.{sort_by, sort_texts, insert_sorted}
use nut_operator.Text.Maps.{contains}
use nut_operator.Diagnostics.{Diagnostic}
use nut_operator.Trigger.Inputs.{
  Trigger, UpsState, HoldState, Inputs, Decision, normalize_trigger, normalize_ups_states,
  hold_index,
}
use nut_operator.Trigger.Evaluator.{
  select_ups_states, Scan, empty_scan, visit, scan_all, evaluate_trigger, Totals, empty_totals,
  add_keys, tally, evaluate_all, evaluate,
}

abbrev pub any_eligible : List Decision → Bool
any_eligible [] = false
any_eligible (d ∷ ds) = d.eligible || any_eligible ds

abbrev pub count_matched : List Decision → ℕ
count_matched [] = 0
count_matched (d ∷ ds) = if d.matched then suc (count_matched ds) else count_matched ds

any_eligible-snoc :
    (ds : List Decision) (d : Decision)
    → any_eligible (ds ++ d ∷ []) ≡ (any_eligible ds || d.eligible)
any_eligible-snoc [] d = ground arith
any_eligible-snoc (x ∷ xs) d = ground (arith, any_eligible-snoc xs d)

count_matched-snoc :
    (ds : List Decision) (d : Decision)
    → count_matched (ds ++ d ∷ [])
      ≡ (if d.matched then suc (count_matched ds) else count_matched ds)
count_matched-snoc [] d = refl
count_matched-snoc (x ∷ xs) d = ground (arith, count_matched-snoc xs d)

is_empty-snoc {ℓ} : {A : Type ℓ} (xs : List A) (x : A) → is_empty (xs ++ x ∷ []) ≡ false
is_empty-snoc [] x = refl
is_empty-snoc (y ∷ ys) x = refl

is_empty-insert : (x : Text) (xs : List Text) → is_empty (insert_sorted text_lt x xs) ≡ false
unfolding insert_sorted
is_empty-insert x [] = refl
is_empty-insert x (y ∷ ys) = ground arith

is_empty-sort : (xs : List Text) → is_empty (sort_texts xs) ≡ is_empty xs
unfolding sort_texts sort_by
is_empty-sort [] = refl
is_empty-sort (x ∷ xs) = is_empty-insert x (sort_by text_lt xs)

add_keys_keeps : (set ks : List Text) → is_empty set ≡ false → is_empty (add_keys set ks) ≡ false
add_keys_keeps set [] h = h
add_keys_keeps set (k ∷ ks) h = elim (Bool-cases (contains set k)) [
  | inl old ↦ rw old (add_keys_keeps set ks h)
  | inr new ↦ rw new (add_keys_keeps (set ++ k ∷ []) ks (is_empty-snoc set k))
]

add_keys_adds : (set ks : List Text) → is_empty ks ≡ false → is_empty (add_keys set ks) ≡ false
unfolding contains
add_keys_adds set [] h = cc
add_keys_adds [] (k ∷ ks) h = add_keys_keeps (k ∷ []) ks refl
add_keys_adds (x ∷ xs) ks h = add_keys_keeps (x ∷ xs) ks refl

-- A trigger is eligible exactly when it selects some device.
abbrev IsEven : Decision → Type 0
IsEven d = d.eligible ≡ not (is_empty d.selected_ups_devices)

module _ (now : ℤ) (t : Trigger) (holds : List (Text × HoldState)) where
  visit_selects :
      (scan : Scan) (s : UpsState)
      → scan.eligible ≡ not (is_empty scan.selected)
      → (visit now t holds scan s).eligible ≡ not (is_empty (visit now t holds scan s).selected)
  unfolding visit
  visit_selects scan s h = ground (arith, is_empty-snoc scan.selected s.ups_device)

  scan_all_selects :
      (scan : Scan) (ss : List UpsState)
      → scan.eligible ≡ not (is_empty scan.selected)
      → (scan_all now t holds scan ss).eligible
        ≡ not (is_empty (scan_all now t holds scan ss).selected)
  unfolding scan_all
  scan_all_selects scan [] h = h
  scan_all_selects scan (s ∷ ss) h =
      scan_all_selects (visit now t holds scan s) ss (visit_selects scan s h)

  evaluate_trigger-IsEven : (ss : List UpsState) → IsEven (evaluate_trigger now t holds ss).0
  unfolding evaluate_trigger
  evaluate_trigger-IsEven ss =
      let scan = scan_all now t holds empty_scan (select_ups_states t ss) in
      ground (
        arith,
        scan_all_selects empty_scan (select_ups_states t ss) refl,
        is_empty-sort scan.selected,
      )

-- What holds of the totals after some triggers.
record IsSummary (totals : Totals) : Type 0 where
  any : totals.approved ≡ any_eligible totals.decisions
  selects : totals.approved ≡ not (is_empty totals.selected)
  counted : totals.matched_count ≡ count_matched totals.decisions

tally-IsSummary :
    (totals : Totals) (result : Decision × List HoldState × List Diagnostic)
    → IsEven result.0
    → IsSummary totals
    → IsSummary (tally totals result)
unfolding tally
tally-IsSummary totals result e h = ground (
  arith,
  any_eligible-snoc totals.decisions result.0,
  count_matched-snoc totals.decisions result.0,
  add_keys_keeps totals.selected result.0.selected_ups_devices,
  add_keys_adds totals.selected result.0.selected_ups_devices,
)

module _ (now : ℤ) (states : List UpsState) (holds : List (Text × HoldState)) where
  evaluate_all-IsSummary :
      (totals : Totals) (n : ℕ) (ts : List Trigger)
      → IsSummary totals
      → IsSummary (evaluate_all now states holds totals n ts)
  unfolding evaluate_all
  evaluate_all-IsSummary totals n [] h = h
  evaluate_all-IsSummary totals n (t ∷ ts) h =
      let result = evaluate_trigger now (normalize_trigger n t) holds states in
      evaluate_all-IsSummary (tally totals result) (suc n) ts (
        tally-IsSummary totals result
          (evaluate_trigger-IsEven now (normalize_trigger n t) holds states) h)

  length-evaluate_all :
      (totals : Totals) (n : ℕ) (ts : List Trigger)
      → length (evaluate_all now states holds totals n ts).decisions
        ≡ length totals.decisions + length ts
  unfolding evaluate_all tally
  length-evaluate_all totals n [] = omega arith
  length-evaluate_all totals n (t ∷ ts) =
      let result = evaluate_trigger now (normalize_trigger n t) holds states in
      omega (
        arith,
        length-evaluate_all (tally totals result) (suc n) ts,
        length-append totals.decisions (result.0 ∷ []),
      )

-- An evaluation has a decision for each configured trigger, approves exactly when some decision is
-- eligible, which is exactly when it selects some device, and counts the matched triggers.
pub evaluate_summary :
    (i : Inputs)
    → (length (evaluate i).decisions ≡ length i.triggers)
      × ((evaluate i).approved ≡ any_eligible (evaluate i).decisions)
      × ((evaluate i).approved ≡ not (is_empty (evaluate i).selected_ups_devices))
      × ((evaluate i).matched_trigger_count ≡ count_matched (evaluate i).decisions)
unfolding evaluate
evaluate_summary i =
    let states = normalize_ups_states i.ups_states in
    let totals = evaluate_all i.observed_at states (hold_index i.holds) empty_totals 0 i.triggers in
    let h =
      evaluate_all-IsSummary i.observed_at states (hold_index i.holds) empty_totals 0 i.triggers
        start in
    (
      length-evaluate_all i.observed_at states (hold_index i.holds) empty_totals 0 i.triggers
          ∙ omega arith,
      h.any,
      ground (arith, h.selects, is_empty-sort totals.selected),
      h.counted,
    )
  where
    start : IsSummary empty_totals
    start = record { any = refl; selects = refl; counted = refl }
