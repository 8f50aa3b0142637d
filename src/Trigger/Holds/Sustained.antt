-- ===== src/Trigger/Holds/Sustained.antt =====
-- Evaluate (internal/trigger/evaluator.go) over a sequence of ticks.
use nut_operator.Prelude.{
  ℕ, suc, refl, inl, inr, List, [], ◌∷◌, ◌++◌, All, All-append, All-map, ◌≡◌, true, false, is_empty,
  Bool-cases,
}
use mathlib.Core.List.{Memᴰ}
use nut_operator.Text.{Text, text_lt}
use nut_operator.Diagnostics.{Diagnostic}
use nut_operator.Text.Sorting.{sort_by-All, sort_texts}
use nut_operator.Text.Maps.{contains, are_distinct}
use nut_operator.Trigger.Inputs.{
  Trigger, UpsState, HoldState, Inputs, Decision, normalize_trigger, normalize_ups_states,
  hold_index, sort_holds, hold_lt,
}
use nut_operator.Trigger.Evaluator.{
  select_ups_states, evaluate_trigger, Totals, empty_totals, add_keys, tally, evaluate_all,
  evaluate,
}
use nut_operator.Trigger.Holds.{numbered, Kept, Justified, IsTrue, run_ticks}
use nut_operator.Trigger.Holds.Own.{trigger_ids, Kept-Justified}
use nut_operator.Text.Laws.{has_code}
use nut_operator.Trigger.Holds.Trimmed.{IsTrimmed, normalize_trigger-IsTrimmed}
use nut_operator.Trigger.Holds.Scan.{scan-IsSound}

add_keys-All :
    (P : Text → Type 0) (set ks : List Text) → All P set → All P ks → All P (add_keys set ks)
add_keys-All P set [] h k = h
add_keys-All P set (x ∷ xs) h k = elim (Bool-cases (contains set x)) [
  | inl old ↦ rw old (add_keys-All P set xs h k.1)
  | inr new ↦ rw new (add_keys-All P (set ++ x ∷ []) xs (All-append P set (x ∷ []) h (k.0, tt)) k.1)
]

module _ (i : Inputs) (past : List Inputs) (true_before : All (IsTrue past) i.holds) where
  abbrev states : List UpsState
  states = normalize_ups_states i.ups_states

  -- What one trigger comes to.
  record IsBacked (result : Decision × List HoldState × List Diagnostic) : Type 0 where
    holds_true : All (IsTrue (i ∷ past)) result.1
    kept_devices : All (Kept i past) result.0.selected_ups_devices

  evaluate_trigger-IsBacked :
      (t : Trigger)
      → Memᴰ t (numbered 0 i.triggers)
      → IsTrimmed t.id
      → IsBacked (evaluate_trigger i.observed_at t (hold_index i.holds) states)
  unfolding evaluate_trigger sort_texts
  evaluate_trigger-IsBacked t m trimmed =
      let sound = scan-IsSound i past true_before t m trimmed in
      elim (Bool-cases (is_empty (select_ups_states t states))) [
        | inl none_chosen ↦ rw none_chosen (record { holds_true = tt; kept_devices = tt })
        | inr chosen ↦ rw chosen (record {
          holds_true = sound.holds_true;
          kept_devices = sort_by-All text_lt (Kept i past) _ sound.kept_devices;
        })
      ]

  -- What the loop over the triggers has gathered.
  record IsTallied (totals : Totals) : Type 0 where
    holds_true : All (IsTrue (i ∷ past)) totals.holds
    kept_devices : All (Kept i past) totals.selected

  tally-IsTallied :
      (totals : Totals) (result : Decision × List HoldState × List Diagnostic)
      → IsBacked result
      → IsTallied totals
      → IsTallied (tally totals result)
  unfolding tally
  tally-IsTallied totals result b h =
      let holds = All-append (IsTrue (i ∷ past)) totals.holds result.1 h.holds_true b.holds_true in
      elim (Bool-cases result.0.eligible) [
        | inl eligible ↦ record {
          holds_true = holds;
          kept_devices = rw eligible (
              add_keys-All (Kept i past) totals.selected result.0.selected_ups_devices
                h.kept_devices b.kept_devices);
        }
        | inr waiting ↦ record { holds_true = holds; kept_devices = rw waiting h.kept_devices }
      ]

  evaluate_all-IsTallied :
      (totals : Totals) (n : ℕ) (ts : List Trigger)
      → ((t : Trigger) → Memᴰ t (numbered n ts) → Memᴰ t (numbered 0 i.triggers))
      → IsTallied totals
      → IsTallied (evaluate_all i.observed_at states (hold_index i.holds) totals n ts)
  unfolding evaluate_all
  evaluate_all-IsTallied totals n [] sub h = h
  evaluate_all-IsTallied totals n (t ∷ ts) sub h =
      evaluate_all-IsTallied
        (tally totals
          (evaluate_trigger i.observed_at (normalize_trigger n t) (hold_index i.holds) states))
        (suc n) ts (λ x m. sub x (Memᴰ.tail m))
        (tally-IsTallied totals _
          (evaluate_trigger-IsBacked (normalize_trigger n t)
            (sub (normalize_trigger n t) (Memᴰ.head refl)) (normalize_trigger-IsTrimmed n t))
          h)

  totals-IsTallied :
      IsTallied (evaluate_all i.observed_at states (hold_index i.holds) empty_totals 0 i.triggers)
  totals-IsTallied =
      evaluate_all-IsTallied empty_totals 0 i.triggers (λ t m. m)
        (record { holds_true = tt; kept_devices = tt })

  pub evaluate-IsTrue : All (IsTrue (i ∷ past)) (evaluate i).holds
  unfolding evaluate sort_holds
  evaluate-IsTrue = sort_by-All hold_lt (IsTrue (i ∷ past)) _ totals-IsTallied.holds_true

  pub evaluate-Kept : All (Kept i past) (evaluate i).selected_ups_devices
  unfolding evaluate sort_texts
  evaluate-Kept = sort_by-All text_lt (Kept i past) _ totals-IsTallied.kept_devices

run_ticks-IsTrue :
    (holds : List HoldState) (past is : List Inputs)
    → All (IsTrue past) holds
    → let (holds', past') = run_ticks holds past is in All (IsTrue past') holds'
unfolding run_ticks
run_ticks-IsTrue holds past [] h = h
run_ticks-IsTrue holds past (i ∷ is) h =
    let tick = record i { holds = holds } in
    run_ticks-IsTrue (evaluate tick).holds (tick ∷ past) is (evaluate-IsTrue tick past h)

-- An evaluation after a list of ticks, which began with no holds.
abbrev pub next_tick : List Inputs → Inputs → Inputs
next_tick is i = record i { holds = (run_ticks [] [] is).0 }

-- Every hold that is remembered after any ticks, which began with no holds, was true at each tick
-- since it began.
pub remembered_holds-IsTrue :
    (is : List Inputs) → All (IsTrue (run_ticks [] [] is).1) (run_ticks [] [] is).0
remembered_holds-IsTrue is = run_ticks-IsTrue [] [] is tt

run_ticks-All :
    (P : Inputs → Type 0) (holds : List HoldState) (past is : List Inputs)
    → ((i : Inputs) (hs : List HoldState) → P i → P (record i { holds = hs }))
    → All P past
    → All P is
    → All P (run_ticks holds past is).1
unfolding run_ticks
run_ticks-All P holds past [] keeps h k = h
run_ticks-All P holds past (i ∷ is) keeps h k =
    let tick = record i { holds = holds } in
    run_ticks-All P (evaluate tick).holds (tick ∷ past) is keeps (keeps i holds k.0, h) k.1

-- After any ticks with one configuration, which began with no holds, where the triggers' IDs are
-- distinct and have no NUL: for every device that an evaluation selects there is one configured
-- trigger whose own condition was true for it at each tick since some start, at which it was
-- observed, and the trigger's hold time, if it is above 0, has passed since that start.
pub selected_devices-Justified :
    (ts : List Trigger) (is : List Inputs) (i : Inputs)
    → All (λ (t : Trigger). has_code 0 t.id ≡ false) (numbered 0 ts)
    → are_distinct (trigger_ids (numbered 0 ts)) ≡ true
    → All (λ (j : Inputs). j.triggers ≡ ts) (i ∷ is)
    → All
        (Justified (next_tick is i) (run_ticks [] [] is).1)
        (evaluate (next_tick is i)).selected_ups_devices
selected_devices-Justified ts is i plain distinct same =
    let past = (run_ticks [] [] is).1 in
    let configured =
      run_ticks-All (λ (j : Inputs). j.triggers ≡ ts) [] [] is (λ j hs e. e) tt same.1 in
    All-map
      (λ device. Kept-Justified ts plain distinct (next_tick is i) past device (same.0, configured))
      _ (evaluate-Kept (next_tick is i) past (remembered_holds-IsTrue is))
