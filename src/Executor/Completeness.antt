-- ===== src/Executor/Completeness.antt =====
-- Execute (internal/executor/executor.go): the order of a run's attempts, and that none is missed.
use nut_operator.Prelude.{
  ℕ, suc, true, false, not, List, [], ◌∷◌, ◌++◌, is_empty, ◌≡◌, refl, sym, ap, ◌∙◌, All, if_cases,
}
use mathlib.Core.List.{append_assoc, append-nil}
use nut_operator.Adaptive.Float.{Float64}
use nut_operator.Executor.Types.{at_end, base, Fault, fault_of, no_phase, Wave, Event, Executor}
use nut_operator.Executor.Waves.{moment}
use nut_operator.Executor.Overruns.{is_preempt, is_overlap, effective_tier_overrun_policy}
use nut_operator.Executor.Plan.{
  Input, GroupMap, validate_execute_input, Run, Finish, Progress, going, returned, wait_for_pending,
  record_aborted, finish_execution,
}
use nut_operator.Executor.Execute.{
  wave_round, end_round, go_on, run_waves, first_run, first_result, execute,
}
use nut_operator.Executor.Errors.{IsCoherent, not_empty}
use nut_operator.Executor.Attempts.{attempts, attempts-append}
use nut_operator.Executor.Order.{Names, placed}
use nut_operator.Executor.Placed.{planned, in_wave, groups_of, in_wave-plan}
use nut_operator.Executor.Valid.{IsNamedWave, validate_execute_input-All}
use nut_operator.Executor.Rounds.{wave_round-IsRound}
use nut_operator.Executor.Steps.{
  all_fine, whole_step, fails, drained-log, pending_fine, record_aborted-attempts, IsRound,
  IsPatient,
}

-- Wave by wave, the names are the first of the wave's groups, in their order.
unfoldable pub IsOrderedIn : ℕ → List Wave → Names → Type 0
IsOrderedIn position [] xs = xs ≡ []
IsOrderedIn position (w ∷ ws) xs =
    (done : Names) × (left : Names) × (later : Names) × (xs ≡ done ++ later)
    × (done ++ left ≡ placed position w.groups)
    × IsOrderedIn (suc position) ws later

none-IsOrderedIn : (position : ℕ) (ws : List Wave) → IsOrderedIn position ws []
unfolding IsOrderedIn
none-IsOrderedIn position [] = refl
none-IsOrderedIn position (w ∷ ws) =
    ([], placed position w.groups, [], refl, refl, none-IsOrderedIn (suc position) ws)

module _ {F : Type 0} ⦃fl : Float64 F⦄ (ex : Executor) (input : Input F) (groups : GroupMap)
    (coherent : IsCoherent ex) where
  -- The rest of a run: in order, and all of it where in the end nothing failed.
  record IsRest (position : ℕ) (ws : List Wave) (run : Run F) (f : Finish) : Type 0 where
    done : Names
    logged : attempts f.log ≡ attempts run.log ++ done
    ordered : IsOrderedIn position ws done
    whole :
        is_empty f.fault ≡ true
        → (all_fine run.pending ≡ true)
          × (IsPatient ex input groups coherent → done ≡ planned position ws)

  broken-IsRest :
      (position : ℕ) (run : Run F) (fault : Fault)
      → is_empty fault ≡ false
      → IsRest position [] run (record_aborted ex position (wait_for_pending ex run).0 fault)
  unfolding record_aborted IsOrderedIn
  broken-IsRest position run fault broken = record {
    done = [];
    logged =
        record_aborted-attempts ex input groups coherent position (wait_for_pending ex run).0 fault
        ∙ rw (drained-log ex input groups coherent run) (sym (append-nil (attempts run.log)));
    ordered = refl;
    whole = λ fine. elim (fails fault broken fine) [ ];
  }

  end_round-IsRest :
      (position : ℕ) (run : Run F) → IsRest position [] run (end_round ex input groups position run)
  unfolding end_round finish_execution IsOrderedIn attempts
  end_round-IsRest position run =
      let (drained, fault, failed_group) = wait_for_pending ex run in
      let stop = fault_of (ex.context_cause (moment position 0) at_end base) in
      let ended : is_empty fault ≡ true
          → IsRest position [] run (finish_execution ex position drained) =
        λ fine.
          if_cases (IsRest position [] run) (not (is_empty stop))
            (record_aborted ex position drained stop) _
            (λ stopped. broken-IsRest position run stop (not_empty stop stopped))
            (λ on. record {
              done = [];
              logged =
                  attempts-append drained.log _
                  ∙ ap (λ (es : List Event). attempts es ++ [])
                      (drained-log ex input groups coherent run);
              ordered = refl;
              whole = λ k. (pending_fine ex input groups coherent run fine, λ patient. refl);
            }) in
      if_cases (IsRest position [] run) (is_empty fault) (finish_execution ex position drained)
        (record_aborted ex position drained fault) ended
        (λ broken. broken-IsRest position run fault broken)

  go_on-IsRest :
      (position : ℕ) (w : Wave) (rest : List Wave) (run : Run F) (next : Run F → Finish)
      → ((run : Run F) → IsRest (suc position) rest run (next run))
      → (p : Progress F) → IsRound ex input groups coherent position run w p
      → IsRest position (w ∷ rest) run (go_on ex input groups next p)
  unfolding IsRound IsOrderedIn
  go_on-IsRest position w rest run next later (going on) h =
      let r = later on in
      record {
        done = h.done ++ r.done;
        logged =
            r.logged
            ∙ ap (λ (xs : Names). xs ++ r.done) h.logged
            ∙ append_assoc (attempts run.log) h.done r.done;
        ordered = (h.done, h.left, r.done, refl, h.ordered, r.ordered);
        whole = λ fine.
            let s = h.whole (r.whole fine).0 in
            (
              s.0,
              λ patient.
                  whole_step h.done h.left r.done _ _ h.ordered (s.1 patient)
                    ((r.whole fine).1 patient),
            );
      }
  go_on-IsRest position w rest run next later (returned f) (broken, h) = record {
    done = h.done;
    logged = h.logged;
    ordered = (
      h.done,
      h.left,
      [],
      sym (append-nil h.done),
      h.ordered,
      none-IsOrderedIn (suc position) rest,
    );
    whole = λ fine. elim (fails f.fault broken fine) [ ];
  }

  run_waves-IsRest :
      (position : ℕ) (ws : List Wave) (run : Run F)
      → All (IsNamedWave groups) ws
      → IsRest position ws run (run_waves ex input groups position ws run)
  unfolding run_waves
  run_waves-IsRest position [] run named = end_round-IsRest position run
  run_waves-IsRest position (w ∷ rest) run (named, later) =
      go_on-IsRest position w rest run (run_waves ex input groups (suc position) rest)
        (λ next. run_waves-IsRest (suc position) rest next later)
        (wave_round ex input groups position w rest run)
        (wave_round-IsRound ex input groups coherent position w rest run named)

module _ {F : Type 0} ⦃fl : Float64 F⦄ (ex : Executor) where
  -- However a run ends, where a canceled context says why and the policy is not Overlap, which
  -- lets waves run beside one another: the attempts are, wave by wave in the plan's order, the
  -- first groups of each wave in their order.
  pub execute-IsOrderedIn :
      (input : Input F)
      → IsCoherent ex
      → is_overlap (effective_tier_overrun_policy input.tier_overrun_policy) ≡ false
      → IsOrderedIn 0 input.waves (attempts (execute ex input).log)
  unfolding execute first_run attempts
  execute-IsOrderedIn input coherent one_by_one =
      let (groups, fault) = validate_execute_input input in
      if_cases (λ (f : Finish). IsOrderedIn 0 input.waves (attempts f.log)) (is_empty fault)
        (run_waves ex input groups 0 input.waves (first_run ex input))
        (record { result = first_result no_phase false 0; fault = fault; log = [] })
        (λ valid.
          let h =
            run_waves-IsRest ex input groups coherent 0 input.waves (first_run ex input)
              (validate_execute_input-All input valid) in
          rw h.logged h.ordered)
        (λ invalid. none-IsOrderedIn 0 input.waves)

  -- The log of a run without an error has the groups of the plan.
  all_attempted :
      (input : Input F)
      → IsCoherent ex
      → is_preempt (effective_tier_overrun_policy input.tier_overrun_policy) ≡ false
      → is_empty (execute ex input).fault ≡ true
      → attempts (execute ex input).log ≡ planned 0 input.waves
  unfolding execute first_run attempts
  all_attempted input coherent patient =
      let (groups, fault) = validate_execute_input input in
      if_cases (λ (f : Finish). is_empty f.fault ≡ true → attempts f.log ≡ planned 0 input.waves)
        (is_empty fault) (run_waves ex input groups 0 input.waves (first_run ex input))
        (record { result = first_result no_phase false 0; fault = fault; log = [] })
        (λ valid fine.
          let h =
            run_waves-IsRest ex input groups coherent 0 input.waves (first_run ex input)
              (validate_execute_input-All input valid) in
          h.logged ∙ (h.whole fine).1 patient)
        (λ invalid fine. elim (fails fault invalid fine) [ ])

  -- A run that ends without an error, where a canceled context says why and the policy is not
  -- Preempt: in each wave of the plan, by itself and whether or not other waves run beside it, the
  -- attempts are the wave's groups in their order, each as often as the wave names it and no
  -- other, and nothing is attempted in any other wave.
  pub execute_complete :
      (input : Input F)
      → IsCoherent ex
      → is_preempt (effective_tier_overrun_policy input.tier_overrun_policy) ≡ false
      → is_empty (execute ex input).fault ≡ true
      → (q : ℕ) → in_wave q (attempts (execute ex input).log) ≡ placed q (groups_of q input.waves)
  execute_complete input coherent patient fine q =
      ap (in_wave q) (all_attempted input coherent patient fine) ∙ in_wave-plan q input.waves
