-- ===== src/Executor/Authority.antt =====
-- Execute (internal/executor/executor.go): who allowed each call of the action runner.
use nut_operator.Prelude.{
  ℕ, suc, ◌<◌, Bool, true, false, ◌&&◌, ◌||◌, List, [], ◌∷◌, ◌++◌, if◌then◌else◌, is_empty, ◌≡◌,
  refl, arith, ◌⊎◌, inl, inr, All, All-append, All-map, if_both,
}
use nut_operator.Adaptive.Float.{Float64}
use nut_operator.Executor.Types.{
  at_due, base, fault_of, Fault, Wave, Action, no_phase, Event, Executor,
}
use nut_operator.Executor.Pointer.{WaveState}
use nut_operator.Executor.Groups.{is_hook}
use nut_operator.Executor.Waves.{WaveRun, moment}
use nut_operator.Executor.Overruns.{no_window, is_overlap}
use nut_operator.Executor.Plan.{
  Input, GroupMap, effective_dry_run, validate_execute_input, Run, Finish, Progress, going,
  returned, lower_tier_due, terminal_handoff_wave, absorb_wave, wait_for_pending, record_aborted,
  handle_wave_result, record_observation_failure, finish_execution,
}
use nut_operator.Executor.Execute.{
  policy_of, refuses, revoked_at, config_of, start_wave, close_round, overlap_wave, set_aside,
  begin_round, log_wave, is_timed_round, run_round, observe_round, wave_round, end_round, go_on,
  run_waves, first_run, first_result, execute,
}
use nut_operator.Executor.Errors.{race_told}
use nut_operator.Executor.Calls.{CallMeets, CallMeets-map, IsAllowed, IsClearedFor, run_wave-All}

none_below : (i : ℕ) → i < 0 → ⊥
none_below i le = omega arith

below_or_at : (i n : ℕ) → i < suc n → (i < n) ⊎ (i ≡ n)
below_or_at i n le = omega arith

module _ {F : Type 0} ⦃fl : Float64 F⦄ (ex : Executor) (input : Input F) (groups : GroupMap) where
  -- No approval check up to here, or up to the position, was refused.
  abbrev pub IsApprovedTo : ℕ → Type 0
  IsApprovedTo n = (i : ℕ) → i < n → refuses ex input groups i ≡ false

  -- A dry call is of a hook; any other one is in an approved Enforce run whose approval held at each
  -- wave so far, and its nodes are cleared.
  abbrev pub IsAuthorized : ℕ → Action → Type 0
  IsAuthorized j a =
      (a.dry_run ≡ true → is_hook a.group ≡ true)
      × (a.dry_run ≡ false
          → (effective_dry_run input ≡ false) × IsApprovedTo (suc j) × IsClearedFor a.group)

  abbrev IsSafeLog : List Event → Type 0
  IsSafeLog es = All (CallMeets IsAuthorized) es

  -- The flag of a run remembers each refusal, and its calls so far were authorized.
  record IsSafe (n : ℕ) (run : Run F) : Type 0 where
    remembered : run.revoked ≡ false → effective_dry_run input ≡ false → IsApprovedTo n
    authorized : IsSafeLog run.log

  abbrev IsKept : ℕ → Progress F → Type 0
  IsKept n (going run) = IsSafe n run
  IsKept n (returned f) = IsSafeLog f.log

  record_aborted-log :
      (position : ℕ) (run : Run F) (fault : Fault)
      → IsSafeLog run.log
      → IsSafeLog (record_aborted ex position run fault).log
  unfolding record_aborted
  record_aborted-log position run fault h = All-append (CallMeets IsAuthorized) run.log _ h (tt, tt)

  drained-log : (run : Run F) → (wait_for_pending ex run).0.log ≡ run.log
  unfolding wait_for_pending
  drained-log run = refl

  drained-revoked : (run : Run F) → (wait_for_pending ex run).0.revoked ≡ run.revoked
  unfolding wait_for_pending
  drained-revoked run = refl

  handle_wave_result-IsKept :
      (n position : ℕ) (run : Run F) (w : WaveRun)
      → IsSafe n run
      → IsKept n (handle_wave_result ex position run w)
  unfolding handle_wave_result wait_for_pending
  handle_wave_result-IsKept n position run w h =
      let run' : Run F = record run {
        result = absorb_wave run.result w;
        record_fault = run.record_fault ++ w.record_fault;
      } in
      if_both (IsKept n) (is_empty w.fault) (going run') (returned _)
        (record { remembered = h.remembered; authorized = h.authorized })
        (record_aborted-log position (wait_for_pending ex run').0 _ h.authorized)

  record_observation_failure-log :
      (position : ℕ) (run : Run F) (was_canceled : Bool) (fault : Fault)
      → IsSafeLog run.log
      → IsSafeLog (record_observation_failure ex position run was_canceled fault).log
  unfolding record_observation_failure
  record_observation_failure-log position run true fault h = record_aborted-log position run fault h
  record_observation_failure-log position run false fault h = h

  overlap_wave-IsKept :
      (n position : ℕ) (run : Run F) (w : WaveRun)
      → IsSafe n run
      → IsKept n (overlap_wave ex input groups position run w)
  unfolding overlap_wave wait_for_pending
  overlap_wave-IsKept n position run w h =
      let aside : Run F = record (set_aside ex input groups run w) { window = no_window } in
      let (drained, fault, failed_group) = wait_for_pending ex (set_aside ex input groups run w) in
      let stop = fault_of (ex.context_cause (moment position 0) at_due base) in
      let kept : IsSafe n aside = record { remembered = h.remembered; authorized = h.authorized } in
      if_both (IsKept n) _ (going aside) _ kept (
        race_told (IsKept n) (ex.race (moment position 0))
          (returned (record_aborted ex position drained (stop ++ fault)))
          (handle_wave_result ex position run w) (going aside)
          (λ first. record_aborted-log position drained (stop ++ fault) h.authorized)
          (handle_wave_result-IsKept n position run w h) kept)

  close_round-IsKept :
      (n : ℕ) (due : Bool) (p : Progress F)
      → IsKept n p
      → IsKept n (close_round ex input groups due p)
  unfolding close_round
  close_round-IsKept n true (going run) h = record {
    remembered = h.remembered;
    authorized = h.authorized;
  }
  close_round-IsKept n false (going run) h = h
  close_round-IsKept n due (returned f) h = h

  -- One more position is approved where the flag is still down after its check.
  unrefused :
      (position : ℕ) (run : Run F)
      → IsSafe position run
      → revoked_at ex input groups position run ≡ false
      → effective_dry_run input ≡ false
      → IsApprovedTo (suc position)
  unfolding revoked_at
  unrefused position run h kept live i le = elim (below_or_at i position le) [
    | inl before ↦ h.remembered (ground (arith, kept)) live i before
    | inr here ↦ rw here (ground (arith, kept, live))
  ]

  -- What a wave may call is authorized.
  authorize :
      (position : ℕ) (run : Run F) (j : ℕ) (a : Action)
      → IsSafe position run
      → IsAllowed position (effective_dry_run input || revoked_at ex input groups position run) j a
      → IsAuthorized j a
  authorize position run j a h (here, same, dry, real) = (
    λ is_dry. dry (ground (arith, same, is_dry)),
    λ is_real. (
      ground (arith, same, is_real),
      rw here (
          unrefused position run h (ground (arith, same, is_real)) (ground (arith, same, is_real))),
      real (ground (arith, same, is_real)),
    ),
  )

  start_wave-All :
      (position : ℕ) (w : Wave) (rest : List Wave) (run : Run F) (state : WaveState F)
      → IsSafe position run
      → IsSafeLog
          (start_wave ex input groups position w rest
            (begin_round ex input groups position w run state)
            state).log
  unfolding start_wave config_of
  start_wave-All position w rest run state h =
      All-map
        {P = CallMeets
          (IsAllowed position (effective_dry_run input || revoked_at ex input groups position run))}
        {Q = CallMeets IsAuthorized}
        (λ e. CallMeets-map _ IsAuthorized e (λ j a. authorize position run j a h)) _
        (run_wave-All ex position _ w state)

  run_round-IsKept :
      (position : ℕ) (w : Wave) (rest : List Wave) (run : Run F) (state : WaveState F)
      → IsSafe position run
      → IsKept (suc position) (run_round ex input groups position w rest run state)
  unfolding run_round start_wave config_of
  run_round-IsKept position w rest run state h =
      let begun = begin_round ex input groups position w run state in
      let wave_run = start_wave ex input groups position w rest begun state in
      let logged = log_wave ex input groups begun wave_run in
      let safe : IsSafe (suc position) logged = record {
        remembered = unrefused position run h;
        authorized =
            All-append (CallMeets IsAuthorized) run.log wave_run.log h.authorized
              (start_wave-All position w rest run state h);
      } in
      close_round-IsKept (suc position) (lower_tier_due w rest) _ (
        if_both (IsKept (suc position))
          (is_overlap (policy_of ex input groups) && is_timed_round ex input groups w rest logged)
          (overlap_wave ex input groups position logged wave_run)
          (handle_wave_result ex position logged wave_run)
          (overlap_wave-IsKept (suc position) position logged wave_run safe)
          (handle_wave_result-IsKept (suc position) position logged wave_run safe))

  observe_round-IsKept :
      (position : ℕ) (w : Wave) (rest : List Wave) (run : Run F)
      → IsSafe position run
      → IsKept (suc position) (observe_round ex input groups position w rest run)
  unfolding observe_round
  observe_round-IsKept position w rest run h =
      if_both (IsKept (suc position)) _ _ (returned _) (run_round-IsKept position w rest run _ h) (
        record_observation_failure-log position (wait_for_pending ex run).0 _ _
          (rw (drained-log run) h.authorized))

  drained-IsSafe : (n : ℕ) (run : Run F) → IsSafe n run → IsSafe n (wait_for_pending ex run).0
  unfolding wait_for_pending
  drained-IsSafe n run h = record { remembered = h.remembered; authorized = h.authorized }

  wave_round-IsKept :
      (position : ℕ) (w : Wave) (rest : List Wave) (run : Run F)
      → IsSafe position run
      → IsKept (suc position) (wave_round ex input groups position w rest run)
  unfolding wave_round
  wave_round-IsKept position w rest run h =
      let (drained, fault, failed_group) = wait_for_pending ex run in
      let waited : Progress F =
        if is_empty fault
        then observe_round ex input groups position w rest drained
        else returned (record_aborted ex position drained fault) in
      let waited_kept : IsKept (suc position) waited =
        if_both (IsKept (suc position)) (is_empty fault)
          (observe_round ex input groups position w rest drained)
          (returned (record_aborted ex position drained fault))
          (observe_round-IsKept position w rest drained (drained-IsSafe position run h))
          (record_aborted-log position drained fault (drained-IsSafe position run h).authorized) in
      if_both (IsKept (suc position))
        (w.communication_barrier || terminal_handoff_wave groups w rest) waited
        (observe_round ex input groups position w rest run) waited_kept
        (observe_round-IsKept position w rest run h)

  end_round-log :
      (position : ℕ) (run : Run F)
      → IsSafeLog run.log
      → IsSafeLog (end_round ex input groups position run).log
  unfolding end_round finish_execution
  end_round-log position run h =
      let drained = (wait_for_pending ex run).0 in
      if_both (λ (f : Finish). IsSafeLog f.log) _ (finish_execution ex position drained) _
        (if_both (λ (f : Finish). IsSafeLog f.log) _ _ _
          (record_aborted-log position drained _ (rw (drained-log run) h))
          (All-append (CallMeets IsAuthorized) drained.log _ (rw (drained-log run) h) (tt, tt)))
        (record_aborted-log position drained _ (rw (drained-log run) h))

  go_on-log :
      (n : ℕ) (next : Run F → Finish)
      → ((run : Run F) → IsSafe n run → IsSafeLog (next run).log)
      → (p : Progress F) → IsKept n p
      → IsSafeLog (go_on ex input groups next p).log
  go_on-log n next safe (going run) k = safe run k
  go_on-log n next safe (returned f) k = k

  run_waves-log :
      (position : ℕ) (ws : List Wave) (run : Run F)
      → IsSafe position run
      → IsSafeLog (run_waves ex input groups position ws run).log
  unfolding run_waves
  run_waves-log position [] run h = end_round-log position run h.authorized
  run_waves-log position (w ∷ rest) run h =
      go_on-log (suc position) (run_waves ex input groups (suc position) rest)
        (run_waves-log (suc position) rest) (wave_round ex input groups position w rest run)
        (wave_round-IsKept position w rest run h)

module _ {F : Type 0} ⦃fl : Float64 F⦄ (ex : Executor) where
  -- Every call of the action runner in a run, whatever the clock, the contexts, the approvals and
  -- the runner answer: if it is a dry call, its group is a hook; otherwise the input is an
  -- approved Enforce run that is not dry, no approval check at this wave or an earlier one was
  -- refused or failed, and every node of an AgentShutdown group has a ready agent, fresh telemetry
  -- and no workloads left.
  pub execute-IsAuthorized :
      (input : Input F)
      → All
          (CallMeets (IsAuthorized ex input (validate_execute_input input).0))
          (execute ex input).log
  unfolding execute first_run
  execute-IsAuthorized input =
      let (groups, fault) = validate_execute_input input in
      if_both (λ (f : Finish). All (CallMeets (IsAuthorized ex input groups)) f.log)
        (is_empty fault) (run_waves ex input groups 0 input.waves (first_run ex input))
        (record { result = first_result no_phase false 0; fault = fault; log = [] })
        (run_waves-log ex input groups 0 input.waves (first_run ex input) (record {
          remembered = λ kept live i le. elim (none_below i le) [ ];
          authorized = (tt, tt);
        }))
        tt
