-- ===== src/Executor/Calls.antt =====
-- executeGroup and runWave (internal/executor/executor.go): the calls of the action runner.
use nut_operator.Prelude.{
  ℕ, suc, Bool, true, false, not, ◌&&◌, ◌||◌, List, [], ◌∷◌, ◌++◌, Option, none, some,
  if◌then◌else◌, is_empty, ◌≡◌, refl, arith, All, All-append, Bool-cases, inl, inr, if_both,
}
use nut_operator.Prelude.Int.{ℤ}
use nut_operator.Text.{Text}
use nut_operator.Text.Maps.{lookup}
use nut_operator.Adaptive.Float.{Float64}
use nut_operator.Executor.Types.{
  Moment, Context, Fault, NodeRelease, Group, Wave, Action, ActionOutcome, Event, called, wrote,
  Executor, at_group_end,
}
use nut_operator.Executor.Release.{
  is_clear, release_problems, agent_shutdown_readiness_error, record_node_releases,
  refresh_release_evidence,
}
use nut_operator.Executor.Pointer.{WaveState}
use nut_operator.Executor.Groups.{
  is_shutdown, is_hook, Attempt, check_release, hold_wait, check_context, run_action, check_timeout,
  attempt_group, close_group, call_runner, attempt_of, action_of, execute_group,
}
use nut_operator.Executor.Waves.{
  WaveRun, WaveConfig, absorb_group, run_group, run_groups, tier_preempted, resolve_wave_targets,
  run_wave, mark_terminal, group_or_zero, moment, begun, unresolved, run_resolved, close_wave,
}

-- Each call of the runner has a property.
abbrev pub CallMeets : (ℕ → Action → Type 0) → Event → Type 0
CallMeets P (called j a) = P j a
CallMeets P (wrote row) = Unit

-- Every node of an AgentShutdown group has a ready agent, fresh telemetry and no workloads left.
abbrev pub all_clear : List NodeRelease → Bool
all_clear [] = true
all_clear (r ∷ rs) = is_clear r && all_clear rs

abbrev pub IsClearedFor : Group → Type 0
IsClearedFor g = is_shutdown g ≡ true → all_clear g.node_releases ≡ true

-- A call of the wave: a dry run calls hooks alone; any other call has its nodes cleared.
abbrev pub IsAllowed : ℕ → Bool → ℕ → Action → Type 0
IsAllowed position dry_run j a =
    (j ≡ position)
    × (a.dry_run ≡ dry_run)
    × (dry_run ≡ true → is_hook a.group ≡ true)
    × (dry_run ≡ false → IsClearedFor a.group)

no_problems : (rs : List NodeRelease) → is_empty (release_problems rs) ≡ true → all_clear rs ≡ true
unfolding release_problems
no_problems [] h = refl
no_problems (r ∷ rs) h = ground (arith, no_problems rs)

-- Before the call: none was made, and without an error the nodes of a real shutdown are cleared.
record IsChecked (dry_run : Bool) (a : Attempt) : Type 0 where
  uncalled : a.calls ≡ []
  cleared : is_empty a.fault ≡ true → dry_run ≡ false → IsClearedFor a.group

module _ (ex : Executor) (at : Moment) (dry_run : Bool) where
  check_release-IsChecked :
      (ctx : Context) (g : Group) → IsChecked dry_run (check_release ex at dry_run ctx g)
  unfolding check_release agent_shutdown_readiness_error
  check_release-IsChecked ctx g = record {
    uncalled = ground arith;
    cleared = ground (arith, no_problems (refresh_release_evidence ex at ctx g).0.node_releases);
  }

  hold_wait-IsChecked :
      (ctx : Context) (w : ℤ) (a : Attempt)
      → IsChecked dry_run a
      → IsChecked dry_run (hold_wait ex at dry_run ctx w a)
  unfolding hold_wait
  hold_wait-IsChecked ctx w a h = record {
    uncalled = ground (arith, h.uncalled);
    cleared = ground (arith, h.cleared);
  }

  check_context-IsChecked :
      (ctx : Context) (a : Attempt)
      → IsChecked dry_run a
      → IsChecked dry_run (check_context ex at dry_run ctx a)
  unfolding check_context
  check_context-IsChecked ctx a h = record {
    uncalled = ground (arith, h.uncalled);
    cleared = ground (arith, h.cleared);
  }

  call_runner-All :
      (P : ℕ → Action → Type 0)
      (runner : Option (Moment → Context → Action → ActionOutcome × Fault)) (ctx : Context)
      (action : Action) (a : Attempt)
      → a.calls ≡ []
      → P at.wave action
      → All (CallMeets P) (call_runner ex at dry_run runner ctx action a).calls
  call_runner-All P none ctx action a none_yet p = rw none_yet tt
  call_runner-All P (some runner) ctx action a none_yet p = rw none_yet (p, tt)

  allowed :
      (action : Group → Action) (a : Attempt)
      → ((g : Group) → (action g).dry_run ≡ dry_run)
      → ((g : Group) → (action g).group ≡ g)
      → IsChecked dry_run a
      → ((not dry_run || is_hook a.group) && is_empty a.fault) ≡ true
      → IsAllowed at.wave dry_run at.wave (action a.group)
  allowed action a same_dry same_group h real =
      rw (same_group a.group)
        (refl, same_dry a.group, ground arith, λ real_run. h.cleared (ground arith) real_run)

  run_action-All :
      (ctx : Context) (action : Group → Action) (a : Attempt)
      → ((g : Group) → (action g).dry_run ≡ dry_run)
      → ((g : Group) → (action g).group ≡ g)
      → IsChecked dry_run a
      → All
          (CallMeets (IsAllowed at.wave dry_run))
          (run_action ex at dry_run ctx (action a.group) a).calls
  unfolding run_action
  run_action-All ctx action a same_dry same_group h =
      elim (Bool-cases ((not dry_run || is_hook a.group) && is_empty a.fault)) [
        | inl real ↦ rw real (
            call_runner-All (IsAllowed at.wave dry_run) ex.runner ctx (action a.group) a h.uncalled
              (allowed action a same_dry same_group h real))
        | inr skipped ↦ rw (skipped, h.uncalled) tt
      ]

  check_timeout-calls :
      (group_ctx action_ctx : Context) (timeout : ℤ) (a : Attempt)
      → (check_timeout ex at dry_run group_ctx action_ctx timeout a).calls ≡ a.calls
  unfolding check_timeout
  check_timeout-calls group_ctx action_ctx timeout a = ground arith

  release_rows-All :
      (P : ℕ → Action → Type 0) (ttl observed : ℤ) (n : Text) (o : ActionOutcome)
      (rs : List NodeRelease)
      → All (CallMeets P) (record_node_releases ex at dry_run ttl observed n o rs).0
  unfolding record_node_releases
  release_rows-All P ttl observed n o [] = tt
  release_rows-All P ttl observed n o (r ∷ rs) =
      ground (arith, release_rows-All P ttl observed n o rs)

  attempt_group-All :
      (group_ctx action_ctx : Context) (timeout wait : ℤ) (action : Group → Action) (g : Group)
      → ((g : Group) → (action g).dry_run ≡ dry_run)
      → ((g : Group) → (action g).group ≡ g)
      → All
          (CallMeets (IsAllowed at.wave dry_run))
          (attempt_group ex at dry_run group_ctx action_ctx timeout wait action g).calls
  unfolding attempt_group
  attempt_group-All group_ctx action_ctx timeout wait action g same_dry same_group =
      let checked = check_release ex at dry_run group_ctx g in
      let held =
        check_context ex at dry_run group_ctx (hold_wait ex at dry_run group_ctx wait checked) in
      rw
        (check_timeout-calls group_ctx action_ctx timeout
          (run_action ex at dry_run group_ctx (action held.group) held))
        (run_action-All group_ctx action held same_dry same_group (
          check_context-IsChecked group_ctx (hold_wait ex at dry_run group_ctx wait checked)
            (hold_wait-IsChecked group_ctx wait checked (check_release-IsChecked group_ctx g))))

  close_group-All :
      (P : ℕ → Action → Type 0) (ttl : ℤ) (a : Attempt)
      → All (CallMeets P) a.calls
      → All (CallMeets P) (close_group ex at dry_run ttl a).log
  unfolding close_group
  close_group-All P ttl a h =
      All-append (CallMeets P) (a.calls ++ _ ∷ _ ∷ []) _
        (All-append (CallMeets P) a.calls _ h (tt, (tt, tt)))
        (release_part (is_shutdown a.group) _ (
          release_rows-All P ttl (ex.now at at_group_end) a.group.name a.outcome
            a.group.node_releases))
    where
      release_part :
          (b : Bool) (es : List Event)
          → All (CallMeets P) es
          → All (CallMeets P) (if b then es else [])
      release_part true es k = k
      release_part false es k = tt

pub CallMeets-map :
    (P Q : ℕ → Action → Type 0) (e : Event)
    → ((j : ℕ) (a : Action) → P j a → Q j a)
    → CallMeets P e
    → CallMeets Q e
CallMeets-map P Q (called j a) f h = f j a h
CallMeets-map P Q (wrote row) f h = tt

module _ {F : Type 0} ⦃fl : Float64 F⦄ (ex : Executor) where
  attempt_of-All :
      (at : Moment) (dry_run : Bool) (ctx : Context) (index : ℤ) (g : Group) (state : WaveState F)
      (overrunning : Bool)
      → All
          (CallMeets (IsAllowed at.wave dry_run))
          (attempt_of ex at dry_run ctx index g state overrunning).calls
  unfolding attempt_of
  attempt_of-All at dry_run ctx index g state overrunning =
      attempt_group-All ex at dry_run _ ctx _ _ (action_of ex dry_run index state overrunning) g
        (λ k. refl) (λ k. refl)

  pub execute_group-All :
      (at : Moment) (dry_run : Bool) (ttl : ℤ) (ctx : Context) (index : ℤ) (g : Group)
      (state : WaveState F) (overrunning : Bool)
      → All
          (CallMeets (IsAllowed at.wave dry_run))
          (execute_group ex at dry_run ttl ctx index g state overrunning).log
  unfolding execute_group
  execute_group-All at dry_run ttl ctx index g state overrunning =
      close_group-All ex at dry_run (IsAllowed at.wave dry_run) ttl
        (attempt_of ex at dry_run ctx index g state overrunning)
        (attempt_of-All at dry_run ctx index g state overrunning)

  module _ (position : ℕ) (cfg : WaveConfig) (wave : Wave) (state : WaveState F) where
    abbrev Allowed : List Event → Type 0
    Allowed es = All (CallMeets (IsAllowed position cfg.dry_run)) es

    run_groups-All :
        (resolved : List (Text × Group)) (i : ℕ) (run : WaveRun) (ns : List Text)
        → Allowed run.log
        → Allowed (run_groups ex position cfg wave state resolved i run ns).0.log
    unfolding run_groups absorb_group run_group
    run_groups-All resolved i run [] h = h
    run_groups-All resolved i run (n ∷ ns) h =
        let g = group_or_zero (lookup n resolved) in
        let r = run_group ex position cfg wave state i g in
        let run' = absorb_group ex position cfg wave state run r in
        let later = run_groups ex position cfg wave state resolved (suc i) run' ns in
        let broken : WaveRun × Bool =
          (record run' { fault = r.fault; failed_group = g.name }, false) in
        let h' : Allowed run'.log =
          All-append (CallMeets (IsAllowed position cfg.dry_run)) run.log _ h (
            execute_group-All (moment position i) cfg.dry_run cfg.signal_ttl cfg.action_context
              wave.index (mark_terminal ex position cfg wave state g) state _) in
        if_both (λ (r : WaveRun × Bool). Allowed r.0.log)
          (tier_preempted ex position cfg wave state i) (run', true)
          (if not (is_empty r.fault) then broken else later) h'
          (if_both (λ (r : WaveRun × Bool). Allowed r.0.log) (not (is_empty r.fault)) broken later
            h' (run_groups-All resolved (suc i) run' ns h'))

    run_resolved-All : Allowed (run_resolved ex position cfg wave state).0.log
    unfolding run_resolved
    run_resolved-All =
        let (resolved, failed_at, stop) = resolve_wave_targets ex position cfg wave state in
        if_both (λ (r : WaveRun × Bool). Allowed r.0.log) (is_empty stop)
          (run_groups ex position cfg wave state resolved 0 (begun ex position cfg wave state)
            wave.groups)
          (unresolved ex position cfg wave state failed_at stop)
          (run_groups-All resolved 0 (begun ex position cfg wave state) wave.groups (tt, tt))
          (tt, tt)

    pub run_wave-All : Allowed (run_wave ex position cfg wave state).log
    unfolding run_wave close_wave
    run_wave-All =
        All-append (CallMeets (IsAllowed position cfg.dry_run))
          (run_resolved ex position cfg wave state).0.log _ run_resolved-All (tt, tt)
