-- ===== src/Executor/Attempts.antt =====
-- executeGroup and runWave (internal/executor/executor.go): which groups are attempted.
use nut_operator.Prelude.{
  ℕ, Bool, List, [], ◌∷◌, ◌++◌, Option, none, some, if◌then◌else◌, is_empty, ◌≡◌, refl, arith, ap,
  ◌∙◌, if_both,
}
use mathlib.Core.List.{append_assoc}
use nut_operator.Prelude.Int.{ℤ}
use nut_operator.Text.{Text}
use nut_operator.Adaptive.Float.{Float64}
use nut_operator.Executor.Types.{
  Moment, Context, Fault, NodeRelease, Group, Action, ActionOutcome, group_row, attempt_row, Event,
  called, wrote, Executor, at_group_end, completed, failed,
}
use nut_operator.Executor.Release.{record_node_releases, refresh_release_evidence}
use nut_operator.Executor.Pointer.{WaveState}
use nut_operator.Executor.Groups.{
  is_shutdown, Attempt, check_release, hold_wait, check_context, run_action, check_timeout,
  attempt_group, close_group, call_runner, attempt_of, action_of, execute_group,
}

-- The attempts among the events, with the position of the wave and the group's name.
abbrev pub attempt_in : Event → List (ℕ × Text)
attempt_in (wrote (attempt_row j n dry_run o)) = (j, n) ∷ []
attempt_in _ = []

unfoldable pub attempts : List Event → List (ℕ × Text)
attempts [] = []
attempts (e ∷ es) = attempt_in e ++ attempts es

pub attempts-append : (xs ys : List Event) → attempts (xs ++ ys) ≡ attempts xs ++ attempts ys
unfolding attempts
attempts-append [] ys = refl
attempts-append (x ∷ xs) ys =
    rw (attempts-append xs ys, append_assoc (attempt_in x) (attempts xs) (attempts ys)) refl

after_calls : (cs es : List Event) → attempts cs ≡ [] → attempts (cs ++ es) ≡ attempts es
after_calls cs es h = rw (attempts-append cs es, h) refl

module _ (ex : Executor) (at : Moment) (dry_run : Bool) where
  -- An attempt at the group, its calls alone so far.
  record IsTaken (n : Text) (a : Attempt) : Type 0 where
    silent : attempts a.calls ≡ []
    named : a.group.name ≡ n

  refreshed-name :
      (ctx : Context) (g : Group) → (refresh_release_evidence ex at ctx g).0.name ≡ g.name
  unfolding refresh_release_evidence
  refreshed-name ctx g = ground arith

  check_release-IsTaken :
      (ctx : Context) (g : Group) → IsTaken g.name (check_release ex at dry_run ctx g)
  unfolding check_release attempts
  check_release-IsTaken ctx g = record {
    silent = ground arith;
    named = ground (arith, refreshed-name ctx g);
  }

  hold_wait-IsTaken :
      (n : Text) (ctx : Context) (w : ℤ) (a : Attempt)
      → IsTaken n a
      → IsTaken n (hold_wait ex at dry_run ctx w a)
  unfolding hold_wait
  hold_wait-IsTaken n ctx w a h = record {
    silent = ground (arith, h.silent);
    named = ground (arith, h.named);
  }

  check_context-IsTaken :
      (n : Text) (ctx : Context) (a : Attempt)
      → IsTaken n a
      → IsTaken n (check_context ex at dry_run ctx a)
  unfolding check_context
  check_context-IsTaken n ctx a h = record {
    silent = ground (arith, h.silent);
    named = ground (arith, h.named);
  }

  call_runner-IsTaken :
      (n : Text) (runner : Option (Moment → Context → Action → ActionOutcome × Fault))
      (ctx : Context) (action : Action) (a : Attempt)
      → IsTaken n a
      → IsTaken n (call_runner ex at dry_run runner ctx action a)
  unfolding attempts
  call_runner-IsTaken n none ctx action a h = record { silent = h.silent; named = h.named }
  call_runner-IsTaken n (some runner) ctx action a h = record {
    silent = rw (attempts-append a.calls (called at.wave action ∷ []), h.silent) refl;
    named = h.named;
  }

  run_action-IsTaken :
      (n : Text) (ctx : Context) (action : Action) (a : Attempt)
      → IsTaken n a
      → IsTaken n (run_action ex at dry_run ctx action a)
  unfolding run_action
  run_action-IsTaken n ctx action a h =
      if_both (IsTaken n) _ (call_runner ex at dry_run ex.runner ctx action a) a
        (call_runner-IsTaken n ex.runner ctx action a h) h

  check_timeout-IsTaken :
      (n : Text) (group_ctx action_ctx : Context) (timeout : ℤ) (a : Attempt)
      → IsTaken n a
      → IsTaken n (check_timeout ex at dry_run group_ctx action_ctx timeout a)
  unfolding check_timeout
  check_timeout-IsTaken n group_ctx action_ctx timeout a h = record {
    silent = ground (arith, h.silent);
    named = ground (arith, h.named);
  }

  attempt_group-IsTaken :
      (group_ctx action_ctx : Context) (timeout wait : ℤ) (action : Group → Action) (g : Group)
      → IsTaken g.name (attempt_group ex at dry_run group_ctx action_ctx timeout wait action g)
  unfolding attempt_group
  attempt_group-IsTaken group_ctx action_ctx timeout wait action g =
      let checked = check_release ex at dry_run group_ctx g in
      let slept = hold_wait ex at dry_run group_ctx wait checked in
      let held = check_context ex at dry_run group_ctx slept in
      check_timeout-IsTaken g.name group_ctx action_ctx timeout
        (run_action ex at dry_run group_ctx (action held.group) held)
        (run_action-IsTaken g.name group_ctx (action held.group) held (
          check_context-IsTaken g.name group_ctx slept
            (hold_wait-IsTaken g.name group_ctx wait checked (check_release-IsTaken group_ctx g))))

  release_rows-attempts :
      (ttl observed : ℤ) (n : Text) (o : ActionOutcome) (rs : List NodeRelease)
      → attempts (record_node_releases ex at dry_run ttl observed n o rs).0 ≡ []
  unfolding record_node_releases attempts
  release_rows-attempts ttl observed n o [] = refl
  release_rows-attempts ttl observed n o (r ∷ rs) =
      ground (arith, release_rows-attempts ttl observed n o rs)

  close_group-attempts :
      (n : Text) (ttl : ℤ) (a : Attempt)
      → IsTaken n a
      → attempts (close_group ex at dry_run ttl a).log ≡ (at.wave, n) ∷ []
  unfolding close_group attempts
  close_group-attempts n ttl a h =
      let rows =
        (record_node_releases ex at dry_run ttl (ex.now at at_group_end) a.group.name a.outcome
          a.group.node_releases).0 in
      let no_more : attempts (if is_shutdown a.group then rows else []) ≡ [] =
        if_both (λ (es : List Event). attempts es ≡ []) (is_shutdown a.group) rows []
          (release_rows-attempts ttl (ex.now at at_group_end) a.group.name a.outcome
            a.group.node_releases)
          refl in
      let own =
        wrote (group_row at.wave a.group.name (if is_empty a.fault then completed else failed))
        ∷ wrote (attempt_row at.wave a.group.name dry_run a.outcome)
        ∷ [] in
      let later = if is_shutdown a.group then rows else [] in
      ap attempts (append_assoc a.calls own later)
      ∙ after_calls a.calls (own ++ later) h.silent
      ∙ ap (λ (later : List (ℕ × Text)). (at.wave, a.group.name) ∷ later) no_more
      ∙ ap (λ (name : Text). (at.wave, name) ∷ []) h.named

module _ {F : Type 0} ⦃fl : Float64 F⦄ (ex : Executor) where
  pub execute_group-attempts :
      (at : Moment) (dry_run : Bool) (ttl : ℤ) (ctx : Context) (index : ℤ) (g : Group)
      (state : WaveState F) (overrunning : Bool)
      → attempts (execute_group ex at dry_run ttl ctx index g state overrunning).log
        ≡ (at.wave, g.name) ∷ []
  unfolding execute_group attempt_of
  execute_group-attempts at dry_run ttl ctx index g state overrunning =
      close_group-attempts ex at dry_run g.name ttl
        (attempt_of ex at dry_run ctx index g state overrunning)
        (attempt_group-IsTaken ex at dry_run _ ctx _ _
          (action_of ex dry_run index state overrunning) g)
