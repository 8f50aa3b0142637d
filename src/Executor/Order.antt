-- ===== src/Executor/Order.antt =====
-- runWave and resolveWaveTargets (internal/executor/executor.go, wave_targets.go): the order in which
-- a wave's groups are attempted.
use nut_operator.Prelude.{
  ℕ, suc, Bool, true, false, not, List, [], ◌∷◌, ◌++◌, map, if◌then◌else◌, is_empty, ◌≡◌, refl,
  arith, sym, ap, ◌∙◌, All, Bool-cases, inl, inr, if_both, if_cases,
}
use mathlib.Core.List.{append_assoc, append-nil}
use nut_operator.Text.{Text, text_eq}
use nut_operator.Text.Laws.{text_eq→eq, text_eq_refl}
use nut_operator.Text.Maps.{lookup, insert, lookup-insert}
use nut_operator.Adaptive.Float.{Float64}
use nut_operator.Executor.Types.{Fault, Group, Wave, Executor, before_resolve, fault_of}
use nut_operator.Executor.Pointer.{WaveState}
use nut_operator.Executor.Waves.{
  WaveRun, WaveConfig, Resolution, absorb_group, run_group, run_groups, tier_preempted,
  resolve_group, resolve_all, resolve_wave_targets, run_wave, mark_terminal, group_or_zero, moment,
  begun, unresolved, run_resolved, close_wave,
}
use nut_operator.Executor.Overruns.{is_preempt}
use nut_operator.Executor.Attempts.{attempts, attempts-append, execute_group-attempts}

abbrev pub Names : Type 0
Names = List (ℕ × Text)

abbrev pub placed : ℕ → List Text → Names
placed position ns = map (λ (n : Text). (position, n)) ns

-- The group that a map gives for a name bears it.
abbrev pub IsNamedAt : List (Text × Group) → Text → Type 0
IsNamedAt m n = (group_or_zero (lookup n m)).name ≡ n

pub insert-IsNamedAt :
    (n : Text) (g : Group) (m : List (Text × Group)) (k : Text)
    → g.name ≡ n
    → IsNamedAt m k
    → IsNamedAt (insert n g m) k
insert-IsNamedAt n g m k same h = rw (lookup-insert n k g m) (elim (Bool-cases (text_eq n k)) [
  | inl here ↦ rw here (same ∙ text_eq→eq n k here)
  | inr elsewhere ↦ rw elsewhere h
])

inserted-IsNamedAt :
    (n : Text) (g : Group) (m : List (Text × Group)) → g.name ≡ n → IsNamedAt (insert n g m) n
inserted-IsNamedAt n g m same = rw (lookup-insert n n g m, text_eq_refl n) same

differ : true ≡ false → ⊥
differ h = ground (arith, h)

not_both : (f : Fault) → not (is_empty f) ≡ true → is_empty f ≡ true → ⊥
not_both f h k = ground (arith, h, k)

module _ {F : Type 0} ⦃fl : Float64 F⦄ (ex : Executor) (position : ℕ) (cfg : WaveConfig)
    (wave : Wave) (state : WaveState F) where
  resolved-name :
      (i : ℕ) (n : Text)
      → IsNamedAt cfg.groups n
      → is_empty (resolve_group ex position cfg wave state i n).1 ≡ true
      → (resolve_group ex position cfg wave state i n).0.name ≡ n
  unfolding resolve_group
  resolved-name i n h fine = ground (arith, h)

  -- What was resolved keeps its name, and each name of the list is resolved.
  IsResolving : List (Text × Group) → List Text → Resolution → Type 0
  IsResolving resolved ns r =
      is_empty r.2 ≡ true
      → ((k : Text) → IsNamedAt resolved k → IsNamedAt r.0 k) × All (IsNamedAt r.0) ns

  resolve_all-IsResolving :
      (i : ℕ) (resolved : List (Text × Group)) (ns : List Text)
      → All (IsNamedAt cfg.groups) ns
      → IsResolving resolved ns (resolve_all ex position cfg wave state i resolved ns)
  unfolding resolve_all IsResolving
  resolve_all-IsResolving i resolved [] all = λ fine. (λ k h. h, tt)
  resolve_all-IsResolving i resolved (n ∷ ns) (named, all) =
      let stop =
        fault_of (ex.context_cause (moment position i) before_resolve cfg.action_context) in
      let (g, fault) = resolve_group ex position cfg wave state i n in
      let later = resolve_all ex position cfg wave state (suc i) (insert n g resolved) ns in
      if_cases (IsResolving resolved (n ∷ ns)) (not (is_empty stop)) ([], n, stop)
        (if not (is_empty fault) then ([], n, fault) else later)
        (λ stopped fine. ground (arith, stopped, fine))
        (λ on.
          if_cases (IsResolving resolved (n ∷ ns)) (not (is_empty fault)) ([], n, fault) later
            (λ broken fine. ground (arith, broken, fine))
            (λ well fine.
              let same = resolved-name i n named (ground (arith, well)) in
              let (kept, rest) =
                resolve_all-IsResolving (suc i) (insert n g resolved) ns all fine in
              (
                λ k h. kept k (insert-IsNamedAt n g resolved k same h),
                (kept n (inserted-IsNamedAt n g resolved same), rest),
              )))

  marked-name : (g : Group) → (mark_terminal ex position cfg wave state g).name ≡ g.name
  unfolding mark_terminal
  marked-name g = ground arith

  run_group-attempts :
      (i : ℕ) (g : Group)
      → attempts (run_group ex position cfg wave state i g).log ≡ (position, g.name) ∷ []
  unfolding run_group
  run_group-attempts i g =
      execute_group-attempts ex (moment position i) cfg.dry_run cfg.signal_ttl cfg.action_context
        wave.index (mark_terminal ex position cfg wave state g) state _
      ∙ ap (λ (name : Text). (position, name) ∷ []) (marked-name g)

  -- The attempts of a wave: after those before it come its groups in their order, and all of them
  -- where nothing failed and the tier was not preempted.
  record IsInOrder (before : Names) (ns : List Text) (r : WaveRun × Bool) : Type 0 where
    done : Names
    left : Names
    logged : attempts r.0.log ≡ before ++ done
    ordered : done ++ left ≡ placed position ns
    whole : is_empty r.0.fault ≡ true → r.1 ≡ false → left ≡ []

  run_groups-IsInOrder :
      (resolved : List (Text × Group)) (i : ℕ) (run : WaveRun) (before : Names) (ns : List Text)
      → All (IsNamedAt resolved) ns
      → attempts run.log ≡ before
      → IsInOrder before ns (run_groups ex position cfg wave state resolved i run ns)
  unfolding run_groups absorb_group run_group
  run_groups-IsInOrder resolved i run before [] all so_far = record {
    done = [];
    left = [];
    logged = so_far ∙ sym (append-nil before);
    ordered = refl;
    whole = λ fine on. refl;
  }
  run_groups-IsInOrder resolved i run before (n ∷ ns) (named, all) so_far =
      let g = group_or_zero (lookup n resolved) in
      let r = run_group ex position cfg wave state i g in
      let run' = absorb_group ex position cfg wave state run r in
      let (later, stopped) = run_groups ex position cfg wave state resolved (suc i) run' ns in
      let broken : WaveRun = record run' { fault = r.fault; failed_group = g.name } in
      let one : attempts run'.log ≡ before ++ (position, n) ∷ [] =
        attempts-append run.log r.log ∙ rw (so_far, run_group-attempts i g, named) refl in
      let rest =
        run_groups-IsInOrder resolved (suc i) run' (before ++ (position, n) ∷ []) ns all one in
      if_cases (IsInOrder before (n ∷ ns)) (tier_preempted ex position cfg wave state i)
        (run', true) (if not (is_empty r.fault) then (broken, false) else (later, stopped))
        (λ over. record {
          done = (position, n) ∷ [];
          left = placed position ns;
          logged = one;
          ordered = refl;
          whole = λ fine on. elim (differ on) [ ];
        })
        (λ q.
          if_cases (IsInOrder before (n ∷ ns)) (not (is_empty r.fault)) (broken, false)
            (later, stopped)
            (λ bad. record {
              done = (position, n) ∷ [];
              left = placed position ns;
              logged = one;
              ordered = refl;
              whole = λ fine on. elim (not_both r.fault bad fine) [ ];
            })
            (λ well. record {
              done = (position, n) ∷ rest.done;
              left = rest.left;
              logged = rest.logged ∙ append_assoc before ((position, n) ∷ []) rest.done;
              ordered = ap (λ (ms : Names). (position, n) ∷ ms) rest.ordered;
              whole = rest.whole;
            }))

  resolving :
      All (IsNamedAt cfg.groups) wave.groups
      → is_empty (resolve_wave_targets ex position cfg wave state).2 ≡ true
      → All (IsNamedAt (resolve_wave_targets ex position cfg wave state).0) wave.groups
  unfolding resolve_wave_targets IsResolving
  resolving named fine = (resolve_all-IsResolving 0 [] wave.groups named fine).1

  run_resolved-IsInOrder :
      All (IsNamedAt cfg.groups) wave.groups
      → IsInOrder [] wave.groups (run_resolved ex position cfg wave state)
  unfolding run_resolved attempts
  run_resolved-IsInOrder named =
      let (resolved, failed_at, stop) = resolve_wave_targets ex position cfg wave state in
      if_cases (IsInOrder [] wave.groups) (is_empty stop)
        (run_groups ex position cfg wave state resolved 0 (begun ex position cfg wave state)
          wave.groups)
        (unresolved ex position cfg wave state failed_at stop)
        (λ fine.
          run_groups-IsInOrder resolved 0 (begun ex position cfg wave state) [] wave.groups
            (resolving named fine) refl)
        (λ broken. record {
          done = [];
          left = placed position wave.groups;
          logged = refl;
          ordered = refl;
          whole = λ fine on. elim (differ (sym fine ∙ broken)) [ ];
        })

  run_groups-unpreempted :
      (resolved : List (Text × Group)) (i : ℕ) (run : WaveRun) (ns : List Text)
      → is_preempt cfg.policy ≡ false
      → (run_groups ex position cfg wave state resolved i run ns).1 ≡ false
  unfolding run_groups tier_preempted
  run_groups-unpreempted resolved i run [] patient = refl
  run_groups-unpreempted resolved i run (n ∷ ns) patient =
      let run' =
        absorb_group ex position cfg wave state run
          (run_group ex position cfg wave state i (group_or_zero (lookup n resolved))) in
      ground (arith, patient, run_groups-unpreempted resolved (suc i) run' ns patient)

  run_resolved-unpreempted :
      is_preempt cfg.policy ≡ false → (run_resolved ex position cfg wave state).1 ≡ false
  unfolding run_resolved
  run_resolved-unpreempted patient =
      let (resolved, failed_at, stop) = resolve_wave_targets ex position cfg wave state in
      if_both (λ (r : WaveRun × Bool). r.1 ≡ false) (is_empty stop)
        (run_groups ex position cfg wave state resolved 0 (begun ex position cfg wave state)
          wave.groups)
        (unresolved ex position cfg wave state failed_at stop)
        (run_groups-unpreempted resolved 0 (begun ex position cfg wave state) wave.groups patient)
        refl

  -- The whole wave.
  pub record IsWaveInOrder (run : WaveRun) : Type 0 where
    pub done : Names
    pub left : Names
    pub logged : attempts run.log ≡ done
    pub ordered : done ++ left ≡ placed position wave.groups
    pub whole : is_empty run.fault ≡ true → is_preempt cfg.policy ≡ false → left ≡ []

  pub run_wave-IsWaveInOrder :
      All (IsNamedAt cfg.groups) wave.groups → IsWaveInOrder (run_wave ex position cfg wave state)
  unfolding run_wave close_wave run_resolved attempts
  run_wave-IsWaveInOrder named =
      let h = run_resolved-IsInOrder named in
      record {
        done = h.done;
        left = h.left;
        logged =
            attempts-append (run_resolved ex position cfg wave state).0.log _
            ∙ append-nil _
            ∙ h.logged;
        ordered = h.ordered;
        whole = λ fine patient. h.whole fine (run_resolved-unpreempted patient);
      }
