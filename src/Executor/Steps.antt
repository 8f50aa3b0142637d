-- ===== src/Executor/Steps.antt =====
-- What a wave's round in Execute (internal/executor/executor.go) leaves behind it.
use nut_operator.Prelude.{
  ℕ, Bool, true, false, ◌&&◌, List, [], ◌∷◌, ◌++◌, is_empty, ◌≡◌, refl, arith, sym, ap, ◌∙◌,
}
use mathlib.Core.List.{append-nil}
use nut_operator.Adaptive.Float.{Float64}
use nut_operator.Executor.Types.{Fault, Wave, Event, Executor}
use nut_operator.Executor.Waves.{WaveRun}
use nut_operator.Executor.Overruns.{is_preempt}
use nut_operator.Executor.Plan.{
  Input, GroupMap, Result, Run, Progress, going, returned, absorb_wave, drain_pending,
  wait_for_pending, record_aborted,
}
use nut_operator.Executor.Execute.{policy_of}
use nut_operator.Executor.Errors.{IsCoherent}
use nut_operator.Executor.Attempts.{attempts, attempts-append}
use nut_operator.Executor.Order.{Names, placed}

-- No wave that was set aside failed.
unfoldable pub all_fine : List WaveRun → Bool
all_fine [] = true
all_fine (w ∷ ws) = is_empty w.fault && all_fine ws

pub drained-fine :
    (r : Result) (runs : List WaveRun) → is_empty (drain_pending r runs).1 ≡ all_fine runs
unfolding drain_pending all_fine
drained-fine r [] = refl
drained-fine r (w ∷ ws) = ground (arith, drained-fine (absorb_wave r w) ws)

pub all_fine-last :
    (ws : List WaveRun) (w : WaveRun) → all_fine (ws ++ w ∷ []) ≡ all_fine ws && is_empty w.fault
unfolding all_fine
all_fine-last [] w = ground arith
all_fine-last (v ∷ vs) w = ground (arith, all_fine-last vs w)

pub false_not_true : false ≡ true → ⊥
false_not_true h = ground (arith, h)

pub and_true : (b : Bool) → (b && true) ≡ b
and_true b = ground arith

pub whole_step :
    (done left later ns ms : Names)
    → done ++ left ≡ ns
    → left ≡ []
    → later ≡ ms
    → done ++ later ≡ ns ++ ms
whole_step done left later ns ms ordered none_left same = rw same (
    ap (λ (xs : Names). xs ++ ms)
      (sym (append-nil done) ∙ ap (λ (xs : Names). done ++ xs) (sym none_left) ∙ ordered))

pub fails : (f : Fault) → is_empty f ≡ false → is_empty f ≡ true → ⊥
fails f h k = ground (arith, h, k)

module _ {F : Type 0} ⦃fl : Float64 F⦄ (ex : Executor) (input : Input F) (groups : GroupMap)
    (coherent : IsCoherent ex) where
  pub record_aborted-attempts :
      (position : ℕ) (run : Run F) (fault : Fault)
      → attempts (record_aborted ex position run fault).log ≡ attempts run.log
  unfolding record_aborted attempts
  record_aborted-attempts position run fault = attempts-append run.log _ ∙ append-nil _

  abbrev pub IsPatient : Type 0
  IsPatient = is_preempt (policy_of ex input groups) ≡ false

  -- A wave's round: after the attempts before it come the first of its groups, all of them where in
  -- the end nothing failed.
  pub record IsStep (position : ℕ) (before : List Event) (pending : List WaveRun) (w : Wave)
      (log : List Event) (fine : Bool) : Type 0 where
    pub done : Names
    pub left : Names
    pub logged : attempts log ≡ attempts before ++ done
    pub ordered : done ++ left ≡ placed position w.groups
    pub whole : fine ≡ true → (all_fine pending ≡ true) × (IsPatient → left ≡ [])

  unfoldable pub IsRound : ℕ → Run F → Wave → Progress F → Type 0
  IsRound position run w (going next) =
      IsStep position run.log run.pending w next.log (all_fine next.pending)
  IsRound position run w (returned f) =
      (is_empty f.fault ≡ false) × IsStep position run.log run.pending w f.log false

  -- A step from a run with the same attempts.
  pub failed-IsStep :
      (position : ℕ) (before : List Event) (pending : List WaveRun) (w : Wave) (run : Run F)
      (fault : Fault)
      → IsStep position before pending w run.log false
      → is_empty fault ≡ false
      → (is_empty (record_aborted ex position run fault).fault ≡ false)
        × IsStep position before pending w (record_aborted ex position run fault).log false
  unfolding record_aborted
  failed-IsStep position before pending w run fault h broken = (
    broken,
    record {
      done = h.done;
      left = h.left;
      logged = record_aborted-attempts position run fault ∙ h.logged;
      ordered = h.ordered;
      whole = λ wrong. elim (false_not_true wrong) [ ];
    },
  )

  -- What a wave did, with its error and what was pending before it.
  unfoldable pub IsWaveStep : ℕ → Run F → Wave → Run F → WaveRun → Type 0
  IsWaveStep position run w logged r =
      (logged.pending ≡ run.pending)
      × IsStep position run.log run.pending w logged.log (all_fine run.pending && is_empty r.fault)

  pub broken-IsStep :
      (position : ℕ) (before : List Event) (pending : List WaveRun) (w : Wave) (log : List Event)
      (fine : Bool)
      → IsStep position before pending w log fine
      → IsStep position before pending w log false
  broken-IsStep position before pending w log fine h = record {
    done = h.done;
    left = h.left;
    logged = h.logged;
    ordered = h.ordered;
    whole = λ wrong. elim (false_not_true wrong) [ ];
  }

  pub same_fine :
      (position : ℕ) (before : List Event) (pending : List WaveRun) (w : Wave) (log : List Event)
      (fine fine' : Bool)
      → fine' ≡ fine
      → IsStep position before pending w log fine
      → IsStep position before pending w log fine'
  same_fine position before pending w log fine fine' same h = rw same h

  pub drained-log : (run : Run F) → (wait_for_pending ex run).0.log ≡ run.log
  unfolding wait_for_pending
  drained-log run = refl

  pub pending_fine :
      (run : Run F) → is_empty (wait_for_pending ex run).1 ≡ true → all_fine run.pending ≡ true
  unfolding wait_for_pending
  pending_fine run fine = sym (drained-fine run.result run.pending) ∙ fine

  -- A round in which nothing was attempted.
  pub empty-IsStep :
      (position : ℕ) (run : Run F) (w : Wave) → IsStep position run.log run.pending w run.log false
  empty-IsStep position run w = record {
    done = [];
    left = placed position w.groups;
    logged = sym (append-nil (attempts run.log));
    ordered = refl;
    whole = λ wrong. elim (false_not_true wrong) [ ];
  }
