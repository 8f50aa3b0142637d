-- ===== src/Executor/Overruns.antt =====
-- The windows of the tiers (internal/executor/executor.go): policies, overruns and their records.
use nut_operator.Prelude.{
  Bool, true, false, not, ◌&&◌, ◌||◌, Option, none, some, if◌then◌else◌, is_empty,
}
use nut_operator.Prelude.Int.{ℤ, pos, ◌-ℤ◌, leb_ℤ, ltb_ℤ}
use nut_operator.Text.{Text, codes, text_eq}
use nut_operator.Executor.Types.{Cause, canceled, deadline_exceeded, Wave}

pub data OverrunPolicy : Type 0 where
  wait overlap preempt other_policy : OverrunPolicy

pub data OverrunAction : Type 0 where
  waited overlapped preempted preempt_deadline_elapsed : OverrunAction

-- `effectiveTierOverrunPolicy`, with a text that is none of the three for itself.
unfoldable pub effective_tier_overrun_policy : Text → OverrunPolicy
effective_tier_overrun_policy t =
    if is_empty t || text_eq t (codes "Wait")
    then wait
    else if text_eq t (codes "Overlap")
    then overlap
    else if text_eq t (codes "Preempt")
    then preempt
    else other_policy

abbrev pub is_preempt : OverrunPolicy → Bool
is_preempt preempt = true
is_preempt _ = false

abbrev pub is_overlap : OverrunPolicy → Bool
is_overlap overlap = true
is_overlap _ = false

-- `tierOverrunWindow`: no start is the zero time.
pub record Window : Type 0 where
  pub shutdown_tier : Option ℤ
  pub started_at : Option ℤ
  pub declared : ℤ
  pub effective : ℤ

abbrev pub no_window : Window
no_window = record { shutdown_tier = none; started_at = none; declared = pos 0; effective = pos 0 }

pub record TierOverrun : Type 0 where
  pub wave_index : ℤ
  pub shutdown_tier : Option ℤ
  pub policy : OverrunPolicy
  pub action : OverrunAction
  pub declared : ℤ
  pub effective : ℤ
  pub actual : ℤ
  pub overrun : ℤ

abbrev pub has_cause : Option Cause → Bool
has_cause none = false
has_cause (some c) = true

abbrev pub is_deadline : Option Cause → Bool
is_deadline none = false
is_deadline (some canceled) = false
is_deadline (some deadline_exceeded) = true

-- The whole time that a window has been open.
abbrev open_for : Window → ℤ → ℤ
open_for w now = elim w.started_at [ none ↦ pos 0 | some t ↦ now -ℤ t ]

abbrev is_timed : Window → Bool
is_timed w = ltb_ℤ (pos 0) w.effective && elim w.started_at [ none ↦ false | some t ↦ true ]

unfoldable pub tier_window_overrunning : Window → ℤ → Bool
tier_window_overrunning w now = is_timed w && ltb_ℤ w.effective (open_for w now)

unfoldable pub tier_overrun_action : OverrunPolicy → Bool → OverrunAction
tier_overrun_action overlap was_preempted = overlapped
tier_overrun_action preempt was_preempted =
    if was_preempted then preempted else preempt_deadline_elapsed
tier_overrun_action wait was_preempted = waited
tier_overrun_action other_policy was_preempted = waited

unfoldable pub tier_overrun_record :
    Wave → Window → OverrunPolicy → OverrunAction → Bool → ℤ → Option TierOverrun
unfolding ◌-ℤ◌
tier_overrun_record wave w policy action lower_due completed_at =
    let over = open_for w completed_at -ℤ w.effective in
    if not lower_due || not (is_timed w) || leb_ℤ over (pos 0)
    then none
    else some (record {
      wave_index = wave.index;
      shutdown_tier = w.shutdown_tier;
      policy = policy;
      action = action;
      declared = w.declared;
      effective = w.effective;
      actual = open_for w completed_at;
      overrun = over;
    })
