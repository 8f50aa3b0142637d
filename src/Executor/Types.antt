-- ===== src/Executor/Types.antt =====
-- The executor's data (internal/executor/executor.go). What is injected into the executor, the clock
-- and the contexts are functions that may answer differently at each moment of the run. The fields
-- that only audit rows carry (IDs, hashes, rehearsal texts, detail maps) are left out.
use nut_operator.Prelude.{ℕ, Bool, List, [], ◌∷◌, Option, none, some}
use nut_operator.Prelude.Int.{ℤ, pos}
use Prim.Native.String.{String}
use nut_operator.Text.{Text}
use nut_operator.Diagnostics.{Argument}
use nut_operator.Adaptive.Pointer.{PowerObservation}

-- The moment of a call: the position of the wave and of the group in it.
pub record Moment : Type 0 where
  pub wave : ℕ
  pub group : ℕ

-- Where in the code the clock or a context is read.
pub data Stage : Type 0 where
  at_start at_wave_start at_due at_group_start at_overrun_check at_group_end at_wave_end at_end :
      Stage
  before_resolve after_resolve after_wait after_action after_group at_preemption : Stage
  before_refresh : ℕ → Stage
  after_observation : Stage

-- Why a context ended.
pub data Cause : Type 0 where
  canceled deadline_exceeded : Cause

-- The run's context, with deadlines (instants) and timeouts (durations) on top.
pub data Context : Type 0 where
  base : Context
  until : ℤ → Context → Context
  within : ℤ → Context → Context

-- A Go error is a list of problems: `nil` is the empty list, and errors.Join is `++`.
pub data Problem : Type 0 where
  stated : String → List Argument → Problem
  foreign : Text → Problem
  ended : Cause → Problem

abbrev pub Fault : Type 0
Fault = List Problem

pub record Target : Type 0 where
  pub api_version : Text
  pub kind : Text
  pub namespace : Text
  pub name : Text

pub record NodeRelease : Type 0 where
  pub terminal_handoff : Bool
  pub control_plane_nodes : List Text
  pub quorum_members : List Text
  pub agent_uid : Text
  pub agent_generation : ℤ
  pub actuator_policy : Text
  pub node_name : Text
  pub node_power_agent : Text
  pub signal_path : Text
  pub signal_secret_key : Text
  pub signal_secret_name : Text
  pub signal_secret_namespace : Text
  pub agent_ready : Bool
  pub readiness_reason : Text
  pub telemetry_fresh : Bool
  pub telemetry_stale_reason : Text
  pub cleared : Bool
  pub clearance_reason : Text
  pub blocking_workloads : List Text

pub record Group : Type 0 where
  pub name : Text
  pub action : Text
  pub params : List (Text × Text)
  pub hook_ref : Option (Text × Text)
  pub selected_targets : List Target
  pub node_releases : List NodeRelease
  pub timeout : ℤ
  pub wait_duration : ℤ

abbrev pub zero_group : Group
zero_group = record {
  name = [];
  action = [];
  params = [];
  hook_ref = none;
  selected_targets = [];
  node_releases = [];
  timeout = pos 0;
  wait_duration = pos 0;
}

pub record Wave : Type 0 where
  pub index : ℤ
  pub communication_barrier : Bool
  pub shutdown_tier : Option ℤ
  pub duration : ℤ
  pub groups : List Text

-- `Action`, less the copies of the input's fields.
pub record Action : Type 0 where
  pub wave_index : ℤ
  pub group : Group
  pub dry_run : Bool
  pub tier_overrunning : Bool
  pub observation : PowerObservation

pub record NodeSignalResult : Type 0 where
  pub node_name : Text
  pub node_power_agent : Text
  pub signal_secret_namespace : Text
  pub signal_secret_name : Text
  pub signal_secret_key : Text
  pub published : Bool
  pub issued_at : Option ℤ

-- The text of an outcome's error: the runner's own, or that of an error.
pub data Message : Type 0 where
  given : Text → Message
  text_of : Fault → Message

pub record ActionOutcome : Type 0 where
  pub outcome : Text
  pub error : Message
  pub signal_results : List NodeSignalResult

pub data Phase : Type 0 where
  no_phase running completed aborted failed : Phase

-- The rows that the audit writer is given, by what the run depends on or decides.
pub data Row : Type 0 where
  execution_row : Phase → Fault → Row
  wave_row : ℕ → Phase → Row
  group_row : ℕ → Text → Phase → Row
  attempt_row : ℕ → Text → Bool → ActionOutcome → Row
  release_row : Text → Bool → Text → Row
  handoff_row : Text → Bool → Text → ℤ → Row

-- What a run does: calls of the action runner, with the position of the wave, and rows.
pub data Event : Type 0 where
  called : ℕ → Action → Event
  wrote : Row → Event

-- Which of the three came first in the `select` on an overlapped wave.
pub data Race : Type 0 where
  run_canceled wave_finished timer_fired : Race

-- `Executor`, with the clock, the contexts and the writer's errors.
pub record Executor : Type 0 where
  pub now : Moment → Stage → ℤ
  pub context_cause : Moment → Stage → Context → Option Cause
  pub race : Moment → Race
  pub write : Moment → Row → Fault
  pub sleep : Moment → Context → ℤ → Fault
  pub runner : Option (Moment → Context → Action → ActionOutcome × Fault)
  pub observer : Option (Moment → PowerObservation × Fault)
  pub approval_checker : Option (Moment → Bool × Fault)
  pub refresh_node_release : Option (Moment → NodeRelease → NodeRelease × Fault)
  pub resolve_targets : Option (Moment → Context → Group → List Target × Fault)

abbrev pub fault_of : Option Cause → Fault
fault_of none = []
fault_of (some c) = ended c ∷ []
