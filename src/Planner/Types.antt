-- ===== src/Planner/Types.antt =====
-- internal/planner/types.go: the planner's inputs and its artifacts. Names are texts, tiers int32
-- values, and durations int64 numbers of nanoseconds. Fields that no modelled function reads
-- (descriptions, hook references, identity hashes, label keys, inversion policies, source references)
-- are left out.
use nut_operator.Prelude.{Bool, false, List, [], Option, none}
use nut_operator.Prelude.Int.{ℤ, pos}
use nut_operator.Text.{Text}
use nut_operator.Diagnostics.{Argument}

pub record Target : Type 0 where
  pub node_selector : Bool
  pub namespace_selector : Bool
  pub workload_selector : Bool
  pub namespace_count : ℤ
  pub workload_ref_count : ℤ
  pub agent_ref_count : ℤ

pub record Group : Type 0 where
  pub name : Text
  pub action : Text
  pub target : Target
  pub requires : List Text
  pub before : List Text
  pub after : List Text
  pub shutdown_tier : Option ℤ
  pub timeout : ℤ
  pub params : List (Text × Text)

pub record Step : Type 0 where
  pub id : Text
  pub action : Text
  pub target : Target
  pub duration : ℤ
  pub timeout : ℤ
  pub continue_on_error : Bool

pub record TierDefinition : Type 0 where
  pub tier : ℤ
  pub name : Text

pub record TierSelector : Type 0 where
  pub name : Text
  pub tier : ℤ

pub record TierPolicy : Type 0 where
  pub default_tier : Option ℤ
  pub definitions : List TierDefinition
  pub selector_rules : List TierSelector

-- The nodes that a group acts on, and those that it powers off.
pub record GroupNodeMembership : Type 0 where
  pub group : Text
  pub acts : List Text
  pub releases : List Text

-- `has_triggers` is whether there is a trigger.
pub record StructuralInputs : Type 0 where
  pub tier_policy : TierPolicy
  pub has_triggers : Bool
  pub groups : List Group
  pub steps : List Step
  pub abort_behavior : Text
  pub abort_notify : Bool
  pub group_nodes : List GroupNodeMembership

pub data VertexKind : Type 0 where
  group_vertex step_vertex : VertexKind

pub data Relation : Type 0 where
  requires before after linear_order shutdown_tier node_clearance communication_path : Relation

pub data Provenance : Type 0 where
  declared derived policy : Provenance

pub record GraphVertex : Type 0 where
  pub id : Text
  pub kind : VertexKind
  pub label : Text
  pub action : Text
  pub shutdown_tier : Option ℤ
  pub target_summary : Text

-- `explanation` keeps the arguments of the printed sentence.
pub record GraphEdge : Type 0 where
  pub id : Text
  pub source : Text
  pub target : Text
  pub relation : Relation
  pub provenance : Provenance
  pub explanation : List Argument

pub record Graph : Type 0 where
  pub vertices : List GraphVertex
  pub edges : List GraphEdge

pub record CompiledStep : Type 0 where
  pub id : Text
  pub index : ℤ
  pub action : Text
  pub shutdown_tier : Option ℤ
  pub target_summary : Text
  pub cumulative_duration : ℤ

pub record Wave : Type 0 where
  pub index : ℤ
  pub shutdown_tier : Option ℤ
  pub groups : List Text
  pub duration : ℤ
  pub cumulative_duration : ℤ

-- What compileSchedule fills in.
pub record Plan : Type 0 where
  pub steps : List CompiledStep
  pub waves : List Wave
  pub startup_waves : List Wave
  pub graph : Graph
  pub estimated_duration : ℤ

-- The zero value of a Go struct, which a map gives for a missing key.
abbrev pub zero_target : Target
zero_target = record {
  node_selector = false;
  namespace_selector = false;
  workload_selector = false;
  namespace_count = pos 0;
  workload_ref_count = pos 0;
  agent_ref_count = pos 0;
}

abbrev pub zero_group : Group
zero_group = record {
  name = [];
  action = [];
  target = zero_target;
  requires = [];
  before = [];
  after = [];
  shutdown_tier = none;
  timeout = pos 0;
  params = [];
}
