-- ===== src/Executor/Release.antt =====
-- The release of nodes (internal/executor/executor.go and release_evidence.go): fresh evidence, the
-- last check before power is cut, and what is recorded of each release.
use nut_operator.Prelude.{
  ℕ, suc, Bool, false, not, ◌&&◌, List, [], ◌∷◌, ◌++◌, Option, none, some, if◌then◌else◌, is_empty,
}
use nut_operator.Prelude.Int.{ℤ, pos, ◌+ℤ◌, leb_ℤ, eq_ℤ}
use nut_operator.Text.{Text, codes, text_eq}
use nut_operator.Diagnostics.{text}
use nut_operator.Executor.Types.{
  Moment, before_refresh, Context, Fault, stated, fault_of, NodeRelease, Group, NodeSignalResult,
  ActionOutcome, Event, wrote, called, release_row, handoff_row, Executor,
}

-- `terminalHandoff` and the two member lists are those of the selected release.
abbrev pub keep_selected : NodeRelease → NodeRelease → NodeRelease
keep_selected selected fresh = record fresh {
  terminal_handoff = selected.terminal_handoff;
  control_plane_nodes = selected.control_plane_nodes;
  quorum_members = selected.quorum_members;
}

abbrev pub same_identity : NodeRelease → NodeRelease → Bool
same_identity a b =
    text_eq a.node_name b.node_name
    && text_eq a.node_power_agent b.node_power_agent
    && text_eq a.agent_uid b.agent_uid
    && eq_ℤ a.agent_generation b.agent_generation
    && text_eq a.actuator_policy b.actuator_policy
    && text_eq a.signal_path b.signal_path
    && text_eq a.signal_secret_namespace b.signal_secret_namespace
    && text_eq a.signal_secret_name b.signal_secret_name
    && text_eq a.signal_secret_key b.signal_secret_key

-- The loop over the selected releases: the refreshed ones, or the error that ended it.
module _ (ex : Executor) (at : Moment) (ctx : Context)
    (refresh : Moment → NodeRelease → NodeRelease × Fault) where
  unfoldable pub refresh_all : ℕ → List NodeRelease → List NodeRelease × Fault
  refresh_all i [] = ([], [])
  refresh_all i (selected ∷ rest) =
      let stop = fault_of (ex.context_cause at (before_refresh i) ctx) in
      let (answer, problems) = refresh at selected in
      let fresh = keep_selected selected answer in
      let (later, later_fault) = refresh_all (suc i) rest in
      if not (is_empty stop)
      then ([], stop)
      else if not (is_empty problems)
      then ([], stated "refresh node %q evidence" (text selected.node_name ∷ []) ∷ problems)
      else if not (same_identity fresh selected)
      then (
        [],
        stated "node %q release identity changed during evidence refresh"
              (text selected.node_name ∷ [])
            ∷ [],
      )
      else (fresh ∷ later, later_fault)

-- With an error, the group's own releases stay.
unfoldable pub refresh_release_evidence : Executor → Moment → Context → Group → Group × Fault
unfolding refresh_all
refresh_release_evidence ex at ctx g = elim ex.refresh_node_release [
  | none ↦ (g, [])
  | some refresh ↦
      let (releases, fault) = refresh_all ex at ctx refresh 0 g.node_releases in
      if is_empty fault then (record g { node_releases = releases }, []) else (g, fault)
]

abbrev pub or_default : Text → Text → Text
or_default t d = if is_empty t then d else t

abbrev pub is_clear : NodeRelease → Bool
is_clear r = r.agent_ready && r.telemetry_fresh && r.cleared

abbrev pub not_ready : NodeRelease → Text → Fault
not_ready r reason =
    stated "node %q is not ready for AgentShutdown: %s" (text r.node_name ∷ text reason ∷ []) ∷ []

abbrev pub release_problem : NodeRelease → Fault
release_problem r =
    if not r.agent_ready
    then not_ready r (or_default r.readiness_reason (codes "AgentReadinessUnknown"))
    else if not r.telemetry_fresh
    then not_ready r (or_default r.telemetry_stale_reason (codes "AgentTelemetryStale"))
    else if not r.cleared
    then not_ready r (or_default r.clearance_reason (codes "NodeNotCleared"))
    else []

unfoldable pub release_problems : List NodeRelease → Fault
release_problems [] = []
release_problems (r ∷ rs) = release_problem r ++ release_problems rs

unfoldable pub agent_shutdown_readiness_error : Bool → Group → Fault
unfolding release_problems
agent_shutdown_readiness_error dry_run g = if dry_run then [] else release_problems g.node_releases

unfoldable pub node_release_reason : NodeRelease → Bool → Text
node_release_reason r dry_run =
    if not r.agent_ready
    then or_default r.readiness_reason (codes "AgentReadinessUnknown")
    else if not r.telemetry_fresh
    then or_default r.telemetry_stale_reason (codes "AgentTelemetryStale")
    else if not r.cleared
    then or_default r.clearance_reason (codes "NodeNotCleared")
    else if dry_run
    then codes "DryRunRelease"
    else codes "ReleaseApproved"

unfoldable pub node_signal_handoff_reason : NodeRelease → Bool → Text
node_signal_handoff_reason r dry_run =
    if not r.agent_ready
    then or_default r.readiness_reason (codes "AgentReadinessUnknown")
    else if not r.telemetry_fresh
    then or_default r.telemetry_stale_reason (codes "AgentTelemetryStale")
    else if not r.cleared
    then or_default r.clearance_reason (codes "NodeNotCleared")
    else if dry_run
    then codes "DryRunSignal"
    else codes "SignalAccepted"

abbrev pub answers_for : NodeSignalResult → NodeRelease → Bool
answers_for s r =
    text_eq s.node_name r.node_name
    && text_eq s.node_power_agent r.node_power_agent
    && text_eq s.signal_secret_namespace r.signal_secret_namespace
    && text_eq s.signal_secret_name r.signal_secret_name
    && text_eq s.signal_secret_key r.signal_secret_key

unfoldable pub signal_result_for_release :
    List NodeSignalResult → NodeRelease → Option NodeSignalResult
signal_result_for_release [] r = none
signal_result_for_release (s ∷ ss) r =
    let rest = signal_result_for_release ss r in if answers_for s r then some s else rest

-- What the zero value of a missing result reads as.
abbrev pub is_published : Option NodeSignalResult → Bool
is_published none = false
is_published (some s) = s.published

abbrev pub issue_time : ℤ → Option NodeSignalResult → ℤ
issue_time observed none = observed
issue_time observed (some s) = elim s.issued_at [ none ↦ observed | some t ↦ t ]

abbrev pub unconfirmed : Option NodeSignalResult → Text
unconfirmed none = codes "SignalPublicationNotReported"
unconfirmed (some s) = codes "SignalPublicationUnconfirmed"

-- Two minutes, where none is set.
unfoldable pub signal_ttl : ℤ → ℤ
signal_ttl ttl = if leb_ℤ ttl (pos 0) then pos 120000000000 else ttl

abbrev pub release_rows : Bool → ℤ → ℤ → NodeRelease → Option NodeSignalResult → List Event
release_rows dry_run ttl observed r publication =
    let open_door = is_clear r && not dry_run in
    let released = open_door && is_published publication in
    let missed = open_door && not (is_published publication) in
    wrote (
      release_row r.node_name released
        (if missed then unconfirmed publication else node_release_reason r dry_run))
    ∷ wrote (
        handoff_row r.node_name released
          (if missed then unconfirmed publication else node_signal_handoff_reason r dry_run)
          (issue_time observed publication +ℤ signal_ttl ttl))
    ∷ []

-- What the audit writer answers to a list of rows.
abbrev pub write_faults : Executor → Moment → List Event → Fault
write_faults ex at [] = []
write_faults ex at (wrote row ∷ es) = ex.write at row ++ write_faults ex at es
write_faults ex at (called j a ∷ es) = write_faults ex at es

-- The loop of recordNodeReleases: a release without a node's name is reported and skipped.
module _ (ex : Executor) (at : Moment) (dry_run : Bool) (ttl observed : ℤ) (group : Text)
    (outcome : ActionOutcome) where
  unfoldable pub record_node_releases : List NodeRelease → List Event × Fault
  unfolding node_release_reason node_signal_handoff_reason signal_result_for_release signal_ttl
  record_node_releases [] = ([], [])
  record_node_releases (r ∷ rs) =
      let (rows, faults) = record_node_releases rs in
      let own =
        release_rows dry_run ttl observed r (signal_result_for_release outcome.signal_results r) in
      if is_empty r.node_name
      then (rows, stated "node release for group %q requires node name" (text group ∷ []) ∷ faults)
      else (own ++ rows, write_faults ex at own ++ faults)
