-- ===== src/Lib.antt =====
-- Verification of the power-management operator's shutdown logic.
--
-- The operator watches UPS devices, decides by triggers when a shutdown flow is due, compiles the
-- flow's groups into waves, and moves a running flow down and up the shutdown tiers as the power
-- state changes. The executor runs the waves, and the halt watch records whether the nodes stopped.
-- Modelled are the parts that decide; what calls devices, files or the Kubernetes API is not.
--
-- Trigger.antt and its children model internal/trigger/evaluator.go. Inputs has the data and the
-- normalization (normalizeTrigger, normalizeUPSStates, holdIndex, sortHolds), Evaluator the
-- decisions (evaluateTriggerClass, triggerMatchesState, evaluateTrigger, Evaluate). A tick is one
-- call of Evaluate; the holds that it returns are the next tick's. Holds relates them to the past
-- ticks by their keys, and Holds.Own says when a key stands for one trigger and one device.
--
-- Adaptive.antt and its children model internal/adaptive: Pointer pointer.go (normalize, Descend,
-- Ascend, Halt), Parameters parameters.go (defaults, validation, Cadence), Timing the modes of
-- timing.go (IndicatedMode, Observe, accumulate, relaxationEarned), Budget its budget (Budget,
-- ScaleDuration). Float is the interface of float64: an argument of the model, of which IsIeee has
-- the laws that the bounds use, each for the values where binary64 keeps it. Examples.Fixed is one
-- such type, in thousandths.
--
-- Planner.antt and its children model parts of internal/planner: Types the records of types.go,
-- Durations wait.go, compileSteps and summarizeTarget, Tiers tiers.go without the policy's
-- validation, Graph the declared and the tier edges, the deduplication, the step graph and the
-- startup waves of artifacts.go, Schedule the descent compileGroups of compiler_scheduling.go with
-- graphSuccessors, Cycles the search hasGroupCycle of compiler_validation.go on a given graph,
-- Clearance the node clearance edges of nodes.go, and Compile what puts them together:
-- buildGroupGraphForInputs, validateStructuralInputs with validateTierPolicy and
-- reportDefaultedShutdownTiers (in Compile.Validation), and compileSchedule. The edges of
-- communication.go and what the trigger capabilities and tier inversions find are arguments there.
-- In Schedule, Counts to Rounds follow the loop, Start and Edges what is before it, Order and Total
-- what the whole comes to. In Cycles, Walks follows what is visited, Ends how a walk ends, and
-- Equivalence compares the search with the descent. In Clearance, Releasers and Ordered follow the
-- loops over the nodes. In Compile, Known has where edges lead, Accepted what a validation without
-- an error says, and Order what the schedule keeps.
--
-- Executor.antt and its children model internal/executor: Types the records, Release the evidence
-- of AgentShutdown groups and its rows (release_evidence.go, recordNodeReleases), Pointer
-- adaptive.go, Groups executeGroup, Overruns the tiers' windows, Waves runWave and
-- resolveWaveTargets (wave_targets.go), Plan the checks, the result and the ends of a run, and
-- Execute the loop of Execute. The injected functions, the clock, the contexts and the audit writer
-- are parameters, which may answer differently at each moment (a position of wave and group, and
-- for the clock and the contexts a stage of the code). A run's log has its calls of the runner and
-- its rows. The log is by wave, in the order in which the waves start: where a wave is overlapped,
-- later waves run beside it, and the log does not say how their events lie in time; which of its
-- end, the timer and the cancellation comes first is a parameter. Descent follows the walk of the
-- tier pointer, Calls and Authority who allowed a call, Errors how a run ends, and Attempts, Order,
-- Valid, Steps, Rounds, Placed and Completeness which groups are attempted.
--
-- HaltWatch.antt models internal/haltwatch/observer.go; Nodes models node.go; Filing and Refinement
-- compare the observer with a watch over one node.
--
-- Actuator.antt and its children model the watch of a node's actuator (cmd/node-actuator/main.go
-- and state.go, internal/nodeagent/signal.go): Inspect InspectSignal, Scan scanSignalPaths and the
-- list of paths, Watch the passes of watchSignals with the state file and restarts, which may fail
-- to read it and come between two passes. What a path reads as, the clock and time.Parse are
-- parameters of a pass; what the actuator's function does is not modelled.
--
-- Audit.antt and its children model the journal of internal/audit. Spool models the writer of
-- spool.go (NewSpoolWriter, record, append; the twelve methods differ in the kind, which Journal
-- names), Replay ReplaySpool with spool_sync.go, System the turns of writers and drains at the one
-- journal, Bounded begin and finish of bounded.go. JSON is the argument Json, of which IsJson says
-- that a printed record is one line that reads back; the payloads are of any types, one for each
-- kind. The contexts, the clock, the file system and the database answer each call as they like;
-- the log is the sequence of records that the database took. Filed says what an append leaves,
-- Turns what a line of a drain does, Drains and Keeping what is true between the turns.
--
-- Nut.antt and its children model internal/nut/client.go: Response the reading of a list of
-- variables, Rendering how the protocol prints one. The network, crypto/tls and the server are the
-- argument Peer. Telemetry.antt and its children model internal/telemetry/normalize.go, Aliases its
-- applyAliases; strconv is the argument Numbers. Polling.antt models internal/polling/poller.go
-- with any client, and EndToEnd puts in the client of Nut.
--
-- Prelude has integers over the native numbers, Go's 32- and 64-bit wrap-around and list lemmas;
-- Text has strings as lists of code points, lines, maps as association lists, and sorting;
-- Diagnostics the findings that the parts share.
--
-- Bounds and fuel. int32 and int64 sums wrap as written at each place. The planner's loop over
-- waves runs on fuel, the number of groups and one: each round takes out at least one group. The
-- search for a cycle nests at most as many visits as there are groups, edges and one, since the
-- names on its path differ and are groups or ends of edges. Decimal printing runs on fuel above the
-- number's value. The walk of the tier pointer runs on as many rounds as there are tiers above its
-- target: a round lowers the tier by one or ends the walk.
--
-- Choices. A message is a format and its arguments: printing is not modelled. Instants are
-- unbounded numbers of nanoseconds (0 is Go's zero time where the code tests for it), UTC() is the
-- identity, and time.ParseDuration is a parameter. ToLower and ToUpper are those of ASCII.
-- TimingMode has the three constants and the empty string. Ranging over a map follows the
-- association list: the results are sorted or do not depend on the order. sort.Slice is insertion
-- that keeps ties. Struct fields that no modelled function reads are left out, and so are the
-- source references of edges.
--
-- Not modelled: the other planner inputs (tier inversions, scope, communication paths, control
-- plane, history, hashing), the details of the executor's audit rows and its progress reports, the
-- SQL of the audit store, inventory and capability, and what is input and output: the NetBox
-- client, the Kubernetes controllers and webhooks, and the commands. A read error in the middle of
-- a journal is left out: what it gives is what a line too long gives. So are sizes in bytes other
-- than those of code points, and the concurrency of calls of the bounded store.
pub mod Prelude
pub mod Text
pub mod Diagnostics
pub mod Adaptive
pub mod Trigger
pub mod Planner
pub mod Executor
pub mod HaltWatch
pub mod Actuator
pub mod Audit
pub mod Nut
pub mod Telemetry
pub mod Polling
