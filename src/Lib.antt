-- ===== src/Lib.antt =====
-- subagent-broker: the core of the broker that runs coding agents as supervised workers.
--
-- The program keeps one directory per run. A supervisor (internal/supervisor) starts workers through
-- adapters, moves tasks through the statuses of internal/state, exchanges messages with them through
-- the router of internal/message, whose journal is the durable record of every message, numbers the
-- executions of a task by internal/worker, and ends a wave of tasks with the barrier of internal/wave. Every change of
-- a run's snapshot is an event in the journal of internal/event, from which a restart rebuilds it.
--
-- Common and its child modules are shared: Go's tests and `(T, error)` results, lists measured by
-- native numbers, the text functions of Go's library, and sorting. Dict is a Go map.
--
-- State models internal/state/state.go. State/Kinds has the string types, each with a constructor for
-- any other string, State/Transitions the tables and the Validate functions. State/Reach, TaskPaths
-- and ProtocolPaths are about the paths that the validators accept.
--
-- Message models internal/message. Message/Kinds is message.go; Message/Json is encoding/json as it is
-- used there, a raw message being the document it spells. Message/Lifecycle has
-- validateMessageLifecycle and what it calls in store.go, with one error constructor for each message
-- of the source; Message/Store has the journal, Append and ReplayDetailed over decoded records.
-- Message/Resolution is resolution.go: Types the validation, Codec the JSON form of the structs,
-- Decode the tagged and the legacy form. Message/Router is router.go: Base the router, its writes and
-- the enqueue operations, Ops FreezeResolution, ReclassifyDelivery, RecordDeliveryAttempt and
-- Transition. A router is a value, an operation returns the next router with its result, and the
-- clock, the new id and what the disk does are arguments. An operation holds the lock of its message
-- for its whole length, so no other operation changes that message in between.
--
-- Attempts models internal/worker/attempt.go and the code of internal/supervisor that stores its
-- results: executeTask for a start, finishActiveAttempt, updateAttemptWorker and migrateAttempts
-- (recovery.go, execute_task.go). Attempts/Ops has the operations, Attempts/History the states that
-- sequences of them reach.
--
-- Barrier models internal/wave/evaluator.go: Types the inputs and the verification, Evaluate
-- EvaluateBarrier, Verdict a description of its result that makes no texts.
--
-- Journal models internal/storage/jsonl.go and internal/event/event.go. A file is its bytes, or none,
-- and what the disk does is an argument. Journal/Lines has the scan of ReplayJSONL, Journal/Split its
-- description by the lines of the file, Journal/File AppendJSONL and ReplayJSONL with the repair of an
-- incomplete tail, Journal/Events the Append and the Replay of the event store. encoding/json is a
-- parameter there: `encode` and `decode`, of which the theorems suppose that `decode` reads what `encode`
-- wrote, in which there is no newline. Journal/Sample has such a codec for two events.
--
-- Supervisor models the persistence of internal/supervisor. Supervisor/Types has the snapshot of a run,
-- Supervisor/Commit the Commit of commit.go with commitMutate and appendEvent of state_commit.go,
-- Supervisor/Status setRunStatus, setWaveStatusReason, transitionTask and selectWave (runtime.go), and
-- Supervisor/Saved saveRuntime, each with the event that it writes and the mutation of the snapshot.
-- Supervisor/Reducer and Supervisor/Apply have ApplyEvent and ReplayEvents of reducer.go, where the
-- heartbeat and the two stall events are cases that change only fields which the snapshot leaves out;
-- Supervisor/Restore has the steps of Load that replay the event journal onto state.json and migrate the
-- attempts. Commit holds the mutex of the supervisor, so a commit is one step on the service: the event
-- is appended, then state.json is replaced, then the candidate is installed, and either write can fail.
--
-- Outcome models internal/clioutcome/outcome.go: the outcomes of runs, waves and tasks, with their
-- exit codes, names and errors.
--
-- Stall models internal/stall/assess.go: Stall/Assess the assessment of a quiet worker, with Go's
-- Duration.String as a parameter, Stall/Verdict when it says that the worker is stalled.
--
-- Scope models internal/scope/scope.go: Scope/Text the functions of Go's strings and path that it uses,
-- Scope/Glob the pieces of the regular expression that globRegex writes, with what Go's regexp matches
-- with them, Scope/Pattern Normalize, Compile, Match and MayOverlap, Scope/Leases FindOverlaps and
-- CoveringOwners. Scope/Prefix, Disjoint and Single are about them.
--
-- Audit models internal/verify: Audit/Policy and Audit/Classify are audit.go, Audit/Workspace is
-- ChangedFiles of workspace.go. The record of an audit is in Barrier/Types, since the barrier reads it.
--
-- The checks that a run passes before it starts: ValidateContract of internal/task is in
-- module Plan/Contract, the static Preflight of internal/wave/preflight.go in Plan/Issues and
-- then Plan/Preflight, ValidatePlan of internal/run/plan.go in Plan/Validate. The verb %q of fmt is
-- a parameter of them. Between the preflight and the audit stands Plan/Leases: the scopes that
-- one collects are the leases of the other.
--
-- Report models internal/report/envelope.go: Report/Types the envelope and its meta, Report/Validate
-- ValidateEnvelope, Report/Markdown RenderMarkdown, Report/Disk Publish and VerifyDiskArtifacts. A
-- publication writes three files one after the other, and can stop after any of them, with an error. sha256 and
-- encoding/json are a parameter, a `Codec`, of which the theorems suppose that no hash is empty and that
-- what was written reads back.
--
-- Bounds: times are nanoseconds after Go's zero time and counters are natural numbers, without the
-- wrap-around of 64 bits, which they do not reach; the sequence number of the event store is a uint64 and
-- wraps. Two functions run on fuel: the decimal digits of a number in Common/Text have a digit more than
-- the number to spend, and the scan of a file one round more than the bytes of the file, which is enough
-- because a round takes at least the byte of a newline.
--
-- Not modelled: the adapters, processes, sockets and terminals, which are input and output; the
-- supervisor's goroutines; commitTaskDimensions; the stall assessment, the process evidence and the
-- supervisor identity of a snapshot, which the reducer also rebuilds; the probes of the harnesses in the
-- preflight, and the walk over the file system that takes a snapshot of a workspace.
pub mod Common
pub mod Dict
pub mod State
pub mod Message
pub mod Attempts
pub mod Barrier
pub mod Outcome
pub mod Journal
pub mod Supervisor
pub mod Stall
pub mod Scope
pub mod Audit
pub mod Plan
pub mod Report
