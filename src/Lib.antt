-- ===== src/Lib.antt =====
-- Dovik, a local supervisor for development processes: its daemon keeps a registry of projects and
-- their processes, starts, stops and observes the processes, keeps what they print, and survives a
-- restart. A broker in the daemon runs GitHub's command line for agents, each as the persona that its
-- project permits. This library models that core, the Go packages internal/supervision and
-- internal/identity with the requests that reach them, and proves what makes it correct.
--
-- Parts and files. Prelude holds what the parts share: tests, lists, maps, Go ints and paths.
-- - Storage: the calls of Go's os that both stores make, over a disk of files and directories with
--   their permissions; the system may refuse each call. Drafts and Steps say what the calls leave.
-- - Supervision.State: internal/supervision/state.go and model.go. `transition` is Transition,
--   `can_transition` is CanTransition. State.Graph has the diagram as a relation.
-- - Supervision.Output: internal/supervision/output.go. `capture` is Capture, `tail` is Tail,
--   `enforce_limits` is enforceLimits. Retention has the reference that the limits are checked
--   against, Capture and History the history that a buffer stands for, Keeping what is kept of it, Paging
--   what a client reads, and Overflow when a request panics.
-- - Supervision.Registry: internal/supervision/registry.go. `reconcile_after_daemon_restart` is
--   ReconcileAfterDaemonRestart, with a function for each of its two loops.
-- - Supervision.Document: internal/supervision/registry_document.go, the form that is stored.
-- - Supervision.Encoding: what JSON makes of a document, by the struct tags of registry_document.go.
-- - Supervision.Saving: internal/supervision/registry_store.go and replace_file_other.go, with
--   writeFileAtomically step by step; Loading has Load behind the read. Replacing, Filing, Refining,
--   Accepting and Preparing have the proofs.
-- - Supervision.Persister: the interface registryPersister of internal/supervision/lifecycle.go, as
--   a record of a save and of what a save leaves that succeeds, that fails with the old document in
--   place, or that fails in the flush after the replacement. Filing makes the file a persister.
-- - Supervision.Manager: the state of LifecycleManager, and access to the registry. Lifecycle has
--   its operations: Start, Stop, Exit (observeExit) and Command (process.go, environment.go); the
--   proofs are in Ownership, Adopt, Begun, Starting, Stopping, Exiting, Halting and Accounting.
-- - Supervision.Operations: internal/supervision/registry_operations.go; Rollback, Editing, Settling
--   and Keeping have its proofs.
-- - Supervision.Run: the steps that the goroutines of a daemon take, in any order; Boot begins with the
--   registry's file.
-- - Control: internal/control/protocol.go, the messages. Control.Server is handleRequest and execute of
--   internal/control/server.go; the codec of JSON and the identity service are parameters, as is the
--   wait of a stop. Handling has the proofs.
-- - Identity: internal/identity/model.go. Model has its types and tests, Validation the loops of
--   State.Validate; Policy and Finding have the proofs.
-- - Identity.Store: internal/identity/store.go, private_unix.go; Updating and Reopening have the proofs.
-- - Identity.Service: Call and Snapshot of internal/identity/service.go. Identity.Sessions has its
--   sessions and Context, Identity.Agent has Execute and HandleAgent of internal/identity/stream.go.
-- - Identity.Authorize: Authorize of internal/identity/catalog.go, with the catalogue in Commands, the
--   loop over arguments in Catalog and the REST routes in Rest; the input is bytes, which Utf8 reads.
-- - Identity.Executor: Run of internal/identity/executor.go, Filter its filter of the credential, and
--   Identity.Stream the frames of internal/identity/stream.go.
-- - Operator: internal/mcpoperator/server.go, the handlers of the tools that an MCP client has, over a
--   client of the daemon, which is a parameter.
-- - Tests: the theorems at concrete inputs.
--
-- How state corresponds. The manager is a record that each operation takes and returns, beside its
-- reply. The mutex makes a section under it one step; Stop, which releases it while it waits, is two
-- sections, and what happens between them is an argument. A pointer to a managed runtime, which the
-- maps and a goroutine share, is an index into a list; a pointer into the registry is a key. Go maps
-- are association lists, and as Go leaves their order open the theorems hold for every order.
-- Numbers are natural numbers, and so are bytes; a Go int that a client sends is an integer, `tail`
-- writes out where its sum overflows, and the sequence numbers wrap at 2^64.
--
-- Bounds and fuel. Three loops run on fuel. A round of `capture_loop` takes a byte, as does one of
-- `write_loop`, and both get the length of their input. A round of `filter_loop` takes a byte or is the
-- last, and it gets one more than the length of what is pending. Every other loop is structural.
--
-- Parameters. The manager's store is the interface's record. The clock, fresh IDs, the environment,
-- os.Stat outside the stores, the launch of a command, the exit of a process, the name of a temporary
-- file, what the system answers to each call, what the platform says of accounts and sockets, and what
-- gh prints are arguments, and the theorems hold for all of their values. So are the codec of JSON and
-- the parser of mail addresses; where a theorem needs that a decoder reads what the encoder wrote, that
-- is a hypothesis. For a registry's document it is up to what the format does not tell apart, an empty
-- map of overrides and none, and the order of a map's entries; for the identities it is asked of the
-- state that is written. Paths are those of Unix, and two spellings of a clean path are two paths.
--
-- Not modelled: the platform's processes, sockets and account checks, connections and the goroutines
-- that serve them, the search for a trusted gh (ValidateGH), git.go, containers and the doctor, the
-- replacement of a file on Windows, the command line, the terminal interface and packaging: most of it
-- calls the operating system, other programs or a library of forms.
pub mod Prelude
pub mod Storage
pub mod Supervision
pub mod Control
pub mod Identity
pub mod Operator
pub mod Tests
