-- ===== src/Lib.antt =====
-- AgentTown runs a company of coding agents: a Core process keeps tasks, sessions and an event
-- journal in SQLite, agents propose actions, and clients connect over a pipe. This library models
-- the packages below packages/, and proves what their callers rely on.
--
-- Contract models packages/runtime-contract/src: Contract/Task (task.ts), Contract/Company
-- (company.ts) and Contract/Agent (agent.ts) are its types, Contract/Value the JSON values of a
-- Record<string, unknown>. Organization is validateOrganization of company.ts.
--
-- Storage models packages/core/src/storage: Storage/Schema has the tables of schema.ts as records,
-- Storage/Transaction the transactions, the event rows and their publication, and Storage/Tasks,
-- Storage/Companies, Storage/Sessions, Storage/Requests and Storage/Leases the methods of CoreStore
-- in core-store.ts. `transact` is the form that the writing methods share. Storage/Journal lists
-- them as data, for statements about all of them. A JSON column holds the value itself.
--
-- Tasks models packages/core/src/tasks/task-service.ts: Tasks/Rules has the transition table,
-- Tasks/Decide each method up to its putTask, Tasks/Service the methods, and Tasks/Cycle the
-- depth-first search of #assertNoDependencyCycle. Policy is packages/core/src/policy/
-- action-policy.ts, and Leases is packages/core/src/ipc/lease-registry.ts.
--
-- A method is a function from the store to a result and the store that it leaves (Exec): what was
-- written before a raise stays, unless the transaction rolls back. Errors are constructors of
-- Result.Error, one for each message. What `randomUUID()` and `new Date()` return are arguments:
-- event ids are parameters of the methods, and the time of an event row is given by a function of
-- its sequence. AUTOINCREMENT may leave sequences out, and which ones is a function too. Names are native strings, and counters natural numbers; no counter of the program
-- has a bound that could wrap.
--
-- Fuel: the search for dependency cycles takes the number of tasks and two more as the depth of its
-- calls, and the climb to the owner takes one round more than there are employees.
--
-- Orchestrator models packages/core/src/company/orchestrator.ts: Orchestrator has the fields of
-- CompanyOrchestrator and the interface of the sessions, Orchestrator/Payload the reading of
-- payloads, Orchestrator/Calls the private helpers, Orchestrator/Review requestReview,
-- Orchestrator/Actions and Orchestrator/Dispatch the handlers and dispatch, Orchestrator/Work
-- sendTask, and Orchestrator/Machine the other public methods and the steps. SessionManager is here
-- an interface, Sessions: a stream is a list of waits, and a wait may change the state. A promise that
-- the program leaves behind is kept in the state, and a later step runs it to its end; what sendTask
-- does before its first wait has run when the promise is made. Orchestrator/Waits lets other calls
-- and promises run during a wait, to a depth; each of them ends before that wait does. dispatch takes as fuel how deep a message to an employee may lead
-- to another proposal, and sendTask its number of rounds; the statements hold at every fuel.
--
-- Server models packages/core/src/ipc/core-server.ts, and Contract/Ipc the messages of
-- packages/runtime-contract/src/ipc.ts. Server/State has the fields of CoreServer, Server/Requests
-- the helpers on requests, Server/Queries, Server/Methods and Server/Encode the methods of the
-- protocol, Server/Consume the bytes of a connection as lines, Server/Lines and Server/Replies
-- #processLine, Server/Cache the response cache, Server/Outbound what is written to a socket,
-- Server/Events the event stream, Server/Options the checks of the constructor, and Server/Machine
-- the steps. A request that awaits is an entry of the state, and a step gives the outcome of what it
-- awaits. `executed` is history: each mutating request is noted where it is dispatched. The loops of
-- the cache take one round for each response, or for each key, and that is
-- enough. JSON.stringify, JSON.parse, the zod schemas and the digest are functions that the model is
-- given.
--
-- Checkpoint models the payload of packages/core/src/lifecycle/checkpoint-service.ts:
-- Checkpoint/Text has the limits on its texts, Checkpoint/Payload the reading, and Checkpoint/Build
-- the building and the validation. The length of a text is counted in UTF-16 units.
--
-- Sessions models packages/core/src/agents/session-manager.ts: Sessions has the fields of
-- SessionManager and the interface of the adapters (AgentAdapter of packages/runtime-contract/src/
-- agent.ts), Sessions/Handles the tables of handles with their order and the ownership snapshot,
-- Sessions/Replace the turns of an employee with resumeOne and rebuildOne, Sessions/Start startAll,
-- Sessions/Stop interruptAll, stopAll and stopAllBounded, Sessions/Send send, and Sessions/Calls the
-- public methods as one. Sessions/Steps lists the writes as a step relation. The key of a handle is
-- its three texts. A call of an adapter is awaited, and whatever runs meanwhile is a part of it, also
-- the clock and the timers that abort a signal; the promises of one Promise.all settle in the order
-- of their list. A race with a signal is lost as soon as the signal is aborted: whether that comes
-- before the call settles, and with which state, is given, so that a call may also never settle.
--
-- Checkpoint/Lifecycle models pause, stop and recovery over that state: Checkpoint/Lifecycle/Cleanup
-- is #cleanupWithinDeadline, Checkpoint/Lifecycle/Suspend #suspend, Checkpoint/Lifecycle/Recover
-- #recover, Checkpoint/Lifecycle/Request the public methods, and Checkpoint/Lifecycle/Approvals the
-- payloads of the approval events. The fuel of the cleanup bounds its rounds; when it runs out the
-- cleanup raises, and how many rounds fit before the deadline depends on a clock that is not
-- modelled. The text of a
-- failed recovery cleanup leaves out the JSON of its outcomes. The methods of the orchestrator are
-- given.
--
-- Not modelled: the adapters behind their interface, listening on the pipe
-- and its graceful close, the command line, the probes and the Electron spike; the SQLite file
-- itself, and the zod and YAML libraries.
pub mod Prelude
pub mod Contract
pub mod Result
pub mod Exec
pub mod Storage
pub mod Tasks
pub mod Policy
pub mod Orchestrator
pub mod Organization
pub mod Leases
pub mod Checkpoint
pub mod Server
pub mod Sessions
mod Tests
