-- ===== src/Lib.antt =====
-- A verification library for viki, a specification wiki whose changes people approve. It models the
-- part of the Go backend, in backend/internal, that decides what may change and who may change it.
--
-- The parts and their files:
--   Prelude: Boolean tests on numbers, lists, tables, text, maps keyed by text, and error results.
--   Model: the types of backend/internal/model/model.go.
--   Pages: the rules of a page's content in backend/internal/postgres/pages_write.go:
--     validatePageInput, validateBDDSteps, stepRole, the slug's pattern and renderStepExpression.
--   Governance: backend/internal/governance/policy.go.
--   Changes: an assistant's change set and validateAssistantChangeSetShape of
--     backend/internal/postgres/ai_changes.go.
--   Wiki: the tables of the human-governed wiki (State) and the operations on them: Writes (the
--     inserts that operations share), Create (CreatePage), Save (SaveRevision), Approve
--     (ApproveRevision), Review (AddComment, AddObjection, ResolveObjection), Queue
--     (backend/internal/postgres/development.go) and Changes (ApplyAIChangeSet). Moves is an
--     abstract specification of what an operation may do to pages and revisions; Refine and its
--     children show that every operation refines it; Invariant, Lifecycle, Approval and Conflict
--     reason over the moves, Performed about the drafts of a change set, and Candidates and Earliest
--     about the queue.
--   Claims: developmentClaimStore of backend/internal/app/development_claim.go.
--   Sync: the import of repository snapshots, backend/internal/postgres/repository_sync.go, and
--     Eligible and tags of backend/internal/specsync/snapshot.go.
--   Stream: assistantEventStream of backend/internal/app/assistant_runtime.go.
--   Http: requireAuth, handleError and requirePathID of backend/internal/app/helpers.go.
--   Assistant: assistantRuntime of backend/internal/app/assistant_runtime.go. Markers and Filter
--     are the filter of the stream (internalStreamFilter, stripInternalMarkers), Prompt is the
--     envelope of a prompt (wrapPrompt, unwrapPrompt), Receipts what is read from the results of
--     tools, Handoff the text of formatHandoff, Replay the history of visibleHistory, State the state of
--     the runtime and Turns the lifecycle of turns: the sections that hold the mutex, and in its
--     children Sessions, Submit, Cases, Events and Reconcile ensureSession, buildHandoff, submit,
--     the events of the gateway and reconcileProfile. Turns/Active is the invariant, Filed, Kept,
--     CasesKept, Handlers, Resumed, Reconciled and Sessions/Leaves show that it is kept, and
--     Reachable, Submitted and Closed what follows from it.
--   Tools: toolAllowed, toolActivityLabel, toolActivityState and assistantSessionKey of
--     backend/internal/app/assistant_runtime.go.
--   Localize: the check of translations and the step of the localization worker,
--     backend/internal/localize/localize.go.
--   Tests: concrete runs.
--
-- How the code is modelled. An operation of the database is a function from the tables to a result
-- with the new tables; an error leaves the tables as they were, as the rollback does. CreatePage,
-- SaveRevision, ApproveRevision and ApplyAIChangeSet run in serializable transactions, and the
-- others are single statements on the rows they read or short transactions; each one is one step
-- here. An identifier is a number; a text that is no UUID counts as absent. The generator of
-- identifiers is a function `uuid` of a counter, about which nothing is assumed: an identifier that
-- is in use makes the insert fail. A text is the list of its code points, and in Assistant's
-- Markers and Filter of its bytes. Unicode's table of printing characters, the hash of tokens, the
-- sessions and the mode of a workspace are arguments.
-- The list of managed organizations in Wiki's tables stands for the keys of Sync's workspaces.
-- Most loops are structural recursion over the list that they walk. The loops of the stream filter
-- run on fuel, one more than the bytes of the buffer or the text: each round but the last drops a
-- marker from it. Of a conversation's turn each operation of the runtime runs to its end before the
-- next; the sections of submit that other goroutines may run between are functions of their own.
-- The answers of the Hermes gateway and of the repository, the decoding of its events and the
-- encoding and signature of a prompt's metadata are arguments.
--
-- Not modelled: the driver's failures (a connection that breaks), the metadata of audit events and
-- the search index, queries that only read, the Gherkin parser and JSON, the assistant's HTTP
-- handlers and stored conversations, the queue of localization jobs, the HTTP and websocket
-- clients, generated code, and the frontend. The counter of an event stream has 64 bits, and its
-- theorems are for fewer publications than that.
pub mod Prelude
pub mod Model
pub mod Pages
pub mod Governance
pub mod Changes
pub mod Wiki
pub mod Claims
pub mod Sync
pub mod Stream
pub mod Http
pub mod Assistant
pub mod Tools
pub mod Localize
pub mod Tests
