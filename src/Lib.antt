-- ===== src/Lib.antt =====
-- The verification library of chatgpt-web-agent: the parts of the local service that keep state and
-- decide what runs, as functions on that state, with the theorems about them.
--
-- The program and its parts. Chats of a hosted model are driven by a local service. Tasks
-- ("workflows") are registered with the coordinator (src/workflows.ts). A request for a task writes a
-- continuation event into the outbox of the event service (src/events.ts) in the same transaction;
-- the delivery loop sends it to a webhook; the chat that it wakes claims its run, works under a
-- lease and finishes. A task may wait for a process; a watcher (src/process-waits.ts) reads the
-- process's receipt and resumes the task. All of these keep their rows in one object store
-- (src/state-db.ts), whose transactions are the units of change. A second, smaller path
-- (src/local-chat-continuation.ts) sends local events to ordinary chats through a desktop bridge,
-- with a store of its own. Shell commands run in an exec runtime behind a
-- socket (src/exec-runtime-server.ts), which remembers the requests that it has started; where it
-- fails, one short command at a time can be run directly (src/backend/rescue-exec.ts). Other
-- backends give tools of their own: skills (src/backend/skills.ts) and Feishu messages
-- (src/backend/feishu.ts). All settings come from the environment (src/config.ts).
--
-- The files.
--   Base (and its children)   helpers: fallible code, Boolean tests, text, tables
--   Base/Table                the rows of one bucket: get, put, remove, all, recent (src/state-db.ts)
--   Json                      JSON values, JSON.stringify, canonicalJson (src/events.ts)
--   State                     the records of the store and the environment of a call
--   StateDb                   atomic of src/state-db.ts, SQLite being a parameter
--   Events                    enqueueContinue and the reads of src/events.ts
--   Events/Secret             validateSecret
--   Events/Subscribe          subscribe, unsubscribe
--   Events/Delivery           flush
--   Events/Outbox, Events/Claims, Events/Attempts, Events/Cancellation   what is proved of
--                             deliveries, of claims of them, of how often they are sent, and of
--                             unsubscribe
--   Workflows/Tasks           task, save, register, bind of src/workflows.ts
--   Workflows/Sync            synchronizeDeliveryOutcomes
--   Workflows/Dispatch        actor, enqueue
--   Workflows/Callers         dispatch, external
--   Workflows/Lease           claim, heartbeat, finish
--   Workflows/Waits           waitProcess, recordProcessObservation
--   Workflows/Resuming        resumeProcessWait
--   Workflows/Rearming        cancelProcessWait, setEnabled
--   Workflows/Reconcile       reconcile
--   Workflows/Steps           the transactions as steps from store to store
--   Workflows/Fence (and its children)   the workspace fence under each operation
--   Workflows/Requests, Leases, Certainty, Resumption   what else is proved of the coordinator
--   ProcessWaits              src/process-waits.ts, with ProcessWaits/Checks for its proofs
--   LocalChat                 the records and reads of src/local-chat-continuation.ts
--   LocalChat/Inbox           enqueue, cancelPending
--   LocalChat/Dispatch        finishLocked and the transactions of dispatch
--   LocalChat/Sending         dispatch with a lock taken: what an answer means, and the order
--   LocalChat/Recover         releaseCompletedTarget, recover, settle, dispatch
--   LocalChat/Safety          what is proved of the dispatch
--   ExecRuntime               parseExecRuntimeRequest of src/exec-runtime-protocol.ts; pruneMemo and
--                             executeOnce of src/exec-runtime-server.ts, a call's promise being the
--                             name of the call; ExecRuntime/Once has the proofs
--   ExecRuntime/Responses     parseExecRuntimeResponse
--   ExecRuntime/Frames        the connections of the server and of callExecRuntimeSocket, and
--                             removeStaleSocket; ExecRuntime/Framing has the proofs
--   Ledger                    the summaries of src/request-ledger.ts and the lines of
--                             src/event-request-audit.ts; Ledger/Secrecy has the proofs
--   Composite                 listTools and callTool of src/backend/composite.ts
--   Retention                 #prune of src/request-ledger.ts
--   Tools, Tools/Arguments    src/result.ts, src/backend/workdir.ts, and how the backends read arguments
--   RescueExec                callTool of src/backend/rescue-exec.ts before it waits
--   RescueExec/Run            #execute: the events of one command as steps of a state
--   RescueExec/Output, Settling, Verdict, Environment, Calls, Turns   what is proved of a command's
--                             output, of how it ends, of its result, of its environment, of the
--                             calls that start one, and of how many run at a time
--   Config                    the records of src/config.ts
--   Config/Readers            how one setting is read
--   Config/Load               loadBridgeConfig
--   Config/Bounds, Token, Integers   what is proved of a configuration
--   Skills                    visibleSkills and the results of src/backend/skills.ts
--   Skills/Names              safeSlug, catalogFilename
--   Skills/Catalog            #ensureCatalog; Skills/Serving has what is proved of it
--   Skills/Selection          skills_list; Skills/Picking has what is proved of it
--   Skills/Reading            skill_read and callTool
--   Feishu                    targets, the fixed identity, media files of src/backend/feishu.ts
--   Feishu/Mentions           parseMentions, renderMentionPrefix; Feishu/Escaping has the escaping
--   Feishu/Message            #sendMessage
--   Feishu/Entries            the normalize functions
--   Feishu/Directory          #directory and callTool
--   Feishu/Safety, Sendable, Requests   what is proved of the requests
--   Tests (and its children)  runs on small stores
--
-- How state and operations correspond. A bucket of the object store is a table, a list of keys and
-- values in rowid order. An operation is a function from its inputs and the store to a Result: the
-- value and the new store, or the message of the error that is thrown, after which the transaction is
-- rolled back. Operations that await something in between are the composition of their transactions,
-- with what happens in between (answers of the network, other calls) as parameters. The SHA-256
-- digest, the clock, random ids, Date.toISOString and path.resolve are parameters (Env, Fresh). One
-- call reads the clock as one instant. Times and counts are natural numbers; the values that the
-- program stores are far below 2^53. A message of zod's own error is written ZodError.
--
-- Bounds. All loops are structural recursions over lists; no fuel is used. The delivery loop takes 32
-- deliveries, the watcher 16 waits, a summary the last 100 rows, as the source does.
--
-- In a result that a tool returns, a text is the list of its UTF-16 code units, by which JavaScript
-- measures and cuts; elsewhere a text is a string of characters. What a backend asks of the gateway,
-- of the file system, of node:path, of the locale and of toLowerCase is a parameter (Deps, Host,
-- World), as are the answers; requests that change something outside (the Feishu backend's message.action) are recorded in a
-- list; those that only ask (its channels.status) are not.
--
-- Not modelled: opening files and sockets, TLS and signing, the command lines and servers, the Google
-- Drive and OpenClaw backends, the writing of the ledger's files,
-- traces, and reports that only read. Negative exit
-- codes and numbers other than natural ones in JSON do not occur in the model.
pub mod Base
pub mod Json
pub mod State
pub mod StateDb
pub mod Events
pub mod Workflows
pub mod ProcessWaits
pub mod LocalChat
pub mod ExecRuntime
pub mod Composite
pub mod Retention
pub mod Ledger
pub mod RescueExec
pub mod Config
pub mod Skills
pub mod Feishu
pub mod Tests
pub mod Tools
