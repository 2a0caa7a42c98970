-- ===== src/Lib.antt =====
-- A model of GrokMcp's supervisor, which runs jobs of the Grok agent on behalf of an MCP client.
--
-- The program's parts and the files that model them. Paths are from the repository's root.
--
-- Protocol: internal/protocol, the types that the parts share. Protocol/State has the states, the
--   views, the input's owner and decisions of types.go; Protocol/Job the job and the requests;
--   Protocol/TaskState the status block of taskstate.go; Protocol/Contract the prompts and
--   `ResolvePlanning` of contract.go; Protocol/Group the order of the list of jobs and its cursors,
--   group.go.
-- Text: `ElapsedSeconds` of internal/textutil/textutil.go.
-- Store: internal/store, the tables as lists of rows. Store/Tables has the rows, `GetJob` and
--   `scanJob`; Store/Put is `PutJob`, one function per statement; Store/Queries the queries of
--   notifications.go and `DeleteJob`; Store/Paging is `Result` of results.go. Store/Lookup,
--   Store/Cursors, Store/Requests and Store/Pages are about rows, notification numbers, the
--   requests of a job, and pages. Store/Listing is `ListJobsPage`, whose order Store/Order and
--   Store/Sorted are about, and whose pages Store/ListCuts and Store/ListPages.
-- Trace: internal/trace, the log of what happens to jobs. Trace/State has the events of event.go and
--   `Log`; Trace/Redact is redact.go; Trace/Emit and Trace/Read are log.go, the writers and the
--   readers; Trace/Rotate is rotate.go, with its lemmas. Trace/Sequences, Trace/Numbers, Trace/Whole
--   and Trace/Appends are about the events in memory and in the file of a job, Trace/Follow and
--   Trace/Reader about readers, Trace/Reopen about restarts and Trace/Secrets about what of a text
--   reaches a trace.
-- Agent: internal/agent, the client of the agent's process. Agent/Types is agent.go; Agent/State has
--   `Grok` of grok.go; Agent/Permissions the permissions for plans of grok.go and approval.go;
--   Agent/Connection the connection and the sessions of lifecycle.go and grok.go. Agent/Runs has all
--   of these as operations in any order; Agent/Waiting, Agent/Asking, Agent/KeepsWaiting and
--   Agent/Delivered are about permissions, Agent/Closed about a client that is closed. What
--   `pending_approval` gives is the argument of `plan_decide` of the supervisor.
-- Supervisor: internal/supervisor. Supervisor/State has `queued`, `runtime` and `Service` of
--   service.go; Supervisor/Records reads, writes and broadcasts jobs (`load`, `save`, `put`,
--   `emit`, `decorate`, `fail`, and coordinator.go); Supervisor/Fifo and Supervisor/Pump are
--   fifo.go; Supervisor/Turn and Supervisor/Calls are turn.go; Supervisor/Plan is plan.go;
--   Supervisor/Cancel is cancel.go; Supervisor/Recover is recover.go; Supervisor/Watchdog is
--   watchdog.go; Supervisor/Idle is idle.go; Supervisor/View is view.go; Supervisor/Jobs is jobs.go;
--   Supervisor/Wait is wait.go.
--   The other files there hold lemmas, each named for what it is about: Agreement, Durable,
--   Loaded and Saved (a job that was written reads back), Starting, Busy, BusySteps and
--   Exclusion (turns), Staleness (answers of a turn that was given up), Decisions, Decided,
--   Delivery (with the agent's client) and Approvals (plan approval), Targets and Cancellation
--   (cancellations), Accepting, AcceptedWork and Broadcast (requests), Outcomes (results),
--   Restart (lost connections and restarts), Release (idleness), Stalls and Watched (the
--   watchdog), ViewEpochs (views) and Deleted (deleted jobs).
-- Prelude: the names that all share, tests and lists over the native numbers.
-- Tests: Store/Examples, Store/ListExamples, Trace/Examples, Agent/Examples, and
--   Supervisor/Samples, Supervisor/Runs, Supervisor/Examples and Supervisor/JobExamples.
--
-- How the parts interact: a client's call goes to the supervisor, which reads the job from the
-- store, checks it, writes it back and broadcasts it. A request that is accepted waits in the job's
-- queue, in memory and in the table of requests; a pump takes it, and the agent's answer comes back
-- to the job through `finish_item`.
--
-- The state is passed on explicitly. What the source does under the job's lock `coord` is one
-- function, from lock to unlock; a procedure that gives the lock up, to wait for the agent, is
-- several, such as `pump_begin`, `item_send` and `pump_end` for a round of `pump`. Between two of
-- them any others may run: Supervisor/Exclusion has the steps as a relation. The time, fresh
-- identifiers and the answers of the agent and of terminals are arguments. A counter of type uint64
-- wraps at 2 ^ 64, and a time is a number of nanoseconds, whose zero is Go's zero time. No function
-- of the program's runs on fuel: all recursion is on a list or on the structure of a value. The
-- `follow` of Trace/Reader, a client that reads page after page, counts its snapshots, and as many
-- as there are matching events are enough.
--
-- A database error is the store's `readable` or `writable` being false: a query fails, or a
-- transaction fails and changes nothing, as SQLite documents.
--
-- The JSON of events and of cursors, the removal of credentials by a pattern, digests, and the
-- lower-casing of texts are parameters, with what is needed of them as hypotheses of a theorem. A
-- line of a trace file is a value of any type.
--
-- Rows of one second stand in `ListJobs` in the order of the table, which SQLite leaves open. The
-- numbers of a list's cursor are natural: a client's cursor with negative ones is not in the model.
-- In the fields of a trace event, a value that is neither a text, a number nor a map is kept as its
-- JSON, and what texts are in it is not looked at, as in the source.
--
-- Not modelled: debug exports, settings, notifications of the desktop, the launching of
-- terminals and of the agent, the MCP, IPC and web transports, and the frontend, which are
-- input and output or display; the supervisor's own calls of the trace log (`emitTrace`) and the
-- debug fields `decorate` adds. `ParseTaskState` is an argument, its result.
pub mod Prelude
pub mod Protocol
pub mod Text
pub mod Store
pub mod Trace
pub mod Agent
pub mod Supervisor
