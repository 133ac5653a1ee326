-- ===== src/Lib.antt =====
-- KitStack: a router and an SDK for kits (tools, views, agents) over MCP. This library models the
-- parts of it that decide: who may do what, what a run of an agent does, which call is started.
--
-- Base: Boolean tests, `===` as the interface `Equality`, arrays, strings as lists of UTF-16 code units
-- (Text), SQL statements on a table as functions on its rows, exceptions as a result type.
--
-- Authz: packages/authz/src. Types (types.ts, the columns of schema.ts), Db (schema.ts, version.ts),
-- Lifecycle (lifecycle.ts), Engine (the queries of engine.ts), Keys and Cache (its decision cache),
-- Middleware (middleware.ts). A statement of the query builder is read as the SQL statement that it
-- builds; SQL's left join, its NULLs and its conflict clauses are written out. The weak map of the
-- cache is a function of the database handle; the clock is an argument.
--
-- Agent: packages/sdk/src/define-agent.ts and the agent types of packages/sdk/src/types.ts. Config
-- (validateConfig), Metadata (safeString, safeNumber, metadataFor), Loop (the function `run`). The
-- state is a record of the local variables of `run` with the events emitted so far, newest first;
-- `step` goes from one loop head to the next, through one function per await (receive, turn_step,
-- conclude, deliver). What is awaited is answered by an environment: a value, an error, or the abort
-- signal, which runWithSignal turns into a rejection; its timer and listeners are only seen there.
-- The estimate of a cost is a function of the two counts that may throw: then no event of the turn is
-- emitted behind `turn_started` (unreported). The limits that validateConfig checks are doubles, and
-- the loop takes the accepted number of turns as a natural number.
-- The run takes `2 * max_turns + 2` steps: a step asks the source or spends a turn. Identifiers and
-- times of events are left out; arguments and results of tools are opaque texts; hooks only observe.
--
-- Scheduler: kits/debrief/src/scheduler/index.ts. Table (the rows of scheduled_calls, its queries
-- and their order), Store (schedule, claimDue, complete, fail, list and reset as the SQL statements
-- they execute, each with its answer or error and the table that it leaves), Operations (all of them
-- as one type), Poller (pollOnce). Parameters are Date.parse, toISOString and which unique index
-- SQLite checks first; the clock's readings and fresh ids are arguments. Texts are ordered by code
-- units, SQLite's order for time stamps and ids. The timer of the poller is left out, and what stands
-- behind the function that starts a call (the provider, a trigger, a declared job).
--
-- Audit: packages/sdk/src/audit.ts. Json (JSON.stringify as canonicalAuditRecord uses it, strings
-- escaped code unit by code unit), Sensitive (assertMetadataOnlyAudit), Store (append, query and
-- verify of HashChainedAuditStore over its memory persistence), Dispatch (createDispatchAuditSink),
-- Chain (what verify accepts). SHA-256 and localeCompare are parameters; numbers are the texts that
-- JSON prints. The exporters are left out, as they only format and post.
--
-- Plugins: packages/sdk/src/plugins/registry.ts. Version (parsePartialVersion, satisfiesToken,
-- versionSatisfies, isSupportedRange on texts), Version/Ranges (what each operator means), Registry
-- (validateManifest, register, resolveCapability; of an error only its code). White space
-- is split one separator at a time and empty runs are dropped, as the source drops them.
-- Runtime (PluginRegistry with what its plugins do: hooks and listeners are actions, and the state has a
-- log of the lifecycle hooks that ran; of a listener that throws the error is kept, contexts are
-- opaque), Runtime/Nested and Runtime/Started (the order of the hooks).
--
-- Dispatch: packages/sdk/src/server/dispatch.ts, jobs.ts and trigger.ts. Types (its declarations; a
-- call of the host or of a kit is an action, which takes a world and gives a value or a thrown message
-- and the world that it leaves), Dispatch (the stages of `dispatch` from the last to the first, each
-- one function), Gates (their order), Audited (with the audit store as sink), Jobs and Triggers (their
-- envelopes and dependencies). Session ids and durations are arguments.
--
-- Router: packages/mcp-server/src/router. Trace (trace-context.ts), Authz (authz.ts), Dispatcher (the
-- circuit breaker and the daily cap of tool-dispatcher.ts over the items of oauth-store.ts), ToolCall
-- (dispatchToolCall, with kit-resources.ts, on the pipeline of Dispatch). The platform (DynamoDB, the
-- functions of the kits) is a record of actions; the clock's readings are arguments. The two writes
-- that a call starts and does not await run at once.
-- Oauth (oauth/authorize.ts, oauth/token.ts and the PKCE check of oauth/helpers.ts over the items of
-- oauth-store.ts) and Endpoints (the routes /authorize, /authorize/callback and /token of handler.ts)
-- take SHA-256, base64url and the signing of access tokens as parameters, fresh ids as arguments.
--
-- Memory: kits/debrief/src/memory/plugin.ts. Types (its declarations), Select (its selections of rows),
-- Memory (each operation with the telemetry event that it emits), Operations (the operations as one type), Fitting (what a
-- query asks of a record), Approved
-- and Readable (why what is read was approved), Complete and Answers (what a reading gives). The
-- telemetry store is an action, and an operation whose event it refuses throws after its statement.
--
-- Telemetry: kits/debrief/src/telemetry/index.ts with packages/sdk/src/telemetry.ts. Types (the fields of
-- an event, and what else an input may hold), Telemetry (append, query and reset of `TelemetryStore`),
-- Newest (the order of the rows), Wanted (which rows a query asks for), Appended (append on its
-- branches), History (any appends and resets).
-- The store of Memory takes its telemetry as an action instead.
--
-- Not modelled: the other routes of the gateway's HTTP handler, kits other than debrief, voice and CRM
-- clients, the build and the web pages, which are I/O and glue; and the plans of
-- authz/policies.ts, which have logic of their own.
pub mod Base
pub mod Authz
pub mod Agent
pub mod Scheduler
pub mod Audit
pub mod Plugins
pub mod Dispatch
pub mod Router
pub mod Memory
pub mod Telemetry
