-- ===== src/Lib.antt =====
-- Verification library of Open Simple Agent, a runtime for AI agents (generic-agent/,
-- runtimes/) and a control plane that deploys them (control-plane/backend/).
--
-- The parts of the program that stand here, and the files that model them:
--
-- - Base: numbers, texts (lists of code points), dictionaries in insertion order (Base.Dict),
--   results that may be an exception (Base.Result), and `Table`, what the program relies on of a
--   database table with a primary key (Base.Table).
-- - Lease: control-plane/backend/src/osa/control_plane/backend/deployment_ownership.py. A deployment
--   operation runs under a lease with a fencing epoch. Lease.Memory is the store of one process,
--   Lease.Postgres the store in a shared table, Lease.Settings the duration from the environment.
-- - RateLimit: generic-agent/src/osa/generic_agent/rate_limit.py. RateLimit.Config has the settings,
--   RateLimit.Memory and RateLimit.Postgres the two limiters, RateLimit.Middleware the request
--   handling that asks the limiter, with the authenticated principal, before the application runs.
-- - Session: generic-agent/src/osa/generic_agent/session.py. Session has the session and its bounded
--   history, Session.Manager the provider in memory that the runtimes use for conversations.
--   Session.Durable is runtimes/adk/src/osa/runtimes/adk/sqlite_session.py, the same behind a table.
-- - A2a: runtimes/adk/src/osa/runtimes/adk/a2a_ownership.py and parts of a2a_event_store.py beside it.
--   A2a.Ownership decides which worker runs an A2A task; A2a.Events appends to the task's durable
--   stream of events in the transaction of that decision, and reads pages of it.
-- - Catalog: control-plane/backend/src/osa/control_plane/backend/agent_catalog.py. Catalog has the
--   records and the table of transitions, Catalog.Records the operations.
-- - Deployment: control-plane/backend/src/osa/control_plane/backend/deployment.py. Deployment.Local is
--   the provider of local processes, Deployment.Startup its wait for a healthy process. A deployment
--   is two steps, before and after that wait, and a restart is its stop and these two steps
--   (Deployment.Calls); what a process does is an argument of each step.
-- - Service: control-plane/backend/src/osa/control_plane/backend/deployment_service.py. Service has the
--   monad of its coroutines, Service.Interfaces the lease store and the provider that it is given,
--   Service.Owned the operation under a lease, Service.Operations, Service.Rollback and
--   Service.Commands the operations, Service.Settings what the environment configures,
--   Service.References the files of a bundle, Service.Snapshots the choice of a version.
-- - Repository: control-plane/backend/src/osa/control_plane/backend/repositories.py. Repository.Rows
--   and Repository.Agents are the agents and their versions in SQL tables, Repository.Deployments the
--   records of deployments, Repository.Resources the resource definitions, with Memory and Table,
--   and Repository.Audit the audit events. The lists and searches of agents are not modelled, for
--   their order is that of the database's collation.
-- - Memory: generic-agent/src/osa/generic_agent/memory.py. Memory has the entries and their scopes,
--   Memory.Provider the provider in memory, with retention and eviction.
-- - Auth: the authorization policy of generic-agent/src/osa/generic_agent/auth.py.
--
-- How the models correspond to the code. A function of the model has the name of the function or
-- method that it translates. A method that changes an object takes its state and returns the new
-- state with the result; an exception is a value of Base.Result, or a result that leaves the state
-- alone. A method that holds a lock, or is one transaction with a row lock, is one step; the
-- relations `Step` and `Reach` of a component are the interleavings of such steps by any number of
-- workers, whose clocks need not agree; a theorem that needs an order of the clocks says so. What
-- others do between two transactions of one call is a function from state to state. The current time is an argument, in whole microseconds.
-- Integers do not wrap in Python; the integer columns of the databases are taken as unbounded.
-- A coroutine of the service takes the schedule of what other workers do before each awaited call.
-- Each loop is a recursion on a list, but for the wait of Deployment.Startup: it has fuel for one
-- round each microsecond, which suffices for a clock that advances by that much.
--
-- Parameters: lower-casing in the search of memory entries, database tables (`Table`, and `Rows` for
-- the table of events), SHA-256 and UTF-8 (RateLimit.Middleware.Hashing), the type of an agent's
-- definition in the catalog, its JSON (`Wire`), that of a history
-- (`HistoryJson`) and of a resource (`SpecJson`), YAML and file names (`BundleWriter`), SQLite's
-- comparison of times in `purge_expired`, processes and their signals, and the formatting of URLs and command
-- lines. The test files give each a concrete one.
--
-- Not modelled: the HTTP and A2A services, the clients of models and MCP servers, Kubernetes, the
-- connection to the databases, schema migrations, telemetry and the front end, which are input and
-- output or calls of libraries for the most part; the tokens of auth.py and the PostgreSQL sessions,
-- which have logic of their own.
pub mod A2a
pub mod Auth
pub mod Base
pub mod Catalog
pub mod Deployment
pub mod Lease
pub mod Memory
pub mod RateLimit
pub mod Repository
pub mod Service
pub mod Session
