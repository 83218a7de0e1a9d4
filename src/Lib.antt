-- ===== src/Lib.antt =====
-- Verification of Invokr, a multi-tenant job scheduler on PostgreSQL.
--
-- A client creates jobs over an HTTP API; a job has executions, which are rows of a table. Workers
-- claim due rows with `FOR UPDATE SKIP LOCKED`, deliver them to an endpoint (HTTP, Kafka, a Redis
-- stream, or a task inside the worker), and write the outcome, all in one transaction. pg_cron adds
-- the executions of CRON jobs by itself; a reaper, itself a CRON job, retires those that are over.
--
-- Which file models which part:
--   Store              the tables of a workspace (crates/common/migrations/workspace_v1.sql) and the
--                      row types (crates/common/src/models); Store.Enums the enums' texts
--   Store.Conn         a transaction: a statement that fails aborts it, and the commit of an aborted
--                      transaction rolls back; a list of faults says which statements to come fail
--                      for reasons of the server or the network. Store.Does reasons about it
--   Executions         crates/common/src/db/executions.rs, a function for each statement; its children
--                      hold what a claim takes, what holds of every row, and all histories
--   Jobs, Jobs.Cron    crates/common/src/db/jobs.rs; `tick` is the SQL command of `build_cron_command`
--   Reaper             crates/worker/src/reaper.rs
--   Endpoints          crates/common/src/models/endpoint.rs and the statement that the worker uses
--   Backoff            crates/worker/src/backoff.rs, on i64 that wraps as in a release build
--   Json, Template     serde_json's values and their text; crates/common/src/template.rs
--   Cache, Crypto      crates/common/src/cache, crates/common/src/crypto.rs
--   Dispatch           crates/worker/src/dispatcher
--   Pipeline           crates/worker/src/pipeline.rs: `process_execution`, cut at its early returns
--   Poller             crates/worker/src/poller.rs: `claim_and_process`; Poller.Run is `run`, as steps
--   Errors             crates/common/src/error.rs
--   PgCronExpr         crates/common/src/models/pg_cron_expr.rs and `compute_next_cron`
--   Configs, PayloadSpecs, Secrets
--                      crates/common/src/db/configs.rs, payload_specs.rs and secrets.rs; Named holds
--                      what the three tables share
--   Pagination         crates/common/src/pagination.rs and the list requests
--   Handlers           crates/api/src/handlers/jobs.rs: the cancellation of a job; Handlers.Create,
--                      Handlers.Update and Handlers.Status its other requests; the other children
--                      are the files of crates/api/src/handlers by their names
--   Api                the requests of crates/api/src/router.rs that change a workspace, and histories
--   Library            crates/worker/src/client.rs: `InvokrLibraryClient`, for an embedding program
--   HttpClient         crates/worker/src/client.rs: `InvokrHttpClient`, for a program that calls the
--                      service; HttpClient.Service is what crates/api/src/router.rs makes of
--                      its requests
--   Filters, ListQuery crates/api/src/extractors.rs, and the query that lists jobs
--   Public, Organizations, Workspaces
--                      the schema `public` (migrations/20260318000000_multi_tenancy.sql) and
--                      crates/common/src/db/organizations.rs and workspaces.rs
--   Links              the references between the tables, over all histories
--   AuthScope          crates/api/src/auth/scope.rs
--   Tenant, Health     crates/common/src/tenant.rs, crates/worker/src/health.rs; Tenant.Registry holds
--                      the schemas that a worker polls
--   Examples           a small workspace, on which the statements are tried
--   Base               what all of them share: lists, maps, texts, tables, words, results
--
-- State is passed explicitly: a statement is a function of a connection, the pipeline one of a world
-- (connection and caches). What is not the program's own is a parameter: clocks, random draws, the
-- clients of the delivery, the cipher, the calendar of cron expressions, the validator of schemas, the
-- locks of other transactions, the text of a database error.
-- `now()` is one time for a whole transaction. Times are microseconds as natural numbers. The loops
-- over texts are structural recursion over the text, so nothing runs on fuel, but for the digits of a
-- number, whose fuel is the number itself and enough, as a number has fewer digits than that.
--
-- Not modelled: metrics and tracing; the JSON of the answers; who a credential belongs to; table
-- prefixes and search paths (a workspace is one store); the rows that PostgreSQL answers to the query
-- that lists jobs; the list requests of versions, executions, attempts, logs, organizations and
-- workspaces; the dashboard, the command line and the generated client.
pub mod Base
pub mod Json
pub mod Template
pub mod Store
pub mod Errors
pub mod Executions
pub mod Named
pub mod Configs
pub mod PayloadSpecs
pub mod Secrets
pub mod Endpoints
pub mod Backoff
pub mod PgCronExpr
pub mod Jobs
pub mod Reaper
pub mod Dispatch
pub mod Crypto
pub mod Cache
pub mod Pipeline
pub mod Poller
pub mod Handlers
pub mod Pagination
pub mod Api
pub mod Filters
pub mod ListQuery
pub mod Public
pub mod Organizations
pub mod Workspaces
pub mod Library
pub mod Links
pub mod AuthScope
pub mod Tenant
pub mod Health
pub mod HttpClient
pub mod Examples
