-- ===== src/Lib.antt =====
-- DistributedTaskPlatform_PRO: a platform that stores tasks in PostgreSQL, hands them to workers
-- through RabbitMQ and reports on them. This library models the services of backend/app and proves
-- what keeps them consistent.
--
-- The parts. The routes (backend/app/api) call the services of backend/app/services, each request
-- being one transaction. A service writes a message for the workers into the outbox table, in the
-- transaction that changes the task; the relay of the outbox gives it to the broker. A worker
-- (backend/app/worker/main.py) claims the task of a message by a lease, runs its handler and
-- records the end of the attempt. The coordinator (backend/app/worker/services/scheduler.py)
-- requeues tasks that are due, recovers tasks whose lease has run out and deletes old rows. Every
-- change of status goes through `set_status`, which logs it, makes webhook deliveries and, for a
-- terminal status, advances the children of the task in the graph of dependencies.
--
-- Which file models what:
-- - Model/Status, Model/Rows, Model/Settings: the statuses, the rows of backend/app/models and the
--   settings of backend/app/core/config.py. Model/Db: the database as a record of lists of rows,
--   with the queries by id; Model/Result: the exceptions as values.
-- - Webhooks/Enqueue, Webhooks/Dispatch: backend/app/services/webhooks.py, with theorems in
--   Webhooks/Bounds and Webhooks/Notified.
-- - StatusChange: `_record_event`, `set_status` and `_after_status_change` of
--   backend/app/services/tasks.py with `advance_children` of backend/app/services/dependencies.py.
--   Frame, Induction, Total, Children, Cancelled and Parents hold its theorems.
-- - Dependencies: `register_dependencies` and `_ensure_no_cycle`, with theorems in Search and
--   Found.
-- - Tasks: creation, retry, cancellation and the bulk operations of backend/app/services/tasks.py,
--   Tasks/Listing its queries. Ready, Blocked, Retry and BulkReports hold theorems, Decisions and
--   Naive lemmas.
-- - Attempts: backend/app/worker/services/attempts.py, with theorems in Failure.
-- - Worker: backend/app/worker/main.py, the two transactions of `handle_message` in Worker itself,
--   the whole of it in Messages and the rounds of the loops in Rounds, with theorems in Lease and
--   Redelivery. Executors: the handlers of backend/app/worker/executors.
-- - Scheduler: backend/app/worker/services/scheduler.py, with theorems in Orphans and Retention.
-- - Workers, Outbox, Batches: the services of these names, with theorems in Outbox/Relay,
--   Workers/Heartbeat, Batches/Progress and Batches/Cancellation.
-- - RateLimit: backend/app/core/rate_limit.py and the limiters of backend/app/services/auth.py,
--   with theorems in Window and Script; Registry: the limiters of a process, and the middleware,
--   with theorems in Shared and Fallback.
-- - Auth: refresh tokens, users and the user of a request, backend/app/services/auth.py, with
--   lemmas and theorems in Tokens, Replaced and Access. ApiTokens:
--   backend/app/services/api_tokens.py.
-- - Audit, Stats: the services of these names. Model/Query: what their listings share.
-- - Api: the routes of backend/app/api. Access holds their dependencies, Schemas the bodies of
--   backend/app/schemas, Accounts and Users the routes of auth.py, Tasks and Bulk those of
--   tasks.py, Webhooks, Batches and Reports the others, Router all requests as one function,
--   behind the middleware. Keeps, Names and Sound show what requests keep, Tasks/Creating how the
--   limit on creation answers; Accounts/Rotation, Users/Lockout, Users/Issue, Tasks/Once,
--   Tasks/Answers and Webhooks/Deletion hold theorems on single routes.
-- - Invariant: what all transactions keep, one child per group of operations; Reach is the
--   relation of the databases that transactions lead to, Sequences and Loops show which operations
--   are many steps, and Service is the life of a worker.
-- - Prelude: shared tests, lists and text. Scenarios: runs at concrete inputs.
--
-- How the state corresponds. A transaction takes the database and returns the one that is
-- committed, or an exception, after which the database is the one before. Transactions run one
-- after another, in any order and at any times: `Step` has a constructor for each. Rows that are
-- locked by another transaction and skipped are not modelled. An object that the session holds is
-- the row at that point of the transaction, except in the second transaction of a worker: with
-- `expire_on_commit=False` the session keeps the object of the first one there, and only its
-- status is read again, so `held` is an argument beside the row, and an assignment writes a column
-- where it changes the object. Each operation reads the clock once; times and durations are
-- microseconds in the natural numbers, where a subtraction stops at 0; the expiry of a JWT is cut
-- to whole seconds. The backoff factor is a fraction of two numbers: the overflow of its power is
-- modelled, the rounding of floats is not. A `schedule_at` with no time zone is marked as such,
-- and raises where it is compared. JSON values are texts, except the message of a task, the
-- details of an event and the body of a webhook, which are records. Rows with equal keys of an
-- `order_by` keep their order in the table. The answers of the broker, of the servers that
-- webhooks call, of Redis, of the JWT library, of the hash and of `ILIKE` are parameters.
--
-- Bounds and fuel. `set_status` calls itself through the children that it cancels; its first
-- argument bounds the depth, and a bound above the number of tasks in `created` is enough
-- (StatusChange/Children). The search for a cycle takes `rounds` as its fuel, which is enough for
-- every graph (Dependencies/Search). All other loops are over lists.
--
-- The tables of users, tokens and batches stand beside the database of the services in `Site`, and
-- the dictionaries of the API process in `Memory`. A route is a function from both to both and a
-- reply; the dependency that finds the user commits in a session of its own, so the time of an API
-- token's use stays written when the handler raises. The texts of `uuid4`, `token_hex` and
-- `gensalt` are arguments.
--
-- Not modelled: the publication of events, the stream of a WebSocket after its opening, the
-- probes, metrics and logging, connections, the repetition of the loops with their sleeps,
-- migrations, the dashboard and the deployment files; of a reply the text of an error, of an audit
-- row its details, of a webhook's request its headers.
pub mod Prelude
pub mod Model
pub mod Webhooks
pub mod StatusChange
pub mod Dependencies
pub mod Tasks
pub mod Attempts
pub mod Scheduler
pub mod Workers
pub mod Executors
pub mod Outbox
pub mod Batches
pub mod RateLimit
pub mod Auth
pub mod Audit
pub mod Stats
pub mod Api
pub mod ApiTokens
pub mod Worker
pub mod Invariant
pub mod Scenarios
