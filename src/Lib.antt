-- ===== src/Lib.antt =====
-- A model of the core of n2f-nest, a modular NestJS service, and what is shown of it.
--
-- The program is a set of bounded contexts (src/modules/*) over shared building blocks
-- (src/shared/*). A command of a context reads through a reader, lets the domain decide, and commits
-- the new state with its event through a writer; the event bus carries events to other contexts.
--
--   Prelude    names of the libraries, Boolean tests, lists, insertion-ordered maps (`Map` of the
--              runtime), stable sorting (`Array.prototype.sort`).
--   Shared     src/shared: Errors (errors/kind.ts, result.ts, failure.ts), Numbers and Dates (the
--              runtime's numbers and `Date`, version/index.ts), Text and Trimmed (strings as UTF-16
--              units), Values (`unknown` inputs), Ids (id/value.ts), Work and Events (provenance,
--              events/index.ts, events/provenance.ts), Effects (asynchronous methods as actions on a
--              state), Tables, Searches and Transactions (what the in-memory stores and writers of
--              the contexts have in common), Domain (helpers that each domain file has), Pagination
--              and Cursors (pagination/index.ts, decimal of validation/index.ts; Pages and Walk hold
--              the theorems).
--   Jobs       src/modules/jobs: Job and Restore (domain/job.ts), Store (infra/in-memory/store.ts,
--              writer.ts), Failures (app/failures.ts), Commands (app/commands/transition-job.ts,
--              submit-job.ts, submit-workflow-job.ts), Expiry (app/commands/expire-stale-jobs.ts),
--              Queries (app/queries/list-jobs.ts).
--              Lifecycle, Traces, Writes, Unique, History, Listed, Expired and the modules Ensured and
--              Safety hold the theorems; Examples and Requests run the model at concrete inputs, as the
--              modules Examples of the other parts do.
--   Inbox      src/shared/events: Retry (retry.ts), Ledger (inbox.ts, in-memory-inbox.ts); Deliveries,
--              Invariant, Operations and Order hold the theorems.
--   RateLimit  src/shared/ratelimit/index.ts and src/platform/ratelimit: Store (in-memory-store.ts) and
--              Policies (rate-limit.interceptor.ts); Windows and Policies hold the theorems.
--   Document   src/modules/document: Document and Restore (domain/document.ts), Store
--              (infra/in-memory/*.ts), Failures (app/failures.ts), Commands (app/commands/*.ts and
--              app/queries/check-document-processable.ts), Queries (the other
--              app/queries/*.ts); Lifecycle, Outcomes, Settled, Processed and Redelivery hold the
--              theorems.
--   Workflows  src/workflows/document-processing: JobEvents (infra/job-events.ts) and Processing
--              (infra/job-event-subscription.ts, app/request-document-processing.ts), which runs
--              commands of Jobs and Document on their parts of one state; Contract and Waiting hold the
--              theorems.
--   Organization  src/modules/organization: Organization, Membership and Invitation (domain/*.ts),
--              Store and Writers (infra/in-memory/*.ts, infra/failures.ts), Failures
--              (app/failures.ts), Commands (app/commands/*.ts), Access (app/queries/*.ts and
--              src/integration/organization-access.ts, which answers the access that the commands of
--              the other contexts ask for). Lifecycle, Terms, Writes, History with its children, Views,
--              Granted and the modules Reads, Steps, Outcomes and Accepted hold the theorems.
--
-- Conventions. An object that passed its checks is a record of what the checks leave: a valid `Date`
-- is its time, counted from the earliest date there is, and a checked number is a natural number.
-- Inputs before their checks are values, dates and numbers that may be anything. A method of an
-- immutable object returns the new record; an asynchronous method is a function of the state that it
-- runs on. Where a command reads and later commits, the store it read is an argument apart from the
-- store it commits to, so that other commands may have committed in between; Jobs.History and
-- Organization.History are the step relations of such interleavings. A commit itself is one step. A
-- delivery of the inbox takes its lease, runs its handler and settles with nothing else on the inbox
-- in between.
--
-- Parameters. The event bus, the generator of IDs, the clock, the lookups of an organization access,
-- of the identity of a session token and of an active identity, the work that the provenance factory
-- makes of a parent's, the ISO text of a date and back, the base64url text of a cursor's JSON, the
-- order of strings by locale, the byte length of an event's JSON text, the comparison of two events'
-- bytes, event handlers and the random fraction of a retry delay are arguments of the definitions
-- that use them.
--
-- No definition of the program's needs fuel: every loop is a structural recursion on a list. Shared.Walk
-- counts the pages that a client asks for; as many as there are rows, and one, are enough.
--
-- Not modelled: the contexts src/modules/identity and audit; the rest of the shared validation; the
-- counts of the inbox (backlog, unsettled, dead); SQL and NATS adapters, HTTP transport, wiring,
-- logging and metrics (external services and the framework); diagnostics of failures; abort signals.
pub mod Prelude
pub mod Shared
pub mod Jobs
pub mod Document
pub mod RateLimit
pub mod Inbox
pub mod Organization
pub mod Workflows
