-- ===== src/Lib.antt =====
-- Specbook runs software projects whose tasks are worked on by agents and judged by their owner.
-- This library models the core of the api and of the worker: the protocol of a task's status, the
-- statements on the database, the task service that joins them, and the webhook worker that moves
-- tasks as GitHub reports on their pull requests and checks.
--
-- How the parts correspond to the code:
--   Base, Base/*                 Lists as rows of a table, Boolean tests, the text functions trim
--                                and btrim.
--   Rows                         The rows (packages/database/src/schema) and the session. An
--                                identifier is a number, a date its milliseconds, a nullable column
--                                an Option.
--   Protocol, Protocol/*         packages/contracts/src/constants/task.ts: the transition maps, the
--                                automation modes, the caps.
--   Result, Action, Action/*     A check returns or fails with the key of an error; a handler reads
--                                and writes the tables and returns or throws. The handlers open no
--                                transaction, so what was written before a throw stays. Keeps says
--                                that a handler keeps an invariant, Runs what a run went through,
--                                Throws which errors it may throw.
--   Github, Session              The answers of GitHub (github-app.service.ts), the session of a
--                                request, and which of the statements after the swap of a transition
--                                the database fails at, as parameters.
--   ProjectRepository            apps/api/src/tasks/project.repository.ts and
--                                project-member.repository.ts, the reads of the task service.
--   TaskRepository, /Queue       apps/api/src/tasks/task.repository.ts: one function per statement;
--                                the queue of findForOrg with its predicates.
--   TaskService/*                apps/api/src/tasks/task.service.ts: Access (scopeFor, requireTask),
--                                Plan and Transition (transition before and from its
--                                compare-and-swap), PrPlan and Merge (merge, getPr, syncPr,
--                                maybeOpenReviewPr, maybeAutoProgress), Edits (create, update and the
--                                edits of one row), PrPlan/Landed (what GitHub has answered of a
--                                task's pull request), Cycle (wouldCycle), DependencyPlan and
--                                Dependencies (addDependency, removeDependency), MarkReady
--                                (markReady), Repo (githubRepoContext).
--   Worker, Worker/*             apps/worker/src/queues/github-webhook/github-webhook.processor.ts:
--                                Projects (whose event it is), Events (applyPullRequest,
--                                applyWorkflowRun, the breaker, the retry), Progress (autoProgress),
--                                Deploy (autoDeploy); Rules and Keeps reduce a property of an event
--                                to its statements, Valid, Isolation (with Apart) and Moves (with
--                                Policy) are such properties, and Retry, Breaker and Collapse are about the
--                                retry, the breaker and the deployments.
--   Invitations, Invitations/*   apps/api/src/invitations (repository and service) and the statements of
--                                apps/api/src/user/user.repository.ts that it uses; Rules reduces a
--                                property to the statements, Sound, Runs, Spent and Redeemed are
--                                such properties.
--   Handlers, Handlers/*         The reduction to statements, for the requests of the task service.
--   Invariant, Invariant/*       What holds of the tables between two requests, that each statement
--                                keeps it, and a Boolean test of it.
--   System, System/*             The requests of the task service and the webhook events, served one
--                                after the other.
--   Workflow/*                   What the workflow guarantees across methods: outcomes, claims,
--                                failures, actors, races, cancellation, notes and costs, the merge
--                                gate, automation.
--   Server/*                     packages/server: the classification of a red check (ci-classify.ts) and
--                                the breaker of the automatic deployments (auto-deploy.ts).
--   Permissions                  packages/contracts/src/permissions: catalogue, roles and checks.
--   Examples, Examples/*         Concrete tables, runs on them, and the properties at them.
--
-- Loops. The search of wouldCycle and the walk of markReady take fuel. Each round pops one entry of
-- a stack on which each start and each edge is put once at most, so that one more than the number of
-- starts and edges is enough; both theorems say that the walk ends within that fuel. All other loops
-- are structural.
--
-- Numbers are natural numbers: identifiers, costs in cents, tokens, priorities and milliseconds are
-- never negative in the code, and are far below the range in which a number of JavaScript is exact.
--
-- Not modelled: the front ends, the rest of deployments and environments,
-- organizations, research, servers and the data plane; responses (serializers and read
-- models), logging, request validation by zod, and the delivery of notifications. A statement of the
-- database is atomic, and it does not fail but for those that transition makes after its
-- compare-and-swap outside every try, where the swap stays written, and for an update without a column,
-- which drizzle refuses; rows of other tables do not change while a handler runs, but for the race of
-- two transitions, which Workflow/Race states. The worker's time is one moment of the job. Deployments
-- that were created in the same millisecond come in the order of the table, where the database gives
-- them in any order. What a job sends out (deployments put on the queue, re-runs asked of GitHub) is
-- kept in the database record beside the tables. Of an invitation, the hash of its token, the lower
-- case of an address, the hash of a password and the session tokens are functions of other libraries
-- and so parameters; no property relies on more of the hash than that it is a function.
pub mod Action
pub mod Base
pub mod Examples
pub mod Github
pub mod Handlers
pub mod Invariant
pub mod Invitations
pub mod Permissions
pub mod ProjectRepository
pub mod Protocol
pub mod Result
pub mod Rows
pub mod Server
pub mod Session
pub mod System
pub mod TaskRepository
pub mod TaskService
pub mod Worker
pub mod Workflow
