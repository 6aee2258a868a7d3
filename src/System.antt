-- ===== src/System.antt =====
-- The api and the webhook worker as a system: the requests of apps/api/src/tasks/task.service.ts and
-- the events of apps/worker/src/queues/github-webhook, served one after the other against one
-- database, each request by any session.
pub mod Safety
pub mod Isolation
use specbook.Base.{ℕ, String, ◌≢◌, Bool, Memᴰ}
use specbook.Rows.{Task, Actor, AssumptionFlag, CommentKind}
use specbook.Action.{Db}
use specbook.Session.{Session}
use specbook.TaskRepository.{CostDelta}
use specbook.TaskService.Plan.{TransitionRequest}
use specbook.TaskService.Transition
use specbook.TaskService.Merge
use specbook.TaskService.Dependencies
use specbook.TaskService.Edits
use specbook.TaskService.MarkReady
use specbook.TaskService.Edits.{CreateTaskRequest, UpdateTaskRequest, SpecRequest}
use specbook.TaskService.MarkReady.{Scope}
use specbook.Invariant.Rows.{Fresh}
use specbook.Worker.{Job, GithubWebhookJobPayload}
use specbook.Worker.Events.{process}

-- The number of a `create` is the identifier that the database makes.
pub data Request : Type 0 where
  create : ℕ → CreateTaskRequest → Request
  update : Actor → UpdateTaskRequest → Request
  agent_update_spec : SpecRequest → Request
  transition : Actor → TransitionRequest → Request
  merge : ℕ → Request
  sync_pr : ℕ → Request
  check_criterion : ℕ → ℕ → Bool → Request
  report_cost : ℕ → CostDelta → Request
  set_assumption : Actor → ℕ → AssumptionFlag → Request
  clear_assumption : ℕ → Request
  add_comment : Actor → ℕ → CommentKind → String → Request
  get_notes : ℕ → Request
  add_dependency : ℕ → ℕ → Request
  remove_dependency : ℕ → ℕ → Request
  delete : ℕ → Request
  mark_ready : ℕ → Scope → Request

-- The database after the request, whether it returned or threw.
unfoldable pub serve : Session → Request → Db → Db
serve s (Request.create new_id dto) db = (Edits.create s new_id dto db).1
serve s (Request.update actor dto) db = (Edits.update_task s actor dto db).1
serve s (Request.agent_update_spec dto) db = (Edits.agent_update_spec s dto db).1
serve s (Request.transition actor dto) db = (Transition.transition s actor dto db).1
serve s (Request.merge id) db = (Merge.merge s id db).1
serve s (Request.sync_pr id) db = (Merge.sync_pr s id db).1
serve s (Request.check_criterion id index done) db = (Edits.check_criterion s id index done db).1
serve s (Request.report_cost id delta) db = (Edits.report_cost s id delta db).1
serve s (Request.set_assumption actor id flag) db = (Edits.set_assumption s actor id flag db).1
serve s (Request.clear_assumption id) db = (Edits.clear_assumption s id db).1
serve s (Request.add_comment actor id kind body) db = (Edits.add_comment s actor id kind body db).1
serve s (Request.get_notes id) db = (Edits.get_notes s id db).1
serve s (Request.add_dependency id on) db = (Dependencies.add_dependency s id on db).1
serve s (Request.remove_dependency id on) db = (Dependencies.remove_dependency s id on db).1
serve s (Request.delete id) db = (Edits.delete s id db).1
serve s (Request.mark_ready project_id scope) db = (MarkReady.mark_ready s project_id scope db).1

-- What the database guarantees of a request: a new row gets an identifier that no row has.
abbrev pub Admits : Db → Request → Type 0
Admits db (Request.create new_id dto) = Fresh db new_id
Admits db _ = Unit {0}

-- Any number of requests and webhook events, in the order in which they are served.
pub data Run (start : Db) : Db → Type 0 where
  idle : Run start start
  served :
      {db : Db}
      → Run start db
      → (s : Session) (r : Request) → Admits db r
      → Run start (serve s r db)
  delivered :
      {db : Db}
      → Run start db
      → (job : Job) (event : GithubWebhookJobPayload) → Run start (process job event db).1
