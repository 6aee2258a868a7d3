-- ===== src/TaskRepository.antt =====
-- apps/api/src/tasks/task.repository.ts, but for the queue, which is in Queue.antt. A query is a
-- function of the database; a statement that writes is an action.
pub mod Queue
use specbook.Base.{
  ℕ, String, ◌+◌, Bool, true, false, Option, none, some, List, [], ◌∷◌, ◌++◌, map, head?, any,
  filter, find?, set_where, elem, ◌==◌, ◌&&◌, ◌||◌, not, is_none, btrim, is_empty, or_else,
  if◌then◌else◌,
}
use specbook.Rows.{
  Task, Status, draft, ready, Dependency, TaskComment, CommentKind, note, Notification, Criterion,
  Actor,
}
use specbook.Protocol.{same_status, includes, terminal_task_statuses}
use specbook.Result.{Result, ok, err, no_values_to_set}
use specbook.Action.{Db, Action, gets, modify, raise, ◌>>=◌, ◌>>◌, pure}
use specbook.ProjectRepository.{member_scope, org_guard}

-- TaskRepository.findById
unfoldable pub find_task : Db → ℕ → ℕ → Option ℕ → Option Task
find_task db id org_id restrict =
    find?
      (λ t. t.id == id && org_guard db org_id t.project_id && member_scope db restrict t.project_id)
      db.tasks

-- The column `updated_at` is set by every update.
unfoldable pub stamp : ℕ → (Task → Task) → Task → Task
stamp now f t = record (f t) { updated_at = now }

-- `UPDATE task SET f WHERE p RETURNING *`
unfoldable pub update_where : ℕ → (Db → Task → Bool) → (Task → Task) → Action (List Task)
unfolding stamp
update_where now p f db = (
  ok (map (stamp now f) (filter (p db) db.tasks)),
  record db { tasks = set_where (p db) (stamp now f) db.tasks },
)

-- TaskRepository.update. A patch that sets no column is `none`, and drizzle's `set` throws for it.
unfoldable pub update : ℕ → ℕ → ℕ → Option (Task → Task) → Action (Option Task)
update now id org_id none = raise no_values_to_set
update now id org_id (some f) = do
  rows ← update_where now (λ db t. t.id == id && org_guard db org_id t.project_id) f
  pure (head? rows)

-- TaskRepository.casUpdateStatus
unfoldable pub cas_update_status : ℕ → ℕ → ℕ → Status → (Task → Task) → Action (Option Task)
cas_update_status now id org_id from f = do
  rows ←
      update_where now
        (λ db t. t.id == id && same_status t.status from && org_guard db org_id t.project_id) f
  pure (head? rows)

pub record CostDelta : Type 0 where
  pub tokens_in : Option ℕ
  pub tokens_out : Option ℕ
  pub usd_cents : Option ℕ

-- `COALESCE(column, 0) + delta`, for a field that was reported.
abbrev pub add_to : Option ℕ → Option ℕ → Option ℕ
add_to none column = column
add_to (some n) column = some (or_else column 0 + n)

unfoldable pub cost_patch : CostDelta → Task → Task
cost_patch delta t = record t {
  cost_tokens_in = add_to delta.tokens_in t.cost_tokens_in;
  cost_tokens_out = add_to delta.tokens_out t.cost_tokens_out;
  cost_usd_cents = add_to delta.usd_cents t.cost_usd_cents;
}

abbrev pub reports_nothing : CostDelta → Bool
reports_nothing delta =
    is_none delta.tokens_in && is_none delta.tokens_out && is_none delta.usd_cents

-- TaskRepository.addCost
unfoldable pub add_cost : ℕ → ℕ → ℕ → CostDelta → Action (Option Task)
unfolding update cost_patch
add_cost now id org_id delta =
    update now id org_id (if reports_nothing delta then none else some (cost_patch delta))

-- TaskRepository.create
unfoldable pub insert_task : Task → Action (Unit {0})
unfolding modify
insert_task t = modify λ db. record db { tasks = db.tasks ++ t ∷ [] }

-- TaskRepository.delete. The foreign keys of task_dependency and task_comment cascade.
unfoldable pub delete_task : ℕ → ℕ → Action (Unit {0})
unfolding modify
delete_task id org_id = modify λ db.
    let gone = λ (t : Task). t.id == id && org_guard db org_id t.project_id in
    if any gone db.tasks
    then record db {
      tasks = filter (λ t. not (gone t)) db.tasks;
      dependencies =
          filter (λ d. not (d.task_id == id || d.depends_on_task_id == id)) db.dependencies;
      comments = filter (λ k. not (k.task_id == id)) db.comments;
    }
    else db

-- TaskRepository.createComment
unfoldable pub create_comment : TaskComment → Action (Unit {0})
unfolding modify
create_comment k = modify λ db. record db { comments = db.comments ++ k ∷ [] }

abbrev is_note : CommentKind → Bool
is_note note = true
is_note _ = false

abbrev pub is_unacked_note : ℕ → TaskComment → Bool
is_unacked_note task_id k = k.task_id == task_id && is_note k.kind && is_none k.acked_at

-- TaskRepository.hasUnackedNotes
unfoldable pub has_unacked_notes : Db → ℕ → Bool
has_unacked_notes db task_id = any (is_unacked_note task_id) db.comments

-- The subquery of `ackNotes`: the task is one of the organization's.
unfoldable pub task_in_org : Db → ℕ → ℕ → Bool
task_in_org db org_id task_id =
    any (λ t. t.id == task_id && org_guard db org_id t.project_id) db.tasks

-- TaskRepository.ackNotes
unfoldable pub ack_notes : ℕ → ℕ → ℕ → Action (List TaskComment)
ack_notes now task_id org_id db =
    let pending = λ (k : TaskComment). is_unacked_note task_id k && task_in_org db org_id task_id in
    let seen = λ (k : TaskComment). record k { acked_at = some now } in
    (
      ok (map seen (filter pending db.comments)),
      record db { comments = set_where pending seen db.comments },
    )

abbrev pub is_edge : ℕ → ℕ → Dependency → Bool
is_edge task_id depends_on_task_id d =
    d.task_id == task_id && d.depends_on_task_id == depends_on_task_id

-- TaskRepository.addDependency: `onConflictDoNothing` on the primary key.
unfoldable pub insert_dependency : ℕ → ℕ → Action (Unit {0})
unfolding modify
insert_dependency task_id depends_on_task_id = modify λ db.
    if any (is_edge task_id depends_on_task_id) db.dependencies then db else record db {
      dependencies =
          db.dependencies
          ++ record { task_id = task_id; depends_on_task_id = depends_on_task_id } ∷ [];
    }

-- TaskRepository.removeDependency
unfoldable pub delete_dependency : ℕ → ℕ → Action Bool
delete_dependency task_id depends_on_task_id db = (
  ok (any (is_edge task_id depends_on_task_id) db.dependencies),
  record db {
    dependencies = filter (λ d. not (is_edge task_id depends_on_task_id d)) db.dependencies;
  },
)

-- TaskRepository.findNonTerminalDependents: the tasks of the organization that depend on the task
-- and are neither done nor cancelled.
unfoldable pub find_non_terminal_dependents : Db → ℕ → ℕ → List Task
find_non_terminal_dependents db depends_on_task_id org_id =
    filter
      (λ t.
        any (is_edge t.id depends_on_task_id) db.dependencies
        && org_guard db org_id t.project_id
        && not (includes t.status terminal_task_statuses))
      db.tasks

-- TaskRepository.detachDependents
unfoldable pub detach_dependents : ℕ → List ℕ → Action (Unit {0})
unfolding modify
detach_dependents depends_on_task_id dependent_ids = modify λ db. record db {
  dependencies =
      filter (λ d. not (d.depends_on_task_id == depends_on_task_id && elem d.task_id dependent_ids))
        db.dependencies;
}

-- TaskRepository.findProjectDependencyEdges
unfoldable pub find_project_dependency_edges : Db → ℕ → List Dependency
find_project_dependency_edges db project_id =
    filter (λ d. any (λ t. t.id == d.task_id && t.project_id == project_id) db.tasks)
      db.dependencies

-- TaskRepository.findOrgMemberIds
unfoldable pub find_org_member_ids : Db → ℕ → List ℕ
find_org_member_ids db org_id =
    map (λ m. m.user_id) (filter (λ m. m.org_id == org_id) db.organization_users)

abbrev pub is_empty_list : List Criterion → Bool
is_empty_list [] = true
is_empty_list (c ∷ rest) = false

-- The column `dispatchable` of findProjectPromotionRows, as the SQL computes it:
-- `length(btrim(coalesce(context, ''))) > 0 AND jsonb_array_length(acceptance_criteria) > 0`.
unfoldable pub dispatchable : Task → Bool
unfolding btrim
dispatchable t =
    not (is_empty (btrim (or_else t.context ""))) && not (is_empty_list t.acceptance_criteria)

-- TaskRepository.findProjectPromotionRows: the rows of one project of the organization.
unfoldable pub find_project_promotion_rows : Db → ℕ → ℕ → List Task
find_project_promotion_rows db org_id project_id =
    filter (λ t. org_guard db org_id t.project_id && t.project_id == project_id) db.tasks

-- TaskRepository.bulkPromoteDraftsToReady
unfoldable pub bulk_promote_drafts_to_ready : ℕ → ℕ → List ℕ → ℕ → Action (List Task)
bulk_promote_drafts_to_ready now org_id ids status_changed_by =
    update_where now
      (λ db t. elem t.id ids && same_status t.status draft && org_guard db org_id t.project_id)
      (λ t. record t {
        status = ready;
        claimed_by = none;
        claimed_at = none;
        status_changed_by = some status_changed_by;
        status_changed_at = some now;
      })

-- NotificationService.create
unfoldable pub create_notification : Notification → Action (Unit {0})
unfolding modify
create_notification n = modify λ db. record db { notifications = db.notifications ++ n ∷ [] }
