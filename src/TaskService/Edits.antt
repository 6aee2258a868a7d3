-- ===== src/TaskService/Edits.antt =====
-- The methods of apps/api/src/tasks/task.service.ts that edit one task and leave its status alone:
-- `create`, `update`, `agentUpdateSpec`, `checkCriterion`, `reportCost`, `setAssumption`,
-- `clearAssumption`, `addComment`, `getNotes`, `delete`.
use specbook.Base.{
  ℕ, zero, suc, String, Bool, true, false, Option, none, some, List, [], ◌∷◌, map, length, not, leb,
  ◌&&◌, ◌||◌, is_some, is_none, holds, or_else, same_text, concat, if◌then◌else◌,
}
use specbook.Rows.{
  Task, TaskComment, Criterion, AssumptionFlag, draft, in_progress, Actor, CommentKind, note,
  comment, merged,
}
use specbook.Protocol.{same_status, is_terminal, is_pr_state}
use specbook.Result.{
  not_found, terminal_task, not_editable, criterion_not_found, cost_not_claimant,
  assumption_not_claimant, note_human_only, note_not_in_progress, notes_not_claimant,
  only_draft_deletable,
}
use specbook.Action.{Action, pure, check, or_raise, raise_if, ◌>>=◌, ◌>>◌, when, for_each}
use specbook.Session.{Session}
use specbook.TaskRepository.{
  update, add_cost, CostDelta, insert_task, delete_task, create_comment, ack_notes,
}
use specbook.TaskService.Access.{require_task, assign_gate, plan_create}
use specbook.TaskService.Plan.{is_agent_actor}
use specbook.TaskService.Merge.{new_comment}
use specbook.TaskService.Dependencies.{add_dependency}

pub record CreateTaskRequest : Type 0 where
  pub project_id : ℕ
  pub title : String
  pub context : Option String
  pub out_of_scope : Option String
  pub area : Option String
  pub acceptance_criteria : List String
  pub priority : Option ℕ
  pub is_human_task : Option Bool
  pub assignee : Option ℕ
  pub depends_on : List ℕ

abbrev pub unticked : String → Criterion
unticked text = record { text = text; done = false }

-- The row that `create` inserts; the database makes the identifier and fills in the defaults.
unfoldable pub new_task : Session → ℕ → CreateTaskRequest → Task
new_task s id dto = record {
  id = id;
  project_id = dto.project_id;
  title = dto.title;
  context = dto.context;
  out_of_scope = dto.out_of_scope;
  area = dto.area;
  acceptance_criteria = map unticked dto.acceptance_criteria;
  status = draft;
  priority = or_else dto.priority 0;
  claimed_by = none;
  claimed_at = none;
  assignee = dto.assignee;
  branch = none;
  pr_url = none;
  pr_state = none;
  pr_number = none;
  ci_state = none;
  ci_failure_kind = none;
  ci_retried_sha = none;
  pr_synced_at = none;
  is_human_task = or_else dto.is_human_task false;
  cost_tokens_in = none;
  cost_tokens_out = none;
  cost_usd_cents = none;
  status_changed_by = none;
  status_changed_at = none;
  assumption_flag = none;
  source_research_id = none;
  created_by = s.active_user.user_id;
  created_at = s.now;
  updated_at = s.now;
}

-- `create`. A bad prerequisite throws, and the draft stays.
unfoldable pub create : Session → ℕ → CreateTaskRequest → Action Task
create s new_id dto = do
  check (plan_create s.active_user dto.project_id dto.assignee)
  insert_task (new_task s new_id dto)
  for_each dto.depends_on (λ prerequisite. add_dependency s new_id prerequisite)
  pure (new_task s new_id dto)

-- A field that the request leaves out is `none`; one that it sets to null is `some none`.
pub record UpdateTaskRequest : Type 0 where
  pub id : ℕ
  pub title : Option String
  pub context : Option (Option String)
  pub out_of_scope : Option (Option String)
  pub area : Option (Option String)
  pub acceptance_criteria : Option (List Criterion)
  pub priority : Option ℕ
  pub branch : Option (Option String)
  pub pr_url : Option (Option String)
  pub is_human_task : Option Bool
  pub assignee : Option (Option ℕ)

-- The request names no column. One that names the link sets it, so that the patch is not empty.
abbrev pub sets_nothing : UpdateTaskRequest → Bool
sets_nothing dto =
    is_none dto.title
    && is_none dto.context
    && is_none dto.out_of_scope
    && is_none dto.area
    && is_none dto.acceptance_criteria
    && is_none dto.priority
    && is_none dto.branch
    && is_none dto.pr_url
    && is_none dto.is_human_task
    && is_none dto.assignee

-- `dto.prUrl !== undefined && dto.prUrl !== current.prUrl`
abbrev pub links_new_pr : UpdateTaskRequest → Task → Bool
links_new_pr dto current = elim dto.pr_url [
  | none ↦ false
  | some url ↦ not (same_text url current.pr_url)
]

unfoldable pub starts_new_round : UpdateTaskRequest → Task → Bool
starts_new_round dto current =
    links_new_pr dto current && is_some current.pr_url && is_pr_state current.pr_state merged

abbrev pub apply_update : UpdateTaskRequest → Task → Task
apply_update dto t = record t {
  title = or_else dto.title t.title;
  context = or_else dto.context t.context;
  out_of_scope = or_else dto.out_of_scope t.out_of_scope;
  area = or_else dto.area t.area;
  acceptance_criteria = or_else dto.acceptance_criteria t.acceptance_criteria;
  priority = or_else dto.priority t.priority;
  branch = or_else dto.branch t.branch;
  pr_url = or_else dto.pr_url t.pr_url;
  is_human_task = or_else dto.is_human_task t.is_human_task;
  assignee = or_else dto.assignee t.assignee;
}

-- A new PR starts with no state of the old one.
abbrev pub forget_pr : Task → Task
forget_pr t = record t {
  pr_state = none;
  pr_number = none;
  ci_state = none;
  ci_failure_kind = none;
  ci_retried_sha = none;
  pr_synced_at = none;
}

unfoldable pub update_patch : UpdateTaskRequest → Task → Task → Task
update_patch dto current t =
    if links_new_pr dto current then forget_pr (apply_update dto t) else apply_update dto t

abbrev pub named_assignee : Option (Option ℕ) → Option ℕ
named_assignee none = none
named_assignee (some a) = a

-- `update`
unfoldable pub update_task : Session → Actor → UpdateTaskRequest → Action Task
update_task s actor dto = do
  current ← check (require_task s.active_user dto.id true)
  raise_if (is_terminal current.status) terminal_task
  check (assign_gate s.active_user.org_id current.project_id (named_assignee dto.assignee))
  when (starts_new_round dto current) (
      create_comment (
        new_comment s dto.id actor comment (
          concat (
            "Previous round: branch "
            ∷ or_else current.branch "—"
            ∷ ", PR "
            ∷ or_else current.pr_url "null"
            ∷ " — merged."
            ∷ []))))
  row ←
      update s.now dto.id s.active_user.org_id
        (if sets_nothing dto then none else some (update_patch dto current))
  or_raise not_found row

pub record SpecRequest : Type 0 where
  pub id : ℕ
  pub title : Option String
  pub context : Option String
  pub out_of_scope : Option String
  pub area : Option String
  pub acceptance_criteria : Option (List String)

abbrev pub shapes_nothing : SpecRequest → Bool
shapes_nothing dto =
    is_none dto.title
    && is_none dto.context
    && is_none dto.out_of_scope
    && is_none dto.area
    && is_none dto.acceptance_criteria

abbrev set_text : Option String → Option String → Option String
set_text none old = old
set_text (some text) old = some text

abbrev set_criteria : Option (List String) → List Criterion → List Criterion
set_criteria none old = old
set_criteria (some texts) old = map unticked texts

unfoldable pub spec_patch : SpecRequest → Task → Task
spec_patch dto t = record t {
  title = or_else dto.title t.title;
  context = set_text dto.context t.context;
  out_of_scope = set_text dto.out_of_scope t.out_of_scope;
  area = set_text dto.area t.area;
  acceptance_criteria = set_criteria dto.acceptance_criteria t.acceptance_criteria;
}

-- The spec is the agent's to shape: a draft, or the work that this agent has claimed.
unfoldable pub is_editable : Session → Task → Bool
is_editable s t =
    same_status t.status draft
    || (same_status t.status in_progress && holds t.claimed_by s.active_user.user_id)

-- `agentUpdateSpec`
unfoldable pub agent_update_spec : Session → SpecRequest → Action Task
agent_update_spec s dto = do
  current ← check (require_task s.active_user dto.id true)
  raise_if (not (is_editable s current)) not_editable
  row ←
      update s.now dto.id s.active_user.org_id
        (if shapes_nothing dto then none else some (spec_patch dto))
  or_raise not_found row

-- `criteria.map((c, i) => i === index ? { ...c, done } : c)`
unfoldable pub tick : List Criterion → ℕ → Bool → List Criterion
tick [] index done = []
tick (c ∷ rest) zero done = record c { done = done } ∷ rest
tick (c ∷ rest) (suc index) done = c ∷ tick rest index done

-- `checkCriterion`
unfoldable pub check_criterion : Session → ℕ → ℕ → Bool → Action Task
unfolding tick
check_criterion s id index done = do
  current ← check (require_task s.active_user id true)
  raise_if (is_terminal current.status) terminal_task
  raise_if (leb (length current.acceptance_criteria) index) criterion_not_found
  row ←
      update s.now id s.active_user.org_id
        (some (λ t. record t { acceptance_criteria = tick current.acceptance_criteria index done }))
  or_raise not_found row

-- `reportCost`
unfoldable pub report_cost : Session → ℕ → CostDelta → Action Task
report_cost s id delta = do
  current ← check (require_task s.active_user id true)
  raise_if (is_terminal current.status) terminal_task
  raise_if (not (holds current.claimed_by s.active_user.user_id)) cost_not_claimant
  row ← add_cost s.now id s.active_user.org_id delta
  or_raise not_found row

-- `setAssumption`
unfoldable pub set_assumption : Session → Actor → ℕ → AssumptionFlag → Action Task
set_assumption s actor id flag = do
  current ← check (require_task s.active_user id true)
  raise_if (is_terminal current.status) terminal_task
  raise_if (is_agent_actor actor && not (holds current.claimed_by s.active_user.user_id))
      assumption_not_claimant
  row ← update s.now id s.active_user.org_id (some (λ t. record t { assumption_flag = some flag }))
  or_raise not_found row

-- `clearAssumption`
unfoldable pub clear_assumption : Session → ℕ → Action Task
clear_assumption s id = do
  _ ← check (require_task s.active_user id true)
  row ← update s.now id s.active_user.org_id (some (λ t. record t { assumption_flag = none }))
  or_raise not_found row

abbrev is_note_kind : CommentKind → Bool
is_note_kind note = true
is_note_kind _ = false

-- `addComment`
unfoldable pub add_comment : Session → Actor → ℕ → CommentKind → String → Action TaskComment
add_comment s actor id kind body = do
  current ← check (require_task s.active_user id true)
  raise_if (is_note_kind kind && is_agent_actor actor) note_human_only
  raise_if (is_note_kind kind && not (same_status current.status in_progress)) note_not_in_progress
  create_comment (new_comment s id actor kind body)
  pure (new_comment s id actor kind body)

-- `getNotes`
unfoldable pub get_notes : Session → ℕ → Action (List TaskComment)
get_notes s id = do
  current ← check (require_task s.active_user id false)
  raise_if (not (holds current.claimed_by s.active_user.user_id)) notes_not_claimant
  ack_notes s.now id s.active_user.org_id

-- `delete`
unfoldable pub delete : Session → ℕ → Action (Unit {0})
delete s id = do
  current ← check (require_task s.active_user id true)
  raise_if (not (same_status current.status draft)) only_draft_deletable
  delete_task id s.active_user.org_id
