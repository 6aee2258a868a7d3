-- ===== src/Examples/Requests.antt =====
-- Examples of the properties of the cycle check, of the queue, of `markReady`, of the automation and
-- of the system as a whole.
use specbook.TaskService.PrPlan.{plan_merge}
use specbook.TaskService.Access.{require_task}
use specbook.TaskRepository.{find_task, update_where, update, cas_update_status}
use specbook.Action.{pure, gets, check, or_raise, ◌>>◌}
use specbook.Base.{
  ℕ, Bool, true, none, some, List, [], ◌∷◌, ◌≡◌, ◌≢◌, refl, Memᴰ, ◌≤◌, ◌↔◌, ◌||◌, length,
}
use specbook.Rows.{Dependency, in_progress, agent, autonomous, user, cancelled}
use specbook.Protocol.{
  includes, autonomous_task_transitions, agent_task_transitions, human_task_transitions,
  assignee_task_transitions, grants_auto_merge, grants_auto_approve, merge_debt_cap,
}
use specbook.Protocol.Moves.{autonomous_is_union, moves_change_status}
use specbook.Result.{ok}
use specbook.ProjectRepository.{find_project, member_scope, org_guard}
use specbook.TaskRepository.Queue.{
  ListTasksFilter, find_for_org, matches, no_unfinished_dependencies, under_project_throttles,
  under_merge_debt_cap, under_budget_cap, is_available, row_matches, order,
}
use specbook.TaskRepository.Queue.Listing.{IsQueue, find_for_org-IsQueue}
use specbook.TaskRepository.Queue.Available.{IsWorkable, available-IsWorkable}
use specbook.TaskService.Cycle.{would_cycle}
use specbook.TaskService.Cycle.Reach.{Reaches}
use specbook.TaskService.Cycle.Walk.{would_cycle_decides}
use specbook.TaskService.MarkReady.{
  reachable_drafts, Scope, promote_ids, draft_ids, target_ids, is_dispatchable,
}
use specbook.TaskService.MarkReady.Selection.{promote_ids_exact}
use specbook.TaskService.MarkReady.Walk.{Needed, reachable_drafts_exact}
use specbook.TaskService.Merge.{
  maybe_auto_progress, maybe_open_review_pr, finalize_merged, merge, auto_step, merge_unflagged,
  after_approval, run_auto_step,
}
use specbook.Invariant.{IsValid}
use specbook.Workflow.Automation.{flagged_is_not_merged, autonomous_opens_no_pr}
use specbook.System.{Request, serve, Run, idle, served}
use specbook.System.Safety.{Run-IsValid}
use specbook.Examples.{
  world, world-IsValid, by_owner, by_agent, flagged, finished, queued, in_autonomous, project_of,
}

autonomous_is_union_example : includes cancelled (autonomous_task_transitions in_progress) ≡ (
    includes cancelled (agent_task_transitions in_progress)
    || includes cancelled (human_task_transitions in_progress))
autonomous_is_union_example = autonomous_is_union in_progress cancelled

cancels_at_work :
    (includes cancelled (agent_task_transitions in_progress)
      || includes cancelled (human_task_transitions in_progress)
      || includes cancelled (assignee_task_transitions in_progress)
      || includes cancelled (autonomous_task_transitions in_progress))
    ≡ true
unfolding agent_task_transitions human_task_transitions
cancels_at_work = refl

moves_change_status_example : in_progress ≢ cancelled
moves_change_status_example = moves_change_status in_progress cancelled cancels_at_work

abbrev chain : List Dependency
chain =
    record { task_id = 1; depends_on_task_id = 2 }
    ∷ record { task_id = 2; depends_on_task_id = 3 }
    ∷ []

would_cycle_decides_example :
    (b : Bool) × (would_cycle chain 3 1 ≡ some b) × ((b ≡ true) ↔ Reaches chain 1 3)
would_cycle_decides_example = would_cycle_decides chain 3 1

reachable_drafts_exact_example :
    (r : List ℕ) × (reachable_drafts chain (1 ∷ 3 ∷ []) (1 ∷ []) ≡ some r)
    × ((n : ℕ) → Memᴰ n r ↔ Needed chain (1 ∷ 3 ∷ []) (1 ∷ []) n)
reachable_drafts_exact_example = reachable_drafts_exact chain (1 ∷ 3 ∷ []) (1 ∷ [])

promote_ids_exact_example :
    (ids : List ℕ) × (promote_ids world.tasks world.dependencies Scope.project ≡ some ids)
    × ((n : ℕ)
        → Memᴰ n ids ↔ (
            Needed world.dependencies
              (draft_ids world.tasks)
              (target_ids Scope.project world.tasks)
              n
            × (is_dispatchable world.tasks n ≡ true)))
promote_ids_exact_example = promote_ids_exact world.tasks world.dependencies Scope.project

-- The queue of the agents.
abbrev available : ListTasksFilter
available = record {
  skip = 0;
  limit = 20;
  project_id = none;
  status = none;
  available = true;
  assignee_id = none;
}

find_for_org-IsQueue_example :
    IsQueue (find_for_org 0 world 1 available none).rows
    × (length (find_for_org 0 world 1 available none).rows ≤ 20)
find_for_org-IsQueue_example = find_for_org-IsQueue 0 world 1 available none

queued_matches : matches 0 world 1 available none queued ≡ true
unfolding merge_debt_cap member_scope no_unfinished_dependencies under_project_throttles
    under_merge_debt_cap under_budget_cap is_available row_matches matches order find_for_org
queued_matches = refl

available-IsWorkable_example : IsWorkable world 1 queued
available-IsWorkable_example =
    available-IsWorkable 0 world 1 available none queued refl queued_matches

-- The automation leaves the task that is done already, and does not merge the flagged one.
finished_stays : Memᴰ finished (maybe_auto_progress by_agent flagged world).1.tasks
unfolding grants_auto_merge grants_auto_approve pure gets check or_raise ◌>>◌ member_scope
    find_project org_guard find_task update_where update cas_update_status require_task plan_merge
    finalize_merged merge auto_step merge_unflagged after_approval run_auto_step maybe_auto_progress
finished_stays =
    Memᴰ.tail
      (Memᴰ.tail (Memᴰ.tail (Memᴰ.tail (Memᴰ.tail (Memᴰ.tail (Memᴰ.tail (Memᴰ.head refl)))))))

flagged_is_not_merged_example : Memᴰ finished world.tasks
flagged_is_not_merged_example =
    flagged_is_not_merged by_agent flagged refl world finished finished_stays refl

autonomous_project :
    find_project world in_autonomous.project_id 1 none ≡ some (project_of 30 autonomous)
unfolding find_project specbook.ProjectRepository.member_scope
autonomous_project = refl

autonomous_opens_no_pr_example : maybe_open_review_pr by_agent in_autonomous world ≡ (ok tt, world)
autonomous_opens_no_pr_example =
    autonomous_opens_no_pr by_agent in_autonomous world (project_of 30 autonomous)
      autonomous_project refl

-- A session of requests: an agent claims a task, the owner cancels it and promotes the drafts.
abbrev claim : Request
claim = Request.transition agent (record { id = 6; to = in_progress; comment = none })

abbrev cancel : Request
cancel = Request.transition user (record { id = 6; to = cancelled; comment = none })

session : Run world (serve by_owner cancel (serve by_agent claim world))
session = served (served idle by_agent claim tt) by_owner cancel tt

Run-IsValid_example : IsValid (serve by_owner cancel (serve by_agent claim world))
Run-IsValid_example = Run-IsValid session world-IsValid
