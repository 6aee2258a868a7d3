-- ===== src/Examples/Runs.antt =====
-- Runs of the handlers on the tables of Examples.antt, and the properties that they exercise.
use specbook.TaskService.PrPlan.{plan_merge}
use specbook.TaskService.Access.{require_task, assert_assignable_to_project}
use specbook.Base.{
  true, false, none, some, List, [], ◌∷◌, ◌≡◌, ◌≢◌, refl, Memᴰ, holds, or_else, ◌+◌, arith,
  has_text, ◌⊎◌,
}
use specbook.Rows.{
  Task, TaskComment, in_progress, needs_review, ready, cancelled, user, agent, done, merged,
  approved,
}
use specbook.Protocol.{
  includes, terminal_task_statuses, is_terminal, grants_auto_merge, grants_auto_approve,
  agent_task_transitions, human_task_transitions, autonomous_task_transitions,
  grants_agent_dispatch,
}
use specbook.Result.{Result, ok, err, invalid_transition, database_error}
use specbook.Action.{
  Db, pure, gets, check, or_raise, ◌>>◌, raise, raise_if, ◌>>=◌, attempt, when, for_each,
}
use specbook.ProjectRepository.{find_project, member_scope, org_guard}
use specbook.TaskRepository.{
  has_unacked_notes, CostDelta, stamp, find_task, update_where, update, cas_update_status, add_cost,
  create_comment, find_non_terminal_dependents, detach_dependents, task_in_org, ack_notes,
}
use specbook.TaskService.Plan.{
  TransitionRequest, TransitionPlan, plan_transition, passes_review_gate, passes_dispatch_gate,
  trimmed, status_patch, project_allows_agent_dispatch, moves_of, gates,
}
use specbook.TaskService.Transition.{
  transition, commit_transition, lost_race, after_swap, late_comment, tell_dependent,
  detach_cancelled_dependents, notify_court,
}
use specbook.TaskService.Merge.{
  merge, maybe_auto_progress, auto_step, finalize_merged, merge_unflagged, after_approval,
  run_auto_step,
}
use specbook.TaskService.Edits.{get_notes, report_cost}
use specbook.Invariant.{IsValid}
use specbook.Workflow.Outcome.{swapped}
use specbook.Workflow.Failure.{transition_err}
use specbook.Workflow.Claims.{Holder, transition_ok}
use specbook.Workflow.Actors.{
  agent_never_judges, agent_handoff, dispatched_is_specified, agent_statuses,
}
use specbook.Workflow.Race.{second_swap_loses}
use specbook.Workflow.Cancel.{cancelled_blocks_nothing, cancel_keeps_other_edges}
use specbook.Invariant.Check.{passes_check, passes_check-IsValid}
use specbook.TaskService.Cycle.{would_cycle, search_loop}
use specbook.Workflow.Bookkeeping.{get_notes-clears, report_cost-adds}
use specbook.Workflow.MergeGate.{merge_ok, IsMergeable}
use specbook.Examples.{
  world, noted, world-IsValid, by_owner, by_agent, at_work, specified, unflagged, queued,
  note_to_agent, finished,
}

abbrev task_of : Result Task → Task
task_of (ok t) = t
task_of (err e) = at_work

abbrev comments_of : Result (List TaskComment) → List TaskComment
comments_of (ok rows) = rows
comments_of (err e) = []

abbrev plan_of : Result TransitionPlan → TransitionPlan
plan_of (ok plan) = plan
plan_of (err e) = record { current = at_work; comment = none }

-- An agent hands over its work.
abbrev hand_over : TransitionRequest
hand_over = record { id = 1; to = needs_review; comment = some "Done." }

abbrev handed_over : Task
handed_over = record at_work {
  status = needs_review;
  status_changed_by = some 6;
  status_changed_at = some 101;
  updated_at = 101;
}

hand_over_runs : (transition by_agent agent hand_over world).0 ≡ ok handed_over
unfolding has_text agent_task_transitions human_task_transitions autonomous_task_transitions
    terminal_task_statuses grants_agent_dispatch pure raise gets check or_raise raise_if ◌>>=◌ ◌>>◌
    attempt when for_each member_scope find_project org_guard find_task stamp update_where update
    cas_update_status add_cost create_comment has_unacked_notes find_non_terminal_dependents
    detach_dependents require_task assert_assignable_to_project project_allows_agent_dispatch
    moves_of trimmed passes_dispatch_gate passes_review_gate gates status_patch plan_transition
    late_comment tell_dependent detach_cancelled_dependents notify_court after_swap
    commit_transition transition
hand_over_runs = refl

in_manual_project :
    specbook.TaskService.Plan.project_allows_agent_dispatch world handed_over.project_id 1 ≡ false
unfolding agent_task_transitions autonomous_task_transitions grants_agent_dispatch member_scope
    find_project org_guard find_task require_task project_allows_agent_dispatch moves_of trimmed
    gates plan_transition
in_manual_project = refl

agent_never_judges_example : includes handed_over.status agent_statuses ≡ true
agent_never_judges_example =
    agent_never_judges by_agent hand_over world world-IsValid hand_over_runs in_manual_project

agent_handoff_example :
    (passes_review_gate (trimmed hand_over.comment) handed_over ≡ true)
    × (has_unacked_notes world handed_over.id ≡ false)
agent_handoff_example = agent_handoff by_agent hand_over world world-IsValid hand_over_runs refl

transition_ok_example :
    (handed_over.id ≡ 1)
    × (handed_over.status ≡ needs_review)
    × (at_work.status ≢ needs_review)
    × (handed_over.status_changed_by ≡ some 6)
    × (handed_over.status_changed_at ≡ some 101)
    × Holder 6 needs_review at_work.claimed_by handed_over.claimed_by
transition_ok_example =
    transition_ok by_agent agent hand_over world world-IsValid hand_over_runs (Memᴰ.head refl) refl

-- An agent may not approve.
abbrev approve_own : TransitionRequest
approve_own = record { id = 1; to = approved; comment = none }

approve_own_fails : (transition by_agent agent approve_own world).0 ≡ err invalid_transition
unfolding has_text agent_task_transitions autonomous_task_transitions terminal_task_statuses
    grants_agent_dispatch pure raise gets check or_raise raise_if ◌>>=◌ ◌>>◌ attempt when for_each
    member_scope find_project org_guard find_task stamp update_where update cas_update_status
    add_cost create_comment has_unacked_notes find_non_terminal_dependents detach_dependents
    require_task assert_assignable_to_project project_allows_agent_dispatch moves_of trimmed
    passes_dispatch_gate passes_review_gate gates status_patch plan_transition
    detach_cancelled_dependents notify_court after_swap commit_transition transition
approve_own_fails = refl

transition_err_example :
    ((transition by_agent agent approve_own world).1 ≡ world)
    ⊎ (invalid_transition ≡ database_error)
transition_err_example = transition_err by_agent agent approve_own world approve_own_fails

-- The owner dispatches a draft.
abbrev dispatch : TransitionRequest
dispatch = record { id = 2; to = ready; comment = none }

abbrev dispatched : Task
dispatched = record specified {
  status = ready;
  status_changed_by = some 5;
  status_changed_at = some 100;
  updated_at = 100;
}

dispatch_runs : (transition by_owner user dispatch world).0 ≡ ok dispatched
unfolding has_text agent_task_transitions human_task_transitions autonomous_task_transitions
    terminal_task_statuses grants_agent_dispatch pure raise gets check or_raise raise_if ◌>>=◌ ◌>>◌
    attempt when for_each member_scope find_project org_guard find_task stamp update_where update
    cas_update_status add_cost create_comment has_unacked_notes find_non_terminal_dependents
    detach_dependents require_task assert_assignable_to_project project_allows_agent_dispatch
    moves_of trimmed passes_dispatch_gate passes_review_gate gates status_patch plan_transition
    late_comment tell_dependent detach_cancelled_dependents notify_court after_swap
    commit_transition transition
dispatch_runs = refl

dispatched_is_specified_example : passes_dispatch_gate dispatched ≡ true
dispatched_is_specified_example =
    dispatched_is_specified by_owner user dispatch world world-IsValid dispatch_runs
      (Memᴰ.tail (Memᴰ.head refl)) refl refl refl

-- The owner cancels the work that the draft waits for.
abbrev cancel : TransitionRequest
cancel = record { id = 1; to = cancelled; comment = none }

abbrev gone : Task
gone = record at_work {
  status = cancelled;
  status_changed_by = some 5;
  status_changed_at = some 100;
  updated_at = 100;
}

cancel_runs : (transition by_owner user cancel world).0 ≡ ok gone
unfolding has_text agent_task_transitions human_task_transitions autonomous_task_transitions
    terminal_task_statuses grants_agent_dispatch pure raise gets check or_raise raise_if ◌>>=◌ ◌>>◌
    attempt when for_each member_scope find_project org_guard find_task stamp update_where update
    cas_update_status add_cost create_comment has_unacked_notes find_non_terminal_dependents
    detach_dependents require_task assert_assignable_to_project project_allows_agent_dispatch
    moves_of trimmed passes_dispatch_gate passes_review_gate gates status_patch plan_transition
    late_comment tell_dependent detach_cancelled_dependents notify_court after_swap
    commit_transition transition
cancel_runs = refl

-- A task that was done before still waits for the one that is gone.
abbrev past : Db
past = record world {
  dependencies =
      (record { task_id = 8; depends_on_task_id = 1 })
      ∷ (record { task_id = 2; depends_on_task_id = 6 })
      ∷ [];
  tasks = at_work ∷ specified ∷ queued ∷ record finished { project_id = 10 } ∷ [];
}

past-IsValid : IsValid past
unfolding passes_check would_cycle search_loop
past-IsValid = passes_check-IsValid past refl

severed_runs : (transition by_owner user cancel past).0 ≡ ok gone
unfolding has_text agent_task_transitions human_task_transitions autonomous_task_transitions
    terminal_task_statuses grants_agent_dispatch pure raise gets check or_raise raise_if ◌>>=◌ ◌>>◌
    attempt when for_each member_scope find_project org_guard find_task stamp update_where update
    cas_update_status add_cost create_comment has_unacked_notes find_non_terminal_dependents
    detach_dependents require_task assert_assignable_to_project project_allows_agent_dispatch
    moves_of trimmed passes_dispatch_gate passes_review_gate gates status_patch plan_transition
    late_comment tell_dependent detach_cancelled_dependents notify_court after_swap
    commit_transition transition
severed_runs = refl

past_edge_stays :
    Memᴰ
      (record { task_id = 8; depends_on_task_id = 1 })
      (transition by_owner user cancel past).1.dependencies
unfolding has_text agent_task_transitions human_task_transitions autonomous_task_transitions
    terminal_task_statuses grants_agent_dispatch pure raise gets check or_raise raise_if ◌>>=◌ ◌>>◌
    attempt when for_each member_scope find_project org_guard find_task stamp update_where update
    cas_update_status add_cost create_comment has_unacked_notes find_non_terminal_dependents
    detach_dependents require_task assert_assignable_to_project project_allows_agent_dispatch
    moves_of trimmed passes_dispatch_gate passes_review_gate gates status_patch plan_transition
    late_comment tell_dependent detach_cancelled_dependents notify_court after_swap
    commit_transition transition
past_edge_stays = Memᴰ.head refl

past_row_stays :
    Memᴰ (record finished { project_id = 10 }) (transition by_owner user cancel past).1.tasks
unfolding has_text agent_task_transitions human_task_transitions autonomous_task_transitions
    terminal_task_statuses grants_agent_dispatch pure raise gets check or_raise raise_if ◌>>=◌ ◌>>◌
    attempt when for_each member_scope find_project org_guard find_task stamp update_where update
    cas_update_status add_cost create_comment has_unacked_notes find_non_terminal_dependents
    detach_dependents require_task assert_assignable_to_project project_allows_agent_dispatch
    moves_of trimmed passes_dispatch_gate passes_review_gate gates status_patch plan_transition
    late_comment tell_dependent detach_cancelled_dependents notify_court after_swap
    commit_transition transition
past_row_stays = Memᴰ.tail (Memᴰ.tail (Memᴰ.tail (Memᴰ.head refl)))

cancelled_blocks_nothing_example : includes done terminal_task_statuses ≡ true
cancelled_blocks_nothing_example =
    cancelled_blocks_nothing by_owner user cancel past past-IsValid severed_runs refl
      (record finished { project_id = 10 }) (record { task_id = 8; depends_on_task_id = 1 })
      past_row_stays past_edge_stays refl refl

six_is_not_one : queued.id ≢ gone.id
six_is_not_one = omega arith

cancel_keeps_other_edges_example :
    Memᴰ
      (record { task_id = 2; depends_on_task_id = 6 })
      (transition by_owner user cancel past).1.dependencies
cancel_keeps_other_edges_example =
    cancel_keeps_other_edges by_owner user cancel past past-IsValid severed_runs refl
      (record { task_id = 2; depends_on_task_id = 6 }) (Memᴰ.tail (Memᴰ.head refl)) six_is_not_one

-- Two agents claim the same task.
abbrev claim : TransitionRequest
claim = record { id = 6; to = in_progress; comment = none }

abbrev claim_plan : TransitionPlan
claim_plan = record { current = queued; comment = none }

claim_planned : plan_transition by_agent agent claim world ≡ ok claim_plan
unfolding agent_task_transitions autonomous_task_transitions grants_agent_dispatch member_scope
    find_project org_guard find_task require_task project_allows_agent_dispatch moves_of trimmed
    gates plan_transition
claim_planned = refl

second_swap_loses_example :
    commit_transition by_agent agent claim.to claim_plan
      (swapped by_agent claim.to claim_plan world)
    ≡ (
      err (lost_race claim_plan.current.status claim.to),
      swapped by_agent claim.to claim_plan world,
    )
second_swap_loses_example =
    second_swap_loses by_agent by_agent agent agent claim claim world claim_plan claim_plan
      world-IsValid refl claim_planned claim_planned

-- The claimant reads its notes.
notes_run : (get_notes by_agent 1 noted).0 ≡ ok (record note_to_agent { acked_at = some 101 } ∷ [])
unfolding is_terminal pure check or_raise raise_if ◌>>◌ member_scope find_project org_guard
    find_task update_where add_cost task_in_org ack_notes require_task report_cost get_notes
notes_run = refl

get_notes-clears_example : has_unacked_notes (get_notes by_agent 1 noted).1 1 ≡ false
get_notes-clears_example = get_notes-clears by_agent 1 noted notes_run

abbrev spent : CostDelta
spent = record { tokens_in = some 100; tokens_out = none; usd_cents = some 5 }

abbrev billed : Task
billed = record at_work { cost_tokens_in = some 100; cost_usd_cents = some 45; updated_at = 101 }

cost_runs : (report_cost by_agent 1 spent world).0 ≡ ok billed
unfolding is_terminal pure check or_raise raise_if ◌>>◌ member_scope find_project org_guard
    find_task update_where add_cost task_in_org ack_notes require_task report_cost get_notes
cost_runs = refl

report_cost-adds_example :
    (row : Task) × Memᴰ row world.tasks
    × (row.id ≡ 1)
    × (holds row.claimed_by 6 ≡ true)
    × (is_terminal row.status ≡ false)
    × (or_else billed.cost_tokens_in 0 ≡ or_else row.cost_tokens_in 0 + or_else spent.tokens_in 0)
    × (or_else billed.cost_tokens_out 0
        ≡ or_else row.cost_tokens_out 0 + or_else spent.tokens_out 0)
    × (or_else billed.cost_usd_cents 0 ≡ or_else row.cost_usd_cents 0 + or_else spent.usd_cents 0)
report_cost-adds_example = report_cost-adds by_agent 1 spent world world-IsValid cost_runs

-- The owner merges a task whose pull request is merged already.
merge_runs : (merge by_owner 5 world).0 ≡ ok (task_of (merge by_owner 5 world).0)
unfolding grants_auto_merge grants_auto_approve pure gets check or_raise ◌>>◌ member_scope
    find_project org_guard find_task update_where update cas_update_status require_task plan_merge
    finalize_merged merge auto_step merge_unflagged after_approval run_auto_step maybe_auto_progress
merge_runs = refl

merge_ok_example :
    (cur : Task) × Memᴰ cur world.tasks
    × (cur.id ≡ 5)
    × IsMergeable by_owner world cur (task_of (merge by_owner 5 world).0).pr_number
    × ((task_of (merge by_owner 5 world).0).id ≡ 5)
    × ((task_of (merge by_owner 5 world).0).status ≡ done)
    × ((task_of (merge by_owner 5 world).0).pr_state ≡ some merged)
merge_ok_example = merge_ok by_owner 5 world world-IsValid merge_runs

-- The automation approves and merges a task in review, in a project that runs on its own.
abbrev progressed : Task
progressed = record unflagged {
  status = done;
  pr_state = some merged;
  pr_synced_at = some 101;
  status_changed_by = some 6;
  status_changed_at = some 101;
  updated_at = 101;
}
