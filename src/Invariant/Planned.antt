-- ===== src/Invariant/Planned.antt =====
-- What `transition` has checked before it writes.
use specbook.Base.{◌≡◌, true, arith}
use specbook.Rows.{Actor}
use specbook.Protocol.{includes}
use specbook.Result.{ok}
use specbook.Action.{Db}
use specbook.Session.{Session}
use specbook.TaskService.Access.{require_task}
use specbook.TaskService.Plan.{
  TransitionRequest, TransitionPlan, plan_transition, moves_of, gates, trimmed,
  is_assignee_executor, project_allows_agent_dispatch,
}

-- What a plan has checked.
pub record Planned (s : Session) (actor : Actor) (dto : TransitionRequest) (db : Db)
    (plan : TransitionPlan) : Type 0 where
  pub found : require_task s.active_user dto.id true db ≡ ok plan.current
  pub allowed :
      includes dto.to (
        moves_of actor
          (project_allows_agent_dispatch db plan.current.project_id s.active_user.org_id)
          (is_assignee_executor actor plan.current s.active_user)
          plan.current.status)
      ≡ true
  pub gated :
      gates db actor
        (is_assignee_executor actor plan.current s.active_user)
        plan.current
        dto.to
        plan.comment
      ≡ ok tt
  pub trims : plan.comment ≡ trimmed dto.comment

pub plan_transition-Planned :
    (s : Session) (actor : Actor) (dto : TransitionRequest) (db : Db) (plan : TransitionPlan)
    → plan_transition s actor dto db ≡ ok plan
    → Planned s actor dto db plan
unfolding plan_transition
plan_transition-Planned s actor dto db plan h = ground arith
