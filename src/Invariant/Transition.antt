-- ===== src/Invariant/Transition.antt =====
-- The swap of a transition keeps the invariant.
use specbook.Base.{ℕ, ◌≡◌, ◌≢◌, sym, Bool, true, false, ◌&&◌, arith, ◌==◌}
use mathlib.Core.Path.{subst}
use specbook.Rows.{Task, Actor, user, agent, Status}
use specbook.Protocol.{
  includes, agent_task_transitions, human_task_transitions, assignee_task_transitions,
  autonomous_task_transitions,
}
use specbook.Protocol.Moves.{moves_change_status}
use specbook.Action.{Db}
use specbook.Action.Keeps.{Keeps-pure, bind_at}
use specbook.Session.{Session}
use specbook.TaskRepository.{cas_update_status}
use specbook.TaskService.Plan.{TransitionRequest, TransitionPlan, moves_of, status_patch}
use specbook.Invariant.{IsValid, ClaimOk}
use specbook.Invariant.Statements.{KeepsRow, update_where_at}
use specbook.Invariant.Access.{require_task_row}
use specbook.Invariant.Planned.{Planned}
use specbook.Handlers.Edits.{plain}

-- Every map is a part of the autonomous one.
pub moves_within_autonomous :
    (actor : Actor) (dispatches executor : Bool) (from to : Status)
    → includes to (moves_of actor dispatches executor from) ≡ true
    → includes to (autonomous_task_transitions from) ≡ true
unfolding moves_of agent_task_transitions human_task_transitions assignee_task_transitions
    autonomous_task_transitions
moves_within_autonomous agent true executor from to h = h
moves_within_autonomous agent false executor from to h = ground arith
moves_within_autonomous user dispatches true from to h = ground arith
moves_within_autonomous user dispatches false from to h = ground arith

-- Every move of every actor goes to another status.
pub moved_away :
    (actor : Actor) (dispatches executor : Bool) (from to : Status)
    → includes to (moves_of actor dispatches executor from) ≡ true
    → from ≢ to
moved_away actor dispatches executor from to h =
    let within = moves_within_autonomous actor dispatches executor from to h in
    moves_change_status from to (ground arith)

-- Every move of the autonomous map leaves the claim as the new status wants it.
pub status_patch-ClaimOk :
    (s : Session) (t : Task) (to : Status)
    → includes to (autonomous_task_transitions t.status) ≡ true
    → ClaimOk t
    → ClaimOk (status_patch s t to t)
unfolding status_patch autonomous_task_transitions
status_patch-ClaimOk s t to allowed h = ground arith

pub status_patch-KeepsRow :
    (s : Session) (current : Task) (to : Status) → KeepsRow (status_patch s current to)
unfolding status_patch
status_patch-KeepsRow s current to = plain _ (λ t. ground arith) (λ t. ground arith)

hit_id : (db : Db) (t : Task) (id : ℕ) (b c : Bool) → (t.id == id && b && c) ≡ true → t.id ≡ id
hit_id db t id b c h = ground arith

-- The swap of a plan keeps the invariant.
pub swap_at :
    (s : Session) (actor : Actor) (dto : TransitionRequest) (db : Db) (plan : TransitionPlan)
    → Planned s actor dto db plan
    → IsValid db
    → IsValid
        (cas_update_status s.now plan.current.id s.active_user.org_id plan.current.status
          (status_patch s plan.current dto.to)
          db).1
unfolding cas_update_status
swap_at s actor dto db plan p h =
    let row = require_task_row s.active_user dto.id true db p.found in
    bind_at IsValid _ _ db
      (update_where_at s.now _ (status_patch s plan.current dto.to)
        (status_patch-KeepsRow s plan.current dto.to) db
        (λ t m hit.
          subst (λ x. ClaimOk (status_patch s plan.current dto.to x))
            (sym (h.unique t plan.current m row.0 (hit_id db t plan.current.id _ _ hit)))
            (status_patch-ClaimOk s plan.current dto.to
              (moves_within_autonomous actor _ _ plan.current.status dto.to p.allowed)
              (h.claimed plan.current row.0)))
        h)
      (λ rows. Keeps-pure IsValid _)
