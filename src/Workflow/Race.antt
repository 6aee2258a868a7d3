-- ===== src/Workflow/Race.antt =====
-- Two requests that have read the same row race for it: the swap of one makes the other lose.
use specbook.Base.{◌≡◌, sym, ap, ◌∙◌, true, Memᴰ, Memᴰ-set_where, if◌then◌else◌, arith}
use specbook.Rows.{Task, Actor, Status}
use specbook.Result.{ok, err}
use specbook.Action.{Db}
use specbook.Session.{Session}
use specbook.TaskRepository.{stamp}
use specbook.TaskService.Plan.{TransitionRequest, TransitionPlan, plan_transition, status_patch}
use specbook.TaskService.Transition.{commit_transition, lost_race}
use specbook.Invariant.{IsValid}
use specbook.Invariant.Access.{require_task_row}
use specbook.Invariant.Planned.{Planned, plan_transition-Planned}
use specbook.Invariant.Transition.{moved_away}
use specbook.Workflow.Outcome.{won, lost, commit_cases, swapped, swap_hits, plan_hits}
use specbook.Workflow.Actors.{patched}

module _ (s : Session) (plan : TransitionPlan) (to : Status) (db : Db) (x : Task) where
  abbrev after : Task
  after = if swap_hits s plan db x then stamp s.now (status_patch s plan.current to) x else x

  kept_id : after.id ≡ x.id
  unfolding stamp status_patch
  kept_id = ground arith

  hit_status : x ≡ plan.current → swap_hits s plan db plan.current ≡ true → after.status ≡ to
  hit_status same hit = rw same (rw hit (patched s plan.current to s.now).0)

-- After the first swap the row has another status than the second plan wants.
row_moved :
    (s1 s2 : Session) (actor1 actor2 : Actor) (dto1 dto2 : TransitionRequest) (db : Db)
    (plan1 plan2 : TransitionPlan)
    → IsValid db
    → dto1.id ≡ dto2.id
    → Planned s1 actor1 dto1 db plan1
    → Planned s2 actor2 dto2 db plan2
    → (row : Task) → Memᴰ row (swapped s1 dto1.to plan1 db).tasks
    → row.id ≡ plan2.current.id
    → ¬ (row.status ≡ plan2.current.status)
row_moved s1 s2 actor1 actor2 dto1 dto2 db plan1 plan2 h same p1 p2 row m id status =
    let (m1, id1) = require_task_row s1.active_user dto1.id true db p1.found in
    let (m2, id2) = require_task_row s2.active_user dto2.id true db p2.found in
    let one = h.unique plan2.current plan1.current m2 m1 (id2 ∙ sym same ∙ sym id1) in
    let hit = plan_hits s1 actor1 dto1 db plan1 p1 in
    let (x, mx, ex) = Memᴰ-set_where (swap_hits s1 plan1 db) _ row db.tasks m in
    let old = h.unique x plan1.current mx m1 (
      sym (kept_id s1 plan1 dto1.to db x)
      ∙ sym (ap (λ (t : Task). t.id) ex)
      ∙ id
      ∙ ap (λ (t : Task). t.id) one) in
    moved_away actor1 _ _ plan1.current.status dto1.to p1.allowed (
      ap (λ (t : Task). t.status) (sym one)
      ∙ sym status
      ∙ ap (λ (t : Task). t.status) ex
      ∙ hit_status s1 plan1 dto1.to db x old hit)

-- Where two requests have checked a move of one task against the same tables, the swap of the first
-- makes the second throw, and what the second leaves is what the first has written.
pub second_swap_loses :
    (s1 s2 : Session) (actor1 actor2 : Actor) (dto1 dto2 : TransitionRequest) (db : Db)
    (plan1 plan2 : TransitionPlan)
    → IsValid db
    → dto1.id ≡ dto2.id
    → plan_transition s1 actor1 dto1 db ≡ ok plan1
    → plan_transition s2 actor2 dto2 db ≡ ok plan2
    → commit_transition s2 actor2 dto2.to plan2 (swapped s1 dto1.to plan1 db)
      ≡ (err (lost_race plan2.current.status dto2.to), swapped s1 dto1.to plan1 db)
second_swap_loses s1 s2 actor1 actor2 dto1 dto2 db plan1 plan2 h same e1 e2 =
    elim (commit_cases s2 actor2 dto2.to plan2 (swapped s1 dto1.to plan1 db)) [
      | lost none_hit run ↦ run
      | won row m id status run ↦ absurd (
          row_moved s1 s2 actor1 actor2 dto1 dto2 db plan1 plan2 h same
            (plan_transition-Planned s1 actor1 dto1 db plan1 e1)
            (plan_transition-Planned s2 actor2 dto2 db plan2 e2) row m id status)
    ]
