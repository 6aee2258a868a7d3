-- ===== src/Workflow/Claims.antt =====
-- Who holds a task after a move of `transition`.
use specbook.Base.{
  ℕ, ◌≡◌, ◌≢◌, sym, ap, ◌∙◌, ◌⊎◌, inl, inr, Option, none, some, true, false, ◌&&◌, is_none, refl,
  Bool-cases, Memᴰ, arith,
}
use mathlib.Core.Path.{subst}
use specbook.Rows.{Task, Actor, Status, ready, in_progress}
use specbook.Protocol.{same_status, same_status_iff}
use specbook.Invariant.Transition.{moved_away}
use specbook.Result.{ok}
use specbook.Action.{Db}
use specbook.Session.{Session}
use specbook.TaskRepository.{stamp}
use specbook.TaskService.Plan.{TransitionRequest, status_patch}
use specbook.TaskService.Transition.{transition}
use specbook.Invariant.{IsValid}
use specbook.Invariant.Access.{require_task_row}
use specbook.Workflow.Outcome.{transition_row}

-- The holder of a task before and after a move: queueing it releases it, entering work takes a task
-- that nobody holds, and every other move leaves the holder alone.
pub data Holder (user : ℕ) (to : Status) (before after : Option ℕ) : Type 0 where
  released : to ≡ ready → after ≡ none → Holder user to before after
  taken : to ≡ in_progress → before ≡ none → after ≡ some user → Holder user to before after
  kept :
      to ≢ ready
      → (to ≢ in_progress) ⊎ (before ≢ none)
      → after ≡ before
      → Holder user to before after

-- What the patch of a move records.
marks :
    (s : Session) (t : Task) (to : Status) (now : ℕ)
    → ((stamp now (status_patch s t to) t).status ≡ to)
      × ((stamp now (status_patch s t to) t).status_changed_by ≡ some s.active_user.user_id)
      × ((stamp now (status_patch s t to) t).status_changed_at ≡ some s.now)
      × ((stamp now (status_patch s t to) t).id ≡ t.id)
unfolding stamp status_patch
marks s t to now = (ground arith, ground arith, ground arith, ground arith)

holder :
    (s : Session) (current : Task) (to : Status) (now : ℕ)
    → Holder s.active_user.user_id to current.claimed_by
        (stamp now (status_patch s current to) current).claimed_by
unfolding stamp status_patch
holder s current to now = elim (Bool-cases (same_status to ready)) [
  | inl queued ↦ released ((same_status_iff to ready).0 queued) (ground (arith, queued))
  | inr other ↦ elim (Bool-cases (same_status to in_progress && is_none current.claimed_by)) [
    | inl free ↦
        taken ((same_status_iff to in_progress).0 (ground (arith, free)))
          (nobody current.claimed_by (ground (arith, free))) (ground (arith, other, free))
    | inr held ↦
        kept (λ e. is_not (sym ((same_status_iff to ready).1 e) ∙ other))
          (who current.claimed_by held) (ground (arith, other, held))
  ]
]
  where
    is_not : ¬ (true ≡ false)
    is_not h = cc

    nobody : (o : Option ℕ) → is_none o ≡ true → o ≡ none
    nobody none h = refl
    nobody (some n) h = cc

    who :
        (o : Option ℕ)
        → (same_status to in_progress && is_none o) ≡ false
        → (to ≢ in_progress) ⊎ (o ≢ none)
    who none h = inl (λ e.
        let working = (same_status_iff to in_progress).1 e in
        is_not (sym (ap (λ b. b && true) working) ∙ h))
    who (some n) h = inr (λ e. cc)

-- A transition returns the task of the request, in the status that was asked for, which is another
-- than the one it had, with who has moved it and when. Moving it to ready releases its claim; moving a
-- task that nobody holds to in progress claims it for who has moved it; every other move, one of a
-- task back into work that somebody holds included, leaves the claim alone.
pub transition_ok :
    (s : Session) (actor : Actor) (dto : TransitionRequest) (db : Db) {t cur : Task}
    → IsValid db
    → (transition s actor dto db).0 ≡ ok t
    → Memᴰ cur db.tasks
    → cur.id ≡ dto.id
    → (t.id ≡ dto.id)
      × (t.status ≡ dto.to)
      × (cur.status ≢ dto.to)
      × (t.status_changed_by ≡ some s.active_user.user_id)
      × (t.status_changed_at ≡ some s.now)
      × Holder s.active_user.user_id dto.to cur.claimed_by t.claimed_by
transition_ok s actor dto db {t} {cur} h e m same =
    let (plan, p, result) = transition_row s actor dto db h e in
    let (found, id) = require_task_row s.active_user dto.id true db p.found in
    let one = h.unique plan.current cur found m (id ∙ sym same) in
    let (status, by, at, same_id) = marks s plan.current dto.to s.now in
    (
      ap (λ (t : Task). t.id) result ∙ same_id ∙ id,
      ap (λ (t : Task). t.status) result ∙ status,
      subst (λ (t : Task). t.status ≢ dto.to) one
          (moved_away actor _ _ plan.current.status dto.to p.allowed),
      ap (λ (t : Task). t.status_changed_by) result ∙ by,
      ap (λ (t : Task). t.status_changed_at) result ∙ at,
      subst (λ (t : Task). Holder s.active_user.user_id dto.to cur.claimed_by t.claimed_by)
          (sym result)
          (subst
            (λ (c : Task).
              Holder s.active_user.user_id dto.to c.claimed_by
                (stamp s.now (status_patch s plan.current dto.to) plan.current).claimed_by)
            one (holder s plan.current dto.to s.now)),
    )
