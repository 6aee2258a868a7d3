-- ===== src/Workflow/Actors.antt =====
-- What a move of `transition` says about who has made it, and about the task that moved.
use specbook.Base.{
  ℕ, String, ◌≡◌, sym, ap, ◌∙◌, Bool, true, false, Option, List, [], ◌∷◌, Memᴰ, arith,
}
use mathlib.Core.Path.{subst}
use specbook.Rows.{
  Task, Actor, agent, Status, draft, ready, in_progress, blocked, needs_review, done,
}
use specbook.Protocol.{includes, agent_task_transitions}
use specbook.Result.{ok}
use specbook.Action.{Db}
use specbook.Session.{Session}
use specbook.TaskRepository.{has_unacked_notes, stamp}
use specbook.TaskService.Plan.{
  TransitionRequest, project_allows_agent_dispatch, moves_of, gates, trimmed, status_patch,
  passes_dispatch_gate, passes_review_gate, is_assignee_executor,
}
use specbook.TaskService.Transition.{transition}
use specbook.Invariant.{IsValid}
use specbook.Invariant.Access.{require_task_row}
use specbook.Workflow.Outcome.{transition_row}

-- The statuses that an agent may give a task.
abbrev pub agent_statuses : List Status
agent_statuses = in_progress ∷ blocked ∷ needs_review ∷ done ∷ []

agent_map :
    (from to : Status) (dispatches executor : Bool)
    → dispatches ≡ false
    → includes to (moves_of agent dispatches executor from) ≡ true
    → includes to agent_statuses ≡ true
unfolding moves_of agent_task_transitions
agent_map from to dispatches executor manual h = ground arith

-- The status of the patched row is the one asked for, and the row stays in its project.
pub patched :
    (s : Session) (t : Task) (to : Status) (now : ℕ)
    → ((stamp now (status_patch s t to) t).status ≡ to)
      × ((stamp now (status_patch s t to) t).project_id ≡ t.project_id)
      × ((stamp now (status_patch s t to) t).id ≡ t.id)
unfolding stamp status_patch
patched s t to now = (ground arith, ground arith, ground arith)

-- Outside autonomous projects an agent's move never dispatches a task, approves it, asks for
-- changes, cancels it or sends it back to draft: the row that it returns is in progress, blocked,
-- in review or done.
pub agent_never_judges :
    (s : Session) (dto : TransitionRequest) (db : Db) {t : Task}
    → IsValid db
    → (transition s agent dto db).0 ≡ ok t
    → project_allows_agent_dispatch db t.project_id s.active_user.org_id ≡ false
    → includes t.status agent_statuses ≡ true
agent_never_judges s dto db {t} h e manual =
    let (plan, p, same) = transition_row s agent dto db h e in
    let (status, project, _) = patched s plan.current dto.to s.now in
    subst (λ status. includes status agent_statuses ≡ true)
      (sym (ap (λ (t : Task). t.status) same ∙ status))
      (agent_map plan.current.status dto.to _ _
        (subst (λ project. project_allows_agent_dispatch db project s.active_user.org_id ≡ false)
          (ap (λ (t : Task). t.project_id) same ∙ project) manual)
        p.allowed)

module _ (db : Db) where
  -- What the gates of an agent's handoff and of a dispatch have tested.
  agent_gate :
      (executor : Bool) (t : Task) (comment : Option String)
      → gates db agent executor t needs_review comment ≡ ok tt
      → (passes_review_gate comment t ≡ true) × (has_unacked_notes db t.id ≡ false)
  unfolding gates
  agent_gate executor t comment h = (ground arith, ground arith)

  dispatch_gate :
      (actor : Actor) (executor : Bool) (t : Task) (comment : Option String)
      → gates db actor executor t ready comment ≡ ok tt
      → t.status ≡ draft
      → passes_dispatch_gate t ≡ true
  unfolding gates
  dispatch_gate actor executor t comment h e = ground arith

-- The gates read the same of the row before and after the move.
patch_keeps :
    (s : Session) (t : Task) (to : Status) (now : ℕ) (comment : Option String)
    → (passes_review_gate comment (stamp now (status_patch s t to) t)
        ≡ passes_review_gate comment t)
      × (passes_dispatch_gate (stamp now (status_patch s t to) t) ≡ passes_dispatch_gate t)
unfolding stamp status_patch passes_review_gate passes_dispatch_gate
patch_keeps s t to now comment = (ground arith, ground arith)

-- An agent hands a task over for review only with a summary, with a branch and a PR link on the
-- task, and with no note of a human left unread.
pub agent_handoff :
    (s : Session) (dto : TransitionRequest) (db : Db) {t : Task}
    → IsValid db
    → (transition s agent dto db).0 ≡ ok t
    → t.status ≡ needs_review
    → (passes_review_gate (trimmed dto.comment) t ≡ true) × (has_unacked_notes db t.id ≡ false)
agent_handoff s dto db {t} h e review =
    let (plan, p, same) = transition_row s agent dto db h e in
    let (status, _, id) = patched s plan.current dto.to s.now in
    let to = sym (ap (λ (t : Task). t.status) same ∙ status) ∙ review in
    let executor = is_assignee_executor agent plan.current s.active_user in
    let (review_gate, notes) =
      agent_gate db _ plan.current plan.comment
        (subst (λ to. gates db agent executor plan.current to plan.comment ≡ ok tt) to p.gated) in
    (
      ap (λ t. passes_review_gate (trimmed dto.comment) t) same
          ∙ (patch_keeps s plan.current dto.to s.now (trimmed dto.comment)).0
          ∙ subst (λ c. passes_review_gate c plan.current ≡ true) p.trims review_gate,
      ap (λ (t : Task). has_unacked_notes db t.id) same ∙ ap (has_unacked_notes db) id ∙ notes,
    )

-- A draft that a single move makes ready has a context that is not blank and a definition of done.
pub dispatched_is_specified :
    (s : Session) (actor : Actor) (dto : TransitionRequest) (db : Db) {t cur : Task}
    → IsValid db
    → (transition s actor dto db).0 ≡ ok t
    → Memᴰ cur db.tasks
    → cur.id ≡ dto.id
    → cur.status ≡ draft
    → t.status ≡ ready
    → passes_dispatch_gate t ≡ true
dispatched_is_specified s actor dto db {t} {cur} h e m same was now =
    let (plan, p, result) = transition_row s actor dto db h e in
    let (status, _, _) = patched s plan.current dto.to s.now in
    let (found, id) = require_task_row s.active_user dto.id true db p.found in
    let to = sym (ap (λ (t : Task). t.status) result ∙ status) ∙ now in
    let executor = is_assignee_executor actor plan.current s.active_user in
    ap passes_dispatch_gate result
    ∙ (patch_keeps s plan.current dto.to s.now plan.comment).1
    ∙ dispatch_gate db actor _ plan.current plan.comment
        (subst (λ to. gates db actor executor plan.current to plan.comment ≡ ok tt) to p.gated)
        (ap (λ (t : Task). t.status) (h.unique plan.current cur found m (id ∙ sym same)) ∙ was)
