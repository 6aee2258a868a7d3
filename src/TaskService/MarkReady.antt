-- ===== src/TaskService/MarkReady.antt =====
-- `markReady` of apps/api/src/tasks/task.service.ts. The loop of the walk takes fuel: `none` says
-- that it ran out.
pub mod Walk
pub mod Selection
use specbook.Base.{
  ℕ, zero, suc, ◌+◌, String, Bool, true, false, Option, none, some, List, [], ◌∷◌, map, filter, any,
  elem, length, not, ◌==◌, ◌&&◌, ◌||◌, is_some, same_text, if◌then◌else◌,
}
use specbook.Rows.{Task, Dependency, Status, draft}
use specbook.Protocol.{same_status}
use specbook.Result.{project_not_found, project_archived_readonly, out_of_fuel}
use specbook.Action.{Db, Action, pure, gets, or_raise, raise_if, ◌>>=◌, ◌>>◌}
use specbook.Session.{Session}
use specbook.ProjectRepository.{find_project}
use specbook.TaskRepository.{
  dispatchable, find_project_promotion_rows, find_project_dependency_edges,
  bulk_promote_drafts_to_ready,
}
use specbook.TaskService.Access.{scope_for}
use specbook.TaskService.Cycle.{prerequisites, push_all}

-- MarkReadyScope
pub data Scope : Type 0 where
  project : Scope
  area : Option String → Scope
  tasks : List ℕ → Scope

unfoldable pub draft_ids : List Task → List ℕ
draft_ids rows = map (λ t. t.id) (filter (λ t. same_status t.status draft) rows)

-- `targetIds`
unfoldable pub target_ids : Scope → List Task → List ℕ
unfolding draft_ids
target_ids project rows = draft_ids rows
target_ids (area a) rows =
    map (λ t. t.id) (filter (λ t. same_status t.status draft && same_text t.area a) rows)
target_ids (tasks ids) rows = filter (λ id. elem id (draft_ids rows)) ids

-- `[...new Set(ids)]`: the first occurrence of each id stays.
unfoldable pub dedupe : List ℕ → List ℕ
dedupe [] = []
dedupe (id ∷ rest) = id ∷ filter (λ other. not (id == other)) (dedupe rest)

-- The walk through draft prerequisites. `reached` is the set `reachableDrafts`, latest first.
unfoldable pub draft_walk : List Dependency → List ℕ → ℕ → List ℕ → List ℕ → Option (List ℕ)
draft_walk edges drafts zero stack reached = none
draft_walk edges drafts (suc fuel) [] reached = some reached
draft_walk edges drafts (suc fuel) (node ∷ stack) reached =
    let skip = draft_walk edges drafts fuel stack reached in
    let visit =
      draft_walk edges drafts fuel (push_all (prerequisites edges node) stack) (node ∷ reached) in
    if elem node reached || not (elem node drafts) then skip else visit

-- `reachableDrafts`. Each target and each edge is popped once at most.
unfoldable pub reachable_drafts : List Dependency → List ℕ → List ℕ → Option (List ℕ)
unfolding draft_walk dedupe
reachable_drafts edges drafts targets =
    draft_walk edges drafts (suc (length (dedupe targets) + length edges))
      (push_all (dedupe targets) []) []

-- `byId.get(id)`: of several rows with one id, `new Map` keeps the last.
unfoldable pub by_id : List Task → ℕ → Option Task
by_id [] id = none
by_id (t ∷ rest) id = elim (by_id rest id) [
  | some later ↦ some later
  | none ↦ if t.id == id then some t else none
]

-- `byId.get(id)?.dispatchable`
unfoldable pub is_dispatchable : List Task → ℕ → Bool
unfolding by_id
is_dispatchable rows id = elim (by_id rows id) [ none ↦ false | some t ↦ dispatchable t ]

-- `promoteIds`, in the order in which the walk reached them.
unfoldable pub promote_ids : List Task → List Dependency → Scope → Option (List ℕ)
promote_ids rows edges scope =
    elim (reachable_drafts edges (draft_ids rows) (target_ids scope rows)) [
      | none ↦ none
      | some reached ↦ some (filter (is_dispatchable rows) (push_all reached []))
    ]

pub record Promotion : Type 0 where
  pub promoted : List Task
  pub prerequisites_of : List Task

-- `markReady`
unfoldable pub mark_ready : Session → ℕ → Scope → Action Promotion
mark_ready s project_id scope = do
  found ← gets (λ db. find_project db project_id s.active_user.org_id (scope_for s.active_user))
  proj ← or_raise project_not_found found
  raise_if (is_some proj.archived_at) project_archived_readonly
  rows ← gets (λ db. find_project_promotion_rows db s.active_user.org_id project_id)
  edges ← gets (λ db. find_project_dependency_edges db project_id)
  ids ← or_raise out_of_fuel (promote_ids rows edges scope)
  promoted ← bulk_promote_drafts_to_ready s.now s.active_user.org_id ids s.active_user.user_id
  pure (record {
    promoted = promoted;
    prerequisites_of = filter (λ t. not (elem t.id (target_ids scope rows))) promoted;
  })
