-- ===== src/System/Isolation.antt =====
-- The tasks of the other organizations, as far as the task service is concerned: `orgGuard` and the
-- visibility rule of the project in every statement of apps/api/src/tasks/task.repository.ts.
use specbook.Base.{
  ℕ, ◌≡◌, refl, ◌∙◌, ap, Bool, true, not, ◌&&◌, Option, none, some, List, filter, any, any_intro,
  find?-some, filter-set_where, filter-filter, filter-snoc, Bool-cases, inl, inr, ◌==◌, arith,
}
use specbook.Rows.{Task, Project, ActiveUser}
use specbook.Result.{ok}
use specbook.Action.{Db}
use specbook.Action.Keeps.{Keeps, Keeps-bind, Keeps-pure, Keeps-then, Keeps-check, Keeps-modify}
use specbook.Session.{Session}
use specbook.ProjectRepository.{find_project, org_guard}
use specbook.TaskRepository.{
  stamp, update_where, update, cas_update_status, insert_task, delete_task,
  bulk_promote_drafts_to_ready, create_comment, create_notification, detach_dependents,
  delete_dependency, ack_notes, insert_dependency, is_edge,
}
use specbook.TaskService.Access.{plan_create, scope_for}
use specbook.TaskService.Dependencies.{add_dependency}
use specbook.TaskService.Edits.{new_task}
use specbook.Invariant.Statements.{KeepsRow}
use specbook.Invariant.Transition.{status_patch-KeepsRow}
use specbook.Handlers.{Rules}
use specbook.Handlers.Edits.{plain}
use specbook.System.{Request, serve, Admits}
use specbook.System.Safety.{serve-Keeps}

-- The rows of task that are not the organization's.
abbrev pub is_foreign : Db → ℕ → Task → Bool
is_foreign db org_id t = not (org_guard db org_id t.project_id)

abbrev pub foreign_tasks : Db → ℕ → List Task
foreign_tasks db org_id = filter (is_foreign db org_id) db.tasks

abbrev Untouched : ℕ → List Task → Db → Type 0
Untouched org_id rows db = foreign_tasks db org_id ≡ rows

module _ (org_id : ℕ) (rows : List Task) where
  -- A statement whose condition has the guard reaches the organization's rows only.
  Untouched-update_where :
      (now : ℕ) (p : Db → Task → Bool) (f : Task → Task)
      → KeepsRow f
      → ((db : Db) (t : Task) → p db t ≡ true → org_guard db org_id t.project_id ≡ true)
      → Keeps (Untouched org_id rows) (update_where now p f)
  unfolding update_where stamp org_guard
  Untouched-update_where now p f k guarded = record {
    at = λ db h.
        filter-set_where (is_foreign db org_id) (p db) (stamp now f) db.tasks (λ t m hit.
          let own = guarded db t hit in
          (ap not own, ap not (ap (org_guard db org_id) (k.same_project_id t) ∙ own)))
        ∙ h;
  }

  Untouched-delete : (id : ℕ) → Keeps (Untouched org_id rows) (delete_task id org_id)
  unfolding delete_task org_guard
  Untouched-delete id = Keeps-modify _ _ λ db h.
      elim (Bool-cases
        (any (λ (t : Task). t.id == id && org_guard db org_id t.project_id) db.tasks)) [
          | inl there ↦
              rw there
                (filter-filter (is_foreign db org_id) _ db.tasks (λ t gone. ground arith) ∙ h)
          | inr nothing ↦ rw nothing h
        ]

  Untouched-insert_dependency :
      (id on : ℕ) → Keeps (Untouched org_id rows) (insert_dependency id on)
  unfolding insert_dependency org_guard
  Untouched-insert_dependency id on = Keeps-modify _ _ λ db h.
      elim (Bool-cases (any (is_edge id on) db.dependencies)) [
        | inl there ↦ rw there h
        | inr new ↦ rw new h
      ]

-- The project of a created task is the organization's.
plan_create-org_guard :
    (u : ActiveUser) (project_id : ℕ) (assignee : Option ℕ) (db : Db)
    → plan_create u project_id assignee db ≡ ok tt
    → org_guard db u.org_id project_id ≡ true
unfolding plan_create find_project org_guard
plan_create-org_guard u project_id assignee db h =
    split (find_project db project_id u.org_id (scope_for u)) refl
  where
    split :
        (found : Option Project)
        → find_project db project_id u.org_id (scope_for u) ≡ found
        → org_guard db u.org_id project_id ≡ true
    split none e = ground arith
    split (some p) e =
        let (m, passes) = find?-some _ db.projects e in any_intro _ db.projects m (ground arith)

-- Every statement of a session leaves the rows of the other organizations alone.
Rules-Untouched : (s : Session) (rows : List Task) → Rules (Untouched s.active_user.org_id rows) s
unfolding update cas_update_status bulk_promote_drafts_to_ready insert_task new_task org_guard
    add_dependency delete_dependency detach_dependents create_comment ack_notes create_notification
Rules-Untouched s rows =
    let org = s.active_user.org_id in
    let P = Untouched org rows in
    record {
      update_row = λ id f k claims.
          Keeps-bind P _ _ (Untouched-update_where org rows s.now _ f k (λ db t hit. ground arith))
            (λ found. Keeps-pure P _);
      swap_row = λ id from f k claims.
          Keeps-bind P _ _ (Untouched-update_where org rows s.now _ f k (λ db t hit. ground arith))
            (λ found. Keeps-pure P _);
      swap_planned = λ actor dto db plan p h.
          (Keeps-bind P _ _
              (Untouched-update_where org rows s.now _ _
                (status_patch-KeepsRow s plan.current dto.to) (λ db t hit. ground arith))
              (λ found. Keeps-pure P _)).at
            db h;
      insert_row = λ new_id dto db fresh checked h.
          filter-snoc (is_foreign db org) db.tasks (new_task s new_id dto)
            (ap not (plan_create-org_guard s.active_user dto.project_id dto.assignee db checked))
          ∙ h;
      delete_row = Untouched-delete org rows;
      promote_rows = λ ids.
          Untouched-update_where org rows s.now _ _ (plain _ (λ t. refl) (λ t. refl))
            (λ db t hit. ground arith);
      add_edge =
          λ id on. Keeps-then P _ _ (Keeps-check P _) (Untouched-insert_dependency org rows id on);
      remove_edge = λ id on. record { at = λ db h. h };
      detach_edges = λ id ids. Keeps-modify P _ (λ db h. h);
      add_comment_row = λ k. Keeps-modify P _ (λ db h. h);
      read_notes = λ id. record { at = λ db h. h };
      add_notification = λ n. Keeps-modify P _ (λ db h. h);
    }

-- No request of a session changes, moves, adds or deletes a task row of another organization: the
-- rows that are not in a project of the session's organization are, in their order, the same after
-- it as before it, whether the request returns or throws. A created row gets a new identifier.
pub foreign_tasks-serve :
    (s : Session) (r : Request) (db : Db)
    → Admits db r
    → foreign_tasks (serve s r db) s.active_user.org_id ≡ foreign_tasks db s.active_user.org_id
foreign_tasks-serve s r db a =
    serve-Keeps (Untouched s.active_user.org_id (foreign_tasks db s.active_user.org_id)) s
      (Rules-Untouched s (foreign_tasks db s.active_user.org_id)) r db a refl
