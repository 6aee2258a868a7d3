-- ===== src/Worker/Isolation.antt =====
-- The tasks of the other organizations, as far as the webhook worker is concerned: the organization
-- of an event is resolved from its installation, and every statement stays within its projects.
use specbook.Base.{
  ℕ, String, ◌≡◌, refl, sym, ap, ◌∙◌, Bool, true, some, or_else, List, filter, Memᴰ, Memᴰ-filter,
  Memᴰ-map, Memᴰ-map_elim, All, All-Memᴰ, any_intro, elem, elem_iff, arith,
}
use mathlib.Core.Path.{subst}
use specbook.Rows.{Task, Organization}
use specbook.Action.{Db}
use specbook.Action.Keeps.{Keeps, Keeps-bind, Keeps-pure, Keeps-then, Keeps-check}
use specbook.ProjectRepository.{org_guard}
use specbook.TaskRepository.{update_where}
use specbook.Invariant.{IsValid}
use specbook.Handlers.{KeepsClaim}
use specbook.Handlers.Edits.{plain}
use specbook.System.Isolation.{foreign_tasks}
use specbook.Worker.{Job, GithubWebhookJobPayload}
use specbook.Worker.Projects.{
  ProjectRow, row_of, project_ids, installation_of, repo_of, organization_of, projects_of_event,
  is_project_of_event,
}
use specbook.Worker.Progress.{
  worker_finalize_merged, worker_merged_patch, worker_approve, worker_approved_patch,
}
use specbook.Worker.Deploy.{insert_deployment, enqueue_deploy}
use specbook.Worker.Events.{
  pr_patch, ci_patch, completed_patch, escalated_patch, retried_patch, ask_rerun, resumed_patch,
  paused_patch, process,
}
use specbook.Worker.Rules.{WorkerRules, Candidate}
use specbook.Worker.Keeps.{process_at}
use specbook.Worker.Apart.{
  Apart, Own, Own-task, Own-row, Apart-update_where, Apart-update_projects, Apart-same,
}

-- The projects of an event are the organization's.
projects_of_event-org_guard :
    (db : Db) (org_id : ℕ) (repo : String) (n : ℕ)
    → elem n (project_ids (projects_of_event db org_id repo)) ≡ true
    → org_guard db org_id n ≡ true
unfolding projects_of_event org_guard
projects_of_event-org_guard db org_id repo n h =
    let (r, at, same) =
      Memᴰ-map_elim (λ (p : ProjectRow). p.id) (projects_of_event db org_id repo)
        ((elem_iff n (project_ids (projects_of_event db org_id repo))).0 h) in
    let (p, m, e) =
      Memᴰ-map_elim row_of (filter (is_project_of_event org_id repo) db.projects) at in
    let (there, passes) = (Memᴰ-filter (is_project_of_event org_id repo) p db.projects).0 m in
    let id = same ∙ ap (λ (x : ProjectRow). x.id) e in
    any_intro _ db.projects there (ground (arith, id, passes))

module _ (job : Job) (event : GithubWebhookJobPayload) (org_id : ℕ) (start : Db)
    (rows : List Task) where
  abbrev projects_here : List ProjectRow
  projects_here = projects_of_event start org_id (repo_of event)

  in_projects :
      (db : Db) (t : Task)
      → Apart org_id start rows db
      → elem t.project_id (project_ids projects_here) ≡ true
      → org_guard db org_id t.project_id ≡ true
  in_projects db t a h =
      a.same_guard t.project_id
      ∙ projects_of_event-org_guard start org_id (repo_of event) t.project_id h

  elem-Own :
      (ids : List ℕ) (id : ℕ)
      → All (Own org_id start rows) ids
      → elem id ids ≡ true
      → Own org_id start rows id
  elem-Own ids id all h = All-Memᴰ (Own org_id start rows) ids all ((elem_iff id ids).0 h)

  Candidate-Own :
      (db : Db) (t : Task)
      → Apart org_id start rows db
      → Memᴰ t db.tasks
      → Candidate event projects_here t
      → Own org_id start rows t.id
  Candidate-Own db t a m c = Own-task org_id start rows db t a m (
      in_projects db t a (
        (elem_iff t.project_id (project_ids projects_here)).1 (
          subst (λ n. Memᴰ n (project_ids projects_here)) c.owns
            (Memᴰ-map (λ (p : ProjectRow). p.id) projects_here c.listed))))

  write :
      (p : Db → Task → Bool) (f : Task → Task)
      → ((t : Task) → (f t).id ≡ t.id)
      → ((t : Task) → (f t).project_id ≡ t.project_id)
      → KeepsClaim f
      → ((db : Db) (t : Task)
          → Apart org_id start rows db
          → Memᴰ t db.tasks
          → p db t ≡ true
          → org_guard db org_id t.project_id ≡ true)
      → Keeps (Apart org_id start rows) (update_where job.now p f)
  write p f same_id same_project claims guarded =
      Apart-update_where org_id start rows job.now p f (plain f same_id same_project) claims guarded

  WorkerRules-Apart : WorkerRules (Apart org_id start rows) job event projects_here
  unfolding pr_patch ci_patch completed_patch escalated_patch retried_patch ask_rerun
      worker_finalize_merged worker_merged_patch worker_approve worker_approved_patch
      insert_deployment enqueue_deploy resumed_patch paused_patch
  WorkerRules-Apart = record {
    Known = Own org_id start rows;
    Approves = Own org_id start rows;
    Finishes = λ id n. Own org_id start rows id;
    Matched = Own org_id start rows;
    known = λ db t a m own. Own-task org_id start rows db t a m (in_projects db t a own);
    approves = λ db t a m c review. Candidate-Own db t a m c;
    finishes = λ db t a m c n landed. Candidate-Own db t a m c;
    matched = λ db t e a m is_e hit.
        Own-task org_id start rows db t a m (in_projects db t a (ground arith));
    record_pr = λ e is_e.
        write _ _ (λ t. refl) (λ t. refl) (λ t h. h)
          (λ db t a m hit. in_projects db t a (ground arith));
    complete = λ e ids is_e landed all.
        write _ _ (λ t. refl) (λ t. refl) (λ t h. refl)
          (λ db t a m hit.
            Own-row org_id start rows db t t.id a m refl (elem-Own ids t.id all (ground arith)));
    record_ci = λ e c is_e.
        write _ _ (λ t. refl) (λ t. refl) (λ t h. h)
          (λ db t a m hit. in_projects db t a (ground arith));
    escalate = λ ids all.
        write _ _ (λ t. refl) (λ t. refl) (λ t h. h)
          (λ db t a m hit.
            Own-row org_id start rows db t t.id a m refl (elem-Own ids t.id all hit));
    mark_retried = λ e ids all.
        write _ _ (λ t. refl) (λ t. refl) (λ t h. h)
          (λ db t a m hit.
            Own-row org_id start rows db t t.id a m refl (elem-Own ids t.id all hit));
    approve = λ id own.
        write _ _ (λ t. refl) (λ t. refl) (λ t h. refl)
          (λ db t a m hit. Own-row org_id start rows db t id a m (ground arith) own);
    finish = λ id n own.
        Keeps-bind (Apart org_id start rows) _ _
          (write _ _ (λ t. refl) (λ t. refl) (λ t h. refl)
            (λ db t a m hit. Own-row org_id start rows db t id a m (ground arith) own))
          (λ hit. Keeps-pure _ tt);
    resume = λ p m. Apart-update_projects org_id start rows _ _ (λ q. refl) (λ q. refl);
    pause = λ p c m. Apart-update_projects org_id start rows _ _ (λ q. refl) (λ q. refl);
    add_deployment = λ p env. Apart-same org_id start rows _ (λ db. refl) (λ db. refl) (λ db. refl);
    enqueue = λ id.
        Keeps-then _ _ _ (Keeps-check _ _)
          (Apart-same org_id start rows _ (λ db. refl) (λ db. refl) (λ db. refl));
    rerun = λ e. Apart-same org_id start rows _ (λ db. refl) (λ db. refl) (λ db. refl);
  }

-- An event of an installation touches no task row outside the organization that `organization_of`
-- finds for it: from valid tables, the rows of the other organizations are, in their order, the same
-- after the event as before it, whatever GitHub and the queue answer.
pub foreign_tasks-process :
    (job : Job) (event : GithubWebhookJobPayload) (db : Db) (org : Organization)
    → organization_of db (installation_of event) ≡ some org
    → IsValid db
    → foreign_tasks (process job event db).1 org.id ≡ foreign_tasks db org.id
foreign_tasks-process job event db org found h =
    (process_at (Apart org.id db (foreign_tasks db org.id)) job event db
      (λ other e.
        subst
          (λ (o : Organization).
            WorkerRules (Apart org.id db (foreign_tasks db org.id)) job event
              (projects_of_event db o.id (repo_of event)))
          (ap (λ o. or_else o org) (sym found ∙ e))
          (WorkerRules-Apart job event org.id db (foreign_tasks db org.id)))
      (record { untouched = refl; same_guard = λ n. refl; valid = h })).untouched
