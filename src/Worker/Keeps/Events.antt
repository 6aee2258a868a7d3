-- ===== src/Worker/Keeps/Events.antt =====
-- `autoDeploy`, `applyPullRequest`, `applyWorkflowRun` and `process` keep what their statements keep.
use specbook.Base.{
  String, ◌≡◌, refl, sym, ap, ◌∙◌, true, Option, none, some, List, [], ◌∷◌, filter, Memᴰ,
  Memᴰ-filter, All, All-Memᴰ_intro, not, is_some, is_none, is_text, ◌&&◌, ◌||◌, Bool-cases, inl,
  inr, arith,
}
use specbook.Rows.{Task, Organization, ProjectEnvironment}
use specbook.Protocol.{grants_auto_merge}
use specbook.Action.{Db, ◌>>=◌, ◌>>◌, resume, gets, pure}
use specbook.Action.Keeps.{
  Keeps, Keeps-pure, Keeps-gets, Keeps-bind, Keeps-then, Keeps-when, Keeps-for_each,
}
use specbook.Server.CiClassify.{CiClassification}
use specbook.Worker.{
  Job, PullRequestEvent, WorkflowRunEvent, GithubWebhookJobPayload, pull_request, workflow_run,
}
use specbook.Worker.Projects.{
  ProjectRow, project_ids, installation_of, repo_of, organization_of, projects_of_event,
}
use specbook.Worker.Progress.{has_no_rows}
use specbook.Worker.Deploy.{absorbs_or_holds, deploy_environment, deploy_project, auto_deploy}
use specbook.Worker.Events.{
  matches_pr, matches_run, pr_patch, ci_patch, is_failing, is_passing, is_retryable,
  apply_pull_request, resume_project, pause_project, break_circuit, break_circuits, maybe_retry,
  apply_workflow_run, apply_event, apply_for, process, is_spent,
}
use specbook.Worker.Rules.{WorkerRules, progresses}
use specbook.Worker.Keeps.Steps.{
  update_bind, Gives, Gives-pure, Gives-then, Gives-bind, Keeps-given, ids_of-All, updated_id,
}
use specbook.Worker.Keeps.Progress.{Seen, auto_progress_Keeps}

module _ (P : Db → Type 0) (job : Job) (event : GithubWebhookJobPayload)
    (projects : List ProjectRow) (rules : WorkerRules P job event projects) where
  deploy_environment_Keeps :
      (p : ProjectRow) (env : ProjectEnvironment) → Keeps P (deploy_environment job p env)
  unfolding deploy_environment
  deploy_environment_Keeps p env = Keeps-bind P _ _ (Keeps-gets P _) λ recent.
      elim (Bool-cases (absorbs_or_holds recent)) [
        | inl held ↦ rw held (Keeps-pure P tt)
        | inr free ↦ rw free (Keeps-then P _ _ (rules.add_deployment p env.id) (rules.enqueue _))
      ]

  auto_deploy_Keeps : (base : String) → Keeps P (auto_deploy job projects base)
  unfolding auto_deploy deploy_project
  auto_deploy_Keeps base = Keeps-for_each P projects _ λ p. Keeps-when P _ _ (λ _.
      Keeps-bind P _ _ (Keeps-gets P _)
        (λ environments. Keeps-for_each P environments _ (deploy_environment_Keeps p)))

  abbrev self_seen : (p : ProjectRow) → Memᴰ p projects → Seen P job event projects rules p
  self_seen p m = (p, m, refl, refl)

  All-Seen : All (Seen P job event projects rules) projects
  All-Seen = All-Memᴰ_intro (Seen P job event projects rules) projects self_seen

  apply_pull_request_Keeps :
      (e : PullRequestEvent) → event ≡ pull_request e → Keeps P (apply_pull_request job projects e)
  unfolding apply_pull_request pr_patch
  apply_pull_request_Keeps e is_e = update_bind P job.now _ _ _ (rules.record_pr e is_e) λ db h.
      Keeps-then P _ _
        (Keeps-when P _ _ (λ now_merged.
          Keeps-bind P _ _
            (rules.complete e _ is_e (ground arith) (
              ids_of-All rules.Matched _ (
                updated_id rules.Matched job.now _ (λ t. refl) _
                  (λ t m.
                    let (there, hit) =
                      (Memᴰ-filter (matches_pr (project_ids projects) e) t db.tasks).0 m in
                    rules.matched db t e h there is_e hit))))
            (λ rows. Keeps-pure P tt)))
        (Keeps-then P _ _ (Keeps-when P _ _ (λ _. auto_deploy_Keeps e.base_branch)) (
          Keeps-then P _ _
            (Keeps-when P _ _ (λ opened.
              auto_progress_Keeps P job event projects rules _ _ projects _
                (sym (ap installation_of is_e)) (sym (ap repo_of is_e))
                (ap progresses is_e ∙ ground arith) All-Seen))
            (Keeps-pure P _)))

  resume_project-Gives :
      (e : WorkflowRunEvent) (p : ProjectRow)
      → event ≡ workflow_run e
      → progresses event ≡ true
      → Memᴰ p projects
      → Gives P (Seen P job event projects rules) (resume_project job e p)
  unfolding resume_project ◌>>◌
  resume_project-Gives e p is_e goes m =
      Gives-then P (Seen P job event projects rules) _ _ (rules.resume p m) λ _.
        Gives-then P (Seen P job event projects rules) _ _ (Keeps-gets P _) λ parked.
          Gives-then P (Seen P job event projects rules) _ _
            (Keeps-when P _ _ (λ _.
              auto_progress_Keeps P job event projects rules _ _ _ _ (sym (ap installation_of is_e))
                (sym (ap repo_of is_e)) goes ((p, m, refl, refl), tt)))
            (λ _. Gives-pure P (Seen P job event projects rules) _ (p, m, refl, refl))

  pause_project-Gives :
      (c : Option CiClassification) (p : ProjectRow)
      → Memᴰ p projects
      → Gives P (Seen P job event projects rules) (pause_project job c p)
  unfolding pause_project ◌>>◌
  pause_project-Gives c p m =
      Gives-then P (Seen P job event projects rules) _ _ (rules.pause p c m)
        λ _. Gives-pure P (Seen P job event projects rules) _ (p, m, refl, refl)

  break_circuit-Gives :
      (e : WorkflowRunEvent) (c : Option CiClassification) (p : ProjectRow)
      → event ≡ workflow_run e
      → Memᴰ p projects
      → Gives P (Seen P job event projects rules) (break_circuit job e c p)
  unfolding break_circuit
  break_circuit-Gives e c p is_e m =
      elim (Bool-cases
        (not (grants_auto_merge p.mode) || not (is_text (some e.head_branch) p.default_branch))) [
          | inl other ↦ rw other same
          | inr guarded ↦ rw guarded (elim (Bool-cases (is_failing e && is_retryable c)) [
            | inl flake ↦ rw flake same
            | inr real ↦ rw real (elim (Bool-cases (is_failing e && is_none p.auto_paused_at)) [
              | inl red ↦ rw red (pause_project-Gives c p m)
              | inr held ↦ rw held (elim (Bool-cases (is_passing e && is_some p.auto_paused_at)) [
                | inl green ↦
                    rw green (resume_project-Gives e p is_e (ap progresses is_e ∙ ground arith) m)
                | inr calm ↦ rw calm same
              ])
            ])
          ])
        ]
    where
      same : Gives P (Seen P job event projects rules) (pure p)
      same = Gives-pure P (Seen P job event projects rules) p (p, m, refl, refl)

  break_circuits-Gives :
      (e : WorkflowRunEvent) (c : Option CiClassification) (ps : List ProjectRow)
      → event ≡ workflow_run e
      → All (λ p. Memᴰ p projects) ps
      → Gives P (All (Seen P job event projects rules)) (break_circuits job e c ps)
  unfolding break_circuits
  break_circuits-Gives e c [] is_e all = Gives-pure P (All (Seen P job event projects rules)) [] tt
  break_circuits-Gives e c (p ∷ rest) is_e all =
      Gives-bind P (All (Seen P job event projects rules)) (Seen P job event projects rules) _ _
        (break_circuit-Gives e c p is_e all.0)
        λ q seen.
          Gives-bind P (All (Seen P job event projects rules))
            (All (Seen P job event projects rules)) _ _ (break_circuits-Gives e c rest is_e all.1)
            λ qs others.
              Gives-pure P (All (Seen P job event projects rules)) (q ∷ qs) (seen, others)

  maybe_retry_Keeps :
      (e : WorkflowRunEvent) (rows : List Task)
      → ((t : Task) → Memᴰ t rows → rules.Known t.id)
      → Keeps P (maybe_retry job e rows)
  unfolding maybe_retry
  maybe_retry_Keeps e rows known =
      elim (Bool-cases (not (has_no_rows (filter (is_spent e) rows)))) [
        | inl spent ↦ rw spent (
            Keeps-bind P _ _
              (rules.escalate _ (
                ids_of-All rules.Known (filter (is_spent e) rows)
                  (λ t m. known t ((Memᴰ-filter (is_spent e) t rows).0 m).0)))
              (λ hit. Keeps-pure P tt))
        | inr fresh ↦ rw fresh (
            Keeps-bind P _ _ (rules.mark_retried e _ (ids_of-All rules.Known rows known))
              (λ hit. rules.rerun e))
      ]

  apply_workflow_run_Keeps :
      (e : WorkflowRunEvent) → event ≡ workflow_run e → Keeps P (apply_workflow_run job projects e)
  unfolding apply_workflow_run ci_patch
  apply_workflow_run_Keeps e is_e =
      Keeps-given P (All (Seen P job event projects rules)) _ _
        (break_circuits-Gives e _ projects is_e (All-Memᴰ_intro _ projects (λ p m. m)))
        λ seen all. update_bind P job.now _ _ _ (rules.record_ci e _ is_e) λ db h.
          Keeps-then P _ _
            (Keeps-when P _ _ (λ _. maybe_retry_Keeps e _ (
              updated_id rules.Known job.now _ (λ t. refl) _
                (λ t m.
                  let (there, hit) =
                    (Memᴰ-filter (matches_run (project_ids projects) e) t db.tasks).0 m in
                  rules.known db t h there (ground arith)))))
            (Keeps-then P _ _
              (Keeps-when P _ _ (λ green.
                auto_progress_Keeps P job event projects rules _ _ seen _
                  (sym (ap installation_of is_e)) (sym (ap repo_of is_e))
                  (ap progresses is_e ∙ ground arith) all))
              (Keeps-pure P _))

  pub apply_event_Keeps : Keeps P (apply_event job projects event)
  unfolding apply_event
  apply_event_Keeps = go event refl
    where
      go : (x : GithubWebhookJobPayload) → event ≡ x → Keeps P (apply_event job projects x)
      go (pull_request e) is_e = apply_pull_request_Keeps e is_e
      go (workflow_run e) is_e = apply_workflow_run_Keeps e is_e

-- An event of an installation that no organization holds writes nothing; otherwise the rules are
-- those of the projects that the organization has on the repository.
pub process_at :
    (P : Db → Type 0) (job : Job) (event : GithubWebhookJobPayload) (db : Db)
    → ((org : Organization)
        → organization_of db (installation_of event) ≡ some org
        → WorkerRules P job event (projects_of_event db org.id (repo_of event)))
    → P db
    → P (process job event db).1
unfolding process ◌>>=◌ gets resume pure apply_for
process_at P job event db rules h = go (organization_of db (installation_of event)) refl
  where
    go :
        (found : Option Organization)
        → organization_of db (installation_of event) ≡ found
        → P (apply_for job event found db).1
    go none e = h
    go (some org) e =
        elim (Bool-cases (has_no_rows (projects_of_event db org.id (repo_of event)))) [
          | inl nothing ↦ rw nothing h
          | inr there ↦ rw there (
              (apply_event_Keeps P job event (projects_of_event db org.id (repo_of event))
                  (rules org e)).at
                db h)
        ]
