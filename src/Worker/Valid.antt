-- ===== src/Worker/Valid.antt =====
-- The statements of the webhook worker keep the invariant of Invariant.antt, in every project.
use specbook.Base.{refl, ◌≡◌, Bool, List}
use specbook.Rows.{Task}
use specbook.Action.{Db}
use specbook.Action.Keeps.{Keeps, Keeps-bind, Keeps-pure, Keeps-modify, Keeps-then, Keeps-check}
use specbook.TaskRepository.{update_where}
use specbook.Invariant.{IsValid}
use specbook.Invariant.Statements.{Keeps-update_where, same_but}
use specbook.Handlers.{KeepsClaim}
use specbook.Handlers.Edits.{plain}
use specbook.Worker.{Job, GithubWebhookJobPayload}
use specbook.Worker.Projects.{ProjectRow}
use specbook.Worker.Progress.{
  worker_finalize_merged, worker_merged_patch, worker_approve, worker_approved_patch,
}
use specbook.Worker.Deploy.{insert_deployment, enqueue_deploy}
use specbook.Worker.Events.{
  pr_patch, ci_patch, completed_patch, escalated_patch, retried_patch, update_projects, ask_rerun,
}
use specbook.Worker.Rules.{WorkerRules}
use specbook.Worker.Keeps.{process_at}
use specbook.Worker.Events.{process}

pub WorkerRules-IsValid :
    (job : Job) (event : GithubWebhookJobPayload) (projects : List ProjectRow)
    → WorkerRules IsValid job event projects
unfolding pr_patch ci_patch completed_patch escalated_patch retried_patch update_projects ask_rerun
    worker_finalize_merged worker_merged_patch worker_approve worker_approved_patch
    insert_deployment enqueue_deploy
WorkerRules-IsValid job event projects = record {
  Known = λ id. Unit;
  Approves = λ id. Unit;
  Finishes = λ id n. Unit;
  Matched = λ id. Unit;
  known = λ db t h m own. tt;
  approves = λ db t h m c review. tt;
  finishes = λ db t h m c n landed. tt;
  matched = λ db t e h m is_e hit. tt;
  record_pr = λ e is_e. write _ _ (λ t. refl) (λ t. refl) (λ t h. h);
  complete = λ e ids is_e landed all. write _ _ (λ t. refl) (λ t. refl) (λ t h. refl);
  record_ci = λ e c is_e. write _ _ (λ t. refl) (λ t. refl) (λ t h. h);
  escalate = λ ids all. write _ _ (λ t. refl) (λ t. refl) (λ t h. h);
  mark_retried = λ e ids all. write _ _ (λ t. refl) (λ t. refl) (λ t h. h);
  approve = λ id may. write _ _ (λ t. refl) (λ t. refl) (λ t h. refl);
  finish = λ id n may.
      Keeps-bind IsValid _ _ (write _ _ (λ t. refl) (λ t. refl) (λ t h. refl))
        (λ rows. Keeps-pure IsValid tt);
  resume = λ p m. Keeps-modify IsValid _ (λ db h. same_but db _ refl refl h);
  pause = λ p c m. Keeps-modify IsValid _ (λ db h. same_but db _ refl refl h);
  add_deployment = λ p env. Keeps-modify IsValid _ (λ db h. same_but db _ refl refl h);
  enqueue = λ id.
      Keeps-then IsValid _ _ (Keeps-check IsValid _)
        (Keeps-modify IsValid _ (λ db h. same_but db _ refl refl h));
  rerun = λ e. Keeps-modify IsValid _ (λ db h. same_but db _ refl refl h);
}
  where
    write :
        (p : Db → Task → Bool) (f : Task → Task)
        → ((t : Task) → (f t).id ≡ t.id)
        → ((t : Task) → (f t).project_id ≡ t.project_id)
        → KeepsClaim f
        → Keeps IsValid (update_where job.now p f)
    write p f same_id same_project claims =
        Keeps-update_where job.now p f (plain f same_id same_project) claims

-- An event, whatever GitHub and the queue answer, leaves valid tables valid.
pub process-IsValid :
    (job : Job) (event : GithubWebhookJobPayload) (db : Db)
    → IsValid db
    → IsValid (process job event db).1
process-IsValid job event db h =
    process_at IsValid job event db (λ org found. WorkerRules-IsValid job event _) h
