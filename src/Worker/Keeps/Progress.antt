-- ===== src/Worker/Keeps/Progress.antt =====
-- `autoProgress` keeps what its statements keep.
use specbook.Base.{
  ℕ, String, ◌≡◌, ap, ◌∙◌, refl, true, false, Option, none, some, List, find?, find?-some, Memᴰ,
  Memᴰ-filter, All, All-Memᴰ_intro, not, is_some, is_truthy, ◌==◌, ==_iff, ◌||◌, Bool-cases,
  Option-cases, All-Memᴰ, inl, inr, arith,
}
use specbook.Rows.{Task, AssumptionFlag, needs_review, auto}
use specbook.Protocol.{same_status, same_mode, grants_auto_merge}
use specbook.Action.{Db}
use specbook.Action.Keeps.{Keeps, Keeps-pure, Keeps-check_bind, Keeps-bind, Keeps-attempt}
use specbook.Result.{ok}
use specbook.TaskService.PrPlan.Landed.{Landed, merged_now, Resolved, resolve_pr-Resolved}
use specbook.TaskService.PrPlan.{PrTarget, merged_already, to_merge}
use specbook.TaskService.Repo.{RepoContext}
use specbook.Worker.{Job, GithubWebhookJobPayload}
use specbook.Worker.Projects.{ProjectRow, installation_of, repo_of}
use specbook.Worker.Progress.{
  merge_resolved, merge_step, approve_and_merge, is_held, progress_task, is_candidate,
  auto_projects, auto_progress, has_no_rows,
}
use specbook.Worker.Rules.{WorkerRules, Candidate, HasLanded, progresses}
use specbook.Worker.Keeps.Steps.{gets_bind, Keeps-for_all}

module _ (P : Db → Type 0) (job : Job) (event : GithubWebhookJobPayload)
    (projects : List ProjectRow) (rules : WorkerRules P job event projects) where
  -- Where the event comes from.
  abbrev IsHere : RepoContext → Type 0
  IsHere ctx = (ctx.installation_id ≡ installation_of event) × (ctx.repo_full_name ≡ repo_of event)

  merge_resolved_Keeps :
      (ctx : RepoContext) (t : Task) (target : PrTarget)
      → Resolved job.github_app ctx t.pr_number t.branch target
      → ((n : ℕ) → Landed job.github_app ctx t.pr_number t.branch n → rules.Finishes t.id n)
      → Keeps P (merge_resolved job ctx t.id target)
  unfolding merge_resolved
  merge_resolved_Keeps ctx t (merged_already n) found may = rules.finish t.id n (may n found)
  merge_resolved_Keeps ctx t (to_merge pr_number) found may =
      elim (Bool-cases (is_truthy pr_number)) [
        | inr missing ↦ rw missing (Keeps-pure P tt)
        | inl there ↦ rw there (
            Keeps-check_bind P _ _ (λ db is_done h said. elim (Bool-cases is_done) [
              | inl landed ↦ rw landed (
                  (rules.finish t.id _ (may _ (merged_now (found there) (said ∙ ap ok landed)))).at
                    db h)
              | inr refused ↦ rw refused ((Keeps-pure P tt).at db h)
            ]))
      ]

  merge_step_Keeps :
      (ctx : RepoContext) (t : Task)
      → IsHere ctx
      → ((n : ℕ) → HasLanded job event t n → rules.Finishes t.id n)
      → Keeps P (merge_step job ctx t)
  unfolding merge_step
  merge_step_Keeps ctx t here may = elim (Bool-cases (is_some t.assumption_flag)) [
    | inl flagged ↦ rw flagged (Keeps-pure P tt)
    | inr free ↦ rw free (
        Keeps-check_bind P _ _ (λ db target h resolved.
          (merge_resolved_Keeps ctx t target
              (resolve_pr-Resolved job.github_app ctx t target resolved)
              λ n landed. may n (record {
                unflagged = not_set t.assumption_flag free;
                ctx = ctx;
                at_installation = here.0;
                in_repo = here.1;
                landed = landed;
              })).at
            db h))
  ]
    where
      not_set : (o : Option AssumptionFlag) → is_some o ≡ false → o ≡ none
      not_set none h = refl
      not_set (some flag) h = cc

  -- What the automation may do with a task that it has read.
  abbrev May : Task → Type 0
  May t =
      ((n : ℕ) → HasLanded job event t n → rules.Finishes t.id n)
      × (same_status t.status needs_review ≡ true → rules.Approves t.id)

  approve_and_merge_Keeps :
      (ctx : RepoContext) (t : Task) → IsHere ctx → May t → Keeps P (approve_and_merge job ctx t)
  unfolding approve_and_merge
  approve_and_merge_Keeps ctx t here may = elim (Bool-cases (same_status t.status needs_review)) [
    | inr past ↦ rw past (merge_step_Keeps ctx t here may.0)
    | inl review ↦ rw review (
        Keeps-bind P _ _ (rules.approve t.id (may.1 review)) (λ rows.
          elim (Bool-cases (has_no_rows rows)) [
            | inl lost ↦ rw lost (Keeps-pure P tt)
            | inr won ↦ rw won (merge_step_Keeps ctx t here may.0)
          ]))
  ]

  -- A project as the job sees it, with the mode that it was read with.
  abbrev pub Seen : ProjectRow → Type 0
  Seen q = (p : ProjectRow) × Memᴰ p projects × (p.id ≡ q.id) × (p.mode ≡ q.mode)

  progress_task-Candidate :
      (seen : List ProjectRow) (ids : List ℕ) (t : Task) (q : ProjectRow)
      → progresses event ≡ true
      → All Seen seen
      → is_candidate (auto_projects seen) ids t ≡ true
      → find? (λ (p : ProjectRow). p.id == t.project_id) (auto_projects seen) ≡ some q
      → is_held q t ≡ false
      → Candidate event projects t
  unfolding is_held
  progress_task-Candidate seen ids t q goes all is_one found free =
      let (m, owns) =
        find?-some (λ (p : ProjectRow). p.id == t.project_id) (auto_projects seen) found in
      let (old, grants) = (Memᴰ-filter (λ (p : ProjectRow). grants_auto_merge p.mode) q seen).0 m in
      let (p, listed, same_id, same_mode_) = All-Memᴰ Seen seen all old in
      record {
        goes = goes;
        project = p;
        listed = listed;
        owns = same_id ∙ (==_iff q.id t.project_id).0 owns;
        grants = ap grants_auto_merge same_mode_ ∙ grants;
        green = ground arith;
        by_agents = ground arith;
        waits = ground arith;
        review = λ review. ap (λ m. same_mode m auto) same_mode_ ∙ ground arith;
      }

  progress_task_Keeps :
      (installation_id : ℕ) (repo : String) (autos : List ProjectRow) (t : Task)
      → installation_id ≡ installation_of event
      → repo ≡ repo_of event
      → ((q : ProjectRow)
          → find? (λ (p : ProjectRow). p.id == t.project_id) autos ≡ some q
          → is_held q t ≡ false
          → May t)
      → Keeps P (progress_task job installation_id repo autos t)
  unfolding progress_task
  progress_task_Keeps installation_id repo autos t at_installation in_repo may =
      elim (Option-cases (find? (λ (p : ProjectRow). p.id == t.project_id) autos)) [
        | inl nobody ↦ rw (progress_task, nobody) (Keeps-pure P tt)
        | inr (q, found) ↦
            rw (progress_task, found)
              (elim (Bool-cases (is_held q t)) [
                | inl held ↦ rw held (Keeps-pure P tt)
                | inr free ↦ rw free (
                    Keeps-attempt P _
                      (approve_and_merge_Keeps _ t (at_installation, in_repo) (may q found free)))
              ])
      ]

  pub auto_progress_Keeps :
      (installation_id : ℕ) (repo : String) (seen : List ProjectRow) (ids : List ℕ)
      → installation_id ≡ installation_of event
      → repo ≡ repo_of event
      → progresses event ≡ true
      → All Seen seen
      → Keeps P (auto_progress job installation_id repo seen ids)
  unfolding auto_progress
  auto_progress_Keeps installation_id repo seen ids at_installation in_repo goes all =
      elim (Bool-cases (has_no_rows (auto_projects seen) || not job.github_app.enabled)) [
        | inl nothing ↦ rw nothing (Keeps-pure P tt)
        | inr some_ ↦ rw some_ (
            gets_bind P _ _ λ db h.
              Keeps-for_all P
                (λ t.
                  (q : ProjectRow)
                  → find? (λ (p : ProjectRow). p.id == t.project_id) (auto_projects seen) ≡ some q
                  → is_held q t ≡ false
                  → May t)
                _ _
                (All-Memᴰ_intro _ _ λ t m q found free.
                  let (there, is_one) =
                    (Memᴰ-filter (is_candidate (auto_projects seen) ids) t db.tasks).0 m in
                  let c = progress_task-Candidate seen ids t q goes all is_one found free in
                  (rules.finishes db t h there c, rules.approves db t h there c))
                (λ t.
                  progress_task_Keeps installation_id repo (auto_projects seen) t at_installation
                    in_repo))
      ]
