-- ===== src/Worker/Moves.antt =====
-- The worker moves tasks by the policy of Policy.antt only.
use specbook.Base.{
  ℕ, ◌≡◌, refl, sym, ap, ◌∙◌, ◌⊎◌, inl, inr, Bool, true, some, or_else, List, Memᴰ, Memᴰ-map_elim,
  All, All-Memᴰ, Bool-cases, elem, elem_iff, is_text, is_text-some, Pairwise, Pairwise-set_where,
  Pairwise-Memᴰ, Pairwise-refl, arith,
}
use mathlib.Core.Path.{subst}
use specbook.Rows.{
  Task, Status, Organization, PrState, needs_review, approved, done, merged, open_, passing, auto,
}
use specbook.Protocol.{same_status, same_status_iff, same_mode, same_pr_state, is_ci_state}
use specbook.Action.{Db}
use specbook.Action.Keeps.{Keeps, Keeps-bind, Keeps-pure, Keeps-modify, Keeps-then, Keeps-check}
use specbook.TaskRepository.{update_where, stamp}
use specbook.TaskService.PrPlan.Landed.{Landed}
use specbook.Invariant.{IsValid}
use specbook.Worker.{Job, PullRequestEvent, GithubWebhookJobPayload, pull_request}
use specbook.Worker.Projects.{
  ProjectRow, project_ids, installation_of, repo_of, organization_of, projects_of_event,
}
use specbook.Worker.Progress.{
  is_waiting, worker_finalize_merged, worker_merged_patch, worker_approve, worker_approved_patch,
}
use specbook.Worker.Deploy.{insert_deployment, enqueue_deploy}
use specbook.Worker.Events.{
  matches_pr, pr_patch, ci_patch, completed_patch, escalated_patch, retried_patch, update_projects,
  ask_rerun, process,
}
use specbook.Worker.Rules.{WorkerRules, Candidate, HasLanded, progresses}
use specbook.Worker.Keeps.{process_at}
use specbook.Worker.Policy.{
  is_green_run, OfEvent, Numbered, as_stored, by_event, MergedOnGithub, Automatic, Move, stays,
  merged_there, merged_here, judged, Advanced,
}

module _ (job : Job) (event : GithubWebhookJobPayload) (projects : List ProjectRow)
    (start : List Task)
    (unique : (a b : Task) → Memᴰ a start → Memᴰ b start → a.id ≡ b.id → a ≡ b) where
  abbrev AllAdvanced : Db → Type 0
  AllAdvanced db = Pairwise (Advanced job event projects) start db.tasks

  -- What the automation knows of the rows with an identifier, as they were before the event.
  abbrev MayApprove : ℕ → Type 0
  MayApprove id =
      (old : Task)
      → Memᴰ old start
      → old.id ≡ id
      → (a : Automatic job event projects old) × (same_mode a.project.mode auto ≡ true)

  abbrev MayFinish : ℕ → ℕ → Type 0
  MayFinish id n =
      (old : Task)
      → Memᴰ old start
      → old.id ≡ id
      → MergedOnGithub job event projects old
        × Automatic job event projects old
        × (old.status ≡ needs_review
            → (a : Automatic job event projects old) × (same_mode a.project.mode auto ≡ true))

  abbrev WasMatched : ℕ → Type 0
  WasMatched id =
      (old : Task)
      → Memᴰ old start
      → old.id ≡ id
      → (e : PullRequestEvent) × OfEvent job event projects old e

  Advanced-update_where :
      (p : Db → Task → Bool) (f : Task → Task)
      → ((old t : Task)
          → Memᴰ old start
          → Advanced job event projects old t
          → (db : Db) → p db t ≡ true
          → Advanced job event projects old (stamp job.now f t))
      → Keeps AllAdvanced (update_where job.now p f)
  unfolding update_where
  Advanced-update_where p f step = record {
    at = λ db h.
        Pairwise-set_where (Advanced job event projects) (p db) (stamp job.now f) start db.tasks
          (λ old t m there adv hit. step old t m adv db hit) h;
  }

  -- An update that leaves the columns of the relation alone, but for the state of the checks.
  plain_update :
      (p : Db → Task → Bool) (f : Task → Task)
      → ((t : Task) → (f t).id ≡ t.id)
      → ((t : Task) → (f t).project_id ≡ t.project_id)
      → ((t : Task) → (f t).is_human_task ≡ t.is_human_task)
      → ((t : Task) → (f t).status ≡ t.status)
      → ((t : Task) → (f t).branch ≡ t.branch)
      → ((t : Task) → (f t).assumption_flag ≡ t.assumption_flag)
      → ((t : Task) → (f t).pr_url ≡ t.pr_url)
      → ((t : Task) → (f t).pr_number ≡ t.pr_number)
      → ((t : Task)
          → is_ci_state (f t).ci_state passing ≡ true
          → (is_ci_state t.ci_state passing ≡ true) ⊎ (is_green_run event ≡ true))
      → Keeps AllAdvanced (update_where job.now p f)
  unfolding stamp
  plain_update p f id project worker status branch flag url number ci =
      Advanced-update_where p f λ old t m adv db hit. record {
        same_id = id t ∙ adv.same_id;
        same_project = project t ∙ adv.same_project;
        same_worker = worker t ∙ adv.same_worker;
        same_branch = branch t ∙ adv.same_branch;
        same_flag = flag t ∙ adv.same_flag;
        url = elim adv.url [ inl same ↦ inl (url t ∙ same) | inr by ↦ inr by ];
        number = elim adv.number [
          | inl known ↦ inl (subst (Numbered job event projects old) (sym (number t)) known)
          | inr at_end ↦ inr (status t ∙ at_end)
        ];
        green_after =
            λ green. elim (ci t green) [ inl was ↦ adv.green_after was | inr run ↦ inr run ];
        move = subst (Move job event projects old) (sym (status t)) adv.move;
      }

  automatic_of :
      (old t : Task)
      → Advanced job event projects old t
      → Candidate event projects t
      → (a : Automatic job event projects old) × (same_status t.status needs_review ≡ true
          → same_mode a.project.mode auto ≡ true)
  automatic_of old t adv c = (
    record {
      goes = c.goes;
      project = c.project;
      listed = c.listed;
      owns = c.owns ∙ adv.same_project;
      grants = c.grants;
      by_agents = sym adv.same_worker ∙ c.by_agents;
      green = adv.green_after c.green;
    },
    c.review,
  )

  -- The row before the event, of a row that was read.
  row_before :
      (db : Db) (t old : Task)
      → AllAdvanced db
      → Memᴰ t db.tasks
      → Memᴰ old start
      → old.id ≡ t.id
      → Advanced job event projects old t
  row_before db t old h m before same =
      let (first, at, adv) = Pairwise-Memᴰ (Advanced job event projects) start db.tasks h m in
      subst (λ x. Advanced job event projects x t)
        (unique first old at before (sym adv.same_id ∙ sym same)) adv

  in_event :
      (n : ℕ)
      → elem n (project_ids projects) ≡ true
      → (p : ProjectRow) × Memᴰ p projects × (n ≡ p.id)
  in_event n h =
      Memᴰ-map_elim (λ (p : ProjectRow). p.id) projects ((elem_iff n (project_ids projects)).0 h)

  same_event : (e1 e2 : PullRequestEvent) → pull_request e1 ≡ pull_request e2 → e1 ≡ e2
  same_event e1 e2 h = cc

  -- A row that the event matches is the task's of the event, whatever the event has written to it.
  of_event :
      (e : PullRequestEvent)
      → event ≡ pull_request e
      → (old t : Task) → Advanced job event projects old t
      → matches_pr (project_ids projects) e t ≡ true
      → OfEvent job event projects old e
  of_event e is_e old t adv hit =
      let (p, listed, own) = in_event t.project_id (ground arith) in
      let here : ((old.branch ≡ some e.head_branch) ⊎ (old.pr_url ≡ some e.pr_url))
          → OfEvent job event projects old e =
        λ linked. record {
          is_event = is_e;
          project = p;
          listed = listed;
          owns = sym own ∙ adv.same_project;
          linked = linked;
        } in
      elim (Bool-cases (is_text t.branch e.head_branch)) [
        | inl by_branch ↦
            here (inl (sym adv.same_branch ∙ is_text-some t.branch e.head_branch by_branch))
        | inr other ↦ elim adv.url [
          | inl same ↦
              here (inr (sym same ∙ is_text-some t.pr_url e.pr_url (ground (arith, other, hit))))
          | inr (e1, of) ↦
              subst (OfEvent job event projects old) (same_event e1 e (sym of.is_event ∙ is_e)) of
        ]
      ]

  matched_at :
      (db : Db) (t : Task) (e : PullRequestEvent)
      → AllAdvanced db
      → Memᴰ t db.tasks
      → event ≡ pull_request e
      → matches_pr (project_ids projects) e t ≡ true
      → WasMatched t.id
  matched_at db t e h m is_e hit old before same =
      (e, of_event e is_e old t (row_before db t old h m before same) hit)

  elem-WasMatched :
      (ids : List ℕ) (id : ℕ) → All WasMatched ids → elem id ids ≡ true → WasMatched id
  elem-WasMatched ids id all h = All-Memᴰ WasMatched ids all ((elem_iff id ids).0 h)

  -- A row that waits for its merge has one of two statuses, and is not done.
  waiting : (t : Task) → is_waiting t ≡ true → (t.status ≡ needs_review) ⊎ (t.status ≡ approved)
  waiting t h =
      ground (arith, same_status_iff t.status needs_review, same_status_iff t.status approved)

  merged_on_github :
      (old t : Task)
      → Advanced job event projects old t
      → is_waiting t ≡ true
      → (n : ℕ) → HasLanded job event t n
      → MergedOnGithub job event projects old
  merged_on_github old t adv waits n h = record {
    unflagged = sym adv.same_flag ∙ h.unflagged;
    number = n;
    stored = t.pr_number;
    numbered = elim adv.number [
      | inl known ↦ known
      | inr at_end ↦ absurd (ground (arith, waits, at_end))
    ];
    ctx = h.ctx;
    at_installation = h.at_installation;
    in_repo = h.in_repo;
    landed =
        subst (λ branch. Landed job.github_app h.ctx t.pr_number branch n) adv.same_branch h.landed;
  }

  approves_at :
      (db : Db) (t : Task)
      → AllAdvanced db
      → Memᴰ t db.tasks
      → Candidate event projects t
      → same_status t.status needs_review ≡ true
      → MayApprove t.id
  approves_at db t h m c review old before same =
      let (a, mode) = automatic_of old t (row_before db t old h m before same) c in (a, mode review)

  finishes_at :
      (db : Db) (t : Task)
      → AllAdvanced db
      → Memᴰ t db.tasks
      → Candidate event projects t
      → (n : ℕ) → HasLanded job event t n
      → MayFinish t.id n
  finishes_at db t h m c n landed old before same =
      let adv = row_before db t old h m before same in
      let (a, mode) = automatic_of old t adv c in
      (
        merged_on_github old t adv c.waits n landed,
        a,
        λ review. elim adv.move [
          | stays e ↦ (a, mode ((same_status_iff t.status needs_review).1 (e ∙ review)))
          | merged_there was now e of landed_ ↦ absurd (not_both (sym review ∙ was))
          | merged_here was now by landed_ ↦ absurd (not_both (sym review ∙ was))
          | judged was now by auto_mode ↦ (by, auto_mode)
        ],
      )
    where
      not_both : ¬ (needs_review ≡ approved)
      not_both h = cc

  -- The merge of a row that waits for it.
  finished_move :
      (old : Task) (status : Status)
      → Move job event projects old status
      → (status ≡ needs_review) ⊎ (status ≡ approved)
      → MergedOnGithub job event projects old
      → Automatic job event projects old
      → (old.status ≡ needs_review
          → (a : Automatic job event projects old) × (same_mode a.project.mode auto ≡ true))
      → Move job event projects old done
  finished_move old status (stays e) (inl review) g a may =
      let (by, mode) = may (sym e ∙ review) in judged (sym e ∙ review) (inr (refl, g)) by mode
  finished_move old status (stays e) (inr ready_) g a may = merged_here (sym e ∙ ready_) refl a g
  finished_move old status (merged_there was now e of there) w g a may =
      merged_there was refl e of there
  finished_move old status (merged_here was now by landed_) w g a may =
      merged_here was refl by landed_
  finished_move old status (judged was now by mode) w g a may = judged was (inr (refl, g)) by mode

  completed_move :
      (old : Task) (status : Status)
      → Move job event projects old status
      → status ≡ approved
      → (e : PullRequestEvent) → OfEvent job event projects old e
      → e.pr_state ≡ merged
      → Move job event projects old done
  completed_move old status (stays same) was e of there =
      merged_there (sym same ∙ was) refl e of there
  completed_move old status (merged_there before now e1 of1 there1) was e of there =
      merged_there before refl e of there
  completed_move old status (merged_here before now by landed_) was e of there =
      merged_there before refl e of there
  completed_move old status (judged before now by mode) was e of there =
      absurd (not_open e.pr_state there (sym (ap progresses of.is_event) ∙ by.goes))
    where
      not_open : (p : PrState) → p ≡ merged → ¬ (same_pr_state p open_ ≡ true)
      not_open p h g = ground (arith, h)

  review_not_done : ¬ (needs_review ≡ done)
  review_not_done h = cc

  approved_move :
      (old : Task) (status : Status)
      → Move job event projects old status
      → status ≡ needs_review
      → (a : Automatic job event projects old) → same_mode a.project.mode auto ≡ true
      → Move job event projects old approved
  approved_move old status (stays e) was a mode = judged (sym e ∙ was) (inl refl) a mode
  approved_move old status (merged_there before now e of there) was a mode =
      absurd (review_not_done (sym was ∙ now))
  approved_move old status (merged_here before now by landed_) was a mode =
      absurd (review_not_done (sym was ∙ now))
  approved_move old status (judged before now by auto_mode) was a mode =
      judged before (inl refl) by auto_mode

  WorkerRules-AllAdvanced : WorkerRules AllAdvanced job event projects
  unfolding pr_patch ci_patch completed_patch escalated_patch retried_patch ask_rerun
      worker_finalize_merged worker_merged_patch worker_approve worker_approved_patch
      insert_deployment enqueue_deploy update_projects stamp
  WorkerRules-AllAdvanced = record {
    Known = λ id. Unit;
    Matched = WasMatched;
    Approves = MayApprove;
    Finishes = MayFinish;
    known = λ db t h m own. tt;
    approves = approves_at;
    finishes = finishes_at;
    matched = matched_at;
    record_pr = λ e is_e. Advanced-update_where _ _ λ old t m adv db hit.
        let of = of_event e is_e old t adv hit in
        record {
          same_id = adv.same_id;
          same_project = adv.same_project;
          same_worker = adv.same_worker;
          same_branch = adv.same_branch;
          same_flag = adv.same_flag;
          url = inr (e, of);
          number = inl (by_event e of refl);
          green_after = adv.green_after;
          move = adv.move;
        };
    complete = λ e ids is_e landed all. Advanced-update_where _ _ λ old t m adv db hit.
        let (e1, of) = elem-WasMatched ids t.id all (ground arith) old m (sym adv.same_id) in
        record {
          same_id = adv.same_id;
          same_project = adv.same_project;
          same_worker = adv.same_worker;
          same_branch = adv.same_branch;
          same_flag = adv.same_flag;
          url = adv.url;
          number = inr refl;
          green_after = adv.green_after;
          move =
              completed_move old t.status adv.move
                ((same_status_iff t.status approved).0 (ground arith)) e1 of
                (ap (λ (x : PullRequestEvent). x.pr_state)
                    (same_event e1 e (sym of.is_event ∙ is_e))
                  ∙ landed);
        };
    record_ci = λ e c is_e.
        plain_update _ _ (λ t. refl) (λ t. refl) (λ t. refl) (λ t. refl) (λ t. refl) (λ t. refl)
          (λ t. refl) (λ t. refl) (λ t green. inr (ap is_green_run is_e ∙ green));
    escalate = λ ids all.
        plain_update _ _ (λ t. refl) (λ t. refl) (λ t. refl) (λ t. refl) (λ t. refl) (λ t. refl)
          (λ t. refl) (λ t. refl) (λ t was. inl was);
    mark_retried = λ e ids all.
        plain_update _ _ (λ t. refl) (λ t. refl) (λ t. refl) (λ t. refl) (λ t. refl) (λ t. refl)
          (λ t. refl) (λ t. refl) (λ t was. inl was);
    approve = λ id may. Advanced-update_where _ _ λ old t m adv db hit.
        let (a, mode) = may old m (sym adv.same_id ∙ ground arith) in
        record {
          same_id = adv.same_id;
          same_project = adv.same_project;
          same_worker = adv.same_worker;
          same_branch = adv.same_branch;
          same_flag = adv.same_flag;
          url = adv.url;
          number = elim adv.number [
            | inl known ↦ inl known
            | inr at_end ↦ absurd (
                review_not_done
                  (sym ((same_status_iff t.status needs_review).0 (ground arith)) ∙ at_end))
          ];
          green_after = adv.green_after;
          move =
              approved_move old t.status adv.move
                ((same_status_iff t.status needs_review).0 (ground arith)) a mode;
        };
    finish = λ id n may.
        Keeps-bind AllAdvanced _ _
          (Advanced-update_where _ _ λ old t m adv db hit.
            let (merged_, a, review) = may old m (sym adv.same_id ∙ ground arith) in
            record {
              same_id = adv.same_id;
              same_project = adv.same_project;
              same_worker = adv.same_worker;
              same_branch = adv.same_branch;
              same_flag = adv.same_flag;
              url = adv.url;
              number = inr refl;
              green_after = adv.green_after;
              move =
                  finished_move old t.status adv.move (waiting t (ground arith)) merged_ a review;
            })
          (λ rows. Keeps-pure _ tt);
    resume = λ p m. Keeps-modify _ _ (λ db h. h);
    pause = λ p c m. Keeps-modify _ _ (λ db h. h);
    add_deployment = λ p env. Keeps-modify _ _ (λ db h. h);
    enqueue = λ id. Keeps-then _ _ _ (Keeps-check _ _) (Keeps-modify _ _ (λ db h. h));
    rerun = λ e. Keeps-modify _ _ (λ db h. h);
  }

same_row :
    (job : Job) (event : GithubWebhookJobPayload) (projects : List ProjectRow) (t : Task)
    → Advanced job event projects t t
same_row job event projects t = record {
  same_id = refl;
  same_project = refl;
  same_worker = refl;
  same_branch = refl;
  same_flag = refl;
  url = inl refl;
  number = inl (as_stored refl);
  green_after = λ green. inl green;
  move = stays refl;
}

-- From valid tables, an event adds, drops and reorders no task, and a task's status makes one of
-- these moves, or none. Approved work is done once the event says that the pull request of its branch
-- or of its link, in one of the event's projects, was merged; or once GitHub, asked by the worker in
-- the event's installation and repository, has merged its pull request or answered that it is merged:
-- the one of the number stored on the task or of the event's number, or the one that GitHub has or
-- makes for the task's branch. The worker approves work in review, and may merge it so at once, only in
-- a project of mode `auto`. Whatever the worker judges or merges is an agent's, with green checks, in
-- a project that grants automatic merges, after a green run or the opening of a pull request, and what
-- it merges carries no flagged assumption.
pub process-Advanced :
    (job : Job) (event : GithubWebhookJobPayload) (db : Db) (org : Organization)
    → organization_of db (installation_of event) ≡ some org
    → IsValid db
    → Pairwise
        (Advanced job event (projects_of_event db org.id (repo_of event)))
        db.tasks
        (process job event db).1.tasks
process-Advanced job event db org found h =
    process_at
      (AllAdvanced job event (projects_of_event db org.id (repo_of event)) db.tasks h.unique) job
      event db
      (λ other e.
        subst
          (λ (o : Organization).
            WorkerRules
              (AllAdvanced job event (projects_of_event db org.id (repo_of event)) db.tasks
                h.unique)
              job event (projects_of_event db o.id (repo_of event)))
          (ap (λ o. or_else o org) (sym found ∙ e))
          (WorkerRules-AllAdvanced job event (projects_of_event db org.id (repo_of event)) db.tasks
            h.unique))
      (Pairwise-refl _ (same_row job event (projects_of_event db org.id (repo_of event))) db.tasks)
