-- ===== src/Worker/Deploy.antt =====
-- `autoDeploy` of apps/worker/src/queues/github-webhook/github-webhook.processor.ts.
use specbook.Base.{
  ℕ, String, Bool, true, List, [], ◌∷◌, ◌++◌, map, any, filter, take, is_text, leb, some, ◌==◌,
  ◌&&◌, if◌then◌else◌,
}
use specbook.Rows.{Deployment, ProjectEnvironment}
use specbook.Action.{Db, Action, pure, gets, check, modify, when, for_each, ◌>>=◌, ◌>>◌}
use specbook.Server.AutoDeploy.{DeploymentVerdict, is_running, compute_auto_deploy_paused}
use specbook.Worker.{Job}
use specbook.Worker.Projects.{ProjectRow}

abbrev pub verdict_of : Deployment → DeploymentVerdict
verdict_of d = record { status = d.status; trigger = d.trigger }

-- `ORDER BY created_at DESC`
unfoldable pub insert_newest : Deployment → List Deployment → List Deployment
insert_newest d [] = d ∷ []
insert_newest d (e ∷ rest) =
    let later = insert_newest d rest in
    if leb e.created_at d.created_at then d ∷ e ∷ rest else e ∷ later

unfoldable pub newest_first : List Deployment → List Deployment
unfolding insert_newest
newest_first [] = []
newest_first (d ∷ rest) = insert_newest d (newest_first rest)

-- The ten newest deployments of an environment.
unfoldable pub recent_deployments : Db → ℕ → List DeploymentVerdict
unfolding newest_first
recent_deployments db environment_id =
    map verdict_of
      (take 10 (newest_first (filter (λ d. d.environment_id == environment_id) db.deployments)))

abbrev pub queued_deployment : Job → ProjectRow → ℕ → Deployment
queued_deployment job p environment_id = record {
  id = job.new_deployment_id environment_id;
  environment_id = environment_id;
  sha = "";
  status = "queued";
  trigger = "auto";
  created_by = p.created_by;
  created_at = job.now;
}

unfoldable pub insert_deployment : Deployment → Action (Unit {0})
unfolding modify
insert_deployment d = modify λ db. record db { deployments = db.deployments ++ d ∷ [] }

-- DeploymentProducer.enqueueDeploy
unfoldable pub enqueue_deploy : Job → ℕ → Action (Unit {0})
unfolding modify
enqueue_deploy job id = do
  check (λ db. job.enqueue_deploy id)
  modify λ db. record db { deploy_queue = db.deploy_queue ++ id ∷ [] }

-- A deployment that is under way absorbs the trigger, and two failed ones in a row hold it.
unfoldable pub absorbs_or_holds : List DeploymentVerdict → Bool
absorbs_or_holds recent = if any is_running recent then true else compute_auto_deploy_paused recent

-- One environment of a project.
unfoldable pub deploy_environment : Job → ProjectRow → ProjectEnvironment → Action (Unit {0})
unfolding absorbs_or_holds
deploy_environment job p env = do
  recent ← gets (λ db. recent_deployments db env.id)
  if absorbs_or_holds recent then pure tt else (do
    insert_deployment (queued_deployment job p env.id)
    enqueue_deploy job (job.new_deployment_id env.id))

abbrev pub deploys_itself : ℕ → ProjectEnvironment → Bool
deploys_itself project_id env =
    env.project_id == project_id
    && env.auto_deploy
    && is_text (some env.provision_status) "provisioned"

unfoldable pub deploy_project : Job → ProjectRow → Action (Unit {0})
unfolding deploy_environment
deploy_project job p = do
  environments ← gets (λ db. filter (deploys_itself p.id) db.environments)
  for_each environments (deploy_environment job p)

-- `autoDeploy`
unfoldable pub auto_deploy : Job → List ProjectRow → String → Action (Unit {0})
unfolding deploy_project
auto_deploy job projects base_branch =
    for_each projects
      (λ p. when (is_text (some base_branch) p.default_branch) (deploy_project job p))
