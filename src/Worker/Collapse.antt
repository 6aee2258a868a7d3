-- ===== src/Worker/Collapse.antt =====
-- Merges that come while a deployment is under way collapse into it.
use specbook.Base.{
  ℕ, ◌<◌, ◌≡◌, refl, Bool, true, false, List, [], ◌∷◌, ◌++◌, filter, leb, ◌==◌, ==_self, All,
  All-filter, Bool-cases, inl, inr, arith,
}
use specbook.Rows.{Deployment, ProjectEnvironment}
use specbook.Action.{Db, ◌>>=◌, ◌>>◌, gets, resume, pure, modify}
use specbook.Action.Keeps.{Keeps, Keeps-then, Keeps-check, Keeps-modify}
use specbook.Worker.{Job}
use specbook.Worker.Projects.{ProjectRow}
use specbook.Worker.Deploy.{
  insert_newest, newest_first, recent_deployments, queued_deployment, insert_deployment,
  enqueue_deploy, absorbs_or_holds, deploy_environment,
}

filter_snoc :
    {A : Type 0} (q : A → Bool) (xs : List A) (x : A)
    → q x ≡ true
    → filter q (xs ++ x ∷ []) ≡ filter q xs ++ x ∷ []
filter_snoc q [] x hit = rw hit refl
filter_snoc q (y ∷ ys) x hit = elim (Bool-cases (q y)) [
  | inl keeps ↦ rw (keeps, filter_snoc q ys x hit) refl
  | inr drops ↦ rw (drops, filter_snoc q ys x hit) refl
]

-- The latest deployment comes first.
newest_head :
    (d : Deployment) (xs : List Deployment)
    → All (λ x. x.created_at < d.created_at) xs
    → (rest : List Deployment) × (newest_first (xs ++ d ∷ []) ≡ d ∷ rest)
unfolding newest_first insert_newest
newest_head d [] before = ([], refl)
newest_head d (x ∷ xs) before =
    let (rest, e) = newest_head d xs before.1 in
    let later : leb d.created_at x.created_at ≡ false = ground (arith, before.0) in
    (insert_newest x rest, rw (e, later) refl)

-- A deployment that has just been queued absorbs the next trigger.
queued_absorbs :
    (job : Job) (p : ProjectRow) (id : ℕ) (db new : Db)
    → new.deployments ≡ db.deployments ++ queued_deployment job p id ∷ []
    → All (λ d. d.created_at < job.now) db.deployments
    → absorbs_or_holds (recent_deployments new id) ≡ true
unfolding absorbs_or_holds recent_deployments
queued_absorbs job p id db new added before =
    let d = queued_deployment job p id in
    let of_environment = λ (x : Deployment). x.environment_id == id in
    let (rest, e) =
      newest_head d (filter of_environment db.deployments)
        (All-filter (λ x. x.created_at < job.now) of_environment db.deployments before) in
    rw (added, filter_snoc of_environment db.deployments d (==_self id), e) refl

absorbed :
    (job : Job) (p : ProjectRow) (env : ProjectEnvironment) (db : Db)
    → absorbs_or_holds (recent_deployments db env.id) ≡ true
    → (deploy_environment job p env db).1 ≡ db
unfolding deploy_environment ◌>>=◌ gets resume pure
absorbed job p env db held = rw held refl

enqueue_deploy-Keeps :
    (job : Job) (id : ℕ) (rows : List Deployment)
    → Keeps (λ db. db.deployments ≡ rows) (enqueue_deploy job id)
unfolding enqueue_deploy
enqueue_deploy-Keeps job id rows = Keeps-then _ _ _ (Keeps-check _ _) (Keeps-modify _ _ (λ db h. h))

deployed :
    (job : Job) (p : ProjectRow) (env : ProjectEnvironment) (db : Db)
    → absorbs_or_holds (recent_deployments db env.id) ≡ false
    → (deploy_environment job p env db).1.deployments
      ≡ db.deployments ++ queued_deployment job p env.id ∷ []
unfolding deploy_environment insert_deployment modify ◌>>=◌ ◌>>◌ gets resume
deployed job p env db free = rw free (
    (enqueue_deploy-Keeps job (job.new_deployment_id env.id)
        (db.deployments ++ queued_deployment job p env.id ∷ [])).at
      (record db { deployments = db.deployments ++ queued_deployment job p env.id ∷ [] }) refl)

-- A second trigger of an environment changes nothing, whether the first started a deployment, found
-- one under way or was held, and also where the queue refused the job of the first. The deployments
-- that were there had been created before the first trigger.
pub triggers_collapse :
    (first second : Job) (p q : ProjectRow) (env : ProjectEnvironment) (db : Db)
    → All (λ d. d.created_at < first.now) db.deployments
    → (deploy_environment second q env (deploy_environment first p env db).1).1
      ≡ (deploy_environment first p env db).1
triggers_collapse first second p q env db before =
    elim (Bool-cases (absorbs_or_holds (recent_deployments db env.id))) [
      | inl held ↦
          let same = absorbed first p env db held in rw same (absorbed second q env db held)
      | inr free ↦ absorbed second q env (deploy_environment first p env db).1 (
          queued_absorbs first p env.id db (deploy_environment first p env db).1
            (deployed first p env db free) before)
    ]
