-- ===== src/Server/AutoDeploy.antt =====
-- packages/server/src/modules/deploy/auto-deploy.ts: the breaker of the automatic deployments.
use specbook.Base.{
  ℕ, suc, ◌+◌, ◌≤◌, ◌≡◌, String, Bool, true, false, some, List, [], ◌∷◌, is_text, leb, count_where,
  Bool-cases, inl, inr, ◌&&◌, ◌||◌, if◌then◌else◌, arith,
}

pub record DeploymentVerdict : Type 0 where
  pub status : String
  pub trigger : String

abbrev pub is_healthy : DeploymentVerdict → Bool
is_healthy d = is_text (some d.status) "healthy"

-- `['queued', 'building', 'deploying'].includes(d.status)`
abbrev pub is_running : DeploymentVerdict → Bool
is_running d =
    is_text (some d.status) "queued"
    || is_text (some d.status) "building"
    || is_text (some d.status) "deploying"

abbrev pub is_auto_failure : DeploymentVerdict → Bool
is_auto_failure d = is_text (some d.status) "failed" && is_text (some d.trigger) "auto"

-- The loop, with the failures that it has counted.
unfoldable pub paused_after : ℕ → List DeploymentVerdict → Bool
paused_after failures [] = false
paused_after failures (d ∷ rest) =
    let counted = paused_after (suc failures) rest in
    let passed = paused_after failures rest in
    if is_healthy d
    then false
    else if is_running d
    then false
    else if is_auto_failure d
    then (if leb 2 (suc failures) then true else counted)
    else passed

-- computeAutoDeployPaused, on the deployments newest first.
unfoldable pub compute_auto_deploy_paused : List DeploymentVerdict → Bool
unfolding paused_after
compute_auto_deploy_paused deployments = paused_after 0 deployments

-- The deployments since the latest one that succeeded or is still running.
abbrev pub since_settled : List DeploymentVerdict → List DeploymentVerdict
since_settled [] = []
since_settled (d ∷ rest) = if is_healthy d || is_running d then [] else d ∷ since_settled rest

paused_after-counts :
    (failures : ℕ) (ds : List DeploymentVerdict)
    → failures ≤ 1
    → paused_after failures ds ≡ leb 2 (failures + count_where is_auto_failure (since_settled ds))
unfolding paused_after
paused_after-counts failures [] h = ground arith
paused_after-counts failures (d ∷ rest) h = elim (Bool-cases (is_healthy d)) [
  | inl well ↦ rw well (ground arith)
  | inr other ↦ elim (Bool-cases (is_running d)) [
    | inl running ↦ rw (other, running) (ground arith)
    | inr settled ↦ elim (Bool-cases (is_auto_failure d)) [
      | inr skip ↦ rw (other, settled, skip) (paused_after-counts failures rest h)
      | inl failed ↦ elim (Bool-cases (leb 2 (suc failures))) [
        | inl reached ↦ rw (other, settled, failed, reached) (ground (arith, reached))
        | inr below ↦
            rw (other, settled, failed, below)
              (let rest_counts = paused_after-counts (suc failures) rest (ground (arith, below)) in
                ground (arith, rest_counts))
      ]
    ]
  ]
]

-- The breaker is open exactly when, since the latest deployment that succeeded or is still running,
-- at least two automatic deployments have failed; failures of manual ones do not count.
pub paused_counts_auto_failures :
    (ds : List DeploymentVerdict)
    → compute_auto_deploy_paused ds ≡ leb 2 (count_where is_auto_failure (since_settled ds))
unfolding compute_auto_deploy_paused
paused_counts_auto_failures ds =
    let counts = paused_after-counts 0 ds (omega arith) in ground (arith, counts)
