-- ===== src/Worker/Projects.antt =====
-- The projects of an event: the organization that holds the installation, and its live projects on
-- the event's repository.
use specbook.Base.{
  ℕ, String, Bool, Option, List, [], ◌∷◌, map, filter, find?, holds, is_none, is_text, concat, ◌==◌,
  ◌&&◌, ◌||◌,
}
use specbook.Rows.{Project, Organization, Mode}
use specbook.Action.{Db}
use specbook.Worker.{GithubWebhookJobPayload, pull_request, workflow_run}

-- ProjectRow
pub record ProjectRow : Type 0 where
  pub id : ℕ
  pub mode : Mode
  pub default_branch : String
  pub auto_paused_at : Option ℕ
  pub created_by : ℕ

abbrev pub installation_of : GithubWebhookJobPayload → ℕ
installation_of (pull_request e) = e.installation_id
installation_of (workflow_run e) = e.installation_id

abbrev pub repo_of : GithubWebhookJobPayload → String
repo_of (pull_request e) = e.repo_full_name
repo_of (workflow_run e) = e.repo_full_name

-- The organization that stores the installation.
unfoldable pub organization_of : Db → ℕ → Option Organization
organization_of db installation_id =
    find? (λ o. holds o.github_installation_id installation_id) db.organizations

-- `https://github.com/${event.repoFullName}`
abbrev pub repo_url_of : String → String
repo_url_of repo = concat ("https://github.com/" ∷ repo ∷ [])

-- The bound projects match by name, the others by their address, with or without `.git`.
unfoldable pub is_on_repo : String → Project → Bool
is_on_repo repo p =
    is_text p.github_repo_full_name repo
    || is_text p.repo_url (repo_url_of repo)
    || is_text p.repo_url (concat (repo_url_of repo ∷ ".git" ∷ []))

abbrev pub row_of : Project → ProjectRow
row_of p = record {
  id = p.id;
  mode = p.mode;
  default_branch = p.default_branch;
  auto_paused_at = p.auto_paused_at;
  created_by = p.created_by;
}

abbrev pub is_project_of_event : ℕ → String → Project → Bool
is_project_of_event org_id repo p = p.org_id == org_id && is_none p.archived_at && is_on_repo repo p

unfoldable pub projects_of_event : Db → ℕ → String → List ProjectRow
projects_of_event db org_id repo = map row_of (filter (is_project_of_event org_id repo) db.projects)

abbrev pub project_ids : List ProjectRow → List ℕ
project_ids projects = map (λ p. p.id) projects
