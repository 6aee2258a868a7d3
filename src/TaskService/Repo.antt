-- ===== src/TaskService/Repo.antt =====
-- `githubRepoContext` of apps/api/src/tasks/task.service.ts: the repository of a task's project.
use Prim.Native.Char.{Char, code}
use specbook.Base.{
  ◌≡◌, refl, ℕ, String, Bool, true, false, Option, none, some, ◌==◌, ◌&&◌, ◌||◌, not, is_space,
  is_empty, is_given, coalesce, if◌then◌else◌, find?,
}
use specbook.Rows.{Project}
use specbook.Result.{
  Result, ok, ◌>>=◌, ◌>>◌, fail_if, or_fail, github_not_connected, project_not_found,
  project_not_bound,
}
use specbook.Action.{Db}
use specbook.Github.{Github}
use specbook.ProjectRepository.{find_project}

-- What is left of the second text when it begins with the first.
after_prefix : String → String → Option String
after_prefix String.[] s = some s
after_prefix (String.◌∷◌ c p) String.[] = none
after_prefix (String.◌∷◌ c p) (String.◌∷◌ d s) =
    let rest = after_prefix p s in if code c == code d then rest else none

-- `[^/\s]`
abbrev is_segment_char : Char → Bool
is_segment_char c = not (code c == b'/') && not (is_space (code c))

-- What `\/?$` matches.
abbrev is_slash_end : Option String → Bool
is_slash_end none = false
is_slash_end (some String.[]) = true
is_slash_end (some (String.◌∷◌ c s)) = code c == b'/' && is_empty s

-- What the end of the pattern matches, `(?:\.git)?\/?$`.
ends_url : String → Bool
unfolding after_prefix
ends_url s = is_slash_end (some s) || is_slash_end (after_prefix ".git" s)

abbrev put_char : Char → Option String → Option String
put_char c none = none
put_char c (some s) = some (String.◌∷◌ c s)

-- `[^/\s]+?` and the end of the pattern: the shortest name that the end can follow.
repo_name : String → Option String
unfolding ends_url
repo_name String.[] = none
repo_name (String.◌∷◌ c s) =
    let rest = repo_name s in
    if is_segment_char c
    then (if ends_url s then some (String.◌∷◌ c String.[]) else put_char c rest)
    else none

-- `[^/\s]+\/` and the name. The flag says that the owner has a character.
repo_path : Bool → String → Option String
unfolding repo_name
repo_path has_owner String.[] = none
repo_path has_owner (String.◌∷◌ c s) =
    let rest = repo_path true s in
    if code c == b'/'
    then (if has_owner then put_char c (repo_name s) else none)
    else if is_space (code c)
    then none
    else put_char c rest

repo_of_rest : Option String → Option String
unfolding repo_path
repo_of_rest none = none
repo_of_rest (some s) = repo_path false s

-- The first group of `/^https:\/\/github\.com\/([^/\s]+\/[^/\s]+?)(?:\.git)?\/?$/`.
unfoldable pub repo_of_url : String → Option String
unfolding after_prefix repo_of_rest
repo_of_url url = repo_of_rest (after_prefix "https://github.com/" url)

abbrev repo_of_free_text : Option String → Option String
unfolding repo_of_url
repo_of_free_text none = none
repo_of_free_text (some url) = repo_of_url url

pub record RepoContext : Type 0 where
  pub installation_id : ℕ
  pub repo_full_name : String
  pub default_branch : String

-- `orgService.githubConnection`, OrgRepository.findGithubConnection
unfoldable pub github_connection : Db → ℕ → Option ℕ
github_connection db org_id = elim (find? (λ o. o.id == org_id) db.organizations) [
  | none ↦ none
  | some o ↦ o.github_installation_id
]

-- The repository's full name: the bound one, else the one in the free text; an empty one is none.
abbrev pub repo_full_name_of : Project → Option String
unfolding repo_of_free_text
repo_full_name_of p =
    let name = coalesce p.github_repo_full_name (repo_of_free_text p.repo_url) in
    if is_given name then name else none

-- `proj.defaultBranch || 'main'`
abbrev pub base_branch : Project → String
base_branch p = if is_empty p.default_branch then "main" else p.default_branch

-- `githubRepoContext`
unfoldable pub github_repo_context : Github → ℕ → ℕ → Db → Result RepoContext
unfolding github_connection repo_full_name_of
github_repo_context github org_id project_id db = do
  fail_if (not github.enabled) github_not_connected
  proj ← or_fail project_not_found (find_project db project_id org_id none)
  repo ← or_fail project_not_bound (repo_full_name_of proj)
  installation ← or_fail github_not_connected (github_connection db org_id)
  ok (record {
    installation_id = installation;
    repo_full_name = repo;
    default_branch = base_branch proj;
  })

repo_urls :
    (repo_of_url "https://github.com/acme/app.git/" ≡ some "acme/app")
    × (repo_of_url "https://github.com/acme/app" ≡ some "acme/app")
    × (repo_of_url "https://github.com/acme/.git" ≡ some "acme/.git")
    × (repo_of_url "https://github.com/acme/app/tree" ≡ none)
unfolding repo_of_url
repo_urls = (refl, refl, refl, refl)
