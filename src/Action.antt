-- ===== src/Action.antt =====
-- A request handler of the api: it reads and writes the database, and may throw. What was written
-- before a throw stays written, since the handlers open no transaction.
pub mod Keeps
pub mod Runs
pub mod Throws
use specbook.Base.{
  ℕ, String, Bool, true, false, Option, none, some, List, [], ◌∷◌, ◌++◌, if◌then◌else◌,
}
use specbook.Result.{Error, Result, ok, err, or_fail, fail_if}
use specbook.Rows.{
  Task, Dependency, TaskComment, Project, Organization, ProjectMember, OrganizationUser,
  Notification, ProjectEnvironment, Deployment,
}
use specbook.Rows.Accounts.{User, Invitation}

-- A call of `rerunFailedJobs`.
pub record Rerun : Type 0 where
  pub installation_id : ℕ
  pub repo_full_name : String
  pub run_id : ℕ

-- The tables that the handlers touch, the deployments put on the queue by their identifiers, and
-- the re-runs asked of GitHub.
pub record Db : Type 0 where
  pub organizations : List Organization
  pub organization_users : List OrganizationUser
  pub projects : List Project
  pub project_members : List ProjectMember
  pub tasks : List Task
  pub dependencies : List Dependency
  pub comments : List TaskComment
  pub notifications : List Notification
  pub users : List User
  pub invitations : List Invitation
  pub environments : List ProjectEnvironment
  pub deployments : List Deployment
  pub deploy_queue : List ℕ
  pub reruns : List Rerun

abbrev pub Action : Type 0 → Type 0
Action A = Db → Result A × Db

module _ {A : Type 0} where
  unfoldable pub pure : A → Action A
  pure a db = (ok a, db)

  unfoldable pub raise : Error → Action A
  raise e db = (err e, db)

  unfoldable pub gets : (Db → A) → Action A
  gets f db = (ok (f db), db)

  -- The reads and the checks of a handler.
  unfoldable pub check : (Db → Result A) → Action A
  check f db = (f db, db)

  unfoldable pub or_raise : Error → Option A → Action A
  or_raise e o db = (or_fail e o, db)

-- `if (b) throw e`
unfoldable pub raise_if : Bool → Error → Action (Unit {0})
raise_if b e db = (fail_if b e, db)

unfoldable pub modify : (Db → Db) → Action (Unit {0})
modify f db = (ok tt, f db)

-- What follows a call: the rest of the handler, or the throw passed on.
unfoldable pub resume : {A B : Type 0} → (A → Action B) → Result A × Db → Result B × Db
resume f (ok a, db) = f a db
resume f (err e, db) = (err e, db)

infixl 5 ◌>>=◌ ◌>>◌
unfoldable pub ◌>>=◌ : {A B : Type 0} → Action A → (A → Action B) → Action B
unfolding resume
◌>>=◌ m f db = resume f (m db)

unfoldable pub ◌>>◌ : {B : Type 0} → Action (Unit {0}) → Action B → Action B
unfolding ◌>>=◌
m >> k = m >>= λ _. k

-- `try { await m } catch { log }`: a throw ends the block and no more.
unfoldable pub attempt : Action (Unit {0}) → Action (Unit {0})
attempt m db = (ok tt, (m db).1)

-- `if (b) await m`
unfoldable pub when : Bool → Action (Unit {0}) → Action (Unit {0})
when true m db = m db
when false m db = (ok tt, db)

-- `for (const a of list) await f(a)`
unfoldable pub for_each : {A : Type 0} → List A → (A → Action (Unit {0})) → Action (Unit {0})
unfolding resume
for_each [] f db = (ok tt, db)
for_each (a ∷ rest) f db = resume (λ _. for_each rest f) (f a db)
