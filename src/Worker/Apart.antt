-- ===== src/Worker/Apart.antt =====
-- The tables while an event of one organization is served, kept apart from the others.
use specbook.Base.{
  ℕ, ◌≡◌, ◌≢◌, refl, sym, ap, ◌∙◌, Bool, true, not, List, set_where, filter-set_where, filter_ext,
  any-set_where, Memᴰ, Memᴰ-filter, Bool-cases, inl, inr, arith,
}
use mathlib.Core.Path.{subst}
use specbook.Rows.{Task, Project}
use specbook.Action.{Db, modify}
use specbook.Action.Keeps.{Keeps, Keeps-modify}
use specbook.ProjectRepository.{org_guard}
use specbook.TaskRepository.{update_where, stamp}
use specbook.Invariant.{IsValid}
use specbook.Invariant.Statements.{KeepsRow, Keeps-update_where, same_but}
use specbook.Handlers.{KeepsClaim}
use specbook.System.Isolation.{is_foreign, foreign_tasks}
use specbook.Worker.Events.{update_projects}

-- The tables while an event of the organization is served: the rows of the others are `rows`, and
-- its projects are those that it had.
pub record Apart (org_id : ℕ) (start : Db) (rows : List Task) (db : Db) : Type 0 where
  pub untouched : foreign_tasks db org_id ≡ rows
  pub same_guard : (n : ℕ) → org_guard db org_id n ≡ org_guard start org_id n
  pub valid : IsValid db

module _ (org_id : ℕ) (start : Db) (rows : List Task) where
  -- An identifier of none of the others' rows.
  abbrev pub Own : ℕ → Type 0
  Own id = (t : Task) → Memᴰ t rows → t.id ≢ id

  pub Own-task :
      (db : Db) (t : Task)
      → Apart org_id start rows db
      → Memᴰ t db.tasks
      → org_guard db org_id t.project_id ≡ true
      → Own t.id
  Own-task db t a m own f f_in same =
      let (there, foreign) =
        (Memᴰ-filter (is_foreign db org_id) f db.tasks).0 (subst (Memᴰ f) (sym a.untouched) f_in) in
      let e = a.valid.unique f t there m same in
      let own_f = ap (λ (x : Task). org_guard db org_id x.project_id) e ∙ own in
      ground (arith, foreign, own_f)

  pub Own-row :
      (db : Db) (t : Task) (id : ℕ)
      → Apart org_id start rows db
      → Memᴰ t db.tasks
      → t.id ≡ id
      → Own id
      → org_guard db org_id t.project_id ≡ true
  Own-row db t id a m same own = elim (Bool-cases (org_guard db org_id t.project_id)) [
    | inl ours ↦ ours
    | inr foreign ↦ absurd (
        own t
          (subst (Memᴰ t) a.untouched
            ((Memᴰ-filter (is_foreign db org_id) t db.tasks).1 (m, ap not foreign)))
          same)
  ]

  pub Apart-update_where :
      (now : ℕ) (p : Db → Task → Bool) (f : Task → Task)
      → KeepsRow f
      → KeepsClaim f
      → ((db : Db) (t : Task)
          → Apart org_id start rows db
          → Memᴰ t db.tasks
          → p db t ≡ true
          → org_guard db org_id t.project_id ≡ true)
      → Keeps (Apart org_id start rows) (update_where now p f)
  unfolding update_where stamp org_guard
  Apart-update_where now p f k claims guarded = record {
    at = λ db a. record {
      untouched =
          filter-set_where (is_foreign db org_id) (p db) (stamp now f) db.tasks (λ t m hit.
            let own = guarded db t a m hit in
            (ap not own, ap not (ap (org_guard db org_id) (k.same_project_id t) ∙ own)))
          ∙ a.untouched;
      same_guard = a.same_guard;
      valid = (Keeps-update_where now p f k claims).at db a.valid;
    };
  }

  pub Apart-update_projects :
      (p : Project → Bool) (f : Project → Project)
      → ((q : Project) → (f q).id ≡ q.id)
      → ((q : Project) → (f q).org_id ≡ q.org_id)
      → Keeps (Apart org_id start rows) (update_projects p f)
  unfolding update_projects org_guard
  Apart-update_projects p f same_id same_org = Keeps-modify _ _ λ db a.
      let guard : (n : ℕ)
          → org_guard (record db { projects = set_where p f db.projects }) org_id n
            ≡ org_guard db org_id n =
        λ n. any-set_where _ p f db.projects (λ q. rw (same_id q, same_org q) refl) in
      record {
        untouched =
            filter_ext _ (is_foreign db org_id) db.tasks (λ t. ap not (guard t.project_id))
            ∙ a.untouched;
        same_guard = λ n. guard n ∙ a.same_guard n;
        valid = same_but db _ refl refl a.valid;
      }

  pub Apart-same :
      (f : Db → Db)
      → ((db : Db) → (f db).tasks ≡ db.tasks)
      → ((db : Db) → (f db).projects ≡ db.projects)
      → ((db : Db) → (f db).dependencies ≡ db.dependencies)
      → Keeps (Apart org_id start rows) (modify f)
  unfolding org_guard
  Apart-same f tasks projects dependencies = Keeps-modify _ _ λ db a. record {
    untouched = rw (tasks db, projects db) a.untouched;
    same_guard = λ n. rw (projects db) (a.same_guard n);
    valid = same_but db (f db) (tasks db) (dependencies db) a.valid;
  }
