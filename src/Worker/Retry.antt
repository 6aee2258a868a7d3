-- ===== src/Worker/Retry.antt =====
-- `maybeRetry`: the failed jobs of a head commit are run again once.
use specbook.Base.{
  String, ◌≡◌, ◌≢◌, refl, sym, ap, ◌∙◌, Bool, true, false, not, Option, none, some, List, [], ◌∷◌,
  ◌++◌, map, filter, set_where, elem, is_given, is_text, or_else, same_text, ◌&&◌, ◌||◌, Bool-cases,
  inl, inr, Memᴰ, Memᴰ-map, Memᴰ-filter, Memᴰ-set_where_intro, elem_iff, arith, if◌then◌else◌,
}
use mathlib.Core.Path.{subst}
use text.Mathlib.TextEquality.{eq_iff}
use specbook.Protocol.{grants_auto_merge}
use specbook.Rows.{Task}
use specbook.Result.{Result, ok, err}
use specbook.Action.{Db, Action, ◌>>=◌, ◌>>◌, resume, pure, when, modify}
use specbook.TaskRepository.{update_where, stamp}
use specbook.Server.CiClassify.{CiClassification}
use specbook.Worker.{Job, WorkflowRunEvent}
use specbook.Worker.Projects.{ProjectRow, project_ids}
use specbook.Worker.Progress.{has_no_rows}
use specbook.Worker.Events.{
  ids_of, is_failing, is_passing, is_retryable, classification_of, break_circuit, break_circuits,
  matches_run, ci_patch, is_spent, retried_patch, ask_rerun, maybe_retry, may_retry,
  apply_workflow_run,
}

module _ (job : Job) (e : WorkflowRunEvent) (c : Option CiClassification)
    (red : is_failing e ≡ true) (flake : is_retryable c ≡ true) where
  -- A red that is worth a retry does not trip the breaker.
  break_circuit_flake : (p : ProjectRow) (db : Db) → break_circuit job e c p db ≡ (ok p, db)
  unfolding break_circuit pure
  break_circuit_flake p db =
      elim (Bool-cases
        (not (grants_auto_merge p.mode) || not (is_text (some e.head_branch) p.default_branch))) [
          | inl other ↦ rw other refl
          | inr guarded ↦ rw (guarded, red, flake) refl
        ]

  break_circuits_flake :
      (ps : List ProjectRow) (db : Db) → break_circuits job e c ps db ≡ (ok ps, db)
  unfolding break_circuits ◌>>=◌ resume pure
  break_circuits_flake [] db = refl
  break_circuits_flake (p ∷ rest) db =
      rw (break_circuit_flake p db, break_circuits_flake rest db) refl

-- The tasks that a run names, as they are after its result is recorded.
abbrev named_by :
    Job → List ProjectRow → WorkflowRunEvent → Option CiClassification → Db → List Task
named_by job projects e c db =
    map (stamp job.now (ci_patch job.now e c))
      (filter (λ t. matches_run (project_ids projects) e t) db.tasks)

abbrev recorded : Job → List ProjectRow → WorkflowRunEvent → Option CiClassification → Db → Db
recorded job projects e c db = record db {
  tasks =
      set_where (λ t. matches_run (project_ids projects) e t) (stamp job.now (ci_patch job.now e c))
        db.tasks;
}

-- The rest of a job that writes nothing.
settled :
    {A B : Type 0} (k : A → Action B)
    → ((a : A) (db : Db) → (k a db).1 ≡ db)
    → (s : Result A × Db) → (resume k s).1 ≡ s.1
unfolding resume
settled k quiet (ok a, db) = quiet a db
settled k quiet (err x, db) = refl

some_row : {A : Type 0} (xs : List A) → has_no_rows xs ≡ false → (a : A) × Memᴰ a xs
some_row [] h = cc
some_row (x ∷ xs) h = (x, Memᴰ.head refl)

has_no_rows-map : {A B : Type 0} (f : A → B) (xs : List A) → has_no_rows (map f xs) ≡ has_no_rows xs
has_no_rows-map f [] = refl
has_no_rows-map f (x ∷ xs) = refl

has_row : {A : Type 0} (xs : List A) {a : A} → Memᴰ a xs → has_no_rows xs ≡ false
has_row [] m = elim m [ ]
has_row (x ∷ xs) m = refl

same_given : (s : Option String) → is_given s ≡ true → same_text s s ≡ true
same_given none h = cc
same_given (some s) h = (eq_iff s s).1 refl

-- A run that is red and worth a retry: its result is recorded, and then retried if it may be.
module _ (job : Job) (e : WorkflowRunEvent) (projects : List ProjectRow) (db : Db)
    (red : is_failing e ≡ true) (flake : is_retryable (classification_of job e) ≡ true) where
  abbrev rows : List Task
  rows = named_by job projects e (classification_of job e) db

  not_green : is_passing e ≡ false
  not_green = ground arith

  flake_run :
      (apply_workflow_run job projects e db).1
      ≡ (when
          (may_retry job e (classification_of job e) rows)
          (maybe_retry job e rows)
          (recorded job projects e (classification_of job e) db)).1
  unfolding apply_workflow_run ◌>>=◌ ◌>>◌ resume pure update_where when
  flake_run =
      rw (break_circuits_flake job e (classification_of job e) red flake projects db, not_green)
        (settled _ (λ a db. refl) _)

  abbrev retries : Bool
  retries = may_retry job e (classification_of job e) rows && has_no_rows (filter (is_spent e) rows)

  -- The database after a retry: the marker stands on every row, and the jobs run again.
  abbrev retried : Db
  retried = record (recorded job projects e (classification_of job e) db) {
    tasks =
        set_where (λ t. elem t.id (ids_of rows)) (stamp job.now (retried_patch e))
          (recorded job projects e (classification_of job e) db).tasks;
    reruns =
        db.reruns
        ++ record {
          installation_id = e.installation_id;
          repo_full_name = e.repo_full_name;
          run_id = or_else e.run_id 0;
        }
          ∷ [];
  }

  no_retry : retries ≡ false → (apply_workflow_run job projects e db).1.reruns ≡ db.reruns
  unfolding when maybe_retry ◌>>=◌ ◌>>◌ resume update_where pure
  no_retry held =
      ap (λ (d : Db). d.reruns) flake_run
      ∙ elim (Bool-cases (may_retry job e (classification_of job e) rows)) [
        | inr not_now ↦ rw not_now refl
        | inl may ↦
            let spent : has_no_rows (filter (is_spent e) rows) ≡ false = ground (arith, may) in
            rw (may, spent) refl
      ]

  a_retry : retries ≡ true → (apply_workflow_run job projects e db).1 ≡ retried
  unfolding when maybe_retry ask_rerun ◌>>=◌ ◌>>◌ resume update_where pure modify
  a_retry goes =
      let may : may_retry job e (classification_of job e) rows ≡ true = ground arith in
      let fresh : has_no_rows (filter (is_spent e) rows) ≡ true = ground arith in
      flake_run ∙ rw (may, fresh) refl

  abbrev ci : Task → Task
  ci = stamp job.now (ci_patch job.now e (classification_of job e))

  abbrev names : Task → Bool
  names t = matches_run (project_ids projects) e t

  -- A row that the run names, with its marker after a retry.
  marked_row :
      (t : Task)
      → Memᴰ t db.tasks
      → names t ≡ true
      → Memᴰ (stamp job.now (retried_patch e) (ci t)) retried.tasks
  unfolding stamp ci_patch
  marked_row t m named =
      let first : Memᴰ (ci t) (recorded job projects e (classification_of job e) db).tasks =
        subst (λ b. Memᴰ (if b then ci t else t) (set_where names ci db.tasks)) named
          (Memᴰ-set_where_intro names ci t db.tasks m) in
      let marked : elem t.id (ids_of rows) ≡ true = (elem_iff t.id (ids_of rows)).1 (
        Memᴰ-map (λ (x : Task). x.id) rows {a = ci t}
          (Memᴰ-map ci (filter names db.tasks) ((Memᴰ-filter names t db.tasks).1 (m, named)))) in
      subst (λ b. Memᴰ (if b then stamp job.now (retried_patch e) (ci t) else ci t) retried.tasks)
        marked
        (Memᴰ-set_where_intro (λ x. elem x.id (ids_of rows)) (stamp job.now (retried_patch e))
          (ci t) (recorded job projects e (classification_of job e) db).tasks first)

  -- After a retry, a row that the run names has spent it.
  spent_after :
      (later : Job) (c : Option CiClassification)
      → retries ≡ true
      → has_no_rows (filter (is_spent e) (named_by later projects e c retried)) ≡ false
  unfolding stamp ci_patch retried_patch may_retry
  spent_after later c goes =
      let (t, at) =
        some_row (filter names db.tasks)
          (sym (has_no_rows-map ci (filter names db.tasks)) ∙ ground arith) in
      let (m, named) = (Memᴰ-filter names t db.tasks).0 at in
      let twice : Task = stamp job.now (retried_patch e) (ci t) in
      let again : Memᴰ twice (filter names retried.tasks) =
        (Memᴰ-filter names twice retried.tasks).1 (marked_row t m named, named) in
      has_row (filter (is_spent e) (named_by later projects e c retried)) (
        (Memᴰ-filter (is_spent e) (stamp later.now (ci_patch later.now e c) twice)
            (named_by later projects e c retried)).1
          (
            Memᴰ-map (stamp later.now (ci_patch later.now e c)) (filter names retried.tasks) again,
            same_given e.head_sha (ground arith),
          ))

-- A red that is worth a retry, delivered again, is not retried again: where its first delivery had
-- the failed jobs run again, the second asks GitHub for no further run, and keeps the ones asked.
pub reruns_once :
    (first second : Job) (e : WorkflowRunEvent) (projects : List ProjectRow) (db : Db)
    → is_failing e ≡ true
    → is_retryable (classification_of first e) ≡ true
    → is_retryable (classification_of second e) ≡ true
    → (apply_workflow_run first projects e db).1.reruns ≢ db.reruns
    → (apply_workflow_run second projects e (apply_workflow_run first projects e db).1).1.reruns
      ≡ (apply_workflow_run first projects e db).1.reruns
reruns_once first second e projects db red flake flake_again grew =
    elim (Bool-cases (retries first e projects db red flake)) [
      | inr held ↦ absurd (grew (no_retry first e projects db red flake held))
      | inl goes ↦
          subst (λ (d : Db). (apply_workflow_run second projects e d).1.reruns ≡ d.reruns)
            (sym (a_retry first e projects db red flake goes))
            (no_retry second e projects (retried first e projects db red flake) red flake_again (
              let spent =
                spent_after first e projects db red flake second (classification_of second e)
                  goes in
              ground arith))
    ]
