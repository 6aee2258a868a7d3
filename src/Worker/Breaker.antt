-- ===== src/Worker/Breaker.antt =====
-- The circuit breaker of `applyWorkflowRun`: a red default branch pauses the automation.
use specbook.Base.{
  ℕ, ◌≡◌, refl, sym, ap, ◌∙◌, Bool, true, false, Option, none, some, List, [], ◌∷◌, map, set_where,
  is_some, is_none, is_text, ◌==◌, ◌&&◌, Bool-cases, inl, inr, Memᴰ, Memᴰ-set_where, arith,
  if◌then◌else◌,
}
use mathlib.Core.Path.{subst}
use specbook.Protocol.{grants_auto_merge}
use specbook.Rows.{Task, Project}
use specbook.Result.{ok}
use specbook.Action.{Db, ◌>>=◌, ◌>>◌, resume, pure, when, modify}
use specbook.TaskRepository.{update_where}
use specbook.Server.CiClassify.{CiClassification}
use specbook.Worker.{Job, WorkflowRunEvent}
use specbook.Worker.Projects.{ProjectRow}
use specbook.Worker.Events.{
  is_failing, is_passing, is_retryable, classification_of, break_circuit, break_circuits,
  update_projects, paused_patch, pause_project, may_retry, apply_workflow_run,
}

-- The projects whose breaker a run of the branch may trip.
abbrev pub is_guarded : WorkflowRunEvent → ProjectRow → Bool
is_guarded e p = grants_auto_merge p.mode && is_text (some e.head_branch) p.default_branch

-- Every row of the project is paused.
abbrev pub IsPaused : ℕ → Db → Type 0
IsPaused id db = (q : Project) → Memᴰ q db.projects → q.id ≡ id → is_some q.auto_paused_at ≡ true

module _ (job : Job) (e : WorkflowRunEvent) (c : Option CiClassification)
    (red : is_failing e ≡ true) (real : is_retryable c ≡ false) where
  abbrev trips : ProjectRow → Bool
  trips p = is_guarded e p && is_none p.auto_paused_at

  abbrev tripped : ProjectRow → Db → Db
  tripped p db = record db {
    projects =
        set_where (λ q. q.id == p.id && is_none q.auto_paused_at) (paused_patch job.now c)
          db.projects;
  }

  abbrev after_one : ProjectRow → Db → Db
  after_one p db = if trips p then tripped p db else db

  abbrev seen : ProjectRow → ProjectRow
  seen p = if trips p then record p { auto_paused_at = some job.now } else p

  abbrev after_all : List ProjectRow → Db → Db
  after_all [] db = db
  after_all (p ∷ rest) db = after_all rest (after_one p db)

  break_circuit_red :
      (p : ProjectRow) (db : Db) → break_circuit job e c p db ≡ (ok (seen p), after_one p db)
  unfolding break_circuit pause_project update_projects ◌>>=◌ ◌>>◌ resume modify pure
  break_circuit_red p db =
      let not_green : is_passing e ≡ false = ground arith in
      elim (Bool-cases (grants_auto_merge p.mode)) [
        | inr manual_ ↦ rw manual_ refl
        | inl grants ↦ elim (Bool-cases (is_text (some e.head_branch) p.default_branch)) [
          | inr other ↦ rw (grants, other) refl
          | inl main ↦ elim (Bool-cases (is_none p.auto_paused_at)) [
            | inl running ↦ rw (grants, main, red, real, running) refl
            | inr paused ↦ rw (grants, main, red, real, paused, not_green) refl
          ]
        ]
      ]

  break_circuits_red :
      (ps : List ProjectRow) (db : Db)
      → break_circuits job e c ps db ≡ (ok (map seen ps), after_all ps db)
  unfolding break_circuits ◌>>=◌ resume pure
  break_circuits_red [] db = refl
  break_circuits_red (p ∷ rest) db =
      rw (break_circuit_red p db, break_circuits_red rest (after_one p db)) refl

  abbrev to_pause : ProjectRow → Project → Bool
  to_pause p q = q.id == p.id && is_none q.auto_paused_at

  -- A trip pauses its project, and no other trip undoes it.
  tripped-IsPaused : (p : ProjectRow) (db : Db) → IsPaused p.id (tripped p db)
  unfolding paused_patch
  tripped-IsPaused p db q m same =
      let (x, there, e) = Memᴰ-set_where (to_pause p) (paused_patch job.now c) q db.projects m in
      elim (Bool-cases (to_pause p x)) [
        | inl hit ↦
            let q_is : q ≡ paused_patch job.now c x = e ∙ rw hit refl in
            ap (λ (r : Project). is_some r.auto_paused_at) q_is
        | inr miss ↦
            let q_is : q ≡ x = e ∙ rw miss refl in
            let id : x.id ≡ p.id = sym (ap (λ (r : Project). r.id) q_is) ∙ same in
            ap (λ (r : Project). is_some r.auto_paused_at) q_is ∙ ground (arith, miss, id)
      ]

  tripped-keeps_IsPaused :
      (p : ProjectRow) (db : Db) (id : ℕ) → IsPaused id db → IsPaused id (tripped p db)
  unfolding paused_patch
  tripped-keeps_IsPaused p db id paused q m same =
      let (x, there, e) = Memᴰ-set_where (to_pause p) (paused_patch job.now c) q db.projects m in
      elim (Bool-cases (to_pause p x)) [
        | inl hit ↦
            let q_is : q ≡ paused_patch job.now c x = e ∙ rw hit refl in
            ap (λ (r : Project). is_some r.auto_paused_at) q_is
        | inr miss ↦
            let q_is : q ≡ x = e ∙ rw miss refl in
            ap (λ (r : Project). is_some r.auto_paused_at) q_is
            ∙ paused x there (sym (ap (λ (r : Project). r.id) q_is) ∙ same)
      ]

  after_one-keeps_IsPaused :
      (p : ProjectRow) (db : Db) (id : ℕ) (b : Bool)
      → IsPaused id db
      → IsPaused id (if b then tripped p db else db)
  after_one-keeps_IsPaused p db id true paused = tripped-keeps_IsPaused p db id paused
  after_one-keeps_IsPaused p db id false paused = paused

  after_all-keeps_IsPaused :
      (ps : List ProjectRow) (db : Db) (id : ℕ) → IsPaused id db → IsPaused id (after_all ps db)
  after_all-keeps_IsPaused [] db id paused = paused
  after_all-keeps_IsPaused (p ∷ rest) db id paused =
      after_all-keeps_IsPaused rest (after_one p db) id
        (after_one-keeps_IsPaused p db id (trips p) paused)

  after_one-IsPaused : (p : ProjectRow) (db : Db) → trips p ≡ true → IsPaused p.id (after_one p db)
  after_one-IsPaused p db now =
      subst (λ b. IsPaused p.id (if b then tripped p db else db)) (sym now) (tripped-IsPaused p db)

  after_all-IsPaused :
      (ps : List ProjectRow) (db : Db) (p : ProjectRow)
      → Memᴰ p ps
      → trips p ≡ true
      → IsPaused p.id (after_all ps db)
  after_all-IsPaused [] db p m now = elim m [ ]
  after_all-IsPaused (x ∷ rest) db p (Memᴰ.head e) now =
      after_all-keeps_IsPaused rest (after_one x db) p.id
        (subst (λ (y : ProjectRow). IsPaused p.id (after_one y db)) e (after_one-IsPaused p db now))
  after_all-IsPaused (x ∷ rest) db p (Memᴰ.tail m) now =
      after_all-IsPaused rest (after_one x db) p m now

not_retried :
    (job : Job) (e : WorkflowRunEvent) (c : Option CiClassification)
    → is_retryable c ≡ false
    → (rows : List Task) → may_retry job e c rows ≡ false
unfolding may_retry
not_retried job e c real rows = ground arith

-- A red run, not worth a retry, on the default branch of a project of the event that grants
-- automatic merges and is not paused: after the event, whatever else it does, the project is paused.
pub red_default_branch_pauses :
    (job : Job) (e : WorkflowRunEvent) (projects : List ProjectRow) (db : Db) (p : ProjectRow)
    → is_failing e ≡ true
    → is_retryable (classification_of job e) ≡ false
    → Memᴰ p projects
    → is_guarded e p ≡ true
    → p.auto_paused_at ≡ none
    → IsPaused p.id (apply_workflow_run job projects e db).1
unfolding apply_workflow_run ◌>>=◌ ◌>>◌ resume pure update_where when
red_default_branch_pauses job e projects db p red real m guarded running =
    let c = classification_of job e in
    let no_green : is_passing e ≡ false = ground arith in
    rw (break_circuits_red job e c red real projects db, not_retried job e c real _, no_green)
      (after_all-IsPaused job e c red real projects db p m (ground (arith, running)))
