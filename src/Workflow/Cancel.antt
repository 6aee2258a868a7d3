-- ===== src/Workflow/Cancel.antt =====
-- A cancelled task holds nobody back: `detachCancelledDependents` after the swap of `transition`.
use specbook.Base.{
  ℕ, ◌≡◌, ◌≢◌, refl, sym, ap, ◌∙◌, Bool, true, false, not, ◌&&◌, List, map, filter, any_intro, elem,
  elem_iff, Memᴰ, Memᴰ-filter, Memᴰ-map, Memᴰ-set_where_intro, ◌==◌, is_given, or_else,
  if◌then◌else◌, Bool-cases, inl, inr, arith,
}
use mathlib.Core.Path.{subst}
use specbook.Rows.{Task, Dependency, TaskComment, Project, Actor, Status, cancelled}
use specbook.Protocol.{includes, terminal_task_statuses}
use specbook.Result.{Result, ok}
use specbook.Action.{Db, ◌>>=◌, ◌>>◌, gets, when, pure, resume, modify}
use specbook.Action.Keeps.{Keeps, Keeps-for_each, Keeps-when, Keeps-then, Keeps-raise_if}
use specbook.Action.Runs.{guard_ok, then_ok, rest_ok, then_at, when_false_at}
use specbook.Session.{Session}
use specbook.ProjectRepository.{org_guard}
use specbook.TaskRepository.{
  find_non_terminal_dependents, detach_dependents, create_comment, is_edge, stamp,
}
use specbook.TaskService.Plan.{TransitionRequest, TransitionPlan, status_patch}
use specbook.TaskService.Transition.{
  detach_cancelled_dependents, late_comment, tell_dependent, after_swap, transition, comment_kind,
}
use specbook.TaskService.Merge.{new_comment}
use specbook.Invariant.{IsValid}
use specbook.Invariant.Access.{find_task_row, require_task_found}
use specbook.Invariant.Planned.{Planned}
use specbook.Invariant.Valid.{Rules-IsValid}
use specbook.Handlers.Transition.{Keeps-transition}
use specbook.TaskService.Access.{scope_for}
use specbook.Workflow.Actors.{patched}
use specbook.Workflow.Outcome.{transition_run, plan_hits, swapped, swap_hits}

-- The tables that a comment leaves alone.
record Tables (tasks : List Task) (dependencies : List Dependency) (projects : List Project)
    (db : Db) : Type 0 where
  same_tasks : db.tasks ≡ tasks
  same_dependencies : db.dependencies ≡ dependencies
  same_projects : db.projects ≡ projects

module _ {tasks : List Task} {dependencies : List Dependency} {projects : List Project} where
  Tables-create_comment :
      (k : TaskComment) → Keeps (Tables tasks dependencies projects) (create_comment k)
  unfolding create_comment modify
  Tables-create_comment k = record {
    at = λ db h. record {
      same_tasks = h.same_tasks;
      same_dependencies = h.same_dependencies;
      same_projects = h.same_projects;
    };
  }

  Tables-late_comment :
      (s : Session) (k : TaskComment)
      → Keeps (Tables tasks dependencies projects) (late_comment s k)
  unfolding late_comment
  Tables-late_comment s k =
      Keeps-then (Tables _ _ _) _ _ (Keeps-raise_if (Tables _ _ _) _ _) (Tables-create_comment k)

-- The edges that stay when a task is cancelled.
abbrev pub stays : Db → ℕ → ℕ → Dependency → Bool
stays db gone org_id d = not (
    d.depends_on_task_id == gone
    && elem d.task_id (map (λ t. t.id) (find_non_terminal_dependents db gone org_id)))

detached :
    (s : Session) (actor : Actor) (t : Task) (db : Db)
    → (detach_cancelled_dependents s actor t db).0 ≡ ok tt
    → Tables db.tasks
        (filter (stays db t.id s.active_user.org_id) db.dependencies)
        db.projects
        (detach_cancelled_dependents s actor t db).1
unfolding detach_cancelled_dependents tell_dependent detach_dependents ◌>>=◌ ◌>>◌ gets modify resume
detached s actor t db h =
    let read = guard_ok _ _ _ db h in
    let cut = guard_ok _ _ _ db (sym (ap (λ (r : Result (Unit {0}) × Db). r.0) read.1) ∙ h) in
    subst
      (λ (r : Result (Unit {0}) × Db).
        Tables db.tasks (filter (stays db t.id s.active_user.org_id) db.dependencies) db.projects
          r.1)
      (sym (read.1 ∙ cut.1))
      ((Keeps-for_each (Tables _ _ _) _ _ (λ d. Tables-late_comment s _)).at _
        (record { same_tasks = refl; same_dependencies = refl; same_projects = refl }))

detached_when :
    (s : Session) (actor : Actor) (t : Task) (db : Db)
    → (when true (detach_cancelled_dependents s actor t) db).0 ≡ ok tt
    → Tables db.tasks
        (filter (stays db t.id s.active_user.org_id) db.dependencies)
        db.projects
        (when true (detach_cancelled_dependents s actor t) db).1
unfolding when
detached_when s actor t db h = detached s actor t db h

-- The tables decide which edges stay.
stays-Tables :
    (db other : Db) (gone org_id : ℕ)
    → Tables db.tasks db.dependencies db.projects other
    → stays other gone org_id ≡ stays db gone org_id
unfolding find_non_terminal_dependents org_guard
stays-Tables db other gone org_id h = rw (h.same_tasks, h.same_dependencies, h.same_projects) refl

Tables-trans :
    (db mid : Db) (t : Task) (org_id : ℕ) {after : Db}
    → Tables db.tasks db.dependencies db.projects mid
    → Tables mid.tasks (filter (stays mid t.id org_id) mid.dependencies) mid.projects after
    → Tables db.tasks (filter (stays db t.id org_id) db.dependencies) db.projects after
Tables-trans db mid t org_id c d = record {
  same_tasks = d.same_tasks ∙ c.same_tasks;
  same_dependencies =
      d.same_dependencies
      ∙ ap (λ p. filter p mid.dependencies) (stays-Tables db mid t.id org_id c)
      ∙ ap (filter (stays db t.id org_id)) c.same_dependencies;
  same_projects = d.same_projects ∙ c.same_projects;
}

after_cancel :
    (s : Session) (actor : Actor) (plan : TransitionPlan) (t : Task) (db : Db) {r : Task}
    → (after_swap s actor cancelled plan t db).0 ≡ ok r
    → Tables db.tasks
        (filter (stays db t.id s.active_user.org_id) db.dependencies)
        db.projects
        (after_swap s actor cancelled plan t db).1
unfolding after_swap pure
after_cancel s actor plan t db h =
    let told = rest_ok _ _ db h in
    then_at _ _ db After h (
      then_at _ _ commented After told (
        when_false_at After _ _ _ (
          when_false_at After _ _ _ (
            when_false_at After _ _ _ (
              Tables-trans db commented t s.active_user.org_id
                ((Keeps-when (Tables _ _ _) _ _ (λ _. Tables-late_comment s _)).at db
                  (record { same_tasks = refl; same_dependencies = refl; same_projects = refl }))
                (detached_when s actor t commented (then_ok _ _ commented told).0))))))
  where
    commented : Db
    commented =
        (when (is_given plan.comment)
          (late_comment s (
            new_comment s plan.current.id actor (comment_kind plan.current.status cancelled)
              (or_else plan.comment "")))
          db).1

    After : Db → Type 0
    After =
        Tables db.tasks (filter (stays db t.id s.active_user.org_id) db.dependencies) db.projects

module _ (mid after : Db) (gone org_id : ℕ)
    (tables : Tables mid.tasks
      (filter (stays mid gone org_id) mid.dependencies)
      mid.projects
      after) where
  edge_stayed :
      (e : Dependency)
      → Memᴰ e after.dependencies
      → Memᴰ e mid.dependencies × (stays mid gone org_id e ≡ true)
  edge_stayed e m =
      (Memᴰ-filter (stays mid gone org_id) e mid.dependencies).0
        (subst (λ edges. Memᴰ e edges) tables.same_dependencies m)

  dependent_found :
      (d : Task) (e : Dependency)
      → Memᴰ d mid.tasks
      → Memᴰ e mid.dependencies
      → e.task_id ≡ d.id
      → e.depends_on_task_id ≡ gone
      → org_guard mid org_id d.project_id ≡ true
      → includes d.status terminal_task_statuses ≡ false
      → elem d.id (map (λ t. t.id) (find_non_terminal_dependents mid gone org_id)) ≡ true
  unfolding find_non_terminal_dependents
  dependent_found d e m old src dst guard waiting = (elem_iff d.id _).1 (
      Memᴰ-map (λ (t : Task). t.id) _
        ((Memᴰ-filter _ d mid.tasks).1 (
          m,
          let edge =
                any_intro (is_edge d.id gone) mid.dependencies old (ground (arith, src, dst)) in
              ground arith,
        )))

  not_kept :
      (e : Dependency)
      → e.depends_on_task_id ≡ gone
      → elem e.task_id (map (λ t. t.id) (find_non_terminal_dependents mid gone org_id)) ≡ true
      → ¬ (stays mid gone org_id e ≡ true)
  not_kept e dst listed kept = ground arith

  -- A task of the organization that still waits for the one that is gone is at its end.
  waits_at_end :
      IsValid after
      → (t : Task) → Memᴰ t mid.tasks
      → t.id ≡ gone
      → org_guard mid org_id t.project_id ≡ true
      → (d : Task) (e : Dependency) → Memᴰ d after.tasks
      → Memᴰ e after.dependencies
      → e.task_id ≡ d.id
      → e.depends_on_task_id ≡ t.id
      → includes d.status terminal_task_statuses ≡ true
  waits_at_end h t m id guard d e md me src dst =
      elim (Bool-cases (includes d.status terminal_task_statuses)) [
        | inl at_end ↦ at_end
        | inr waiting ↦
            let (old, kept) = edge_stayed e me in
            let near = subst (λ rows. Memᴰ d rows) tables.same_tasks md in
            let far = subst (λ rows. Memᴰ t rows) (sym tables.same_tasks) m in
            let project = h.same_project e d t me md far (sym src) (sym dst) in
            let dependent =
              dependent_found d e near old src (dst ∙ id)
                (ap (org_guard mid org_id) project ∙ guard) waiting in
            absurd (
              not_kept e (dst ∙ id)
                (ap
                    (λ n.
                      elem n
                        (map (λ (t : Task). t.id) (find_non_terminal_dependents mid gone org_id)))
                    src
                  ∙ dependent)
                kept)
      ]

  other_stays :
      (e : Dependency)
      → Memᴰ e mid.dependencies
      → e.depends_on_task_id ≢ gone
      → Memᴰ e after.dependencies
  other_stays e m other =
      subst (λ edges. Memᴰ e edges) (sym tables.same_dependencies)
        ((Memᴰ-filter (stays mid gone org_id) e mid.dependencies).1 (m, ground arith))

-- The row that the swap has written, still in a project of the organization.
swapped_row :
    (s : Session) (actor : Actor) (dto : TransitionRequest) (db : Db) (plan : TransitionPlan)
    → Planned s actor dto db plan
    → Memᴰ
        (stamp s.now (status_patch s plan.current dto.to) plan.current)
        (swapped s dto.to plan db).tasks
      × (org_guard db s.active_user.org_id
            (stamp s.now (status_patch s plan.current dto.to) plan.current).project_id
          ≡ true)
swapped_row s actor dto db plan p =
    let (m, _, guard, _) =
      find_task_row db dto.id s.active_user.org_id (scope_for s.active_user)
        (require_task_found s.active_user dto.id true db p.found) in
    let hit = plan_hits s actor dto db plan p in
    (
      subst
          (λ b.
            Memᴰ
              (if b
                then stamp s.now (status_patch s plan.current dto.to) plan.current
                else plan.current)
              (swapped s dto.to plan db).tasks)
          hit (Memᴰ-set_where_intro (swap_hits s plan db) _ plan.current db.tasks m),
      ap (org_guard db s.active_user.org_id) (patched s plan.current dto.to s.now).1 ∙ guard,
    )

after_cancel_to :
    (s : Session) (actor : Actor) (plan : TransitionPlan) (t : Task) (db : Db) {to : Status}
    {r : Task}
    → to ≡ cancelled
    → (after_swap s actor to plan t db).0 ≡ ok r
    → Tables db.tasks
        (filter (stays db t.id s.active_user.org_id) db.dependencies)
        db.projects
        (after_swap s actor to plan t db).1
after_cancel_to s actor plan t db {r = r} e =
    subst
      (λ to.
        (after_swap s actor to plan t db).0 ≡ ok r
        → Tables db.tasks (filter (stays db t.id s.active_user.org_id) db.dependencies) db.projects
            (after_swap s actor to plan t db).1)
      (sym e) (after_cancel s actor plan t db)

module _ (s : Session) (actor : Actor) (dto : TransitionRequest) (db : Db) {t : Task}
    (h : IsValid db) (e : (transition s actor dto db).0 ≡ ok t) (to : dto.to ≡ cancelled) where
  cancel-Tables :
      Tables
        (swapped s dto.to (transition_run s actor dto db h e).0 db).tasks
        (filter
          (stays
            (swapped s dto.to (transition_run s actor dto db h e).0 db)
            t.id
            s.active_user.org_id)
          db.dependencies)
        db.projects
        (transition s actor dto db).1
  cancel-Tables =
      let (plan, _, _, run) = transition_run s actor dto db h e in
      let mid = swapped s dto.to plan db in
      subst
        (λ (after : Db).
          Tables mid.tasks (filter (stays mid t.id s.active_user.org_id) mid.dependencies)
            mid.projects after)
        (sym (ap (λ (r : Result Task × Db). r.1) run))
        (after_cancel_to s actor plan t mid to (sym (ap (λ (r : Result Task × Db). r.0) run) ∙ e))

  -- After a task is cancelled, every task that still waits for it is itself done or cancelled.
  pub cancelled_blocks_nothing :
      (d : Task) (edge : Dependency)
      → Memᴰ d (transition s actor dto db).1.tasks
      → Memᴰ edge (transition s actor dto db).1.dependencies
      → edge.task_id ≡ d.id
      → edge.depends_on_task_id ≡ t.id
      → includes d.status terminal_task_statuses ≡ true
  unfolding org_guard
  cancelled_blocks_nothing =
      let (plan, p, same, run) = transition_run s actor dto db h e in
      let mid = swapped s dto.to plan db in
      let (m, guard) = swapped_row s actor dto db plan p in
      waits_at_end mid (transition s actor dto db).1 t.id s.active_user.org_id cancel-Tables
        ((Keeps-transition IsValid s (Rules-IsValid s) actor dto).at db h) t
        (subst (λ t. Memᴰ t mid.tasks) (sym same) m) refl
        (subst (λ (t : Task). org_guard mid s.active_user.org_id t.project_id ≡ true) (sym same)
          guard)

  -- Cancelling a task loses no edge to another task.
  pub cancel_keeps_other_edges :
      (edge : Dependency)
      → Memᴰ edge db.dependencies
      → edge.depends_on_task_id ≢ t.id
      → Memᴰ edge (transition s actor dto db).1.dependencies
  cancel_keeps_other_edges =
      other_stays (swapped s dto.to (transition_run s actor dto db h e).0 db)
        (transition s actor dto db).1 t.id s.active_user.org_id cancel-Tables
