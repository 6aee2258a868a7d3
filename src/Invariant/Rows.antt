-- ===== src/Invariant/Rows.antt =====
-- Statements that add or delete a row: a new task, a deleted task, a new dependency.
use specbook.Base.{
  ℕ, ◌≡◌, ◌≢◌, sym, ap, ◌∙◌, ◌⊎◌, inl, inr, ⊎_elim, Bool, false, not, ◌||◌, ◌&&◌, [], ◌∷◌, ◌++◌,
  Memᴰ, Memᴰ-filter, Memᴰ-append, Bool-cases, ◌==◌, any, filter, arith,
}
use mathlib.Core.List.Memᴰ
use mathlib.Core.Path.{subst}
use specbook.Rows.{Task, Dependency}
use specbook.Action.{Db}
use specbook.TaskService.Cycle.Reach.{Reaches}
use specbook.TaskService.Cycle.Acyclic.{Acyclic-snoc, Acyclic-mono}
use specbook.ProjectRepository.{org_guard}
use specbook.TaskRepository.{insert_task, delete_task, insert_dependency, is_edge}
use specbook.Invariant.{ClaimOk, IsValid}

-- The database gives a new row an identifier that no row has.
abbrev pub Fresh : Db → ℕ → Type 0
Fresh db id = (t : Task) → Memᴰ t db.tasks → t.id ≢ id

pub insert_task_at :
    (t : Task) (db : Db) → Fresh db t.id → ClaimOk t → IsValid db → IsValid (insert_task t db).1
unfolding insert_task
insert_task_at t db fresh claim h = record {
  unique = λ a b ma mb e. elim (split a ma) [
    | inl old_a ↦ elim (split b mb) [
      | inl old_b ↦ h.unique a b old_a old_b e
      | inr new_b ↦ absurd (fresh a old_a (e ∙ ap (λ (x : Task). x.id) new_b))
    ]
    | inr new_a ↦ elim (split b mb) [
      | inl old_b ↦ absurd (fresh b old_b (sym e ∙ ap (λ (x : Task). x.id) new_a))
      | inr new_b ↦ new_a ∙ sym new_b
    ]
  ];
  claimed = λ a m. ⊎_elim (h.claimed a) (λ e. subst ClaimOk (sym e) claim) (split a m);
  waiting_known = λ e m. known (h.waiting_known e m);
  awaited_known = λ e m. known (h.awaited_known e m);
  same_project = λ e a b m ma mb src dst.
      h.same_project e a b m (old_of a ma (h.waiting_known e m) src)
        (old_of b mb (h.awaited_known e m) dst) src dst;
  acyclic = h.acyclic;
}
  where
    split : (a : Task) → Memᴰ a (db.tasks ++ t ∷ []) → Memᴰ a db.tasks ⊎ (a ≡ t)
    split a m =
        ⊎_elim inl (λ last. inr (Memᴰ.eq_of_singleton last)) ((Memᴰ-append a db.tasks (t ∷ [])).0 m)

    known :
        {n : ℕ}
        → (x : Task) × Memᴰ x db.tasks × (x.id ≡ n)
        → (x : Task) × Memᴰ x (db.tasks ++ t ∷ []) × (x.id ≡ n)
    known w = (w.0, (Memᴰ-append w.0 db.tasks (t ∷ [])).1 (inl w.1), w.2)

    old_of :
        {n : ℕ} (a : Task)
        → Memᴰ a (db.tasks ++ t ∷ [])
        → (x : Task) × Memᴰ x db.tasks × (x.id ≡ n)
        → a.id ≡ n
        → Memᴰ a db.tasks
    old_of a m w e =
        ⊎_elim (λ old. old)
          (λ new. absurd (fresh w.0 w.1 (w.2 ∙ sym e ∙ ap (λ (x : Task). x.id) new))) (split a m)

-- The cascade of the foreign keys deletes the edges of the task.
pub delete_task_at : (id org_id : ℕ) (db : Db) → IsValid db → IsValid (delete_task id org_id db).1
unfolding delete_task
delete_task_at id org_id db h = elim (Bool-cases (any gone db.tasks)) [
  | inr nothing ↦ rw nothing h
  | inl some_row ↦ rw some_row (record {
    unique = λ a b ma mb. h.unique a b (row a ma) (row b mb);
    claimed = λ a m. h.claimed a (row a m);
    waiting_known = λ e m.
        let (t, at, eq) = h.waiting_known e (edge e m) in
        (t, stays t at (not_end e m t (inl eq)), eq);
    awaited_known = λ e m.
        let (t, at, eq) = h.awaited_known e (edge e m) in
        (t, stays t at (not_end e m t (inr eq)), eq);
    same_project = λ e a b m ma mb. h.same_project e a b (edge e m) (row a ma) (row b mb);
    acyclic = Acyclic-mono db.dependencies (filter kept db.dependencies) edge h.acyclic;
  })
]
  where
    gone : Task → Bool
    gone t = t.id == id && org_guard db org_id t.project_id

    kept : Dependency → Bool
    kept d = not (d.task_id == id || d.depends_on_task_id == id)

    row : (a : Task) → Memᴰ a (filter (λ t. not (gone t)) db.tasks) → Memᴰ a db.tasks
    row a m = ((Memᴰ-filter (λ t. not (gone t)) a db.tasks).0 m).0

    edge : (e : Dependency) → Memᴰ e (filter kept db.dependencies) → Memᴰ e db.dependencies
    edge e m = ((Memᴰ-filter kept e db.dependencies).0 m).0

    not_end :
        (e : Dependency)
        → Memᴰ e (filter kept db.dependencies)
        → (t : Task) → (t.id ≡ e.task_id) ⊎ (t.id ≡ e.depends_on_task_id)
        → gone t ≡ false
    not_end e m t eq = let k = ((Memᴰ-filter kept e db.dependencies).0 m).1 in ground arith

    stays :
        (t : Task) → Memᴰ t db.tasks → gone t ≡ false → Memᴰ t (filter (λ t. not (gone t)) db.tasks)
    stays t m g = (Memᴰ-filter (λ t. not (gone t)) t db.tasks).1 (m, ap not g)

-- An edge between two tasks of one project, the far one not waiting for the near one.
pub insert_dependency_at :
    (id on : ℕ) (db : Db) (a b : Task)
    → Memᴰ a db.tasks
    → Memᴰ b db.tasks
    → a.id ≡ id
    → b.id ≡ on
    → a.project_id ≡ b.project_id
    → ¬ Reaches db.dependencies on id
    → IsValid db
    → IsValid (insert_dependency id on db).1
unfolding insert_dependency
insert_dependency_at id on db a b ma mb ea eb project free h =
    elim (Bool-cases (any (is_edge id on) db.dependencies)) [
      | inl there ↦ rw there h
      | inr new ↦ rw new (record {
        unique = h.unique;
        claimed = h.claimed;
        waiting_known = λ e m.
            ⊎_elim (h.waiting_known e)
              (λ eq. (a, ma, ea ∙ sym (ap (λ (d : Dependency). d.task_id) eq))) (split e m);
        awaited_known = λ e m.
            ⊎_elim (h.awaited_known e)
              (λ eq. (b, mb, eb ∙ sym (ap (λ (d : Dependency). d.depends_on_task_id) eq)))
              (split e m);
        same_project = λ e x y m mx my src dst.
            ⊎_elim (λ old. h.same_project e x y old mx my src dst)
              (λ eq.
                let ex =
                  h.unique x a mx ma (src ∙ ap (λ (d : Dependency). d.task_id) eq ∙ sym ea) in
                let ey =
                  h.unique y b my mb
                    (dst ∙ ap (λ (d : Dependency). d.depends_on_task_id) eq ∙ sym eb) in
                ap (λ (t : Task). t.project_id) ex
                ∙ project
                ∙ sym (ap (λ (t : Task). t.project_id) ey))
              (split e m);
        acyclic = Acyclic-snoc db.dependencies edge free h.acyclic;
      })
    ]
  where
    edge : Dependency
    edge = record { task_id = id; depends_on_task_id = on }

    split :
        (e : Dependency)
        → Memᴰ e (db.dependencies ++ edge ∷ [])
        → Memᴰ e db.dependencies ⊎ (e ≡ edge)
    split e m =
        ⊎_elim inl (λ last. inr (Memᴰ.eq_of_singleton last))
          ((Memᴰ-append e db.dependencies (edge ∷ [])).0 m)
