-- ===== src/Invariant/Statements.antt =====
-- Each statement of TaskRepository.antt keeps the invariant.
use specbook.Base.{
  some, ℕ, ◌≡◌, refl, sym, ap, ◌∙◌, inl, inr, Bool, true, List, Memᴰ, Memᴰ-set_where,
  Memᴰ-set_where_intro, Memᴰ-filter, Bool-cases, if◌then◌else◌, filter, arith,
}
use mathlib.Core.Path.{subst}
use specbook.Rows.{Task, Dependency, Status, TaskComment, Notification}
use specbook.Action.{Db}
use specbook.Action.Keeps.{Keeps, Keeps-modify, Keeps-bind, Keeps-pure}
use specbook.TaskService.Cycle.Acyclic.{Acyclic, Acyclic-mono}
use specbook.TaskRepository.{
  stamp, update_where, update, cas_update_status, create_comment, create_notification,
  detach_dependents, delete_dependency, ack_notes,
}
use specbook.Invariant.{ClaimOk, IsValid}

-- A change of a row that leaves its identity and its project alone.
pub record KeepsRow (f : Task → Task) : Type 0 where
  pub same_id : (t : Task) → (f t).id ≡ t.id
  pub same_project_id : (t : Task) → (f t).project_id ≡ t.project_id

module _ (now : ℕ) (p : Db → Task → Bool) (f : Task → Task) (k : KeepsRow f) where
  abbrev after : Db → Task → Task
  after db t = if p db t then stamp now f t else t

  after_id : (db : Db) (t : Task) → (after db t).id ≡ t.id
  unfolding stamp
  after_id db t = ground (arith, k.same_id t)

  after_project : (db : Db) (t : Task) → (after db t).project_id ≡ t.project_id
  unfolding stamp
  after_project db t = ground (arith, k.same_project_id t)

  -- An update of rows keeps the invariant if it keeps the claims of the rows that it touches.
  pub update_where_at :
      (db : Db)
      → ((t : Task) → Memᴰ t db.tasks → p db t ≡ true → ClaimOk (f t))
      → IsValid db
      → IsValid (update_where now p f db).1
  unfolding update_where stamp
  update_where_at db claims h = record {
    unique = λ a b ma mb e.
        let (x, mx, ex) = Memᴰ-set_where (p db) (stamp now f) a db.tasks ma in
        let (y, my, ey) = Memᴰ-set_where (p db) (stamp now f) b db.tasks mb in
        ex
        ∙ ap (after db) (
            h.unique x y mx my (
              sym (after_id db x)
              ∙ ap (λ (t : Task). t.id) (sym ex)
              ∙ e
              ∙ ap (λ (t : Task). t.id) ey
              ∙ after_id db y))
        ∙ sym ey;
    claimed = λ t m.
        let (x, mx, ex) = Memᴰ-set_where (p db) (stamp now f) t db.tasks m in
        subst ClaimOk (sym ex) (claim_after x mx);
    waiting_known = λ e m. known (h.waiting_known e m);
    awaited_known = λ e m. known (h.awaited_known e m);
    same_project = λ e a b m ma mb src dst.
        let (x, mx, ex) = Memᴰ-set_where (p db) (stamp now f) a db.tasks ma in
        let (y, my, ey) = Memᴰ-set_where (p db) (stamp now f) b db.tasks mb in
        ap (λ (t : Task). t.project_id) ex
        ∙ after_project db x
        ∙ h.same_project e x y m mx my
            (sym (after_id db x) ∙ ap (λ (t : Task). t.id) (sym ex) ∙ src)
            (sym (after_id db y) ∙ ap (λ (t : Task). t.id) (sym ey) ∙ dst)
        ∙ sym (after_project db y)
        ∙ ap (λ (t : Task). t.project_id) (sym ey);
    acyclic = h.acyclic;
  }
    where
      claim_after : (x : Task) → Memᴰ x db.tasks → ClaimOk (after db x)
      claim_after x mx = elim (Bool-cases (p db x)) [
        | inl hit ↦ rw hit (claims x mx hit)
        | inr miss ↦ rw miss (h.claimed x mx)
      ]

      known :
          {n : ℕ}
          → (t : Task) × Memᴰ t db.tasks × (t.id ≡ n)
          → (t : Task) × Memᴰ t (update_where now p f db).1.tasks × (t.id ≡ n)
      known w = (
        after db w.0,
        Memᴰ-set_where_intro (p db) (stamp now f) w.0 db.tasks w.1,
        after_id db w.0 ∙ w.2,
      )

  -- An update that keeps the claim of every row keeps the invariant.
  pub Keeps-update_where :
      ((t : Task) → ClaimOk t → ClaimOk (f t)) → Keeps IsValid (update_where now p f)
  Keeps-update_where claims = record {
    at = λ db h. update_where_at db (λ t m _. claims t (h.claimed t m)) h;
  }

pub Keeps-update :
    (now id org_id : ℕ) (f : Task → Task)
    → KeepsRow f
    → ((t : Task) → ClaimOk t → ClaimOk (f t))
    → Keeps IsValid (update now id org_id (some f))
unfolding update
Keeps-update now id org_id f k claims =
    Keeps-bind IsValid _ _ (Keeps-update_where now _ f k claims) (λ rows. Keeps-pure IsValid _)

pub Keeps-cas :
    (now id org_id : ℕ) (from : Status) (f : Task → Task)
    → KeepsRow f
    → ((t : Task) → ClaimOk t → ClaimOk (f t))
    → Keeps IsValid (cas_update_status now id org_id from f)
unfolding cas_update_status
Keeps-cas now id org_id from f k claims =
    Keeps-bind IsValid _ _ (Keeps-update_where now _ f k claims) (λ rows. Keeps-pure IsValid _)

-- The invariant is about the tasks and the dependencies alone.
pub same_but :
    (db new : Db)
    → new.tasks ≡ db.tasks
    → new.dependencies ≡ db.dependencies
    → IsValid db
    → IsValid new
same_but db new tasks dependencies h = record {
  unique = λ a b ma mb. h.unique a b (subst (Memᴰ a) tasks ma) (subst (Memᴰ b) tasks mb);
  claimed = λ t m. h.claimed t (subst (Memᴰ t) tasks m);
  waiting_known = λ e m.
      let (t, at, eq) = h.waiting_known e (subst (Memᴰ e) dependencies m) in
      (t, subst (Memᴰ t) (sym tasks) at, eq);
  awaited_known = λ e m.
      let (t, at, eq) = h.awaited_known e (subst (Memᴰ e) dependencies m) in
      (t, subst (Memᴰ t) (sym tasks) at, eq);
  same_project = λ e a b m ma mb.
      h.same_project e a b (subst (Memᴰ e) dependencies m) (subst (Memᴰ a) tasks ma)
        (subst (Memᴰ b) tasks mb);
  acyclic = subst Acyclic (sym dependencies) h.acyclic;
}

-- Fewer edges keep the invariant.
pub fewer_edges :
    (db : Db) (p : Dependency → Bool)
    → IsValid db
    → IsValid (record db { dependencies = filter p db.dependencies })
fewer_edges db p h = record {
  unique = h.unique;
  claimed = h.claimed;
  waiting_known = λ e m. h.waiting_known e (old e m);
  awaited_known = λ e m. h.awaited_known e (old e m);
  same_project = λ e a b m. h.same_project e a b (old e m);
  acyclic = Acyclic-mono db.dependencies (filter p db.dependencies) old h.acyclic;
}
  where
    old : (e : Dependency) → Memᴰ e (filter p db.dependencies) → Memᴰ e db.dependencies
    old e m = ((Memᴰ-filter p e db.dependencies).0 m).0

pub Keeps-create_comment : (k : TaskComment) → Keeps IsValid (create_comment k)
unfolding create_comment
Keeps-create_comment k = Keeps-modify IsValid _ (λ db h. same_but db _ refl refl h)

pub Keeps-create_notification : (n : Notification) → Keeps IsValid (create_notification n)
unfolding create_notification
Keeps-create_notification n = Keeps-modify IsValid _ (λ db h. same_but db _ refl refl h)

pub Keeps-ack_notes : (now id org_id : ℕ) → Keeps IsValid (ack_notes now id org_id)
unfolding ack_notes
Keeps-ack_notes now id org_id = record { at = λ db h. same_but db _ refl refl h }

pub Keeps-detach_dependents : (id : ℕ) (ids : List ℕ) → Keeps IsValid (detach_dependents id ids)
unfolding detach_dependents
Keeps-detach_dependents id ids = Keeps-modify IsValid _ (λ db h. fewer_edges db _ h)

pub Keeps-delete_dependency : (id on : ℕ) → Keeps IsValid (delete_dependency id on)
unfolding delete_dependency
Keeps-delete_dependency id on = record { at = λ db h. fewer_edges db _ h }
