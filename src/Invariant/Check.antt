-- ===== src/Invariant/Check.antt =====
-- The invariant as a test of concrete tables.
use specbook.Base.{
  ℕ, ◌≡◌, refl, sym, ap, ◌∙◌, Bool, true, false, not, ◌&&◌, ◌||◌, Option, none, some, List, [], ◌∷◌,
  Memᴰ, any, any_elim, any-false, all, ◌==◌, ==_iff, arith,
}
use mathlib.Core.List.Memᴰ
use specbook.Rows.{Task, Dependency}
use specbook.Action.{Db}
use specbook.TaskService.Cycle.{would_cycle}
use specbook.TaskService.Cycle.Acyclic.{Acyclic}
use specbook.TaskService.Cycle.Reach.{Waits-iff}
use specbook.TaskService.Cycle.Walk.{would_cycle_decides}
use specbook.Invariant.{IsValid, claim_ok}
use specbook.Invariant.Dependencies.{not_both}

abbrev pub has_distinct_ids : List Task → Bool
has_distinct_ids [] = true
has_distinct_ids (t ∷ rest) = not (any (λ u. u.id == t.id) rest) && has_distinct_ids rest

abbrev finds_none : Option Bool → Bool
finds_none (some false) = true
finds_none _ = false

abbrev joins_one_project : List Task → Dependency → Bool
joins_one_project tasks e =
    all
      (λ a.
        all
          (λ b.
            not (a.id == e.task_id)
            || not (b.id == e.depends_on_task_id)
            || a.project_id == b.project_id)
          tasks)
      tasks

abbrev edge_ok : Db → Dependency → Bool
edge_ok db e =
    any (λ t. t.id == e.task_id) db.tasks
    && any (λ t. t.id == e.depends_on_task_id) db.tasks
    && joins_one_project db.tasks e
    && finds_none (would_cycle db.dependencies e.task_id e.depends_on_task_id)

unfoldable pub passes_check : Db → Bool
passes_check db =
    has_distinct_ids db.tasks
    && all (λ t. claim_ok t.status t.claimed_by) db.tasks
    && all (edge_ok db) db.dependencies

all_elim :
    {A : Type 0} (p : A → Bool) (xs : List A) {a : A} → all p xs ≡ true → Memᴰ a xs → p a ≡ true
all_elim p [] h m = absurd (Memᴰ.not-nil m)
all_elim p (x ∷ xs) h (Memᴰ.head e) = ap p e ∙ ground arith
all_elim p (x ∷ xs) h (Memᴰ.tail m) = all_elim p xs (ground arith) m

one_row :
    (tasks : List Task)
    → has_distinct_ids tasks ≡ true
    → (a b : Task) → Memᴰ a tasks
    → Memᴰ b tasks
    → a.id ≡ b.id
    → a ≡ b
one_row [] h a b ma mb e = absurd (Memᴰ.not-nil ma)
one_row (t ∷ rest) h a b (Memᴰ.head x) (Memᴰ.head y) e = x ∙ sym y
one_row (t ∷ rest) h a b (Memᴰ.head x) (Memᴰ.tail m) e =
    let far = any-false (λ u. u.id == t.id) rest (ground arith) m in
    absurd (ground (arith, far, sym e ∙ ap (λ (t : Task). t.id) x))
one_row (t ∷ rest) h a b (Memᴰ.tail m) (Memᴰ.head y) e =
    let far = any-false (λ u. u.id == t.id) rest (ground arith) m in
    absurd (ground (arith, far, e ∙ ap (λ (t : Task). t.id) y))
one_row (t ∷ rest) h a b (Memᴰ.tail m) (Memᴰ.tail n) e = one_row rest (ground arith) a b m n e

finds_none_elim : (o : Option Bool) → finds_none o ≡ true → o ≡ some false
finds_none_elim (some false) h = refl
finds_none_elim (some true) h = cc
finds_none_elim none h = cc

module _ (db : Db) (h : passes_check db ≡ true) where
  edge_parts :
      (e : Dependency)
      → Memᴰ e db.dependencies
      → (any (λ t. t.id == e.task_id) db.tasks ≡ true)
        × (any (λ t. t.id == e.depends_on_task_id) db.tasks ≡ true)
        × (joins_one_project db.tasks e ≡ true)
        × (would_cycle db.dependencies e.task_id e.depends_on_task_id ≡ some false)
  unfolding passes_check
  edge_parts e m =
      let edge = all_elim (edge_ok db) db.dependencies (ground (arith, h)) m in
      (ground arith, ground arith, ground arith, finds_none_elim _ (ground arith))

  named :
      (id : ℕ) → any (λ t. t.id == id) db.tasks ≡ true → (t : Task) × Memᴰ t db.tasks × (t.id ≡ id)
  named id found =
      let (t, m, same) = any_elim (λ (t : Task). t.id == id) db.tasks found in
      (t, m, (==_iff t.id id).0 same)

  joined :
      (e : Dependency) (a b : Task)
      → Memᴰ e db.dependencies
      → Memᴰ a db.tasks
      → Memᴰ b db.tasks
      → a.id ≡ e.task_id
      → b.id ≡ e.depends_on_task_id
      → a.project_id ≡ b.project_id
  joined e a b m ma mb src dst =
      let row =
        all_elim
          (λ (a : Task).
            all
              (λ (b : Task).
                not (a.id == e.task_id)
                || not (b.id == e.depends_on_task_id)
                || a.project_id == b.project_id)
              db.tasks)
          db.tasks (edge_parts e m).2 ma in
      let both =
        all_elim
          (λ (b : Task).
            not (a.id == e.task_id)
            || not (b.id == e.depends_on_task_id)
            || a.project_id == b.project_id)
          db.tasks row mb in
      ground (arith, both, src, dst)

  no_loop : Acyclic db.dependencies
  no_loop u v x r =
      let (e, m, src, dst) = (Waits-iff db.dependencies u v).0 x in
      not_both
        (ap (λ n. would_cycle db.dependencies n v) (sym src)
          ∙ ap (would_cycle db.dependencies e.task_id) (sym dst)
          ∙ (edge_parts e m).3)
        (would_cycle_decides db.dependencies u v) r

  -- Tables that pass the test satisfy the invariant.
  pub passes_check-IsValid : IsValid db
  unfolding passes_check
  passes_check-IsValid = record {
    unique = λ a b ma mb e. one_row db.tasks (ground (arith, h)) a b ma mb e;
    claimed = λ t m.
        all_elim (λ (t : Task). claim_ok t.status t.claimed_by) db.tasks (ground (arith, h)) m;
    waiting_known = λ e m. named e.task_id (edge_parts e m).0;
    awaited_known = λ e m. named e.depends_on_task_id (edge_parts e m).1;
    same_project = joined;
    acyclic = no_loop;
  }
