-- ===== src/Workflow/Bookkeeping.antt =====
-- Notes and costs: `getNotes` and `reportCost` of apps/api/src/tasks/task.service.ts.
use specbook.Base.{
  ℕ, ◌+◌, ◌≡◌, refl, sym, ap, ◌∙◌, Bool, true, false, Option, none, some, List, [], ◌∷◌, any,
  set_where, Memᴰ, Bool-cases, inl, inr, holds, or_else, ◌&&◌, ◌==◌, if◌then◌else◌, filter, map,
  head?, any_intro, arith,
}
use specbook.Rows.{Task, TaskComment}
use specbook.ProjectRepository.{org_guard}
use specbook.Workflow.Outcome.{head?-some, ok-injective}
use specbook.Result.{Result, ok, or_fail, Error}
use specbook.Action.{Db, ◌>>=◌, raise, or_raise, resume, pure}
use specbook.Action.Runs.{check_ok, guard_ok}
use specbook.Session.{Session}
use specbook.Protocol.{is_terminal}
use specbook.TaskRepository.{
  has_unacked_notes, ack_notes, is_unacked_note, task_in_org, add_to, CostDelta, update,
  update_where, stamp, add_cost, cost_patch, reports_nothing,
}
use specbook.TaskService.Access.{require_task, scope_for}
use specbook.TaskService.Edits.{get_notes, report_cost}
use specbook.Invariant.{IsValid}
use specbook.Invariant.Access.{require_task_row, require_task_found, find_task_row}

any_cleared :
    {A : Type 0} (p q : A → Bool) (f : A → A) (xs : List A)
    → ((x : A) → p x ≡ true → q x ≡ true)
    → ((x : A) → p (f x) ≡ false)
    → any p (set_where q f xs) ≡ false
any_cleared p q f [] covers clears = refl
any_cleared p q f (x ∷ xs) covers clears = elim (Bool-cases (q x)) [
  | inl hit ↦ rw (hit, clears x) (any_cleared p q f xs covers clears)
  | inr miss ↦
      let off = covers x in
      let rest = any_cleared p q f xs covers clears in
      elim (Bool-cases (p x)) [
        | inl marked ↦ let both = off marked in ground arith
        | inr other ↦ rw (miss, other) rest
      ]
]

acked :
    (now id org_id : ℕ) (db : Db)
    → task_in_org db org_id id ≡ true
    → has_unacked_notes (ack_notes now id org_id db).1 id ≡ false
unfolding ack_notes has_unacked_notes
acked now id org_id db here =
    any_cleared (is_unacked_note id) (λ k. is_unacked_note id k && task_in_org db org_id id)
      (λ (k : TaskComment). record k { acked_at = some now }) db.comments
      (λ k h. ground (arith, here)) (λ k. ground arith)

-- When a claimant has read the notes of a task, none is left unread, so that the notes no longer
-- keep the task from review.
pub get_notes-clears :
    (s : Session) (id : ℕ) (db : Db) {rows : List TaskComment}
    → (get_notes s id db).0 ≡ ok rows
    → has_unacked_notes (get_notes s id db).1 id ≡ false
unfolding get_notes task_in_org
get_notes-clears s id db {rows} h =
    let (t, found, run) = check_ok (require_task s.active_user id false) _ db h in
    let (m, same, guard, _) =
      find_task_row db id s.active_user.org_id (scope_for s.active_user)
        (require_task_found s.active_user id false db found) in
    let (_, rest) =
      guard_ok _ _ _ db (sym (ap (λ (r : Result (List TaskComment) × Db). r.0) run) ∙ h) in
    ap (λ (r : Result (List TaskComment) × Db). has_unacked_notes r.1 id) (run ∙ rest)
    ∙ acked s.now id s.active_user.org_id db (any_intro _ db.tasks m (ground (arith, same, guard)))

-- The row that an update of one task returns.
pub updated_row :
    (now id org_id : ℕ) (f : Task → Task) (e : Error) (db : Db) {t : Task}
    → ((update now id org_id (some f) >>= or_raise e) db).0 ≡ ok t
    → (row : Task) × Memᴰ row db.tasks × (row.id ≡ id) × (t ≡ stamp now f row)
unfolding update update_where ◌>>=◌ resume pure or_raise
updated_row now id org_id f e db {t} h =
    split (head? (map (stamp now f) (filter hits db.tasks))) refl h
  where
    hits : Task → Bool
    hits row = row.id == id && org_guard db org_id row.project_id

    split :
        (o : Option Task)
        → head? (map (stamp now f) (filter hits db.tasks)) ≡ o
        → or_fail e o ≡ ok t
        → (row : Task) × Memᴰ row db.tasks × (row.id ≡ id) × (t ≡ stamp now f row)
    split none same h = cc
    split (some new) same h =
        let (row, m, hit, made) = head?-some hits (stamp now f) db.tasks same in
        (row, m, ground (arith, hit), ok-injective (sym h) ∙ made)

-- An update that returned had a column to set.
pub patched_row :
    (b : Bool) (now id org_id : ℕ) (f : Task → Task) (e : Error) (db : Db) {t : Task}
    → ((update now id org_id (if b then none else some f) >>= or_raise e) db).0 ≡ ok t
    → (row : Task) × Memᴰ row db.tasks × (row.id ≡ id) × (t ≡ stamp now f row)
unfolding update ◌>>=◌ raise resume
patched_row true now id org_id f e db h = cc
patched_row false now id org_id f e db h = updated_row now id org_id f e db h

added :
    (delta column : Option ℕ) → or_else (add_to delta column) 0 ≡ or_else column 0 + or_else delta 0
added none none = refl
added none (some c) = omega arith
added (some n) none = refl
added (some n) (some c) = refl

-- A reported cost is added to what the task has cost before, each counter by what was reported for
-- it, and only the claimant of a task at work may report.
pub report_cost-adds :
    (s : Session) (id : ℕ) (delta : CostDelta) (db : Db) {t : Task}
    → IsValid db
    → (report_cost s id delta db).0 ≡ ok t
    → (row : Task) × Memᴰ row db.tasks
      × (row.id ≡ id)
      × (holds row.claimed_by s.active_user.user_id ≡ true)
      × (is_terminal row.status ≡ false)
      × (or_else t.cost_tokens_in 0 ≡ or_else row.cost_tokens_in 0 + or_else delta.tokens_in 0)
      × (or_else t.cost_tokens_out 0 ≡ or_else row.cost_tokens_out 0 + or_else delta.tokens_out 0)
      × (or_else t.cost_usd_cents 0 ≡ or_else row.cost_usd_cents 0 + or_else delta.usd_cents 0)
unfolding report_cost add_cost cost_patch stamp
report_cost-adds s id delta db {t} h e =
    let (current, found, run) = check_ok (require_task s.active_user id true) _ db e in
    let (m, same) = require_task_row s.active_user id true db found in
    let first = guard_ok _ _ _ db (sym (ap (λ (r : Result Task × Db). r.0) run) ∙ e) in
    let second = guard_ok _ _ _ db (sym (ap (λ (r : Result Task × Db). r.0) (run ∙ first.1)) ∙ e) in
    let (row, at, id_row, made) =
      patched_row (reports_nothing delta) s.now id s.active_user.org_id _ _ db
        (sym (ap (λ (r : Result Task × Db). r.0) (run ∙ first.1 ∙ second.1)) ∙ e) in
    let one = h.unique row current at m (id_row ∙ sym same) in
    (
      row,
      at,
      id_row,
      ap (λ (t : Task). holds t.claimed_by s.active_user.user_id) one ∙ ground (arith, second.0),
      ap (λ (t : Task). is_terminal t.status) one ∙ first.0,
      ap (λ (t : Task). or_else t.cost_tokens_in 0) made ∙ added delta.tokens_in row.cost_tokens_in,
      ap (λ (t : Task). or_else t.cost_tokens_out 0) made
          ∙ added delta.tokens_out row.cost_tokens_out,
      ap (λ (t : Task). or_else t.cost_usd_cents 0) made ∙ added delta.usd_cents row.cost_usd_cents,
    )
