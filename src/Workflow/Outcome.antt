-- ===== src/Workflow/Outcome.antt =====
-- The outcome of `transition`: the row that it returns, and how the rest of its run follows the swap.
use specbook.Base.{
  ◌≡◌, refl, sym, ap, ◌∙◌, Bool, true, false, inl, inr, Option, none, some, List, [], ◌∷◌, Memᴰ,
  head?, map, filter, set_where, Bool-cases, ◌==◌, ◌&&◌, arith,
}
use mathlib.Core.List.Memᴰ
use specbook.Rows.{Task, Actor, Status}
use specbook.Protocol.{same_status, same_status_iff}
use specbook.Result.{Error, Result, ok, err}
use specbook.Action.{Db, pure, or_raise, ◌>>=◌, resume}
use specbook.Action.Runs.{check_ok, rest_ok}
use specbook.ProjectRepository.{org_guard}
use specbook.Session.{Session}
use specbook.TaskRepository.{cas_update_status, update_where, stamp}
use specbook.TaskService.Plan.{TransitionRequest, TransitionPlan, plan_transition, status_patch}
use specbook.Invariant.{IsValid}
use specbook.Invariant.Access.{require_task_row, require_task_found, find_task_row}
use specbook.TaskService.Access.{scope_for}
use specbook.Invariant.Planned.{Planned, plan_transition-Planned}
use specbook.TaskService.Transition.{after_swap, commit_transition, transition, lost_race}

pub ok-injective : {a b : Task} → ok a ≡ ok b → a ≡ b
ok-injective h = cc

-- What follows the swap returns the row that the swap has written, if it returns.
pub after_swap-returns :
    (s : Session) (actor : Actor) (to : Status) (plan : TransitionPlan) (t : Task) (db : Db)
    {r : Task}
    → (after_swap s actor to plan t db).0 ≡ ok r
    → r ≡ t
unfolding after_swap pure
after_swap-returns s actor to plan t db h =
    sym (
      ok-injective
        (rest_ok _ _ _ (rest_ok _ _ _ (rest_ok _ _ _ (rest_ok _ _ _ (rest_ok _ _ _ h))))))

module _ {A B : Type 0} (p : A → Bool) (g : A → B) where
  pub head?-some :
      (xs : List A) {b : B}
      → head? (map g (filter p xs)) ≡ some b
      → (x : A) × Memᴰ x xs × (p x ≡ true) × (b ≡ g x)
  head?-some [] h = cc
  head?-some (x ∷ xs) {b} h = elim (Bool-cases (p x)) [
    | inl hit ↦ (x, Memᴰ.head refl, hit, ground (arith, hit))
    | inr miss ↦
        let (y, m, q, e) = head?-some xs {b = b} (ground (arith, miss)) in (y, Memᴰ.tail m, q, e)
  ]

  head?-none_miss :
      (xs : List A) → head? (map g (filter p xs)) ≡ none → (x : A) → Memᴰ x xs → p x ≡ false
  head?-none_miss [] h y m = absurd (Memᴰ.not-nil m)
  head?-none_miss (x ∷ xs) h y m = elim (Bool-cases (p x)) [
    | inl hit ↦ ground (arith, hit)
    | inr miss ↦ elim (Memᴰ.cases_cons m) [
      | inl e ↦ ap p e ∙ miss
      | inr later ↦ head?-none_miss xs (ground (arith, miss)) y later
    ]
  ]

-- An update that hits no row changes none.
pub set_where_miss :
    {A : Type 0} (p : A → Bool) (f : A → A) (xs : List A)
    → ((x : A) → Memᴰ x xs → p x ≡ false)
    → set_where p f xs ≡ xs
set_where_miss p f [] h = refl
set_where_miss p f (x ∷ xs) h =
    rw (h x (Memᴰ.head refl))
      (ap (λ rest. x ∷ rest) (set_where_miss p f xs (λ y m. h y (Memᴰ.tail m))))

-- The rows that the swap of a commit hits, and the tables after it.
abbrev pub swap_hits : Session → TransitionPlan → Db → Task → Bool
swap_hits s plan db t =
    t.id == plan.current.id
    && same_status t.status plan.current.status
    && org_guard db s.active_user.org_id t.project_id

abbrev pub swapped : Session → Status → TransitionPlan → Db → Db
swapped s to plan db = record db {
  tasks = set_where (swap_hits s plan db) (stamp s.now (status_patch s plan.current to)) db.tasks;
}

-- What a commit may come to: the row and the rest of the handler, or the lost race.
pub data Committed (s : Session) (actor : Actor) (to : Status) (plan : TransitionPlan) (db : Db)
    : Type 0 where
  won :
      (row : Task)
      → Memᴰ row db.tasks
      → row.id ≡ plan.current.id
      → row.status ≡ plan.current.status
      → commit_transition s actor to plan db
        ≡ after_swap s actor to plan
            (stamp s.now (status_patch s plan.current to) row)
            (swapped s to plan db)
      → Committed s actor to plan db
  lost :
      ((t : Task) → Memᴰ t db.tasks → swap_hits s plan db t ≡ false)
      → commit_transition s actor to plan db ≡ (err (lost_race plan.current.status to), db)
      → Committed s actor to plan db

module _ (s : Session) (actor : Actor) (to : Status) (plan : TransitionPlan) (db : Db) where
  row_hit :
      (t : Task)
      → swap_hits s plan db t ≡ true
      → (t.id ≡ plan.current.id) × (t.status ≡ plan.current.status)
  row_hit t hit = (ground arith, ground (arith, same_status_iff t.status plan.current.status))

  pub commit_cases : Committed s actor to plan db
  unfolding commit_transition cas_update_status update_where ◌>>=◌ resume pure or_raise
  commit_cases = split (head? (map patched (filter (swap_hits s plan db) db.tasks))) refl
    where
      patched : Task → Task
      patched = stamp s.now (status_patch s plan.current to)

      rest : Option Task → Result Task × Db
      rest o =
          (or_raise (lost_race plan.current.status to) o >>= after_swap s actor to plan)
            (swapped s to plan db)

      split :
          (o : Option Task)
          → head? (map patched (filter (swap_hits s plan db) db.tasks)) ≡ o
          → Committed s actor to plan db
      split (some new) e =
          let (row, m, hit, same) = head?-some (swap_hits s plan db) patched db.tasks e in
          won row m (row_hit row hit).0 (row_hit row hit).1 (ap rest (e ∙ ap some same))
      split none e = lost (head?-none_miss (swap_hits s plan db) patched db.tasks e) (
          ap rest e
          ∙ ap (λ rows. (err (lost_race plan.current.status to), record db { tasks = rows }))
              (set_where_miss (swap_hits s plan db) patched db.tasks
                (head?-none_miss (swap_hits s plan db) patched db.tasks e)))

pub ok_not_err : {t : Task} {e : Error} → ¬ (ok t ≡ err e)
ok_not_err h = cc

-- A commit that returned has swapped the row that it returns.
commit_ok :
    (s : Session) (actor : Actor) (to : Status) (plan : TransitionPlan) (db : Db) {t : Task}
    → (commit_transition s actor to plan db).0 ≡ ok t
    → (row : Task) × Memᴰ row db.tasks
      × (row.id ≡ plan.current.id)
      × (t ≡ stamp s.now (status_patch s plan.current to) row)
      × (commit_transition s actor to plan db ≡ after_swap s actor to plan t (swapped s to plan db))
commit_ok s actor to plan db {t} h = elim (commit_cases s actor to plan db) [
  | won row m same old run ↦
      let result =
        after_swap-returns s actor to plan _ _ (sym (ap (λ (r : Result Task × Db). r.0) run) ∙ h) in
      (
        row,
        m,
        same,
        result,
        run ∙ ap (λ t. after_swap s actor to plan t (swapped s to plan db)) (sym result),
      )
  | lost none_hit run ↦ absurd (ok_not_err (sym h ∙ ap (λ (r : Result Task × Db). r.0) run))
]

-- A transition that returned: what it has checked, the row that it returns, and the whole run.
pub transition_run :
    (s : Session) (actor : Actor) (dto : TransitionRequest) (db : Db) {t : Task}
    → IsValid db
    → (transition s actor dto db).0 ≡ ok t
    → (plan : TransitionPlan) × Planned s actor dto db plan
      × (t ≡ stamp s.now (status_patch s plan.current dto.to) plan.current)
      × (transition s actor dto db ≡ after_swap s actor dto.to plan t (swapped s dto.to plan db))
unfolding transition
transition_run s actor dto db {t} h e =
    let (plan, planned, run) = check_ok (plan_transition s actor dto) _ db e in
    let p = plan_transition-Planned s actor dto db plan planned in
    let (row, m, same, result, rest) =
      commit_ok s actor dto.to plan db (sym (ap (λ (r : Result Task × Db). r.0) run) ∙ e) in
    let (found, _) = require_task_row s.active_user dto.id true db p.found in
    (
      plan,
      p,
      result
          ∙ ap (stamp s.now (status_patch s plan.current dto.to))
              (h.unique row plan.current m found same),
      run ∙ rest,
    )

-- The row of a transition that returned, and what was checked of it.
pub transition_row :
    (s : Session) (actor : Actor) (dto : TransitionRequest) (db : Db) {t : Task}
    → IsValid db
    → (transition s actor dto db).0 ≡ ok t
    → (plan : TransitionPlan) × Planned s actor dto db plan
      × (t ≡ stamp s.now (status_patch s plan.current dto.to) plan.current)
transition_row s actor dto db h e =
    let (plan, p, same, _) = transition_run s actor dto db h e in (plan, p, same)

-- The swap of a plan hits the row that the plan has read.
pub plan_hits :
    (s : Session) (actor : Actor) (dto : TransitionRequest) (db : Db) (plan : TransitionPlan)
    → Planned s actor dto db plan
    → swap_hits s plan db plan.current ≡ true
plan_hits s actor dto db plan p =
    let row =
      find_task_row db dto.id s.active_user.org_id (scope_for s.active_user)
        (require_task_found s.active_user dto.id true db p.found) in
    let guard = row.2 in ground (arith, same_status_iff plan.current.status plan.current.status)
