-- ===== src/TaskService/Cycle/Reach.antt =====
-- The walks along the dependency edges, and the lemmas on the stack and on the measure of a walk.
use specbook.Base.{
  ℕ, ◌+◌, ◌≡◌, refl, sym, ap, ◌∙◌, ◌↔◌, ◌≢◌, ◌⊎◌, inl, inr, ⊎_elim, false, not, List, [], ◌∷◌, elem,
  length, count_where, Memᴰ, Memᴰ-cons, Bool-cases, ◌==◌, ==_iff, arith,
}
use mathlib.Core.List.Memᴰ
use specbook.Rows.{Dependency}
use specbook.TaskService.Cycle.{prerequisites, push_all}

-- One task waits for another.
abbrev pub Waits : List Dependency → ℕ → ℕ → Type 0
Waits edges u v = Memᴰ v (prerequisites edges u)

-- The tasks that a task waits for, itself included, along any number of edges.
pub data Reaches (edges : List Dependency) (u : ℕ) : ℕ → Type 0 where
  here : Reaches edges u u
  next : {v w : ℕ} → Reaches edges u v → Waits edges v w → Reaches edges u w

pub Reaches-trans :
    {edges : List Dependency} {u v w : ℕ}
    → Reaches edges u v
    → Reaches edges v w
    → Reaches edges u w
Reaches-trans p here = p
Reaches-trans p (next q e) = next (Reaches-trans p q) e

not_there : {a b : ℕ} → (a == b) ≡ false → a ≢ b
not_there h e = ground arith

pub Waits-iff :
    (edges : List Dependency) (u v : ℕ)
    → Waits edges u v
      ↔ ((e : Dependency) × Memᴰ e edges × (e.task_id ≡ u) × (e.depends_on_task_id ≡ v))
Waits-iff [] u v = (λ m. absurd (Memᴰ.not-nil m), λ w. absurd (Memᴰ.not-nil w.1))
Waits-iff (e ∷ edges) u v = elim (Bool-cases (e.task_id == u)) [
  | inl same ↦ rw same (
    λ m. elim (Memᴰ.cases_cons m) [
      | inl eq ↦ (e, Memᴰ.head refl, (==_iff _ _).0 same, cc)
      | inr later ↦
          let (f, at, src, dst) = (Waits-iff edges u v).0 later in (f, Memᴰ.tail at, src, dst)
    ],
    λ w. elim (Memᴰ.cases_cons w.1) [
      | inl eq ↦ Memᴰ.head (sym w.3 ∙ ap (λ d. d.depends_on_task_id) eq)
      | inr later ↦ Memᴰ.tail ((Waits-iff edges u v).1 (w.0, later, w.2, w.3))
    ],
  )
  | inr other ↦ rw other (
    λ m. let (f, at, src, dst) = (Waits-iff edges u v).0 m in (f, Memᴰ.tail at, src, dst),
    λ w. elim (Memᴰ.cases_cons w.1) [
      | inl eq ↦ absurd (not_there other (sym (ap (λ d. d.task_id) eq) ∙ w.2))
      | inr later ↦ (Waits-iff edges u v).1 (w.0, later, w.2, w.3)
    ],
  )
]

pub Memᴰ-push_all :
    (n : ℕ) (list stack : List ℕ) → Memᴰ n (push_all list stack) ↔ (Memᴰ n list ⊎ Memᴰ n stack)
Memᴰ-push_all n [] stack = (inr, ⊎_elim (λ m. absurd (Memᴰ.not-nil m)) (λ m. m))
Memᴰ-push_all n (x ∷ list) stack =
    ground (arith, Memᴰ-push_all n list (x ∷ stack), Memᴰ-cons n x list, Memᴰ-cons n x stack)

pub length-push_all :
    (list stack : List ℕ) → length (push_all list stack) ≡ length list + length stack
length-push_all [] stack = omega arith
length-push_all (x ∷ list) stack = omega (arith, length-push_all list (x ∷ stack))

-- The edges whose task the walk has not visited.
abbrev pub unvisited : List Dependency → List ℕ → ℕ
unvisited edges seen = count_where (λ e. not (elem e.task_id seen)) edges

-- A visit uses up the edges of its task.
pub unvisited-visit :
    (edges : List Dependency) (node : ℕ) (seen : List ℕ)
    → elem node seen ≡ false
    → unvisited edges seen ≡ unvisited edges (node ∷ seen) + length (prerequisites edges node)
unvisited-visit [] node seen new = omega arith
unvisited-visit (e ∷ edges) node seen new = elim (Bool-cases (e.task_id == node)) [
  | inl same ↦ ground (arith, unvisited-visit edges node seen)
  | inr other ↦ ground (arith, unvisited-visit edges node seen)
]
