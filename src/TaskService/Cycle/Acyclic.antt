-- ===== src/TaskService/Cycle/Acyclic.antt =====
-- No task waits for itself: an edge that passes the check of `addDependency` closes no cycle.
use specbook.Base.{
  ℕ, ◌≡◌, sym, ap, ◌∙◌, ◌⊎◌, inl, inr, ⊎_elim, List, [], ◌∷◌, ◌++◌, Memᴰ, Memᴰ-append,
}
use mathlib.Core.List.Memᴰ
use mathlib.Core.Path.{subst}
use specbook.Rows.{Dependency}
use specbook.TaskService.Cycle.Reach.{Waits, Waits-iff, Reaches, here, next, Reaches-trans}

-- No walk along one edge or more leads back to its start.
abbrev pub Acyclic : List Dependency → Type 0
Acyclic edges = (u v : ℕ) → Waits edges u v → ¬ Reaches edges v u

module _ (edges : List Dependency) (e : Dependency) where
  Waits-snoc :
      (u v : ℕ)
      → Waits (edges ++ e ∷ []) u v
      → Waits edges u v ⊎ ((u ≡ e.task_id) × (v ≡ e.depends_on_task_id))
  Waits-snoc u v w =
      let (f, at, src, dst) = (Waits-iff (edges ++ e ∷ []) u v).0 w in
      ⊎_elim (λ old. inl ((Waits-iff edges u v).1 (f, old, src, dst)))
        (λ new. inr (
          sym src ∙ ap (λ d. d.task_id) (Memᴰ.eq_of_singleton new),
          sym dst ∙ ap (λ d. d.depends_on_task_id) (Memᴰ.eq_of_singleton new),
        ))
        ((Memᴰ-append f edges (e ∷ [])).0 at)

  -- A walk either uses old edges alone, or splits at the new edge.
  Reaches-snoc :
      {u w : ℕ}
      → Reaches (edges ++ e ∷ []) u w
      → Reaches edges u w ⊎ (Reaches edges u e.task_id × Reaches edges e.depends_on_task_id w)
  Reaches-snoc here = inl here
  Reaches-snoc (next {v} {w} p x) = elim (Waits-snoc v w x) [
    | inl old ↦
        ⊎_elim (λ r. inl (next r old)) (λ both. inr (both.0, next both.1 old)) (Reaches-snoc p)
    | inr new ↦ inr (
      ⊎_elim (λ r. subst (Reaches edges _) new.0 r) (λ both. both.0) (Reaches-snoc p),
      subst (Reaches edges e.depends_on_task_id) (sym new.1) here,
    )
  ]

  -- An edge whose far end does not wait for its near end closes no cycle.
  pub Acyclic-snoc :
      ¬ Reaches edges e.depends_on_task_id e.task_id → Acyclic edges → Acyclic (edges ++ e ∷ [])
  Acyclic-snoc free h u v x r = elim (Waits-snoc u v x) [
    | inl old ↦
        ⊎_elim (h u v old) (λ both. free (Reaches-trans (next both.1 old) both.0)) (Reaches-snoc r)
    | inr new ↦
        let back = subst (λ n. Reaches (edges ++ e ∷ []) n u) new.1 r in
        ⊎_elim (λ old. free (subst (Reaches edges e.depends_on_task_id) new.0 old))
          (λ both. free both.0) (Reaches-snoc back)
  ]

-- Fewer edges have fewer walks.
pub Reaches-mono :
    (edges fewer : List Dependency)
    → ((e : Dependency) → Memᴰ e fewer → Memᴰ e edges)
    → {u v : ℕ} → Reaches fewer u v
    → Reaches edges u v
Reaches-mono edges fewer sub here = here
Reaches-mono edges fewer sub (next {v} {w} p x) =
    let (f, at, src, dst) = (Waits-iff fewer v w).0 x in
    next (Reaches-mono edges fewer sub p) ((Waits-iff edges v w).1 (f, sub f at, src, dst))

pub Acyclic-mono :
    (edges fewer : List Dependency)
    → ((e : Dependency) → Memᴰ e fewer → Memᴰ e edges)
    → Acyclic edges
    → Acyclic fewer
Acyclic-mono edges fewer sub h u v x r =
    let (f, at, src, dst) = (Waits-iff fewer u v).0 x in
    h u v ((Waits-iff edges u v).1 (f, sub f at, src, dst)) (Reaches-mono edges fewer sub r)
