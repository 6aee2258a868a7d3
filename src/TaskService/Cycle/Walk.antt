-- ===== src/TaskService/Cycle/Walk.antt =====
-- The walk of `wouldCycle` ends within its fuel, and answers whether the one task waits for the
-- other, along any number of edges.
use specbook.Base.{
  ℕ, zero, suc, ◌+◌, ◌<◌, ◌≡◌, refl, sym, ◌↔◌, ◌⊎◌, inl, inr, ⊎_elim, Bool, true, false, some, List,
  [], ◌∷◌, elem, elem_iff, length, Memᴰ, Bool-cases, ◌==◌, ==_iff, arith,
}
use mathlib.Core.List.Memᴰ
use mathlib.Core.Path.{subst}
use specbook.Rows.{Dependency}
use specbook.TaskService.Cycle.{prerequisites, push_all, search_loop, would_cycle}
use specbook.TaskService.Cycle.Reach.{
  Waits, Reaches, here, next, Memᴰ-push_all, length-push_all, unvisited, unvisited-visit,
}

module _ (edges : List Dependency) (goal start : ℕ) where
  record Inv (stack seen : List ℕ) : Type 0 where
    sound : (n : ℕ) → Memᴰ n stack → Reaches edges start n
    closed : (u v : ℕ) → Memᴰ u seen → Waits edges u v → Memᴰ v seen ⊎ Memᴰ v stack
    avoids : ¬ Memᴰ goal seen
    started : Memᴰ start seen ⊎ Memᴰ start stack

  -- With an empty stack the visited tasks are closed under the edges.
  complete : (seen : List ℕ) → Inv [] seen → {n : ℕ} → Reaches edges start n → Memᴰ n seen
  complete seen h here = ⊎_elim (λ m. m) (λ m. absurd (Memᴰ.not-nil m)) h.started
  complete seen h (next {v} {w} p e) =
      ⊎_elim (λ m. m) (λ m. absurd (Memᴰ.not-nil m)) (h.closed v w (complete seen h p) e)

  Inv-skip :
      (node : ℕ) (stack seen : List ℕ) → Memᴰ node seen → Inv (node ∷ stack) seen → Inv stack seen
  Inv-skip node stack seen old h = record {
    sound = λ n m. h.sound n (Memᴰ.tail m);
    closed = λ u v m e. drop v (h.closed u v m e);
    avoids = h.avoids;
    started = drop start h.started;
  }
    where
      drop : (v : ℕ) → Memᴰ v seen ⊎ Memᴰ v (node ∷ stack) → Memᴰ v seen ⊎ Memᴰ v stack
      drop v = ⊎_elim inl (λ m. ⊎_elim (λ e. inl (Memᴰ.cast e old)) inr (Memᴰ.cases_cons m))

  Inv-visit :
      (node : ℕ) (stack seen : List ℕ)
      → (node == goal) ≡ false
      → Inv (node ∷ stack) seen
      → Inv (push_all (prerequisites edges node) stack) (node ∷ seen)
  Inv-visit node stack seen other h = record {
    sound = λ n m.
        ⊎_elim (λ e. next (h.sound node (Memᴰ.head refl)) e) (λ old. h.sound n (Memᴰ.tail old))
          ((Memᴰ-push_all n (prerequisites edges node) stack).0 m);
    closed = λ u v m e. elim (Memᴰ.cases_cons m) [
      | inl eq ↦ inr (
          (Memᴰ-push_all v (prerequisites edges node) stack).1
            (inl (subst (λ x. Waits edges x v) eq e)))
      | inr old ↦ keep v (h.closed u v old e)
    ];
    avoids = λ m. ⊎_elim (λ e. ground arith) h.avoids (Memᴰ.cases_cons m);
    started = keep start h.started;
  }
    where
      keep :
          (v : ℕ)
          → Memᴰ v seen ⊎ Memᴰ v (node ∷ stack)
          → Memᴰ v (node ∷ seen) ⊎ Memᴰ v (push_all (prerequisites edges node) stack)
      keep v =
          ⊎_elim (λ m. inl (Memᴰ.tail m))
            λ m.
              ⊎_elim (λ e. inl (Memᴰ.head e))
                (λ old. inr ((Memᴰ-push_all v (prerequisites edges node) stack).1 (inr old)))
                (Memᴰ.cases_cons m)

  abbrev Decides : Bool → Type 0
  Decides b = (b ≡ true) ↔ Reaches edges start goal

  loop-Decides :
      (fuel : ℕ) (stack seen : List ℕ)
      → length stack + unvisited edges seen < fuel
      → Inv stack seen
      → (b : Bool) × (search_loop edges goal fuel stack seen ≡ some b) × Decides b
  unfolding search_loop
  loop-Decides zero stack seen m h = absurd (omega arith)
  loop-Decides (suc fuel) [] seen m h =
      (false, refl, (λ e. cc, λ r. absurd (h.avoids (complete seen h r))))
  loop-Decides (suc fuel) (node ∷ stack) seen m h = elim (Bool-cases (node == goal)) [
    | inl found ↦ (
      true,
      rw found,
      (
        λ _.
            subst (Reaches edges start) ((==_iff node goal).0 found)
              (h.sound node (Memᴰ.head refl)),
        λ _. refl,
      ),
    )
    | inr other ↦ elim (Bool-cases (elem node seen)) [
      | inl old ↦
          rw (other, old)
            (loop-Decides fuel stack seen (omega arith)
              (Inv-skip node stack seen ((elem_iff node seen).0 old) h))
      | inr new ↦
          rw (other, new)
            (loop-Decides fuel (push_all (prerequisites edges node) stack) (node ∷ seen)
              (omega (
                arith,
                unvisited-visit edges node seen new,
                length-push_all (prerequisites edges node) stack,
              ))
              (Inv-visit node stack seen other h))
    ]
  ]

pub unvisited-nil : (edges : List Dependency) → unvisited edges [] ≡ length edges
unvisited-nil [] = refl
unvisited-nil (e ∷ edges) = omega (arith, unvisited-nil edges)

-- For every list of edges the walk ends within its fuel, and it answers true exactly when the
-- second task waits for the first, along any number of edges.
pub would_cycle_decides :
    (edges : List Dependency) (task_id depends_on_task_id : ℕ)
    → (b : Bool) × (would_cycle edges task_id depends_on_task_id ≡ some b)
      × ((b ≡ true) ↔ Reaches edges depends_on_task_id task_id)
unfolding would_cycle
would_cycle_decides edges task_id depends_on_task_id =
    loop-Decides edges task_id depends_on_task_id (suc (suc (length edges)))
      (depends_on_task_id ∷ []) [] (omega (arith, unvisited-nil edges))
      (record {
        sound = λ n m. subst (Reaches edges depends_on_task_id) (sym (Memᴰ.eq_of_singleton m)) here;
        closed = λ u v m e. absurd (Memᴰ.not-nil m);
        avoids = λ m. Memᴰ.not-nil m;
        started = inr (Memᴰ.head refl);
      })
