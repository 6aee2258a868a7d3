-- ===== src/TaskService/MarkReady/Walk.antt =====
-- The walk of `markReady` ends within its fuel, and reaches exactly the drafts that the targets
-- wait for along drafts.
use specbook.Base.{
  ℕ, zero, suc, ◌+◌, ◌<◌, ◌≡◌, refl, sym, ◌↔◌, ◌⊎◌, inl, inr, ⊎_elim, some, List, [], ◌∷◌, elem,
  elem_iff, length, Memᴰ, Memᴰ-cons, Memᴰ-filter, filter, Bool-cases, ◌==◌, ==_iff, not, arith,
}
use mathlib.Core.List.Memᴰ
use mathlib.Core.Path.{subst}
use specbook.Rows.{Dependency}
use specbook.TaskService.Cycle.{prerequisites, push_all}
use specbook.TaskService.Cycle.Reach.{
  Waits, Memᴰ-push_all, length-push_all, unvisited, unvisited-visit,
}
use specbook.TaskService.Cycle.Walk.{unvisited-nil}
use specbook.TaskService.MarkReady.{draft_walk, reachable_drafts, dedupe}

-- The drafts that the targets need: the targets themselves, and the draft prerequisites of a draft
-- that is needed.
pub data Needed (edges : List Dependency) (drafts targets : List ℕ) : ℕ → Type 0 where
  target : {n : ℕ} → Memᴰ n targets → Memᴰ n drafts → Needed edges drafts targets n
  prerequisite :
      {u v : ℕ}
      → Needed edges drafts targets u
      → Waits edges u v
      → Memᴰ v drafts
      → Needed edges drafts targets v

Memᴰ-dedupe : (n : ℕ) (ids : List ℕ) → Memᴰ n (dedupe ids) ↔ Memᴰ n ids
unfolding dedupe
Memᴰ-dedupe n [] = (λ m. m, λ m. m)
Memᴰ-dedupe n (id ∷ rest) = ground (
  arith,
  Memᴰ-cons n id (filter (λ other. not (id == other)) (dedupe rest)),
  Memᴰ-cons n id rest,
  Memᴰ-filter (λ other. not (id == other)) n (dedupe rest),
  Memᴰ-dedupe n rest,
  ==_iff id n,
)

module _ (edges : List Dependency) (drafts targets : List ℕ) where
  record Inv (stack reached : List ℕ) : Type 0 where
    waiting :
        (n : ℕ)
        → Memᴰ n stack
        → Memᴰ n targets ⊎ ((u : ℕ) × Needed edges drafts targets u × Waits edges u n)
    sound : (n : ℕ) → Memᴰ n reached → Needed edges drafts targets n
    closed :
        (u v : ℕ) → Memᴰ u reached → Waits edges u v → Memᴰ v drafts → Memᴰ v reached ⊎ Memᴰ v stack
    started : (n : ℕ) → Memᴰ n targets → Memᴰ n drafts → Memᴰ n reached ⊎ Memᴰ n stack

  complete :
      (reached : List ℕ) → Inv [] reached → {n : ℕ} → Needed edges drafts targets n → Memᴰ n reached
  complete reached h (target {n} m d) =
      ⊎_elim (λ m. m) (λ m. absurd (Memᴰ.not-nil m)) (h.started n m d)
  complete reached h (prerequisite {u} {v} p e d) =
      ⊎_elim (λ m. m) (λ m. absurd (Memᴰ.not-nil m)) (h.closed u v (complete reached h p) e d)

  -- The top of the stack goes if it was reached before, or is no draft.
  Inv-skip :
      (node : ℕ) (stack reached : List ℕ)
      → (Memᴰ node drafts → Memᴰ node reached)
      → Inv (node ∷ stack) reached
      → Inv stack reached
  Inv-skip node stack reached old h = record {
    waiting = λ n m. h.waiting n (Memᴰ.tail m);
    sound = h.sound;
    closed = λ u v m e d. drop v d (h.closed u v m e d);
    started = λ n m d. drop n d (h.started n m d);
  }
    where
      drop :
          (v : ℕ)
          → Memᴰ v drafts
          → Memᴰ v reached ⊎ Memᴰ v (node ∷ stack)
          → Memᴰ v reached ⊎ Memᴰ v stack
      drop v d = ⊎_elim inl λ m.
          ⊎_elim (λ e. inl (Memᴰ.cast e (old (subst (λ x. Memᴰ x drafts) e d)))) inr
            (Memᴰ.cases_cons m)

  Inv-visit :
      (node : ℕ) (stack reached : List ℕ)
      → Memᴰ node drafts
      → Inv (node ∷ stack) reached
      → Inv (push_all (prerequisites edges node) stack) (node ∷ reached)
  Inv-visit node stack reached draft h =
      let needed = need (h.waiting node (Memᴰ.head refl)) in
      record {
        waiting = λ n m.
            ⊎_elim (λ e. inr (node, needed, e)) (λ old. h.waiting n (Memᴰ.tail old))
              ((Memᴰ-push_all n (prerequisites edges node) stack).0 m);
        sound = λ n m.
            ⊎_elim (λ e. subst (Needed edges drafts targets) (sym e) needed) (h.sound n)
              (Memᴰ.cases_cons m);
        closed = λ u v m e d. elim (Memᴰ.cases_cons m) [
          | inl eq ↦ inr (
              (Memᴰ-push_all v (prerequisites edges node) stack).1
                (inl (subst (λ x. Waits edges x v) eq e)))
          | inr old ↦ keep v (h.closed u v old e d)
        ];
        started = λ n m d. keep n (h.started n m d);
      }
    where
      need :
          Memᴰ node targets ⊎ ((u : ℕ) × Needed edges drafts targets u × Waits edges u node)
          → Needed edges drafts targets node
      need (inl m) = target m draft
      need (inr w) = prerequisite w.1 w.2 draft

      keep :
          (v : ℕ)
          → Memᴰ v reached ⊎ Memᴰ v (node ∷ stack)
          → Memᴰ v (node ∷ reached) ⊎ Memᴰ v (push_all (prerequisites edges node) stack)
      keep v =
          ⊎_elim (λ m. inl (Memᴰ.tail m))
            λ m.
              ⊎_elim (λ e. inl (Memᴰ.head e))
                (λ old. inr ((Memᴰ-push_all v (prerequisites edges node) stack).1 (inr old)))
                (Memᴰ.cases_cons m)

  abbrev IsExact : List ℕ → Type 0
  IsExact reached = (n : ℕ) → Memᴰ n reached ↔ Needed edges drafts targets n

  walk-IsExact :
      (fuel : ℕ) (stack reached : List ℕ)
      → length stack + unvisited edges reached < fuel
      → Inv stack reached
      → (r : List ℕ) × (draft_walk edges drafts fuel stack reached ≡ some r) × IsExact r
  unfolding draft_walk
  walk-IsExact zero stack reached m h = absurd (omega arith)
  walk-IsExact (suc fuel) [] reached m h = (reached, refl, λ n. (h.sound n, complete reached h))
  walk-IsExact (suc fuel) (node ∷ stack) reached m h = elim (Bool-cases (elem node reached)) [
    | inl old ↦ rw old (
        walk-IsExact fuel stack reached (omega arith)
          (Inv-skip node stack reached (λ _. (elem_iff node reached).0 old) h))
    | inr new ↦ elim (Bool-cases (elem node drafts)) [
      | inl draft ↦
          rw (new, draft)
            (walk-IsExact fuel (push_all (prerequisites edges node) stack) (node ∷ reached)
              (omega (
                arith,
                unvisited-visit edges node reached new,
                length-push_all (prerequisites edges node) stack,
              ))
              (Inv-visit node stack reached ((elem_iff node drafts).0 draft) h))
      | inr other ↦
          rw (new, other)
            (walk-IsExact fuel stack reached (omega arith) (
              Inv-skip node stack reached
                (λ d. let listed = (elem_iff node drafts).1 d in ground arith) h))
    ]
  ]

-- For all edges, drafts and targets the walk ends within its fuel, and what it has reached is
-- exactly the set of the drafts that the targets need.
pub reachable_drafts_exact :
    (edges : List Dependency) (drafts targets : List ℕ)
    → (r : List ℕ) × (reachable_drafts edges drafts targets ≡ some r)
      × ((n : ℕ) → Memᴰ n r ↔ Needed edges drafts targets n)
unfolding reachable_drafts
reachable_drafts_exact edges drafts targets =
    walk-IsExact edges drafts targets (suc (length (dedupe targets) + length edges))
      (push_all (dedupe targets) []) []
      (omega (arith, unvisited-nil edges, length-push_all (dedupe targets) []))
      (record {
        waiting = λ n m. inl (listed n m);
        sound = λ n m. absurd (Memᴰ.not-nil m);
        closed = λ u v m e d. absurd (Memᴰ.not-nil m);
        started = λ n m d.
            inr ((Memᴰ-push_all n (dedupe targets) []).1 (inl ((Memᴰ-dedupe n targets).1 m)));
      })
  where
    listed : (n : ℕ) → Memᴰ n (push_all (dedupe targets) []) → Memᴰ n targets
    listed n m =
        (Memᴰ-dedupe n targets).0 (
          ⊎_elim (λ m. m) (λ m. absurd (Memᴰ.not-nil m))
            ((Memᴰ-push_all n (dedupe targets) []).0 m))
