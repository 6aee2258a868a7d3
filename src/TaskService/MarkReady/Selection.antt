-- ===== src/TaskService/MarkReady/Selection.antt =====
-- Which tasks `markReady` hands to the bulk promotion.
use specbook.Base.{
  ℕ, ◌≡◌, ap, ◌↔◌, inl, ⊎_elim, true, some, Option, none, List, [], Memᴰ, Memᴰ-filter, filter,
}
use mathlib.Core.List.Memᴰ
use specbook.Rows.{Task, Dependency}
use specbook.TaskService.Cycle.{push_all}
use specbook.TaskService.Cycle.Reach.{Memᴰ-push_all}
use specbook.TaskService.MarkReady.{
  Scope, promote_ids, reachable_drafts, draft_ids, target_ids, is_dispatchable,
}
use specbook.TaskService.MarkReady.Walk.{Needed, reachable_drafts_exact}

-- For all rows, edges and scopes a selection is made, and it holds exactly the drafts that the
-- targets of the scope need along drafts and that pass the test for dispatch; a draft on the way that
-- does not pass is left out, and what waits for it is not.
pub promote_ids_exact :
    (rows : List Task) (edges : List Dependency) (scope : Scope)
    → (ids : List ℕ) × (promote_ids rows edges scope ≡ some ids)
      × ((n : ℕ)
          → Memᴰ n ids ↔ (
              Needed edges (draft_ids rows) (target_ids scope rows) n
              × (is_dispatchable rows n ≡ true)))
unfolding promote_ids
promote_ids_exact rows edges scope =
    let (r, e, exact) = reachable_drafts_exact edges (draft_ids rows) (target_ids scope rows) in
    (
      filter (is_dispatchable rows) (push_all r []),
      selected e,
      λ n.
          let kept = Memᴰ-filter (is_dispatchable rows) n (push_all r []) in
          let pushed = Memᴰ-push_all n r [] in
          (
            λ m.
                let (listed, passes) = kept.0 m in
                (
                  (exact n).0 (⊎_elim (λ m. m) (λ m. absurd (Memᴰ.not-nil m)) (pushed.0 listed)),
                  passes,
                ),
            λ w. kept.1 (pushed.1 (inl ((exact n).1 w.0)), w.1),
          ),
    )
  where
    select : Option (List ℕ) → Option (List ℕ)
    select reached = elim reached [
      | none ↦ none
      | some reached ↦ some (filter (is_dispatchable rows) (push_all reached []))
    ]

    selected :
        {r : List ℕ}
        → reachable_drafts edges (draft_ids rows) (target_ids scope rows) ≡ some r
        → select (reachable_drafts edges (draft_ids rows) (target_ids scope rows))
          ≡ some (filter (is_dispatchable rows) (push_all r []))
    selected e = ap select e
