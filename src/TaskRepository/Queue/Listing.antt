-- ===== src/TaskRepository/Queue/Listing.antt =====
-- The order in which `findForOrg` serves its rows.
use specbook.Base.{
  ℕ, zero, suc, ◌≤◌, ◌<◌, ◌≡◌, ap, ◌∙◌, ◌↔◌, ◌⊎◌, inl, inr, ⊎_elim, true, false, Option, List, [],
  ◌∷◌, Memᴰ, Memᴰ-cons, filter, length, take, drop, Bool-cases, arith,
}
use mathlib.Core.List.Memᴰ
use specbook.Rows.{Task}
use specbook.Action.{Db}
use specbook.TaskRepository.Queue.{
  precedes, insert_ordered, order, ListTasksFilter, matches, find_for_org,
}

-- A row may stand before another: it is more urgent, or as urgent and no younger.
abbrev pub MayPrecede : Task → Task → Type 0
MayPrecede t u =
    (u.priority < t.priority) ⊎ ((t.priority ≡ u.priority) × (t.created_at ≤ u.created_at))

abbrev pub IsQueue : List Task → Type 0
IsQueue [] = Unit
IsQueue (t ∷ rest) = ((u : Task) → Memᴰ u rest → MayPrecede t u) × IsQueue rest

-- Each row may stand before the ones that follow it, by the test of the sort.
abbrev IsOrdered : List Task → Type 0
IsOrdered [] = Unit
IsOrdered (t ∷ rest) = ((u : Task) → Memᴰ u rest → precedes t u ≡ true) × IsOrdered rest

precedes-MayPrecede : (t u : Task) → precedes t u ≡ true → MayPrecede t u
unfolding precedes
precedes-MayPrecede t u h = ground arith

IsOrdered-IsQueue : (rows : List Task) → IsOrdered rows → IsQueue rows
IsOrdered-IsQueue [] h = tt
IsOrdered-IsQueue (t ∷ rest) h =
    (λ u m. precedes-MayPrecede t u (h.0 u m), IsOrdered-IsQueue rest h.1)

precedes_total : (t u : Task) → precedes t u ≡ false → precedes u t ≡ true
unfolding precedes
precedes_total t u h = ground arith

precedes_trans : (t u v : Task) → precedes t u ≡ true → precedes u v ≡ true → precedes t v ≡ true
unfolding precedes
precedes_trans t u v h k = ground arith

Memᴰ-insert_ordered :
    (a t : Task) (rows : List Task) → Memᴰ a (insert_ordered t rows) ↔ ((a ≡ t) ⊎ Memᴰ a rows)
unfolding insert_ordered
Memᴰ-insert_ordered a t [] = Memᴰ-cons a t []
Memᴰ-insert_ordered a t (u ∷ rest) = elim (Bool-cases (precedes t u)) [
  | inl first ↦ rw first (Memᴰ-cons a t (u ∷ rest))
  | inr later ↦ rw later (
      ground (
        arith,
        Memᴰ-insert_ordered a t rest,
        Memᴰ-cons a u rest,
        Memᴰ-cons a u (insert_ordered t rest),
      ))
]

insert_ordered-IsOrdered :
    (t : Task) (rows : List Task) → IsOrdered rows → IsOrdered (insert_ordered t rows)
unfolding insert_ordered
insert_ordered-IsOrdered t [] h = (λ u m. absurd (Memᴰ.not-nil m), tt)
insert_ordered-IsOrdered t (u ∷ rest) h = elim (Bool-cases (precedes t u)) [
  | inl first ↦ rw first (
    λ v m.
        ⊎_elim (λ e. ap (precedes t) e ∙ first) (λ later. precedes_trans t u v first (h.0 v later))
          (Memᴰ.cases_cons m),
    h,
  )
  | inr later ↦ rw later (
    λ v m.
        ⊎_elim (λ e. ap (precedes u) e ∙ precedes_total t u later) (h.0 v)
          ((Memᴰ-insert_ordered v t rest).0 m),
    insert_ordered-IsOrdered t rest h.1,
  )
]

order-IsOrdered : (rows : List Task) → IsOrdered (order rows)
unfolding order
order-IsOrdered [] = tt
order-IsOrdered (t ∷ rest) = insert_ordered-IsOrdered t (order rest) (order-IsOrdered rest)

take_part : (n : ℕ) {a : Task} (rows : List Task) → Memᴰ a (take n rows) → Memᴰ a rows
take_part zero rows m = absurd (Memᴰ.not-nil m)
take_part (suc n) [] m = m
take_part (suc n) {a} (t ∷ rows) m =
    ⊎_elim (λ e. Memᴰ.head e) (λ later. Memᴰ.tail (take_part n rows later)) (Memᴰ.cases_cons m)

drop-IsOrdered : (n : ℕ) (rows : List Task) → IsOrdered rows → IsOrdered (drop n rows)
drop-IsOrdered zero rows h = h
drop-IsOrdered (suc n) [] h = h
drop-IsOrdered (suc n) (t ∷ rows) h = drop-IsOrdered n rows h.1

take-IsOrdered : (n : ℕ) (rows : List Task) → IsOrdered rows → IsOrdered (take n rows)
take-IsOrdered zero rows h = tt
take-IsOrdered (suc n) [] h = h
take-IsOrdered (suc n) (t ∷ rows) h = (λ u m. h.0 u (take_part n rows m), take-IsOrdered n rows h.1)

length-take_le : (n : ℕ) (rows : List Task) → length (take n rows) ≤ n
length-take_le zero rows = omega arith
length-take_le (suc n) [] = omega arith
length-take_le (suc n) (t ∷ rows) = omega (arith, length-take_le n rows)

-- Every page is in the order of the queue and within its limit: no row stands before one of a higher
-- priority, nor before an older one of its own priority, and there are at most `limit` rows.
pub find_for_org-IsQueue :
    (month_start : ℕ) (db : Db) (org_id : ℕ) (f : ListTasksFilter) (restrict : Option ℕ)
    → IsQueue (find_for_org month_start db org_id f restrict).rows
      × (length (find_for_org month_start db org_id f restrict).rows ≤ f.limit)
unfolding find_for_org
find_for_org-IsQueue month_start db org_id f restrict =
    let found = filter (matches month_start db org_id f restrict) db.tasks in
    (
      IsOrdered-IsQueue _ (
          take-IsOrdered f.limit (drop f.skip (order found))
            (drop-IsOrdered f.skip (order found) (order-IsOrdered found))),
      length-take_le f.limit (drop f.skip (order found)),
    )
