-- ===== src/TaskService/Cycle.antt =====
-- `wouldCycle` of apps/api/src/tasks/task.service.ts. The stack is the array `queue` read from its
-- end, where `pop` takes and `push` puts. The loop takes fuel: `none` says that it ran out.
pub mod Reach
pub mod Walk
pub mod Acyclic
use specbook.Base.{
  ℕ, zero, suc, Bool, true, false, Option, none, some, List, [], ◌∷◌, ◌++◌, map, filter, elem,
  length, ◌==◌, if◌then◌else◌,
}
use specbook.Rows.{Dependency}

-- `adjacency.get(node) ?? []`: what the node depends on, in the order of the edges.
abbrev pub prerequisites : List Dependency → ℕ → List ℕ
prerequisites edges node = map (λ e. e.depends_on_task_id) (filter (λ e. e.task_id == node) edges)

-- `queue.push(...list)`: the last one pushed lies on top.
abbrev pub push_all : List ℕ → List ℕ → List ℕ
push_all [] stack = stack
push_all (node ∷ rest) stack = push_all rest (node ∷ stack)

unfoldable pub search_loop : List Dependency → ℕ → ℕ → List ℕ → List ℕ → Option Bool
search_loop edges task_id zero stack seen = none
search_loop edges task_id (suc fuel) [] seen = some false
search_loop edges task_id (suc fuel) (node ∷ stack) seen =
    let skip = search_loop edges task_id fuel stack seen in
    let visit =
      search_loop edges task_id fuel (push_all (prerequisites edges node) stack) (node ∷ seen) in
    if node == task_id then some true else if elem node seen then skip else visit

-- Each edge is pushed once at most, and each round pops one entry.
unfoldable pub would_cycle : List Dependency → ℕ → ℕ → Option Bool
unfolding search_loop
would_cycle edges task_id depends_on_task_id =
    search_loop edges task_id (suc (suc (length edges))) (depends_on_task_id ∷ []) []
