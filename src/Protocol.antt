-- ===== src/Protocol.antt =====
-- packages/contracts/src/constants/task.ts: the status protocol and the automation modes.
-- A transition map is its list of entries; it is read as `map[from] ?? []`.
mod Equality
pub mod Moves
pub use Equality.*
use specbook.Base.{
  ℕ, Bool, true, false, List, [], ◌∷◌, ◌++◌, map, any, filter, not, ◌&&◌, ◌||◌, if◌then◌else◌,
}
use specbook.Rows.{
  Status, draft, ready, in_progress, blocked, needs_review, approved, changes_requested, done,
  cancelled, Mode, manual, auto_merge, auto, autonomous,
}

-- `Partial<Record<Status, Status[]>>`, by its entries.
abbrev pub TransitionMap : Type 0
TransitionMap = List (Status × List Status)

-- `map[from] ?? []`
unfoldable pub moves_from : Status → TransitionMap → List Status
moves_from from [] = []
moves_from from ((key, moves) ∷ rest) = if same_status key from then moves else moves_from from rest

-- `Object.keys(map)`
abbrev pub keys : TransitionMap → List Status
keys [] = []
keys ((key, moves) ∷ rest) = key ∷ keys rest

-- AGENT_TASK_TRANSITIONS
unfoldable pub agent_task_map : TransitionMap
agent_task_map =
    (ready, in_progress ∷ [])
    ∷ (in_progress, blocked ∷ needs_review ∷ [])
    ∷ (blocked, in_progress ∷ [])
    ∷ (changes_requested, in_progress ∷ [])
    ∷ (cancelled, done ∷ [])
    ∷ []

unfoldable pub agent_task_transitions : Status → List Status
unfolding moves_from agent_task_map
agent_task_transitions from = moves_from from agent_task_map

-- HUMAN_TASK_TRANSITIONS
unfoldable pub human_task_map : TransitionMap
human_task_map =
    (draft, ready ∷ done ∷ cancelled ∷ [])
    ∷ (ready, draft ∷ cancelled ∷ [])
    ∷ (in_progress, ready ∷ cancelled ∷ [])
    ∷ (blocked, ready ∷ in_progress ∷ cancelled ∷ [])
    ∷ (needs_review, approved ∷ done ∷ changes_requested ∷ cancelled ∷ [])
    ∷ (approved, done ∷ needs_review ∷ changes_requested ∷ cancelled ∷ [])
    ∷ (changes_requested, ready ∷ cancelled ∷ [])
    ∷ (done, changes_requested ∷ [])
    ∷ (cancelled, done ∷ [])
    ∷ []

unfoldable pub human_task_transitions : Status → List Status
unfolding moves_from human_task_map
human_task_transitions from = moves_from from human_task_map

-- ASSIGNEE_TASK_TRANSITIONS
unfoldable pub assignee_task_map : TransitionMap
assignee_task_map =
    (ready, in_progress ∷ [])
    ∷ (in_progress, blocked ∷ needs_review ∷ [])
    ∷ (blocked, in_progress ∷ [])
    ∷ (changes_requested, in_progress ∷ [])
    ∷ []

unfoldable pub assignee_task_transitions : Status → List Status
unfolding moves_from assignee_task_map
assignee_task_transitions from = moves_from from assignee_task_map

-- `[...new Set(list)]`: the first occurrence of each value stays.
distinct : List Status → List Status
distinct [] = []
distinct (s ∷ rest) = s ∷ filter (λ t. not (same_status s t)) (distinct rest)

-- AUTONOMOUS_TASK_TRANSITIONS: an entry for each key of either map.
unfoldable pub autonomous_task_map : TransitionMap
unfolding distinct agent_task_map human_task_map moves_from
autonomous_task_map =
    map
      (λ from. (from, distinct (moves_from from agent_task_map ++ moves_from from human_task_map)))
      (distinct (keys agent_task_map ++ keys human_task_map))

unfoldable pub autonomous_task_transitions : Status → List Status
unfolding moves_from autonomous_task_map
autonomous_task_transitions from = moves_from from autonomous_task_map

-- TERMINAL_TASK_STATUSES, and `isTerminal` of task.service.ts.
unfoldable pub terminal_task_statuses : List Status
terminal_task_statuses = done ∷ cancelled ∷ []

unfoldable pub is_terminal : Status → Bool
unfolding terminal_task_statuses
is_terminal s = includes s terminal_task_statuses

-- DEPENDENCY_SATISFYING_STATUSES
unfoldable pub dependency_satisfying_statuses : List Status
dependency_satisfying_statuses = done ∷ []

-- MERGE_DEBT_CAP
unfoldable pub merge_debt_cap : ℕ
merge_debt_cap = 3

-- AUTO_MERGE_MODES and grantsAutoMerge
unfoldable pub grants_auto_merge : Mode → Bool
grants_auto_merge m = any (same_mode m) (auto_merge ∷ auto ∷ autonomous ∷ [])

-- AUTO_APPROVE_MODES and grantsAutoApprove
unfoldable pub grants_auto_approve : Mode → Bool
grants_auto_approve m = any (same_mode m) (auto ∷ autonomous ∷ [])

-- AGENT_DISPATCH_MODES and grantsAgentDispatch
unfoldable pub grants_agent_dispatch : Mode → Bool
grants_agent_dispatch m = any (same_mode m) (autonomous ∷ [])
