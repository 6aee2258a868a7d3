-- ===== src/Protocol/Equality.antt =====
-- Equality of the protocol's values, `===` of the source on their names.
use specbook.Base.{Bool, true, false, ◌≡◌, ◌↔◌, List, any, Option, none, some, arith}
use specbook.Rows.{
  Status, draft, ready, in_progress, blocked, needs_review, approved, changes_requested, done,
  cancelled, Mode, manual, auto_merge, auto, autonomous, PrState, open_, merged, closed, CiState,
  pending, passing, failing, CiFailureKind, retryable, setup, external,
}

abbrev pub same_status : Status → Status → Bool
same_status draft draft = true
same_status ready ready = true
same_status in_progress in_progress = true
same_status blocked blocked = true
same_status needs_review needs_review = true
same_status approved approved = true
same_status changes_requested changes_requested = true
same_status done done = true
same_status cancelled cancelled = true
same_status _ _ = false

abbrev pub same_mode : Mode → Mode → Bool
same_mode manual manual = true
same_mode auto_merge auto_merge = true
same_mode auto auto = true
same_mode autonomous autonomous = true
same_mode _ _ = false

abbrev pub same_pr_state : PrState → PrState → Bool
same_pr_state open_ open_ = true
same_pr_state merged merged = true
same_pr_state closed closed = true
same_pr_state _ _ = false

abbrev pub same_ci_state : CiState → CiState → Bool
same_ci_state pending pending = true
same_ci_state passing passing = true
same_ci_state failing failing = true
same_ci_state _ _ = false

abbrev pub same_kind : CiFailureKind → CiFailureKind → Bool
same_kind retryable retryable = true
same_kind setup setup = true
same_kind external external = true
same_kind _ _ = false

-- `list.includes(s)`
abbrev pub includes : Status → List Status → Bool
includes s = any (same_status s)

-- Equality of a nullable column with a value.
abbrev pub is_pr_state : Option PrState → PrState → Bool
is_pr_state none t = false
is_pr_state (some s) t = same_pr_state s t

abbrev pub is_ci_state : Option CiState → CiState → Bool
is_ci_state none t = false
is_ci_state (some s) t = same_ci_state s t

abbrev pub is_kind : Option CiFailureKind → CiFailureKind → Bool
is_kind none t = false
is_kind (some s) t = same_kind s t

pub same_status_iff : (s t : Status) → (same_status s t ≡ true) ↔ (s ≡ t)
same_status_iff s t = ground arith
