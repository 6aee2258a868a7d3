-- ===== src/Result.antt =====
-- What a handler throws or returns, and the checks that it makes before it writes.
pub mod Steps
use specbook.Base.{Bool, true, false, Option, none, some}

-- The keys of `k.tasks.errors` and `k.invitations.errors` that the handlers throw. `github_error` is what a call of GitHub
-- throws, `queue_error` what putting a job on a queue throws, `no_values_to_set` what drizzle's `set` throws
-- for a patch without a column, `database_error` what a statement that fails throws, and `out_of_fuel` is thrown by no run of the source.
pub data Error : Type 0 where
  not_found project_not_found project_archived_readonly : Error
  assignee_not_member assignee_not_project_member : Error
  terminal_task not_editable criterion_not_found only_draft_deletable : Error
  invalid_transition dispatch_gate review_gate unacked_notes human_review_gate : Error
  question_required feedback_required already_claimed status_conflict : Error
  merge_not_approved merge_ci_failing merge_no_pr merge_conflict sync_no_pr : Error
  github_not_connected project_not_bound github_error queue_error : Error
  cost_not_claimant assumption_not_claimant : Error
  note_human_only note_not_in_progress notes_not_claimant : Error
  already_member invitation_not_found invitation_revoked already_accepted : Error
  invitation_expired account_exists email_mismatch unauthorized : Error
  dependency_not_found dependency_same_project dependency_cycle out_of_fuel : Error
  no_values_to_set database_error : Error

pub data Result (A : Type 0) : Type 0 where
  ok : A → Result A
  err : Error → Result A

infixl 5 ◌>>=◌ ◌>>◌
abbrev pub ◌>>=◌ : {A B : Type 0} → Result A → (A → Result B) → Result B
ok a >>= f = f a
err e >>= f = err e

abbrev pub ◌>>◌ : {B : Type 0} → Result (Unit {0}) → Result B → Result B
m >> k = m >>= λ _. k

-- `if (b) throw e`
abbrev pub fail_if : Bool → Error → Result (Unit {0})
fail_if true e = err e
fail_if false e = ok tt

-- `if (!a) throw e`
abbrev pub or_fail : {A : Type 0} → Error → Option A → Result A
or_fail e none = err e
or_fail e (some a) = ok a
