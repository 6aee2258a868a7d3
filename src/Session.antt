-- ===== src/Session.antt =====
-- What a request of the api carries besides its payload.
use specbook.Base.{ℕ, Bool}
use specbook.Rows.{ActiveUser}
use specbook.Github.{Github}

-- The statements that `transition` makes after its swap outside every `try`, by the task they are of:
-- a comment, the read of its dependents, and their detachment. The database may fail at each of them,
-- and the swap stays written, since there is no transaction.
pub data LateStatement : Type 0 where
  comments_on reads_dependents detaches : ℕ → LateStatement

pub record Session : Type 0 where
  pub active_user : ActiveUser
  -- `new Date()`
  pub now : ℕ
  pub github_app : Github
  pub fails : LateStatement → Bool
