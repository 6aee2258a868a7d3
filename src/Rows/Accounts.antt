-- ===== src/Rows/Accounts.antt =====
-- The rows of invitations and accounts (packages/database/src/schema/invitation.ts and user.ts).
use specbook.Base.{ℕ, String}
use specbook.Rows.{OrgRole}

-- INVITATION_STATUSES
pub data InvitationStatus : Type 0 where
  pending accepted revoked expired : InvitationStatus

-- A row of invitation. The token itself is stored nowhere.
pub record Invitation : Type 0 where
  pub id : ℕ
  pub org_id : ℕ
  pub email : String
  pub role : OrgRole
  pub token_hash : String
  pub status : InvitationStatus
  pub expires_at : ℕ
  pub invited_by : ℕ
  pub created_at : ℕ

-- A row of user, the account of all its organizations.
pub record User : Type 0 where
  pub id : ℕ
  pub email : String
  pub name : String
  pub password_hash : String
