-- ===== src/Invitations.antt =====
-- apps/api/src/invitations: invitation.repository.ts, invitation.service.ts, and the statements of
-- apps/api/src/user/user.repository.ts that they use.
pub mod Service
pub mod Rules
pub mod Operations
pub mod Sound
pub mod Runs
pub mod Verdict
pub mod Spent
pub mod Redeemed
use specbook.Base.{
  ℕ, String, Bool, true, false, Option, List, [], ◌∷◌, ◌++◌, any, filter, find?, set_where, is_text,
  some, not, ◌==◌, ◌&&◌, if◌then◌else◌,
}
use specbook.Rows.{OrganizationUser}
use specbook.Rows.Accounts.{User, Invitation, InvitationStatus, pending, accepted, revoked, expired}
use specbook.Result.{ok}
use specbook.Action.{Db, Action, modify, ◌>>◌}

abbrev pub same_invitation_status : InvitationStatus → InvitationStatus → Bool
same_invitation_status pending pending = true
same_invitation_status accepted accepted = true
same_invitation_status revoked revoked = true
same_invitation_status expired expired = true
same_invitation_status _ _ = false

abbrev pub is_pending : Invitation → Bool
is_pending i = same_invitation_status i.status pending

-- InvitationRepository.create
unfoldable pub insert_invitation : Invitation → Action (Unit {0})
unfolding modify
insert_invitation i = modify λ db. record db { invitations = db.invitations ++ i ∷ [] }

unfoldable pub with_status : InvitationStatus → Invitation → Invitation
with_status status i = record i { status = status }

abbrev pub is_pending_for : ℕ → String → Invitation → Bool
is_pending_for org_id email i = i.org_id == org_id && is_text (some i.email) email && is_pending i

-- InvitationRepository.supersedePendingFor
unfoldable pub supersede_pending_for : ℕ → String → Action (Unit {0})
unfolding modify with_status
supersede_pending_for org_id email = modify λ db. record db {
  invitations = set_where (is_pending_for org_id email) (with_status revoked) db.invitations;
}

-- InvitationRepository.findByTokenHash, joined to the organization.
unfoldable pub find_by_token_hash : Db → String → Option Invitation
find_by_token_hash db token_hash =
    find?
      (λ i. any (λ o. o.id == i.org_id) db.organizations && is_text (some i.token_hash) token_hash)
      db.invitations

-- `UPDATE invitation SET status WHERE p AND status = 'pending' RETURNING *`
unfoldable pub settle : InvitationStatus → (Invitation → Bool) → Action Bool
unfolding with_status
settle status p db =
    let hit = λ (i : Invitation). p i && is_pending i in
    (
      ok (any hit db.invitations),
      record db { invitations = set_where hit (with_status status) db.invitations },
    )

-- InvitationRepository.revoke
unfoldable pub revoke : ℕ → ℕ → Action Bool
unfolding settle
revoke id org_id = settle revoked (λ i. i.id == id && i.org_id == org_id)

-- InvitationRepository.consumePending
unfoldable pub consume_pending : ℕ → Action Bool
unfolding settle
consume_pending id = settle accepted (λ i. i.id == id)

-- UserRepository.findUserByEmail
unfoldable pub find_user_by_email : Db → String → Option User
find_user_by_email db email = find? (λ u. is_text (some u.email) email) db.users

-- UserRepository.findAccountById
unfoldable pub find_account_by_id : Db → ℕ → Option User
find_account_by_id db user_id = find? (λ u. u.id == user_id) db.users

abbrev pub is_membership : ℕ → ℕ → OrganizationUser → Bool
is_membership user_id org_id m = m.user_id == user_id && m.org_id == org_id

-- UserRepository.isMember
unfoldable pub is_member_of : Db → ℕ → ℕ → Bool
is_member_of db user_id org_id = any (is_membership user_id org_id) db.organization_users

-- UserRepository.createUserWithOrgMembership
unfoldable pub create_user_with_org_membership : User → OrganizationUser → Action (Unit {0})
unfolding modify
create_user_with_org_membership u m = modify λ db. record db {
  users = db.users ++ u ∷ [];
  organization_users = db.organization_users ++ m ∷ [];
}

-- UserRepository.addOrgMembership: `onConflictDoNothing` on the primary key.
unfoldable pub add_org_membership : OrganizationUser → Action (Unit {0})
unfolding modify
add_org_membership m = modify λ db.
    if any (is_membership m.user_id m.org_id) db.organization_users
    then db
    else record db { organization_users = db.organization_users ++ m ∷ [] }
