-- ===== src/Invitations/Service.antt =====
-- apps/api/src/invitations/invitation.service.ts.
use Prim.Native.Char.{code}
use specbook.Base.{
  ℕ, String, ◌+◌, ◌*◌, Bool, false, Option, none, some, [], ◌∷◌, is_some, is_text, is_empty, ltb,
  concat, trim, not, ◌==◌, ◌&&◌, if◌then◌else◌,
}
use specbook.Rows.{ActiveUser, OrgRole, Notification, info, invitation, OrganizationUser}
use specbook.Rows.Accounts.{User, Invitation, InvitationStatus, pending, accepted, revoked, expired}
use specbook.Result.{
  Result, ok, err, already_member, invitation_not_found, invitation_revoked, already_accepted,
  invitation_expired, account_exists, email_mismatch, unauthorized,
}
use specbook.Action.{Db, Action, pure, gets, check, or_raise, raise_if, ◌>>=◌, ◌>>◌}
use specbook.TaskRepository.{create_notification}
use specbook.Invitations.{
  is_pending, insert_invitation, supersede_pending_for, find_by_token_hash, revoke, consume_pending,
  find_user_by_email, find_account_by_id, is_member_of, create_user_with_org_membership,
  add_org_membership,
}

-- What the service has besides a request: the time, the setting WEB_APP_URL, and the functions of
-- other libraries. The session tokens that `issue_tokens` makes are no part of the tables.
pub record Portal : Type 0 where
  pub now : ℕ
  pub web_app_url : String
  pub hash_token : String → String
  pub to_lower_case : String → String
  pub hash_password : String → String
  pub issue_tokens : ℕ → ℕ → OrgRole → Result (Unit {0})

-- normalizeEmail
unfoldable pub normalize_email : Portal → String → String
normalize_email portal email = portal.to_lower_case (trim email)

-- `base.replace(/\/$/, '')`
unfoldable pub without_end_slash : String → String
without_end_slash String.[] = ""
without_end_slash (String.◌∷◌ c s) =
    let rest = without_end_slash s in if is_empty s && code c == b'/' then "" else String.◌∷◌ c rest

-- `acceptUrl`
unfoldable pub accept_url : Portal → String → String
unfolding without_end_slash
accept_url portal token = concat (without_end_slash portal.web_app_url ∷ "/invite/" ∷ token ∷ [])

-- INVITATION_EXPIRY_DAYS
abbrev pub invitation_expiry_days : ℕ
invitation_expiry_days = 7

abbrev pub new_invitation : Portal → ActiveUser → ℕ → String → OrgRole → String → Invitation
new_invitation portal u new_id email role raw_token = record {
  id = new_id;
  org_id = u.org_id;
  email = email;
  role = role;
  token_hash = portal.hash_token raw_token;
  status = pending;
  expires_at = portal.now + invitation_expiry_days * 24 * 60 * 60 * 1000;
  invited_by = u.user_id;
  created_at = portal.now;
}

abbrev invitation_notice : Portal → ActiveUser → ℕ → String → ℕ → Notification
invitation_notice portal u new_id raw_token user_id = record {
  user_id = user_id;
  org_id = u.org_id;
  type = info;
  title = "invitations.notice.title";
  message = some "invitations.notice.message";
  payload = invitation new_id (accept_url portal raw_token);
}

abbrev pub belongs : Db → ℕ → Option User → Bool
belongs db org_id none = false
belongs db org_id (some account) = is_member_of db account.id org_id

-- The notice to a recipient who has an account.
unfoldable pub notify_invited : Portal → ActiveUser → ℕ → String → Option User → Action (Unit {0})
notify_invited portal u new_id raw_token none = pure tt
notify_invited portal u new_id raw_token (some account) =
    create_notification (invitation_notice portal u new_id raw_token account.id)

-- InvitationService.create: the number is the identifier that the database makes, and the last text
-- the random token.
unfoldable pub invite : Portal → ActiveUser → ℕ → String → OrgRole → String → Action Invitation
unfolding notify_invited normalize_email
invite portal u new_id address role raw_token = do
  let email = normalize_email portal address
  account ← gets (λ db. find_user_by_email db email)
  refused ← gets (λ db. belongs db u.org_id account)
  raise_if refused already_member
  supersede_pending_for u.org_id email
  insert_invitation (new_invitation portal u new_id email role raw_token)
  notify_invited portal u new_id raw_token account
  pure (new_invitation portal u new_id email role raw_token)

-- InvitationService.revoke
unfoldable pub revoke_invitation : ActiveUser → ℕ → Action (Unit {0})
revoke_invitation u id = do found ← revoke id u.org_id; raise_if (not found) invitation_not_found

-- `effectiveStatus`
unfoldable pub effective_status : ℕ → Invitation → InvitationStatus
effective_status now i = if is_pending i && ltb i.expires_at now then expired else i.status

abbrev pub verdict : Invitation → InvitationStatus → Result Invitation
verdict i pending = ok i
verdict i accepted = err already_accepted
verdict i revoked = err invitation_revoked
verdict i expired = err invitation_expired

-- `assertRedeemable`, which gives the invitation.
unfoldable pub assert_redeemable : ℕ → Option Invitation → Result Invitation
assert_redeemable now none = err invitation_not_found
assert_redeemable now (some i) = verdict i (effective_status now i)

-- What the invited person is made.
abbrev pub membership_of : Invitation → ℕ → OrganizationUser
membership_of i user_id = record { org_id = i.org_id; user_id = user_id; role = i.role }

-- `acceptAsNewUser` from the single-use gate on.
unfoldable pub create_account : Portal → ℕ → Invitation → String → String → Action (Unit {0})
create_account portal new_id i name password = do
  won ← consume_pending i.id
  raise_if (not won) already_accepted
  create_user_with_org_membership
      (record {
        id = new_id;
        email = i.email;
        name = name;
        password_hash = portal.hash_password password;
      })
      (membership_of i new_id)
  check (λ db. portal.issue_tokens new_id i.org_id i.role)

-- acceptAsNewUser
unfoldable pub accept_as_new_user : Portal → ℕ → String → String → String → Action (Unit {0})
unfolding assert_redeemable create_account
accept_as_new_user portal new_id token name password = do
  i ← check (λ db. assert_redeemable portal.now (find_by_token_hash db (portal.hash_token token)))
  taken ← gets (λ db. is_some (find_user_by_email db i.email))
  raise_if taken account_exists
  create_account portal new_id i name password

-- `acceptAsMember` for a session that is no member yet.
unfoldable pub join : Portal → ActiveUser → Invitation → Action (Unit {0})
join portal u i = do
  _ ← check (λ db. assert_redeemable portal.now (some i))
  won ← consume_pending i.id
  raise_if (not won) already_accepted
  add_org_membership (membership_of i u.user_id)

-- `acceptAsMember` once the invitation is found and its address is the session's.
unfoldable pub take_up : Portal → ActiveUser → Invitation → Action (Unit {0})
unfolding join
take_up portal u i = do
  belongs_already ← gets (λ db. is_member_of db u.user_id i.org_id)
  if belongs_already then (do _ ← consume_pending i.id; pure tt) else join portal u i

-- acceptAsMember
unfoldable pub accept_as_member : Portal → ActiveUser → String → Action (Unit {0})
unfolding normalize_email take_up
accept_as_member portal u token = do
  found ← gets (λ db. find_by_token_hash db (portal.hash_token token))
  i ← or_raise invitation_not_found found
  account ← gets (λ db. find_account_by_id db u.user_id)
  person ← or_raise unauthorized account
  raise_if
      (not (is_text (some (normalize_email portal person.email)) (normalize_email portal i.email)))
      email_mismatch
  take_up portal u i
