-- ===== src/Examples/Invites.antt =====
-- Invitations on the tables of Examples.antt, and the properties that they exercise.
use specbook.Base.{ℕ, String, ◌≡◌, refl, sym, ◌∙◌, [], ◌∷◌}
use mathlib.Core.List.Memᴰ
use specbook.Rows.{ActiveUser, OrgRole}
use specbook.Rows.Accounts.{Invitation, pending}
use specbook.Result.{ok}
use specbook.Action.{Db}
use specbook.Invitations.Service.{Portal, accept_as_new_user, accept_as_member}
use specbook.Invitations.Operations.{Operation, perform, idle, asked}
use specbook.Invitations.Sound.{IsSound}
use specbook.Invitations.Runs.{InvitationRun-IsSound}
use specbook.Invitations.Redeemed.{Acceptance, by_new_user, accept, redeemed_once}
use specbook.Examples.{world, by_owner}

-- The hash of a token is the token here.
abbrev portal : Portal
portal = record {
  now = 10;
  web_app_url = "https://app.example/";
  hash_token = λ token. token;
  to_lower_case = λ text. text;
  hash_password = λ password. password;
  issue_tokens = λ user org role. ok tt;
}

abbrev invited : Invitation
invited = record {
  id = 1;
  org_id = 1;
  email = "new@example.com";
  role = OrgRole.member;
  token_hash = "inv_1";
  status = pending;
  expires_at = 1000;
  invited_by = 5;
  created_at = 1;
}

abbrev with_invitation : Db
with_invitation = record world { invitations = invited ∷ [] }

with_invitation-IsSound : IsSound with_invitation
with_invitation-IsSound = record {
  unique_hash = λ a b ma mb same. Memᴰ.eq_of_singleton ma ∙ sym (Memᴰ.eq_of_singleton mb);
  one_live = λ a b ma mb la lb org email. Memᴰ.eq_of_singleton ma ∙ sym (Memᴰ.eq_of_singleton mb);
}

abbrev revoked_by_owner : Operation
revoked_by_owner = Operation.revoke by_owner.active_user 1

InvitationRun-IsSound_example : IsSound (perform revoked_by_owner with_invitation)
InvitationRun-IsSound_example =
    InvitationRun-IsSound (asked idle revoked_by_owner tt) with_invitation-IsSound

abbrev newcomer : Acceptance
newcomer = by_new_user 9 "New" "secret"

signs_up : (accept portal "inv_1" newcomer with_invitation).0 ≡ ok tt
unfolding accept_as_new_user specbook.Action.◌>>=◌ specbook.Action.check
    specbook.Invitations.find_by_token_hash specbook.Invitations.Service.effective_status
    specbook.Action.gets specbook.Action.◌>>◌ specbook.Action.raise_if
    specbook.Invitations.find_user_by_email specbook.Invitations.consume_pending
    specbook.Invitations.create_user_with_org_membership
signs_up = refl

redeemed_once_example :
    ((new_id : ℕ) (name password : String)
      → (accept_as_new_user portal new_id "inv_1" name password
          (accept portal "inv_1" newcomer with_invitation).1).1
        ≡ (accept portal "inv_1" newcomer with_invitation).1)
    × ((u : ActiveUser)
        → (accept_as_member portal u "inv_1"
            (accept portal "inv_1" newcomer with_invitation).1).1.organization_users
          ≡ (accept portal "inv_1" newcomer with_invitation).1.organization_users)
redeemed_once_example =
    redeemed_once portal portal "inv_1" "inv_1" newcomer with_invitation
      (accept portal "inv_1" newcomer with_invitation).1 with_invitation-IsSound signs_up idle refl
