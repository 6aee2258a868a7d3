-- ===== src/Invitations/Rules.antt =====
-- The invitation service keeps a property of the tables if its statements do.
use specbook.Base.{ℕ, String, ◌≡◌, refl, Bool, false, Option, none, some, Bool-cases, inl, inr}
use specbook.Rows.{ActiveUser, OrganizationUser, Notification}
use specbook.Rows.Accounts.{User, Invitation, InvitationStatus, pending}
use specbook.Action.{Db}
use specbook.Action.Keeps.{
  Keeps, Keeps-pure, Keeps-gets, Keeps-check, Keeps-or_raise, Keeps-bind, Keeps-then,
  Keeps-raise_if,
}
use specbook.TaskRepository.{create_notification}
use specbook.Invitations.{
  same_invitation_status, settle, revoke, consume_pending, create_user_with_org_membership,
  add_org_membership,
}
use specbook.Invitations.Service.{
  Portal, revoke_invitation, create_account, accept_as_new_user, join, take_up, accept_as_member,
  notify_invited,
}

pub record InvitationRules (P : Db → Type 0) : Type 0 where
  pub settle_rows :
      (status : InvitationStatus) (p : Invitation → Bool)
      → same_invitation_status status pending ≡ false
      → Keeps P (settle status p)
  pub add_account :
      (u : User) (m : OrganizationUser) → Keeps P (create_user_with_org_membership u m)
  pub add_member : (m : OrganizationUser) → Keeps P (add_org_membership m)
  pub add_notice : (n : Notification) → Keeps P (create_notification n)

module _ (P : Db → Type 0) (rules : InvitationRules P) where
  pub consume_pending-Keeps : (id : ℕ) → Keeps P (consume_pending id)
  unfolding consume_pending
  consume_pending-Keeps id = rules.settle_rows _ _ refl

  pub notify_invited-Keeps :
      (portal : Portal) (u : ActiveUser) (new_id : ℕ) (token : String) (account : Option User)
      → Keeps P (notify_invited portal u new_id token account)
  unfolding notify_invited
  notify_invited-Keeps portal u new_id token none = Keeps-pure P tt
  notify_invited-Keeps portal u new_id token (some account) = rules.add_notice _

  pub revoke_invitation-Keeps : (u : ActiveUser) (id : ℕ) → Keeps P (revoke_invitation u id)
  unfolding revoke_invitation revoke
  revoke_invitation-Keeps u id =
      Keeps-bind P _ _ (rules.settle_rows _ _ refl) (λ found. Keeps-raise_if P _ _)

  pub create_account-Keeps :
      (portal : Portal) (new_id : ℕ) (i : Invitation) (name password : String)
      → Keeps P (create_account portal new_id i name password)
  unfolding create_account
  create_account-Keeps portal new_id i name password =
      Keeps-bind P _ _ (consume_pending-Keeps i.id) λ won.
        Keeps-then P _ _ (Keeps-raise_if P _ _)
          (Keeps-then P _ _ (rules.add_account _ _) (Keeps-check P _))

  pub accept_as_new_user-Keeps :
      (portal : Portal) (new_id : ℕ) (token name password : String)
      → Keeps P (accept_as_new_user portal new_id token name password)
  unfolding accept_as_new_user
  accept_as_new_user-Keeps portal new_id token name password =
      Keeps-bind P _ _ (Keeps-check P _) λ i. Keeps-bind P _ _ (Keeps-gets P _) λ taken.
        Keeps-then P _ _ (Keeps-raise_if P _ _) (create_account-Keeps portal new_id i name password)

  pub join-Keeps : (portal : Portal) (u : ActiveUser) (i : Invitation) → Keeps P (join portal u i)
  unfolding join
  join-Keeps portal u i = Keeps-bind P _ _ (Keeps-check P _) λ redeemable.
      Keeps-bind P _ _ (consume_pending-Keeps i.id)
        λ won. Keeps-then P _ _ (Keeps-raise_if P _ _) (rules.add_member _)

  pub take_up-Keeps :
      (portal : Portal) (u : ActiveUser) (i : Invitation) → Keeps P (take_up portal u i)
  unfolding take_up
  take_up-Keeps portal u i = Keeps-bind P _ _ (Keeps-gets P _) λ belongs.
      elim (Bool-cases belongs) [
        | inl already ↦
            rw already (Keeps-bind P _ _ (consume_pending-Keeps i.id) (λ won. Keeps-pure P tt))
        | inr outside ↦ rw outside (join-Keeps portal u i)
      ]

  pub accept_as_member-Keeps :
      (portal : Portal) (u : ActiveUser) (token : String)
      → Keeps P (accept_as_member portal u token)
  unfolding accept_as_member
  accept_as_member-Keeps portal u token = Keeps-bind P _ _ (Keeps-gets P _) λ found.
      Keeps-bind P _ _ (Keeps-or_raise P _ _) λ i. Keeps-bind P _ _ (Keeps-gets P _) λ account.
        Keeps-bind P _ _ (Keeps-or_raise P _ _)
          λ person. Keeps-then P _ _ (Keeps-raise_if P _ _) (take_up-Keeps portal u i)
