-- ===== src/Invitations/Sound.antt =====
-- What holds of the invitations whatever is asked of the service: a recipient has one live link.
use specbook.Base.{
  ℕ, String, ◌≡◌, refl, sym, ap, ◌∙◌, ◌⊎◌, inl, inr, ⊎_elim, Bool, true, false, List, [], ◌∷◌, ◌++◌,
  any, set_where, Memᴰ, Memᴰ-set_where, Memᴰ-append, Bool-cases, if◌then◌else◌, arith,
}
use mathlib.Core.List.Memᴰ
use mathlib.Core.Path.{subst}
use text.Mathlib.TextEquality.{eq_iff}
use specbook.Rows.{ActiveUser, OrgRole, OrganizationUser}
use specbook.Rows.Accounts.{Invitation, InvitationStatus, pending, revoked}
use specbook.Action.{Db, ◌>>=◌, ◌>>◌, gets, resume, modify, raise_if}
use specbook.Action.Keeps.{Keeps-modify, Keeps-then, Keeps-pure}
use specbook.TaskRepository.{create_notification}
use specbook.Invitations.{
  same_invitation_status, is_pending, with_status, settle, is_pending_for, is_membership,
  insert_invitation, supersede_pending_for, create_user_with_org_membership, add_org_membership,
  find_user_by_email,
}
use specbook.Invitations.Service.{Portal, new_invitation, normalize_email, invite, belongs}
use specbook.Invitations.Operations.{NewToken}
use specbook.Invitations.Rules.{InvitationRules, notify_invited-Keeps}

pub record IsSound (db : Db) : Type 0 where
  -- The unique index on `token_hash`.
  pub unique_hash :
      (a b : Invitation)
      → Memᴰ a db.invitations
      → Memᴰ b db.invitations
      → a.token_hash ≡ b.token_hash
      → a ≡ b
  -- Of the invitations of one address to one organization, one at most is pending.
  pub one_live :
      (a b : Invitation)
      → Memᴰ a db.invitations
      → Memᴰ b db.invitations
      → is_pending a ≡ true
      → is_pending b ≡ true
      → a.org_id ≡ b.org_id
      → a.email ≡ b.email
      → a ≡ b

-- The rows after an update that ends pending invitations.
module _ (status : InvitationStatus) (ends : same_invitation_status status pending ≡ false)
    (p : Invitation → Bool) (rows : List Invitation) where
  abbrev pub settled_rows : List Invitation
  settled_rows = set_where p (with_status status) rows

  pub settled_hash :
      (a : Invitation)
      → Memᴰ a settled_rows
      → (x : Invitation) × Memᴰ x rows
        × (a ≡ (if p x then with_status status x else x))
        × (a.token_hash ≡ x.token_hash)
  unfolding with_status
  settled_hash a m =
      let (x, there, e) = Memᴰ-set_where p (with_status status) a rows m in
      (x, there, e, ap (λ (i : Invitation). i.token_hash) e ∙ ground arith)

  -- One that is pending afterwards was not touched.
  pub pending_before :
      (a : Invitation) → Memᴰ a settled_rows → is_pending a ≡ true → Memᴰ a rows × (p a ≡ false)
  unfolding with_status
  pending_before a m live =
      let (x, there, e) = Memᴰ-set_where p (with_status status) a rows m in
      elim (Bool-cases (p x)) [
        | inl hit ↦
            let a_is : a ≡ with_status status x = e ∙ rw hit refl in
            absurd (true_not_false (sym live ∙ ap is_pending a_is ∙ ends))
        | inr miss ↦
            let a_is : a ≡ x = e ∙ rw miss refl in
            (subst (λ i. Memᴰ i rows) (sym a_is) there, ap p a_is ∙ miss)
      ]
    where
      true_not_false : ¬ (true ≡ false)
      true_not_false h = cc

settled-IsSound :
    (status : InvitationStatus) (p : Invitation → Bool) (db : Db)
    → same_invitation_status status pending ≡ false
    → IsSound db
    → IsSound (record db { invitations = set_where p (with_status status) db.invitations })
settled-IsSound status p db ends h = record {
  unique_hash = λ a b ma mb same.
      let (x, mx, ex, hx) = settled_hash status ends p db.invitations a ma in
      let (y, my, ey, hy) = settled_hash status ends p db.invitations b mb in
      let e = h.unique_hash x y mx my (sym hx ∙ same ∙ hy) in
      ex ∙ ap (λ i. if p i then with_status status i else i) e ∙ sym ey;
  one_live = λ a b ma mb la lb.
      h.one_live a b (pending_before status ends p db.invitations a ma la).0
        (pending_before status ends p db.invitations b mb lb).0 la lb;
}

-- Fields of the tables other than the invitations.
same_invitations : (db new : Db) → new.invitations ≡ db.invitations → IsSound db → IsSound new
same_invitations db new same h = record {
  unique_hash = λ a b ma mb. h.unique_hash a b (subst (Memᴰ a) same ma) (subst (Memᴰ b) same mb);
  one_live = λ a b ma mb. h.one_live a b (subst (Memᴰ a) same ma) (subst (Memᴰ b) same mb);
}

pub added_member :
    (m : OrganizationUser) (db : Db) → (add_org_membership m db).1.invitations ≡ db.invitations
unfolding add_org_membership
added_member m db =
    elim (Bool-cases (any (is_membership m.user_id m.org_id) db.organization_users)) [
      | inl there ↦ rw there refl
      | inr new ↦ rw new refl
    ]

pub InvitationRules-IsSound : InvitationRules IsSound
unfolding settle create_user_with_org_membership create_notification
InvitationRules-IsSound = record {
  settle_rows = λ status p ends. record { at = λ db h. settled-IsSound status _ db ends h };
  add_account = λ u m. Keeps-modify IsSound _ (λ db h. same_invitations db _ refl h);
  add_member = λ m. record { at = λ db h. same_invitations db _ (added_member m db) h };
  add_notice = λ n. Keeps-modify IsSound _ (λ db h. same_invitations db _ refl h);
}

-- A pending invitation of a new token, where no other is pending for its recipient.
inserted-IsSound :
    (db : Db) (i : Invitation)
    → NewToken db i.token_hash
    → ((j : Invitation)
        → Memᴰ j db.invitations
        → is_pending j ≡ true
        → j.org_id ≡ i.org_id
        → j.email ≡ i.email
        → ⊥)
    → IsSound db
    → IsSound (insert_invitation i db).1
unfolding insert_invitation
inserted-IsSound db i fresh alone h = record {
  unique_hash = λ a b ma mb same. elim (split a ma) [
    | inl old_a ↦ elim (split b mb) [
      | inl old_b ↦ h.unique_hash a b old_a old_b same
      | inr new_b ↦ absurd (fresh a old_a (same ∙ ap (λ (x : Invitation). x.token_hash) new_b))
    ]
    | inr new_a ↦ elim (split b mb) [
      | inl old_b ↦ absurd (fresh b old_b (sym same ∙ ap (λ (x : Invitation). x.token_hash) new_a))
      | inr new_b ↦ new_a ∙ sym new_b
    ]
  ];
  one_live = λ a b ma mb la lb org email. elim (split a ma) [
    | inl old_a ↦ elim (split b mb) [
      | inl old_b ↦ h.one_live a b old_a old_b la lb org email
      | inr new_b ↦ absurd (
          alone a old_a la (org ∙ ap (λ (x : Invitation). x.org_id) new_b)
            (email ∙ ap (λ (x : Invitation). x.email) new_b))
    ]
    | inr new_a ↦ elim (split b mb) [
      | inl old_b ↦ absurd (
          alone b old_b lb (sym org ∙ ap (λ (x : Invitation). x.org_id) new_a)
            (sym email ∙ ap (λ (x : Invitation). x.email) new_a))
      | inr new_b ↦ new_a ∙ sym new_b
    ]
  ];
}
  where
    split : (a : Invitation) → Memᴰ a (db.invitations ++ i ∷ []) → Memᴰ a db.invitations ⊎ (a ≡ i)
    split a m =
        ⊎_elim inl (λ last. inr (Memᴰ.eq_of_singleton last))
          ((Memᴰ-append a db.invitations (i ∷ [])).0 m)

-- Nobody is pending for the recipient once the earlier ones are superseded.
superseded-alone :
    (db : Db) (org_id : ℕ) (email : String) (j : Invitation)
    → Memᴰ j (supersede_pending_for org_id email db).1.invitations
    → is_pending j ≡ true
    → j.org_id ≡ org_id
    → j.email ≡ email
    → ⊥
unfolding supersede_pending_for
superseded-alone db org_id email j m live org same =
    let (there, missed) =
      pending_before revoked refl (is_pending_for org_id email) db.invitations j m live in
    let texts = (eq_iff j.email email).1 same in
    false_not_true (sym missed ∙ ground (arith, org, texts, live))
  where
    false_not_true : ¬ (false ≡ true)
    false_not_true h = cc

pub superseded-NewToken :
    (db : Db) (org_id : ℕ) (email h : String)
    → NewToken db h
    → NewToken (supersede_pending_for org_id email db).1 h
unfolding supersede_pending_for
superseded-NewToken db org_id email h fresh i m same =
    let (x, there, e, hash) =
      settled_hash revoked refl (is_pending_for org_id email) db.invitations i m in
    fresh x there (sym hash ∙ same)

pub invite_at :
    (portal : Portal) (u : ActiveUser) (new_id : ℕ) (address : String) (role : OrgRole)
    (raw_token : String) (db : Db)
    → NewToken db (portal.hash_token raw_token)
    → IsSound db
    → IsSound (invite portal u new_id address role raw_token db).1
unfolding invite ◌>>=◌ ◌>>◌ gets resume raise_if supersede_pending_for insert_invitation modify
invite_at portal u new_id address role raw_token db fresh h =
    elim (Bool-cases
      (belongs db u.org_id (find_user_by_email db (normalize_email portal address)))) [
        | inl refused ↦ rw refused h
        | inr outside ↦ rw outside (
            (Keeps-then IsSound _ _
                (notify_invited-Keeps IsSound InvitationRules-IsSound portal u new_id raw_token _)
                (Keeps-pure IsSound _)).at
              _
              (inserted-IsSound
                (supersede_pending_for u.org_id (normalize_email portal address) db).1
                (new_invitation portal u new_id (normalize_email portal address) role raw_token)
                (superseded-NewToken db u.org_id (normalize_email portal address) _ fresh)
                (superseded-alone db u.org_id (normalize_email portal address))
                (settled-IsSound revoked _ db refl h)))
      ]
