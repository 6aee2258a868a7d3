-- ===== src/Invitations/Spent.antt =====
-- A token that was taken stays taken: the single-use gate of `consumePending`.
use specbook.Base.{
  ℕ, String, ◌≡◌, refl, sym, ap, ◌∙◌, inl, inr, Bool, true, false, some, [], ◌∷◌, find?-some,
  set_where, ◌==◌, ==_self, ◌&&◌, Memᴰ, Memᴰ-set_where_intro, Memᴰ-append, Bool-cases, Option-cases,
  arith, if◌then◌else◌,
}
use mathlib.Core.List.Memᴰ
use mathlib.Core.Path.{subst}
use text.Mathlib.TextEquality.{eq_iff}
use specbook.Rows.{ActiveUser, OrgRole}
use specbook.Rows.Accounts.{Invitation, InvitationStatus, pending, accepted, revoked}
use specbook.Result.{Error, err, invitation_not_found}
use specbook.Action.{Db, ◌>>=◌, ◌>>◌, gets, resume, modify, raise_if}
use specbook.Action.Keeps.{Keeps-modify, Keeps-then, Keeps-pure}
use specbook.TaskRepository.{create_notification}
use specbook.Invitations.{
  same_invitation_status, is_pending, with_status, settle, consume_pending, insert_invitation,
  supersede_pending_for, create_user_with_org_membership, find_by_token_hash, find_user_by_email,
}
use specbook.Invitations.Service.{
  Portal, new_invitation, normalize_email, invite, belongs, assert_redeemable, effective_status,
}
use specbook.Invitations.Operations.{
  Operation, NewToken, perform, Issues, InvitationRun, idle, asked,
}
use specbook.Invitations.Rules.{
  InvitationRules, notify_invited-Keeps, revoke_invitation-Keeps, accept_as_new_user-Keeps,
  accept_as_member-Keeps,
}
use specbook.Invitations.Sound.{IsSound, settled_hash, added_member, superseded-NewToken}
use specbook.Invitations.Verdict.{ended_refused}

-- The token was issued, and none of its invitations is pending.
pub record IsSpent (token_hash : String) (db : Db) : Type 0 where
  pub issued : (i : Invitation) × Memᴰ i db.invitations × (i.token_hash ≡ token_hash)
  pub ended :
      (i : Invitation) → Memᴰ i db.invitations → i.token_hash ≡ token_hash → is_pending i ≡ false

true_not_false : ¬ (true ≡ false)
true_not_false x = cc

module _ (h : String) where
  IsSpent-set :
      (status : InvitationStatus) (p : Invitation → Bool) (db : Db)
      → same_invitation_status status pending ≡ false
      → IsSpent h db
      → IsSpent h (record db { invitations = set_where p (with_status status) db.invitations })
  unfolding with_status
  IsSpent-set status p db ends spent = record {
    issued =
        let (i, m, same) = spent.issued in
        (
          (if p i then with_status status i else i),
          Memᴰ-set_where_intro p (with_status status) i db.invitations m,
          ground (arith, same),
        );
    ended = λ a m same.
        let (x, there, e, hash) = settled_hash status ends p db.invitations a m in
        let was = spent.ended x there (sym hash ∙ same) in
        ap is_pending e
        ∙ elim (Bool-cases (p x)) [ inl hit ↦ rw hit ends | inr miss ↦ rw miss was ];
  }

  IsSpent-same : (db new : Db) → new.invitations ≡ db.invitations → IsSpent h db → IsSpent h new
  IsSpent-same db new same spent = record {
    issued = let (i, m, e) = spent.issued in (i, subst (Memᴰ i) (sym same) m, e);
    ended = λ i m. spent.ended i (subst (Memᴰ i) same m);
  }

  IsSpent-added :
      (i : Invitation) (db : Db)
      → NewToken db i.token_hash
      → IsSpent h db
      → IsSpent h (insert_invitation i db).1
  unfolding insert_invitation
  IsSpent-added i db fresh spent = record {
    issued =
        let (j, m, e) = spent.issued in (j, (Memᴰ-append j db.invitations (i ∷ [])).1 (inl m), e);
    ended = λ j m same. elim ((Memᴰ-append j db.invitations (i ∷ [])).0 m) [
      | inl old ↦ spent.ended j old same
      | inr last ↦
          let (k, there, e) = spent.issued in
          let j_is = Memᴰ.eq_of_singleton last in
          absurd (fresh k there (e ∙ sym same ∙ ap (λ (x : Invitation). x.token_hash) j_is))
    ];
  }

  pub InvitationRules-IsSpent : InvitationRules (IsSpent h)
  unfolding settle create_user_with_org_membership create_notification
  InvitationRules-IsSpent = record {
    settle_rows = λ status p ends. record { at = λ db spent. IsSpent-set status _ db ends spent };
    add_account = λ u m. Keeps-modify (IsSpent h) _ (λ db spent. IsSpent-same db _ refl spent);
    add_member = λ m. record { at = λ db spent. IsSpent-same db _ (added_member m db) spent };
    add_notice = λ n. Keeps-modify (IsSpent h) _ (λ db spent. IsSpent-same db _ refl spent);
  }

  invite-IsSpent :
      (portal : Portal) (u : ActiveUser) (new_id : ℕ) (address : String) (role : OrgRole)
      (raw_token : String) (db : Db)
      → NewToken db (portal.hash_token raw_token)
      → IsSpent h db
      → IsSpent h (invite portal u new_id address role raw_token db).1
  unfolding invite ◌>>=◌ ◌>>◌ gets resume raise_if supersede_pending_for insert_invitation modify
  invite-IsSpent portal u new_id address role raw_token db fresh spent =
      let email = normalize_email portal address in
      elim (Bool-cases (belongs db u.org_id (find_user_by_email db email))) [
        | inl refused ↦ rw refused spent
        | inr outside ↦ rw outside (
            (Keeps-then (IsSpent h) _ _
                (notify_invited-Keeps (IsSpent h) InvitationRules-IsSpent portal u new_id raw_token
                  _)
                (Keeps-pure (IsSpent h) _)).at
              _
              (IsSpent-added (new_invitation portal u new_id email role raw_token)
                (supersede_pending_for u.org_id email db).1
                (superseded-NewToken db u.org_id email _ fresh)
                (IsSpent-set revoked _ db refl spent)))
      ]

  perform-IsSpent :
      (o : Operation) (db : Db) → Issues db o → IsSpent h db → IsSpent h (perform o db)
  unfolding perform
  perform-IsSpent (Operation.invite portal u new_id address role raw_token) db fresh spent =
      invite-IsSpent portal u new_id address role raw_token db fresh spent
  perform-IsSpent (Operation.revoke u id) db a spent =
      (revoke_invitation-Keeps (IsSpent h) InvitationRules-IsSpent u id).at db spent
  perform-IsSpent (Operation.accept_as_new_user portal new_id token name password) db a spent =
      (accept_as_new_user-Keeps (IsSpent h) InvitationRules-IsSpent portal new_id token name
          password).at
        db spent
  perform-IsSpent (Operation.accept_as_member portal u token) db a spent =
      (accept_as_member-Keeps (IsSpent h) InvitationRules-IsSpent portal u token).at db spent

  pub InvitationRun-IsSpent :
      {start db : Db} → InvitationRun start db → IsSpent h start → IsSpent h db
  InvitationRun-IsSpent idle spent = spent
  InvitationRun-IsSpent (asked run o fresh) spent =
      perform-IsSpent o _ fresh (InvitationRun-IsSpent run spent)

  pub found_row :
      (db : Db) (i : Invitation)
      → find_by_token_hash db h ≡ some i
      → Memᴰ i db.invitations × (i.token_hash ≡ h)
  unfolding find_by_token_hash
  found_row db i found =
      let (m, passes) = find?-some _ db.invitations found in
      (m, (eq_iff i.token_hash h).0 (ground arith))

  -- The gate, won or lost, leaves the invitation ended.
  pub consumed-IsSpent :
      (db : Db) (i : Invitation)
      → IsSound db
      → Memᴰ i db.invitations
      → i.token_hash ≡ h
      → IsSpent h (consume_pending i.id db).1
  unfolding consume_pending settle with_status
  consumed-IsSpent db i sound m same =
      let hit = λ (x : Invitation). x.id == i.id && is_pending x in
      record {
        issued = (
          (if hit i then with_status accepted i else i),
          Memᴰ-set_where_intro hit (with_status accepted) i db.invitations m,
          ground (arith, same),
        );
        ended = λ a ma same_a.
            let (x, there, e, hash) = settled_hash accepted refl hit db.invitations a ma in
            let x_is = sound.unique_hash x i there m (sym hash ∙ same_a ∙ sym same) in
            ap is_pending e
            ∙ (subst (λ y. is_pending (if hit y then with_status accepted y else y) ≡ false)
                (sym x_is)
                (elim (Bool-cases (is_pending i)) [
                  | inl live ↦ rw (==_self i.id, live) refl
                  | inr over ↦ rw (==_self i.id, over) over
                ]));
      }

  -- A spent token is refused.
  pub spent_refused :
      (db : Db) (now : ℕ)
      → IsSpent h db
      → (x : Error) × (assert_redeemable now (find_by_token_hash db h) ≡ err x)
  unfolding assert_redeemable effective_status
  spent_refused db now spent = elim (Option-cases (find_by_token_hash db h)) [
    | inl nothing ↦ (invitation_not_found, rw nothing refl)
    | inr (i, found) ↦
        let (m, same) = found_row db i found in
        let (x, e) = ended_refused now i (spent.ended i m same) in (x, rw found e)
  ]
