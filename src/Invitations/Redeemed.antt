-- ===== src/Invitations/Redeemed.antt =====
-- A link works once.
use specbook.Base.{
  ℕ, String, ◌≡◌, refl, sym, ap, ◌∙◌, inl, inr, Bool, true, false, not, some, is_some, is_text,
  Memᴰ, Bool-cases, Option-cases, if◌then◌else◌,
}
use mathlib.Core.Path.{subst}
use specbook.Rows.{ActiveUser}
use specbook.Rows.Accounts.{Invitation}
use specbook.Result.{
  Result, or_fail, fail_if, ok, invitation_not_found, account_exists, unauthorized, email_mismatch,
}
use specbook.Action.{Db, Action, ◌>>=◌, ◌>>◌, gets, check, or_raise, resume, raise_if, pure}
use specbook.Action.Keeps.{bind_at, Keeps-then, Keeps-pure, Keeps-raise_if, Keeps-check}
use specbook.Action.Runs.{check_ok}
use specbook.Invitations.{
  is_pending, settle, consume_pending, is_member_of, find_by_token_hash, find_user_by_email,
  find_account_by_id,
}
use specbook.Invitations.Service.{
  Portal, normalize_email, accept_as_new_user, accept_as_member, join, create_account, take_up,
  assert_redeemable,
}
use specbook.Invitations.Operations.{InvitationRun}
use specbook.Invitations.Sound.{IsSound}
use specbook.Invitations.Verdict.{ended_refused, redeemable_row, or_fail-some}
use specbook.Invitations.Spent.{
  IsSpent, InvitationRules-IsSpent, InvitationRun-IsSpent, found_row, consumed-IsSpent,
  spent_refused,
}

module _ (portal : Portal) (token : String) (db : Db) (sound : IsSound db) where
  abbrev hash : String
  hash = portal.hash_token token

  new_user-IsSpent :
      (new_id : ℕ) (name password : String)
      → (accept_as_new_user portal new_id token name password db).0 ≡ ok tt
      → IsSpent hash (accept_as_new_user portal new_id token name password db).1
  unfolding accept_as_new_user create_account ◌>>◌ ◌>>=◌ raise_if gets resume
  new_user-IsSpent new_id name password done =
      let (i, live, run) =
        check_ok
          (λ db. assert_redeemable portal.now (find_by_token_hash db (portal.hash_token token))) _
          db done in
      let (m, same) = found_row hash db i (redeemable_row portal.now _ live) in
      subst (λ (r : Result (Unit {0}) × Db). IsSpent hash r.1) (sym run)
        (go i m same (is_some (find_user_by_email db i.email))
          (ap (λ (r : Result (Unit {0}) × Db). r.0) (sym run) ∙ done))
    where
      go :
          (i : Invitation) (m : Memᴰ i db.invitations) (same : i.token_hash ≡ hash) (taken : Bool)
          → ((raise_if taken account_exists >> create_account portal new_id i name password) db).0
            ≡ ok tt
          → IsSpent hash
              ((raise_if taken account_exists >> create_account portal new_id i name password) db).1
      go i m same true h = cc
      go i m same false h =
          bind_at (IsSpent hash) (consume_pending i.id) _ db
            (consumed-IsSpent hash db i sound m same)
            (λ won. Keeps-then (IsSpent hash) _ _ (Keeps-raise_if (IsSpent hash) _ _) (
              Keeps-then (IsSpent hash) _ _ ((InvitationRules-IsSpent hash).add_account _ _)
                (Keeps-check (IsSpent hash) _)))

  joined-IsSpent :
      (u : ActiveUser) (i : Invitation)
      → Memᴰ i db.invitations
      → i.token_hash ≡ hash
      → (join portal u i db).0 ≡ ok tt
      → IsSpent hash (join portal u i db).1
  unfolding join
  joined-IsSpent u i m same done =
      let (row, live, run) = check_ok (λ db. assert_redeemable portal.now (some i)) _ db done in
      subst (λ (r : Result (Unit {0}) × Db). IsSpent hash r.1) (sym run)
        (bind_at (IsSpent hash) (consume_pending i.id) _ db
          (consumed-IsSpent hash db i sound m same)
          (λ won.
            Keeps-then (IsSpent hash) _ _ (Keeps-raise_if (IsSpent hash) _ _)
              ((InvitationRules-IsSpent hash).add_member _)))

  taken_up-IsSpent :
      (u : ActiveUser) (i : Invitation)
      → Memᴰ i db.invitations
      → i.token_hash ≡ hash
      → (take_up portal u i db).0 ≡ ok tt
      → IsSpent hash (take_up portal u i db).1
  unfolding take_up ◌>>=◌ gets resume
  taken_up-IsSpent u i m same = go (is_member_of db u.user_id i.org_id)
    where
      go :
          (belongs_already : Bool)
          → ((if belongs_already
                then (consume_pending i.id >>= λ won. pure tt)
                else join portal u i)
              db).0
            ≡ ok tt
          → IsSpent hash
              ((if belongs_already
                  then (consume_pending i.id >>= λ won. pure tt)
                  else join portal u i)
                db).1
      go true done =
          bind_at (IsSpent hash) (consume_pending i.id) _ db
            (consumed-IsSpent hash db i sound m same) (λ won. Keeps-pure (IsSpent hash) tt)
      go false done = joined-IsSpent u i m same done

  member-IsSpent :
      (u : ActiveUser)
      → (accept_as_member portal u token db).0 ≡ ok tt
      → IsSpent hash (accept_as_member portal u token db).1
  unfolding accept_as_member ◌>>=◌ ◌>>◌ gets resume or_raise raise_if check
  member-IsSpent u done =
      let (i, found, run) =
        check_ok (λ db. or_fail invitation_not_found (find_by_token_hash db hash)) _ db done in
      let (m, same) = found_row hash db i (or_fail-some _ _ found) in
      let fst_ = λ (r : Result (Unit {0}) × Db). r.0 in
      let (person, account, run_person) =
        check_ok (λ db. or_fail unauthorized (find_account_by_id db u.user_id)) _ db
          (ap fst_ (sym run) ∙ done) in
      let (passed, match, run_match) =
        check_ok
          (λ db.
            fail_if
              (not (
                is_text (some (normalize_email portal person.email))
                  (normalize_email portal i.email)))
              email_mismatch)
          _ db (ap fst_ (sym (run ∙ run_person)) ∙ done) in
      let whole = run ∙ run_person ∙ run_match in
      subst (λ (r : Result (Unit {0}) × Db). IsSpent hash r.1) (sym whole)
        (taken_up-IsSpent u i m same (ap fst_ (sym whole) ∙ done))

-- Who takes a link: somebody new, or the account of a session.
pub data Acceptance : Type 0 where
  by_new_user : ℕ → String → String → Acceptance
  by_member : ActiveUser → Acceptance

abbrev pub accept : Portal → String → Acceptance → Action (Unit {0})
accept portal token (by_new_user new_id name password) =
    accept_as_new_user portal new_id token name password
accept portal token (by_member u) = accept_as_member portal u token

accept-IsSpent :
    (portal : Portal) (token : String) (who : Acceptance) (db : Db)
    → IsSound db
    → (accept portal token who db).0 ≡ ok tt
    → IsSpent (portal.hash_token token) (accept portal token who db).1
accept-IsSpent portal token (by_new_user new_id name password) db sound done =
    new_user-IsSpent portal token db sound new_id name password done
accept-IsSpent portal token (by_member u) db sound done =
    member-IsSpent portal token db sound u done

module _ (portal : Portal) (token : String) (db : Db)
    (spent : IsSpent (portal.hash_token token) db) where
  new_user_refused :
      (new_id : ℕ) (name password : String)
      → (accept_as_new_user portal new_id token name password db).1 ≡ db
  unfolding accept_as_new_user ◌>>=◌ check resume
  new_user_refused new_id name password =
      let (x, refused) = spent_refused (portal.hash_token token) db portal.now spent in
      rw refused refl

  join_refused :
      (u : ActiveUser) (i : Invitation) → is_pending i ≡ false → (join portal u i db).1 ≡ db
  unfolding join ◌>>=◌ check resume
  join_refused u i over = let (x, refused) = ended_refused portal.now i over in rw refused refl

  take_up_adds_nobody :
      (u : ActiveUser) (i : Invitation)
      → is_pending i ≡ false
      → (take_up portal u i db).1.organization_users ≡ db.organization_users
  unfolding take_up ◌>>=◌ gets resume consume_pending settle pure
  take_up_adds_nobody u i over = elim (Bool-cases (is_member_of db u.user_id i.org_id)) [
    | inl already ↦ rw already refl
    | inr outside ↦ rw outside (ap (λ (d : Db). d.organization_users) (join_refused u i over))
  ]

  member_adds_nobody :
      (u : ActiveUser)
      → (accept_as_member portal u token db).1.organization_users ≡ db.organization_users
  unfolding accept_as_member ◌>>=◌ ◌>>◌ gets resume or_raise raise_if
  member_adds_nobody u = elim (Option-cases (find_by_token_hash db (portal.hash_token token))) [
    | inl nothing ↦ rw nothing refl
    | inr (i, found) ↦ rw found (elim (Option-cases (find_account_by_id db u.user_id)) [
      | inl nobody ↦ rw nobody refl
      | inr (person, account) ↦
          rw account
            (elim (Bool-cases (
              is_text (some (normalize_email portal person.email))
                (normalize_email portal i.email))) [
                  | inr other ↦ rw other refl
                  | inl match ↦ rw match (
                      take_up_adds_nobody u i (
                        let (m, same) = found_row (portal.hash_token token) db i found in
                        spent.ended i m same))
                ])
    ])
  ]

-- A link works once. After somebody took it, whatever else is asked of the service, with new tokens
-- only, an attempt with the same token to sign up changes nothing at all, and one to join by an
-- account that exists gives nobody a membership.
pub redeemed_once :
    (portal later : Portal) (token again : String) (who : Acceptance) (db now : Db)
    → IsSound db
    → (accept portal token who db).0 ≡ ok tt
    → InvitationRun (accept portal token who db).1 now
    → later.hash_token again ≡ portal.hash_token token
    → ((new_id : ℕ) (name password : String)
        → (accept_as_new_user later new_id again name password now).1 ≡ now)
      × ((u : ActiveUser)
          → (accept_as_member later u again now).1.organization_users ≡ now.organization_users)
redeemed_once portal later token again who db now sound done run same =
    let spent : IsSpent (later.hash_token again) now =
      subst (λ h. IsSpent h now) (sym same)
        (InvitationRun-IsSpent (portal.hash_token token) run
          (accept-IsSpent portal token who db sound done)) in
    (new_user_refused later again now spent, member_adds_nobody later again now spent)
