-- ===== src/Invitations/Verdict.antt =====
-- What `assertRedeemable` says of an invitation.
use specbook.Base.{ℕ, ◌≡◌, refl, ap, ◌∙◌, true, false, Option, none, some}
use specbook.Rows.Accounts.{Invitation, InvitationStatus, pending, accepted, revoked, expired}
use specbook.Result.{
  Result, or_fail, Error, ok, err, already_accepted, invitation_revoked, invitation_expired,
}
use specbook.Invitations.{same_invitation_status, is_pending}
use specbook.Invitations.Service.{verdict, assert_redeemable, effective_status}

abbrev pub row_of : {A : Type 0} → A → Result A → Option A
row_of x (ok y) = some y
row_of x (err z) = some x

pub or_fail-some : {A : Type 0} (e : Error) (o : Option A) {a : A} → or_fail e o ≡ ok a → o ≡ some a
or_fail-some e none h = cc
or_fail-some e (some b) h = ap (row_of b) h

true_not_false : ¬ (true ≡ false)
true_not_false h = cc

pub verdict_err :
    (i : Invitation) (status : InvitationStatus)
    → same_invitation_status status pending ≡ false
    → (x : Error) × (verdict i status ≡ err x)
verdict_err i pending h = absurd (true_not_false h)
verdict_err i accepted h = (already_accepted, refl)
verdict_err i revoked h = (invitation_revoked, refl)
verdict_err i expired h = (invitation_expired, refl)

pub verdict_ok :
    (j i : Invitation) (status : InvitationStatus) → verdict j status ≡ ok i → some j ≡ some i
verdict_ok j i pending h = ap (row_of j) h
verdict_ok j i accepted h = cc
verdict_ok j i revoked h = cc
verdict_ok j i expired h = cc

pub effective_status-ended :
    (now : ℕ) (i : Invitation) → is_pending i ≡ false → effective_status now i ≡ i.status
unfolding effective_status
effective_status-ended now i over = rw over refl

pub ended_refused :
    (now : ℕ) (i : Invitation)
    → is_pending i ≡ false
    → (x : Error) × (assert_redeemable now (some i) ≡ err x)
unfolding assert_redeemable
ended_refused now i over =
    verdict_err i (effective_status now i)
      (ap (λ s. same_invitation_status s pending) (effective_status-ended now i over) ∙ over)

pub redeemable_row :
    (now : ℕ) (o : Option Invitation) {i : Invitation} → assert_redeemable now o ≡ ok i → o ≡ some i
unfolding assert_redeemable
redeemable_row now none h = cc
redeemable_row now (some j) {i} h = verdict_ok j i (effective_status now j) h
