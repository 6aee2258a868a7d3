-- ===== src/Invitations/Operations.antt =====
-- The operations of apps/api/src/invitations/invitation.service.ts, one after the other.
use specbook.Base.{ℕ, String, ◌≢◌, Memᴰ}
use specbook.Rows.{ActiveUser, OrgRole}
use specbook.Rows.Accounts.{Invitation}
use specbook.Action.{Db}
use specbook.Invitations.Service
use specbook.Invitations.Service.{Portal}

-- The unique index refuses a token that is known.
abbrev pub NewToken : Db → String → Type 0
NewToken db token_hash = (i : Invitation) → Memᴰ i db.invitations → i.token_hash ≢ token_hash

-- What is asked of the service.
pub data Operation : Type 0 where
  invite : Portal → ActiveUser → ℕ → String → OrgRole → String → Operation
  revoke : ActiveUser → ℕ → Operation
  accept_as_new_user : Portal → ℕ → String → String → String → Operation
  accept_as_member : Portal → ActiveUser → String → Operation

unfoldable pub perform : Operation → Db → Db
perform (Operation.invite portal u new_id address role raw_token) db =
    (Service.invite portal u new_id address role raw_token db).1
perform (Operation.revoke u id) db = (Service.revoke_invitation u id db).1
perform (Operation.accept_as_new_user portal new_id token name password) db =
    (Service.accept_as_new_user portal new_id token name password db).1
perform (Operation.accept_as_member portal u token) db =
    (Service.accept_as_member portal u token db).1

abbrev pub Issues : Db → Operation → Type 0
Issues db (Operation.invite portal u new_id address role raw_token) =
    NewToken db (portal.hash_token raw_token)
Issues db _ = Unit {0}

-- Any number of operations, by anybody.
pub data InvitationRun (start : Db) : Db → Type 0 where
  idle : InvitationRun start start
  asked :
      {db : Db}
      → InvitationRun start db
      → (o : Operation) → Issues db o
      → InvitationRun start (perform o db)
