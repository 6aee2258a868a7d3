-- ===== src/Invitations/Runs.antt =====
-- The invitations after any use of the service.
use specbook.Action.{Db}
use specbook.Invitations.Operations.{Operation, perform, Issues, InvitationRun, idle, asked}
use specbook.Invitations.Rules.{
  revoke_invitation-Keeps, accept_as_new_user-Keeps, accept_as_member-Keeps,
}
use specbook.Invitations.Sound.{IsSound, InvitationRules-IsSound, invite_at}

perform-IsSound : (o : Operation) (db : Db) → Issues db o → IsSound db → IsSound (perform o db)
unfolding perform
perform-IsSound (Operation.invite portal u new_id address role raw_token) db fresh h =
    invite_at portal u new_id address role raw_token db fresh h
perform-IsSound (Operation.revoke u id) db a h =
    (revoke_invitation-Keeps IsSound InvitationRules-IsSound u id).at db h
perform-IsSound (Operation.accept_as_new_user portal new_id token name password) db a h =
    (accept_as_new_user-Keeps IsSound InvitationRules-IsSound portal new_id token name password).at
      db h
perform-IsSound (Operation.accept_as_member portal u token) db a h =
    (accept_as_member-Keeps IsSound InvitationRules-IsSound portal u token).at db h

-- However the service is used, one address has one pending invitation to an organization at most,
-- and no token has two. A token is new when it is issued.
pub InvitationRun-IsSound : {start db : Db} → InvitationRun start db → IsSound start → IsSound db
InvitationRun-IsSound idle h = h
InvitationRun-IsSound (asked run o fresh) h =
    perform-IsSound o _ fresh (InvitationRun-IsSound run h)
