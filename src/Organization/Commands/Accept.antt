-- ===== src/Organization/Commands/Accept.antt =====
-- src/modules/organization/app/commands/accept-invitation.ts
use n2f_nest.Prelude.{[], ◌∷◌}
use n2f_nest.Prelude.Maps.{get, ◌===◌}
use n2f_nest.Shared.Errors.{Kind, failure, require, map_error}
use n2f_nest.Shared.Text.{Text, text_eq}
use n2f_nest.Shared.Values.{string, Fields}
use n2f_nest.Shared.Ids.{Identifier}
use n2f_nest.Shared.Work.{WorkContext}
use n2f_nest.Shared.Effects.{Action, pure, lift, on_error, ◌>>=◌, ◌>>◌}
use n2f_nest.Organization.Failures.{dependency_failure}
use n2f_nest.Organization.Membership
use n2f_nest.Organization.Membership.{Membership, MembershipRole}
use n2f_nest.Organization.Invitation
use n2f_nest.Organization.Invitation.{Invitation, InvitationRole}
use n2f_nest.Organization.Store.{OrganizationStore, find_for_identity}
use n2f_nest.Organization.Writers.{commit_acceptance}
use n2f_nest.Organization.History.{role_text}
use n2f_nest.Organization.Commands.{
  Ports, World, role_name, payload_of, named_operation, missing, next_id, new_event, through,
}
use n2f_nest.Organization.Commands.Invite.{invitation_in, invitation_payload}

pub record AcceptInvitationCommand : Type 0 where
  pub session_token : Text
  pub organization_id : Identifier
  pub invitation_id : Identifier
  pub work : WorkContext

pub record AcceptInvitationResult : Type 0 where
  pub invitation_id : Identifier
  pub membership_id : Identifier
  pub organization_id : Identifier
  pub identity_id : Identifier
  pub role : InvitationRole

unfoldable pub accepted_payload : Membership → Identifier → Fields
accepted_payload m invitation = payload_of (
    ("organization_id", string m.organization_id)
    ∷ ("identity_id", string m.identity_id)
    ∷ ("membership_id", string m.id)
    ∷ ("role", string (role_name m.role))
    ∷ ("invitation_id", string invitation)
    ∷ [])

module _ {B G : Type 0} (ports : Ports B G) where
  -- `AcceptInvitation.execute`
  unfoldable pub accept_invitation :
      AcceptInvitationCommand → OrganizationStore → Action (World B G) AcceptInvitationResult
  accept_invitation command read = do
    lift (
        named_operation command.work "organization.invitation.accept"
          "organization.invitation.invalid_operation")
    actor ← lift (map_error (ports.find_current command.session_token) dependency_failure)
    invitation ←
        lift (invitation_in command.organization_id (get command.invitation_id read.invitations))
    lift (
        require (invitation.identity_id === actor)
          (failure Kind.forbidden "organization.invitation.accept_forbidden"))
    lift (
        missing (failure Kind.conflict "organization.invitation.membership_exists")
          (find_for_identity command.organization_id actor read))
    accepted ← lift (Invitation.accept invitation ports.now)
    membership_id ← next_id ports "organization.invitation.id_generation"
    membership ← lift (
        Membership.add (record {
          id = membership_id;
          organization_id = accepted.organization_id;
          identity_id = accepted.identity_id;
          role = string (role_text accepted.role);
          created_at = ports.now;
        }))
    invitation_event_id ← next_id ports "organization.invitation.id_generation"
    invitation_event ← lift (
        new_event ports invitation_event_id "organization.invitation.accepted.v1" command.work
          (invitation_payload accepted) "invitation" accepted.id accepted.organization_id)
    membership_event_id ← next_id ports "organization.invitation.id_generation"
    membership_event ← lift (
        new_event ports membership_event_id "organization.membership.added.v1" command.work
          (accepted_payload membership accepted.id) "membership" membership.id
          membership.organization_id)
    on_error dependency_failure (
        through ports (
          commit_acceptance ports.publish (record {
            invitation = accepted;
            membership = membership;
            events = invitation_event ∷ membership_event ∷ [];
            work = command.work;
          })))
    pure (record {
      invitation_id = accepted.id;
      membership_id = membership.id;
      organization_id = membership.organization_id;
      identity_id = membership.identity_id;
      role = accepted.role;
    })
