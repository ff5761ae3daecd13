-- ===== src/Organization/Commands/Invite.antt =====
-- src/modules/organization/app/commands: invite-identity.ts and revoke-invitation.ts
use n2f_nest.Prelude.{Option, none, some, [], ◌∷◌, String, if◌then◌else◌}
use n2f_nest.Prelude.Maps.{get, ◌===◌}
use n2f_nest.Shared.Errors.{Kind, Failure, failure, Result, ok, err, map_error}
use n2f_nest.Shared.Dates.{Time}
use n2f_nest.Shared.Text.{Text, text_eq}
use n2f_nest.Shared.Values.{Value, string, Fields}
use n2f_nest.Shared.Ids.{Identifier}
use n2f_nest.Shared.Work.{WorkContext}
use n2f_nest.Shared.Effects.{Action, pure, lift, on_error, ◌>>=◌, ◌>>◌}
use n2f_nest.Organization.Failures.{dependency_failure}
use n2f_nest.Organization.Invitation
use n2f_nest.Organization.Invitation.{Invitation, InvitationRole}
use n2f_nest.Organization.Store.{
  OrganizationStore, find_active_for_identity, find_for_identity, find_pending_for_identity,
}
use n2f_nest.Organization.Writers.{commit_invitation}
use n2f_nest.Organization.History.{role_text}
use n2f_nest.Organization.Commands.{
  Ports, World, payload_of, later, named_operation, owner_or, present, missing, next_id, new_event,
  through,
}
use n2f_nest.Prelude.{ℕ, ◌*◌}

-- INVITATION_TTL_MS
abbrev pub invitation_ttl_ms : ℕ
invitation_ttl_ms = 7 * 24 * 60 * 60 * 1000

pub record InviteIdentityCommand : Type 0 where
  pub session_token : Text
  pub organization_id : Identifier
  pub identity_id : Identifier
  pub role : Value
  pub work : WorkContext

-- The result's status is always `pending`.
pub record InviteIdentityResult : Type 0 where
  pub invitation_id : Identifier
  pub identity_id : Identifier
  pub role : InvitationRole
  pub expires_at : Time

pub record RevokeInvitationCommand : Type 0 where
  pub session_token : Text
  pub organization_id : Identifier
  pub invitation_id : Identifier
  pub work : WorkContext

-- The result's status is always `revoked`.
pub record RevokeInvitationResult : Type 0 where
  pub invitation_id : Identifier

abbrev not_found : String → Failure
not_found type = failure Kind.not_found type

-- The invitation that `findById` returns, if it is one to the organization.
unfoldable pub invitation_in : Identifier → Option Invitation → Result Invitation
invitation_in organization none = err (not_found "organization.invitation.not_found")
invitation_in organization (some i) =
    if i.organization_id === organization
    then ok i
    else err (not_found "organization.invitation.not_found")

unfoldable pub invitation_payload : Invitation → Fields
invitation_payload i = payload_of (
    ("organization_id", string i.organization_id)
    ∷ ("identity_id", string i.identity_id)
    ∷ ("invitation_id", string i.id)
    ∷ ("role", string (role_text i.role))
    ∷ [])

unfoldable pub issued_payload : Invitation → Text → Fields
issued_payload i expires_at = payload_of (
    ("organization_id", string i.organization_id)
    ∷ ("identity_id", string i.identity_id)
    ∷ ("invitation_id", string i.id)
    ∷ ("role", string (role_text i.role))
    ∷ ("expires_at", string expires_at)
    ∷ [])

module _ {B G : Type 0} (ports : Ports B G) where
  -- `InviteIdentity.execute`
  unfoldable pub invite_identity :
      InviteIdentityCommand → OrganizationStore → Action (World B G) InviteIdentityResult
  invite_identity command read = do
    lift (
        named_operation command.work "organization.invitation.create"
          "organization.invitation.invalid_operation")
    actor ← lift (map_error (ports.find_current command.session_token) dependency_failure)
    owner ← lift (
        owner_or (failure Kind.forbidden "organization.invitation.forbidden")
          (find_active_for_identity command.organization_id actor read))
    identity ← lift (map_error (ports.find_active command.identity_id) dependency_failure)
    found ← lift (present (not_found "organization.invitation.identity_not_found") identity)
    lift (
        missing (failure Kind.conflict "organization.invitation.membership_exists")
          (find_for_identity command.organization_id command.identity_id read))
    lift (
        missing (failure Kind.conflict "organization.invitation.already_exists")
          (find_pending_for_identity command.organization_id command.identity_id read))
    id ← next_id ports "organization.invitation.id_generation"
    invitation ← lift (
        Invitation.issue (record {
          id = id;
          organization_id = command.organization_id;
          identity_id = command.identity_id;
          role = command.role;
          created_at = ports.now;
          expires_at = later ports.now invitation_ttl_ms;
        }))
    event_id ← next_id ports "organization.invitation.id_generation"
    event ← lift (
        new_event ports event_id "organization.invitation.created.v1" command.work
          (issued_payload invitation (ports.iso_string invitation.expires_at)) "invitation"
          invitation.id invitation.organization_id)
    on_error dependency_failure (
        through ports (
          commit_invitation ports.publish
            (record { invitation = invitation; event = event; work = command.work })))
    pure (record {
      invitation_id = invitation.id;
      identity_id = invitation.identity_id;
      role = invitation.role;
      expires_at = invitation.expires_at;
    })

  -- `RevokeInvitation.execute`
  unfoldable pub revoke_invitation :
      RevokeInvitationCommand → OrganizationStore → Action (World B G) RevokeInvitationResult
  revoke_invitation command read = do
    lift (
        named_operation command.work "organization.invitation.revoke"
          "organization.invitation.invalid_operation")
    actor ← lift (map_error (ports.find_current command.session_token) dependency_failure)
    owner ← lift (
        owner_or (failure Kind.forbidden "organization.invitation.revoke_forbidden")
          (find_active_for_identity command.organization_id actor read))
    invitation ←
        lift (invitation_in command.organization_id (get command.invitation_id read.invitations))
    revoked ← lift (Invitation.revoke invitation ports.now)
    event_id ← next_id ports "organization.invitation.id_generation"
    event ← lift (
        new_event ports event_id "organization.invitation.revoked.v1" command.work
          (invitation_payload revoked) "invitation" revoked.id revoked.organization_id)
    on_error dependency_failure (
        through ports (
          commit_invitation ports.publish
            (record { invitation = revoked; event = event; work = command.work })))
    pure (record { invitation_id = revoked.id })
