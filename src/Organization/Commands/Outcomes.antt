-- ===== src/Organization/Commands/Outcomes.antt =====
-- Who may run the commands of src/modules/organization/app/commands, and what accepting an
-- invitation does.
use n2f_nest.Prelude.{◌≡◌}
use n2f_nest.Prelude.Maps.{Distinct}
use n2f_nest.Shared.Errors.{Failure, Result, ok, err, map_error, map_error-ok}
use n2f_nest.Shared.Text.{Text, text_eq}
use n2f_nest.Shared.Ids.{Identifier}
use n2f_nest.Shared.Effects.{Action, lift, ◌>>=◌, ◌>>◌, lift_cases}
use n2f_nest.Organization.Membership.{Membership}
use n2f_nest.Organization.Store.{OrganizationStore, find_active_for_identity}
use n2f_nest.Organization.Commands.{Ports, World, owner_or}
use n2f_nest.Organization.Commands.Members.{
  AddMembershipCommand, AddMembershipResult, add_membership, ChangeMembershipRoleCommand,
  ChangeMembershipRoleResult, change_membership_role, RevokeMembershipCommand,
  RevokeMembershipResult, revoke_membership,
}
use n2f_nest.Organization.Commands.Invite.{
  InviteIdentityCommand, InviteIdentityResult, invite_identity, RevokeInvitationCommand,
  RevokeInvitationResult, revoke_invitation,
}
use n2f_nest.Organization.Commands.Reads.{Authorized, owner_or-Authorized}

-- The commands that only an owner may run.
pub data OwnerCommand : Type 0 where
  adds_member : AddMembershipCommand → OwnerCommand
  changes_role : ChangeMembershipRoleCommand → OwnerCommand
  revokes_member : RevokeMembershipCommand → OwnerCommand
  invites : InviteIdentityCommand → OwnerCommand
  revokes_invitation : RevokeInvitationCommand → OwnerCommand

abbrev pub token_of : OwnerCommand → Text
token_of (adds_member c) = c.session_token
token_of (changes_role c) = c.session_token
token_of (revokes_member c) = c.session_token
token_of (invites c) = c.session_token
token_of (revokes_invitation c) = c.session_token

abbrev pub organization_of : OwnerCommand → Identifier
organization_of (adds_member c) = c.organization_id
organization_of (changes_role c) = c.organization_id
organization_of (revokes_member c) = c.organization_id
organization_of (invites c) = c.organization_id
organization_of (revokes_invitation c) = c.organization_id

abbrev pub ResultOf : OwnerCommand → Type 0
ResultOf (adds_member c) = AddMembershipResult
ResultOf (changes_role c) = ChangeMembershipRoleResult
ResultOf (revokes_member c) = RevokeMembershipResult
ResultOf (invites c) = InviteIdentityResult
ResultOf (revokes_invitation c) = RevokeInvitationResult

module _ {B G : Type 0} (ports : Ports B G) (read : OrganizationStore) (w : World B G) where
  abbrev pub run_owner_command : (c : OwnerCommand) → Result (ResultOf c) × World B G
  run_owner_command (adds_member c) = add_membership ports c read w
  run_owner_command (changes_role c) = change_membership_role ports c read w
  run_owner_command (revokes_member c) = revoke_membership ports c read w
  run_owner_command (invites c) = invite_identity ports c read w
  run_owner_command (revokes_invitation c) = revoke_invitation ports c read w

  -- It failed and nothing at all changed, or the session's identity was an active owner of the organization.
  pub data Guarded (token : Text) (organization : Identifier) {R : Type 0}
      : Result R × World B G → Type 0 where
    refused : {e : Failure} → Guarded token organization (err e, w)
    granted :
        {r : Result R × World B G} {actor : Identifier} {a : Membership}
        → ports.find_current token ≡ ok actor
        → Authorized read organization actor a
        → Guarded token organization r

  -- The first part of each of these commands.
  guard :
      {R : Type 0} (token : Text) (organization : Identifier) (named : Result (Unit {0}))
      (f : Failure → Failure) (forbidden : Failure)
      (rest : Identifier → Membership → Action (World B G) R)
      → Distinct read.memberships
      → Guarded token organization (
          (lift named
              >> (lift (map_error (ports.find_current token) f) >>= λ actor.
                  lift (owner_or forbidden (find_active_for_identity organization actor read))
                  >>= rest actor))
            w)
  guard token organization named f forbidden rest d =
      lift_cases (Guarded token organization) _ _ _ (λ e h. refused)
        λ u named.
          lift_cases (Guarded token organization) _ _ _ (λ e h. refused)
            λ actor known.
              lift_cases (Guarded token organization) _ _ _ (λ e h. refused)
                λ owner allowed.
                  granted (map_error-ok _ _ known)
                    (owner_or-Authorized read organization actor forbidden owner d allowed)

  -- Adding a member, changing a role, revoking a membership, inviting and revoking an invitation fail and change nothing,
  -- unless the session's identity holds an active owner's membership of the organization in the store that the
  -- command reads.
  pub owner_command-Guarded :
      (c : OwnerCommand)
      → Distinct read.memberships
      → Guarded (token_of c) (organization_of c) (run_owner_command c)
  unfolding add_membership change_membership_role revoke_membership invite_identity
      revoke_invitation
  owner_command-Guarded (adds_member c) d = guard c.session_token c.organization_id _ _ _ _ d
  owner_command-Guarded (changes_role c) d = guard c.session_token c.organization_id _ _ _ _ d
  owner_command-Guarded (revokes_member c) d = guard c.session_token c.organization_id _ _ _ _ d
  owner_command-Guarded (invites c) d = guard c.session_token c.organization_id _ _ _ _ d
  owner_command-Guarded (revokes_invitation c) d = guard c.session_token c.organization_id _ _ _ _ d
