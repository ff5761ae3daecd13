-- ===== src/Organization/Commands/Members.antt =====
-- src/modules/organization/app/commands: add-membership.ts, change-membership-role.ts and
-- revoke-membership.ts
use n2f_nest.Prelude.{Option, none, some, [], ◌∷◌, String, if◌then◌else◌}
use n2f_nest.Prelude.Maps.{get, ◌===◌}
use n2f_nest.Shared.Errors.{Kind, Failure, failure, Result, ok, err, map_error}
use n2f_nest.Shared.Text.{Text, text_eq}
use n2f_nest.Shared.Values.{Value, string, Fields}
use n2f_nest.Shared.Ids.{Identifier}
use n2f_nest.Shared.Work.{WorkContext}
use n2f_nest.Shared.Effects.{Action, pure, lift, on_error, ◌>>=◌, ◌>>◌}
use n2f_nest.Organization.Failures.{dependency_failure}
use n2f_nest.Organization.Membership
use n2f_nest.Organization.Membership.{Membership, MembershipRole}
use n2f_nest.Organization.Store.{OrganizationStore, find_active_for_identity, find_for_identity}
use n2f_nest.Organization.Writers.{commit_membership}
use n2f_nest.Organization.History.{is_owner}
use n2f_nest.Organization.Commands.{
  Ports, World, role_name, payload_of, named_operation, owner_or, present, missing, next_id,
  new_event, through,
}
use n2f_nest.Organization.Commands.Create.{membership_payload}

pub record AddMembershipCommand : Type 0 where
  pub session_token : Text
  pub organization_id : Identifier
  pub identity_id : Identifier
  pub role : Value
  pub work : WorkContext

pub record AddMembershipResult : Type 0 where
  pub membership_id : Identifier
  pub identity_id : Identifier
  pub role : MembershipRole

pub record ChangeMembershipRoleCommand : Type 0 where
  pub session_token : Text
  pub organization_id : Identifier
  pub membership_id : Identifier
  pub role : Value
  pub work : WorkContext

pub record ChangeMembershipRoleResult : Type 0 where
  pub membership_id : Identifier
  pub role : MembershipRole

pub record RevokeMembershipCommand : Type 0 where
  pub session_token : Text
  pub organization_id : Identifier
  pub membership_id : Identifier
  pub work : WorkContext

-- The result's status is always `revoked`.
pub record RevokeMembershipResult : Type 0 where
  pub membership_id : Identifier

abbrev forbidden : String → Failure
forbidden type = failure Kind.forbidden type

abbrev not_found : String → Failure
not_found type = failure Kind.not_found type

-- The membership that `findById` returns, if it is one of the organization and not an owner's.
unfoldable pub lower_member : Identifier → Option Membership → Result Membership
lower_member organization none = err (not_found "organization.membership.not_found")
lower_member organization (some m) =
    if m.organization_id === organization
    then (if is_owner m.role then err (forbidden "organization.membership.owner_locked") else ok m)
    else err (not_found "organization.membership.not_found")

unfoldable pub role_payload : Membership → MembershipRole → Fields
role_payload m previous = payload_of (
    ("organization_id", string m.organization_id)
    ∷ ("identity_id", string m.identity_id)
    ∷ ("membership_id", string m.id)
    ∷ ("previous_role", string (role_name previous))
    ∷ ("role", string (role_name m.role))
    ∷ [])

module _ {B G : Type 0} (ports : Ports B G) where
  -- `AddMembership.execute`
  unfoldable pub add_membership :
      AddMembershipCommand → OrganizationStore → Action (World B G) AddMembershipResult
  add_membership command read = do
    lift (
        named_operation command.work "organization.membership.add"
          "organization.membership.invalid_operation")
    actor ← lift (map_error (ports.find_current command.session_token) dependency_failure)
    owner ← lift (
        owner_or (forbidden "organization.membership.add_forbidden")
          (find_active_for_identity command.organization_id actor read))
    identity ← lift (map_error (ports.find_active command.identity_id) dependency_failure)
    found ← lift (present (not_found "organization.membership.identity_not_found") identity)
    lift (
        missing (failure Kind.conflict "organization.membership.already_exists")
          (find_for_identity command.organization_id command.identity_id read))
    id ← next_id ports "organization.membership.id_generation"
    membership ← lift (
        Membership.add (record {
          id = id;
          organization_id = command.organization_id;
          identity_id = command.identity_id;
          role = command.role;
          created_at = ports.now;
        }))
    event_id ← next_id ports "organization.membership.id_generation"
    event ← lift (
        new_event ports event_id "organization.membership.added.v1" command.work
          (membership_payload membership) "membership" membership.id membership.organization_id)
    on_error dependency_failure (
        through ports (
          commit_membership ports.publish
            (record { membership = membership; event = event; work = command.work })))
    pure (record {
      membership_id = membership.id;
      identity_id = membership.identity_id;
      role = membership.role;
    })

  -- `ChangeMembershipRole.execute`
  unfoldable pub change_membership_role :
      ChangeMembershipRoleCommand
      → OrganizationStore
      → Action (World B G) ChangeMembershipRoleResult
  change_membership_role command read = do
    lift (
        named_operation command.work "organization.membership.role.change"
          "organization.membership.invalid_operation")
    actor ← lift (map_error (ports.find_current command.session_token) dependency_failure)
    owner ← lift (
        owner_or (forbidden "organization.membership.role_forbidden")
          (find_active_for_identity command.organization_id actor read))
    membership ←
        lift (lower_member command.organization_id (get command.membership_id read.memberships))
    changed ← lift (Membership.change_role membership command.role ports.now)
    event_id ← next_id ports "organization.membership.id_generation"
    event ← lift (
        new_event ports event_id "organization.membership.role.changed.v1" command.work
          (role_payload changed membership.role) "membership" changed.id changed.organization_id)
    on_error dependency_failure (
        through ports (
          commit_membership ports.publish
            (record { membership = changed; event = event; work = command.work })))
    pure (record { membership_id = changed.id; role = changed.role })

  -- `RevokeMembership.execute`
  unfoldable pub revoke_membership :
      RevokeMembershipCommand → OrganizationStore → Action (World B G) RevokeMembershipResult
  revoke_membership command read = do
    lift (
        named_operation command.work "organization.membership.revoke"
          "organization.membership.invalid_operation")
    actor ← lift (map_error (ports.find_current command.session_token) dependency_failure)
    owner ← lift (
        owner_or (forbidden "organization.membership.revoke_forbidden")
          (find_active_for_identity command.organization_id actor read))
    membership ←
        lift (lower_member command.organization_id (get command.membership_id read.memberships))
    revoked ← lift (Membership.revoke membership ports.now)
    event_id ← next_id ports "organization.membership.id_generation"
    event ← lift (
        new_event ports event_id "organization.membership.revoked.v1" command.work
          (membership_payload revoked) "membership" revoked.id revoked.organization_id)
    on_error dependency_failure (
        through ports (
          commit_membership ports.publish
            (record { membership = revoked; event = event; work = command.work })))
    pure (record { membership_id = revoked.id })
